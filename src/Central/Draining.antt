-- ===== src/Central/Draining.antt =====
-- The work handler's loop: it empties the queue, oldest first, and what a report of it causes.
use zmk_ble_hid_host.Base.{
  ℕ, zero, suc, ◌*◌, ◌≤◌, ◌≡◌, refl, sym, ap, ◌∙◌, true, false, not, ◌&&◌, Option, none, some, List,
  [], ◌∷◌, length, ◌==◌, ◌>>=◌, arith, Bool-cases, inl, inr, ◌⊎◌,
}
use zmk_ble_hid_host.Layout.{PointerReport, empty_report}
use zmk_ble_hid_host.Decode.Pointer.{Returned, decode_report, payload_bits}
use zmk_ble_hid_host.Decode.Value.{IsBytes}
use zmk_ble_hid_host.Decode.Exact.{IsNarrow, report_value, decode_report-exact}
use zmk_ble_hid_host.Publish.Device.{Config, Queue, publish}
use zmk_ble_hid_host.Central.State.{ReportEvt, MessageQueue, Central}
use zmk_ble_hid_host.Central.Reports.{
  publish_decoded, handle_report, next_round, report_work_handler,
}

module _ (accepts : Queue) (cfg : Config) where
  -- Reports handled one after the other, as they would be if there were no queue.
  unfoldable pub handle_all : {Q : Type 0} → List ReportEvt → Central Q → Option (Central Q)
  handle_all [] c = some c
  handle_all (evt ∷ evts) c = handle_report accepts cfg evt c >>= handle_all evts

  -- A report is handled without a look at the queue.
  handle_report-msgq :
      (Q : Type 0) (evt : ReportEvt) (c : Central Q) (q : Q)
      → handle_report accepts cfg evt (record c { report_msgq = q })
        ≡ (handle_report accepts cfg evt c >>= λ d. some (record d { report_msgq = q }))
  unfolding handle_report
  handle_report-msgq Q evt c q = elim (Bool-cases (not c.layout_valid)) [
    | inl early ↦ rw early refl
    | inr valid ↦
        rw valid
          (elim (Bool-cases
            (not (c.sub_count == 1) && not (evt.report_id == (c.layout).report_id))) [
              | inl other ↦ rw other refl
              | inr ours ↦ rw ours (
                  by_result (decode_report (some c.layout) (some evt.evt_data) (some empty_report)))
            ])
  ]
    where
      moved : Option (Central Q) → Option (Central Q)
      moved r = r >>= λ d. some (record d { report_msgq = q })

      by_result :
          (r : Option (Returned PointerReport))
          → (r >>= λ s.
              some
                (record c { report_msgq = q; host_dev = publish_decoded accepts cfg s c.host_dev }))
            ≡ moved
                (r >>= λ s. some (record c { host_dev = publish_decoded accepts cfg s c.host_dev }))
      by_result none = refl
      by_result (some s) = refl

  module _ (mq : MessageQueue) where
    -- The queue after n successful gets.
    unfoldable pub drained : ℕ → mq.Carrier → mq.Carrier
    drained zero q = q
    drained (suc n) q = elim (mq.get q) [ none ↦ q | some (evt, rest) ↦ drained n rest ]

    drained-suc :
        (q : mq.Carrier) (evt : ReportEvt) (rest : mq.Carrier) (n : ℕ)
        → mq.get q ≡ some (evt, rest)
        → drained (suc n) q ≡ drained n rest
    unfolding drained
    drained-suc q evt rest n got = rw (got, drained) refl

    pub drained-queued :
        (q : mq.Carrier) (evts : List ReportEvt)
        → mq.queued q ≡ evts
        → mq.queued (drained (length evts) q) ≡ []
    unfolding drained
    drained-queued q [] h = h
    drained-queued q (evt ∷ evts) h =
        let (rest, got, left) = mq.get-queued q evt evts h in rw got (drained-queued rest evts left)

    -- Neither does the queue matter to what a list of reports does.
    handle_all-msgq :
        (evts : List ReportEvt) (c : Central mq.Carrier) (q q' : mq.Carrier)
        → (handle_all evts (record c { report_msgq = q }) >>= λ d.
            some (record d { report_msgq = q' }))
          ≡ (handle_all evts c >>= λ d. some (record d { report_msgq = q' }))
    unfolding handle_all
    handle_all-msgq [] c q q' = refl
    handle_all-msgq (evt ∷ evts) c q q' =
        ap (λ r. r >>= handle_all evts >>= λ d. some (record d { report_msgq = q' }))
          (handle_report-msgq mq.Carrier evt c q)
        ∙ later (handle_report accepts cfg evt c) (λ c'. handle_all-msgq evts c' q q')
      where
        later :
            (r : Option (Central mq.Carrier))
            → ((c' : Central mq.Carrier)
                → (handle_all evts (record c' { report_msgq = q }) >>= λ d.
                    some (record d { report_msgq = q' }))
                  ≡ (handle_all evts c' >>= λ d. some (record d { report_msgq = q' })))
            → (r >>= (λ d. some (record d { report_msgq = q })) >>= handle_all evts >>= λ d.
                some (record d { report_msgq = q' }))
              ≡ (r >>= handle_all evts >>= λ d. some (record d { report_msgq = q' }))
        later none h = refl
        later (some c') h = h c'

    -- Moving on with the queue `q'`, after which the handler runs and ends at the queue `q''`.
    handled_after :
        (r : Option (Central mq.Carrier)) (q' q'' : mq.Carrier) (fuel : ℕ) (evts : List ReportEvt)
        → ((c : Central mq.Carrier)
            → report_work_handler accepts cfg mq fuel (record c { report_msgq = q' }) ≡ (
                handle_all evts (record c { report_msgq = q' }) >>= λ d.
                some (record d { report_msgq = q'' })))
        → ((c : Central mq.Carrier)
            → (handle_all evts (record c { report_msgq = q' }) >>= λ d.
                some (record d { report_msgq = q'' }))
              ≡ (handle_all evts c >>= λ d. some (record d { report_msgq = q'' })))
        → (r
            >>= (λ d. some (record d { report_msgq = q' }))
            >>= report_work_handler accepts cfg mq fuel)
          ≡ (r >>= handle_all evts >>= λ d. some (record d { report_msgq = q'' }))
    handled_after none q' q'' fuel evts h k = refl
    handled_after (some c) q' q'' fuel evts h k = h c ∙ k c

    pub drains :
        (evts : List ReportEvt) (c : Central mq.Carrier)
        → mq.queued c.report_msgq ≡ evts
        → report_work_handler accepts cfg mq (suc (length evts)) c ≡ (
            handle_all evts c >>= λ d.
            some (record d { report_msgq = drained (length evts) c.report_msgq }))
    unfolding report_work_handler handle_all drained
    drains [] c h =
        ap (λ o. next_round accepts cfg mq (report_work_handler accepts cfg mq 0) o c)
          (mq.get-empty c.report_msgq h)
    drains (evt ∷ evts) c h =
        let (rest, got, left) = mq.get-queued c.report_msgq evt evts h in
        ap
          (λ o.
            next_round accepts cfg mq (report_work_handler accepts cfg mq (suc (length evts))) o c)
          got
        ∙ ap (λ r. r >>= report_work_handler accepts cfg mq (suc (length evts)))
            (handle_report-msgq mq.Carrier evt c rest)
        ∙ handled_after (handle_report accepts cfg evt c) rest (drained (length evts) rest)
            (suc (length evts)) evts (λ c'. drains evts (record c' { report_msgq = rest }) left)
            (λ c'. handle_all-msgq evts c' rest (drained (length evts) rest))
        ∙ ap (λ q. handle_all (evt ∷ evts) c >>= λ d. some (record d { report_msgq = q }))
            (sym (drained-suc c.report_msgq evt rest (length evts) got))

    -- With fuel for one round more than there are reports in the queue, the handler returns with an
    -- empty queue, and has done what handling these reports one after the other, oldest first, does.
    pub report_work_handler_drains :
        (c : Central mq.Carrier)
        → (q : mq.Carrier) × (mq.queued q ≡ [])
          × (report_work_handler accepts cfg mq (suc (length (mq.queued c.report_msgq))) c ≡ (
              handle_all (mq.queued c.report_msgq) c >>= λ d. some (record d { report_msgq = q })))
    report_work_handler_drains c = (
      drained (length (mq.queued c.report_msgq)) c.report_msgq,
      drained-queued c.report_msgq (mq.queued c.report_msgq) refl,
      drains (mq.queued c.report_msgq) c refl,
    )

  -- A queued report that belongs to the pointer, by its id or because nothing else is subscribed,
  -- and that is long enough for a valid layout of fields of at most 32 bits, moves the pointer by
  -- exactly the values that lie in its bits; nothing else of the central changes.
  pub handle_report_publishes :
      (Q : Type 0) (evt : ReportEvt) (c : Central Q)
      → c.layout_valid ≡ true
      → ((c.sub_count ≡ 1) ⊎ (evt.report_id ≡ (c.layout).report_id))
      → IsBytes evt.evt_data
      → payload_bits c.layout ≤ 8 * length evt.evt_data
      → (c.layout).valid ≡ true
      → IsNarrow c.layout
      → handle_report accepts cfg evt c
        ≡ some (record c {
          host_dev = publish accepts cfg (report_value evt.evt_data c.layout) c.host_dev;
        })
  unfolding handle_report
  handle_report_publishes Q evt c ready ours bytes enough valid narrow = simp (
    ready,
    mine ours,
    decode_report-exact c.layout evt.evt_data empty_report bytes enough valid narrow,
  )
    where
      mine :
          ((c.sub_count ≡ 1) ⊎ (evt.report_id ≡ (c.layout).report_id))
          → (not (c.sub_count == 1) && not (evt.report_id == (c.layout).report_id)) ≡ false
      mine (inl single) = ground (arith, single)
      mine (inr same) = ground (arith, same)
