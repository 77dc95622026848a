-- ===== src/Central/Order.antt =====
-- The two threads on the queue of reports: notifications come in between any two rounds of the work
-- handler's loop.
pub mod Published
use zmk_ble_hid_host.Base.{
  ◌≡◌, refl, sym, ap, ◌∙◌, subst, true, ◌>>=◌, >>=-eq-some, Bool-cases, inl, inr, not, ◌&&◌, Option,
  none, some, List, [], ◌∷◌, ◌++◌, append_assoc, ◌==◌,
}
use zmk_ble_hid_host.Layout.{PointerReport, empty_report}
use zmk_ble_hid_host.Decode.Pointer.{Returned, decode_report}
use zmk_ble_hid_host.Publish.Device.{Config, Queue}
use zmk_ble_hid_host.Central.State.{ReportEvt, MessageQueue, Central}
use zmk_ble_hid_host.Central.Reports.{publish_decoded, handle_report, next_round, enqueue}
use zmk_ble_hid_host.Central.Draining.{handle_all}

-- `c` with the queue and the work item of another central.
abbrev pub waiting_as : {Q : Type 0} → Central Q → Central Q → Central Q
waiting_as other c = record c {
  report_msgq = other.report_msgq;
  work_submitted = other.work_submitted;
}

-- A central after an interleaving, from `start` on, of notifications, which notify_cb queues where
-- there is room, with rounds of the work handler's loop, with the reports that were queued.
pub data Interleaved (accepts : Queue) (cfg : Config) (mq : MessageQueue)
    (start : Central mq.Carrier) : List ReportEvt → Central mq.Carrier → Type 0 where
  idle : mq.queued start.report_msgq ≡ [] → Interleaved accepts cfg mq start [] start
  taken :
      (arrived : List ReportEvt) (c : Central mq.Carrier) (evt : ReportEvt) (q : mq.Carrier)
      → Interleaved accepts cfg mq start arrived c
      → mq.put evt c.report_msgq ≡ some q
      → Interleaved accepts cfg mq start (arrived ++ (evt ∷ [])) (enqueue mq evt c)
  lost :
      (arrived : List ReportEvt) (c : Central mq.Carrier) (evt : ReportEvt)
      → Interleaved accepts cfg mq start arrived c
      → mq.put evt c.report_msgq ≡ none
      → Interleaved accepts cfg mq start arrived (enqueue mq evt c)
  round :
      (arrived : List ReportEvt) (c c' : Central mq.Carrier)
      → Interleaved accepts cfg mq start arrived c
      → next_round accepts cfg mq some (mq.get c.report_msgq) c ≡ some c'
      → Interleaved accepts cfg mq start arrived c'

module _ (accepts : Queue) (cfg : Config) (mq : MessageQueue) where
  -- The report that get returns, for one that it does.
  abbrev head_of : ReportEvt → Option (ReportEvt × mq.Carrier) → ReportEvt
  head_of e none = e
  head_of e (some (e', q)) = e'

  abbrev rest_of : mq.Carrier → Option (ReportEvt × mq.Carrier) → mq.Carrier
  rest_of q none = q
  rest_of q (some (e, q')) = q'

  -- What get returns was the oldest.
  oldest :
      (q rest : mq.Carrier) (evt : ReportEvt) (es : List ReportEvt)
      → mq.queued q ≡ es
      → mq.get q ≡ some (evt, rest)
      → es ≡ evt ∷ mq.queued rest
  oldest q rest evt [] h got = cc (mq.get-empty q h, got)
  oldest q rest evt (e ∷ es) h got =
      let (q', first, left) = mq.get-queued q e es h in
      let same : some (e, q') ≡ some (evt, rest) = sym first ∙ got in
      ap (λ d. d ∷ es) (ap (head_of e) same)
      ∙ ap (◌∷◌ evt) (sym left ∙ ap mq.queued (ap (rest_of q') same))

  -- A report is handled the same whatever is queued or submitted.
  handle_report-waiting :
      (evt : ReportEvt) (c other : Central mq.Carrier)
      → handle_report accepts cfg evt (waiting_as other c)
        ≡ (handle_report accepts cfg evt c >>= λ d. some (waiting_as other d))
  unfolding handle_report
  handle_report-waiting evt c other = elim (Bool-cases (not c.layout_valid)) [
    | inl early ↦ rw early refl
    | inr valid ↦
        rw valid
          (elim (Bool-cases
            (not (c.sub_count == 1) && not (evt.report_id == (c.layout).report_id))) [
              | inl elsewhere ↦ rw elsewhere refl
              | inr ours ↦ rw ours (
                  by_result (decode_report (some c.layout) (some evt.evt_data) (some empty_report)))
            ])
  ]
    where
      by_result :
          (r : Option (Returned PointerReport))
          → (r >>= λ s.
              some (record (waiting_as other c) {
                host_dev = publish_decoded accepts cfg s c.host_dev;
              }))
            ≡ (r
                >>= (λ s. some (record c { host_dev = publish_decoded accepts cfg s c.host_dev }))
                >>= λ d. some (waiting_as other d))
      by_result none = refl
      by_result (some s) = refl

  returned : {A : Type 0} (r : Option A) → (r >>= some) ≡ r
  returned none = refl
  returned (some a) = refl

  handle_all-snoc :
      (evts : List ReportEvt) (evt : ReportEvt) (c d : Central mq.Carrier)
      → handle_all accepts cfg evts c ≡ some d
      → handle_all accepts cfg (evts ++ (evt ∷ [])) c ≡ handle_report accepts cfg evt d
  unfolding handle_all
  handle_all-snoc [] evt c d e =
      returned (handle_report accepts cfg evt c)
      ∙ ap (handle_report accepts cfg evt) {x = c} {y = d} cc
  handle_all-snoc (first ∷ evts) evt c d e =
      let (c1, one, rest) = >>=-eq-some (handle_report accepts cfg first c) _ e in
      ap (λ r. r >>= handle_all accepts cfg (evts ++ (evt ∷ []))) one
      ∙ handle_all-snoc evts evt c1 d rest

  -- Those handled, then those queued; the rest of the central is what handling the former leaves.
  abbrev Orderly : Central mq.Carrier → List ReportEvt → Central mq.Carrier → Type 0
  Orderly start arrived c =
      (handled : List ReportEvt) × (d : Central mq.Carrier) × (arrived
        ≡ handled ++ mq.queued c.report_msgq)
      × (handle_all accepts cfg handled start ≡ some d)
      × (c ≡ waiting_as c d)

  taken-Orderly :
      (start c : Central mq.Carrier) (arrived : List ReportEvt) (evt : ReportEvt) (q : mq.Carrier)
      → mq.put evt c.report_msgq ≡ some q
      → Orderly start arrived c
      → Orderly start (arrived ++ (evt ∷ [])) (enqueue mq evt c)
  taken-Orderly start c arrived evt q put (handled, d, all, done, same) =
      rw (put, enqueue)
        (
          handled,
          d,
          ap (λ es. es ++ (evt ∷ [])) all
              ∙ append_assoc handled (mq.queued c.report_msgq) (evt ∷ [])
              ∙ ap (◌++◌ handled) (sym (mq.put-queued evt c.report_msgq q put)),
          done,
          ap (λ (x : Central mq.Carrier). record x { report_msgq = q; work_submitted = true }) same,
        )

  round-Orderly :
      (start c c' : Central mq.Carrier) (arrived : List ReportEvt)
      (got : Option (ReportEvt × mq.Carrier))
      → mq.get c.report_msgq ≡ got
      → next_round accepts cfg mq some got c ≡ some c'
      → Orderly start arrived c
      → Orderly start arrived c'
  unfolding next_round
  round-Orderly start c c' arrived none at e v =
      subst (Orderly start arrived) {x = c} {y = c'} (cc) v
  round-Orderly start c c' arrived (some (evt, rest)) at e (handled, d, all, done, same) =
      let c1 : Central mq.Carrier = record c { report_msgq = rest } in
      let (c2, ran, is_c') = >>=-eq-some (handle_report accepts cfg evt c1) some e in
      let moved : c1 ≡ waiting_as c1 d =
        ap (λ (x : Central mq.Carrier). record x { report_msgq = rest }) same in
      let (d', one, is_c2) =
        >>=-eq-some (handle_report accepts cfg evt d) (λ d. some (waiting_as c1 d))
          (sym (handle_report-waiting evt d c1)
            ∙ ap (handle_report accepts cfg evt) (sym moved)
            ∙ ran) in
      subst (Orderly start arrived) {x = waiting_as c1 d'} {y = c'} (cc) (
        handled ++ (evt ∷ []),
        d',
        all
            ∙ ap (◌++◌ handled) (oldest c.report_msgq rest evt (mq.queued c.report_msgq) refl at)
            ∙ sym (append_assoc handled (evt ∷ []) (mq.queued rest)),
        handle_all-snoc handled evt start d done ∙ one,
        refl,
      )

  -- However notifications and rounds of the work handler's loop fall, from a central with an empty
  -- queue on: the reports that the queue has taken are some reports followed by those still queued,
  -- and, but for the queue and the work item, the central is what handling the former one after the
  -- other, in the order of their arrival and with no queue, makes of the first. None is lost once it
  -- is taken, handled twice or overtaken.
  pub handled_in_order :
      (start : Central mq.Carrier) (arrived : List ReportEvt) (c : Central mq.Carrier)
      → Interleaved accepts cfg mq start arrived c
      → (handled : List ReportEvt) × (d : Central mq.Carrier) × (arrived
          ≡ handled ++ mq.queued c.report_msgq)
        × (handle_all accepts cfg handled start ≡ some d)
        × (c ≡ waiting_as c d)
  unfolding handle_all
  handled_in_order start arrived c (idle empty) = ([], start, sym empty, refl, refl)
  handled_in_order start arrived' c' (taken arrived c evt q before put) =
      taken-Orderly start c arrived evt q put (handled_in_order start arrived c before)
  handled_in_order start arrived c' (lost _ c evt before full) =
      rw (full, enqueue) (handled_in_order start arrived c before)
  handled_in_order start arrived c' (round _ c _ before ran) =
      round-Orderly start c c' arrived (mq.get c.report_msgq) refl ran
        (handled_in_order start arrived c before)
