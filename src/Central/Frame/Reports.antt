-- ===== src/Central/Frame/Reports.antt =====
-- The report queue under a predicate that the discovery keeps.
use zmk_ble_hid_host.Base.{
  ℕ, zero, suc, true, Option, none, some, List, get_elem?, bind_After, chain_After,
}
use zmk_ble_hid_host.Publish.Device.{Config, Queue}
use zmk_ble_hid_host.Central.State.{ReportEvt, MessageQueue, Central, store}
use zmk_ble_hid_host.Central.Reports.{handle_report, next_round, report_work_handler, notify_cb}
use zmk_ble_hid_host.Central.Frame.{Frame, Kept, KeptAfter}

module _ (accepts : Queue) (cfg : Config) (mq : MessageQueue) (F : Frame) where
  pub notify_cb-Kept :
      (sub : ℕ) (value : Option (List ℕ)) (c : Central mq.Carrier)
      → Kept F c
      → KeptAfter F (notify_cb mq sub value c)
  unfolding notify_cb
  notify_cb-Kept sub none c v =
      bind_After (Kept F) (get_elem? c.subs sub) _
        (λ s. bind_After (Kept F) (store c.subs sub (record s { value_handle = 0 })) _ (λ subs. v))
  notify_cb-Kept sub (some value) c v =
      bind_After (Kept F) (get_elem? c.subs sub) _ (λ s. by_room (mq.put _ c.report_msgq))
    where
      by_room :
          (o : Option mq.Carrier)
          → Kept F
              (elim o [ none ↦ c | some q ↦ record c { report_msgq = q; work_submitted = true } ])
      by_room none = v
      by_room (some q) = v

  -- Where handling one report keeps the predicate, so does a round of the loop, and the loop.
  module _
      (handled : (evt : ReportEvt) (c : Central mq.Carrier)
        → Kept F c
        → KeptAfter F (handle_report accepts cfg evt c)) where
    next_round-Kept :
        (loop : Central mq.Carrier → Option (Central mq.Carrier))
        (got : Option (ReportEvt × mq.Carrier)) (c : Central mq.Carrier)
        → Kept F c
        → ((c' : Central mq.Carrier) → Kept F c' → KeptAfter F (loop c'))
        → KeptAfter F (next_round accepts cfg mq loop got c)
    unfolding next_round
    next_round-Kept loop none c v later = v
    next_round-Kept loop (some (evt, rest)) c v later =
        chain_After (Kept F) (Kept F)
          (handle_report accepts cfg evt (record c { report_msgq = rest })) loop
          (handled evt (record c { report_msgq = rest }) v) later

    pub report_work_handler-Kept :
        (fuel : ℕ) (c : Central mq.Carrier)
        → Kept F c
        → KeptAfter F (report_work_handler accepts cfg mq fuel c)
    unfolding report_work_handler next_round
    report_work_handler-Kept zero c v = tt
    report_work_handler-Kept (suc fuel) c v =
        next_round-Kept (report_work_handler accepts cfg mq fuel) (mq.get c.report_msgq) c v
          λ c' w. report_work_handler-Kept fuel c' w
