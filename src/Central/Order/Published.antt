-- ===== src/Central/Order/Published.antt =====
-- What the two threads publish, between them, of the reports that arrive.
use zmk_ble_hid_host.Base.{
  ◌*◌, ◌≤◌, ◌≡◌, refl, sym, ap, ◌∙◌, subst, true, some, List, [], ◌∷◌, ◌++◌, length, ◌>>=◌, ◌⊎◌,
  All,
}
use zmk_ble_hid_host.Layout.{PointerReport, ReportLayout}
use zmk_ble_hid_host.Decode.Pointer.{payload_bits}
use zmk_ble_hid_host.Decode.Value.{IsBytes}
use zmk_ble_hid_host.Decode.Exact.{IsNarrow, report_value}
use zmk_ble_hid_host.Publish.Device.{Config, Queue, publish}
use zmk_ble_hid_host.Publish.Pointer.{publish_all}
use zmk_ble_hid_host.Central.State.{ReportEvt, MessageQueue, Central}
use zmk_ble_hid_host.Central.Draining.{handle_all, handle_report_publishes}
use zmk_ble_hid_host.Central.Order.{Interleaved, waiting_as, handled_in_order}

-- The report is the pointer's, by its id or as the only one that is subscribed, and long enough.
abbrev pub IsOurs : {Q : Type 0} → Central Q → ReportEvt → Type 0
IsOurs c evt =
    ((c.sub_count ≡ 1) ⊎ (evt.report_id ≡ (c.layout).report_id))
    × IsBytes evt.evt_data
    × (payload_bits c.layout ≤ 8 * length evt.evt_data)

-- The values in the bits of each report.
abbrev pub values : ReportLayout → List ReportEvt → List PointerReport
values layout [] = []
values layout (evt ∷ evts) = report_value evt.evt_data layout ∷ values layout evts

All-front : (P : ReportEvt → Type 0) (xs ys : List ReportEvt) → All P (xs ++ ys) → All P xs
All-front P [] ys h = tt
All-front P (x ∷ xs) ys h = (h.0, All-front P xs ys h.1)

module _ (accepts : Queue) (cfg : Config) where
  handle_all-publishes :
      {Q : Type 0} (evts : List ReportEvt) (c : Central Q)
      → c.layout_valid ≡ true
      → (c.layout).valid ≡ true
      → IsNarrow c.layout
      → All (IsOurs c) evts
      → handle_all accepts cfg evts c
        ≡ some (record c { host_dev = publish_all accepts cfg (values c.layout evts) c.host_dev })
  unfolding handle_all
  handle_all-publishes [] c ready valid narrow ours = refl
  handle_all-publishes {Q = Q} (evt ∷ evts) c ready valid narrow ((mine, bytes, enough), ours) =
      ap (λ r. r >>= handle_all accepts cfg evts)
        (handle_report_publishes accepts cfg Q evt c ready mine bytes enough valid narrow)
      ∙ handle_all-publishes evts
          (record c {
            host_dev = publish accepts cfg (report_value evt.evt_data c.layout) c.host_dev;
          })
          ready valid narrow ours

  module _ (mq : MessageQueue) where
    -- However notifications and rounds of the work handler's loop fall, from a central with an empty
    -- queue and a valid layout of fields of at most 32 bits on, and where every report that the
    -- queue takes is the pointer's and long enough: the reports taken are some reports followed by
    -- those still queued, and, but for the queue and the work item, all that has changed in the
    -- central is that the input device was given exactly the values in the bits of the former, in
    -- the order of their arrival. None is lost once it is taken, published twice or overtaken.
    pub published_in_order :
        (start : Central mq.Carrier) (arrived : List ReportEvt) (c : Central mq.Carrier)
        → Interleaved accepts cfg mq start arrived c
        → start.layout_valid ≡ true
        → (start.layout).valid ≡ true
        → IsNarrow start.layout
        → All (IsOurs start) arrived
        → (published : List ReportEvt) × (arrived ≡ published ++ mq.queued c.report_msgq)
          × (c
              ≡ waiting_as c (record start {
                host_dev = publish_all accepts cfg (values start.layout published) start.host_dev;
              }))
    published_in_order start arrived c run ready valid narrow ours =
        let (handled, d, all, done, same) = handled_in_order accepts cfg mq start arrived c run in
        let theirs : All (IsOurs start) handled =
          All-front (IsOurs start) handled (mq.queued c.report_msgq)
            (subst (All (IsOurs start)) all ours) in
        let left = sym done ∙ handle_all-publishes handled start ready valid narrow theirs in
        (
          handled,
          all,
          same
              ∙ ap (waiting_as c) {x = d}
                  {y = record start {
                    host_dev = publish_all accepts cfg (values start.layout handled) start.host_dev;
                  }}
                  (cc (left)),
        )
