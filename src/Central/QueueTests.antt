-- ===== src/Central/QueueTests.antt =====
-- Runs of the central from a report map and a notification to the events, and of its two threads.
use zmk_ble_hid_host.Base.{
  ◌≡◌, refl, ap, List, [], ◌∷◌, ◌++◌, true, some, arith, take, inr, if◌then◌else◌, ◌>>=◌,
}
use zmk_ble_hid_host.Decode.Exact.{report_value}
use zmk_ble_hid_host.Decode.Tests.{mouse, payload, payload-IsBytes, payload_enough, mouse-IsNarrow}
use zmk_ble_hid_host.Parser.State.{Parser}
use zmk_ble_hid_host.Parser.Walk.{run_parser, pointer_found}
use zmk_ble_hid_host.Publish.Device.{initial, publish}
use zmk_ble_hid_host.Central.State.{Subscription, ReportEvt, Central}
use zmk_ble_hid_host.Central.Discovery.{report_map_done}
use zmk_ble_hid_host.Central.Reports.{next_round, report_work_handler, notify_cb, enqueue}
use zmk_ble_hid_host.Central.Reassembly.{read_chunks}
use zmk_ble_hid_host.Central.Delivery.{report_map_installs, notification_delivers}
use zmk_ble_hid_host.Central.Draining.{handle_report_publishes}
use zmk_ble_hid_host.Publish.Pointer.{publish_all}
use zmk_ble_hid_host.Central.Order.{idle, taken, round, waiting_as}
use zmk_ble_hid_host.Central.Order.Published.{values, published_in_order}
use zmk_ble_hid_host.Central.Tests.{listed, answers_ok, takes_all, plain, central}

report_map_installs_example :
    (p : Parser) × (c' : Central (List ReportEvt)) × (run_parser (take 512 (5 ∷ 1 ∷ 9 ∷ 2 ∷ []))
      ≡ some p)
    × ((read_chunks answers_ok ((5 ∷ 1 ∷ []) ∷ (9 ∷ 2 ∷ []) ∷ []) central
          >>= report_map_done answers_ok)
        ≡ some c')
    × (c'.layout ≡ record (p.out) { valid = pointer_found p })
    × (c'.layout_valid ≡ (if pointer_found p then true else true))
report_map_installs_example =
    report_map_installs answers_ok ((5 ∷ 1 ∷ []) ∷ (9 ∷ 2 ∷ []) ∷ []) central refl
      ((λ e. cc), ((λ e. cc), tt))

abbrev pointer_sub : Subscription
pointer_sub = record { report_id = 2; value_handle = 20; ccc_handle = 22 }

-- Nothing is queued, and the pointer's report is subscribed.
abbrev waiting : Central (List ReportEvt)
waiting = record central { report_msgq = []; subs = pointer_sub ∷ [] }

abbrev moved_evt : ReportEvt
moved_evt = record { value_handle = 20; report_id = 2; evt_data = payload }

notification_delivers_example :
    (q' : List ReportEvt) × (q' ≡ [])
    × ((notify_cb listed 0 (some payload) waiting >>= report_work_handler takes_all plain listed 2)
        ≡ some (record waiting {
          report_msgq = q';
          work_submitted = true;
          host_dev = publish takes_all plain (report_value payload mouse) initial;
        }))
notification_delivers_example =
    notification_delivers takes_all plain listed 0 payload pointer_sub (moved_evt ∷ []) waiting refl
      refl refl (omega arith) refl (inr refl) payload-IsBytes payload_enough refl mouse-IsNarrow

-- The report arrives, and a round of the loop handles it.
abbrev arrived : Central (List ReportEvt)
arrived = enqueue listed moved_evt waiting

abbrev published : Central (List ReportEvt)
published = record arrived {
  report_msgq = [];
  host_dev = publish takes_all plain (report_value payload mouse) initial;
}

published_by_round :
    next_round takes_all plain listed some (listed.get arrived.report_msgq) arrived ≡ some published
unfolding next_round
published_by_round =
    ap (λ r. r >>= some)
      (handle_report_publishes takes_all plain (List ReportEvt) moved_evt
        (record arrived { report_msgq = [] }) refl (inr refl) payload-IsBytes payload_enough refl
        mouse-IsNarrow)

-- It arrives, is handled, and arrives once more.
abbrev again : Central (List ReportEvt)
again = enqueue listed moved_evt published

published_in_order_example :
    (sent : List ReportEvt) × ((moved_evt ∷ moved_evt ∷ []) ≡ sent ++ again.report_msgq)
    × (again
        ≡ waiting_as again
            (record waiting { host_dev = publish_all takes_all plain (values mouse sent) initial }))
published_in_order_example =
    published_in_order takes_all plain listed waiting (moved_evt ∷ moved_evt ∷ []) again
      (taken (moved_evt ∷ []) published moved_evt (moved_evt ∷ [])
        (round (moved_evt ∷ []) arrived published
          (taken [] waiting moved_evt (moved_evt ∷ []) (idle refl) refl) published_by_round)
        refl)
      refl refl mouse-IsNarrow
      (
        (inr refl, payload-IsBytes, payload_enough),
        ((inr refl, payload-IsBytes, payload_enough), tt),
      )
