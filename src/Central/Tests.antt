-- ===== src/Central/Tests.antt =====
-- Runs of the central with a queue of sixteen reports kept as a list, and a stack that answers 0.
use zmk_ble_hid_host.Base.{
  suc, ◌≡◌, refl, ap, ◌++◌, List, [], ◌∷◌, Bool, true, false, Option, some, none, arith, length,
  take, ltb, if◌then◌else◌, ◌>>=◌,
}
use zmk_ble_hid_host.Decode.Tests.{mouse, payload}
use zmk_ble_hid_host.Publish.Device.{Config, Queue, initial, reset}
use zmk_ble_hid_host.Central.State.{
  disc_ccc, Subscription, ok, Stack, Attr, ReportEvt, MessageQueue, Central,
}
use zmk_ble_hid_host.Central.Discovery.{discover_func, start_discovery}
use zmk_ble_hid_host.Central.Reports.{report_work_handler}
use zmk_ble_hid_host.Central.Link.{start_scan, security_changed, scan_retry_handler, disconnected}
use zmk_ble_hid_host.Central.Peers.{adv_ind, addr_is_bonded, is_target, connect_to, device_found}
use zmk_ble_hid_host.Central.Bounds.Counters.{Wired, Safe}
use zmk_ble_hid_host.Central.Bounds.Result.{discover_func-Safe}
use zmk_ble_hid_host.Central.Events.{
  secured, retried, advertised, nothing_yet, and_then, lost_current,
}
use zmk_ble_hid_host.Central.Silence.Result.{disconnected_silences}
use zmk_ble_hid_host.Central.Draining.{handle_all, report_work_handler_drains}
use zmk_ble_hid_host.Central.Reassembly.{concat_chunks, read_chunks, read_chunks_lem}

abbrev pub listed_put : ReportEvt → List ReportEvt → Option (List ReportEvt)
listed_put e q = if ltb (length q) 16 then some (q ++ (e ∷ [])) else none

abbrev pub listed_get : List ReportEvt → Option (ReportEvt × List ReportEvt)
listed_get [] = none
listed_get (e ∷ q) = some (e, q)

pub listed_put-queued :
    (e : ReportEvt) (q q' : List ReportEvt) → listed_put e q ≡ some q' → q' ≡ q ++ (e ∷ [])
listed_put-queued e q q' h = by_room (ltb (length q) 16) h
  where
    by_room :
        (room : Bool) → (if room then some (q ++ (e ∷ [])) else none) ≡ some q' → q' ≡ q ++ (e ∷ [])
    by_room true h = cc
    by_room false h = cc

abbrev pub listed : MessageQueue
listed = record {
  Carrier = List ReportEvt;
  put = listed_put;
  get = listed_get;
  purge = λ q. [];
  queued = λ q. q;
  put-queued = listed_put-queued;
  get-empty = λ q h. ap listed_get h;
  get-queued = λ q e es h. (es, ap listed_get h, refl);
  purge-queued = λ q. refl;
}

abbrev pub answers_ok : Stack
answers_ok calls r = ok

abbrev pub takes_all : Queue
takes_all log e = true

abbrev pub plain : Config
plain = record { hwheel_as_keys = false; wheel_as_keys = false }

abbrev pointer_evt : ReportEvt
pointer_evt = record { value_handle = 20; report_id = 2; evt_data = payload }

abbrev no_sub : Subscription
no_sub = record { report_id = 0; value_handle = 0; ccc_handle = 0 }

-- Two reports subscribed and a third one's CCC looked for, on a link that is up.
abbrev pub central : Central (List ReportEvt)
central = record {
  default_conn = some 1;
  disc_state = disc_ccc;
  hids_end_handle = 60;
  rm_buf = [];
  layout = mouse;
  layout_valid = true;
  pending_reports = 20 ∷ 24 ∷ 28 ∷ 0 ∷ 0 ∷ 0 ∷ 0 ∷ 0 ∷ 0 ∷ 0 ∷ 0 ∷ 0 ∷ [];
  pending_count = 3;
  pending_idx = 2;
  cur_report_id = 6;
  subs =
      no_sub ∷ no_sub ∷ no_sub ∷ no_sub ∷ no_sub ∷ no_sub ∷ no_sub ∷ no_sub ∷ no_sub ∷ no_sub
      ∷ no_sub ∷ no_sub ∷ [];
  sub_count = 2;
  report_msgq = pointer_evt ∷ pointer_evt ∷ [];
  work_submitted = true;
  start_scheduled = false;
  retry_scheduled = false;
  heartbeat_scheduled = true;
  name_filter = none;
  last_failed_addr = 0;
  last_failed_ms = 0;
  scan_starts = 1;
  scan_fails = 0;
  host_dev = initial;
  requests = [];
}

pub central-Wired : Wired central
central-Wired = record {
  cells = refl;
  sub_cells = refl;
  few = omega arith;
  few_subs = omega arith;
  inside = omega arith;
  wiring = λ w. omega arith;
  short = omega arith;
}

abbrev ccc_attr : Attr
ccc_attr = record { handle = 29; end_handle = 0; value_handle = 0; properties = 0 }

discover_func-Safe_example : Safe (discover_func answers_ok (some ccc_attr) central)
discover_func-Safe_example = discover_func-Safe answers_ok (some ccc_attr) central central-Wired

-- The link drops, the scan retry fires, and a new link is secured.
abbrev dropped : Central (List ReportEvt)
dropped = disconnected answers_ok takes_all plain listed 1 central

abbrev relinked : Central (List ReportEvt)
relinked = security_changed answers_ok 2 7 1000 2 0 (scan_retry_handler answers_ok dropped)

-- A peer is found and linked, and that link drops too.
abbrev found_again : Central (List ReportEvt)
found_again = device_found answers_ok (7 ∷ []) 7 adv_ind [] 1000 3 relinked

linked_again : found_again.default_conn ≡ some 3
unfolding device_found is_target addr_is_bonded connect_to disconnected scan_retry_handler
    start_scan security_changed start_discovery
linked_again = refl

disconnected_silences_example :
    ((disconnected answers_ok takes_all plain listed 3 found_again).layout_valid ≡ false)
    × ((disconnected answers_ok takes_all plain listed 3 found_again).host_dev
        ≡ reset takes_all plain (reset takes_all plain initial))
disconnected_silences_example =
    disconnected_silences answers_ok takes_all plain listed 1 1 central
      (disconnected answers_ok takes_all plain listed 3 found_again) refl
      (lost_current 0 3 dropped found_again
        (and_then 0 dropped relinked found_again
          (and_then 0 dropped (scan_retry_handler answers_ok dropped) relinked
            (and_then 0 dropped dropped (scan_retry_handler answers_ok dropped)
              (nothing_yet dropped) (retried dropped))
            (secured 2 7 1000 2 0 (scan_retry_handler answers_ok dropped)))
          (advertised (7 ∷ []) 7 adv_ind [] 1000 3 relinked))
        linked_again)

report_work_handler_drains_example :
    (q : List ReportEvt) × (q ≡ [])
    × (report_work_handler takes_all plain listed (suc (length central.report_msgq)) central ≡ (
        handle_all takes_all plain central.report_msgq central >>= λ d.
        some (record d { report_msgq = q })))
report_work_handler_drains_example = report_work_handler_drains takes_all plain listed central

read_chunks_lem_example :
    read_chunks answers_ok ((5 ∷ 1 ∷ []) ∷ (9 ∷ []) ∷ []) central
    ≡ some
        (record central { rm_buf = take 512 ([] ++ concat_chunks ((5 ∷ 1 ∷ []) ∷ (9 ∷ []) ∷ [])) })
read_chunks_lem_example =
    read_chunks_lem answers_ok ((5 ∷ 1 ∷ []) ∷ (9 ∷ []) ∷ []) central (omega arith)
      ((λ e. cc), ((λ e. cc), tt))
