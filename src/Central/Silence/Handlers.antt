-- ===== src/Central/Silence/Handlers.antt =====
-- The other handlers on a quiet central.
use zmk_ble_hid_host.Base.{
  u32, ℕ, ◌+◌, ◌≡◌, refl, ap, Bool, true, false, not, ◌||◌, Option, none, some, List, ltb, ◌==◌,
  if◌then◌else◌, arith, if_holds,
}
use zmk_ble_hid_host.Publish.Device.{Config, Queue, Device}
use zmk_ble_hid_host.Central.State.{
  ReportEvt, scan_start, scan_stop, create, is_ok, set_security, disconnect, Answer, ok, already,
  failed, Stack, Central,
}
use zmk_ble_hid_host.Central.Discovery.{ask, start_discovery}
use zmk_ble_hid_host.Central.Reports.{handle_report}
use zmk_ble_hid_host.Central.Link.{start_scan, scan_retry_handler, connected, security_changed}
use zmk_ble_hid_host.Central.Advert.{AdElement}
use zmk_ble_hid_host.Central.Peers.{AdvType, is_target, connect_to, device_found}
use zmk_ble_hid_host.Central.Frame.{Kept, KeptAfter}
use zmk_ble_hid_host.Central.Silence.Quiet.{quiet}

module _ {Q : Type 0} (d : Device) where
  module _ (answers : Stack) where
    pub start_scan-Quiet :
        (c : Central Q) → Kept (quiet d) c → Kept (quiet d) (start_scan answers c)
    unfolding start_scan
    start_scan-Quiet c v = by_answer (answers c.requests scan_start)
      where
        by_answer :
            (a : Answer)
            → Kept (quiet d) (elim a [
              | already ↦ ask scan_start c
              | ok ↦ record (ask scan_start c) { scan_starts = u32 (c.scan_starts + 1) }
              | failed ↦ record (ask scan_start c) {
                scan_fails = u32 (c.scan_fails + 1);
                retry_scheduled = true;
              }
            ])
        by_answer already = v
        by_answer ok = v
        by_answer failed = v

    pub scan_retry_handler-Quiet :
        (c : Central Q) → Kept (quiet d) c → Kept (quiet d) (scan_retry_handler answers c)
    unfolding scan_retry_handler
    scan_retry_handler-Quiet c v = by_conn c.default_conn
      where
        fired : Central Q
        fired = record c { retry_scheduled = false }

        by_conn :
            (o : Option ℕ)
            → Kept (quiet d) (elim o [
              | none ↦ start_scan answers (record c { retry_scheduled = false })
              | some conn ↦ record c { retry_scheduled = false }
            ])
        by_conn none = start_scan-Quiet (record c { retry_scheduled = false }) v
        by_conn (some conn) = v

    pub connected-Quiet :
        (conn err : ℕ) (c : Central Q)
        → Kept (quiet d) c
        → Kept (quiet d) (connected answers conn err c)
    unfolding connected
    connected-Quiet conn err c v =
        if_holds (Kept (quiet d)) (err == 0) (ask (set_security conn) c)
          (start_scan answers (record c { default_conn = none })) v
          (start_scan-Quiet (record c { default_conn = none }) v)

    pub security_changed-Quiet :
        (conn addr now level err : ℕ) (c : Central Q)
        → Kept (quiet d) c
        → Kept (quiet d) (security_changed answers conn addr now level err c)
    unfolding security_changed start_discovery
    security_changed-Quiet conn addr now level err c v =
        if_holds (Kept (quiet d)) (not (err == 0) || ltb level 2)
          (ask (disconnect conn) (record c { last_failed_addr = addr; last_failed_ms = now }))
          (start_discovery answers c) v (refl, v.1)

    pub device_found-Quiet :
        (bonds : List ℕ) (addr : ℕ) (type : AdvType) (es : List AdElement) (now conn : ℕ)
        (c : Central Q)
        → Kept (quiet d) c
        → Kept (quiet d) (device_found answers bonds addr type es now conn c)
    unfolding device_found connect_to
    device_found-Quiet bonds addr type es now conn c v =
        let stopped : Central Q = ask scan_stop c in
        let created : Central Q = ask (create addr) stopped in
        if_holds (Kept (quiet d)) (is_target bonds addr type es now c)
          (connect_to answers addr conn c) c
          (if_holds (Kept (quiet d)) (not (is_ok (answers c.requests scan_stop))) stopped _ v (
            if_holds (Kept (quiet d)) (is_ok (answers stopped.requests (create addr)))
              (record created { default_conn = some conn }) (start_scan answers created) v
              (start_scan-Quiet created v)))
          v

module _ (accepts : Queue) (cfg : Config) {Q : Type 0} (d : Device) where
  -- Without a valid layout a report is dropped.
  pub handle_report-Quiet :
      (evt : ReportEvt) (c : Central Q)
      → Kept (quiet d) c
      → KeptAfter (quiet d) (handle_report accepts cfg evt c)
  unfolding handle_report
  handle_report-Quiet evt c v = dropped (not c.layout_valid) _ (ap not v.0)
    where
      dropped :
          (test : Bool) (r : Option (Central Q))
          → test ≡ true
          → KeptAfter (quiet d) (if test then some c else r)
      dropped true r h = v
      dropped false r h = absurd (ground arith)
