-- ===== src/Central/Awake/Result.antt =====
-- Sequences of callbacks from the bring-up on.
use zmk_ble_hid_host.Base.{ℕ, ◌≡◌, subst, ◌⊎◌, true, Option, none, some, ◌∷◌, bind_After}
use zmk_ble_hid_host.Publish.Device.{Config, Queue}
use zmk_ble_hid_host.Decode.Pointer.{Returned}
use zmk_ble_hid_host.Layout.{ReportLayout}
use zmk_ble_hid_host.Parser.Walk.{parse_report_map}
use zmk_ble_hid_host.Central.State.{bt_enable, ok_or_already, Stack, MessageQueue, Central}
use zmk_ble_hid_host.Central.Discovery.{publish_layout, report_map_read_cb, report_map_done}
use zmk_ble_hid_host.Central.Startup.{heartbeat_handler, start_work_handler}
use zmk_ble_hid_host.Central.Events.{
  Happens, notified, worked, discovered, referenced, map_chunk, map_failed, retried, linked,
  secured, advertised, alive, Runs, begun, then_happens, then_mapped, then_dropped,
}
use zmk_ble_hid_host.Central.Frame.{
  Kept, KeptAfter, append_chunk-Kept, discover_func-Kept, report_ref_read_cb-Kept,
  start_report_discovery-Kept,
}
use zmk_ble_hid_host.Central.Frame.Reports.{notify_cb-Kept, report_work_handler-Kept}
use zmk_ble_hid_host.Central.Awake.{
  is_scanning, awake, awake-GattKeeps, scan_retry_handler-Awake, connected-Awake,
  security_changed-Awake, device_found-Awake, start_work_handler-Awake, handle_report-Awake,
  disconnected-Awake,
}

module _ (answers : Stack) (accepts : Queue) (cfg : Config) (mq : MessageQueue) where
  report_map_done-Awake :
      (c : Central mq.Carrier)
      → Kept (awake answers) c
      → KeptAfter (awake answers) (report_map_done answers c)
  unfolding report_map_done publish_layout
  report_map_done-Awake c v =
      bind_After (Kept (awake answers)) (parse_report_map (some c.rm_buf) (some c.layout)) _ (λ r.
        start_report_discovery-Kept (awake answers) (awake-GattKeeps answers) answers
          (publish_layout r c) (by_out r r.out))
    where
      by_out :
          (r : Returned ReportLayout) (out : Option ReportLayout)
          → Kept (awake answers) (publish_layout (record r { out = out }) c)
      by_out r none = v
      by_out r (some l) = v

  Happens-Awake :
      (c c' : Central mq.Carrier)
      → Happens answers accepts cfg mq c c'
      → Kept (awake answers) c
      → Kept (awake answers) c'
  unfolding report_map_read_cb heartbeat_handler
  Happens-Awake c c' (notified sub value _ _ e) v =
      subst (KeptAfter (awake answers)) e
        (notify_cb-Kept accepts cfg mq (awake answers) sub value c v)
  Happens-Awake c c' (worked fuel _ _ e) v = subst (KeptAfter (awake answers)) e (
      report_work_handler-Kept accepts cfg mq (awake answers)
        (handle_report-Awake answers accepts cfg) fuel c v)
  Happens-Awake c c' (discovered attr _ _ e) v =
      subst (KeptAfter (awake answers)) e
        (discover_func-Kept (awake answers) (awake-GattKeeps answers) answers attr c v)
  Happens-Awake c c' (referenced err value _ _ e) v =
      subst (KeptAfter (awake answers)) e
        (report_ref_read_cb-Kept (awake answers) (awake-GattKeeps answers) answers err value c v)
  Happens-Awake c c' (map_chunk b bs _ _ e) v =
      subst (KeptAfter (awake answers)) e (append_chunk-Kept (awake answers) (b ∷ bs) c v)
  Happens-Awake c c' (map_failed err value _ _ e) v =
      subst (KeptAfter (awake answers)) e
        (start_report_discovery-Kept (awake answers) (awake-GattKeeps answers) answers c v)
  Happens-Awake c c' (retried _) v = scan_retry_handler-Awake answers c
  Happens-Awake c c' (linked conn err _) v = connected-Awake answers conn err c v
  Happens-Awake c c' (secured conn addr now level err _) v =
      security_changed-Awake answers conn addr now level err c v
  Happens-Awake c c' (advertised bonds addr type es now conn _) v =
      device_found-Awake answers bonds addr type es now conn c v
  Happens-Awake c c' (alive _) v = v

  Runs-Awake :
      (c c' : Central mq.Carrier)
      → Runs answers accepts cfg mq c c'
      → Kept (awake answers) c
      → Kept (awake answers) c'
  Runs-Awake c c' (begun _) v = v
  Runs-Awake c c' (then_happens _ c1 _ before last) v =
      Happens-Awake c1 c' last (Runs-Awake c c1 before v)
  Runs-Awake c c' (then_mapped _ c1 _ before e) v =
      subst (KeptAfter (awake answers)) e (report_map_done-Awake c1 (Runs-Awake c c1 before v))
  Runs-Awake c c' (then_dropped conn _ c1 before) v =
      disconnected-Awake answers accepts cfg mq conn c1 (Runs-Awake c c1 before v)

  -- Once bt_enable has succeeded (or found the stack enabled), the central never sits deaf: from the
  -- bring-up on, through any sequence of advertisements, connections, security changes,
  -- disconnections, discovery callbacks, reads, notifications and work handler runs, and however the
  -- stack answers, it has a link or is making one, or the controller scans, or a retry of the scan
  -- is scheduled.
  pub never_deaf :
      (c c' : Central mq.Carrier)
      → ok_or_already (answers c.requests bt_enable) ≡ true
      → Runs answers accepts cfg mq (start_work_handler answers c) c'
      → ((conn : ℕ) × (c'.default_conn ≡ some conn))
        ⊎ (is_scanning answers c'.requests ≡ true)
        ⊎ (c'.retry_scheduled ≡ true)
  never_deaf c c' up run =
      Runs-Awake (start_work_handler answers c) c' run (start_work_handler-Awake answers c up)
