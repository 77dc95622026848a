-- ===== src/Central/Silence/Result.antt =====
-- Sequences of handlers after a disconnection.
use zmk_ble_hid_host.Base.{
  ℕ, zero, suc, ◌≡◌, refl, sym, ap, ◌∙◌, subst, false, none, some, [], ◌∷◌, ==_self, if◌then◌else◌,
}
use zmk_ble_hid_host.Publish.Device.{Config, Queue, Device, reset}
use zmk_ble_hid_host.Central.State.{disc_idle, Stack, MessageQueue, Central}
use zmk_ble_hid_host.Central.Discovery.{report_map_read_cb}
use zmk_ble_hid_host.Central.Link.{start_scan, is_current, disconnected}
use zmk_ble_hid_host.Central.Events.{
  Happens, notified, worked, discovered, referenced, map_chunk, map_failed, retried, linked,
  secured, advertised, alive, Unmapped, nothing_yet, and_then, lost_current, lost_other,
}
use zmk_ble_hid_host.Central.Frame.{
  Kept, KeptAfter, append_chunk-Kept, discover_func-Kept, report_ref_read_cb-Kept,
  start_report_discovery-Kept,
}
use zmk_ble_hid_host.Central.Frame.Reports.{notify_cb-Kept, report_work_handler-Kept}
use zmk_ble_hid_host.Central.Silence.Quiet.{quiet, quiet-GattKeeps}
use zmk_ble_hid_host.Central.Silence.Handlers.{
  connected-Quiet, handle_report-Quiet, device_found-Quiet, scan_retry_handler-Quiet,
  security_changed-Quiet, start_scan-Quiet,
}
use zmk_ble_hid_host.Central.Startup.{heartbeat_handler}

module _ (answers : Stack) (accepts : Queue) (cfg : Config) (mq : MessageQueue) where
  Happens-Quiet :
      (d : Device) (c c' : Central mq.Carrier)
      → Happens answers accepts cfg mq c c'
      → Kept (quiet d) c
      → Kept (quiet d) c'
  unfolding report_map_read_cb heartbeat_handler
  Happens-Quiet d c c' (notified sub value _ _ e) v =
      subst (KeptAfter (quiet d)) e (notify_cb-Kept accepts cfg mq (quiet d) sub value c v)
  Happens-Quiet d c c' (worked fuel _ _ e) v = subst (KeptAfter (quiet d)) e (
      report_work_handler-Kept accepts cfg mq (quiet d) (handle_report-Quiet accepts cfg d) fuel c
        v)
  Happens-Quiet d c c' (discovered attr _ _ e) v =
      subst (KeptAfter (quiet d)) e
        (discover_func-Kept (quiet d) (quiet-GattKeeps d) answers attr c v)
  Happens-Quiet d c c' (referenced err value _ _ e) v =
      subst (KeptAfter (quiet d)) e
        (report_ref_read_cb-Kept (quiet d) (quiet-GattKeeps d) answers err value c v)
  Happens-Quiet d c c' (map_chunk b bs _ _ e) v =
      subst (KeptAfter (quiet d)) e (append_chunk-Kept (quiet d) (b ∷ bs) c v)
  Happens-Quiet d c c' (map_failed err value _ _ e) v =
      subst (KeptAfter (quiet d)) e
        (start_report_discovery-Kept (quiet d) (quiet-GattKeeps d) answers c v)
  Happens-Quiet d c c' (retried _) v = scan_retry_handler-Quiet d answers c v
  Happens-Quiet d c c' (linked conn err _) v = connected-Quiet d answers conn err c v
  Happens-Quiet d c c' (secured conn addr now level err _) v =
      security_changed-Quiet d answers conn addr now level err c v
  Happens-Quiet d c c' (advertised bonds addr type es now conn _) v =
      device_found-Quiet d answers bonds addr type es now conn c v
  Happens-Quiet d c c' (alive _) v = v

  -- The reset of a disconnection, n times.
  abbrev pub resets : ℕ → Device → Device
  resets zero d = d
  resets (suc n) d = reset accepts cfg (resets n d)

  disconnected-Quiet :
      (conn : ℕ) (c : Central mq.Carrier)
      → c.default_conn ≡ some conn
      → Kept (quiet (reset accepts cfg c.host_dev)) (disconnected answers accepts cfg mq conn c)
  unfolding disconnected
  disconnected-Quiet conn c current =
      subst
        (λ test.
          Kept (quiet (reset accepts cfg c.host_dev)) (if test then start_scan answers gone else c))
        (sym (ap (λ o. is_current o conn) current ∙ ==_self conn))
        (start_scan-Quiet (reset accepts cfg c.host_dev) answers gone (refl, refl))
    where
      gone : Central mq.Carrier
      gone = record c {
        default_conn = none;
        sub_count = 0;
        pending_count = 0;
        pending_idx = 0;
        disc_state = disc_idle;
        layout_valid = false;
        rm_buf = [];
        report_msgq = mq.purge c.report_msgq;
        host_dev = reset accepts cfg c.host_dev;
      }

  -- A disconnection of another link changes nothing.
  disconnected-other :
      (conn : ℕ) (c : Central mq.Carrier)
      → is_current c.default_conn conn ≡ false
      → disconnected answers accepts cfg mq conn c ≡ c
  unfolding disconnected
  disconnected-other conn c other = rw other refl

  Unmapped-Quiet :
      (n : ℕ) (d : Device) (c c' : Central mq.Carrier)
      → Unmapped answers accepts cfg mq n c c'
      → Kept (quiet d) c
      → Kept (quiet (resets n d)) c'
  Unmapped-Quiet n d c c' (nothing_yet _) v = v
  Unmapped-Quiet n d c c' (and_then _ _ c1 _ before last) v =
      Happens-Quiet (resets n d) c1 c' last (Unmapped-Quiet n d c c1 before v)
  Unmapped-Quiet n d c c' (lost_current m conn _ c1 before current) v =
      let w = Unmapped-Quiet m d c c1 before v in
      subst (λ e. Kept (quiet (reset accepts cfg e)) (disconnected answers accepts cfg mq conn c1))
        w.1 (disconnected-Quiet conn c1 current)
  Unmapped-Quiet n d c c' (lost_other _ conn _ c1 before other) v =
      subst (Kept (quiet (resets n d))) (sym (disconnected-other conn c1 other))
        (Unmapped-Quiet n d c c1 before v)

  -- From the drop of the current link on, and until a report map has been read to its end, the
  -- layout stays invalid and no report reaches the events: through any sequence of notifications,
  -- work handler runs, discovery callbacks, report map chunks or errors, scan retries,
  -- advertisements, connections, security changes, heartbeats and further disconnections, the
  -- events are those of the reset at the first drop and of one more reset for each later drop of a
  -- link that is current then.
  pub disconnected_silences :
      (n conn : ℕ) (c c' : Central mq.Carrier)
      → c.default_conn ≡ some conn
      → Unmapped answers accepts cfg mq n (disconnected answers accepts cfg mq conn c) c'
      → (c'.layout_valid ≡ false) × (c'.host_dev ≡ resets n (reset accepts cfg c.host_dev))
  disconnected_silences n conn c c' current happened =
      Unmapped-Quiet n (reset accepts cfg c.host_dev) (disconnected answers accepts cfg mq conn c)
        c' happened (disconnected-Quiet conn c current)
