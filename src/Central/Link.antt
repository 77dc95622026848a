-- ===== src/Central/Link.antt =====
-- The life of a link: scanning, connected, secured, disconnected.
use zmk_ble_hid_host.Base.{
  u32, ℕ, ◌+◌, Bool, true, false, ◌||◌, not, Option, none, some, [], ltb, ◌==◌, if◌then◌else◌,
}
use zmk_ble_hid_host.Publish.Device.{Config, Queue, reset}
use zmk_ble_hid_host.Central.State.{
  disc_idle, set_security, disconnect, scan_start, ok, already, failed, Stack, MessageQueue,
  Central,
}
use zmk_ble_hid_host.Central.Discovery.{ask, start_discovery}

-- default_conn == conn
abbrev pub is_current : Option ℕ → ℕ → Bool
is_current none conn = false
is_current (some current) conn = current == conn

module _ {Q : Type 0} (answers : Stack) where
  unfoldable pub start_scan : Central Q → Central Q
  start_scan c = elim (answers c.requests scan_start) [
    | already ↦ ask scan_start c
    | ok ↦ record (ask scan_start c) { scan_starts = u32 (c.scan_starts + 1) }
    | failed ↦ record (ask scan_start c) {
      scan_fails = u32 (c.scan_fails + 1);
      retry_scheduled = true;
    }
  ]

  -- The work item runs: its schedule is used up, and a failing scan sets it again.
  unfoldable pub scan_retry_handler : Central Q → Central Q
  unfolding start_scan
  scan_retry_handler c =
      let fired = record c { retry_scheduled = false } in
      elim c.default_conn [ none ↦ start_scan fired | some conn ↦ fired ]

  unfoldable pub connected : ℕ → ℕ → Central Q → Central Q
  unfolding start_scan
  connected conn err c =
      if err == 0 then ask (set_security conn) c else start_scan (record c { default_conn = none })

  -- `addr` is the peer's address and `now` is k_uptime_get_32(). Levels are those of bt_security_t,
  -- BT_SECURITY_L2 is 2.
  unfoldable pub security_changed : ℕ → ℕ → ℕ → ℕ → ℕ → Central Q → Central Q
  unfolding start_discovery
  security_changed conn addr now level err c =
      if not (err == 0) || ltb level 2
      then ask (disconnect conn) (record c { last_failed_addr = addr; last_failed_ms = now })
      else start_discovery answers c

module _ (answers : Stack) (accepts : Queue) (cfg : Config) (mq : MessageQueue) where
  -- host_dev is set before the stack comes up.
  unfoldable pub disconnected : ℕ → Central mq.Carrier → Central mq.Carrier
  unfolding reset start_scan
  disconnected conn c =
      if is_current c.default_conn conn
      then start_scan answers (record c {
        default_conn = none;
        sub_count = 0;
        pending_count = 0;
        pending_idx = 0;
        disc_state = disc_idle;
        layout_valid = false;
        rm_buf = [];
        report_msgq = mq.purge c.report_msgq;
        host_dev = reset accepts cfg c.host_dev;
      })
      else c
