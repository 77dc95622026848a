-- ===== src/Central/Awake.antt =====
-- The central never sits deaf: it has a link or is making one, it scans, or a retry of the scan is
-- scheduled. What each handler does to this.
pub mod Result
pub mod Recovery
use zmk_ble_hid_host.Base.{
  u32, ℕ, ◌+◌, ◌≡◌, refl, sym, ◌∙◌, subst, ◌⊎◌, inl, inr, Bool, true, false, not, ◌||◌, ◌&&◌,
  Option, none, some, List, [], ◌∷◌, ltb, ◌==◌, if◌then◌else◌, arith, After, bind_After,
  chain_After, if_holds,
}
use zmk_ble_hid_host.Publish.Device.{Config, Queue, Device, reset}
use zmk_ble_hid_host.Central.State.{
  ReportEvt, disc_idle, Request, discover, read, subscribe, set_security, disconnect, bt_enable,
  scan_start, scan_stop, create, Answer, ok, already, failed, is_ok, ok_or_already, Stack,
  MessageQueue, Central,
}
use zmk_ble_hid_host.Central.Discovery.{ask, start_discovery}
use zmk_ble_hid_host.Decode.Pointer.{decode_report}
use zmk_ble_hid_host.Layout.{empty_report}
use zmk_ble_hid_host.Central.Reports.{handle_report}
use zmk_ble_hid_host.Central.Link.{
  start_scan, scan_retry_handler, connected, security_changed, is_current, disconnected,
}
use zmk_ble_hid_host.Central.Advert.{AdElement}
use zmk_ble_hid_host.Central.Peers.{AdvType, is_target, connect_to, device_found}
use zmk_ble_hid_host.Central.Startup.{start_work_handler}
use zmk_ble_hid_host.Central.Frame.{Frame, IsGatt, GattKeeps, Kept, KeptAfter}

-- Whether the controller scans after these calls, the latest first: since the last scan_start that
-- succeeded (or that found it scanning), no scan_stop has succeeded.
abbrev pub is_scanning : Stack → List Request → Bool
is_scanning answers [] = false
is_scanning answers (scan_start ∷ calls) =
    if ok_or_already (answers calls scan_start) then true else is_scanning answers calls
is_scanning answers (scan_stop ∷ calls) =
    if is_ok (answers calls scan_stop) then false else is_scanning answers calls
is_scanning answers (discover sought type first last ∷ calls) = is_scanning answers calls
is_scanning answers (read handle ∷ calls) = is_scanning answers calls
is_scanning answers (subscribe s ∷ calls) = is_scanning answers calls
is_scanning answers (set_security conn ∷ calls) = is_scanning answers calls
is_scanning answers (disconnect conn ∷ calls) = is_scanning answers calls
is_scanning answers (bt_enable ∷ calls) = is_scanning answers calls
is_scanning answers (create addr ∷ calls) = is_scanning answers calls

-- A link is up or being made, the controller scans, or a retry of the scan is scheduled.
abbrev pub awake : Stack → Frame
awake answers valid d conn retry calls =
    ((current : ℕ) × (conn ≡ some current)) ⊎ (is_scanning answers calls ≡ true) ⊎ (retry ≡ true)

pub awake-GattKeeps : (answers : Stack) → GattKeeps (awake answers)
awake-GattKeeps answers (discover sought type first last) valid d conn retry calls g v = v
awake-GattKeeps answers (read handle) valid d conn retry calls g v = v
awake-GattKeeps answers (subscribe s) valid d conn retry calls g v = v
awake-GattKeeps answers (set_security _) valid d conn retry calls g v = absurd g
awake-GattKeeps answers (disconnect _) valid d conn retry calls g v = absurd g
awake-GattKeeps answers bt_enable valid d conn retry calls g v = absurd g
awake-GattKeeps answers scan_start valid d conn retry calls g v = absurd g
awake-GattKeeps answers scan_stop valid d conn retry calls g v = absurd g
awake-GattKeeps answers (create _) valid d conn retry calls g v = absurd g

module _ {Q : Type 0} (answers : Stack) where
  -- However the scan answers, it is on or a retry is scheduled.
  pub start_scan-Awake : (c : Central Q) → Kept (awake answers) (start_scan answers c)
  unfolding start_scan
  start_scan-Awake c = by_answer (answers c.requests scan_start) refl
    where
      by_answer :
          (a : Answer)
          → answers c.requests scan_start ≡ a
          → Kept (awake answers) (elim a [
            | already ↦ ask scan_start c
            | ok ↦ record (ask scan_start c) { scan_starts = u32 (c.scan_starts + 1) }
            | failed ↦ record (ask scan_start c) {
              scan_fails = u32 (c.scan_fails + 1);
              retry_scheduled = true;
            }
          ])
      by_answer already e = inr (inl (rw e))
      by_answer ok e = inr (inl (rw e))
      by_answer failed e = inr (inr refl)

  pub scan_retry_handler-Awake :
      (c : Central Q) → Kept (awake answers) (scan_retry_handler answers c)
  unfolding scan_retry_handler
  scan_retry_handler-Awake c = by_conn c.default_conn refl
    where
      by_conn :
          (o : Option ℕ)
          → c.default_conn ≡ o
          → Kept (awake answers) (elim o [
            | none ↦ start_scan answers (record c { retry_scheduled = false })
            | some conn ↦ record c { retry_scheduled = false }
          ])
      by_conn none e = start_scan-Awake (record c { retry_scheduled = false })
      by_conn (some conn) e = inl (conn, e)

  pub connected-Awake :
      (conn err : ℕ) (c : Central Q)
      → Kept (awake answers) c
      → Kept (awake answers) (connected answers conn err c)
  unfolding connected
  connected-Awake conn err c v =
      if_holds (Kept (awake answers)) (err == 0) (ask (set_security conn) c)
        (start_scan answers (record c { default_conn = none })) v
        (start_scan-Awake (record c { default_conn = none }))

  pub security_changed-Awake :
      (conn addr now level err : ℕ) (c : Central Q)
      → Kept (awake answers) c
      → Kept (awake answers) (security_changed answers conn addr now level err c)
  unfolding security_changed start_discovery
  security_changed-Awake conn addr now level err c v =
      if_holds (Kept (awake answers)) (not (err == 0) || ltb level 2)
        (ask (disconnect conn) (record c { last_failed_addr = addr; last_failed_ms = now }))
        (start_discovery answers c) v v

  -- The scan that could not be stopped goes on; a connection that could not be created is followed
  -- by a new scan.
  connect_to-Awake :
      (addr conn : ℕ) (c : Central Q)
      → Kept (awake answers) c
      → Kept (awake answers) (connect_to answers addr conn c)
  unfolding connect_to
  connect_to-Awake addr conn c v = by_stop (is_ok (answers c.requests scan_stop)) refl
    where
      stopped : Central Q
      stopped = ask scan_stop c

      created : Central Q
      created = ask (create addr) (ask scan_stop c)

      by_stop :
          (test : Bool)
          → is_ok (answers c.requests scan_stop) ≡ test
          → Kept (awake answers) (
              if not test
              then ask scan_stop c
              else if is_ok (answers (scan_stop ∷ c.requests) (create addr))
              then record (ask (create addr) (ask scan_stop c)) { default_conn = some conn }
              else start_scan answers (ask (create addr) (ask scan_stop c)))
      by_stop false e = rw e v
      by_stop true e =
          if_holds (Kept (awake answers)) (is_ok (answers (scan_stop ∷ c.requests) (create addr)))
            (record (ask (create addr) (ask scan_stop c)) { default_conn = some conn })
            (start_scan answers (ask (create addr) (ask scan_stop c))) (inl (conn, refl))
            (start_scan-Awake (ask (create addr) (ask scan_stop c)))

  pub device_found-Awake :
      (bonds : List ℕ) (addr : ℕ) (type : AdvType) (es : List AdElement) (now conn : ℕ)
      (c : Central Q)
      → Kept (awake answers) c
      → Kept (awake answers) (device_found answers bonds addr type es now conn c)
  unfolding device_found
  device_found-Awake bonds addr type es now conn c v =
      if_holds (Kept (awake answers)) (is_target bonds addr type es now c)
        (connect_to answers addr conn c) c (connect_to-Awake addr conn c v) v

  pub start_work_handler-Awake :
      (c : Central Q)
      → ok_or_already (answers c.requests bt_enable) ≡ true
      → Kept (awake answers) (start_work_handler answers c)
  unfolding start_work_handler
  start_work_handler-Awake c up =
      rw up (start_scan-Awake (ask bt_enable (record c { start_scheduled = false })))

module _ (answers : Stack) (accepts : Queue) (cfg : Config) where
  -- A report changes the events alone.
  pub handle_report-Awake :
      {Q : Type 0} (evt : ReportEvt) (c : Central Q)
      → Kept (awake answers) c
      → KeptAfter (awake answers) (handle_report accepts cfg evt c)
  unfolding handle_report
  handle_report-Awake evt c v =
      if_holds (KeptAfter (awake answers)) (not c.layout_valid) (some c) _ v (
        if_holds (KeptAfter (awake answers))
          (not (c.sub_count == 1) && not (evt.report_id == (c.layout).report_id)) (some c) _ v
          (bind_After (Kept (awake answers))
            (decode_report (some c.layout) (some evt.evt_data) (some empty_report)) _ (λ r. v)))

  pub disconnected-Awake :
      (mq : MessageQueue) (conn : ℕ) (c : Central mq.Carrier)
      → Kept (awake answers) c
      → Kept (awake answers) (disconnected answers accepts cfg mq conn c)
  unfolding disconnected
  disconnected-Awake mq conn c v =
      if_holds (Kept (awake answers)) (is_current c.default_conn conn) _ c
        (start_scan-Awake answers _) v
