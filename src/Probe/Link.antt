-- ===== src/Probe/Link.antt =====
-- Whom the probe connects to, and the life of its link; from main to the disconnection.
use mathlib.Core.List.{foldl}
use zmk_ble_hid_host.Base.{
  ℕ, zero, suc, ◌+◌, Bool, true, false, not, ◌&&◌, ◌||◌, Option, none, some, List, ◌∷◌, ltb, ◌==◌,
  if◌then◌else◌, ◌>>=◌, u32, ◌^◌, ◌-◌,
}
use zmk_ble_hid_host.Central.State.{is_ok}
use zmk_ble_hid_host.Central.Advert.{AdElement}
use zmk_ble_hid_host.Central.Peers.{AdvType, adv_ind, adv_direct_ind, ext_adv, other_adv}
use zmk_ble_hid_host.Central.Link.{is_current}
use zmk_ble_hid_host.Probe.State.{
  disc_idle, set_security, disconnect, usb_enable, bt_enable, scan_start, scan_stop, create, Stack,
  Probe, ask,
}
use zmk_ble_hid_host.Probe.Discovery.{start_discovery}
use zmk_ble_hid_host.Probe.Advert.{AdInfo, parse_advert, has_name}
use zmk_ble_hid_host.Probe.Seen.{should_log}

-- FAIL_COOLDOWN_MS
abbrev pub fail_cooldown_ms : ℕ
fail_cooldown_ms = 8000

-- bond_match_cb on the found flag
abbrev pub bond_match_cb : ℕ → Bool → ℕ → Bool
bond_match_cb addr found bond = if bond == addr then true else found

unfoldable pub addr_is_bonded : List ℕ → ℕ → Bool
addr_is_bonded bonds addr = foldl (bond_match_cb addr) false bonds

abbrev pub is_interesting : AdInfo → Bool
is_interesting ai = ai.is_match || ai.has_hids || has_name ai.name

-- The line for an advertiser.
unfoldable pub log_sighting : ℕ → AdInfo → Probe → Option Probe
unfolding should_log
log_sighting addr ai p =
    if is_interesting ai
    then (should_log addr (has_name ai.name) p >>= λ l.
        let after = l.after in
        some (if l.worth then record after { saw = addr ∷ after.saw } else after))
    else some p

-- default_conn != NULL
abbrev pub is_linked : Option ℕ → Bool
is_linked none = false
is_linked (some conn) = true

abbrev pub is_connectable : AdvType → Bool
is_connectable adv_ind = true
is_connectable adv_direct_ind = true
is_connectable ext_adv = true
is_connectable other_adv = false

-- k_uptime_get_32() - last_failed_ms, as a uint32_t
abbrev pub elapsed : ℕ → ℕ → ℕ
elapsed now before = u32 (now + 2 ^ 32 - before)

-- The tests before the connection is begun.
unfoldable pub is_target : List ℕ → ℕ → AdvType → Bool → ℕ → Probe → Bool
unfolding addr_is_bonded
is_target bonds addr type is_match now p =
    let bonded = addr_is_bonded bonds addr in
    if is_linked p.default_conn
    then false
    else if not (is_connectable type)
    then false
    else if not bonded && not is_match
    then false
    else if not bonded
        && (addr == p.last_failed_addr && ltb (elapsed now p.last_failed_ms) fail_cooldown_ms)
    then false
    else true

-- A scan that fails is not tried again.
unfoldable pub start_scan : Probe → Probe
start_scan p = ask scan_start p

unfoldable pub connected : ℕ → ℕ → Probe → Probe
unfolding start_scan
connected conn err p =
    if err == 0 then ask (set_security conn) p else start_scan (record p { default_conn = none })

-- `addr` is the peer's address and `now` is k_uptime_get_32(). BT_SECURITY_L2 is 2.
unfoldable pub security_changed : ℕ → ℕ → ℕ → ℕ → ℕ → Probe → Probe
unfolding start_discovery
security_changed conn addr now level err p =
    if not (err == 0) || ltb level 2
    then ask (disconnect conn) (record p { last_failed_addr = addr; last_failed_ms = now })
    else start_discovery p

unfoldable pub disconnected : ℕ → Probe → Probe
unfolding start_scan
disconnected conn p =
    if is_current p.default_conn conn
    then start_scan (record p {
      default_conn = none;
      sub_count = 0;
      pending_count = 0;
      pending_idx = 0;
      disc_state = disc_idle;
    })
    else p

-- The wait for a terminal, `dtr i` the state of the line at round `i`: the number of sleeps.
unfoldable pub wait_for_dtr : (ℕ → ℕ) → ℕ → ℕ → ℕ
wait_for_dtr dtr zero i = 0
wait_for_dtr dtr (suc left) i =
    let rest = wait_for_dtr dtr left (i + 1) in if not (dtr i == 0) then 0 else suc rest

module _ (answers : Stack) where
  -- bt_conn_le_create sets default_conn only where it returns 0.
  unfoldable pub connect_to : ℕ → ℕ → Probe → Probe
  unfolding start_scan
  connect_to addr conn p =
      let stopped = ask scan_stop p in
      let created = ask (create addr) stopped in
      if not (is_ok (answers p.requests scan_stop))
      then stopped
      else if is_ok (answers stopped.requests (create addr))
      then record created { default_conn = some conn }
      else start_scan created

  unfoldable pub device_found : List ℕ → ℕ → AdvType → List AdElement → ℕ → ℕ → Probe → Option Probe
  unfolding parse_advert log_sighting is_target connect_to
  device_found bonds addr type es now conn p = parse_advert es >>= λ ai.
      log_sighting addr ai p >>= λ logged. some (
        if is_target bonds addr type ai.is_match now logged
        then connect_to addr conn logged
        else logged)

  unfoldable pub main : (ℕ → ℕ) → Probe → Probe
  unfolding wait_for_dtr start_scan
  main dtr p =
      let usb = ask usb_enable p in
      let waited = record usb { sleeps = p.sleeps + wait_for_dtr dtr 100 0 } in
      let enabled = ask bt_enable waited in
      if not (is_ok (answers p.requests usb_enable))
      then usb
      else if not (is_ok (answers waited.requests bt_enable))
      then enabled
      else start_scan enabled
