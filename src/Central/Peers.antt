-- ===== src/Central/Peers.antt =====
-- Target selection of drivers/input/hog_central.c: which advertisers the central connects to.
-- The bonds, the time and the connection that bt_conn_le_create hands out are Zephyr's.
pub mod Targets
use mathlib.Core.List.{foldl}
use zmk_ble_hid_host.Base.{
  ℕ, ◌+◌, ◌-◌, ◌%◌, ◌^◌, Bool, true, false, not, ◌&&◌, ◌||◌, Option, none, some, List, [], ◌∷◌, ltb,
  ◌==◌, if◌then◌else◌, u32,
}
use zmk_ble_hid_host.Central.State.{scan_stop, create, is_ok, Stack, Central}
use zmk_ble_hid_host.Central.Discovery.{ask}
use zmk_ble_hid_host.Central.Link.{start_scan}
use zmk_ble_hid_host.Central.Advert.{AdElement, AdInfo, parse_advert}

-- FAIL_COOLDOWN_MS
abbrev pub fail_cooldown_ms : ℕ
fail_cooldown_ms = 8000

-- BT_GAP_ADV_TYPE_*: the three types that the central answers, and all others.
pub data AdvType : Type 0 where
  adv_ind adv_direct_ind ext_adv other_adv : AdvType

abbrev pub is_connectable : AdvType → Bool
is_connectable adv_ind = true
is_connectable adv_direct_ind = true
is_connectable ext_adv = true
is_connectable other_adv = false

-- bond_match_cb on the found flag
abbrev pub bond_match_cb : ℕ → Bool → ℕ → Bool
bond_match_cb addr found bond = if bond == addr then true else found

-- bt_foreach_bond calls it on each bond.
unfoldable pub addr_is_bonded : List ℕ → ℕ → Bool
addr_is_bonded bonds addr = foldl (bond_match_cb addr) false bonds

abbrev pub is_linked : Option ℕ → Bool
is_linked none = false
is_linked (some conn) = true

-- k_uptime_get_32() - last_failed_ms, as a uint32_t
abbrev pub elapsed : ℕ → ℕ → ℕ
elapsed now before = u32 (now + 2 ^ 32 - before)

module _ {Q : Type 0} where
  -- The peer that failed to pair last, and not long ago.
  abbrev pub is_cooling : ℕ → ℕ → Central Q → Bool
  is_cooling addr now c =
      addr == c.last_failed_addr && ltb (elapsed now c.last_failed_ms) fail_cooldown_ms

  -- The tests before the connection is begun.
  unfoldable pub is_target : List ℕ → ℕ → AdvType → List AdElement → ℕ → Central Q → Bool
  unfolding addr_is_bonded parse_advert
  is_target bonds addr type es now c =
      let bonded = addr_is_bonded bonds addr in
      if is_linked c.default_conn
      then false
      else if not (is_connectable type)
      then false
      else if not bonded && not (parse_advert c.name_filter es).is_match
      then false
      else if not bonded && is_cooling addr now c
      then false
      else true

module _ {Q : Type 0} (answers : Stack) where
  -- bt_conn_le_create sets default_conn only where it returns 0.
  unfoldable pub connect_to : ℕ → ℕ → Central Q → Central Q
  unfolding start_scan
  connect_to addr conn c =
      let stopped = ask scan_stop c in
      let created = ask (create addr) stopped in
      if not (is_ok (answers c.requests scan_stop))
      then stopped
      else if is_ok (answers stopped.requests (create addr))
      then record created { default_conn = some conn }
      else start_scan answers created

  unfoldable pub device_found :
      List ℕ → ℕ → AdvType → List AdElement → ℕ → ℕ → Central Q → Central Q
  unfolding is_target connect_to
  device_found bonds addr type es now conn c =
      if is_target bonds addr type es now c then connect_to addr conn c else c
