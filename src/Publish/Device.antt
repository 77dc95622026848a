-- ===== src/Publish/Device.antt =====
-- `ble_hid_host_publish`, `ble_hid_host_reset` and their helpers.
-- The input queue is Zephyr's: with K_NO_WAIT a call of input_report_* takes the event or drops it
-- and fails. The parameter `accepts` says which, from all attempts so far.
use zmk_ble_hid_host.Base.{
  ℕ, zero, suc, ◌+◌, ◌%◌, bit_and, bit_or, bit_xor, Bool, true, false, not, ◌||◌, List, [], ◌∷◌,
  ltb, ◌==◌, if◌then◌else◌, u8, ◌<<<◌, ◌>>>◌, complement, meets, Option, none, some,
}
use zmk_ble_hid_host.Base.Signed.{ℤ, pos, negsuc, is_negative, is_positive}
use zmk_ble_hid_host.Layout.{PointerReport}

-- CONFIG_ZMK_BLE_HID_HOST_HWHEEL_AS_KEYS and CONFIG_ZMK_BLE_HID_HOST_WHEEL_AS_KEYS
pub record Config : Type 0 where
  pub hwheel_as_keys : Bool
  pub wheel_as_keys : Bool

-- Key codes: INPUT_BTN_0 + i, and the DPAD codes by their enum dpad_idx (LEFT, RIGHT, UP, DOWN).
pub data Code : Type 0 where
  btn : ℕ → Code
  dpad : ℕ → Code

pub data Axis : Type 0 where
  rel_x rel_y rel_hwheel rel_wheel : Axis

-- The arguments of input_report_key and input_report_rel; the last is `sync`.
pub data Event : Type 0 where
  key : Code → ℕ → Bool → Event
  rel : Axis → ℤ → Bool → Event

-- An attempt and whether the queue took it.
abbrev pub Attempt : Type 0
Attempt = Event × Bool

abbrev pub Queue : Type 0
Queue = List Attempt → Event → Bool

-- struct ble_hid_host_data, with the attempts so far, the latest first.
pub record Device : Type 0 where
  pub prev_buttons : ℕ
  pub pending_dpad_release : ℕ
  pub log : List Attempt

-- BLE_HID_HOST_PUBLISH_BTNS and the four values of enum dpad_idx
abbrev pub publish_btns : ℕ
publish_btns = 8

abbrev pub dpad_idx_left : ℕ
dpad_idx_left = 0

abbrev pub dpad_idx_right : ℕ
dpad_idx_right = 1

abbrev pub dpad_idx_up : ℕ
dpad_idx_up = 2

abbrev pub dpad_idx_down : ℕ
dpad_idx_down = 3

abbrev pub is_nonzero : ℤ → Bool
is_nonzero (pos n) = ltb 0 n
is_nonzero (negsuc n) = true

-- One button edge of a report, between the loop's rounds.
pub record Edges : Type 0 where
  pub applied : ℕ
  pub device : Device

-- The loop that finds the last button held; `none` is -1.
unfoldable pub last_held : ℕ → ℕ → ℕ → Option ℕ → Option ℕ
last_held held zero i last = last
last_held held (suc left) i last =
    last_held held left (i + 1) (if meets held (1 <<< i) then some i else last)

abbrev pub is_last : ℕ → Option ℕ → Bool
is_last i none = false
is_last i (some j) = i == j

module _ (accepts : Queue) where
  -- The device after an attempt; the attempt's result is `accepts d.log e`.
  abbrev pub attempt : Event → Device → Device
  attempt e d = record d { log = (e, accepts d.log e) ∷ d.log }

  unfoldable pub tap_btn : ℕ → Device → Device
  tap_btn idx d =
      let pressed = attempt (key (dpad idx) 1 false) d in
      let released = attempt (key (dpad idx) 0 false) pressed in
      if not (accepts d.log (key (dpad idx) 1 false))
      then pressed
      else if not (accepts pressed.log (key (dpad idx) 0 false))
      then record released {
        pending_dpad_release = u8 (bit_or released.pending_dpad_release (1 <<< idx));
      }
      else released

  unfoldable pub flush_one : ℕ → Device → Device
  flush_one idx d =
      let released = attempt (key (dpad idx) 0 false) d in
      if meets d.pending_dpad_release (1 <<< idx)
      then (if accepts d.log (key (dpad idx) 0 false)
          then record released {
            pending_dpad_release =
                u8 (bit_and released.pending_dpad_release (complement (1 <<< idx)));
          }
          else released)
      else d

  -- The loop over DPAD_IDX_COUNT = 4 codes.
  unfoldable pub flush_pending_dpad_releases : Device → Device
  unfolding flush_one
  flush_pending_dpad_releases d =
      flush_one dpad_idx_down
        (flush_one dpad_idx_up (flush_one dpad_idx_right (flush_one dpad_idx_left d)))

  -- One round of the loop over the buttons.
  unfoldable pub publish_edge : ℕ → ℕ → ℕ → Edges → Edges
  publish_edge buttons changed i s =
      let e = key (btn i) ((buttons >>> i) % 2) false in
      if meets changed (1 <<< i)
      then record {
        applied = if accepts (s.device).log e then bit_or s.applied (1 <<< i) else s.applied;
        device = attempt e s.device;
      }
      else s

  -- The loop, `left` buttons to go at index `i`.
  unfoldable pub publish_edges : ℕ → ℕ → ℕ → ℕ → Edges → Edges
  unfolding publish_edge
  publish_edges buttons changed zero i s = s
  publish_edges buttons changed (suc left) i s =
      publish_edges buttons changed left (i + 1) (publish_edge buttons changed i s)

  unfoldable pub publish_buttons : ℕ → Device → Device
  unfolding publish_edges
  publish_buttons buttons d =
      let s =
        publish_edges buttons (bit_xor buttons d.prev_buttons) publish_btns 0
          (record { applied = 0; device = d }) in
      record (s.device) {
        prev_buttons =
            bit_or (bit_and (s.device).prev_buttons (complement s.applied))
              (bit_and buttons s.applied);
      }

  abbrev pub publish_rel : Axis → ℤ → Device → Device
  publish_rel axis v d = if is_nonzero v then attempt (rel axis v false) d else d

  unfoldable pub publish_hwheel : Config → ℤ → Device → Device
  unfolding tap_btn
  publish_hwheel cfg v d =
      if cfg.hwheel_as_keys
      then (if is_negative v
          then tap_btn dpad_idx_left d
          else if is_positive v
          then tap_btn dpad_idx_right d
          else d)
      else publish_rel rel_hwheel v d

  unfoldable pub tap_wheel : Config → ℤ → Device → Device
  unfolding tap_btn
  tap_wheel cfg v d =
      if cfg.wheel_as_keys
      then (if is_positive v
          then tap_btn dpad_idx_up d
          else if is_negative v
          then tap_btn dpad_idx_down d
          else d)
      else d

  -- The REL_WHEEL event that ends every report.
  abbrev pub terminator : Config → ℤ → Event
  terminator cfg v = rel rel_wheel (if cfg.wheel_as_keys then pos 0 else v) true

  -- Compiled only where one of the two options is on.
  abbrev pub heal : Config → Device → Device
  heal cfg d = if cfg.hwheel_as_keys || cfg.wheel_as_keys then flush_pending_dpad_releases d else d

  unfoldable pub before_terminator : Config → PointerReport → Device → Device
  unfolding flush_pending_dpad_releases publish_buttons publish_hwheel tap_wheel
  before_terminator cfg r d = tap_wheel cfg r.wheel (
      publish_hwheel cfg r.hwheel
        (publish_rel rel_y r.dy (publish_rel rel_x r.dx (publish_buttons r.buttons (heal cfg d)))))

  unfoldable pub publish : Config → PointerReport → Device → Device
  unfolding before_terminator
  publish cfg r d = attempt (terminator cfg r.wheel) (before_terminator cfg r d)

  -- The loop that releases; what the queue answers is not looked at.
  unfoldable pub release_held : ℕ → Option ℕ → ℕ → ℕ → Device → Device
  release_held held last zero i d = d
  release_held held last (suc left) i d =
      release_held held last left (i + 1)
        (if meets held (1 <<< i) then attempt (key (btn i) 0 (is_last i last)) d else d)

  unfoldable pub reset : Config → Device → Device
  unfolding flush_pending_dpad_releases last_held release_held
  reset cfg d =
      let healed = heal cfg d in
      let held = healed.prev_buttons in
      if held == 0
      then healed
      else record (release_held held (last_held held publish_btns 0 none) publish_btns 0 healed) {
        prev_buttons = 0;
      }

-- ble_hid_host_init and the zeroed data.
abbrev pub initial : Device
initial = record { prev_buttons = 0; pending_dpad_release = 0; log = [] }
