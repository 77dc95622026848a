-- ===== src/Decode/Keyboard.antt =====
-- `kbd_payload_bits` and `zmk_hid_decode_keyboard_report`.
use zmk_ble_hid_host.Base.{
  ℕ, zero, suc, ◌+◌, ◌-◌, ◌*◌, ◌/◌, ◌^◌, false, not, ◌&&◌, Option, some, List, [], ◌∷◌, ◌++◌,
  length, ltb, ◌==◌, if◌then◌else◌, u8, u16, ◌>>=◌,
}
use zmk_ble_hid_host.Base.Signed.{ℤ, pos, negsuc}
use zmk_ble_hid_host.Layout.{Field, KeyboardLayout, KeyboardReport, empty_kbd_report, max_keys}
use zmk_ble_hid_host.Decode.Extract.{extract}
use zmk_ble_hid_host.Decode.Pointer.{Returned, success, failure, longer}

-- (uint32_t)z for an int32_t z
abbrev pub uint32 : ℤ → ℕ
uint32 (pos n) = n
uint32 (negsuc n) = 2 ^ 32 - 1 - n

unfoldable pub kbd_payload_bits : KeyboardLayout → ℕ
kbd_payload_bits l =
    let bits =
      if l.modifiers.bit_size == 0
      then 0
      else longer 0 (l.modifiers.bit_offset + l.modifiers.bit_size) in
    if not (l.key_count == 0) && not (l.keys.bit_size == 0)
    then longer bits (l.keys.bit_offset + l.key_count * l.keys.bit_size)
    else bits

-- The field of array entry `i`.
abbrev pub key_entry : KeyboardLayout → ℕ → Field
key_entry l i = record {
  bit_offset = u16 (l.keys.bit_offset + i * l.keys.bit_size);
  bit_size = l.keys.bit_size;
  is_signed = false;
}

-- Appends a keycode unless it is 0 (no key) or 1 (ErrorRollOver).
abbrev pub keep_key : List ℕ → ℕ → List ℕ
keep_key keys code = if not (code == 0) && not (code == 1) then keys ++ u8 code ∷ [] else keys

-- The loop over the keycode array, `left` entries to go at index `i`.
unfoldable pub gather_keys : List ℕ → KeyboardLayout → ℕ → ℕ → List ℕ → Option (List ℕ)
unfolding extract
gather_keys report l zero i keys = some keys
gather_keys report l (suc left) i keys =
    let rest = extract report (key_entry l i) >>= λ code.
    gather_keys report l left (i + 1) (keep_key keys (uint32 code)) in
    if ltb (length keys) max_keys then rest else some keys

unfoldable pub read_modifiers : List ℕ → KeyboardLayout → Option ℕ
unfolding extract
read_modifiers report l =
    if l.modifiers.bit_size == 0
    then some 0
    else (extract report l.modifiers >>= λ z. some (u8 (uint32 z)))

-- The body of `zmk_hid_decode_keyboard_report` after the null checks.
unfoldable pub decode_valid_keyboard :
    KeyboardLayout → List ℕ → KeyboardReport → Option (Returned KeyboardReport)
unfolding kbd_payload_bits read_modifiers gather_keys
decode_valid_keyboard l report out =
    if not l.valid
    then some (record { code = failure; out = some out })
    else if ltb (length report) ((kbd_payload_bits l + 7) / 8)
    then some (record { code = failure; out = some empty_kbd_report })
    else (do
      modifiers ← read_modifiers report l
      keys ← gather_keys report l l.key_count 0 []
      some (record { code = success; out = some (record { modifiers = modifiers; keys = keys }) }))

unfoldable pub decode_keyboard_report :
    Option KeyboardLayout
    → Option (List ℕ)
    → Option KeyboardReport
    → Option (Returned KeyboardReport)
unfolding decode_valid_keyboard
decode_keyboard_report (some l) (some report) (some out) = decode_valid_keyboard l report out
decode_keyboard_report _ _ out = some (record { code = failure; out = out })
