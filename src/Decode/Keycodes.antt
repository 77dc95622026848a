-- ===== src/Decode/Keycodes.antt =====
-- What the keyboard decoder reads out of a payload.
use native.Mathlib.Nat.{pow-le-pow_right}
use zmk_ble_hid_host.Base.{
  ℕ, zero, suc, ◌+◌, ◌*◌, ◌/◌, ◌^◌, ◌≤◌, ◌<◌, ◌≡◌, ◌≢◌, refl, sym, ap, ◌∙◌, Bool, true, false, not,
  ◌&&◌, some, List, [], ◌∷◌, ◌++◌, append-nil, append_assoc, length, take, take-length-append,
  take_all, ltb, ltb→lt, ==_iff, ◌==◌, if◌then◌else◌, ◌>>=◌, u8, u16, arith, Bool-cases, inl, inr,
}
use zmk_ble_hid_host.Base.Signed.{ℤ, pos, int32}
use zmk_ble_hid_host.Layout.{Field, KeyboardLayout, KeyboardReport}
use zmk_ble_hid_host.Decode.Extract.{extract}
use zmk_ble_hid_host.Decode.Pointer.{success}
use zmk_ble_hid_host.Decode.Keyboard.{
  uint32, kbd_payload_bits, key_entry, keep_key, gather_keys, read_modifiers,
  decode_keyboard_report, decode_valid_keyboard,
}
use zmk_ble_hid_host.Decode.Value.{IsBytes, raw_field, raw_field-lt}
use zmk_ble_hid_host.Decode.Signs.{field_value, field_value-unsigned, extract-eq-field_value}
use zmk_ble_hid_host.Decode.Keys.{keep_key_fits}

-- The entries of the keycode array as numbers, `left` of them from index `i` on.
abbrev pub codes : List ℕ → KeyboardLayout → ℕ → ℕ → List ℕ
codes bs l zero i = []
codes bs l (suc left) i =
    raw_field bs (l.keys.bit_offset + i * l.keys.bit_size) l.keys.bit_size ∷ codes bs l left (i + 1)

-- Without the codes 0 and 1, and cut to a byte each.
abbrev pub noted : List ℕ → List ℕ
noted [] = []
noted (code ∷ rest) =
    if not (code == 0) && not (code == 1) then u8 code ∷ noted rest else noted rest

uint32-int32 : (v : ℕ) → v < 2 ^ 32 → uint32 (int32 v) ≡ v
uint32-int32 v h = ground arith

-- An unsigned field is read as the number that its digits make.
extract-unsigned :
    (bs : List ℕ) (offset size : ℕ)
    → IsBytes bs
    → size ≤ 32
    → (size ≢ 0 → offset + size ≤ 8 * length bs)
    → (z : ℤ) × (extract bs (record { bit_offset = offset; bit_size = size; is_signed = false })
        ≡ some z)
      × (uint32 z ≡ raw_field bs offset size)
extract-unsigned bs offset size h narrow fits =
    let f : Field = record { bit_offset = offset; bit_size = size; is_signed = false } in
    (
      field_value bs f,
      extract-eq-field_value bs f h narrow fits,
      ap uint32 (field_value-unsigned bs offset size) ∙ as_number,
    )
  where
    small : raw_field bs offset size < 2 ^ 32
    small = omega (
      arith,
      raw_field-lt bs offset size,
      pow-le-pow_right {n = 2} (omega arith) {i = size} {j = 32} narrow,
    )

    -- No digit makes 0.
    none_is_zero : size ≡ 0 → raw_field bs offset size ≡ 0
    none_is_zero absent =
        let one : 2 ^ size ≡ 1 = ap (λ (k : ℕ). 2 ^ k) absent in
        omega (arith, one, raw_field-lt bs offset size)

    as_number :
        uint32 (if size == 0 then pos 0 else int32 (raw_field bs offset size))
        ≡ raw_field bs offset size
    as_number = elim (Bool-cases (size == 0)) [
      | inl absent ↦ rw absent (sym (none_is_zero ((==_iff size 0).0 absent)))
      | inr present ↦ rw present (uint32-int32 (raw_field bs offset size) small)
    ]

noted_step :
    (keys : List ℕ) (code : ℕ) (rest : List ℕ)
    → keep_key keys code ++ noted rest ≡ keys ++ noted (code ∷ rest)
noted_step keys code rest = by_test (not (code == 0) && not (code == 1))
  where
    by_test :
        (test : Bool)
        → (if test then keys ++ (u8 code ∷ []) else keys) ++ noted rest
          ≡ keys ++ (if test then u8 code ∷ noted rest else noted rest)
    by_test true = append_assoc keys (u8 code ∷ []) (noted rest)
    by_test false = refl

below_end : (i n s : ℕ) → i < n → i * s + s ≤ n * s
below_end i n s h = grind arith

module _ (bs : List ℕ) (l : KeyboardLayout) (bytes : IsBytes bs) (narrow : l.keys.bit_size ≤ 32)
    (fits : l.key_count ≢ 0
      → l.keys.bit_size ≢ 0
      → l.keys.bit_offset + l.key_count * l.keys.bit_size ≤ 8 * length bs)
    (unwrapped : l.keys.bit_offset + l.key_count * l.keys.bit_size < 65536) where
  gather_keys_lem :
      (left i : ℕ) (keys : List ℕ)
      → i + left ≡ l.key_count
      → length keys ≤ 16
      → gather_keys bs l left i keys ≡ some (take 16 (keys ++ noted (codes bs l left i)))
  unfolding gather_keys
  gather_keys_lem zero i keys all few =
      ap some (sym (ap (take 16) (append-nil keys) ∙ take_all 16 keys few))
  gather_keys_lem (suc left) i keys all few = elim (Bool-cases (ltb (length keys) 16)) [
    | inr full ↦
        let whole : length keys ≡ 16 = ground (arith, full, few) in
        let run : gather_keys bs l (suc left) i keys ≡ some keys = simp full in
        run
        ∙ ap some (
            sym (
              ap (λ n. take n (keys ++ noted (codes bs l (suc left) i))) (sym whole)
              ∙ take-length-append keys (noted (codes bs l (suc left) i))))
    | inl room ↦
        let end = below_end i l.key_count l.keys.bit_size (omega (arith, all)) in
        let inside : u16 (l.keys.bit_offset + i * l.keys.bit_size)
            ≡ l.keys.bit_offset + i * l.keys.bit_size =
          omega (arith, end, unwrapped) in
        let (z, extracted, value) =
          extract-unsigned bs (l.keys.bit_offset + i * l.keys.bit_size) l.keys.bit_size bytes narrow
            (λ h. omega (arith, end, fits (λ none_at. omega (arith, all, none_at)) h)) in
        let entry : extract bs (key_entry l i) ≡ some z =
          ap
            (λ offset.
              let f : Field = record {
                bit_offset = offset;
                bit_size = l.keys.bit_size;
                is_signed = false;
              } in
              extract bs f)
            inside
          ∙ extracted in
        let rest =
          gather_keys_lem left (i + 1) (keep_key keys (uint32 z)) (omega (arith, all))
            (keep_key_fits keys (uint32 z) (ltb→lt (length keys) 16 room)) in
        let run : gather_keys bs l (suc left) i keys
            ≡ some (take 16 (keep_key keys (uint32 z) ++ noted (codes bs l left (i + 1)))) =
          simp (room, entry, rest) in
        run
        ∙ ap (λ ks. some (take 16 ks))
            (noted_step keys (uint32 z) (codes bs l left (i + 1))
              ∙ ap (λ code. keys ++ noted (code ∷ codes bs l left (i + 1))) value)
  ]

-- The end of the keycode array is below `kbd_payload_bits`, and so is the end of the modifiers.
kbd_payload_bits-covers :
    (l : KeyboardLayout)
    → (l.modifiers.bit_size ≢ 0
        → l.modifiers.bit_offset + l.modifiers.bit_size ≤ kbd_payload_bits l)
      × (l.key_count ≢ 0
          → l.keys.bit_size ≢ 0
          → l.keys.bit_offset + l.key_count * l.keys.bit_size ≤ kbd_payload_bits l)
unfolding kbd_payload_bits
kbd_payload_bits-covers l = ((λ h. ground arith), (λ h k. ground arith))

read_modifiers_lem :
    (bs : List ℕ) (l : KeyboardLayout)
    → IsBytes bs
    → l.modifiers.bit_size ≤ 32
    → (l.modifiers.bit_size ≢ 0 → l.modifiers.bit_offset + l.modifiers.bit_size ≤ 8 * length bs)
    → read_modifiers bs l
      ≡ some (if l.modifiers.bit_size == 0 then 0 else u8 (uint32 (field_value bs l.modifiers)))
unfolding read_modifiers
read_modifiers_lem bs l h narrow fits =
    by_size (l.modifiers.bit_size == 0) (extract-eq-field_value bs l.modifiers h narrow fits)
  where
    by_size :
        (absent : Bool)
        → extract bs l.modifiers ≡ some (field_value bs l.modifiers)
        → (if absent then some 0 else (extract bs l.modifiers >>= λ z. some (u8 (uint32 z))))
          ≡ some (if absent then 0 else u8 (uint32 (field_value bs l.modifiers)))
    by_size true e = refl
    by_size false e = ap (λ o. o >>= λ (z : ℤ). some (u8 (uint32 z))) e

-- A valid keyboard layout with fields of at most 32 digits, whose array ends below bit 65536, decodes
-- every payload that is long enough: the call returns 0, the modifiers are the low byte of their
-- field's value (0 without the field), and the keys are the first sixteen of the array's entries
-- that are neither 0 nor 1, in their order, cut to a byte each.
pub decode_keyboard_report-exact :
    (l : KeyboardLayout) (bs : List ℕ) (out : KeyboardReport)
    → IsBytes bs
    → kbd_payload_bits l ≤ 8 * length bs
    → l.valid ≡ true
    → l.modifiers.bit_size ≤ 32
    → l.keys.bit_size ≤ 32
    → l.keys.bit_offset + l.key_count * l.keys.bit_size < 65536
    → decode_keyboard_report (some l) (some bs) (some out)
      ≡ some (record {
        code = success;
        out = some (record {
          modifiers =
              if l.modifiers.bit_size == 0 then 0 else u8 (uint32 (field_value bs l.modifiers));
          keys = take 16 (noted (codes bs l l.key_count 0));
        });
      })
unfolding decode_keyboard_report decode_valid_keyboard
decode_keyboard_report-exact l bs out bytes enough valid narrow narrow_keys unwrapped =
    let (modifiers_end, keys_end) = kbd_payload_bits-covers l in
    let long : ltb (length bs) ((kbd_payload_bits l + 7) / 8) ≡ false = ground (arith, enough) in
    let modifiers =
      read_modifiers_lem bs l bytes narrow (λ h. omega (arith, modifiers_end h, enough)) in
    let keys =
      gather_keys_lem bs l bytes narrow_keys (λ h k. omega (arith, keys_end h k, enough)) unwrapped
        l.key_count 0 [] (omega arith) (omega arith) in
    simp (valid, long, modifiers, keys)
