-- ===== src/Decode/Keys.antt =====
-- `zmk_hid_decode_keyboard_report` is defined on every payload and keeps within its key array.
use zmk_ble_hid_host.Base.{
  ℕ, zero, suc, ◌+◌, ◌/◌, ◌^◌, ◌≤◌, ◌<◌, ◌≡◌, refl, ap, List, [], ◌∷◌, ◌++◌, length, length-append,
  Option, some, none, get_elem?, Bool, true, false, not, ◌&&◌, if◌then◌else◌, ◌==◌, ◌>>=◌, ltb,
  ltb→lt, lt→ltb, bit_or, u8, arith, Option-cases, Bool-cases, inl, inr, ◌<<<◌,
}
use zmk_ble_hid_host.Base.Signed.{ℤ, pos, int32}
use zmk_ble_hid_host.Layout.{Field, KeyboardLayout, KeyboardReport, empty_kbd_report}
use zmk_ble_hid_host.Decode.Extract.{digit, gather, sign_extend, extract}
use zmk_ble_hid_host.Decode.Pointer.{Returned, success, failure}
use zmk_ble_hid_host.Decode.Keyboard.{
  uint32, kbd_payload_bits, key_entry, keep_key, gather_keys, read_modifiers,
  decode_keyboard_report,
}

-- Up to 32 rounds, the loop of `extract` ends with a number, wherever the report ends.
gather_total :
    (bs : List ℕ) (offset left i v : ℕ)
    → i + left ≤ 32
    → (n : ℕ) × (gather bs offset left i v ≡ some n)
unfolding gather
gather_total bs offset zero i v h = (v, refl)
gather_total bs offset (suc left) i v h =
    elim (Option-cases (get_elem? bs ((offset + i) / 2 ^ 3))) [
      | inl past ↦ (v, rw (past, gather) refl)
      | inr (byte, inside) ↦
          let (n, rest) =
            gather_total bs offset left (i + 1) (bit_or v (digit byte (offset + i) <<< i))
              (omega arith) in
          (n, rw (inside, gather) (rw (lt→ltb i 32 (omega arith)) rest))
    ]

extract_total : (bs : List ℕ) (f : Field) → f.bit_size ≤ 32 → (z : ℤ) × (extract bs f ≡ some z)
unfolding extract
extract_total bs f h = elim (Bool-cases (f.bit_size == 0)) [
  | inl absent ↦ (pos 0, simp absent)
  | inr present ↦
      let (n, gathered) = gather_total bs f.bit_offset f.bit_size 0 0 (omega (arith, h)) in
      (
        int32 (if f.is_signed && ltb f.bit_size 32 then sign_extend f.bit_size n else n),
        simp (present, gathered),
      )
]

pub keep_key_fits : (keys : List ℕ) (code : ℕ) → length keys < 16 → length (keep_key keys code) ≤ 16
keep_key_fits keys code h = by_code (not (code == 0) && not (code == 1))
  where
    by_code : (kept : Bool) → length (if kept then keys ++ (u8 code ∷ []) else keys) ≤ 16
    by_code true = omega (arith, length-append keys (u8 code ∷ []))
    by_code false = omega arith

gather_keys_total :
    (bs : List ℕ) (l : KeyboardLayout) (left i : ℕ) (keys : List ℕ)
    → l.keys.bit_size ≤ 32
    → length keys ≤ 16
    → (ks : List ℕ) × (gather_keys bs l left i keys ≡ some ks) × (length ks ≤ 16)
unfolding gather_keys
gather_keys_total bs l zero i keys narrow h = (keys, refl, h)
gather_keys_total bs l (suc left) i keys narrow h = elim (Bool-cases (ltb (length keys) 16)) [
  | inr full ↦ (keys, simp full, h)
  | inl room ↦
      let (z, extracted) = extract_total bs (key_entry l i) narrow in
      let (ks, rest, fits) =
        gather_keys_total bs l left (i + 1) (keep_key keys (uint32 z)) narrow
          (keep_key_fits keys (uint32 z) (ltb→lt (length keys) 16 room)) in
      (ks, simp (room, extracted, rest), fits)
]

read_modifiers_total :
    (bs : List ℕ) (l : KeyboardLayout)
    → l.modifiers.bit_size ≤ 32
    → (n : ℕ) × (read_modifiers bs l ≡ some n)
unfolding read_modifiers
read_modifiers_total bs l h =
    let (z, extracted) = extract_total bs l.modifiers h in
    by_size (l.modifiers.bit_size == 0) (extract bs l.modifiers) z extracted
  where
    by_size :
        (absent : Bool) (r : Option ℤ) (z : ℤ)
        → r ≡ some z
        → (n : ℕ) × ((if absent then some 0 else (r >>= λ k. some (u8 (uint32 k)))) ≡ some n)
    by_size true r z e = (0, refl)
    by_size false r z e = (u8 (uint32 z), ap (λ o. o >>= λ (k : ℤ). some (u8 (uint32 k))) e)

-- What a call leaves in `*out` has at most 16 keys.
abbrev pub KeysFit : Option KeyboardReport → Type 0
KeysFit none = Unit
KeysFit (some report) = length report.keys ≤ 16

-- With fields of at most 32 bits, and `*out` with at most 16 keys before, the keyboard decoder
-- returns on every payload without an undefined shift, and never writes beyond its 16 keys.
pub decode_keyboard_report_total :
    (l : KeyboardLayout) (bs : List ℕ) (out : KeyboardReport)
    → l.modifiers.bit_size ≤ 32
    → l.keys.bit_size ≤ 32
    → length out.keys ≤ 16
    → (r : Returned KeyboardReport) × (decode_keyboard_report (some l) (some bs) (some out)
        ≡ some r)
      × KeysFit r.out
unfolding decode_keyboard_report
decode_keyboard_report_total l bs out narrow_modifiers narrow_keys before =
    elim (Bool-cases l.valid) [
      | inr invalid ↦ (record { code = failure; out = some out }, simp invalid, before)
      | inl valid ↦ elim (Bool-cases (ltb (length bs) ((kbd_payload_bits l + 7) / 8))) [
        | inl short ↦ (
          record { code = failure; out = some empty_kbd_report },
          simp (valid, short),
          omega arith,
        )
        | inr enough ↦
            let (n, modifiers) = read_modifiers_total bs l narrow_modifiers in
            let (ks, keys, fits) =
              gather_keys_total bs l l.key_count 0 [] narrow_keys (omega arith) in
            (
              record { code = success; out = some (record { modifiers = n; keys = ks }) },
              simp (valid, enough, modifiers, keys),
              fits,
            )
      ]
    ]
