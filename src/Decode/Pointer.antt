-- ===== src/Decode/Pointer.antt =====
-- `payload_bits` and `zmk_hid_decode_report`.
use mathlib.Core.List.{foldl}
use zmk_ble_hid_host.Base.{
  ℕ, zero, suc, ◌+◌, ◌*◌, ◌/◌, bit_or, not, Option, none, some, List, [], ◌∷◌, get_elem?, length,
  ltb, ◌==◌, if◌then◌else◌, ◌<<<◌, ◌>>>◌, ◌>>=◌,
}
use zmk_ble_hid_host.Base.Signed.{ℤ, pos, negsuc}
use zmk_ble_hid_host.Layout.{Field, ReportLayout, PointerReport, empty_report, max_buttons}
use zmk_ble_hid_host.Decode.Extract.{digit, extract}

-- What a call leaves: the int that it returns, and `*out` afterwards (`none` for a null pointer).
pub record Returned (A : Type 0) : Type 0 where
  pub code : ℤ
  pub out : Option A

-- 0 and -1
abbrev pub success : ℤ
success = pos 0

abbrev pub failure : ℤ
failure = negsuc 0

abbrev pub longer : ℕ → ℕ → ℕ
longer bits end = if ltb bits end then end else bits

unfoldable pub cover_field : ℕ → Field → ℕ
cover_field bits f = if f.bit_size == 0 then bits else longer bits (f.bit_offset + f.bit_size)

-- x ? x : 1, the width of one button
unfoldable pub stride : ReportLayout → ℕ
stride l = if l.buttons.bit_size == 0 then 1 else l.buttons.bit_size

unfoldable pub payload_bits : ReportLayout → ℕ
unfolding cover_field stride
payload_bits l =
    let bits = foldl cover_field 0 (l.x ∷ l.y ∷ l.wheel ∷ l.hwheel ∷ []) in
    if l.button_count == 0
    then bits
    else longer bits (l.buttons.bit_offset + l.button_count * stride l)

-- The inner loop over the bits of one button; a bit beyond the report is skipped.
unfoldable pub button_field : List ℕ → ℕ → ℕ → ℕ → ℕ → Option ℕ
button_field report base zero b field = some field
button_field report base (suc left) b field = elim (get_elem? report ((base + b) >>> 3)) [
  | none ↦ button_field report base left (b + 1) field
  | some byte ↦
      let rest =
        button_field report base left (b + 1) (bit_or field (digit byte (base + b) <<< b)) in
      if ltb b 32 then rest else none
]

-- The loop over the buttons, `left` of them to go at index `i`.
unfoldable pub gather_buttons : List ℕ → ReportLayout → ℕ → ℕ → ℕ → Option ℕ
unfolding button_field stride
gather_buttons report l zero i buttons = some buttons
gather_buttons report l (suc left) i buttons =
    let rest = button_field report (l.buttons.bit_offset + i * stride l) (stride l) 0 0 >>= λ field.
    gather_buttons report l left (i + 1)
      (if field == 0 then buttons else bit_or buttons (1 <<< i)) in
    if ltb i max_buttons then rest else some buttons

-- The body of `zmk_hid_decode_report` after the null checks.
unfoldable pub decode_valid :
    ReportLayout → List ℕ → PointerReport → Option (Returned PointerReport)
unfolding payload_bits extract gather_buttons
decode_valid l report out =
    if not l.valid
    then some (record { code = failure; out = some out })
    else if ltb (length report) ((payload_bits l + 7) / 8)
    then some (record { code = failure; out = some empty_report })
    else (do
      dx ← extract report l.x
      dy ← extract report l.y
      wheel ← extract report l.wheel
      hwheel ← extract report l.hwheel
      buttons ← gather_buttons report l l.button_count 0 0
      some (record {
        code = success;
        out = some (record { dx = dx; dy = dy; wheel = wheel; hwheel = hwheel; buttons = buttons });
      }))

unfoldable pub decode_report :
    Option ReportLayout → Option (List ℕ) → Option PointerReport → Option (Returned PointerReport)
unfolding decode_valid
decode_report (some l) (some report) (some out) = decode_valid l report out
decode_report _ _ out = some (record { code = failure; out = out })
