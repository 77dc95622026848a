-- ===== src/Decode/Exact.antt =====
-- `zmk_hid_decode_report` on every branch: what it returns and what it leaves in `*out`.
use Prim.Native.Nat.{min}
use mathlib.Core.List.{foldl}
use native.Mathlib.Decide.{ℕ_discrete}
use zmk_ble_hid_host.Base.{
  ℕ, ◌+◌, ◌*◌, ◌/◌, ◌≤◌, ◌≡◌, ◌≢◌, refl, ap, ◌∙◌, List, [], ◌∷◌, some, length, arith, true, false,
  ltb, le→ltb,
}
use zmk_ble_hid_host.Layout.{Field, ReportLayout, PointerReport}
use zmk_ble_hid_host.Decode.Extract.{extract}
use zmk_ble_hid_host.Decode.Pointer.{
  success, longer, cover_field, stride, payload_bits, gather_buttons, decode_valid, decode_report,
}
use zmk_ble_hid_host.Decode.Value.{IsBytes}
use zmk_ble_hid_host.Decode.Signs.{field_value, extract-eq-field_value}
use zmk_ble_hid_host.Decode.Buttons.{pressed_mask, pressed_mask-lt, gather_buttons-eq-pressed_mask}

le-longer : (bits end : ℕ) → (bits ≤ longer bits end) × (end ≤ longer bits end)
le-longer bits end = ground arith

le-cover_field : (bits : ℕ) (f : Field) → bits ≤ cover_field bits f
unfolding cover_field
le-cover_field bits f = ground arith

field-le-cover :
    (bits : ℕ) (f : Field) → f.bit_size ≢ 0 → f.bit_offset + f.bit_size ≤ cover_field bits f
unfolding cover_field
field-le-cover bits f h = ground arith

-- Everything that the layout reads lies below `payload_bits`.
pub record IsCovered (l : ReportLayout) (bits : ℕ) : Type 0 where
  pub x : l.x.bit_size ≢ 0 → l.x.bit_offset + l.x.bit_size ≤ bits
  pub y : l.y.bit_size ≢ 0 → l.y.bit_offset + l.y.bit_size ≤ bits
  pub wheel : l.wheel.bit_size ≢ 0 → l.wheel.bit_offset + l.wheel.bit_size ≤ bits
  pub hwheel : l.hwheel.bit_size ≢ 0 → l.hwheel.bit_offset + l.hwheel.bit_size ≤ bits
  pub buttons : l.button_count ≢ 0 → l.buttons.bit_offset + l.button_count * stride l ≤ bits

fields_bits : ReportLayout → ℕ
fields_bits l = cover_field (cover_field (cover_field (cover_field 0 l.x) l.y) l.wheel) l.hwheel

fields_bits-le : (l : ReportLayout) → fields_bits l ≤ payload_bits l
fields_bits-le l = rw (← same) widened
  where
    same : foldl cover_field 0 (l.x ∷ l.y ∷ l.wheel ∷ l.hwheel ∷ []) ≡ fields_bits l
    same = unfold fields_bits in refl

    widened : foldl cover_field 0 (l.x ∷ l.y ∷ l.wheel ∷ l.hwheel ∷ []) ≤ payload_bits l
    widened = unfold payload_bits in ground arith

pub payload_bits-IsCovered : (l : ReportLayout) → IsCovered l (payload_bits l)
payload_bits-IsCovered l = record {
  x = λ h. omega (arith, field-le-cover 0 l.x h, below_x, fields_bits-le l);
  y = λ h. omega (arith, field-le-cover bits_x l.y h, below_y, fields_bits-le l);
  wheel = λ h. omega (arith, field-le-cover bits_y l.wheel h, below_wheel, fields_bits-le l);
  hwheel = λ h. omega (arith, field-le-cover bits_wheel l.hwheel h, whole, fields_bits-le l);
  buttons = λ h. unfold payload_bits in ground arith;
}
  where
    bits_x : ℕ
    bits_x = cover_field 0 l.x

    bits_y : ℕ
    bits_y = cover_field bits_x l.y

    bits_wheel : ℕ
    bits_wheel = cover_field bits_y l.wheel

    whole : cover_field bits_wheel l.hwheel ≡ fields_bits l
    whole = unfold fields_bits in refl

    below_wheel : bits_wheel ≤ fields_bits l
    below_wheel = omega (arith, le-cover_field bits_wheel l.hwheel, whole)

    below_y : bits_y ≤ fields_bits l
    below_y = omega (arith, le-cover_field bits_y l.wheel, below_wheel)

    below_x : bits_x ≤ fields_bits l
    below_x = omega (arith, le-cover_field bits_x l.y, below_y)

-- The report that a payload stands for, by the independent reading.
unfoldable pub report_value : List ℕ → ReportLayout → PointerReport
report_value bs l = record {
  dx = field_value bs l.x;
  dy = field_value bs l.y;
  wheel = field_value bs l.wheel;
  hwheel = field_value bs l.hwheel;
  buttons = pressed_mask bs l (min l.button_count 16);
}

-- No field is wider than the 32 digits of the decoder's words.
pub record IsNarrow (l : ReportLayout) : Type 0 where
  pub x : l.x.bit_size ≤ 32
  pub y : l.y.bit_size ≤ 32
  pub wheel : l.wheel.bit_size ≤ 32
  pub hwheel : l.hwheel.bit_size ≤ 32
  pub buttons : stride l ≤ 32

module _ (l : ReportLayout) (bs : List ℕ) (out : PointerReport) (bytes : IsBytes bs)
    (enough : payload_bits l ≤ 8 * length bs) where
  covered : IsCovered l (payload_bits l)
  covered = payload_bits-IsCovered l

  long_enough : ltb (length bs) ((payload_bits l + 7) / 8) ≡ false
  long_enough = le→ltb (length bs) ((payload_bits l + 7) / 8) (omega arith)

  narrow_field :
      (f : Field)
      → f.bit_size ≤ 32
      → (f.bit_size ≢ 0 → f.bit_offset + f.bit_size ≤ payload_bits l)
      → extract bs f ≡ some (field_value bs f)
  narrow_field f small inside =
      extract-eq-field_value bs f bytes small (λ h. omega (arith, inside h))

  no_buttons_yet : 0 ≡ pressed_mask bs l 0
  no_buttons_yet = omega (arith, pressed_mask-lt bs l 0)

  all_buttons :
      stride l ≤ 32
      → gather_buttons bs l l.button_count 0 0 ≡ some (pressed_mask bs l (min l.button_count 16))
  all_buttons small = elim (ℕ_discrete l.button_count 0) [
    | yes without ↦ ap (λ n. gather_buttons bs l n 0 0) without ∙ none_read without
    | no with_some ↦
        ap (gather_buttons bs l l.button_count 0) no_buttons_yet
        ∙ gather_buttons-eq-pressed_mask bs l bytes small l.button_count 0 l.button_count
            (omega arith) (omega arith) (omega (arith, covered.buttons with_some))
  ]
    where
      none_read :
          l.button_count ≡ 0
          → gather_buttons bs l 0 0 0 ≡ some (pressed_mask bs l (min l.button_count 16))
      none_read e =
          unfold gather_buttons in ap some (no_buttons_yet ∙ ap (pressed_mask bs l) (omega arith))

  decoded :
      l.valid ≡ true
      → IsNarrow l
      → decode_valid l bs out ≡ some (record { code = success; out = some (report_value bs l) })
  unfolding decode_valid report_value
  decoded valid narrow = simp (
    valid,
    long_enough,
    narrow_field l.x narrow.x covered.x,
    narrow_field l.y narrow.y covered.y,
    narrow_field l.wheel narrow.wheel covered.wheel,
    narrow_field l.hwheel narrow.hwheel covered.hwheel,
    all_buttons narrow.buttons,
  )

-- A valid layout without a field over 32 digits decodes every payload that is long enough: the
-- call returns 0, each delta is the two's complement (or unsigned) value of its digits in the
-- payload read as one little-endian number, and button i is set exactly when its digits are not 0.
pub decode_report-exact :
    (l : ReportLayout) (bs : List ℕ) (out : PointerReport)
    → IsBytes bs
    → payload_bits l ≤ 8 * length bs
    → l.valid ≡ true
    → IsNarrow l
    → decode_report (some l) (some bs) (some out)
      ≡ some (record { code = success; out = some (report_value bs l) })
decode_report-exact l bs out bytes enough valid narrow =
    unfold decode_report in decoded l bs out bytes enough valid narrow
