-- ===== src/Decode/Buttons.antt =====
-- The button loops of `zmk_hid_decode_report` give one digit of the mask to each button.
use Prim.Native.Nat.{min}
use native.Mathlib.Decide.{dec_lt}
use native.Mathlib.Nat.{pow-suc}
use zmk_ble_hid_host.Base.{
  ℕ, zero, suc, ◌+◌, ◌*◌, ◌/◌, ◌^◌, ◌≤◌, ◌<◌, ◌≡◌, refl, ap, ◌∙◌, List, some, length, arith, ◌==◌,
  if◌then◌else◌, get_elem?-eq-get_or, get_or, bit_or, lt→ltb, le→ltb, ◌>>=◌,
}
use zmk_ble_hid_host.Base.Bits.Fields.{bit_or_disjoint, two_pow_pos}
use zmk_ble_hid_host.Layout.{ReportLayout}
use zmk_ble_hid_host.Decode.Extract.{gather, digit}
use zmk_ble_hid_host.Decode.Pointer.{stride, button_field, gather_buttons}
use zmk_ble_hid_host.Decode.Value.{IsBytes, raw_field}
use zmk_ble_hid_host.Decode.Signs.{gather_field}

-- Inside the report the loop over one button's bits is the loop of `extract`.
pub button_field-eq-gather :
    (bs : List ℕ) (base left b field : ℕ)
    → base + b + left ≤ 8 * length bs
    → button_field bs base left b field ≡ gather bs base left b field
unfolding button_field gather
button_field-eq-gather bs base zero b field fits = refl
button_field-eq-gather bs base (suc left) b field fits = ground (
  arith,
  get_elem?-eq-get_or bs ((base + b) / 8) 0,
  button_field-eq-gather bs base left (b + 1)
      (bit_or field (digit (get_or bs ((base + b) / 8) 0) (base + b) * 2 ^ b)) (omega arith),
)

-- The digits of button `i`.
unfoldable pub button_value : List ℕ → ReportLayout → ℕ → ℕ
button_value bs l i = raw_field bs (l.buttons.bit_offset + i * stride l) (stride l)

-- The mask of the first `n` buttons: digit i is set when the digits of button i are not all 0.
unfoldable pub pressed_mask : List ℕ → ReportLayout → ℕ → ℕ
pressed_mask bs l zero = 0
pressed_mask bs l (suc n) = pressed_mask bs l n + (if button_value bs l n == 0 then 0 else 2 ^ n)

pub pressed_mask-lt : (bs : List ℕ) (l : ReportLayout) (n : ℕ) → pressed_mask bs l n < 2 ^ n
unfolding pressed_mask
pressed_mask-lt bs l zero = omega arith
pressed_mask-lt bs l (suc n) = ground (arith, pressed_mask-lt bs l n, pow-suc 2 n, two_pow_pos n)

mask_step :
    (bs : List ℕ) (l : ReportLayout) (i : ℕ)
    → (if button_value bs l i == 0
        then pressed_mask bs l i
        else bit_or (pressed_mask bs l i) (1 * 2 ^ i))
      ≡ pressed_mask bs l (suc i)
unfolding pressed_mask
mask_step bs l i =
    ground (arith, bit_or_disjoint i (pressed_mask bs l i) 1 (pressed_mask-lt bs l i))

module _ (bs : List ℕ) (l : ReportLayout) (bytes : IsBytes bs) (narrow : stride l ≤ 32) where
  one_button :
      (i : ℕ)
      → l.buttons.bit_offset + i * stride l + stride l ≤ 8 * length bs
      → button_field bs (l.buttons.bit_offset + i * stride l) (stride l) 0 0
        ≡ some (button_value bs l i)
  unfolding button_value
  one_button i fits =
      button_field-eq-gather bs _ (stride l) 0 0 (omega arith)
      ∙ gather_field bs (l.buttons.bit_offset + i * stride l) (stride l) bytes narrow fits

  pub gather_buttons-eq-pressed_mask :
      (left i count : ℕ)
      → i + left ≡ count
      → i ≤ 16
      → l.buttons.bit_offset + count * stride l ≤ 8 * length bs
      → gather_buttons bs l left i (pressed_mask bs l i) ≡ some (pressed_mask bs l (min count 16))
  unfolding gather_buttons
  gather_buttons-eq-pressed_mask zero i count e few fits =
      ap (λ n. some (pressed_mask bs l n)) (omega arith)
  gather_buttons-eq-pressed_mask (suc left) i count e few fits = elim (dec_lt i 16) [
    | yes below ↦
        rw (lt→ltb i 16 below, one_button i (grind arith), ◌>>=◌, mask_step bs l i)
          (ap (λ n. gather_buttons bs l left n (pressed_mask bs l (suc i))) {x = i + 1} {y = suc i}
              (omega arith)
            ∙ gather_buttons-eq-pressed_mask left (suc i) count (omega arith) below fits)
    | no full ↦ rw (le→ltb i 16 (omega arith)) (ap (λ n. some (pressed_mask bs l n)) (omega arith))
  ]
