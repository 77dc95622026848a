-- ===== src/Peer/Reading.antt =====
-- How the decoder's reading of a field, a mask and a layout's extent meet the device's.
use native.Mathlib.Nat.{div-div-eq-div-mul, pow-suc, mod-mod_of_dvd, dvd-mul_right}
use zmk_ble_hid_host.Base.{
  ℕ, zero, suc, ◌+◌, ◌-◌, ◌*◌, ◌/◌, ◌%◌, ◌^◌, ◌≤◌, ◌<◌, ◌≡◌, ◌≢◌, sym, ap, ap₂, ◌∙◌, Bool, true,
  false, List, arith, ◌==◌, if◌then◌else◌, bit,
}
use zmk_ble_hid_host.Base.Signed.{ℤ, pos, negsuc, int32}
use zmk_ble_hid_host.Base.Bits.Fields.{two_pow_add, mod-pow-suc}
use zmk_ble_hid_host.Layout.{Field, ReportLayout}
use zmk_ble_hid_host.Decode.Pointer.{longer, cover_field, stride, payload_bits}
use zmk_ble_hid_host.Decode.Value.{le_value, raw_field}
use zmk_ble_hid_host.Decode.Signs.{twos}
use zmk_ble_hid_host.Decode.Buttons.{button_value, pressed_mask}
use zmk_ble_hid_host.Decode.Exact.{IsCovered}
use zmk_ble_hid_host.Peer.Desc.{raw}
use zmk_ble_hid_host.Peer.Meant.{Holds}

-- Two's complement and back.
unfoldable pub as_value : ℕ → Bool → ℕ → ℤ
as_value size sign v = if size == 0 then pos 0 else if sign then twos size v else int32 v

pub as_value-raw :
    (size : ℕ) (sign : Bool) (v : ℤ)
    → 0 < size
    → Holds size sign v
    → as_value size sign (raw size v) ≡ v
unfolding as_value
as_value-raw size true (pos n) h fits = ground arith
as_value-raw size true (negsuc n) h fits = ground (arith, halves size h)
  where
    halves : (size : ℕ) → 0 < size → 2 ^ size ≡ 2 ^ (size - 1) + 2 ^ (size - 1)
    halves zero h = absurd (omega arith)
    halves (suc k) h = omega (arith, ap (λ (t : ℕ). 2 ^ t) (pred k), pow-suc 2 k)
      where
        pred : (k : ℕ) → suc k - 1 ≡ k
        pred k = omega arith
as_value-raw size false (pos n) h fits = ground arith
as_value-raw size false (negsuc n) h fits = absurd fits

-- A payload is covered if every field is.
cover_field-le :
    (bits limit : ℕ) (f : Field)
    → bits ≤ limit
    → (f.bit_size ≢ 0 → f.bit_offset + f.bit_size ≤ limit)
    → cover_field bits f ≤ limit
unfolding cover_field
cover_field-le bits limit f h inside = ground arith

pub payload_bits-le : (l : ReportLayout) (limit : ℕ) → IsCovered l limit → payload_bits l ≤ limit
unfolding payload_bits
payload_bits-le l limit v = with_buttons _ fields
  where
    fields :
        cover_field (cover_field (cover_field (cover_field 0 l.x) l.y) l.wheel) l.hwheel ≤ limit
    fields =
        cover_field-le _ limit l.hwheel
          (cover_field-le _ limit l.wheel
            (cover_field-le _ limit l.y (cover_field-le 0 limit l.x (omega arith) v.x) v.y) v.wheel)
          v.hwheel

    with_buttons :
        (bits : ℕ)
        → bits ≤ limit
        → (if l.button_count == 0
            then bits
            else longer bits (l.buttons.bit_offset + l.button_count * stride l))
          ≤ limit
    with_buttons bits h = ground (arith, v.buttons)

-- The mask of buttons of one digit each is the run of their digits.
pub pressed_mask-low :
    (bs : List ℕ) (l : ReportLayout) (k : ℕ)
    → stride l ≡ 1
    → pressed_mask bs l k ≡ le_value bs / 2 ^ l.buttons.bit_offset % 2 ^ k
unfolding pressed_mask
pressed_mask-low bs l zero one = omega arith
pressed_mask-low bs l (suc k) one =
    ap₂ (λ (a t : ℕ). a + (if t == 0 then 0 else 2 ^ k)) (pressed_mask-low bs l k one) digit_of
    ∙ ground (arith, mod-pow-suc k (le_value bs / 2 ^ l.buttons.bit_offset))
  where
    digit_of : button_value bs l k ≡ bit k (le_value bs / 2 ^ l.buttons.bit_offset)
    digit_of =
        unfold button_value raw_field in
        ap (λ (w : ℕ). le_value bs / 2 ^ (l.buttons.bit_offset + k * w) % 2 ^ w) one
        ∙ ap (λ (i : ℕ). le_value bs / 2 ^ (l.buttons.bit_offset + i) % 2) (omega arith)
        ∙ ap (λ (t : ℕ). le_value bs / t % 2) (two_pow_add l.buttons.bit_offset k)
        ∙ ap (λ (t : ℕ). t % 2)
            (sym (div-div-eq-div-mul (le_value bs) (2 ^ l.buttons.bit_offset) (2 ^ k)))

pub low_low : (x c k : ℕ) → k ≤ c → x % 2 ^ c % 2 ^ k ≡ x % 2 ^ k
low_low x c k h =
    ap (λ (t : ℕ). x % t % 2 ^ k) (sym whole)
    ∙ mod-mod_of_dvd (2 ^ k) x (dvd-mul_right (2 ^ k) (2 ^ (c - k)))
  where
    whole : 2 ^ k * 2 ^ (c - k) ≡ 2 ^ c
    whole = sym (two_pow_add k (c - k)) ∙ ap (λ (t : ℕ). 2 ^ t) (omega arith)
