-- ===== src/Peer/Numbers.antt =====
-- Where the device's values lie in the number that its report is.
use native.Mathlib.Nat.{
  div-div-eq-div-mul, add-mul-div_left, add-mul-mod_self_left, mod-eq_of_lt, div-eq_of_lt, pow-suc,
}
use zmk_ble_hid_host.Base.{
  ℕ, zero, suc, ◌+◌, ◌-◌, ◌*◌, ◌/◌, ◌%◌, ◌^◌, ◌<◌, ◌≡◌, sym, ap, ◌∙◌, Bool, true, false, List, [],
  ◌∷◌, length, All, arith,
}
use zmk_ble_hid_host.Base.Signed.{ℤ, pos, negsuc}
use zmk_ble_hid_host.Base.Bits.Fields.{two_pow_add, two_pow_pos}
use zmk_ble_hid_host.Peer.Desc.{
  Cell, Group, padding, buttons, axes, is_signed, width, total_width, raw, cells_number,
  group_number, report_number,
}
use zmk_ble_hid_host.Peer.Meant.{Holds, IsGroup}

-- The low part of a number, and what is above it.
pub low_part :
    (n offset size v r : ℕ)
    → v < 2 ^ size
    → n / 2 ^ offset ≡ v + 2 ^ size * r
    → (n / 2 ^ offset % 2 ^ size ≡ v) × (n / 2 ^ (offset + size) ≡ r)
low_part n offset size v r fits e = (
  ap (λ (t : ℕ). t % 2 ^ size) e ∙ add-mul-mod_self_left v (2 ^ size) r ∙ mod-eq_of_lt fits,
  ap (λ (t : ℕ). n / t) (two_pow_add offset size)
      ∙ sym (div-div-eq-div-mul n (2 ^ offset) (2 ^ size))
      ∙ ap (λ (t : ℕ). t / 2 ^ size) e
      ∙ add-mul-div_left v r (two_pow_pos size)
      ∙ omega (arith, div-eq_of_lt fits),
)

-- A part below 2^a under a part below 2^b is below 2^(a + b).
pub stacked : (a b v w : ℕ) → v < 2 ^ a → w < 2 ^ b → v + 2 ^ a * w < 2 ^ (a + b)
stacked a b v w hv hw = rw (two_pow_add a b) (grind arith)

pub raw-lt : (size : ℕ) (sign : Bool) (v : ℤ) → 0 < size → Holds size sign v → raw size v < 2 ^ size
raw-lt zero sign v some_bits h = absurd (omega arith)
raw-lt (suc k) true (pos n) some_bits h =
    omega (arith, ap (λ (t : ℕ). 2 ^ t) as_pred, pow-suc 2 k, two_pow_pos k)
  where
    as_pred : suc k - 1 ≡ k
    as_pred = omega arith
raw-lt (suc k) true (negsuc n) some_bits h = omega (arith, two_pow_pos (suc k))
raw-lt (suc k) false (pos n) some_bits h = h.0
raw-lt (suc k) false (negsuc n) some_bits h = absurd h

abbrev pub HoldAll : ℕ → Bool → List Cell → Type 0
HoldAll size sign = All (λ c. (c.usage < 65536) × Holds size sign c.value)

pub cells_number-lt :
    (size : ℕ) (sign : Bool) (cells : List Cell)
    → 0 < size
    → HoldAll size sign cells
    → cells_number size cells < 2 ^ (size * length cells)
cells_number-lt size sign [] some_bits h = two_pow_pos (size * 0)
cells_number-lt size sign (c ∷ cells) some_bits h = rw (one_more (length cells)) (
    stacked size (size * length cells) _ _ (raw-lt size sign c.value some_bits h.0.1)
      (cells_number-lt size sign cells some_bits h.1))
  where
    one_more : (n : ℕ) → size * suc n ≡ size + size * n
    one_more n = grind arith

pub group_number-lt : (g : Group) → IsGroup g → group_number g < 2 ^ width g
group_number-lt (padding size) h = two_pow_pos size
group_number-lt (buttons count mask) h = h.2
group_number-lt (axes page size range cells) h =
    cells_number-lt size (is_signed range) cells h.2 h.6

pub report_number-lt : (gs : List Group) → All IsGroup gs → report_number gs < 2 ^ total_width gs
report_number-lt [] h = omega arith
report_number-lt (g ∷ gs) h =
    stacked (width g) (total_width gs) _ _ (group_number-lt g h.0) (report_number-lt gs h.1)
