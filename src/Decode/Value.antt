-- ===== src/Decode/Value.antt =====
-- An independent reading: a report is one little-endian number, and a field is a run of its digits.
use zmk_ble_hid_host.Base.{
  ℕ, zero, suc, ◌+◌, ◌*◌, ◌/◌, ◌%◌, ◌^◌, ◌≤◌, ◌<◌, ◌≡◌, sym, ap, ◌∙◌, List, [], ◌∷◌, some, get_or,
  length, get_elem?-eq-get_or, All, arith, bit, bit_or, none,
}
use native.Mathlib.Decide.{dec_lt}
use native.Mathlib.Nat.{zero-div, div-div-eq-div-mul, mod-lt}
use zmk_ble_hid_host.Base.Bits.Step.{bit-suc}
use zmk_ble_hid_host.Base.Bits.Fields.{bit_or_disjoint, mod-pow-suc, two_pow_pos, two_pow_add}
use zmk_ble_hid_host.Decode.Extract.{digit, gather}

-- Every member is a byte.
abbrev pub IsBytes : List ℕ → Type 0
IsBytes = All (λ b. b < 256)

unfoldable pub le_value : List ℕ → ℕ
le_value [] = 0
le_value (b ∷ bs) = b + 256 * le_value bs

bit-zero_right : (k : ℕ) → bit k 0 ≡ 0
bit-zero_right k = rw (zero-div (2 ^ k))

bit_skip_byte : (k x : ℕ) → bit (8 + k) x ≡ bit k (x / 256)
bit_skip_byte k x =
    let y : ℕ = x / 2 / 2 / 2 / 2 in
    let far : ℕ → ℕ = λ i. suc (suc (suc (suc i))) in
    let four : (i z : ℕ) → bit (far i) z ≡ bit i (z / 2 / 2 / 2 / 2) =
      λ i z. bit-suc _ z ∙ bit-suc _ (z / 2) ∙ bit-suc _ (z / 2 / 2) ∙ bit-suc i (z / 2 / 2 / 2) in
    ap (λ i. bit i x) (omega arith) ∙ four (far k) x ∙ four k y ∙ ap (bit k) (omega arith)

-- Inside the lowest byte.
bit_low_byte : (r b m : ℕ) → r < 8 → bit r (b + 256 * m) ≡ bit r b
bit_low_byte zero b m h = omega arith
bit_low_byte (suc zero) b m h = omega arith
bit_low_byte (suc (suc zero)) b m h = omega arith
bit_low_byte (suc (suc (suc zero))) b m h = omega arith
bit_low_byte (suc (suc (suc (suc zero)))) b m h = omega arith
bit_low_byte (suc (suc (suc (suc (suc zero))))) b m h = omega arith
bit_low_byte (suc (suc (suc (suc (suc (suc zero)))))) b m h = omega arith
bit_low_byte (suc (suc (suc (suc (suc (suc (suc zero))))))) b m h = omega arith
bit_low_byte (suc (suc (suc (suc (suc (suc (suc (suc r)))))))) b m h = absurd (omega arith)

bit_of_byte :
    (bs : List ℕ) (q r : ℕ)
    → IsBytes bs
    → r < 8
    → bit (8 * q + r) (le_value bs) ≡ bit r (get_or bs q 0)
unfolding le_value
bit_of_byte [] q r h lt = bit-zero_right (8 * q + r) ∙ sym (bit-zero_right r)
bit_of_byte (b ∷ bs) zero r h lt =
    ap (λ i. bit i (b + 256 * le_value bs)) (omega arith) ∙ bit_low_byte r b (le_value bs) lt
bit_of_byte (b ∷ bs) (suc q) r h lt =
    ap (λ i. bit i (b + 256 * le_value bs)) (omega arith)
    ∙ bit_skip_byte (8 * q + r) (b + 256 * le_value bs)
    ∙ ap (bit (8 * q + r)) (omega (arith, h.0))
    ∙ bit_of_byte bs q r h.1 lt

-- Digit k of the number is digit k % 8 of byte k / 8.
pub bit-le_value :
    (bs : List ℕ) (k : ℕ) → IsBytes bs → bit k (le_value bs) ≡ digit (get_or bs (k / 8) 0) k
bit-le_value bs k h =
    ap (λ i. bit i (le_value bs)) (omega arith) ∙ bit_of_byte bs (k / 8) (k % 8) h (omega arith)

-- The `size` digits of the report from digit `offset` on.
unfoldable pub raw_field : List ℕ → ℕ → ℕ → ℕ
raw_field bs offset size = le_value bs / 2 ^ offset % 2 ^ size

pub raw_field-suc :
    (bs : List ℕ) (offset size : ℕ)
    → IsBytes bs
    → raw_field bs offset (suc size)
      ≡ raw_field bs offset size
        + digit (get_or bs ((offset + size) / 8) 0) (offset + size) * 2 ^ size
unfolding raw_field
raw_field-suc bs offset size h =
    mod-pow-suc size (le_value bs / 2 ^ offset)
    ∙ ap (λ (t : ℕ). le_value bs / 2 ^ offset % 2 ^ size + t * 2 ^ size) at_digit
  where
    at_digit :
        bit size (le_value bs / 2 ^ offset)
        ≡ digit (get_or bs ((offset + size) / 8) 0) (offset + size)
    at_digit =
        ap (λ (t : ℕ). t % 2)
          (div-div-eq-div-mul (le_value bs) (2 ^ offset) (2 ^ size)
            ∙ ap (λ (t : ℕ). le_value bs / t) (sym (two_pow_add offset size)))
        ∙ bit-le_value bs (offset + size) h

pub raw_field-lt : (bs : List ℕ) (offset size : ℕ) → raw_field bs offset size < 2 ^ size
unfolding raw_field
raw_field-lt bs offset size = mod-lt _ (two_pow_pos size)

-- One round inside the report.
gather-suc :
    (bs : List ℕ) (offset left i v : ℕ)
    → i < 32
    → offset + i < 8 * length bs
    → gather bs offset (suc left) i v
      ≡ gather bs offset left
          (i + 1)
          (bit_or v (digit (get_or bs ((offset + i) / 8) 0) (offset + i) * 2 ^ i))
unfolding gather
gather-suc bs offset left i v small fits =
    ground (arith, get_elem?-eq-get_or bs ((offset + i) / 8) 0 (omega arith))

-- What the loop has put together after `i` rounds is the field's first `i` digits.
pub gather-eq-raw_field :
    (bs : List ℕ) (offset left i size : ℕ)
    → IsBytes bs
    → i + left ≡ size
    → size ≤ 32
    → offset + size ≤ 8 * length bs
    → gather bs offset left i (raw_field bs offset i) ≡ some (raw_field bs offset size)
gather-eq-raw_field bs offset zero i size h e small fits =
    let same : i ≡ size = omega arith in unfold gather in rw same
gather-eq-raw_field bs offset (suc left) i size h e small fits =
    gather-suc bs offset left i (raw_field bs offset i) (omega arith) (omega arith)
    ∙ ap (gather bs offset left (i + 1)) grown
    ∙ gather-eq-raw_field bs offset left (i + 1) size h (omega arith) small fits
  where
    grown :
        bit_or (raw_field bs offset i) (digit (get_or bs ((offset + i) / 8) 0) (offset + i) * 2 ^ i)
        ≡ raw_field bs offset (i + 1)
    grown =
        bit_or_disjoint i (raw_field bs offset i) _ (raw_field-lt bs offset i)
        ∙ sym (raw_field-suc bs offset i h)
        ∙ ap (raw_field bs offset) (omega arith)

-- Past the 32nd round the shift is undefined.
pub gather_wide :
    (bs : List ℕ) (offset left i v : ℕ)
    → i ≤ 32
    → 32 < i + left
    → offset + 32 < 8 * length bs
    → gather bs offset left i v ≡ none
gather_wide bs offset zero i v small wide fits = absurd (omega arith)
gather_wide bs offset (suc left) i v small wide fits = elim (dec_lt i 32) [
  | yes below ↦
      gather-suc bs offset left i v below (omega arith)
      ∙ gather_wide bs offset left (i + 1) _ (omega arith) (omega arith) fits
  | no last ↦ unfold gather in ground (arith, get_elem?-eq-get_or bs ((offset + i) / 8) 0)
]
