-- ===== src/Decode/Signs.antt =====
-- What `extract` returns: the field's digits read as an unsigned or a two's complement number.
use native.Mathlib.Nat.{pow-suc, pow-le-pow_right, div-eq_of_lt, div-eq_of_lt-le}
use native.Mathlib.Decide.{dec_lt, ℕ_discrete}
use zmk_ble_hid_host.Base.{
  ℕ, zero, suc, ◌+◌, ◌-◌, ◌*◌, ◌/◌, ◌%◌, ◌^◌, ◌≤◌, ◌<◌, ◌≡◌, ◌≢◌, refl, sym, ap, ◌∙◌, List, some,
  none, length, arith, Bool, true, false, ltb, ◌==◌, if◌then◌else◌, bit_or, bit_and, complement,
  lt→ltb, suc-==-zero, le→ltb,
}
use zmk_ble_hid_host.Base.Signed.{ℤ, pos, negsuc, int32}
use zmk_ble_hid_host.Base.Bits.Fields.{bit_or_disjoint, bit_and-pow, two_pow_pos, two_pow_add}
use zmk_ble_hid_host.Layout.{Field}
use zmk_ble_hid_host.Decode.Extract.{gather, sign_extend, extract}
use zmk_ble_hid_host.Decode.Value.{
  IsBytes, raw_field, raw_field-lt, gather-eq-raw_field, gather_wide,
}

-- The `size`-digit number `v` in two's complement.
abbrev pub twos : ℕ → ℕ → ℤ
twos size v = if ltb v (2 ^ (size - 1)) then pos v else negsuc (2 ^ size - 1 - v)

-- The value that a field has in a report.
unfoldable pub field_value : List ℕ → Field → ℤ
field_value bs f =
    let v = raw_field bs f.bit_offset f.bit_size in
    if f.bit_size == 0 then pos 0 else if f.is_signed then twos f.bit_size v else int32 v

-- Of an unsigned field, the number of its digits, as an int32_t.
pub field_value-unsigned :
    (bs : List ℕ) (offset size : ℕ)
    → field_value bs (record { bit_offset = offset; bit_size = size; is_signed = false })
      ≡ (if size == 0 then pos 0 else int32 (raw_field bs offset size))
unfolding field_value
field_value-unsigned bs offset size = refl

-- `v & (1 << k)` tests the top digit of a number below 2 ^ (k + 1).
bit_and_low : (k v : ℕ) → v < 2 ^ k → bit_and v (1 * 2 ^ k) ≡ 0
bit_and_low k v h =
    ap (bit_and v) (omega arith)
    ∙ bit_and-pow k v
    ∙ ap (λ (t : ℕ). t % 2 * 2 ^ k) (div-eq_of_lt h)
    ∙ omega arith

bit_and_high : (k v : ℕ) → 2 ^ k ≤ v → v < 2 ^ k * 2 → bit_and v (1 * 2 ^ k) ≡ 2 ^ k
bit_and_high k v lo hi =
    ap (bit_and v) (omega arith)
    ∙ bit_and-pow k v
    ∙ ap (λ (t : ℕ). t % 2 * 2 ^ k) one_top
    ∙ omega arith
  where
    one_top : v / 2 ^ k ≡ 1
    one_top = div-eq_of_lt-le {k = 1} (2 ^ k) {m = v} (omega arith) (omega arith)

pred_mul : (a b : ℕ) → 1 ≤ b → (b - 1) * a + a ≡ a * b
pred_mul a zero h = absurd (omega arith)
pred_mul a (suc b) h = let e : suc b - 1 ≡ b = omega arith in rw e (omega arith)

-- Setting the digits above `size` adds 2 ^ 32 - 2 ^ size.
bit_or_upper :
    (size v : ℕ)
    → size ≤ 32
    → v < 2 ^ size
    → bit_or v (complement (1 * 2 ^ size - 1)) + 2 ^ size ≡ v + 2 ^ 32
bit_or_upper size v small fits =
    ap (λ (t : ℕ). bit_or v t + 2 ^ size) as_field
    ∙ ap (λ (t : ℕ). t + 2 ^ size) (bit_or_disjoint size v (2 ^ (32 - size) - 1) fits)
    ∙ omega (arith, shape)
  where
    whole : 2 ^ 32 ≡ 2 ^ size * 2 ^ (32 - size)
    whole =
        ap (λ (t : ℕ). 2 ^ t) {x = 32} {y = size + (32 - size)} (omega arith)
        ∙ two_pow_add size (32 - size)

    shape : (2 ^ (32 - size) - 1) * 2 ^ size + 2 ^ size ≡ 2 ^ 32
    shape = pred_mul (2 ^ size) (2 ^ (32 - size)) (two_pow_pos (32 - size)) ∙ sym whole

    as_field : complement (1 * 2 ^ size - 1) ≡ (2 ^ (32 - size) - 1) * 2 ^ size
    as_field = omega (arith, shape, two_pow_pos size)

sign_extend-int32 :
    (k v : ℕ) → k < 31 → v < 2 ^ suc k → int32 (sign_extend (suc k) v) ≡ twos (suc k) v
unfolding sign_extend
sign_extend-int32 k v h fits = elim (dec_lt v (2 ^ k)) [
  | yes low ↦ rw (as_pred, bit_and_low k v low) (ground (arith, bounds))
  | no high ↦
      rw (as_pred, bit_and_high k v (omega arith) (omega (arith, pow-suc 2 k)))
        (ground (arith, bit_or_upper (suc k) v, pow-suc 2 k, bounds))
]
  where
    as_pred : suc k - 1 ≡ k
    as_pred = omega arith

    bounds : 2 ^ k ≤ 2 ^ 30
    bounds = pow-le-pow_right {n = 2} (omega arith) {i = k} {j = 30} (omega arith)

pub gather_field :
    (bs : List ℕ) (offset size : ℕ)
    → IsBytes bs
    → size ≤ 32
    → offset + size ≤ 8 * length bs
    → gather bs offset size 0 0 ≡ some (raw_field bs offset size)
gather_field bs offset size h small fits =
    ap (gather bs offset size 0) nothing_yet
    ∙ gather-eq-raw_field bs offset size 0 size h (omega arith) small fits
  where
    nothing_yet : 0 ≡ raw_field bs offset 0
    nothing_yet = omega (arith, raw_field-lt bs offset 0)

abbrev field_at : ℕ → ℕ → Bool → Field
field_at offset size is_signed = record {
  bit_offset = offset;
  bit_size = size;
  is_signed = is_signed;
}

extract_parts :
    (bs : List ℕ) (offset size : ℕ) (is_signed : Bool)
    → IsBytes bs
    → size ≤ 32
    → offset + size ≤ 8 * length bs
    → extract bs (field_at offset size is_signed)
      ≡ some (field_value bs (field_at offset size is_signed))
unfolding extract field_value
extract_parts bs offset zero is_signed h small fits = refl
extract_parts bs offset (suc k) false h small fits =
    rw (suc-==-zero k, gather_field bs offset (suc k) h small fits)
extract_parts bs offset (suc k) true h small fits = elim (dec_lt k 31) [
  | yes below ↦
      rw
        (
          suc-==-zero k,
          gather_field bs offset (suc k) h small fits,
          lt→ltb (suc k) 32 (omega arith),
        )
        (ap some (sign_extend-int32 k v below (raw_field-lt bs offset (suc k))))
  | no last ↦
      rw
        (
          suc-==-zero k,
          gather_field bs offset (suc k) h small fits,
          le→ltb (suc k) 32 (omega arith),
        )
        (let whole : suc k ≡ 32 = omega arith in rw whole refl)
]
  where
    v : ℕ
    v = raw_field bs offset (suc k)

-- A field of at most 32 digits inside the report is extracted exactly: as the number that its
-- digits stand for, sign included.
pub extract-eq-field_value :
    (bs : List ℕ) (f : Field)
    → IsBytes bs
    → f.bit_size ≤ 32
    → (f.bit_size ≢ 0 → f.bit_offset + f.bit_size ≤ 8 * length bs)
    → extract bs f ≡ some (field_value bs f)
extract-eq-field_value bs f h small fits = elim (ℕ_discrete f.bit_size 0) [
  | yes absent ↦ unfold extract field_value in rw absent
  | no present ↦ extract_parts bs f.bit_offset f.bit_size f.is_signed h small (fits present)
]

-- A field of more than 32 digits is not extracted: the shift of its 33rd digit is undefined.
pub extract_wide :
    (bs : List ℕ) (f : Field)
    → 32 < f.bit_size
    → f.bit_offset + f.bit_size ≤ 8 * length bs
    → extract bs f ≡ none
unfolding extract
extract_wide bs f wide fits =
    ground
      (arith, gather_wide bs f.bit_offset f.bit_size 0 0 (omega arith) (omega arith) (omega arith))
