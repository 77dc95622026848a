-- ===== src/Base/Bits/Step.antt =====
-- One equation for the lowest digit of each bit operation, and from it each digit.
use Prim.Native.Nat.{
  ℕ, zero, suc, ◌+◌, ◌-◌, ◌*◌, ◌/◌, ◌%◌, ◌^◌, ◌≤◌, ◌<◌, min, max, bit_and, bit_or, bit_xor, digits,
  bitwise, differ, bit_and-bitwise, bit_or-bitwise, bit_xor-bitwise,
}
use mathlib.Core.Path.{◌≡◌, refl, sym, ap, ◌∙◌}
use native.Mathlib.Nat.{le_refl, div-div-eq-div-mul, pow-succ'}
use native.Mathlib.Omega.{arith}
use zmk_ble_hid_host.Base.Words.{bit}

-- An operation that the library describes by a recursion on fuel, with `z` for a zero first
-- argument and `f` on each pair of digits.
module _ (z : ℕ → ℕ) (f : ℕ → ℕ → ℕ) (op : ℕ → ℕ → ℕ)
    (meaning : (x y : ℕ) → op x y ≡ bitwise z f x y) where
  exhausted : (fuel y : ℕ) → digits z f fuel 0 y ≡ z y
  exhausted zero y = refl
  exhausted (suc fuel) y = refl

  -- Fuel beyond the first argument is not used.
  spare_fuel : (fuel spare x y : ℕ) → x ≤ fuel → digits z f (fuel + spare) x y ≡ digits z f fuel x y
  spare_fuel fuel spare zero y h = exhausted (fuel + spare) y ∙ sym (exhausted fuel y)
  spare_fuel zero spare (suc x) y h = absurd (omega arith)
  spare_fuel (suc fuel) spare (suc x) y h =
      ap (λ (n : ℕ). digits z f n (suc x) y) {x = suc fuel + spare} {y = suc (fuel + spare)}
        (omega arith)
      ∙ ap (λ (high : ℕ). high * 2 + f (suc x % 2) (y % 2))
          (spare_fuel fuel spare (suc x / 2) (y / 2) (omega arith))

  lowest_digit : (x y : ℕ) → op (suc x) y ≡ op (suc x / 2) (y / 2) * 2 + f (suc x % 2) (y % 2)
  lowest_digit x y =
      meaning (suc x) y
      ∙ ap (λ (high : ℕ). high * 2 + f (suc x % 2) (y % 2))
          (ap (λ (fuel : ℕ). digits z f fuel half (y / 2)) {x = x} {y = half + (x - half)}
              (omega arith)
            ∙ spare_fuel half (x - half) half (y / 2) (le_refl half)
            ∙ sym (meaning half (y / 2)))
    where
      half : ℕ
      half = suc x / 2

pub bit_xor_step : (x y : ℕ) → bit_xor x y ≡ bit_xor (x / 2) (y / 2) * 2 + differ (x % 2) (y % 2)
bit_xor_step (suc x) y = lowest_digit (λ n. n) differ bit_xor (λ a b. bit_xor-bitwise a b) x y
bit_xor_step zero y = simp bit_xor-bitwise (ground (arith, same (y % 2)))
  where
    same : (n : ℕ) → differ 0 n ≡ n
    same n = refl

pub bit_and_step : (x y : ℕ) → bit_and x y ≡ bit_and (x / 2) (y / 2) * 2 + min (x % 2) (y % 2)
bit_and_step (suc x) y = lowest_digit (λ n. 0) min bit_and (λ a b. bit_and-bitwise a b) x y
bit_and_step zero y = simp bit_and-bitwise (omega arith)

pub bit_or_step : (x y : ℕ) → bit_or x y ≡ bit_or (x / 2) (y / 2) * 2 + max (x % 2) (y % 2)
bit_or_step (suc x) y = lowest_digit (λ n. n) max bit_or (λ a b. bit_or-bitwise a b) x y
bit_or_step zero y = simp bit_or-bitwise (omega arith)

pub bit-zero : (x : ℕ) → bit 0 x ≡ x % 2
bit-zero x = omega arith

pub bit-suc : (i x : ℕ) → bit (suc i) x ≡ bit i (x / 2)
bit-suc i x = rw (pow-succ' 2 i, div-div-eq-div-mul x 2 (2 ^ i))

-- An operation with an equation for its lowest digit works digit by digit.
module _ (op f : ℕ → ℕ → ℕ) (step : (a b : ℕ) → op a b ≡ op (a / 2) (b / 2) * 2 + f (a % 2) (b % 2))
    (small : (a b : ℕ) → f (a % 2) (b % 2) < 2) where
  bit-op : (i a b : ℕ) → bit i (op a b) ≡ f (bit i a) (bit i b)
  bit-op zero a b = rw (bit-zero a, bit-zero b) (omega (arith, step a b, small a b))
  bit-op (suc i) a b =
      rw (bit-suc i (op a b), bit-suc i a, bit-suc i b)
        (rw (← bit-op i (a / 2) (b / 2)) (ap (bit i) halved))
    where
      halved : op a b / 2 ≡ op (a / 2) (b / 2)
      halved = omega (arith, step a b, small a b)

-- Each digit of `&`, `|` and `^`.
pub bit-bit_and : (i a b : ℕ) → bit i (bit_and a b) ≡ min (bit i a) (bit i b)
bit-bit_and = bit-op bit_and min bit_and_step (λ a b. omega arith)

pub bit-bit_or : (i a b : ℕ) → bit i (bit_or a b) ≡ max (bit i a) (bit i b)
bit-bit_or = bit-op bit_or max bit_or_step (λ a b. omega arith)

differ_small : (a b : ℕ) → a < 2 → b < 2 → differ a b ≡ (a + b) % 2
differ_small zero b p q = omega arith
differ_small (suc zero) zero p q = refl
differ_small (suc zero) (suc b) p q = omega arith
differ_small (suc (suc a)) b p q = absurd (omega arith)

pub bit-bit_xor : (i a b : ℕ) → bit i (bit_xor a b) ≡ (bit i a + bit i b) % 2
bit-bit_xor i a b =
    bit-op bit_xor differ bit_xor_step
      (λ a b. omega (arith, differ_small (a % 2) (b % 2) (omega arith) (omega arith))) i a b
    ∙ differ_small (bit i a) (bit i b) (omega arith) (omega arith)
