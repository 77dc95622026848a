-- ===== src/Base/Bits/Fields.antt =====
-- `|` of fields that do not overlap is a sum, `&` with one bit is that bit, and low fields are remainders.
use mathlib.Core.Logic.{◌≢◌}
use mathlib.Core.Path.{◌≡◌, refl, ap, ◌∙◌, sym}
use Prim.Native.Nat.{
  ℕ, zero, suc, ◌+◌, ◌-◌, ◌*◌, ◌/◌, ◌%◌, ◌^◌, ◌≤◌, ◌<◌, bit_and, bit_or, bit_or-bitwise,
  bit_and-bitwise,
}
use native.Mathlib.Nat.{
  zero-div, add-zero, pow-suc, one-le-pow, mod-lt, div-add-mod', mul-add-mod_self_left,
  mod-eq_of_lt,
}
use native.Mathlib.Omega.{arith}
use zmk_ble_hid_host.Base.Words.{bit, ◌<<<◌}
use zmk_ble_hid_host.Base.Bits.Step.{bit_or_step, bit_and_step, bit-zero, bit-suc}

pub two_pow_pos : (k : ℕ) → 1 ≤ 2 ^ k
two_pow_pos k = one-le-pow k 2 (omega arith)

pub two_pow_add : (a b : ℕ) → 2 ^ (a + b) ≡ 2 ^ a * 2 ^ b
two_pow_add a zero = ap (λ (t : ℕ). 2 ^ t) (add-zero a) ∙ omega arith
two_pow_add a (suc b) =
    ap (λ (t : ℕ). 2 ^ t) (omega arith)
    ∙ pow-suc 2 (a + b)
    ∙ ap (λ (t : ℕ). t * 2) (two_pow_add a b)
    ∙ omega (arith, ap (λ (t : ℕ). 2 ^ a * t) (pow-suc 2 b))

shift-suc : (q k : ℕ) → q * 2 ^ suc k ≡ 2 * (q * 2 ^ k)
shift-suc q k = omega (arith, ap (λ (t : ℕ). q * t) (pow-suc 2 k))

pub zero-bit_or : (b : ℕ) → bit_or 0 b ≡ b
zero-bit_or b = bit_or-bitwise 0 b

-- `r | (q << k)` is a sum when `r` has at most `k` digits.
pub bit_or_disjoint : (k r q : ℕ) → r < 2 ^ k → bit_or r (q <<< k) ≡ r + q * 2 ^ k
bit_or_disjoint zero r q fits =
    let none_left : r ≡ 0 = omega arith in rw none_left (omega (arith, zero-bit_or (q * 2 ^ 0)))
bit_or_disjoint (suc k) r q fits =
    ground (
      arith,
      bit_or_step r (q * 2 ^ suc k),
      shift-suc q k,
      pow-suc 2 k,
      bit_or_disjoint k (r / 2) q,
    )

bit_or-zero_below : (n a : ℕ) → a ≤ n → bit_or a 0 ≡ a
bit_or-zero_below n zero h = zero-bit_or 0
bit_or-zero_below zero (suc a) h = absurd (omega arith)
bit_or-zero_below (suc n) (suc a) h =
    omega (arith, bit_or_step (suc a) 0, bit_or-zero_below n (suc a / 2) (omega arith))

-- `(q << k) | r`, the other way round.
pub bit_or_above : (k r q : ℕ) → r < 2 ^ k → bit_or (q <<< k) r ≡ r + q * 2 ^ k
bit_or_above zero r q fits =
    let none_left : r ≡ 0 = omega arith in
    rw none_left (bit_or-zero_below (q * 2 ^ 0) (q * 2 ^ 0) (omega arith) ∙ omega arith)
bit_or_above (suc k) r q fits =
    ground
      (arith, bit_or_step (q * 2 ^ suc k) r, shift-suc q k, pow-suc 2 k, bit_or_above k (r / 2) q)

zero-bit_and : (b : ℕ) → bit_and 0 b ≡ 0
zero-bit_and b = bit_and-bitwise 0 b

bit_and-zero_below : (n a : ℕ) → a ≤ n → bit_and a 0 ≡ 0
bit_and-zero_below n zero h = refl
bit_and-zero_below zero (suc a) h = absurd (omega arith)
bit_and-zero_below (suc n) (suc a) h =
    omega (arith, bit_and_step (suc a) 0, bit_and-zero_below n (suc a / 2) (omega arith))

pub bit_and-zero : (a : ℕ) → bit_and a 0 ≡ 0
bit_and-zero a = bit_and-zero_below a a (omega arith)

-- `x & (1 << k)` is the k-th digit in its place.
pub bit_and-pow : (k a : ℕ) → bit_and a (2 ^ k) ≡ bit k a * 2 ^ k
bit_and-pow zero a = omega (arith, bit_and_step a 1, bit_and-zero (a / 2), bit-zero a)
bit_and-pow (suc k) a = ground (
  arith,
  bit_and_step a (2 ^ suc k),
  bit-suc k a,
  shift-suc (bit k (a / 2)) k,
  pow-suc 2 k,
  bit_and-pow k (a / 2),
)

regroup : (m q r : ℕ) → q * m + r ≡ m * 2 * (q / 2) + (r + q % 2 * m)
regroup m q r = omega (arith, ap (λ (t : ℕ). t * m) (div-add-mod' q 2))

-- One more digit of a remainder.
pub mod-pow-suc : (k x : ℕ) → x % 2 ^ suc k ≡ x % 2 ^ k + bit k x * 2 ^ k
mod-pow-suc k x = ap (λ (t : ℕ). t % 2 ^ suc k) split ∙ kept
  where
    low : ℕ
    low = x % 2 ^ k + bit k x * 2 ^ k

    split : x ≡ 2 ^ suc k * (x / 2 ^ k / 2) + low
    split =
        sym (div-add-mod' x (2 ^ k))
        ∙ regroup (2 ^ k) (x / 2 ^ k) (x % 2 ^ k)
        ∙ ap (λ (t : ℕ). t * (x / 2 ^ k / 2) + low) (sym (pow-suc 2 k))

    small : low < 2 ^ suc k
    small = grind (arith, pow-suc 2 k, mod-lt x (two_pow_pos k))

    kept : (2 ^ suc k * (x / 2 ^ k / 2) + low) % 2 ^ suc k ≡ low
    kept = mul-add-mod_self_left (2 ^ suc k) (x / 2 ^ k / 2) low ∙ mod-eq_of_lt small

-- The digits of a power of two, and of a complement.
pub bit-pow_self : (i : ℕ) → bit i (2 ^ i) ≡ 1
bit-pow_self zero = refl
bit-pow_self (suc i) =
    bit-suc i (2 ^ suc i) ∙ ap (bit i) (omega (arith, pow-suc 2 i)) ∙ bit-pow_self i

bit_of_zero : (i : ℕ) → bit i 0 ≡ 0
bit_of_zero i = ap (λ (t : ℕ). t % 2) (zero-div (2 ^ i))

pub bit-pow_ne : (i j : ℕ) → i ≢ j → bit j (2 ^ i) ≡ 0
bit-pow_ne zero zero h = absurd (h refl)
bit-pow_ne (suc i) zero h = bit-zero (2 ^ suc i) ∙ omega (arith, pow-suc 2 i)
bit-pow_ne zero (suc j) h = bit-suc j 1 ∙ bit_of_zero j
bit-pow_ne (suc i) (suc j) h =
    bit-suc j (2 ^ suc i)
    ∙ ap (bit j) (omega (arith, pow-suc 2 i))
    ∙ bit-pow_ne i j (λ e. h (ap suc e))

pub bit_complement : (n x j : ℕ) → x < 2 ^ n → j < n → bit j (2 ^ n - 1 - x) + bit j x ≡ 1
bit_complement zero x j fits below = absurd (omega arith)
bit_complement (suc n) x zero fits below =
    omega (arith, bit-zero x, bit-zero (2 ^ suc n - 1 - x), pow-suc 2 n)
bit_complement (suc n) x (suc j) fits below = omega (
  arith,
  bit-suc j x,
  bit-suc j (2 ^ suc n - 1 - x),
  ap (bit j) halved,
  bit_complement n (x / 2) j (omega (arith, pow-suc 2 n)) (omega arith),
)
  where
    halved : (2 ^ suc n - 1 - x) / 2 ≡ 2 ^ n - 1 - x / 2
    halved = omega (arith, pow-suc 2 n)
