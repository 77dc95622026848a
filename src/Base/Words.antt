-- ===== src/Base/Words.antt =====
-- Casts to the fixed widths, shifts, and the complement of a 32-bit word.
use Prim.Native.Nat.{ℕ, ◌-◌, ◌*◌, ◌/◌, ◌%◌, ◌^◌, bit_and}
use mathlib.Core.Bool.{Bool, not}
use zmk_ble_hid_host.Base.Tests.{◌==◌}

abbrev pub u8 : ℕ → ℕ
u8 n = n % 2 ^ 8

abbrev pub u16 : ℕ → ℕ
u16 n = n % 2 ^ 16

abbrev pub u32 : ℕ → ℕ
u32 n = n % 2 ^ 32

infixl 75 ◌<<<◌ ◌>>>◌
abbrev pub ◌<<<◌ : ℕ → ℕ → ℕ
x <<< k = x * 2 ^ k

abbrev pub ◌>>>◌ : ℕ → ℕ → ℕ
x >>> k = x / 2 ^ k

-- ~x on uint32_t
abbrev pub complement : ℕ → ℕ
complement x = 2 ^ 32 - 1 - x

-- if (x & mask)
abbrev pub meets : ℕ → ℕ → Bool
meets x mask = not (bit_and x mask == 0)

-- The i-th binary digit, a number below 2.
abbrev pub bit : ℕ → ℕ → ℕ
bit i x = x / 2 ^ i % 2
