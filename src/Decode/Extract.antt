-- ===== src/Decode/Extract.antt =====
-- `extract`: the bits of one field of a report, as an int32_t.
-- A report is the list of its `len` bytes. A low mask `& (2^k - 1)` is written as a remainder.
use zmk_ble_hid_host.Base.{
  ℕ, zero, suc, ◌+◌, ◌-◌, ◌%◌, bit_or, ◌&&◌, Option, none, some, List, get_elem?, ltb, ◌==◌,
  if◌then◌else◌, ◌<<<◌, ◌>>>◌, complement, meets, ◌>>=◌,
}
use zmk_ble_hid_host.Base.Signed.{ℤ, pos, int32}
use zmk_ble_hid_host.Layout.{Field}

-- The digit of `byte` that `bit` selects: (byte >> (bit & 7)) & 1.
abbrev pub digit : ℕ → ℕ → ℕ
digit byte bit = (byte >>> (bit % 8)) % 2

-- The loop of `extract`, with `left` rounds to go at index `i`; it stops at the end of the report.
unfoldable pub gather : List ℕ → ℕ → ℕ → ℕ → ℕ → Option ℕ
gather report offset zero i v = some v
gather report offset (suc left) i v = elim (get_elem? report ((offset + i) >>> 3)) [
  | none ↦ some v
  | some byte ↦
      let rest = gather report offset left (i + 1) (bit_or v (digit byte (offset + i) <<< i)) in
      if ltb i 32 then rest else none
]

-- The digits above a set sign digit are set too; `size` is from 1 to 31 here.
unfoldable pub sign_extend : ℕ → ℕ → ℕ
sign_extend size v =
    if meets v (1 <<< (size - 1)) then bit_or v (complement ((1 <<< size) - 1)) else v

unfoldable pub extract : List ℕ → Field → Option ℤ
extract report f =
    if f.bit_size == 0
    then some (pos 0)
    else (gather report f.bit_offset f.bit_size 0 0 >>= λ v.
        some (int32 (if f.is_signed && ltb f.bit_size 32 then sign_extend f.bit_size v else v)))
