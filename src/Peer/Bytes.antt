-- ===== src/Peer/Bytes.antt =====
-- A number in its bytes, and back.
use zmk_ble_hid_host.Base.{ℕ, zero, suc, ◌+◌, ◌*◌, ◌/◌, ◌^◌, ◌<◌, ◌≡◌, refl, ap, ◌∙◌, length, arith}
use zmk_ble_hid_host.Base.Bits.Fields.{two_pow_add}
use zmk_ble_hid_host.Decode.Value.{IsBytes, le_value}
use zmk_ble_hid_host.Peer.Desc.{le_bytes}

pub le_bytes-IsBytes : (n m : ℕ) → IsBytes (le_bytes n m)
le_bytes-IsBytes zero m = tt
le_bytes-IsBytes (suc n) m = (omega arith, le_bytes-IsBytes n (m / 256))

pub length-le_bytes : (n m : ℕ) → length (le_bytes n m) ≡ n
length-le_bytes zero m = refl
length-le_bytes (suc n) m = ap suc (length-le_bytes n (m / 256))

byte_more : (n : ℕ) → 2 ^ (8 * suc n) ≡ 256 * 2 ^ (8 * n)
byte_more n =
    ap (λ (t : ℕ). 2 ^ t) {x = 8 * suc n} {y = 8 + 8 * n} (omega arith) ∙ two_pow_add 8 (8 * n)

pub le_value-le_bytes : (n m : ℕ) → m < 2 ^ (8 * n) → le_value (le_bytes n m) ≡ m
unfolding le_value
le_value-le_bytes zero m fits = omega arith
le_value-le_bytes (suc n) m fits =
    omega (arith, le_value-le_bytes n (m / 256) (omega (arith, byte_more n)))
