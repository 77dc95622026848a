-- ===== src/Peer/Cursor.antt =====
-- What the parser makes of single items: the number in a payload, and the step of the bit cursor.
use zmk_ble_hid_host.Base.{
  ℕ, ◌+◌, ◌*◌, ◌/◌, ◌%◌, ◌^◌, ◌≤◌, ◌<◌, ◌≡◌, refl, ap, ◌∙◌, [], ◌∷◌, ltb, arith, bit_or, Bool-cases,
  inl, inr,
}
use zmk_ble_hid_host.Base.Bits.Fields.{zero-bit_or, bit_or_disjoint, bit_or_above}
use zmk_ble_hid_host.Base.Signed.{is_negative}
use zmk_ble_hid_host.Parser.State.{item_u, item_s, make_usage, usage_page_of, usage_id_of}
use zmk_ble_hid_host.Parser.Items.{advance}
use zmk_ble_hid_host.Peer.Desc.{
  Range, unsigned, signed8, signed16, is_signed, short_bytes, minimum_bytes,
}

pub item_u-byte : (b : ℕ) → item_u (b ∷ []) ≡ b
unfolding item_u
item_u-byte b = ap (bit_or 0) (omega arith) ∙ zero-bit_or b

pub item_u-word : (lo hi : ℕ) → lo < 256 → item_u (lo ∷ hi ∷ []) ≡ lo + hi * 256
unfolding item_u
item_u-word lo hi h =
    ap (λ (t : ℕ). bit_or t (hi * 2 ^ 8)) (item_u-byte lo) ∙ bit_or_disjoint 8 lo hi (omega arith)

pub item_u-short_bytes : (n : ℕ) → item_u (short_bytes n) ≡ n
item_u-short_bytes n = elim (Bool-cases (ltb n 256)) [
  | inl small ↦ rw small (item_u-byte n)
  | inr large ↦ rw large (item_u-word (n % 256) (n / 256) (omega arith) ∙ omega arith)
]

pub minimum_sign : (r : Range) → is_negative (item_s (minimum_bytes r)) ≡ is_signed r
unfolding item_s
minimum_sign unsigned = refl
minimum_sign signed8 = refl
minimum_sign signed16 = refl

pub advance-inside : (cursor bits : ℕ) → cursor + bits ≤ 65535 → advance cursor bits ≡ cursor + bits
unfolding advance
advance-inside cursor bits h = ground arith

-- A usage is its page over its id.
pub make_usage-parts :
    (page id : ℕ)
    → page < 65536
    → id < 65536
    → (usage_page_of (make_usage page id) ≡ page) × (usage_id_of (make_usage page id) ≡ id)
make_usage-parts page id hp hi =
    let e : make_usage page id ≡ id + page * 65536 =
      bit_or_above 16 (id % 65536) page (omega arith) ∙ omega arith in
    rw e (omega arith, omega arith)
