-- ===== src/Parser/Stream.antt =====
-- The item stream of a report descriptor (USB HID 1.11, 6.2.2) written from items, and read back.
use mathlib.Core.List.{foldl}
use zmk_ble_hid_host.Base.{
  ℕ, zero, suc, ◌+◌, ◌*◌, ◌/◌, ◌%◌, ◌^◌, ◌≤◌, ◌<◌, ◌≡◌, ◌≢◌, refl, ◌∙◌, ap, ◌⊎◌, List, [], ◌∷◌,
  ◌++◌, length, length-append, take-length-append, drop-length-append, arith, some, false, ◌==◌,
  if◌then◌else◌, All, le→ltb,
}
use zmk_ble_hid_host.Parser.State.{Parser, initial}
use zmk_ble_hid_host.Parser.Items.{Item, handle_item}
use zmk_ble_hid_host.Parser.Walk.{take_item, next_item, next_short, resume, walk, run_parser}

-- bSize: a payload of 4 bytes is coded as 3.
abbrev pub size_code : ℕ → ℕ
size_code n = if n == 4 then 3 else n

abbrev pub prefix_of : Item → ℕ
prefix_of item = item.tag * 16 + item.type * 4 + size_code (length item.payload)

-- A short item that a descriptor can hold; 0xFE is the prefix of long items.
pub record IsShort (item : Item) : Type 0 where
  pub type : item.type < 4
  pub tag : item.tag < 16
  pub size : (length item.payload ≤ 2) ⊎ (length item.payload ≡ 4)
  pub not_long : prefix_of item ≢ 0xFE

unfoldable pub encode : Item → List ℕ
encode item = prefix_of item ∷ item.payload

unfoldable pub encode_all : List Item → List ℕ
unfolding encode
encode_all [] = []
encode_all (item ∷ items) = encode item ++ encode_all items

pub prefix_parts :
    (item : Item)
    → IsShort item
    → (prefix_of item % 4 ≡ size_code (length item.payload))
      × (prefix_of item / 2 ^ 2 % 4 ≡ item.type)
      × (prefix_of item / 2 ^ 4 % 16 ≡ item.tag)
      × ((if size_code (length item.payload) == 3 then 4 else size_code (length item.payload))
          ≡ length item.payload)
prefix_parts item s = ground (arith, s.type, s.tag, s.size)

next_short-encode :
    (item : Item) (rest : List ℕ)
    → IsShort item
    → next_short (prefix_of item) (item.payload ++ rest) ≡ take_item item rest
unfolding next_short
next_short-encode item rest s =
    let (low, type, tag, size) = prefix_parts item s in
    rw (
      low,
      type,
      tag,
      size,
      le→ltb (length (item.payload ++ rest)) (length item.payload)
          (omega (arith, length-append item.payload rest)),
      take-length-append item.payload rest,
      drop-length-append item.payload rest,
    )

pub other_prefix : (n : ℕ) → n ≢ 0xFE → (n == 0xFE) ≡ false
other_prefix n h = ground arith

pub next_item-encode :
    (item : Item) (rest : List ℕ)
    → IsShort item
    → next_item (encode item ++ rest) ≡ take_item item rest
unfolding next_item encode
next_item-encode item rest s =
    rw (other_prefix (prefix_of item) s.not_long) (next_short-encode item rest s)

walk-encode_all :
    (items : List Item) (fuel : ℕ) (p : Parser)
    → All IsShort items
    → length (encode_all items) < fuel
    → walk fuel (encode_all items) p ≡ some (foldl handle_item p items)
walk-encode_all items zero p s enough = absurd (omega arith)
walk-encode_all [] (suc fuel) p s enough = unfold walk encode_all in refl
walk-encode_all (item ∷ items) (suc fuel) p s enough =
    enters ∙ walk-encode_all items fuel (handle_item p item) s.1 shorter
  where
    shorter : length (encode_all items) < fuel
    shorter =
        unfold encode_all encode in
        omega (arith, enough, length-append item.payload (encode_all items))

    enters :
        walk (suc fuel) (encode_all (item ∷ items)) p
        ≡ walk fuel (encode_all items) (handle_item p item)
    enters =
        unfold walk encode_all in
        ap (λ next. resume (walk fuel) next p) (next_item-encode item (encode_all items) s.0)

-- Parsing the bytes of any list of short items is handling those items in order, from the initial
-- state: no byte is read as part of another item, and the walk stops at the end.
pub run_parser-encode_all :
    (items : List Item)
    → All IsShort items
    → run_parser (encode_all items) ≡ some (foldl handle_item initial items)
unfolding run_parser
run_parser-encode_all items s =
    walk-encode_all items (suc (length (encode_all items))) initial s (omega arith)
