-- ===== src/Peer/Short.antt =====
-- The items of a map are short ones, so its bytes are read as these items.
use zmk_ble_hid_host.Base.{
  ℕ, zero, suc, ◌≤◌, ◌<◌, ◌≡◌, refl, Bool, true, List, [], ◌∷◌, ◌++◌, length, All, All-append,
  arith, ◌&&◌, inl, inr, ltb, Bool-cases, &&_iff,
}
use zmk_ble_hid_host.Parser.Items.{Item}
use zmk_ble_hid_host.Parser.Stream.{IsShort}
use zmk_ble_hid_host.Peer.Desc.{
  Peer, Cell, Range, unsigned, signed8, signed16, Group, padding, buttons, axes, groups_items,
  group_items, usage_items, opening, closing, map_items, main_item, global_item, short_bytes,
  minimum_bytes, maximum_bytes,
}

IsShort-item :
    (type tag : ℕ) (payload : List ℕ)
    → type < 3
    → tag < 15
    → length payload ≤ 2
    → IsShort (record { type = type; tag = tag; payload = payload })
IsShort-item type tag payload a b c = record {
  type = omega arith;
  tag = omega arith;
  size = inl c;
  not_long = λ e. ground (arith, e);
}

length-short_bytes : (n : ℕ) → length (short_bytes n) ≤ 2
length-short_bytes n = elim (Bool-cases (ltb n 256)) [
  | inl small ↦ rw small (omega arith)
  | inr large ↦ rw large (omega arith)
]

usage_items-IsShort : (cells : List Cell) → All IsShort (usage_items cells)
usage_items-IsShort [] = tt
usage_items-IsShort (c ∷ cells) = (
  IsShort-item 2 0 (short_bytes c.usage) (omega arith) (omega arith) (length-short_bytes c.usage),
  usage_items-IsShort cells,
)

range_lengths : (r : Range) → (length (minimum_bytes r) ≤ 2) × (length (maximum_bytes r) ≤ 2)
range_lengths unsigned = omega arith
range_lengths signed8 = omega arith
range_lengths signed16 = omega arith

-- Of items with given tags and short payloads it is a computation.
abbrev are_short : List Item → Bool
are_short [] = true
are_short (item ∷ items) =
    (ltb item.type 3 && ltb item.tag 15 && ltb (length item.payload) 3) && are_short items

are_IsShort-item : (items : List Item) → are_short items ≡ true → All IsShort items
are_IsShort-item [] h = tt
are_IsShort-item (item ∷ items) h =
    let (this, rest) =
      (&&_iff (ltb item.type 3 && ltb item.tag 15 && ltb (length item.payload) 3)
          (are_short items)).0
        h in
    (
      IsShort-item item.type item.tag item.payload (ground arith) (ground arith) (ground arith),
      are_IsShort-item items rest,
    )

group_items-IsShort : (g : Group) → All IsShort (group_items g)
group_items-IsShort (padding size) = are_IsShort-item (group_items (padding size)) refl
group_items-IsShort (buttons count mask) = are_IsShort-item (group_items (buttons count mask)) refl
group_items-IsShort (axes page size range cells) = (
  IsShort-item 1 0 (short_bytes page) (omega arith) (omega arith) (length-short_bytes page),
  All-append IsShort (usage_items cells) _ (usage_items-IsShort cells) (
    IsShort-item 1 1 (minimum_bytes range) (omega arith) (omega arith) (range_lengths range).0,
    (
      IsShort-item 1 2 (maximum_bytes range) (omega arith) (omega arith) (range_lengths range).1,
      are_IsShort-item
          (global_item 7 (size ∷ [])
            ∷ global_item 9 (length cells ∷ [])
            ∷ main_item 8 (6 ∷ [])
            ∷ [])
          refl,
    ),
  ),
)

groups_items-IsShort : (gs : List Group) → All IsShort (groups_items gs)
groups_items-IsShort [] = tt
groups_items-IsShort (g ∷ gs) =
    All-append IsShort (group_items g) (groups_items gs) (group_items-IsShort g)
      (groups_items-IsShort gs)

opening-IsShort : (id : ℕ) → All IsShort (opening id)
opening-IsShort zero = are_IsShort-item (opening 0) refl
opening-IsShort (suc n) = are_IsShort-item (opening (suc n)) refl

pub map_items-IsShort : (d : Peer) → All IsShort (map_items d)
map_items-IsShort d =
    All-append IsShort (opening d.report_id) (groups_items d.groups ++ closing)
      (opening-IsShort d.report_id)
      (All-append IsShort (groups_items d.groups) closing (groups_items-IsShort d.groups)
        (are_IsShort-item closing refl))
