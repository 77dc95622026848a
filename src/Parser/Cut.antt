-- ===== src/Parser/Cut.antt =====
-- The item stream of a descriptor that is cut short.
use mathlib.Core.List.{foldl}
use zmk_ble_hid_host.Base.{
  ℕ, zero, suc, ◌+◌, ◌-◌, ◌<◌, ◌≡◌, refl, ap, ◌∙◌, List, [], ◌∷◌, ◌++◌, length, length-append, take,
  length-take, take-append, take-append_left, arith, some, All, lt→ltb,
}
use native.Mathlib.Decide.{dec_lt}
use zmk_ble_hid_host.Parser.State.{Parser, initial}
use zmk_ble_hid_host.Parser.Items.{Item, handle_item}
use zmk_ble_hid_host.Parser.Walk.{stop, next_item, next_short, resume, walk, run_parser}
use zmk_ble_hid_host.Parser.Stream.{
  IsShort, encode, encode_all, prefix_of, prefix_parts, next_item-encode, other_prefix,
}

-- An item that is cut in its payload ends the walk.
next_short_cut :
    (item : Item) (rest : List ℕ)
    → IsShort item
    → length rest < length item.payload
    → next_short (prefix_of item) rest ≡ stop
unfolding next_short
next_short_cut item rest s less =
    let (low, type, tag, size) = prefix_parts item s in
    rw (low, size, lt→ltb (length rest) (length item.payload) less)

next_item_cut :
    (item : Item) (k : ℕ)
    → IsShort item
    → k < length (encode item)
    → next_item (take k (encode item)) ≡ stop
unfolding next_item encode
next_item_cut item zero s less = refl
next_item_cut item (suc k) s less =
    rw (other_prefix (prefix_of item) s.not_long)
      (next_short_cut item (take k item.payload) s (omega (arith, length-take k item.payload)))

walk_cut :
    (items : List Item) (fuel k : ℕ) (p : Parser)
    → All IsShort items
    → k < length (encode_all items)
    → k < fuel
    → (before : List Item) × (item : Item) × (after : List Item) × (items ≡ before ++ item ∷ after)
      × (walk fuel (take k (encode_all items)) p ≡ some (foldl handle_item p before))
unfolding walk encode_all encode
walk_cut items zero k p s less enough = absurd (omega arith)
walk_cut [] (suc fuel) k p s less enough = absurd (omega arith)
walk_cut (item ∷ items) (suc fuel) k p s less enough = elim (dec_lt k (length (encode item))) [
  | yes inside ↦ (
    [],
    item,
    items,
    refl,
    ap (λ bytes. resume (walk fuel) (next_item bytes) p)
          (take-append_left k (encode item) (encode_all items) (omega arith))
        ∙ ap (λ next. resume (walk fuel) next p) (next_item_cut item k s.0 inside),
  )
  | no beyond ↦
      let (before, next, after, split, e) =
        walk_cut items fuel (k - length (encode item)) (handle_item p item) s.1
          (omega (arith, whole)) (omega (arith, some_bytes)) in
      (
        item ∷ before,
        next,
        after,
        ap (◌∷◌ item) split,
        (ap (λ bytes. resume (walk fuel) (next_item bytes) p)
                (take-append k (encode item) (encode_all items) (omega arith))
              ∙ ap (λ next. resume (walk fuel) next p)
                  (next_item-encode item (take (k - length (encode item)) (encode_all items)) s.0))
            ∙ e,
      )
]
  where
    whole : k < length (encode item) + length (encode_all items)
    whole = omega (arith, less, length-append (encode item) (encode_all items))

    some_bytes : 0 < length (encode item)
    some_bytes = omega arith

-- Of a descriptor that is cut anywhere the parser handles the items that are whole, one item fewer at
-- least, and ends.
pub run_parser_cut :
    (items : List Item) (k : ℕ)
    → All IsShort items
    → k < length (encode_all items)
    → (before : List Item) × (item : Item) × (after : List Item) × (items ≡ before ++ item ∷ after)
      × (run_parser (take k (encode_all items)) ≡ some (foldl handle_item initial before))
unfolding run_parser
run_parser_cut items k s less =
    walk_cut items (suc (length (take k (encode_all items)))) k initial s less
      (omega (arith, length-take k (encode_all items)))
