-- ===== src/Peer/Cut.antt =====
-- A report map that arrives only in part, such as one longer than the central's buffer.
use mathlib.Core.List.{foldl}
use zmk_ble_hid_host.Base.{
  ℕ, zero, suc, ◌<◌, ◌≡◌, refl, sym, ap, ap₂, ◌∙◌, subst, Bool, true, false, not, ◌&&◌, ◌||◌, some,
  List, [], ◌∷◌, ◌++◌, append_assoc, length, take, arith, ◌==◌, if◌then◌else◌, ◌>>=◌,
}
use zmk_ble_hid_host.Layout.{ReportLayout}
use zmk_ble_hid_host.Decode.Pointer.{failure, success}
use zmk_ble_hid_host.Parser.State.{Parser, initial}
use zmk_ble_hid_host.Parser.Items.{Item, handle_item}
use zmk_ble_hid_host.Parser.Stream.{encode_all}
use zmk_ble_hid_host.Parser.Walk.{parse_report_map, pointer_found, pointer_result}
use zmk_ble_hid_host.Parser.Depth.{depth_step, depth_after, foldl-depth}
use zmk_ble_hid_host.Parser.Cut.{run_parser_cut}
use zmk_ble_hid_host.Peer.Desc.{
  Peer, Cell, Group, padding, buttons, axes, local_item, main_item, group_items, groups_items,
  usage_items, id_items, closing, map_items,
}
use zmk_ble_hid_host.Peer.Short.{map_items-IsShort}

-- Before each of these items a collection is open.
abbrev StaysIn : ℕ → List Item → Type 0
StaysIn n [] = Unit
StaysIn n (item ∷ items) = (0 < n) × StaysIn (depth_step item n) items

StaysIn-prefix :
    (before : List Item) (item : Item) (after : List Item) (n : ℕ)
    → StaysIn n (before ++ item ∷ after)
    → 0 < depth_after n before
StaysIn-prefix [] item after n h = h.0
StaysIn-prefix (b ∷ before) item after n h = StaysIn-prefix before item after (depth_step b n) h.1

-- Items that open and close nothing.
abbrev are_flat : List Item → Bool
are_flat [] = true
are_flat (item ∷ items) =
    not (item.type == 0 && (item.tag == 0xA || item.tag == 0xC)) && are_flat items

flat_StaysIn :
    (items rest : List Item) (n : ℕ)
    → are_flat items ≡ true
    → 0 < n
    → StaysIn n rest
    → StaysIn n (items ++ rest)
flat_StaysIn [] rest n flat some_open h = h
flat_StaysIn (item ∷ items) rest n flat some_open h =
    let same : depth_step item n ≡ n = ground arith in
    (
      some_open,
      subst (λ m. StaysIn m (items ++ rest)) (sym same)
          (flat_StaysIn items rest n (ground arith) some_open h),
    )

usage_items-flat :
    (cells : List Cell) (rest : List Item) → are_flat (usage_items cells ++ rest) ≡ are_flat rest
usage_items-flat [] rest = refl
usage_items-flat (c ∷ cells) rest = usage_items-flat cells rest

group_items-flat : (g : Group) → are_flat (group_items g) ≡ true
group_items-flat (padding size) = refl
group_items-flat (buttons count mask) = refl
group_items-flat (axes page size range cells) = usage_items-flat cells _

groups_StaysIn :
    (gs : List Group) (rest : List Item) → StaysIn 2 rest → StaysIn 2 (groups_items gs ++ rest)
groups_StaysIn [] rest h = h
groups_StaysIn (g ∷ gs) rest h =
    subst (StaysIn 2) (sym (append_assoc (group_items g) (groups_items gs) rest)) (
      flat_StaysIn (group_items g) (groups_items gs ++ rest) 2 (group_items-flat g) (omega arith)
        (groups_StaysIn gs rest h))

-- The items after the first collection.
abbrev within : Peer → List Item
within d =
    (id_items d.report_id ++ local_item 0 (1 ∷ []) ∷ main_item 10 (0 ∷ []) ∷ [])
    ++ (groups_items d.groups ++ closing)

within-StaysIn : (d : Peer) → StaysIn 1 (within d)
within-StaysIn d = by_id d.report_id
  where
    inner : StaysIn 2 (groups_items d.groups ++ closing)
    inner = groups_StaysIn d.groups closing (omega arith, (omega arith, tt))

    by_id :
        (id : ℕ)
        → StaysIn 1 (
            (id_items id ++ local_item 0 (1 ∷ []) ∷ main_item 10 (0 ∷ []) ∷ [])
            ++ (groups_items d.groups ++ closing))
    by_id zero = (omega arith, (omega arith, inner))
    by_id (suc n) = (omega arith, (omega arith, (omega arith, inner)))

same_head : {i j : Item} {is js : List Item} → i ∷ is ≡ j ∷ js → i ≡ j
same_head e = cc

same_tail : {i j : Item} {is js : List Item} → i ∷ is ≡ j ∷ js → is ≡ js
same_tail e = cc

-- Fewer items than all of them leave the map without a pointer: up to the first collection nothing
-- has been recorded, and from it on a collection is open.
no_pointer_yet :
    (d : Peer) (before : List Item) (item : Item) (after : List Item)
    → map_items d ≡ before ++ item ∷ after
    → pointer_found (foldl handle_item initial before) ≡ false
no_pointer_yet d [] item after e = refl
no_pointer_yet d (b0 ∷ []) item after e =
    ap (λ i. pointer_found (handle_item initial i)) (sym (same_head e)) ∙ unfold handle_item in refl
no_pointer_yet d (b0 ∷ b1 ∷ []) item after e =
    ap₂ (λ i j. pointer_found (handle_item (handle_item initial i) j)) (sym (same_head e))
      (sym (same_head (same_tail e)))
    ∙ unfold handle_item in refl
no_pointer_yet d (b0 ∷ b1 ∷ b2 ∷ before) item after e =
    let rest : within d ≡ before ++ item ∷ after = same_tail (same_tail (same_tail e)) in
    let open_still : 0 < depth_after 1 before =
      StaysIn-prefix before item after 1 (subst (StaysIn 1) rest (within-StaysIn d)) in
    let p : Parser = foldl handle_item initial (b0 ∷ b1 ∷ b2 ∷ before) in
    let depth : p.depth ≡ depth_after 1 before =
      foldl-depth (b0 ∷ b1 ∷ b2 ∷ before) initial
      ∙ ap (λ i. depth_after 0 (i ∷ b1 ∷ b2 ∷ before)) (sym (same_head e))
      ∙ ap (λ i. depth_after 0 (i ∷ b2 ∷ before)) (sym (same_head (same_tail e)))
      ∙ ap (λ i. depth_after 0 (i ∷ before)) (sym (same_head (same_tail (same_tail e)))) in
    still_open p (omega (arith, depth, open_still))
  where
    still_open : (p : Parser) → 0 < p.depth → pointer_found p ≡ false
    still_open p h = ground arith

-- A report map that breaks off anywhere before its last byte is refused: the parse returns -1, and
-- the layout that it leaves is marked invalid.
pub parse_report_map_cut :
    (d : Peer) (k : ℕ) (o : ReportLayout)
    → k < length (encode_all (map_items d))
    → (l : ReportLayout) × (parse_report_map (some (take k (encode_all (map_items d)))) (some o)
        ≡ some (record { code = failure; out = some l }))
      × (l.valid ≡ false)
unfolding parse_report_map
parse_report_map_cut d k o less =
    let (before, item, after, split, e) =
      run_parser_cut (map_items d) k (map_items-IsShort d) less in
    let p : Parser = foldl handle_item initial before in
    let none_found : pointer_found p ≡ false = no_pointer_yet d before item after split in
    (
      record (p.out) { valid = pointer_found p },
      ap (λ r. r >>= λ p. some (pointer_result p)) e
          ∙ ap
              (λ (found : Bool). some (record {
                code = if found then success else failure;
                out = some (record (p.out) { valid = pointer_found p });
              }))
              none_found,
      none_found,
    )
