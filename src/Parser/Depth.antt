-- ===== src/Parser/Depth.antt =====
-- The depth of collections, as the items alone determine it.
use mathlib.Core.List.{foldl}
use zmk_ble_hid_host.Base.{
  ℕ, ◌+◌, ◌-◌, ◌≡◌, refl, ap, ◌∙◌, List, [], ◌∷◌, arith, ◌==◌, if◌then◌else◌,
}
use zmk_ble_hid_host.Parser.State.{GlobalState, Parser, clear_local}
use zmk_ble_hid_host.Parser.Items.{
  Item, record_pointer, record_keyboard, main_input, main_collection, main_end_collection,
  handle_main, pop_global, handle_global, handle_local, handle_item,
}

-- The depth of collections after an item.
abbrev pub main_depth : ℕ → ℕ → ℕ
main_depth tag n = if tag == 0xA then n + 1 else if tag == 0xC then n - 1 else n

abbrev pub depth_step : Item → ℕ → ℕ
depth_step item n = if item.type == 0 then main_depth item.tag n else n

record_pointer-depth : (p : Parser) (flags : ℕ) → (record_pointer p flags).depth ≡ p.depth
unfolding record_pointer
record_pointer-depth p flags = ground arith

record_keyboard-depth : (p : Parser) (flags : ℕ) → (record_keyboard p flags).depth ≡ p.depth
unfolding record_keyboard
record_keyboard-depth p flags = ground arith

main_input-depth : (p : Parser) (payload : List ℕ) → (main_input p payload).depth ≡ p.depth
unfolding main_input
main_input-depth p payload = record_keyboard-depth (record_pointer p _) _ ∙ record_pointer-depth p _

handle_main-depth :
    (p : Parser) (tag : ℕ) (payload : List ℕ)
    → (handle_main p tag payload).depth ≡ main_depth tag p.depth
unfolding handle_main main_collection main_end_collection clear_local
handle_main-depth p tag payload = ground (arith, main_input-depth p payload)

pop_global-depth : (stack : List GlobalState) (p : Parser) → (pop_global stack p).depth ≡ p.depth
pop_global-depth [] p = refl
pop_global-depth (g ∷ stack) p = refl

handle_global-depth :
    (p : Parser) (tag : ℕ) (payload : List ℕ) → (handle_global p tag payload).depth ≡ p.depth
unfolding handle_global
handle_global-depth p tag payload = ground (arith, pop_global-depth p.stack p)

handle_local-depth :
    (p : Parser) (tag : ℕ) (payload : List ℕ) → (handle_local p tag payload).depth ≡ p.depth
unfolding handle_local
handle_local-depth p tag payload = ground arith

handle_item-depth :
    (p : Parser) (item : Item) → (handle_item p item).depth ≡ depth_step item p.depth
unfolding handle_item
handle_item-depth p item = ground (
  arith,
  handle_main-depth p item.tag item.payload,
  handle_global-depth p item.tag item.payload,
  handle_local-depth p item.tag item.payload,
)

abbrev pub depth_after : ℕ → List Item → ℕ
depth_after n [] = n
depth_after n (item ∷ items) = depth_after (depth_step item n) items

pub foldl-depth :
    (items : List Item) (p : Parser) → (foldl handle_item p items).depth ≡ depth_after p.depth items
foldl-depth [] p = refl
foldl-depth (item ∷ items) p =
    foldl-depth items (handle_item p item)
    ∙ ap (λ n. depth_after n items) (handle_item-depth p item)
