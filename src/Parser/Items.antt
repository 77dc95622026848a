-- ===== src/Parser/Items.antt =====
-- One short item: `handle_main`, `handle_global`, `handle_local`, and the switch on its type.
use zmk_ble_hid_host.Base.{
  ℕ, ◌+◌, ◌-◌, ◌*◌, ◌^◌, Bool, true, not, ◌&&◌, List, [], ◌∷◌, ◌++◌, length, get_or, ltb, leb, ◌==◌,
  if◌then◌else◌, u8, u16, u32, meets,
}
use zmk_ble_hid_host.Parser.State.{
  GlobalState, Level, unseen, open_at, closed, Parser, max_local_usages, global_stack_depth,
  usage_page_of, usage_id_of, make_usage, item_u, item_s, in_mouse, in_keyboard, clear_local,
}
use zmk_ble_hid_host.Parser.Tags.{
  hid_type_main, hid_type_global, hid_type_local, hid_main_input, hid_main_collection,
  hid_main_end_collection, hid_global_usage_page, hid_global_logical_min, hid_global_report_size,
  hid_global_report_id, hid_global_report_count, hid_global_push, hid_global_pop, hid_local_usage,
  hid_local_usage_min, hid_local_usage_max, hid_io_constant, hid_io_variable,
  hid_collection_application, usage_gd_mouse, usage_gd_keyboard,
}
use zmk_ble_hid_host.Parser.Fields.{page_generic_desktop, assign_input, assign_kbd_input}

-- The pointer fields of an Input item: a Variable, Data item inside the mouse application.
unfoldable pub record_pointer : Parser → ℕ → Parser
unfolding assign_input
record_pointer p flags =
    if in_mouse p && not (meets flags hid_io_constant) && meets flags hid_io_variable
    then record p { out = assign_input p p.bit_cursor }
    else p

unfoldable pub record_keyboard : Parser → ℕ → Parser
unfolding assign_kbd_input
record_keyboard p flags =
    if in_keyboard p && not (meets flags hid_io_constant)
    then record p { out_kbd = assign_kbd_input p p.bit_cursor flags }
    else p

-- The cursor saturates where the uint32_t sum would wrap.
unfoldable pub advance : ℕ → ℕ → ℕ
advance cursor total_bits =
    if ltb (u32 (cursor + total_bits)) cursor then 2 ^ 32 - 1 else u32 (cursor + total_bits)

unfoldable pub main_input : Parser → List ℕ → Parser
unfolding record_pointer record_keyboard advance item_u
main_input p payload =
    let flags = item_u payload in
    let q = record_keyboard (record_pointer p flags) flags in
    record q { bit_cursor = advance q.bit_cursor (q.g.report_size * q.g.report_count) }

-- The usage last seen, if it is this one on the Generic Desktop page.
abbrev pub last_usage_is : Parser → ℕ → Bool
last_usage_is p id =
    ltb 0 (length p.usages)
    && usage_page_of (get_or p.usages (length p.usages - 1) 0) == page_generic_desktop
    && usage_id_of (get_or p.usages (length p.usages - 1) 0) == id

-- A collection opens the application at most once.
abbrev pub open_level : Level → Bool → ℕ → Level
open_level unseen opens depth = if opens then open_at depth else unseen
open_level (open_at d) opens depth = open_at d
open_level closed opens depth = closed

abbrev pub close_level : Level → ℕ → Level
close_level unseen depth = unseen
close_level (open_at d) depth = if leb depth d then closed else open_at d
close_level closed depth = closed

unfoldable pub main_collection : Parser → List ℕ → Parser
unfolding item_u
main_collection p payload =
    let is_application = item_u payload == hid_collection_application in
    record p {
      mouse_level =
          open_level p.mouse_level (is_application && last_usage_is p usage_gd_mouse) p.depth;
      kbd_level =
          open_level p.kbd_level (is_application && last_usage_is p usage_gd_keyboard) p.depth;
      depth = p.depth + 1;
    }

-- `- 1` stops at 0, as the test `depth > 0` makes it.
unfoldable pub main_end_collection : Parser → Parser
main_end_collection p = record p {
  depth = p.depth - 1;
  mouse_level = close_level p.mouse_level (p.depth - 1);
  kbd_level = close_level p.kbd_level (p.depth - 1);
}

-- Output (9) and Feature (0xB) take no bits of the Input report, as does any other tag.
unfoldable pub handle_main : Parser → ℕ → List ℕ → Parser
unfolding main_input main_collection main_end_collection clear_local
handle_main p tag payload = clear_local (
    if tag == hid_main_input
    then main_input p payload
    else if tag == hid_main_collection
    then main_collection p payload
    else if tag == hid_main_end_collection
    then main_end_collection p
    else p)

abbrev pub push_global : Parser → Parser
push_global p =
    if ltb (length p.stack) global_stack_depth then record p { stack = p.g ∷ p.stack } else p

abbrev pub pop_global : List GlobalState → Parser → Parser
pop_global [] p = p
pop_global (g ∷ rest) p = record p { g = g; stack = rest }

-- `record p { g = record (p.g) … }` is the assignment to one member of `p->g`.
unfoldable pub handle_global : Parser → ℕ → List ℕ → Parser
unfolding item_u item_s
handle_global p tag payload =
    let g = p.g in
    if tag == hid_global_usage_page
    then record p { g = record g { usage_page = u16 (item_u payload) } }
    else if tag == hid_global_logical_min
    then record p { g = record g { logical_min = item_s payload } }
    else if tag == hid_global_report_size
    then record p { g = record g { report_size = u8 (item_u payload) } }
    else if tag == hid_global_report_count
    then record p { g = record g { report_count = u8 (item_u payload) } }
    else if tag == hid_global_report_id
    then record p {
      bit_cursor = if u8 (item_u payload) == g.report_id then p.bit_cursor else 0;
      g = record g { report_id = u8 (item_u payload) };
    }
    else if tag == hid_global_push
    then push_global p
    else if tag == hid_global_pop
    then pop_global p.stack p
    else p

-- A 4-byte usage has its own page; a shorter one is on the current page.
abbrev pub local_usage : Parser → List ℕ → ℕ
local_usage p payload =
    if length payload == 4 then item_u payload else make_usage p.g.usage_page (u16 (item_u payload))

unfoldable pub handle_local : Parser → ℕ → List ℕ → Parser
unfolding item_u
handle_local p tag payload =
    if tag == hid_local_usage
    then (if ltb (length p.usages) max_local_usages
        then record p { usages = p.usages ++ local_usage p payload ∷ [] }
        else p)
    else if tag == hid_local_usage_min
    then record p { usage_min = item_u payload; has_usage_range = true }
    else if tag == hid_local_usage_max
    then record p { usage_max = item_u payload; has_usage_range = true }
    else p

-- A short item: bType, bTag and its data bytes.
pub record Item : Type 0 where
  pub type : ℕ
  pub tag : ℕ
  pub payload : List ℕ

unfoldable pub handle_item : Parser → Item → Parser
unfolding handle_main handle_global handle_local
handle_item p item =
    if item.type == hid_type_main
    then handle_main p item.tag item.payload
    else if item.type == hid_type_global
    then handle_global p item.tag item.payload
    else if item.type == hid_type_local
    then handle_local p item.tag item.payload
    else p
