-- ===== src/Parser/State.antt =====
-- The parser's state, the payload of an item, and extended usages.
-- A low mask `& (2^k - 1)` and a cast to a narrower type are written as remainders.
use zmk_ble_hid_host.Base.{
  ℕ, ◌+◌, ◌-◌, ◌*◌, bit_or, Bool, true, false, ◌&&◌, List, [], ◌∷◌, length, ltb, if◌then◌else◌, u16,
  ◌<<<◌, ◌>>>◌, complement, meets,
}
use zmk_ble_hid_host.Base.Signed.{ℤ, pos, int32}
use zmk_ble_hid_host.Layout.{ReportLayout, KeyboardLayout, empty_layout, empty_kbd_layout}

-- MAX_LOCAL_USAGES, GLOBAL_STACK_DEPTH and BIT_OFFSET_MAX
abbrev pub max_local_usages : ℕ
max_local_usages = 16

abbrev pub global_stack_depth : ℕ
global_stack_depth = 8

abbrev pub bit_offset_max : ℕ
bit_offset_max = 0xFFFF

-- struct global_state
pub record GlobalState : Type 0 where
  pub usage_page : ℕ
  pub logical_min : ℤ
  pub report_size : ℕ
  pub report_count : ℕ
  pub report_id : ℕ

-- mouse_level and kbd_level: -1, the depth at which the application opened, and -2.
pub data Level : Type 0 where
  unseen : Level
  open_at : ℕ → Level
  closed : Level

-- struct parser. `stack` holds the first stack_depth entries, the top first, and `usages` the first
-- usage_count entries in order; the entries beyond those are never read. The two layouts that
-- `out` and `out_kbd` point to are part of the state. `depth` is an int of C, which only a map of more
-- than 2^31 bytes could exceed.
pub record Parser : Type 0 where
  pub g : GlobalState
  pub stack : List GlobalState
  pub usages : List ℕ
  pub usage_min : ℕ
  pub usage_max : ℕ
  pub has_usage_range : Bool
  pub bit_cursor : ℕ
  pub depth : ℕ
  pub mouse_level : Level
  pub kbd_level : Level
  pub out : ReportLayout
  pub out_kbd : KeyboardLayout

-- USAGE_PAGE, USAGE_ID and MAKE_USAGE
abbrev pub usage_page_of : ℕ → ℕ
usage_page_of u = u16 (u >>> 16)

abbrev pub usage_id_of : ℕ → ℕ
usage_id_of u = u16 u

abbrev pub make_usage : ℕ → ℕ → ℕ
make_usage page id = bit_or (page <<< 16) (u16 id)

-- `item_u`: the bytes from index `i` on, put together over `v`. An item has at most 4 of them.
unfoldable pub item_u_from : List ℕ → ℕ → ℕ → ℕ
item_u_from [] i v = v
item_u_from (d ∷ rest) i v = item_u_from rest (i + 1) (bit_or v (d <<< (8 * i)))

unfoldable pub item_u : List ℕ → ℕ
unfolding item_u_from
item_u payload = item_u_from payload 0 0

unfoldable pub item_s : List ℕ → ℤ
unfolding item_u
item_s payload =
    let v = item_u payload in
    let size = length payload in
    int32 (
      if ltb 0 size && ltb size 4 && meets v (1 <<< (8 * size - 1))
      then bit_or v (complement ((1 <<< (8 * size)) - 1))
      else v)

abbrev pub is_open : Level → Bool
is_open unseen = false
is_open (open_at d) = true
is_open closed = false

abbrev pub in_mouse : Parser → Bool
in_mouse p = is_open p.mouse_level

abbrev pub in_keyboard : Parser → Bool
in_keyboard p = is_open p.kbd_level

unfoldable pub clear_local : Parser → Parser
clear_local p = record p { usages = []; usage_min = 0; usage_max = 0; has_usage_range = false }

-- The state and both layouts after memset, with the two levels at -1.
abbrev pub initial : Parser
initial = record {
  g = record {
    usage_page = 0;
    logical_min = pos 0;
    report_size = 0;
    report_count = 0;
    report_id = 0;
  };
  stack = [];
  usages = [];
  usage_min = 0;
  usage_max = 0;
  has_usage_range = false;
  bit_cursor = 0;
  depth = 0;
  mouse_level = unseen;
  kbd_level = unseen;
  out = empty_layout;
  out_kbd = empty_kbd_layout;
}
