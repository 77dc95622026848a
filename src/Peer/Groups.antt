-- ===== src/Peer/Groups.antt =====
-- What the parser makes of the items of one group.
use mathlib.Core.List.{foldl}
use zmk_ble_hid_host.Base.{
  ℕ, ◌+◌, ◌*◌, ◌≤◌, ◌<◌, ◌≡◌, refl, ap, ◌∙◌, Bool, false, List, [], ◌∷◌, arith, u8, u16,
}
use zmk_ble_hid_host.Base.Signed.{ℤ}
use zmk_ble_hid_host.Layout.{ReportLayout, empty_kbd_layout}
use zmk_ble_hid_host.Parser.State.{GlobalState, Parser, open_at, unseen, make_usage, item_u}
use zmk_ble_hid_host.Parser.Fields.{assign_usage, lock_report, assign_buttons}
use zmk_ble_hid_host.Parser.Items.{advance, handle_item}
use zmk_ble_hid_host.Peer.Desc.{
  Cell, Group, padding, buttons, axes, is_signed, short_bytes, group_items,
}
use zmk_ble_hid_host.Peer.Cursor.{item_u-byte, item_u-short_bytes, advance-inside}

-- The parser between two groups, inside both collections.
abbrev pub inside : GlobalState → ℕ → ReportLayout → Parser
inside g cursor o = record {
  g = g;
  stack = [];
  usages = [];
  usage_min = 0;
  usage_max = 0;
  has_usage_range = false;
  bit_cursor = cursor;
  depth = 2;
  mouse_level = open_at 0;
  kbd_level = unseen;
  out = o;
  out_kbd = empty_kbd_layout;
}

-- And while the usages of a group come in.
abbrev pub listing : GlobalState → ℕ → ReportLayout → List ℕ → Parser
listing g cursor o us = record (inside g cursor o) { usages = us }

-- What the slot loop records of the cells, one after the other.
abbrev pub place_cells : ℕ → ℕ → ℕ → Bool → List Cell → ReportLayout → ReportLayout
place_cells page offset size sign [] o = o
place_cells page offset size sign (c ∷ cells) o =
    place_cells page (offset + size) size sign cells
      (assign_usage o (make_usage page c.usage) offset size sign)

abbrev pub place : ℕ → ℕ → Group → ReportLayout → ReportLayout
place id offset (padding size) o = o
place id offset (buttons count mask) o = assign_buttons (lock_report o id) offset 1 count
place id offset (axes page size range cells) o =
    place_cells page offset size (is_signed range) cells (lock_report o id)

abbrev pub cell_usages : ℕ → List Cell → List ℕ
cell_usages page [] = []
cell_usages page (c ∷ cells) = make_usage page c.usage ∷ cell_usages page cells

pub payload_u8 : (b : ℕ) → b < 256 → u8 (item_u (b ∷ [])) ≡ b
payload_u8 b h = rw (item_u-byte b) (omega arith)

pub payload_u16 : (n : ℕ) → n < 65536 → u16 (item_u (short_bytes n)) ≡ n
payload_u16 n h = ap u16 (item_u-short_bytes n) ∙ omega arith

module _ (g : GlobalState) (cursor : ℕ) (o : ReportLayout) where
  pub handle_padding :
      (size : ℕ)
      → size < 256
      → cursor + size ≤ 65535
      → foldl handle_item (inside g cursor o) (group_items (padding size))
        ≡ inside (record g { report_count = 1; report_size = size }) (cursor + size) o
  handle_padding size h fits =
      computed
      ∙ ap (λ n. inside (record g { report_count = 1; report_size = n }) (advance cursor (n * 1)) o)
          (payload_u8 size h)
      ∙ ap (λ n. inside (record g { report_count = 1; report_size = size }) n o)
          (ap (advance cursor) (omega arith) ∙ advance-inside cursor size fits)
    where
      computed :
          foldl handle_item (inside g cursor o) (group_items (padding size))
          ≡ inside
              (record g { report_count = 1; report_size = u8 (item_u (size ∷ [])) })
              (advance cursor (u8 (item_u (size ∷ [])) * 1))
              o
      computed = unfold handle_item in refl

  abbrev pub button_globals : ℕ → GlobalState
  button_globals count = record {
    usage_page = 9;
    logical_min = ℤ.pos 0;
    report_size = 1;
    report_count = count;
    report_id = g.report_id;
  }

  pub handle_buttons :
      (count mask : ℕ)
      → count < 256
      → cursor + count ≤ 65535
      → foldl handle_item (inside g cursor o) (group_items (buttons count mask))
        ≡ inside
            (button_globals count)
            (cursor + count)
            (assign_buttons (lock_report o g.report_id) cursor 1 count)
  handle_buttons count mask h fits =
      computed
      ∙ ap
          (λ n.
            inside (button_globals n) (advance cursor (1 * n))
              (assign_buttons (lock_report o g.report_id) cursor 1 n))
          (payload_u8 count h)
      ∙ ap
          (λ n.
            inside (button_globals count) n
              (assign_buttons (lock_report o g.report_id) cursor 1 count))
          (ap (advance cursor) (omega arith) ∙ advance-inside cursor count fits)
    where
      computed :
          foldl handle_item (inside g cursor o) (group_items (buttons count mask))
          ≡ inside
              (button_globals (u8 (item_u (count ∷ []))))
              (advance cursor (1 * u8 (item_u (count ∷ []))))
              (assign_buttons (lock_report o g.report_id) cursor 1 (u8 (item_u (count ∷ []))))
      computed = unfold handle_item in refl
