-- ===== src/Peer/Axes.antt =====
-- What the parser makes of the items of a group of axes, and so of any group.
use mathlib.Core.List.{foldl, foldl-append}
use zmk_ble_hid_host.Base.{
  ℕ, ◌+◌, ◌*◌, ◌≤◌, ◌<◌, ◌≡◌, ◌≢◌, refl, ap, ap₂, ◌∙◌, Bool, false, List, [], ◌∷◌, ◌++◌, length,
  arith, ◌==◌, if◌then◌else◌, u8,
}
use zmk_ble_hid_host.Layout.{ReportLayout}
use zmk_ble_hid_host.Parser.State.{GlobalState, Parser, item_u, item_s}
use zmk_ble_hid_host.Parser.Fields.{assign_slots, lock_report, assign_buttons}
use zmk_ble_hid_host.Parser.Items.{Item, advance, handle_item}
use zmk_ble_hid_host.Peer.Desc.{
  Range, unsigned, signed8, signed16, Cell, Group, padding, buttons, axes, is_signed, width,
  global_item, main_item, short_bytes, minimum_bytes, maximum_bytes, usage_items, group_items,
}
use zmk_ble_hid_host.Peer.Meant.{IsGroup}
use zmk_ble_hid_host.Peer.Cursor.{minimum_sign, advance-inside}
use zmk_ble_hid_host.Peer.Groups.{
  inside, listing, place, cell_usages, payload_u8, payload_u16, handle_padding, handle_buttons,
}
use zmk_ble_hid_host.Peer.Usages.{list_usages, assign_slots-cells}

module _ (g : GlobalState) (cursor : ℕ) (o : ReportLayout) where
  abbrev axes_globals : ℕ → ℕ → Range → ℕ → GlobalState
  axes_globals page size range count = record {
    usage_page = page;
    logical_min = item_s (minimum_bytes range);
    report_size = size;
    report_count = count;
    report_id = g.report_id;
  }

  -- The rest of the items of a group of axes, after its usages.
  abbrev axes_end : ℕ → Range → ℕ → List Item
  axes_end size range count =
      global_item 1 (minimum_bytes range)
      ∷ global_item 2 (maximum_bytes range)
      ∷ global_item 7 (size ∷ [])
      ∷ global_item 9 (count ∷ [])
      ∷ main_item 8 (6 ∷ [])
      ∷ []

  handle_end :
      (page size count : ℕ) (range : Range) (us : List ℕ)
      → page ≢ 9
      → size < 256
      → count < 256
      → cursor + size * count ≤ 65535
      → foldl handle_item
          (listing (record g { usage_page = page }) cursor o us)
          (axes_end size range count)
        ≡ inside (axes_globals page size range count) (cursor + size * count) (
            assign_slots
              (listing (axes_globals page size range count) cursor o us)
              cursor
              count
              0
              (lock_report o g.report_id))
  handle_end page size count range us other hs hc fits =
      computed range
      ∙ ap₂ (λ (s n : ℕ). ended s n (advance cursor (s * n)) (page == 9)) (payload_u8 size hs)
          (payload_u8 count hc)
      ∙ ap₂ (λ (n : ℕ) (test : Bool). ended size count n test)
          (advance-inside cursor (size * count) fits) not_buttons
    where
      ended : ℕ → ℕ → ℕ → Bool → Parser
      ended s n next test = inside (axes_globals page s range n) next (
          if test
          then assign_buttons (lock_report o g.report_id) cursor s n
          else assign_slots (listing (axes_globals page s range n) cursor o us) cursor n 0
              (lock_report o g.report_id))

      not_buttons : (page == 9) ≡ false
      not_buttons = ground arith

      computed :
          (range : Range)
          → foldl handle_item
              (listing (record g { usage_page = page }) cursor o us)
              (axes_end size range count)
            ≡ inside
                (axes_globals page (u8 (item_u (size ∷ []))) range (u8 (item_u (count ∷ []))))
                (advance cursor (u8 (item_u (size ∷ [])) * u8 (item_u (count ∷ []))))
                (if page == 9
                  then assign_buttons
                      (lock_report o g.report_id)
                      cursor
                      (u8 (item_u (size ∷ [])))
                      (u8 (item_u (count ∷ [])))
                  else assign_slots
                      (listing
                        (axes_globals page
                          (u8 (item_u (size ∷ [])))
                          range
                          (u8 (item_u (count ∷ []))))
                        cursor
                        o
                        us)
                      cursor
                      (u8 (item_u (count ∷ [])))
                      0
                      (lock_report o g.report_id))
      computed unsigned = unfold handle_item in refl
      computed signed8 = unfold handle_item in refl
      computed signed16 = unfold handle_item in refl

  handle_axes :
      (page size : ℕ) (range : Range) (cells : List Cell)
      → IsGroup (axes page size range cells)
      → cursor + size * length cells ≤ 65535
      → foldl handle_item (inside g cursor o) (group_items (axes page size range cells))
        ≡ inside
            (axes_globals page size range (length cells))
            (cursor + size * length cells)
            (place g.report_id cursor (axes page size range cells) o)
  handle_axes page size range cells h fits =
      ap (λ p. foldl handle_item p (usage_items cells ++ axes_end size range (length cells))) paged
      ∙ foldl-append handle_item (listing (record g { usage_page = page }) cursor o [])
          (usage_items cells) (axes_end size range (length cells))
      ∙ ap (λ p. foldl handle_item p (axes_end size range (length cells)))
          (list_usages (record g { usage_page = page }) cursor o (is_signed range) size [] cells
            (omega (arith, h.5)) h.6)
      ∙ handle_end page size (length cells) range (cell_usages page cells) h.1 (omega (arith, h.3))
          (omega (arith, h.5)) fits
      ∙ ap (inside (axes_globals page size range (length cells)) (cursor + size * length cells)) (
          assign_slots-cells cursor page size (is_signed range)
            (listing (axes_globals page size range (length cells)) cursor o
              (cell_usages page cells))
            [] cells cursor (lock_report o g.report_id) refl refl (minimum_sign range) (omega arith)
            fits)
    where
      paged :
          handle_item (inside g cursor o) (global_item 0 (short_bytes page))
          ≡ listing (record g { usage_page = page }) cursor o []
      paged =
          unfold handle_item in
          ap (λ n. inside (record g { usage_page = n }) cursor o) (payload_u16 page h.0)

  -- Every group moves the cursor by its width, and is placed where the cursor was.
  pub handle_group :
      (grp : Group)
      → IsGroup grp
      → cursor + width grp ≤ 65535
      → (g' : GlobalState) × (g'.report_id ≡ g.report_id)
        × (foldl handle_item (inside g cursor o) (group_items grp)
            ≡ inside g' (cursor + width grp) (place g.report_id cursor grp o))
  handle_group (padding size) h fits = (_, refl, handle_padding g cursor o size h fits)
  handle_group (buttons count mask) h fits =
      (_, refl, handle_buttons g cursor o count mask h.1 fits)
  handle_group (axes page size range cells) h fits =
      (_, refl, handle_axes page size range cells h fits)
