-- ===== src/Peer/Layout.antt =====
-- The layout that the parser finds in the device's report map.
use mathlib.Core.List.{foldl, foldl-append}
use zmk_ble_hid_host.Base.{
  ℕ, zero, suc, ◌+◌, ◌≤◌, ◌<◌, ◌≡◌, refl, sym, ap, ap₂, ◌∙◌, subst, Bool, true, false, Option, none,
  some, List, [], ◌∷◌, ◌++◌, All, arith, not, ◌&&◌, ◌==◌, if◌then◌else◌, u8, After, inl, inr, ◌>>=◌,
}
use zmk_ble_hid_host.Base.Signed.{pos}
use zmk_ble_hid_host.Layout.{Field, ReportLayout, empty_layout, no_field}
use zmk_ble_hid_host.Publish.Device.{Axis, rel_x, rel_y, rel_hwheel, rel_wheel}
use zmk_ble_hid_host.Parser.State.{GlobalState, Parser, initial, closed, item_u}
use zmk_ble_hid_host.Parser.Items.{handle_item}
use zmk_ble_hid_host.Parser.Stream.{encode_all, run_parser-encode_all}
use zmk_ble_hid_host.Parser.Walk.{parse_report_map, pointer_result}
use zmk_ble_hid_host.Decode.Pointer.{Returned, success, failure}
use zmk_ble_hid_host.Peer.Desc.{
  Peer, Group, padding, width, total_width, groups_items, group_items, opening, closing, map_items,
}
use zmk_ble_hid_host.Peer.Meant.{
  IsPeer, Placed, PlacedButtons, or_else, find_in, find_axis, buttons_in, find_buttons, field_of,
  button_field_of, button_count_of, IsGroup, layout_of,
}
use zmk_ble_hid_host.Peer.Short.{map_items-IsShort}
use zmk_ble_hid_host.Peer.Cursor.{item_u-byte}
use zmk_ble_hid_host.Peer.Groups.{inside, place}
use zmk_ble_hid_host.Peer.Axes.{handle_group}
use zmk_ble_hid_host.Peer.Placement.{slot, IsPresent, or_else_assoc}
use zmk_ble_hid_host.Peer.Shown.{Shows, place-Shows}

nothing_yet : (id : ℕ) → Shows id (λ a. none) none empty_layout
nothing_yet id = record {
  slots = λ a. (absent a, tt);
  buttons = refl;
  count = refl;
  locked = inr (refl, refl, refl, refl);
}
  where
    absent : (a : Axis) → slot a empty_layout ≡ no_field
    absent rel_x = refl
    absent rel_y = refl
    absent rel_wheel = refl
    absent rel_hwheel = refl

with_id :
    {i j : ℕ} {q : Axis → Option Placed} {b : Option PlacedButtons} {o : ReportLayout}
    → i ≡ j
    → Shows i q b o
    → Shows j q b o
with_id {q} {b} {o} e v = subst (λ i. Shows i q b o) e v

-- The groups of a map, from the parser inside both collections on.
handle_groups :
    (gs : List Group) (g : GlobalState) (offset : ℕ) (o : ReportLayout) (q : Axis → Option Placed)
    (b : Option PlacedButtons)
    → All IsGroup gs
    → offset + total_width gs ≤ 65535
    → Shows g.report_id q b o
    → (g' : GlobalState) × (o' : ReportLayout) × (g'.report_id ≡ g.report_id)
      × (foldl handle_item (inside g offset o) (groups_items gs)
          ≡ inside g' (offset + total_width gs) o')
      × Shows g.report_id
          (λ a. or_else (q a) (find_axis a offset gs))
          (or_else b (find_buttons offset gs))
          o'
handle_groups [] g offset o q b h fits v = (
  g,
  o,
  refl,
  ap (λ n. inside g n o) (omega arith),
  place-Shows g.report_id offset q b o (padding 0) (omega arith) (omega arith) v,
)
handle_groups (grp ∷ gs) g offset o q b h fits v =
    let (g1, same, e) = handle_group g offset o grp h.0 (omega arith) in
    let v1 = place-Shows g.report_id offset q b o grp h.0 (omega arith) v in
    let (g2, o2, same2, e2, v2) =
      handle_groups gs g1 (offset + width grp) (place g.report_id offset grp o)
        (λ a. or_else (q a) (find_in a offset grp)) (or_else b (buttons_in offset grp)) h.1
        (omega arith) (with_id (sym same) v1) in
    (
      g2,
      o2,
      same2 ∙ same,
      foldl-append handle_item (inside g offset o) (group_items grp) (groups_items gs)
          ∙ ap (λ p. foldl handle_item p (groups_items gs)) e
          ∙ e2
          ∙ ap (λ n. inside g2 n o2) (omega arith),
      regroup (with_id same v2),
    )
  where
    regroup :
        {o' : ReportLayout}
        → Shows g.report_id
            (λ a.
              or_else (or_else (q a) (find_in a offset grp)) (find_axis a (offset + width grp) gs))
            (or_else (or_else b (buttons_in offset grp)) (find_buttons (offset + width grp) gs))
            o'
        → Shows g.report_id
            (λ a. or_else (q a) (find_axis a offset (grp ∷ gs)))
            (or_else b (find_buttons offset (grp ∷ gs)))
            o'
    regroup {o'} w =
        subst (λ r. Shows g.report_id (λ a. or_else (q a) (find_axis a offset (grp ∷ gs))) r o')
          (or_else_assoc b (buttons_in offset grp) (find_buttons (offset + width grp) gs))
          (record {
            slots = λ a.
                subst (λ f. (slot a o' ≡ field_of f) × After IsPresent f)
                  (or_else_assoc (q a) (find_in a offset grp) (find_axis a (offset + width grp) gs))
                  (w.slots a);
            buttons = w.buttons;
            count = w.count;
            locked = w.locked;
          })

-- The items before the groups lead inside both collections.
abbrev opened : ℕ → GlobalState
opened id = record {
  usage_page = 1;
  logical_min = pos 0;
  report_size = 0;
  report_count = 0;
  report_id = id;
}

handle_opening :
    (id : ℕ) → id < 256 → foldl handle_item initial (opening id) ≡ inside (opened id) 0 empty_layout
handle_opening zero h = unfold handle_item in refl
handle_opening (suc n) h =
    computed
    ∙ ap (λ (i : ℕ). inside (opened i) (if i == 0 then 0 else 0) empty_layout)
        (ap u8 (item_u-byte (suc n)) ∙ omega arith)
    ∙ ap (λ (k : ℕ). inside (opened (suc n)) k empty_layout) (ground arith)
  where
    computed :
        foldl handle_item initial (opening (suc n))
        ≡ inside
            (opened (u8 (item_u (suc n ∷ []))))
            (if u8 (item_u (suc n ∷ [])) == 0 then 0 else 0)
            empty_layout
    computed = unfold handle_item in refl

-- The two End Collection items close both collections.
abbrev closed_parser : GlobalState → ℕ → ReportLayout → Parser
closed_parser g offset o = record (inside g offset o) { depth = 0; mouse_level = closed }

handle_closing :
    (g : GlobalState) (offset : ℕ) (o : ReportLayout)
    → foldl handle_item (inside g offset o) closing ≡ closed_parser g offset o
handle_closing g offset o = unfold handle_item in refl

-- With X and Y found, what has been recorded is the device's layout.
module _ (d : Peer) (x y : Placed) (o : ReportLayout)
    (shows : Shows d.report_id (λ a. find_axis a 0 d.groups) (find_buttons 0 d.groups) o)
    (has_x : find_axis rel_x 0 d.groups ≡ some x)
    (has_y : find_axis rel_y 0 d.groups ≡ some y) where
  axis_present :
      (a : Axis) (f : Placed) → find_axis a 0 d.groups ≡ some f → ((slot a o).bit_size == 0) ≡ false
  axis_present a f has =
      let size : (slot a o).bit_size ≡ (f.field).bit_size =
        ap (λ (t : Field). t.bit_size) ((shows.slots a).0 ∙ ap field_of has) in
      let present : 0 < (f.field).bit_size = subst (After IsPresent) has (shows.slots a).1 in
      ground (arith, size, present)

  recorded : record o { valid = true } ≡ layout_of d
  recorded =
      all_parts o shows.buttons shows.count locked (shows.slots rel_x).0 (shows.slots rel_y).0
        (shows.slots rel_wheel).0 (shows.slots rel_hwheel).0
    where
      locked : o.report_id ≡ d.report_id
      locked = elim (shows.locked) [
        | inl e ↦ e
        | inr (a, b, absent, c) ↦ absurd (ground (arith, axis_present rel_x x has_x, absent))
      ]

      all_parts :
          (o : ReportLayout)
          → o.buttons ≡ button_field_of (find_buttons 0 d.groups)
          → o.button_count ≡ button_count_of (find_buttons 0 d.groups)
          → o.report_id ≡ d.report_id
          → o.x ≡ field_of (find_axis rel_x 0 d.groups)
          → o.y ≡ field_of (find_axis rel_y 0 d.groups)
          → o.wheel ≡ field_of (find_axis rel_wheel 0 d.groups)
          → o.hwheel ≡ field_of (find_axis rel_hwheel 0 d.groups)
          → record o { valid = true } ≡ layout_of d
      all_parts o b n i ex ey ew eh = cc

  finished :
      (g : GlobalState) (offset : ℕ)
      → pointer_result (closed_parser g offset o)
        ≡ record { code = success; out = some (layout_of d) }
  finished g offset =
      ap₂
        (λ (ax ay : Bool).
          let found = not ax && not ay && true in
          let r : Returned ReportLayout = record {
            code = if found then success else failure;
            out = some (record o { valid = found });
          } in
          r)
        (axis_present rel_x x has_x) (axis_present rel_y y has_y)
      ∙ ap (λ l. record { code = success; out = some l }) recorded

-- Where the device has an X and a Y axis, so that its map is one of a pointer, parsing the bytes of
-- its map returns 0 with exactly the layout that the device means, whatever `*out` held: each axis
-- is the first cell with its usage, the buttons are the first group of them, each at the sum of the
-- widths before it, and the layout is valid and has the device's report ID.
pub parse_report_map-map_items :
    (d : Peer) (x y : Placed) (o : ReportLayout)
    → IsPeer d
    → find_axis rel_x 0 d.groups ≡ some x
    → find_axis rel_y 0 d.groups ≡ some y
    → parse_report_map (some (encode_all (map_items d))) (some o)
      ≡ some (record { code = success; out = some (layout_of d) })
unfolding parse_report_map
parse_report_map-map_items d x y o v has_x has_y =
    let (g, l, same, e, shows) =
      handle_groups d.groups (opened d.report_id) 0 empty_layout (λ a. none) none v.groups
        (omega (arith, v.short)) (nothing_yet d.report_id) in
    ap (λ r. r >>= λ p. some (pointer_result p))
      (run_parser-encode_all (map_items d) (map_items-IsShort d)
        ∙ ap some (
            foldl-append handle_item initial (opening d.report_id)
              (groups_items d.groups ++ closing)
            ∙ ap (λ p. foldl handle_item p (groups_items d.groups ++ closing))
                (handle_opening d.report_id v.id)
            ∙ foldl-append handle_item (inside (opened d.report_id) 0 empty_layout)
                (groups_items d.groups) closing
            ∙ ap (λ p. foldl handle_item p closing) e
            ∙ handle_closing g (0 + total_width d.groups) l))
    ∙ ap some (finished d x y l shows has_x has_y g (0 + total_width d.groups))
