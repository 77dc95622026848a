-- ===== src/Peer/Shown.antt =====
-- What the parser has recorded after some of the device's groups.
use zmk_ble_hid_host.Base.{
  ℕ, ◌+◌, ◌≤◌, ◌≡◌, refl, sym, ap, ◌∙◌, subst, Bool, Option, none, some, List, [], ◌∷◌, arith,
  After, ◌⊎◌, inl, inr,
}
use zmk_ble_hid_host.Layout.{ReportLayout}
use zmk_ble_hid_host.Publish.Device.{Axis, rel_x, rel_y, rel_hwheel, rel_wheel}
use zmk_ble_hid_host.Parser.State.{make_usage}
use zmk_ble_hid_host.Parser.Fields.{assign_usage, lock_report, assign_buttons}
use zmk_ble_hid_host.Peer.Desc.{Cell, Group, padding, buttons, axes, is_signed, width}
use zmk_ble_hid_host.Peer.Meant.{
  Placed, PlacedButtons, or_else, find_in, buttons_in, field_of, button_field_of, button_count_of,
  IsGroup,
}
use zmk_ble_hid_host.Peer.Groups.{place_cells, place}
use zmk_ble_hid_host.Peer.Placement.{slot, IsPresent, or_else-none, place_cells-slot}

-- What the parser has recorded: each axis as `q` has it, the buttons as `b` has them, and the report
-- ID of the device as soon as anything else that it locks on.
pub record Shows (id : ℕ) (q : Axis → Option Placed) (b : Option PlacedButtons) (o : ReportLayout)
    : Type 0 where
  pub slots : (a : Axis) → (slot a o ≡ field_of (q a)) × After IsPresent (q a)
  pub buttons : o.buttons ≡ button_field_of b
  pub count : o.button_count ≡ button_count_of b
  pub locked :
      (o.report_id ≡ id)
      ⊎ ((o.report_id ≡ 0) × (o.buttons.bit_size ≡ 0) × (o.x.bit_size ≡ 0) × (o.y.bit_size ≡ 0))

lock_report-slot : (a : Axis) (o : ReportLayout) (id : ℕ) → slot a (lock_report o id) ≡ slot a o
unfolding lock_report
lock_report-slot rel_x o id = ground arith
lock_report-slot rel_y o id = ground arith
lock_report-slot rel_wheel o id = ground arith
lock_report-slot rel_hwheel o id = ground arith

assign_buttons-slot :
    (a : Axis) (o : ReportLayout) (start size count : ℕ)
    → slot a (assign_buttons o start size count) ≡ slot a o
unfolding assign_buttons
assign_buttons-slot rel_x o start size count = ground arith
assign_buttons-slot rel_y o start size count = ground arith
assign_buttons-slot rel_wheel o start size count = ground arith
assign_buttons-slot rel_hwheel o start size count = ground arith

lock_report-rest :
    (o : ReportLayout) (id : ℕ)
    → ((lock_report o id).buttons ≡ o.buttons) × ((lock_report o id).button_count ≡ o.button_count)
unfolding lock_report
lock_report-rest o id = ground arith

lock_report-id :
    (o : ReportLayout) (id : ℕ)
    → ((o.report_id ≡ id)
        ⊎ ((o.report_id ≡ 0) × (o.buttons.bit_size ≡ 0) × (o.x.bit_size ≡ 0) × (o.y.bit_size ≡ 0)))
    → (lock_report o id).report_id ≡ id
unfolding lock_report
lock_report-id o id (inl e) = ground arith
lock_report-id o id (inr (none_yet, b, x, y)) = rw (none_yet, b, x, y)

assign_usage-rest :
    (o : ReportLayout) (u offset size : ℕ) (sign : Bool)
    → ((assign_usage o u offset size sign).buttons ≡ o.buttons)
      × ((assign_usage o u offset size sign).button_count ≡ o.button_count)
      × ((assign_usage o u offset size sign).report_id ≡ o.report_id)
unfolding assign_usage
assign_usage-rest o u offset size sign = ground arith

place_cells-rest :
    (page offset size : ℕ) (sign : Bool) (cells : List Cell) (o : ReportLayout)
    → ((place_cells page offset size sign cells o).buttons ≡ o.buttons)
      × ((place_cells page offset size sign cells o).button_count ≡ o.button_count)
      × ((place_cells page offset size sign cells o).report_id ≡ o.report_id)
place_cells-rest page offset size sign [] o = (refl, refl, refl)
place_cells-rest page offset size sign (c ∷ cells) o =
    let o' = assign_usage o (make_usage page c.usage) offset size sign in
    let (b, n, i) = place_cells-rest page (offset + size) size sign cells o' in
    let (b', n', i') = assign_usage-rest o (make_usage page c.usage) offset size sign in
    (b ∙ b', n ∙ n', i ∙ i')

-- The first group of buttons is recorded, a later one changes nothing.
assign_buttons-first :
    (o : ReportLayout) (offset count mask : ℕ) (b : Option PlacedButtons)
    → offset + count ≤ 65535
    → o.buttons ≡ button_field_of b
    → o.button_count ≡ button_count_of b
    → let p : PlacedButtons = record { offset = offset; count = count; mask = mask } in
      ((assign_buttons o offset 1 count).buttons ≡ button_field_of (or_else b (some p)))
      × ((assign_buttons o offset 1 count).button_count ≡ button_count_of (or_else b (some p)))
      × ((assign_buttons o offset 1 count).report_id ≡ o.report_id)
unfolding assign_buttons
assign_buttons-first o offset count mask none fits eb en = ground (arith, eb, en)
assign_buttons-first o offset count mask (some p) fits eb en = ground (arith, eb, en)

module _ (id offset : ℕ) (q : Axis → Option Placed) (b : Option PlacedButtons)
    (o : ReportLayout) where
  keeps_padding : Shows id q b o → Shows id (λ a. or_else (q a) none) (or_else b none) o
  keeps_padding v = record {
    slots = λ a.
        subst (λ f. (slot a o ≡ field_of f) × After IsPresent f) (sym (or_else-none (q a)))
          (v.slots a);
    buttons = v.buttons ∙ ap button_field_of (sym (or_else-none b));
    count = v.count ∙ ap button_count_of (sym (or_else-none b));
    locked = v.locked;
  }

  -- One group more.
  pub place-Shows :
      (g : Group)
      → IsGroup g
      → offset + width g ≤ 65535
      → Shows id q b o
      → Shows id
          (λ a. or_else (q a) (find_in a offset g))
          (or_else b (buttons_in offset g))
          (place id offset g o)
  place-Shows (padding size) h fits v = keeps_padding v
  place-Shows (buttons count mask) h fits v =
      let (rest_b, rest_n) = lock_report-rest o id in
      let (first, first_n, same) =
        assign_buttons-first (lock_report o id) offset count mask b fits (rest_b ∙ v.buttons)
          (rest_n ∙ v.count) in
      record {
        slots = λ a.
            let (e, present) = (keeps_padding v).slots a in
            (
              assign_buttons-slot a (lock_report o id) offset 1 count ∙ lock_report-slot a o id ∙ e,
              present,
            );
        buttons = first;
        count = first_n;
        locked = inl (same ∙ lock_report-id o id v.locked);
      }
  place-Shows (axes page size range cells) h fits v =
      let (rest_b, rest_n) = lock_report-rest o id in
      let (same_b, same_n, same) =
        place_cells-rest page offset size (is_signed range) cells (lock_report o id) in
      record {
        slots = λ a.
            place_cells-slot a page size (is_signed range) h.0 h.2 offset cells (lock_report o id)
              (q a) h.6 fits (lock_report-slot a o id ∙ (v.slots a).0) (v.slots a).1;
        buttons = same_b ∙ rest_b ∙ (keeps_padding v).buttons;
        count = same_n ∙ rest_n ∙ (keeps_padding v).count;
        locked = inl (same ∙ lock_report-id o id v.locked);
      }
