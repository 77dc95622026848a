-- ===== src/Peer/Placement.antt =====
-- What the parser has recorded after some groups is what the device says of them: of each axis the
-- first cell, of the buttons the first group, each where the widths before it add up to.
use zmk_ble_hid_host.Base.{
  ℕ, suc, ◌+◌, ◌*◌, ◌≤◌, ◌<◌, ◌≡◌, refl, sym, ap, ◌∙◌, subst, Bool, true, false, Option, none, some,
  List, [], ◌∷◌, length, arith, ◌&&◌, ◌==◌, if◌then◌else◌, After,
}
use zmk_ble_hid_host.Layout.{Field, ReportLayout}
use zmk_ble_hid_host.Publish.Device.{Axis, rel_x, rel_y, rel_hwheel, rel_wheel}
use zmk_ble_hid_host.Parser.State.{make_usage}
use zmk_ble_hid_host.Parser.Fields.{set_field, assign_usage}
use zmk_ble_hid_host.Peer.Desc.{Cell}
use zmk_ble_hid_host.Peer.Meant.{Placed, or_else, cell_at, find_cell, page_of, usage_of, field_of}
use zmk_ble_hid_host.Peer.Numbers.{HoldAll}
use zmk_ble_hid_host.Peer.Cursor.{make_usage-parts}
use zmk_ble_hid_host.Peer.Groups.{place_cells}

abbrev pub slot : Axis → ReportLayout → Field
slot rel_x o = o.x
slot rel_y o = o.y
slot rel_wheel o = o.wheel
slot rel_hwheel o = o.hwheel

abbrev pub IsPresent : Placed → Type 0
IsPresent f = 0 < (f.field).bit_size

pub or_else-none {ℓ} : {A : Type ℓ} (a : Option A) → or_else a none ≡ a
or_else-none none = refl
or_else-none (some x) = refl

pub or_else_assoc {ℓ} :
    {A : Type ℓ} (a b c : Option A) → or_else (or_else a b) c ≡ or_else a (or_else b c)
or_else_assoc none b c = refl
or_else_assoc (some x) b c = refl

assign_usage-slot :
    (a : Axis) (o : ReportLayout) (page id offset size : ℕ) (sign : Bool)
    → page < 65536
    → id < 65536
    → slot a (assign_usage o (make_usage page id) offset size sign) ≡ (
        if page == page_of a && id == usage_of a
        then set_field (slot a o) offset size sign
        else slot a o)
unfolding assign_usage
assign_usage-slot a o page id offset size sign hp hi =
    let (p, i) = make_usage-parts page id hp hi in rw (p, i) (by_axis a)
  where
    by_axis :
        (a : Axis)
        → slot a (
            if page == 0x01 && id == 0x30
            then record o { x = set_field o.x offset size sign }
            else if page == 0x01 && id == 0x31
            then record o { y = set_field o.y offset size sign }
            else if page == 0x01 && id == 0x38
            then record o { wheel = set_field o.wheel offset size sign }
            else if page == 0x0C && id == 0x0238
            then record o { hwheel = set_field o.hwheel offset size sign }
            else o)
          ≡ (if page == page_of a && id == usage_of a
              then set_field (slot a o) offset size sign
              else slot a o)
    by_axis rel_x = ground arith
    by_axis rel_y = ground arith
    by_axis rel_wheel = ground arith
    by_axis rel_hwheel = ground arith

set_first :
    (offset size : ℕ) (sign : Bool) (f : Placed) (q : Option Placed)
    → f.field ≡ record { bit_offset = offset; bit_size = size; is_signed = sign }
    → offset + size ≤ 65535
    → After IsPresent q
    → set_field (field_of q) offset size sign ≡ field_of (or_else q (some f))
unfolding set_field
set_first offset size sign f none e fits h = ground (arith, e)
set_first offset size sign f (some g) e fits h = ground arith

module _ (a : Axis) (page size : ℕ) (sign : Bool) (page_small : page < 65536)
    (some_bits : 0 < size) where
  place_cell :
      (offset : ℕ) (c : Cell) (o : ReportLayout) (q : Option Placed)
      → c.usage < 65536
      → offset + size ≤ 65535
      → slot a o ≡ field_of q
      → After IsPresent q
      → (slot a (assign_usage o (make_usage page c.usage) offset size sign)
          ≡ field_of (or_else q (cell_at a page offset size sign c)))
        × After IsPresent (or_else q (cell_at a page offset size sign c))
  place_cell offset c o q small fits e h = (
    assign_usage-slot a o page c.usage offset size sign page_small small
        ∙ ap
            (λ f.
              if page == page_of a && c.usage == usage_of a
              then set_field f offset size sign
              else f)
            e
        ∙ by_test (page == page_of a && c.usage == usage_of a),
    by_test_present (page == page_of a && c.usage == usage_of a) q h,
  )
    where
      found : Placed
      found = record {
        field = record { bit_offset = offset; bit_size = size; is_signed = sign };
        value = c.value;
      }

      by_test :
          (test : Bool)
          → (if test then set_field (field_of q) offset size sign else field_of q)
            ≡ field_of (or_else q (if test then some found else none))
      by_test true = set_first offset size sign found q refl fits h
      by_test false = ap field_of (sym (or_else-none q))

      by_test_present :
          (test : Bool) (q : Option Placed)
          → After IsPresent q
          → After IsPresent (or_else q (if test then some found else none))
      by_test_present test (some f) h = h
      by_test_present true none h = some_bits
      by_test_present false none h = tt

  pub place_cells-slot :
      (offset : ℕ) (cells : List Cell) (o : ReportLayout) (q : Option Placed)
      → HoldAll size sign cells
      → offset + size * length cells ≤ 65535
      → slot a o ≡ field_of q
      → After IsPresent q
      → (slot a (place_cells page offset size sign cells o)
          ≡ field_of (or_else q (find_cell a page offset size sign cells)))
        × After IsPresent (or_else q (find_cell a page offset size sign cells))
  place_cells-slot offset [] o q hold fits e h =
      (e ∙ ap field_of (sym (or_else-none q)), subst (After IsPresent) (sym (or_else-none q)) h)
  place_cells-slot offset (c ∷ cells) o q hold fits e h =
      let more : size * suc (length cells) ≡ size + size * length cells = grind arith in
      let (e1, h1) = place_cell offset c o q hold.0.0 (omega (arith, more)) e h in
      subst
        (λ r.
          (slot a (place_cells page offset size sign (c ∷ cells) o) ≡ field_of r)
          × After IsPresent r)
        (or_else_assoc q (cell_at a page offset size sign c)
          (find_cell a page (offset + size) size sign cells))
        (place_cells-slot (offset + size) cells
          (assign_usage o (make_usage page c.usage) offset size sign)
          (or_else q (cell_at a page offset size sign c)) hold.1 (omega (arith, more)) e1 h1)
