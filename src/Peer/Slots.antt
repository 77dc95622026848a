-- ===== src/Peer/Slots.antt =====
-- What the device says of a field is what stands in its report: each place that it gives lies inside
-- the report, and the digits there are those of the value.
use zmk_ble_hid_host.Base.Bits.Fields.{two_pow_add}
use zmk_ble_hid_host.Base.{
  ℕ, suc, ◌+◌, ◌*◌, ◌/◌, ◌%◌, ◌^◌, ◌≤◌, ◌<◌, ◌≡◌, ap, ◌∙◌, Bool, true, false, Option, none, some,
  List, [], ◌∷◌, length, All, arith, After, ◌&&◌, ◌==◌, if◌then◌else◌,
}
use zmk_ble_hid_host.Publish.Device.{Axis}
use zmk_ble_hid_host.Peer.Desc.{
  Cell, Group, padding, buttons, axes, is_signed, width, total_width, raw, cells_number,
  group_number, report_number,
}
use zmk_ble_hid_host.Peer.Meant.{
  Holds, IsGroup, Placed, PlacedButtons, or_else, find_cell, find_in, find_axis, buttons_in,
  find_buttons, page_of, usage_of,
}
use zmk_ble_hid_host.Peer.Numbers.{low_part, raw-lt, HoldAll, group_number-lt}

or_else-After {ℓ} :
    {A : Type ℓ} (P : A → Type 0) (a b : Option A) → After P a → After P b → After P (or_else a b)
or_else-After P none b ha hb = hb
or_else-After P (some x) b ha hb = ha

-- A place whose digits in the number `n`, of `limit` digits, are the value's.
pub record IsIn (n limit : ℕ) (f : Placed) : Type 0 where
  pub reads : n / 2 ^ (f.field).bit_offset % 2 ^ (f.field).bit_size ≡ raw (f.field).bit_size f.value
  pub holds : Holds (f.field).bit_size (f.field).is_signed f.value
  pub present : 0 < (f.field).bit_size
  pub narrow : (f.field).bit_size ≤ 32
  pub inside : (f.field).bit_offset + (f.field).bit_size ≤ limit

pub record ButtonsIn (n limit : ℕ) (b : PlacedButtons) : Type 0 where
  pub reads : n / 2 ^ b.offset % 2 ^ b.count ≡ b.mask
  pub present : 0 < b.count
  pub inside : b.offset + b.count ≤ limit

module _ (a : Axis) (n limit : ℕ) where
  one_cell :
      (page offset size : ℕ) (sign : Bool) (c : Cell) (r : ℕ)
      → 0 < size
      → size ≤ 32
      → Holds size sign c.value
      → offset + size ≤ limit
      → n / 2 ^ offset ≡ raw size c.value + 2 ^ size * r
      → (test : Bool)
      → After (IsIn n limit) (
          if test
          then some (record {
            field = record { bit_offset = offset; bit_size = size; is_signed = sign };
            value = c.value;
          })
          else none)
  one_cell page offset size sign c r some_bits narrow h inside e false = tt
  one_cell page offset size sign c r some_bits narrow h inside e true = record {
    reads = (low_part n offset size _ r (raw-lt size sign c.value some_bits h) e).0;
    holds = h;
    present = some_bits;
    narrow = narrow;
    inside = inside;
  }

  regroup : (m v w u r : ℕ) → v + m * w + m * u * r ≡ v + m * (w + u * r)
  regroup m v w u r = grind arith

  find_cell-IsIn :
      (page offset size : ℕ) (sign : Bool) (cells : List Cell) (r : ℕ)
      → 0 < size
      → size ≤ 32
      → HoldAll size sign cells
      → offset + size * length cells ≤ limit
      → n / 2 ^ offset ≡ cells_number size cells + 2 ^ (size * length cells) * r
      → After (IsIn n limit) (find_cell a page offset size sign cells)
  find_cell-IsIn page offset size sign [] r some_bits narrow h inside e = tt
  find_cell-IsIn page offset size sign (c ∷ cells) r some_bits narrow h inside e =
      let more : size * suc (length cells) ≡ size + size * length cells = grind arith in
      let rest : ℕ = cells_number size cells + 2 ^ (size * length cells) * r in
      let e' : n / 2 ^ offset ≡ raw size c.value + 2 ^ size * rest =
        e
        ∙ ap (λ (t : ℕ). raw size c.value + 2 ^ size * cells_number size cells + t * r)
            (ap (λ (t : ℕ). 2 ^ t) more ∙ two_pow_add size (size * length cells))
        ∙ regroup (2 ^ size) (raw size c.value) (cells_number size cells)
            (2 ^ (size * length cells)) r in
      or_else-After (IsIn n limit) _ _
        (one_cell page offset size sign c rest some_bits narrow h.0.1 (omega (arith, more)) e'
          (page == page_of a && c.usage == usage_of a))
        (find_cell-IsIn page (offset + size) size sign cells r some_bits narrow h.1
          (omega (arith, more))
          (low_part n offset size _ rest (raw-lt size sign c.value some_bits h.0.1) e').1)

  find_in-IsIn :
      (offset : ℕ) (g : Group) (r : ℕ)
      → IsGroup g
      → offset + width g ≤ limit
      → n / 2 ^ offset ≡ group_number g + 2 ^ width g * r
      → After (IsIn n limit) (find_in a offset g)
  find_in-IsIn offset (padding size) r h inside e = tt
  find_in-IsIn offset (buttons count mask) r h inside e = tt
  find_in-IsIn offset (axes page size range cells) r h inside e =
      find_cell-IsIn page offset size (is_signed range) cells r h.2 h.3 h.6 inside e

  find_axis-IsIn :
      (offset : ℕ) (gs : List Group)
      → All IsGroup gs
      → offset + total_width gs ≤ limit
      → n / 2 ^ offset ≡ report_number gs
      → After (IsIn n limit) (find_axis a offset gs)
  find_axis-IsIn offset [] h inside e = tt
  find_axis-IsIn offset (g ∷ gs) h inside e =
      or_else-After (IsIn n limit) _ _
        (find_in-IsIn offset g (report_number gs) h.0 (omega arith) e)
        (find_axis-IsIn (offset + width g) gs h.1 (omega arith)
          (low_part n offset (width g) _ _ (group_number-lt g h.0) e).1)

module _ (n limit : ℕ) where
  buttons_in-ButtonsIn :
      (offset : ℕ) (g : Group) (r : ℕ)
      → IsGroup g
      → offset + width g ≤ limit
      → n / 2 ^ offset ≡ group_number g + 2 ^ width g * r
      → After (ButtonsIn n limit) (buttons_in offset g)
  buttons_in-ButtonsIn offset (padding size) r h inside e = tt
  buttons_in-ButtonsIn offset (buttons count mask) r h inside e = record {
    reads = (low_part n offset count mask r h.2 e).0;
    present = h.0;
    inside = inside;
  }
  buttons_in-ButtonsIn offset (axes page size range cells) r h inside e = tt

  find_buttons-ButtonsIn :
      (offset : ℕ) (gs : List Group)
      → All IsGroup gs
      → offset + total_width gs ≤ limit
      → n / 2 ^ offset ≡ report_number gs
      → After (ButtonsIn n limit) (find_buttons offset gs)
  find_buttons-ButtonsIn offset [] h inside e = tt
  find_buttons-ButtonsIn offset (g ∷ gs) h inside e =
      or_else-After (ButtonsIn n limit) _ _
        (buttons_in-ButtonsIn offset g (report_number gs) h.0 (omega arith) e)
        (find_buttons-ButtonsIn (offset + width g) gs h.1 (omega arith)
          (low_part n offset (width g) _ _ (group_number-lt g h.0) e).1)

-- From the first bit of the whole report.
pub placed_axis :
    (a : Axis) (gs : List Group)
    → All IsGroup gs
    → After (IsIn (report_number gs) (total_width gs)) (find_axis a 0 gs)
placed_axis a gs h =
    find_axis-IsIn a (report_number gs) (total_width gs) 0 gs h (omega arith) (omega arith)

pub placed_buttons :
    (gs : List Group)
    → All IsGroup gs
    → After (ButtonsIn (report_number gs) (total_width gs)) (find_buttons 0 gs)
placed_buttons gs h =
    find_buttons-ButtonsIn (report_number gs) (total_width gs) 0 gs h (omega arith) (omega arith)
