-- ===== src/Peer/Meant.antt =====
-- What the device means by its map and its reports, and which devices a map can describe.
use Prim.Native.Nat.{min}
use zmk_ble_hid_host.Base.{
  ℕ, ◌+◌, ◌-◌, ◌%◌, ◌^◌, ◌≤◌, ◌<◌, ◌≢◌, Bool, true, false, ◌&&◌, Option, none, some, List, [], ◌∷◌,
  length, All, ◌==◌, if◌then◌else◌,
}
use zmk_ble_hid_host.Base.Signed.{ℤ, pos, negsuc}
use zmk_ble_hid_host.Layout.{Field, ReportLayout, PointerReport, no_field}
use zmk_ble_hid_host.Publish.Device.{Axis, rel_x, rel_y, rel_hwheel, rel_wheel}
use zmk_ble_hid_host.Peer.Desc.{
  is_signed, Cell, Group, Peer, width, total_width, padding, buttons, axes,
}

-- What the device says: where each axis lies and its value, by the first cell with its usage, and
-- the buttons, by the first group of them.
abbrev pub page_of : Axis → ℕ
page_of rel_x = 0x01
page_of rel_y = 0x01
page_of rel_wheel = 0x01
page_of rel_hwheel = 0x0C

abbrev pub usage_of : Axis → ℕ
usage_of rel_x = 0x30
usage_of rel_y = 0x31
usage_of rel_wheel = 0x38
usage_of rel_hwheel = 0x0238

pub record Placed : Type 0 where
  pub field : Field
  pub value : ℤ

abbrev pub or_else {ℓ} : {A : Type ℓ} → Option A → Option A → Option A
or_else (some a) b = some a
or_else none b = b

abbrev pub cell_at : Axis → ℕ → ℕ → ℕ → Bool → Cell → Option Placed
cell_at a page offset size sign c =
    if page == page_of a && c.usage == usage_of a
    then some (record {
      field = record { bit_offset = offset; bit_size = size; is_signed = sign };
      value = c.value;
    })
    else none

abbrev pub find_cell : Axis → ℕ → ℕ → ℕ → Bool → List Cell → Option Placed
find_cell a page offset size sign [] = none
find_cell a page offset size sign (c ∷ cells) =
    or_else (cell_at a page offset size sign c) (find_cell a page (offset + size) size sign cells)

abbrev pub find_in : Axis → ℕ → Group → Option Placed
find_in a offset (padding size) = none
find_in a offset (buttons count mask) = none
find_in a offset (axes page size range cells) = find_cell a page offset size (is_signed range) cells

abbrev pub find_axis : Axis → ℕ → List Group → Option Placed
find_axis a offset [] = none
find_axis a offset (g ∷ gs) = or_else (find_in a offset g) (find_axis a (offset + width g) gs)

-- The first group of buttons: its first bit, their number, and the mask.
pub record PlacedButtons : Type 0 where
  pub offset : ℕ
  pub count : ℕ
  pub mask : ℕ

abbrev pub buttons_in : ℕ → Group → Option PlacedButtons
buttons_in offset (padding size) = none
buttons_in offset (buttons count mask) =
    some (record { offset = offset; count = count; mask = mask })
buttons_in offset (axes page size range cells) = none

abbrev pub find_buttons : ℕ → List Group → Option PlacedButtons
find_buttons offset [] = none
find_buttons offset (g ∷ gs) = or_else (buttons_in offset g) (find_buttons (offset + width g) gs)

abbrev pub field_of : Option Placed → Field
field_of none = no_field
field_of (some f) = f.field

abbrev pub value_of : Option Placed → ℤ
value_of none = pos 0
value_of (some f) = f.value

-- Of more than 16 buttons the first 16.
abbrev pub button_field_of : Option PlacedButtons → Field
button_field_of none = no_field
button_field_of (some b) = record { bit_offset = b.offset; bit_size = 1; is_signed = false }

abbrev pub button_count_of : Option PlacedButtons → ℕ
button_count_of none = 0
button_count_of (some b) = min b.count 16

abbrev pub mask_of : Option PlacedButtons → ℕ
mask_of none = 0
mask_of (some b) = b.mask % 2 ^ min b.count 16

-- The layout of the device's reports.
abbrev pub layout_of : Peer → ReportLayout
layout_of d = record {
  report_id = d.report_id;
  x = field_of (find_axis rel_x 0 d.groups);
  y = field_of (find_axis rel_y 0 d.groups);
  wheel = field_of (find_axis rel_wheel 0 d.groups);
  hwheel = field_of (find_axis rel_hwheel 0 d.groups);
  buttons = button_field_of (find_buttons 0 d.groups);
  button_count = button_count_of (find_buttons 0 d.groups);
  valid = true;
}

-- The report that the device means.
abbrev pub meant : Peer → PointerReport
meant d = record {
  dx = value_of (find_axis rel_x 0 d.groups);
  dy = value_of (find_axis rel_y 0 d.groups);
  wheel = value_of (find_axis rel_wheel 0 d.groups);
  hwheel = value_of (find_axis rel_hwheel 0 d.groups);
  buttons = mask_of (find_buttons 0 d.groups);
}

-- A value that its field can hold; an unsigned one also the host's int32_t.
abbrev pub Holds : ℕ → Bool → ℤ → Type 0
Holds size true (pos n) = n < 2 ^ (size - 1)
Holds size true (negsuc n) = n < 2 ^ (size - 1)
Holds size false (pos n) = (n < 2 ^ size) × (n < 2 ^ 31)
Holds size false (negsuc n) = ⊥

-- A group that a map can hold: axes have from 1 to 32 bits each, and there are at most 16 of them;
-- buttons are not declared as axes.
abbrev pub IsGroup : Group → Type 0
IsGroup (padding size) = size < 256
IsGroup (buttons count mask) = (0 < count) × (count < 256) × (mask < 2 ^ count)
IsGroup (axes page size range cells) =
    (page < 65536)
    × (page ≢ 9)
    × (0 < size)
    × (size ≤ 32)
    × (0 < length cells)
    × (length cells ≤ 16)
    × All (λ c. (c.usage < 65536) × Holds size (is_signed range) c.value) cells

pub record IsPeer (d : Peer) : Type 0 where
  pub id : d.report_id < 256
  pub groups : All IsGroup d.groups
  pub short : total_width d.groups ≤ 65535
