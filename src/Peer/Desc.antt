-- ===== src/Peer/Desc.antt =====
-- The device, its report map and its reports.
use zmk_ble_hid_host.Base.{
  ℕ, zero, suc, ◌+◌, ◌-◌, ◌*◌, ◌/◌, ◌%◌, ◌^◌, Bool, true, false, List, [], ◌∷◌, ◌++◌, length, ltb,
  if◌then◌else◌,
}
use zmk_ble_hid_host.Base.Signed.{ℤ, pos, negsuc}
use zmk_ble_hid_host.Parser.Items.{Item}

-- The Logical Minimum and Maximum of a group of axes: 0 to 255, -127 to 127, or -32767 to 32767.
pub data Range : Type 0 where
  unsigned signed8 signed16 : Range

abbrev pub is_signed : Range → Bool
is_signed unsigned = false
is_signed signed8 = true
is_signed signed16 = true

-- One axis of a group: its usage, and the value that the device sends.
pub record Cell : Type 0 where
  pub usage : ℕ
  pub value : ℤ

-- What one Input item of the map describes: bits without a meaning, so many buttons with the mask
-- that the device sends, or axes of one page, width and range.
pub data Group : Type 0 where
  padding : ℕ → Group
  buttons : ℕ → ℕ → Group
  axes : ℕ → ℕ → Range → List Cell → Group

pub record Peer : Type 0 where
  pub report_id : ℕ
  pub groups : List Group

-- The report map.
abbrev pub main_item : ℕ → List ℕ → Item
main_item tag payload = record { type = 0; tag = tag; payload = payload }

abbrev pub global_item : ℕ → List ℕ → Item
global_item tag payload = record { type = 1; tag = tag; payload = payload }

abbrev pub local_item : ℕ → List ℕ → Item
local_item tag payload = record { type = 2; tag = tag; payload = payload }

-- A number below 65536 in one or two bytes.
abbrev pub short_bytes : ℕ → List ℕ
short_bytes n = if ltb n 256 then n ∷ [] else n % 256 ∷ n / 256 ∷ []

abbrev pub minimum_bytes : Range → List ℕ
minimum_bytes unsigned = 0 ∷ []
minimum_bytes signed8 = 0x81 ∷ []
minimum_bytes signed16 = 0x01 ∷ 0x80 ∷ []

abbrev pub maximum_bytes : Range → List ℕ
maximum_bytes unsigned = 0xFF ∷ 0 ∷ []
maximum_bytes signed8 = 0x7F ∷ []
maximum_bytes signed16 = 0xFF ∷ 0x7F ∷ []

abbrev pub usage_items : List Cell → List Item
usage_items [] = []
usage_items (c ∷ cells) = local_item 0 (short_bytes c.usage) ∷ usage_items cells

-- Report Count and Report Size, then Input (Constant): padding. Buttons: Usage Page (Button), Usage
-- Minimum (1) and Maximum, Logical Minimum (0) and Maximum (1), Report Count, Report Size (1), Input
-- (Data, Variable). Axes: the page, their usages, the range, the size, the count, and Input (Data,
-- Variable, Relative).
abbrev pub group_items : Group → List Item
group_items (padding size) =
    global_item 9 (1 ∷ []) ∷ global_item 7 (size ∷ []) ∷ main_item 8 (1 ∷ []) ∷ []
group_items (buttons count mask) =
    global_item 0 (9 ∷ [])
    ∷ local_item 1 (1 ∷ [])
    ∷ local_item 2 (count ∷ [])
    ∷ global_item 1 (0 ∷ [])
    ∷ global_item 2 (1 ∷ [])
    ∷ global_item 9 (count ∷ [])
    ∷ global_item 7 (1 ∷ [])
    ∷ main_item 8 (2 ∷ [])
    ∷ []
group_items (axes page size range cells) =
    global_item 0 (short_bytes page)
    ∷ (usage_items cells
        ++ global_item 1 (minimum_bytes range)
          ∷ global_item 2 (maximum_bytes range)
          ∷ global_item 7 (size ∷ [])
          ∷ global_item 9 (length cells ∷ [])
          ∷ main_item 8 (6 ∷ [])
          ∷ [])

abbrev pub groups_items : List Group → List Item
groups_items [] = []
groups_items (g ∷ gs) = group_items g ++ groups_items gs

-- Usage Page (Generic Desktop), Usage (Mouse), Collection (Application), Report ID if there is one,
-- Usage (Pointer), Collection (Physical).
abbrev pub id_items : ℕ → List Item
id_items zero = []
id_items (suc n) = global_item 8 (suc n ∷ []) ∷ []

abbrev pub opening : ℕ → List Item
opening id =
    global_item 0 (1 ∷ [])
    ∷ local_item 0 (2 ∷ [])
    ∷ main_item 10 (1 ∷ [])
    ∷ (id_items id ++ local_item 0 (1 ∷ []) ∷ main_item 10 (0 ∷ []) ∷ [])

abbrev pub closing : List Item
closing = main_item 12 [] ∷ main_item 12 [] ∷ []

abbrev pub map_items : Peer → List Item
map_items d = opening d.report_id ++ (groups_items d.groups ++ closing)

-- A report: each group in its bits, from the lowest on; a negative value in two's complement.
abbrev pub width : Group → ℕ
width (padding size) = size
width (buttons count mask) = count
width (axes page size range cells) = size * length cells

abbrev pub total_width : List Group → ℕ
total_width [] = 0
total_width (g ∷ gs) = width g + total_width gs

abbrev pub raw : ℕ → ℤ → ℕ
raw size (pos n) = n
raw size (negsuc n) = 2 ^ size - 1 - n

abbrev pub cells_number : ℕ → List Cell → ℕ
cells_number size [] = 0
cells_number size (c ∷ cells) = raw size c.value + 2 ^ size * cells_number size cells

abbrev pub group_number : Group → ℕ
group_number (padding size) = 0
group_number (buttons count mask) = mask
group_number (axes page size range cells) = cells_number size cells

abbrev pub report_number : List Group → ℕ
report_number [] = 0
report_number (g ∷ gs) = group_number g + 2 ^ width g * report_number gs

-- The `n` low bytes of a number, the lowest first.
abbrev pub le_bytes : ℕ → ℕ → List ℕ
le_bytes zero m = []
le_bytes (suc n) m = m % 256 ∷ le_bytes n (m / 256)

abbrev pub report_length : Peer → ℕ
report_length d = (total_width d.groups + 7) / 8

abbrev pub report_bytes : Peer → List ℕ
report_bytes d = le_bytes (report_length d) (report_number d.groups)
