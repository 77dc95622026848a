-- ===== src/Layout.antt =====
-- The data types of include/zmk_ble_hid_host/hid_report_parser.h: decoded reports, and where each
-- field lies in a raw report. A fixed-width member is a number with its range left to the theorems.
use zmk_ble_hid_host.Base.{ℕ, Bool, false, List, []}
use zmk_ble_hid_host.Base.Signed.{ℤ, pos}

-- ZMK_HID_MAX_BUTTONS and ZMK_HID_MAX_KEYS
abbrev pub max_buttons : ℕ
max_buttons = 16

abbrev pub max_keys : ℕ
max_keys = 16

-- struct zmk_hid_pointer_report
pub record PointerReport : Type 0 where
  pub dx : ℤ
  pub dy : ℤ
  pub wheel : ℤ
  pub hwheel : ℤ
  pub buttons : ℕ

-- struct zmk_hid_keyboard_report: `keys` holds the first key_count entries of the array.
pub record KeyboardReport : Type 0 where
  pub modifiers : ℕ
  pub keys : List ℕ

-- struct zmk_hid_field
pub record Field : Type 0 where
  pub bit_offset : ℕ
  pub bit_size : ℕ
  pub is_signed : Bool

-- struct zmk_hid_report_layout
pub record ReportLayout : Type 0 where
  pub report_id : ℕ
  pub x : Field
  pub y : Field
  pub wheel : Field
  pub hwheel : Field
  pub buttons : Field
  pub button_count : ℕ
  pub valid : Bool

-- struct zmk_hid_keyboard_layout
pub record KeyboardLayout : Type 0 where
  pub report_id : ℕ
  pub modifiers : Field
  pub keys : Field
  pub key_count : ℕ
  pub valid : Bool

-- The structs after memset(_, 0, sizeof(_)).
abbrev pub no_field : Field
no_field = record { bit_offset = 0; bit_size = 0; is_signed = false }

abbrev pub empty_layout : ReportLayout
empty_layout = record {
  report_id = 0;
  x = no_field;
  y = no_field;
  wheel = no_field;
  hwheel = no_field;
  buttons = no_field;
  button_count = 0;
  valid = false;
}

abbrev pub empty_kbd_layout : KeyboardLayout
empty_kbd_layout = record {
  report_id = 0;
  modifiers = no_field;
  keys = no_field;
  key_count = 0;
  valid = false;
}

abbrev pub empty_report : PointerReport
empty_report = record { dx = pos 0; dy = pos 0; wheel = pos 0; hwheel = pos 0; buttons = 0 }

abbrev pub empty_kbd_report : KeyboardReport
empty_kbd_report = record { modifiers = 0; keys = [] }
