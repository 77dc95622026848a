-- ===== src/Parser/Tags.antt =====
-- The constants of the HID specification that the parser tests for: items, main item flags,
-- collections and application usages.
use zmk_ble_hid_host.Base.{ℕ}

abbrev pub hid_item_long : ℕ
hid_item_long = 0xFE

abbrev pub hid_type_main : ℕ
hid_type_main = 0

abbrev pub hid_type_global : ℕ
hid_type_global = 1

abbrev pub hid_type_local : ℕ
hid_type_local = 2

abbrev pub hid_main_input : ℕ
hid_main_input = 0x8

abbrev pub hid_main_collection : ℕ
hid_main_collection = 0xA

abbrev pub hid_main_end_collection : ℕ
hid_main_end_collection = 0xC

abbrev pub hid_global_usage_page : ℕ
hid_global_usage_page = 0x0

abbrev pub hid_global_logical_min : ℕ
hid_global_logical_min = 0x1

abbrev pub hid_global_report_size : ℕ
hid_global_report_size = 0x7

abbrev pub hid_global_report_id : ℕ
hid_global_report_id = 0x8

abbrev pub hid_global_report_count : ℕ
hid_global_report_count = 0x9

abbrev pub hid_global_push : ℕ
hid_global_push = 0xA

abbrev pub hid_global_pop : ℕ
hid_global_pop = 0xB

abbrev pub hid_local_usage : ℕ
hid_local_usage = 0x0

abbrev pub hid_local_usage_min : ℕ
hid_local_usage_min = 0x1

abbrev pub hid_local_usage_max : ℕ
hid_local_usage_max = 0x2

abbrev pub hid_io_constant : ℕ
hid_io_constant = 0x01

abbrev pub hid_io_variable : ℕ
hid_io_variable = 0x02

abbrev pub hid_collection_application : ℕ
hid_collection_application = 0x01

abbrev pub usage_gd_mouse : ℕ
usage_gd_mouse = 0x02

abbrev pub usage_gd_keyboard : ℕ
usage_gd_keyboard = 0x06
