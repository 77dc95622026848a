-- ===== src/Parser/Fields.antt =====
-- What one Input item records: `usage_for_slot`, `set_field`, `assign_input`, `assign_kbd_input`.
use zmk_ble_hid_host.Base.{
  ℕ, zero, suc, ◌+◌, ◌-◌, ◌*◌, Bool, false, not, ◌&&◌, length, get_or, ltb, leb, ◌==◌,
  if◌then◌else◌, u16, u32, meets,
}
use zmk_ble_hid_host.Base.Signed.{is_negative}
use zmk_ble_hid_host.Layout.{Field, ReportLayout, KeyboardLayout, max_buttons}
use zmk_ble_hid_host.Parser.Tags.{hid_io_variable}
use zmk_ble_hid_host.Parser.State.{Parser, bit_offset_max, usage_page_of, usage_id_of, make_usage}

-- Usage pages and usages
abbrev pub page_generic_desktop : ℕ
page_generic_desktop = 0x01

abbrev pub page_keyboard : ℕ
page_keyboard = 0x07

abbrev pub page_button : ℕ
page_button = 0x09

abbrev pub page_consumer : ℕ
page_consumer = 0x0C

abbrev pub usage_gd_x : ℕ
usage_gd_x = 0x30

abbrev pub usage_gd_y : ℕ
usage_gd_y = 0x31

abbrev pub usage_gd_wheel : ℕ
usage_gd_wheel = 0x38

abbrev pub usage_kbd_mod_min : ℕ
usage_kbd_mod_min = 0xE0

abbrev pub usage_consumer_ac_pan : ℕ
usage_consumer_ac_pan = 0x0238

unfoldable pub kbd_usages_are_modifiers : Parser → Bool
kbd_usages_are_modifiers p =
    if p.has_usage_range
    then p.usage_min == usage_kbd_mod_min
    else if ltb 0 (length p.usages)
    then usage_id_of (get_or p.usages 0 0) == usage_kbd_mod_min
    else false

unfoldable pub usage_for_slot : Parser → ℕ → ℕ
usage_for_slot p i =
    if ltb 0 (length p.usages)
    then get_or p.usages (if ltb i (length p.usages) then i else length p.usages - 1) 0
    else if p.has_usage_range
    then (let u = u32 (p.usage_min + i) in
        make_usage p.g.usage_page (if ltb p.usage_max u then p.usage_max else u))
    else make_usage p.g.usage_page 0

-- `offset + size` is computed in uint32_t.
unfoldable pub set_field : Field → ℕ → ℕ → Bool → Field
set_field f offset size is_signed =
    if not (f.bit_size == 0)
    then f
    else if ltb bit_offset_max (u32 (offset + size))
    then f
    else record { bit_offset = u16 offset; bit_size = size; is_signed = is_signed }

-- The body of the slot loop: the field that the usage names, if any.
unfoldable pub assign_usage : ReportLayout → ℕ → ℕ → ℕ → Bool → ReportLayout
unfolding set_field
assign_usage o u off size is_signed =
    let page = usage_page_of u in
    let id = usage_id_of u in
    if page == page_generic_desktop && id == usage_gd_x
    then record o { x = set_field o.x off size is_signed }
    else if page == page_generic_desktop && id == usage_gd_y
    then record o { y = set_field o.y off size is_signed }
    else if page == page_generic_desktop && id == usage_gd_wheel
    then record o { wheel = set_field o.wheel off size is_signed }
    else if page == page_consumer && id == usage_consumer_ac_pan
    then record o { hwheel = set_field o.hwheel off size is_signed }
    else o

-- The slot loop, `left` slots to go at slot `i`.
unfoldable pub assign_slots : Parser → ℕ → ℕ → ℕ → ReportLayout → ReportLayout
unfolding assign_usage usage_for_slot
assign_slots p start_bit zero i o = o
assign_slots p start_bit (suc left) i o = assign_slots p start_bit left (i + 1) (
    assign_usage o (usage_for_slot p i) (u32 (start_bit + i * p.g.report_size)) p.g.report_size
      (is_negative p.g.logical_min))

-- Lock to the report that this pointer lives in.
unfoldable pub lock_report : ReportLayout → ℕ → ReportLayout
lock_report o id =
    if o.report_id == 0 && o.buttons.bit_size == 0 && o.x.bit_size == 0 && o.y.bit_size == 0
    then record o { report_id = id }
    else o

-- A Button-page item is one contiguous button bitfield.
unfoldable pub assign_buttons : ReportLayout → ℕ → ℕ → ℕ → ReportLayout
assign_buttons o start_bit report_size report_count =
    let count = if ltb max_buttons report_count then max_buttons else report_count in
    let size = if report_size == 0 then 1 else report_size in
    if o.buttons.bit_size == 0 && leb (u32 (start_bit + count * size)) bit_offset_max
    then record o {
      buttons = record { bit_offset = u16 start_bit; bit_size = size; is_signed = false };
      button_count = count;
    }
    else o

unfoldable pub assign_input : Parser → ℕ → ReportLayout
unfolding lock_report assign_buttons assign_slots
assign_input p start_bit =
    let o = lock_report p.out p.g.report_id in
    if p.g.usage_page == page_button
    then assign_buttons o start_bit p.g.report_size p.g.report_count
    else assign_slots p start_bit p.g.report_count 0 o

unfoldable pub lock_kbd_report : KeyboardLayout → ℕ → KeyboardLayout
lock_kbd_report o id =
    if o.report_id == 0 && o.modifiers.bit_size == 0 && o.keys.bit_size == 0
    then record o { report_id = id }
    else o

-- The modifier bitfield, recorded only in its packed form of one bit a key.
unfoldable pub assign_modifiers : KeyboardLayout → ℕ → ℕ → ℕ → KeyboardLayout
assign_modifiers o start_bit report_size report_count =
    let per = if report_size == 0 then 1 else report_size in
    let bits = report_count * per in
    if per == 1 && ltb 0 bits && leb bits 8 && leb (u32 (start_bit + bits)) bit_offset_max
    then record o {
      modifiers = record { bit_offset = u16 start_bit; bit_size = bits; is_signed = false };
    }
    else o

-- The keycode array.
unfoldable pub assign_keys : KeyboardLayout → ℕ → ℕ → ℕ → KeyboardLayout
assign_keys o start_bit report_size count =
    let per = if report_size == 0 then 8 else report_size in
    if ltb 0 count && leb (u32 (start_bit + count * per)) bit_offset_max
    then record o {
      keys = record { bit_offset = u16 start_bit; bit_size = per; is_signed = false };
      key_count = count;
    }
    else o

unfoldable pub assign_kbd_input : Parser → ℕ → ℕ → KeyboardLayout
unfolding lock_kbd_report assign_modifiers assign_keys kbd_usages_are_modifiers
assign_kbd_input p start_bit flags =
    let o = lock_kbd_report p.out_kbd p.g.report_id in
    if meets flags hid_io_variable
    then (if p.g.usage_page == page_keyboard
          && o.modifiers.bit_size == 0
          && kbd_usages_are_modifiers p
        then assign_modifiers o start_bit p.g.report_size p.g.report_count
        else o)
    else if p.g.usage_page == page_keyboard && o.keys.bit_size == 0
    then assign_keys o start_bit p.g.report_size p.g.report_count
    else o
