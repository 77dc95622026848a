-- ===== src/Parser/Bounds/Fits.antt =====
-- What one Input item records fits the layout's 16-bit offsets, while no uint32_t sum wraps.
use zmk_ble_hid_host.Base.{
  ℕ, zero, suc, ◌+◌, ◌*◌, ◌^◌, ◌≤◌, ◌<◌, ◌≡◌, arith, Bool, ◌==◌, if◌then◌else◌, u32, true, false,
  meets,
}
use zmk_ble_hid_host.Base.Signed.{is_negative}
use zmk_ble_hid_host.Layout.{Field, ReportLayout, KeyboardLayout}
use zmk_ble_hid_host.Parser.State.{GlobalState, Parser}
use zmk_ble_hid_host.Parser.Fields.{
  set_field, assign_usage, assign_slots, usage_for_slot, lock_report, assign_buttons, assign_input,
  lock_kbd_report, assign_modifiers, assign_keys, assign_kbd_input,
}

pub record Fits (f : Field) : Type 0 where
  pub ends : f.bit_offset + f.bit_size ≤ 0xFFFF
  pub byte : f.bit_size < 256

pub record LayoutFits (o : ReportLayout) : Type 0 where
  pub id : o.report_id < 256
  pub x : Fits o.x
  pub y : Fits o.y
  pub wheel : Fits o.wheel
  pub hwheel : Fits o.hwheel
  pub buttons : o.buttons.bit_offset + o.button_count * o.buttons.bit_size ≤ 0xFFFF
  pub width : o.buttons.bit_size < 256
  pub few : o.button_count ≤ 16
  pub empty : o.buttons.bit_size ≡ 0 → o.button_count ≡ 0

pub record KeyboardFits (o : KeyboardLayout) : Type 0 where
  pub id : o.report_id < 256
  pub modifiers : Fits o.modifiers
  pub packed : o.modifiers.bit_size ≤ 8
  pub keys : o.keys.bit_offset + o.key_count * o.keys.bit_size ≤ 0xFFFF
  pub width : o.keys.bit_size < 256
  pub count : o.key_count < 256

-- The members of struct global_state lie in their types.
pub record InRange (g : GlobalState) : Type 0 where
  pub page : g.usage_page < 2 ^ 16
  pub size : g.report_size < 256
  pub count : g.report_count < 256
  pub id : g.report_id < 256

-- Below 2 ^ 32 - 255 the test of `set_field` sees the true end of the field.
pub set_field-Fits :
    (f : Field) (offset size : ℕ) (is_signed : Bool)
    → Fits f
    → size < 256
    → offset + size < 2 ^ 32
    → Fits (set_field f offset size is_signed)
unfolding set_field
set_field-Fits f offset size is_signed h small fits = ground arith

assign_usage-LayoutFits :
    (o : ReportLayout) (u off size : ℕ) (is_signed : Bool)
    → LayoutFits o
    → size < 256
    → off + size < 2 ^ 32
    → LayoutFits (assign_usage o u off size is_signed)
unfolding assign_usage
assign_usage-LayoutFits o u off size is_signed h small fits = ground arith

slot_room : (i left size : ℕ) → i + suc left ≤ 255 → size < 256 → i * size ≤ 255 * 255
slot_room i left size h small = grind arith

assign_slots-LayoutFits :
    (p : Parser) (start_bit left i : ℕ) (o : ReportLayout)
    → LayoutFits o
    → InRange p.g
    → i + left ≤ 255
    → start_bit + 255 * 255 + 255 < 2 ^ 32
    → LayoutFits (assign_slots p start_bit left i o)
unfolding assign_slots
assign_slots-LayoutFits p start_bit zero i o h r room fits = h
assign_slots-LayoutFits p start_bit (suc left) i o h r room fits =
    assign_slots-LayoutFits p start_bit left (i + 1) _
      (assign_usage-LayoutFits o (usage_for_slot p i) (u32 (start_bit + i * p.g.report_size))
        p.g.report_size (is_negative p.g.logical_min) h r.size
        (omega (arith, slot_room i left p.g.report_size room r.size, r.size)))
      r (omega arith) fits

lock_report-LayoutFits :
    (o : ReportLayout) (id : ℕ) → LayoutFits o → id < 256 → LayoutFits (lock_report o id)
unfolding lock_report
lock_report-LayoutFits o id h small = ground arith

run_room : (count size : ℕ) → count ≤ 255 → size ≤ 255 → count * size ≤ 255 * 255
run_room count size h small = grind arith

assign_buttons-LayoutFits :
    (o : ReportLayout) (start_bit size count : ℕ)
    → LayoutFits o
    → size < 256
    → start_bit + 255 * 255 < 2 ^ 32
    → LayoutFits (assign_buttons o start_bit size count)
unfolding assign_buttons
assign_buttons-LayoutFits o start_bit size count h small fits =
    ground (arith, run_room 16 size, run_room count size)

-- Every pointer field that an Input item records ends at bit 65535 or before.
pub assign_input-LayoutFits :
    (p : Parser) (start_bit : ℕ)
    → LayoutFits p.out
    → InRange p.g
    → start_bit + 255 * 255 + 255 < 2 ^ 32
    → LayoutFits (assign_input p start_bit)
unfolding assign_input
assign_input-LayoutFits p start_bit h r fits =
    let locked = lock_report-LayoutFits p.out p.g.report_id h r.id in
    let buttons =
      assign_buttons-LayoutFits (lock_report p.out p.g.report_id) start_bit p.g.report_size
        p.g.report_count locked r.size (omega arith) in
    let slots =
      assign_slots-LayoutFits p start_bit p.g.report_count 0 (lock_report p.out p.g.report_id)
        locked r (omega (arith, r.count)) fits in
    if_LayoutFits (p.g.usage_page == 0x09) _ _ buttons slots
  where
    if_LayoutFits :
        (test : Bool) (a b : ReportLayout)
        → LayoutFits a
        → LayoutFits b
        → LayoutFits (if test then a else b)
    if_LayoutFits true a b ha hb = ha
    if_LayoutFits false a b ha hb = hb

lock_kbd_report-KeyboardFits :
    (o : KeyboardLayout) (id : ℕ) → KeyboardFits o → id < 256 → KeyboardFits (lock_kbd_report o id)
unfolding lock_kbd_report
lock_kbd_report-KeyboardFits o id h small = ground arith

assign_modifiers-KeyboardFits :
    (o : KeyboardLayout) (start_bit size count : ℕ)
    → KeyboardFits o
    → start_bit + 255 < 2 ^ 32
    → KeyboardFits (assign_modifiers o start_bit size count)
unfolding assign_modifiers
assign_modifiers-KeyboardFits o start_bit size count h fits = ground arith

assign_keys-KeyboardFits :
    (o : KeyboardLayout) (start_bit size count : ℕ)
    → KeyboardFits o
    → size < 256
    → count < 256
    → start_bit + 255 * 255 < 2 ^ 32
    → KeyboardFits (assign_keys o start_bit size count)
unfolding assign_keys
assign_keys-KeyboardFits o start_bit size count h small few fits =
    ground (arith, run_room count size, run_room count 8)

if_KeyboardFits :
    (test : Bool) (a b : KeyboardLayout)
    → KeyboardFits a
    → KeyboardFits b
    → KeyboardFits (if test then a else b)
if_KeyboardFits true a b ha hb = ha
if_KeyboardFits false a b ha hb = hb

-- Every keyboard field that an Input item records ends at bit 65535 or before.
pub assign_kbd_input-KeyboardFits :
    (p : Parser) (start_bit flags : ℕ)
    → KeyboardFits p.out_kbd
    → InRange p.g
    → start_bit + 255 * 255 + 255 < 2 ^ 32
    → KeyboardFits (assign_kbd_input p start_bit flags)
unfolding assign_kbd_input
assign_kbd_input-KeyboardFits p start_bit flags h r fits =
    let o = lock_kbd_report p.out_kbd p.g.report_id in
    let locked = lock_kbd_report-KeyboardFits p.out_kbd p.g.report_id h r.id in
    if_KeyboardFits (meets flags 0x02) _ _
      (if_KeyboardFits _ _ o
        (assign_modifiers-KeyboardFits o start_bit p.g.report_size p.g.report_count locked
          (omega arith))
        locked)
      (if_KeyboardFits _ _ o
        (assign_keys-KeyboardFits o start_bit p.g.report_size p.g.report_count locked r.size r.count
          (omega arith))
        locked)
