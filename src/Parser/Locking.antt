-- ===== src/Parser/Locking.antt =====
-- What is recorded stays: the first occurrence of a field wins, and the end of the first mouse or
-- keyboard application locks its layout.
pub mod Keyboard
use zmk_ble_hid_host.Base.{
  ℕ, zero, suc, ◌+◌, ◌*◌, ◌≡◌, ◌≢◌, refl, sym, ◌∙◌, ap, arith, Bool, true, false, ◌==◌,
  if◌then◌else◌, u32,
}
use zmk_ble_hid_host.Base.Signed.{is_negative}
use zmk_ble_hid_host.Layout.{Field, ReportLayout}
use zmk_ble_hid_host.Parser.State.{Parser}
use zmk_ble_hid_host.Parser.Fields.{
  set_field, assign_usage, usage_for_slot, assign_slots, lock_report, assign_buttons, assign_input,
}

-- A field that is present stays as it is.
abbrev pub Keeps : Field → Field → Type 0
Keeps f f' = f.bit_size ≢ 0 → f' ≡ f

pub record Extends (o o' : ReportLayout) : Type 0 where
  pub x : Keeps o.x o'.x
  pub y : Keeps o.y o'.y
  pub wheel : Keeps o.wheel o'.wheel
  pub hwheel : Keeps o.hwheel o'.hwheel
  pub buttons :
      o.buttons.bit_size ≢ 0 → (o'.buttons ≡ o.buttons) × (o'.button_count ≡ o.button_count)
  pub id : o.report_id ≢ 0 → o'.report_id ≡ o.report_id

pub Extends-refl : (o : ReportLayout) → Extends o o
Extends-refl o = record {
  x = λ _. refl;
  y = λ _. refl;
  wheel = λ _. refl;
  hwheel = λ _. refl;
  buttons = λ _. (refl, refl);
  id = λ _. refl;
}

pub Keeps-trans : (f g h : Field) → Keeps f g → Keeps g h → Keeps f h
Keeps-trans f g h p q present =
    let same = p present in q (λ e. present (ap (λ (t : Field). t.bit_size) (sym same) ∙ e)) ∙ same

pub Extends-trans : (o p q : ReportLayout) → Extends o p → Extends p q → Extends o q
Extends-trans o p q a b = record {
  x = Keeps-trans o.x p.x q.x a.x b.x;
  y = Keeps-trans o.y p.y q.y a.y b.y;
  wheel = Keeps-trans o.wheel p.wheel q.wheel a.wheel b.wheel;
  hwheel = Keeps-trans o.hwheel p.hwheel q.hwheel a.hwheel b.hwheel;
  buttons = λ h.
      let (same, count) = a.buttons h in
      let (same', count') = b.buttons (λ e. h (ap (λ (t : Field). t.bit_size) (sym same) ∙ e)) in
      (same' ∙ same, count' ∙ count);
  id = λ h. let same = a.id h in b.id (λ e. h (sym same ∙ e)) ∙ same;
}

set_field-Keeps :
    (f : Field) (offset size : ℕ) (is_signed : Bool) → Keeps f (set_field f offset size is_signed)
unfolding set_field
set_field-Keeps f offset size is_signed h = ground arith

assign_usage-Extends :
    (o : ReportLayout) (u off size : ℕ) (is_signed : Bool)
    → Extends o (assign_usage o u off size is_signed)
unfolding assign_usage
assign_usage-Extends o u off size is_signed = ground arith

assign_slots-Extends :
    (p : Parser) (start_bit left i : ℕ) (o : ReportLayout)
    → Extends o (assign_slots p start_bit left i o)
unfolding assign_slots
assign_slots-Extends p start_bit zero i o = Extends-refl o
assign_slots-Extends p start_bit (suc left) i o =
    Extends-trans o _ _
      (assign_usage-Extends o (usage_for_slot p i) (u32 (start_bit + i * p.g.report_size))
        p.g.report_size (is_negative p.g.logical_min))
      (assign_slots-Extends p start_bit left (i + 1) _)

lock_report-Extends : (o : ReportLayout) (id : ℕ) → Extends o (lock_report o id)
unfolding lock_report
lock_report-Extends o id = ground arith

assign_buttons-Extends :
    (o : ReportLayout) (start_bit size count : ℕ)
    → Extends o (assign_buttons o start_bit size count)
unfolding assign_buttons
assign_buttons-Extends o start_bit size count = ground arith

if_Extends :
    (o : ReportLayout) (test : Bool) (a b : ReportLayout)
    → Extends o a
    → Extends o b
    → Extends o (if test then a else b)
if_Extends o true a b ha hb = ha
if_Extends o false a b ha hb = hb

pub assign_input-Extends : (p : Parser) (start_bit : ℕ) → Extends p.out (assign_input p start_bit)
unfolding assign_input
assign_input-Extends p start_bit =
    let o = lock_report p.out p.g.report_id in
    Extends-trans p.out o _ (lock_report-Extends p.out p.g.report_id) (
      if_Extends o (p.g.usage_page == 0x09) _ _
        (assign_buttons-Extends o start_bit p.g.report_size p.g.report_count)
        (assign_slots-Extends p start_bit p.g.report_count 0 o))
