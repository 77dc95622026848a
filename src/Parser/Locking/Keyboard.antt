-- ===== src/Parser/Locking/Keyboard.antt =====
-- The keyboard's half: the guards of assign_kbd_input keep what is recorded of its layout.
use zmk_ble_hid_host.Base.{
  ℕ, ◌≡◌, ◌≢◌, refl, sym, ◌∙◌, ap, arith, Bool, true, false, ◌&&◌, ◌==◌, if◌then◌else◌, meets,
}
use zmk_ble_hid_host.Layout.{Field, KeyboardLayout}
use zmk_ble_hid_host.Parser.State.{Parser}
use zmk_ble_hid_host.Parser.Tags.{hid_io_variable}
use zmk_ble_hid_host.Parser.Fields.{
  page_keyboard, kbd_usages_are_modifiers, lock_kbd_report, assign_modifiers, assign_keys,
  assign_kbd_input,
}
use zmk_ble_hid_host.Parser.Locking.{Keeps, Keeps-trans}

pub record KbdExtends (o o' : KeyboardLayout) : Type 0 where
  pub modifiers : Keeps o.modifiers o'.modifiers
  pub keys : o.keys.bit_size ≢ 0 → (o'.keys ≡ o.keys) × (o'.key_count ≡ o.key_count)
  pub id : o.report_id ≢ 0 → o'.report_id ≡ o.report_id

pub KbdExtends-refl : (o : KeyboardLayout) → KbdExtends o o
KbdExtends-refl o = record { modifiers = λ _. refl; keys = λ _. (refl, refl); id = λ _. refl }

pub KbdExtends-trans : (o p q : KeyboardLayout) → KbdExtends o p → KbdExtends p q → KbdExtends o q
KbdExtends-trans o p q a b = record {
  modifiers = Keeps-trans o.modifiers p.modifiers q.modifiers a.modifiers b.modifiers;
  keys = λ h.
      let (same, count) = a.keys h in
      let (same', count') = b.keys (λ e. h (ap (λ (t : Field). t.bit_size) (sym same) ∙ e)) in
      (same' ∙ same, count' ∙ count);
  id = λ h. let same = a.id h in b.id (λ e. h (sym same ∙ e)) ∙ same;
}

lock_kbd_report-KbdExtends : (o : KeyboardLayout) (id : ℕ) → KbdExtends o (lock_kbd_report o id)
unfolding lock_kbd_report
lock_kbd_report-KbdExtends o id = ground arith

-- A layout without modifiers may be given some.
assign_modifiers-KbdExtends :
    (o : KeyboardLayout) (start_bit size count : ℕ)
    → o.modifiers.bit_size ≡ 0
    → KbdExtends o (assign_modifiers o start_bit size count)
unfolding assign_modifiers
assign_modifiers-KbdExtends o start_bit size count absent = ground arith

assign_keys-KbdExtends :
    (o : KeyboardLayout) (start_bit size count : ℕ)
    → o.keys.bit_size ≡ 0
    → KbdExtends o (assign_keys o start_bit size count)
unfolding assign_keys
assign_keys-KbdExtends o start_bit size count absent = ground arith

guarded :
    (o a b : KeyboardLayout) (test : Bool)
    → (test ≡ true → KbdExtends o a)
    → KbdExtends o b
    → KbdExtends o (if test then a else b)
guarded o a b true ha hb = ha refl
guarded o a b false ha hb = hb

middle : (a c : Bool) (n : ℕ) → (a && n == 0 && c) ≡ true → n ≡ 0
middle a c n h = ground (arith, h)

last : (a : Bool) (n : ℕ) → (a && n == 0) ≡ true → n ≡ 0
last a n h = ground (arith, h)

pub assign_kbd_input-KbdExtends :
    (p : Parser) (start_bit flags : ℕ) → KbdExtends p.out_kbd (assign_kbd_input p start_bit flags)
unfolding assign_kbd_input
assign_kbd_input-KbdExtends p start_bit flags =
    let o = lock_kbd_report p.out_kbd p.g.report_id in
    let on_page = p.g.usage_page == page_keyboard in
    KbdExtends-trans p.out_kbd o _ (lock_kbd_report-KbdExtends p.out_kbd p.g.report_id) (
      guarded o _ _ (meets flags hid_io_variable)
        (λ _.
          guarded o _ o (on_page && o.modifiers.bit_size == 0 && kbd_usages_are_modifiers p)
            (λ t.
              assign_modifiers-KbdExtends o start_bit p.g.report_size p.g.report_count
                (middle on_page (kbd_usages_are_modifiers p) o.modifiers.bit_size t))
            (KbdExtends-refl o))
        (guarded o _ o (on_page && o.keys.bit_size == 0)
          (λ t.
            assign_keys-KbdExtends o start_bit p.g.report_size p.g.report_count
              (last on_page o.keys.bit_size t))
          (KbdExtends-refl o)))
