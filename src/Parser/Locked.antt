-- ===== src/Parser/Locked.antt =====
-- Over a whole map: what is recorded stays, and a closed application locks its layout.
use zmk_ble_hid_host.Base.{
  ℕ, suc, ◌≡◌, refl, ◌∙◌, List, [], ◌∷◌, length, arith, Bool, true, false, ltb, ◌==◌, if◌then◌else◌,
  some,
}
use zmk_ble_hid_host.Layout.{ReportLayout, KeyboardLayout}
use zmk_ble_hid_host.Parser.State.{GlobalState, Level, closed, Parser, item_u, is_open}
use zmk_ble_hid_host.Parser.Items.{
  Item, record_pointer, record_keyboard, main_input, main_collection, main_end_collection,
  handle_main, handle_global, handle_local, handle_item, push_global, pop_global,
}
use zmk_ble_hid_host.Parser.Walk.{walk}
use zmk_ble_hid_host.Parser.Termination.{walk-Ends}
use zmk_ble_hid_host.Parser.Locking.{Extends, Extends-refl, Extends-trans, assign_input-Extends}
use zmk_ble_hid_host.Parser.Locking.Keyboard.{
  KbdExtends, KbdExtends-refl, KbdExtends-trans, assign_kbd_input-KbdExtends,
}

-- What a later state `q` owes to an earlier one, `p`.
pub record Later (p q : Parser) : Type 0 where
  pub extends : Extends p.out q.out
  pub kbd_extends : KbdExtends p.out_kbd q.out_kbd
  pub mouse_closed : p.mouse_level ≡ closed → q.mouse_level ≡ closed
  pub mouse_locked : p.mouse_level ≡ closed → q.out ≡ p.out
  pub kbd_closed : p.kbd_level ≡ closed → q.kbd_level ≡ closed
  pub kbd_locked : p.kbd_level ≡ closed → q.out_kbd ≡ p.out_kbd

Later-trans : (p q r : Parser) → Later p q → Later q r → Later p r
Later-trans p q r a b = record {
  extends = Extends-trans p.out q.out r.out a.extends b.extends;
  kbd_extends = KbdExtends-trans p.out_kbd q.out_kbd r.out_kbd a.kbd_extends b.kbd_extends;
  mouse_closed = λ h. b.mouse_closed (a.mouse_closed h);
  mouse_locked = λ h. b.mouse_locked (a.mouse_closed h) ∙ a.mouse_locked h;
  kbd_closed = λ h. b.kbd_closed (a.kbd_closed h);
  kbd_locked = λ h. b.kbd_locked (a.kbd_closed h) ∙ a.kbd_locked h;
}

-- Items that write neither layout and close or keep the levels.
untouched :
    (p q : Parser)
    → q.out ≡ p.out
    → q.out_kbd ≡ p.out_kbd
    → (p.mouse_level ≡ closed → q.mouse_level ≡ closed)
    → (p.kbd_level ≡ closed → q.kbd_level ≡ closed)
    → Later p q
untouched p q out kbd mouse_closed kbd_closed = record {
  extends = rw out (Extends-refl p.out);
  kbd_extends = rw kbd (KbdExtends-refl p.out_kbd);
  mouse_closed = mouse_closed;
  mouse_locked = λ _. out;
  kbd_closed = kbd_closed;
  kbd_locked = λ _. kbd;
}

Later-refl : (p : Parser) → Later p p
Later-refl p = untouched p p refl refl (λ h. h) (λ h. h)

if_Later :
    (p : Parser) (test : Bool) (q r : Parser)
    → Later p q
    → Later p r
    → Later p (if test then q else r)
if_Later p true q r hq hr = hq
if_Later p false q r hq hr = hr

not_open : (l : Level) → l ≡ closed → is_open l ≡ false
not_open l h = ground arith

if_out :
    (p : Parser) (test : Bool) (o : ReportLayout)
    → Extends p.out o
    → (Extends p.out (if test then record p { out = o } else p).out)
      × (KbdExtends p.out_kbd (if test then record p { out = o } else p).out_kbd)
if_out p true o h = (h, KbdExtends-refl p.out_kbd)
if_out p false o h = (Extends-refl p.out, KbdExtends-refl p.out_kbd)

if_kbd :
    (p : Parser) (test : Bool) (o : KeyboardLayout)
    → KbdExtends p.out_kbd o
    → (Extends p.out (if test then record p { out_kbd = o } else p).out)
      × (KbdExtends p.out_kbd (if test then record p { out_kbd = o } else p).out_kbd)
if_kbd p true o h = (Extends-refl p.out, h)
if_kbd p false o h = (Extends-refl p.out, KbdExtends-refl p.out_kbd)

record_pointer-Later : (p : Parser) (flags : ℕ) → Later p (record_pointer p flags)
unfolding record_pointer
record_pointer-Later p flags = record {
  extends = (if_out p _ _ (assign_input-Extends p p.bit_cursor)).0;
  kbd_extends = (if_out p _ _ (assign_input-Extends p p.bit_cursor)).1;
  mouse_closed = ground arith;
  mouse_locked = λ h. ground (arith, not_open p.mouse_level h);
  kbd_closed = ground arith;
  kbd_locked = λ h. ground arith;
}

record_keyboard-Later : (p : Parser) (flags : ℕ) → Later p (record_keyboard p flags)
unfolding record_keyboard
record_keyboard-Later p flags = record {
  extends = (if_kbd p _ _ (assign_kbd_input-KbdExtends p p.bit_cursor flags)).0;
  kbd_extends = (if_kbd p _ _ (assign_kbd_input-KbdExtends p p.bit_cursor flags)).1;
  mouse_closed = ground arith;
  mouse_locked = λ h. ground arith;
  kbd_closed = ground arith;
  kbd_locked = λ h. ground (arith, not_open p.kbd_level h);
}

main_input-Later : (p : Parser) (payload : List ℕ) → Later p (main_input p payload)
unfolding main_input
main_input-Later p payload =
    let flags = item_u payload in
    let a = record_pointer-Later p flags in
    let b = record_keyboard-Later (record_pointer p flags) flags in
    Later-trans p _ _ (Later-trans p _ _ a b)
      (untouched (record_keyboard (record_pointer p flags) flags) _ refl refl (λ h. h) (λ h. h))

main_collection-Later : (p : Parser) (payload : List ℕ) → Later p (main_collection p payload)
unfolding main_collection
main_collection-Later p payload = untouched p _ refl refl (λ h. ground arith) (λ h. ground arith)

main_end_collection-Later : (p : Parser) → Later p (main_end_collection p)
unfolding main_end_collection
main_end_collection-Later p = untouched p _ refl refl (λ h. ground arith) (λ h. ground arith)

handle_main-Later : (p : Parser) (tag : ℕ) (payload : List ℕ) → Later p (handle_main p tag payload)
unfolding handle_main
handle_main-Later p tag payload =
    Later-trans p _ _
      (if_Later p (tag == 0x8) (main_input p payload) _ (main_input-Later p payload) (
        if_Later p (tag == 0xA) (main_collection p payload) _ (main_collection-Later p payload) (
          if_Later p (tag == 0xC) (main_end_collection p) p (main_end_collection-Later p)
            (Later-refl p))))
      (untouched _ _ refl refl (λ h. h) (λ h. h))

pop_global-Later : (p : Parser) (stack : List GlobalState) → Later p (pop_global stack p)
pop_global-Later p [] = Later-refl p
pop_global-Later p (g ∷ rest) = untouched p _ refl refl (λ h. h) (λ h. h)

push_global-Later : (p : Parser) → Later p (push_global p)
push_global-Later p =
    if_Later p (ltb (length p.stack) 8) _ p
      (untouched p (record p { stack = p.g ∷ p.stack }) refl refl (λ h. h) (λ h. h)) (Later-refl p)

handle_global-Later :
    (p : Parser) (tag : ℕ) (payload : List ℕ) → Later p (handle_global p tag payload)
unfolding handle_global
handle_global-Later p tag payload = if_Later p (tag == 0x0) _ _ same (
    if_Later p (tag == 0x1) _ _ same (
      if_Later p (tag == 0x7) _ _ same (
        if_Later p (tag == 0x9) _ _ same (
          if_Later p (tag == 0x8) _ _ same (
            if_Later p (tag == 0xA) _ _ (push_global-Later p)
              (if_Later p (tag == 0xB) _ p (pop_global-Later p p.stack) (Later-refl p)))))))
  where
    same :
        {g : GlobalState} {stack : List GlobalState} {cursor : ℕ}
        → Later p (record p { g = g; stack = stack; bit_cursor = cursor })
    same = untouched p _ refl refl (λ h. h) (λ h. h)

handle_local-Later :
    (p : Parser) (tag : ℕ) (payload : List ℕ) → Later p (handle_local p tag payload)
unfolding handle_local
handle_local-Later p tag payload =
    if_Later p (tag == 0x0) _ _ (if_Later p (ltb (length p.usages) 16) _ p same (Later-refl p))
      (if_Later p (tag == 0x1) _ _ same (if_Later p (tag == 0x2) _ p same (Later-refl p)))
  where
    same :
        {usages : List ℕ} {min max : ℕ} {given : Bool}
        → Later p (record p {
          usages = usages;
          usage_min = min;
          usage_max = max;
          has_usage_range = given;
        })
    same = untouched p _ refl refl (λ h. h) (λ h. h)

handle_item-Later : (p : Parser) (item : Item) → Later p (handle_item p item)
unfolding handle_item
handle_item-Later p item =
    if_Later p (item.type == 0) (handle_main p item.tag item.payload) _
      (handle_main-Later p item.tag item.payload)
      (if_Later p (item.type == 1) (handle_global p item.tag item.payload) _
        (handle_global-Later p item.tag item.payload)
        (if_Later p (item.type == 2) (handle_local p item.tag item.payload) p
          (handle_local-Later p item.tag item.payload) (Later-refl p)))

-- From any state of the parser and over any bytes that follow, the walk ends in a state in which
-- every field that was recorded is what it was (the first occurrence wins), in the pointer's layout
-- and in the keyboard's, and in which a layout whose application collection had closed is unchanged.
pub walk-Later :
    (bytes : List ℕ) (p : Parser)
    → (q : Parser) × (walk (suc (length bytes)) bytes p ≡ some q) × Later p q
walk-Later bytes p =
    let (n, q, ends, later) =
      walk-Ends (λ n q. Later p q) (λ n m q less h. h)
        (λ n m q item less h. Later-trans p q _ h (handle_item-Later q item)) (suc (length bytes))
        bytes p (omega arith) (Later-refl p) in
    (q, ends, later)
