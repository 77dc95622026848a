-- ===== src/Parser/Bounds/Main.antt =====
-- The invariant of the parser, and what the main items do to it.
use zmk_ble_hid_host.Base.{
  ℕ, ◌+◌, ◌*◌, ◌≤◌, ◌<◌, List, length, All, arith, Bool, true, false, ◌==◌, if◌then◌else◌,
}
use zmk_ble_hid_host.Parser.State.{Parser, clear_local, initial, item_u}
use zmk_ble_hid_host.Parser.Fields.{assign_input, assign_kbd_input}
use zmk_ble_hid_host.Parser.Items.{
  record_pointer, record_keyboard, advance, main_input, main_collection, main_end_collection,
  handle_main,
}
use zmk_ble_hid_host.Parser.Bounds.Fits.{
  LayoutFits, KeyboardFits, InRange, assign_input-LayoutFits, assign_kbd_input-KeyboardFits,
}

-- With `n` bytes of the map to go: an item takes a byte at least and adds at most 255 * 255 bits, so
-- a map of at most 65535 bytes cannot bring the cursor near the wrap.
pub record Inv (n : ℕ) (p : Parser) : Type 0 where
  pub globals : InRange p.g
  pub saved : All InRange p.stack
  pub stack : length p.stack ≤ 8
  pub usages : length p.usages ≤ 16
  pub cursor : p.bit_cursor + 65025 * n ≤ 65025 * 65535
  pub out : LayoutFits p.out
  pub out_kbd : KeyboardFits p.out_kbd

pub initial-Inv : (n : ℕ) → n ≤ 65535 → Inv n initial
initial-Inv n h = omega arith

pub clear_local-Inv : (n : ℕ) (p : Parser) → Inv n p → Inv n (clear_local p)
unfolding clear_local
clear_local-Inv n p v = record {
  globals = v.globals;
  saved = v.saved;
  stack = v.stack;
  usages = omega arith;
  cursor = v.cursor;
  out = v.out;
  out_kbd = v.out_kbd;
}

pub weaken-Inv : (n m : ℕ) (p : Parser) → m < n → Inv n p → Inv m p
weaken-Inv n m p less v = record {
  globals = v.globals;
  saved = v.saved;
  stack = v.stack;
  usages = v.usages;
  cursor = omega (arith, v.cursor);
  out = v.out;
  out_kbd = v.out_kbd;
}

pub if_Inv :
    (n : ℕ) (test : Bool) (p q : Parser) → Inv n p → Inv n q → Inv n (if test then p else q)
if_Inv n true p q hp hq = hp
if_Inv n false p q hp hq = hq

pub record_pointer-Inv : (n : ℕ) (p : Parser) (flags : ℕ) → Inv n p → Inv n (record_pointer p flags)
unfolding record_pointer
record_pointer-Inv n p flags v =
    if_Inv n _ (record p { out = assign_input p p.bit_cursor }) p
      (record {
        globals = v.globals;
        saved = v.saved;
        stack = v.stack;
        usages = v.usages;
        cursor = v.cursor;
        out = assign_input-LayoutFits p p.bit_cursor v.out v.globals (omega (arith, v.cursor));
        out_kbd = v.out_kbd;
      })
      v

pub record_keyboard-Inv :
    (n : ℕ) (p : Parser) (flags : ℕ) → Inv n p → Inv n (record_keyboard p flags)
unfolding record_keyboard
record_keyboard-Inv n p flags v =
    if_Inv n _ (record p { out_kbd = assign_kbd_input p p.bit_cursor flags }) p
      (record {
        globals = v.globals;
        saved = v.saved;
        stack = v.stack;
        usages = v.usages;
        cursor = v.cursor;
        out = v.out;
        out_kbd =
            assign_kbd_input-KeyboardFits p p.bit_cursor flags v.out_kbd v.globals
              (omega (arith, v.cursor));
      })
      v

pub advance-le : (cursor total_bits : ℕ) → advance cursor total_bits ≤ cursor + total_bits
unfolding advance
advance-le cursor total_bits = ground arith

pub item_bits : (size count : ℕ) → size < 256 → count < 256 → size * count ≤ 65025
item_bits size count h k = grind arith

pub main_input-Inv :
    (n m : ℕ) (p : Parser) (payload : List ℕ) → m < n → Inv n p → Inv m (main_input p payload)
unfolding main_input
main_input-Inv n m p payload less v = record {
  globals = w.globals;
  saved = w.saved;
  stack = w.stack;
  usages = w.usages;
  cursor = omega (
    arith,
    w.cursor,
    advance-le q.bit_cursor (q.g.report_size * q.g.report_count),
    item_bits q.g.report_size q.g.report_count w.globals.size w.globals.count,
  );
  out = w.out;
  out_kbd = w.out_kbd;
}
  where
    q : Parser
    q = record_keyboard (record_pointer p (item_u payload)) (item_u payload)

    w : Inv n q
    w = record_keyboard-Inv n _ (item_u payload) (record_pointer-Inv n p (item_u payload) v)

pub main_collection-Inv :
    (n : ℕ) (p : Parser) (payload : List ℕ) → Inv n p → Inv n (main_collection p payload)
unfolding main_collection
main_collection-Inv n p payload v = record {
  globals = v.globals;
  saved = v.saved;
  stack = v.stack;
  usages = v.usages;
  cursor = v.cursor;
  out = v.out;
  out_kbd = v.out_kbd;
}

pub main_end_collection-Inv : (n : ℕ) (p : Parser) → Inv n p → Inv n (main_end_collection p)
unfolding main_end_collection
main_end_collection-Inv n p v = record {
  globals = v.globals;
  saved = v.saved;
  stack = v.stack;
  usages = v.usages;
  cursor = v.cursor;
  out = v.out;
  out_kbd = v.out_kbd;
}

pub handle_main-Inv :
    (n m : ℕ) (p : Parser) (tag : ℕ) (payload : List ℕ)
    → m < n
    → Inv n p
    → Inv m (handle_main p tag payload)
unfolding handle_main
handle_main-Inv n m p tag payload less v =
    let w = weaken-Inv n m p less v in
    clear_local-Inv m _ (
      if_Inv m (tag == 0x8) (main_input p payload) _ (main_input-Inv n m p payload less v) (
        if_Inv m (tag == 0xA) (main_collection p payload) _ (main_collection-Inv m p payload w)
          (if_Inv m (tag == 0xC) (main_end_collection p) p (main_end_collection-Inv m p w) w)))
