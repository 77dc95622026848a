-- ===== src/Parser/Bounds/Steps.antt =====
-- What the global and the local items, and so any item, do to the invariant.
use zmk_ble_hid_host.Base.{
  ℕ, ◌≤◌, ◌<◌, List, [], ◌∷◌, length, All, arith, Bool, true, false, ltb, ◌==◌, if◌then◌else◌,
  length-append, lt→ltb, le→ltb,
}
use native.Mathlib.Decide.{dec_lt}
use zmk_ble_hid_host.Parser.State.{GlobalState, Parser}
use zmk_ble_hid_host.Parser.Items.{
  Item, handle_main, handle_global, handle_local, handle_item, pop_global, push_global, local_usage,
}
use zmk_ble_hid_host.Parser.Bounds.Fits.{InRange}
use zmk_ble_hid_host.Parser.Bounds.Main.{weaken-Inv, if_Inv, handle_main-Inv, Inv}

pop_global-Inv :
    (n : ℕ) (stack : List GlobalState) (p : Parser)
    → All InRange stack
    → length stack ≤ 8
    → Inv n p
    → Inv n (pop_global stack p)
pop_global-Inv n [] p saved few v = v
pop_global-Inv n (g ∷ rest) p saved few v = record {
  globals = saved.0;
  saved = saved.1;
  stack = omega arith;
  usages = v.usages;
  cursor = v.cursor;
  out = v.out;
  out_kbd = v.out_kbd;
}

-- A guarded write into an array of the parser.
guarded-Inv :
    (n size bound : ℕ) (p q : Parser)
    → Inv n p
    → (size < bound → Inv n q)
    → Inv n (if ltb size bound then q else p)
guarded-Inv n size bound p q v room = elim (dec_lt size bound) [
  | yes below ↦ rw (lt→ltb size bound below) (room below)
  | no full ↦ rw (le→ltb size bound (omega arith)) v
]

push_global-Inv : (n : ℕ) (p : Parser) → Inv n p → Inv n (push_global p)
push_global-Inv n p v = guarded-Inv n (length p.stack) 8 p _ v λ room. record {
  globals = v.globals;
  saved = (v.globals, v.saved);
  stack = room;
  usages = v.usages;
  cursor = v.cursor;
  out = v.out;
  out_kbd = v.out_kbd;
}

with_globals-Inv :
    (n cursor : ℕ) (p : Parser) (g : GlobalState)
    → Inv n p
    → InRange g
    → cursor ≤ p.bit_cursor
    → Inv n (record p { g = g; bit_cursor = cursor })
with_globals-Inv n cursor p g v r back = record {
  globals = r;
  saved = v.saved;
  stack = v.stack;
  usages = v.usages;
  cursor = omega (arith, v.cursor);
  out = v.out;
  out_kbd = v.out_kbd;
}

kept_cursor : (test : Bool) (cursor : ℕ) → (if test then cursor else 0) ≤ cursor
kept_cursor true cursor = omega arith
kept_cursor false cursor = omega arith

handle_global-Inv :
    (n : ℕ) (p : Parser) (tag : ℕ) (payload : List ℕ)
    → Inv n p
    → Inv n (handle_global p tag payload)
unfolding handle_global
handle_global-Inv n p tag payload v =
    if_Inv n (tag == 0x0) _ _
      (with_globals-Inv n p.bit_cursor p _ v
        (record { page = omega arith; size = r.size; count = r.count; id = r.id }) (omega arith))
      (if_Inv n (tag == 0x1) _ _
        (with_globals-Inv n p.bit_cursor p _ v
          (record { page = r.page; size = r.size; count = r.count; id = r.id }) (omega arith))
        (if_Inv n (tag == 0x7) _ _
          (with_globals-Inv n p.bit_cursor p _ v
            (record { page = r.page; size = omega arith; count = r.count; id = r.id })
            (omega arith))
          (if_Inv n (tag == 0x9) _ _
            (with_globals-Inv n p.bit_cursor p _ v
              (record { page = r.page; size = r.size; count = omega arith; id = r.id })
              (omega arith))
            (if_Inv n (tag == 0x8) _ _
              (with_globals-Inv n _ p _ v
                (record { page = r.page; size = r.size; count = r.count; id = omega arith })
                (kept_cursor _ p.bit_cursor))
              (if_Inv n (tag == 0xA) _ _ (push_global-Inv n p v)
                (if_Inv n (tag == 0xB) _ p (pop_global-Inv n p.stack p v.saved v.stack v) v))))))
  where
    r : InRange p.g
    r = v.globals

handle_local-Inv :
    (n : ℕ) (p : Parser) (tag : ℕ) (payload : List ℕ) → Inv n p → Inv n (handle_local p tag payload)
unfolding handle_local
handle_local-Inv n p tag payload v =
    if_Inv n (tag == 0x0) _ _
      (guarded-Inv n (length p.usages) 16 p _ v λ room. record {
        globals = v.globals;
        saved = v.saved;
        stack = v.stack;
        usages = omega (arith, length-append p.usages (local_usage p payload ∷ []));
        cursor = v.cursor;
        out = v.out;
        out_kbd = v.out_kbd;
      })
      (if_Inv n (tag == 0x1) _ _ same (if_Inv n (tag == 0x2) _ p same v))
  where
    same :
        {min max : ℕ} {given : Bool}
        → Inv n (record p { usage_min = min; usage_max = max; has_usage_range = given })
    same = record {
      globals = v.globals;
      saved = v.saved;
      stack = v.stack;
      usages = v.usages;
      cursor = v.cursor;
      out = v.out;
      out_kbd = v.out_kbd;
    }

pub handle_item-Inv :
    (n m : ℕ) (p : Parser) (item : Item) → m < n → Inv n p → Inv m (handle_item p item)
unfolding handle_item
handle_item-Inv n m p item less v =
    let w = weaken-Inv n m p less v in
    if_Inv m (item.type == 0) (handle_main p item.tag item.payload) _
      (handle_main-Inv n m p item.tag item.payload less v)
      (if_Inv m (item.type == 1) (handle_global p item.tag item.payload) _
        (handle_global-Inv m p item.tag item.payload w)
        (if_Inv m (item.type == 2) (handle_local p item.tag item.payload) p
          (handle_local-Inv m p item.tag item.payload w) w))
