-- ===== src/Parser/Walk.antt =====
-- `run_parser` and the two public entry points. The bytes from index `i` on are the list that is
-- left, so `i + n > len` is a list shorter than n.
use zmk_ble_hid_host.Base.{
  ℕ, zero, suc, ◌+◌, ◌%◌, Bool, not, ◌&&◌, Option, none, some, List, [], ◌∷◌, length, take, drop,
  ltb, ◌==◌, if◌then◌else◌, ◌>>>◌, ◌>>=◌,
}
use zmk_ble_hid_host.Layout.{ReportLayout, KeyboardLayout}
use zmk_ble_hid_host.Decode.Pointer.{Returned, success, failure}
use zmk_ble_hid_host.Parser.State.{Parser, initial}
use zmk_ble_hid_host.Parser.Tags.{hid_item_long}
use zmk_ble_hid_host.Parser.Items.{Item, handle_item}

-- What stands at the head of the bytes: the end or a truncated item, a long item to pass over, or a
-- short item; and the bytes after it.
pub data Next : Type 0 where
  stop : Next
  skip : List ℕ → Next
  take_item : Item → List ℕ → Next

-- 0xFE, bDataSize, bLongItemTag, then bDataSize bytes.
unfoldable pub next_long : List ℕ → Next
next_long [] = stop
next_long (dsize ∷ rest) = skip (drop (1 + dsize) rest)

unfoldable pub next_short : ℕ → List ℕ → Next
next_short prefix rest =
    let bsize = prefix % 4 in
    let data_len = if bsize == 3 then 4 else bsize in
    if ltb (length rest) data_len
    then stop
    else take_item
        (record {
          type = (prefix >>> 2) % 4;
          tag = (prefix >>> 4) % 16;
          payload = take data_len rest;
        })
        (drop data_len rest)

unfoldable pub next_item : List ℕ → Next
unfolding next_long next_short
next_item [] = stop
next_item (prefix ∷ rest) =
    if prefix == hid_item_long then next_long rest else next_short prefix rest

-- One round: leave the loop, or go on with what `continue_with` makes of the bytes left.
unfoldable pub resume : (List ℕ → Parser → Option Parser) → Next → Parser → Option Parser
unfolding handle_item
resume continue_with stop p = some p
resume continue_with (skip rest) p = continue_with rest p
resume continue_with (take_item item rest) p = continue_with rest (handle_item p item)

-- The item loop on fuel; `none` is fuel run out.
unfoldable pub walk : ℕ → List ℕ → Parser → Option Parser
unfolding next_item resume
walk zero bytes p = none
walk (suc fuel) bytes p = resume (walk fuel) (next_item bytes) p

-- Each round takes a byte at least, so one more than the length is enough fuel.
unfoldable pub run_parser : List ℕ → Option Parser
unfolding walk
run_parser report_map = walk (suc (length report_map)) report_map initial

abbrev pub pointer_found : Parser → Bool
pointer_found p = not (p.out.x.bit_size == 0) && not (p.out.y.bit_size == 0) && p.depth == 0

abbrev pub keyboard_found : Parser → Bool
keyboard_found p = not (p.out_kbd.keys.bit_size == 0) && p.depth == 0

abbrev pub pointer_result : Parser → Returned ReportLayout
pointer_result p = record {
  code = if pointer_found p then success else failure;
  out = some (record (p.out) { valid = pointer_found p });
}

abbrev pub keyboard_result : Parser → Returned KeyboardLayout
keyboard_result p = record {
  code = if keyboard_found p then success else failure;
  out = some (record (p.out_kbd) { valid = keyboard_found p });
}

unfoldable pub parse_report_map :
    Option (List ℕ) → Option ReportLayout → Option (Returned ReportLayout)
unfolding run_parser
parse_report_map (some report_map) (some out) =
    run_parser report_map >>= λ p. some (pointer_result p)
parse_report_map _ out = some (record { code = failure; out = out })

unfoldable pub parse_keyboard_report_map :
    Option (List ℕ) → Option KeyboardLayout → Option (Returned KeyboardLayout)
unfolding run_parser
parse_keyboard_report_map (some report_map) (some out) =
    run_parser report_map >>= λ p. some (keyboard_result p)
parse_keyboard_report_map _ out = some (record { code = failure; out = out })
