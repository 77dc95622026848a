-- ===== src/Parser/Tests.antt =====
-- Runs of the parser on real descriptors.
use mathlib.Core.List.{foldl}
use zmk_ble_hid_host.Base.{ℕ, suc, ◌<◌, ◌≡◌, refl, List, [], ◌∷◌, some, length, All, inl, arith}
use zmk_ble_hid_host.Layout.{empty_layout, empty_kbd_layout}
use zmk_ble_hid_host.Decode.Pointer.{success}
use zmk_ble_hid_host.Decode.Tests.{mouse}
use zmk_ble_hid_host.Parser.State.{Parser, initial}
use zmk_ble_hid_host.Parser.Items.{Item, handle_item}
use zmk_ble_hid_host.Parser.Walk.{
  walk, run_parser, parse_report_map, parse_keyboard_report_map, pointer_result, keyboard_result,
}
use zmk_ble_hid_host.Parser.Bounds.Main.{Inv}
use zmk_ble_hid_host.Parser.Bounds.Result.{parse_report_map_total, run_parser-Inv}
use zmk_ble_hid_host.Parser.Locked.{Later, walk-Later}
use zmk_ble_hid_host.Parser.Stream.{IsShort, encode_all, run_parser-encode_all}

-- tests/parser/fixtures/ist_pro.report_map.hex
abbrev pub ist_pro_map : List ℕ
ist_pro_map =
    0x5 ∷ 0x1 ∷ 0x9 ∷ 0x6 ∷ 0xa1 ∷ 0x1 ∷ 0x85 ∷ 0x1 ∷ 0x5 ∷ 0x7 ∷ 0x19 ∷ 0xe0 ∷ 0x29 ∷ 0xe7 ∷ 0x15
    ∷ 0x0 ∷ 0x25 ∷ 0x1 ∷ 0x75 ∷ 0x1 ∷ 0x95 ∷ 0x8 ∷ 0x81 ∷ 0x2 ∷ 0x75 ∷ 0x8 ∷ 0x95 ∷ 0x1 ∷ 0x81 ∷ 0x1
    ∷ 0x19 ∷ 0x0 ∷ 0x2a ∷ 0xff ∷ 0x0 ∷ 0x15 ∷ 0x0 ∷ 0x26 ∷ 0xff ∷ 0x0 ∷ 0x75 ∷ 0x8 ∷ 0x95 ∷ 0x6
    ∷ 0x81 ∷ 0x0 ∷ 0x5 ∷ 0xc ∷ 0x75 ∷ 0x1 ∷ 0x95 ∷ 0x1 ∷ 0xa ∷ 0x9d ∷ 0x2 ∷ 0x15 ∷ 0x0 ∷ 0x25 ∷ 0x1
    ∷ 0x81 ∷ 0x2 ∷ 0x75 ∷ 0x7 ∷ 0x81 ∷ 0x1 ∷ 0x5 ∷ 0x7 ∷ 0x19 ∷ 0x0 ∷ 0x29 ∷ 0x97 ∷ 0x15 ∷ 0x0
    ∷ 0x25 ∷ 0x1 ∷ 0x75 ∷ 0x1 ∷ 0x95 ∷ 0x98 ∷ 0x81 ∷ 0x2 ∷ 0x5 ∷ 0x8 ∷ 0x19 ∷ 0x1 ∷ 0x29 ∷ 0x5
    ∷ 0x75 ∷ 0x1 ∷ 0x95 ∷ 0x5 ∷ 0x91 ∷ 0x2 ∷ 0x75 ∷ 0x3 ∷ 0x95 ∷ 0x1 ∷ 0x91 ∷ 0x1 ∷ 0x5 ∷ 0xc ∷ 0xa
    ∷ 0xc0 ∷ 0x2 ∷ 0xa1 ∷ 0x2 ∷ 0x1a ∷ 0xc1 ∷ 0x2 ∷ 0x2a ∷ 0xc6 ∷ 0x2 ∷ 0x15 ∷ 0x0 ∷ 0x26 ∷ 0xff
    ∷ 0x0 ∷ 0x75 ∷ 0x8 ∷ 0x95 ∷ 0x6 ∷ 0xb1 ∷ 0x3 ∷ 0xc0 ∷ 0xc0 ∷ 0x5 ∷ 0x1 ∷ 0x9 ∷ 0x2 ∷ 0xa1 ∷ 0x1
    ∷ 0x85 ∷ 0x2 ∷ 0x9 ∷ 0x1 ∷ 0xa1 ∷ 0x0 ∷ 0x5 ∷ 0x9 ∷ 0x19 ∷ 0x1 ∷ 0x29 ∷ 0x8 ∷ 0x15 ∷ 0x0 ∷ 0x25
    ∷ 0x1 ∷ 0x95 ∷ 0x8 ∷ 0x75 ∷ 0x1 ∷ 0x81 ∷ 0x2 ∷ 0x5 ∷ 0x1 ∷ 0x16 ∷ 0x1 ∷ 0x80 ∷ 0x26 ∷ 0xff
    ∷ 0x7f ∷ 0x75 ∷ 0x10 ∷ 0x95 ∷ 0x2 ∷ 0x9 ∷ 0x30 ∷ 0x9 ∷ 0x31 ∷ 0x81 ∷ 0x6 ∷ 0x15 ∷ 0x81 ∷ 0x25
    ∷ 0x7f ∷ 0x75 ∷ 0x8 ∷ 0x95 ∷ 0x1 ∷ 0x9 ∷ 0x38 ∷ 0x81 ∷ 0x6 ∷ 0x5 ∷ 0xc ∷ 0xa ∷ 0x38 ∷ 0x2 ∷ 0x95
    ∷ 0x1 ∷ 0x81 ∷ 0x6 ∷ 0xc0 ∷ 0xc0 ∷ 0x5 ∷ 0xc ∷ 0x9 ∷ 0x1 ∷ 0xa1 ∷ 0x1 ∷ 0x85 ∷ 0x6 ∷ 0x19 ∷ 0x0
    ∷ 0x2a ∷ 0xff ∷ 0x3 ∷ 0x15 ∷ 0x0 ∷ 0x26 ∷ 0xff ∷ 0x3 ∷ 0x75 ∷ 0x10 ∷ 0x95 ∷ 0x1 ∷ 0x81 ∷ 0x0
    ∷ 0xc0 ∷ 0x5 ∷ 0x1 ∷ 0x9 ∷ 0x80 ∷ 0xa1 ∷ 0x1 ∷ 0x85 ∷ 0x4 ∷ 0x19 ∷ 0x81 ∷ 0x29 ∷ 0x8f ∷ 0x19
    ∷ 0xa0 ∷ 0x29 ∷ 0xa2 ∷ 0x9 ∷ 0xa7 ∷ 0x9 ∷ 0xa8 ∷ 0x9 ∷ 0x97 ∷ 0x9 ∷ 0x9a ∷ 0x15 ∷ 0x0 ∷ 0x25
    ∷ 0x1 ∷ 0x75 ∷ 0x1 ∷ 0x95 ∷ 0x16 ∷ 0x81 ∷ 0x2 ∷ 0x9 ∷ 0x9b ∷ 0x9 ∷ 0xa9 ∷ 0x9 ∷ 0xaa ∷ 0x95
    ∷ 0x3 ∷ 0x81 ∷ 0x6 ∷ 0x95 ∷ 0x1 ∷ 0x75 ∷ 0x7 ∷ 0x81 ∷ 0x1 ∷ 0x9 ∷ 0x98 ∷ 0x75 ∷ 0x1 ∷ 0x81 ∷ 0x2
    ∷ 0x75 ∷ 0x7 ∷ 0x81 ∷ 0x1 ∷ 0xc0 ∷ 0x6 ∷ 0x0 ∷ 0xff ∷ 0x9 ∷ 0x3 ∷ 0xa1 ∷ 0x1 ∷ 0x75 ∷ 0x8 ∷ 0x95
    ∷ 0x10 ∷ 0x85 ∷ 0x9 ∷ 0x9 ∷ 0x1 ∷ 0x81 ∷ 0x2 ∷ 0xc0 ∷ 0x6 ∷ 0x0 ∷ 0xff ∷ 0x9 ∷ 0x2 ∷ 0xa1 ∷ 0x1
    ∷ 0x15 ∷ 0x0 ∷ 0x25 ∷ 0xff ∷ 0x75 ∷ 0x8 ∷ 0x95 ∷ 0x3f ∷ 0x85 ∷ 0x5 ∷ 0x9 ∷ 0x1 ∷ 0xb1 ∷ 0x2
    ∷ 0xc0 ∷ []

-- The layout that the documentation gives for this device.
ist_pro_parsed :
    parse_report_map (some ist_pro_map) (some empty_layout)
    ≡ some (record { code = success; out = some mouse })
unfolding parse_report_map
ist_pro_parsed = refl

parse_report_map_total_example :
    (p : Parser) × (run_parser ist_pro_map ≡ some p)
    × (parse_report_map (some ist_pro_map) (some empty_layout) ≡ some (pointer_result p))
    × (parse_keyboard_report_map (some ist_pro_map) (some empty_kbd_layout)
        ≡ some (keyboard_result p))
parse_report_map_total_example = parse_report_map_total ist_pro_map empty_layout empty_kbd_layout

run_parser-Inv_example : (n : ℕ) × (p : Parser) × (run_parser ist_pro_map ≡ some p) × Inv n p
run_parser-Inv_example = run_parser-Inv ist_pro_map (omega arith)

walk-Later_example :
    (q : Parser) × (walk (suc (length ist_pro_map)) ist_pro_map initial ≡ some q) × Later initial q
walk-Later_example = walk-Later ist_pro_map initial

-- Usage Page (Generic Desktop), Usage (Mouse), Collection (Application).
abbrev opening : List Item
opening =
    record { type = 1; tag = 0; payload = 1 ∷ [] }
    ∷ record { type = 2; tag = 0; payload = 2 ∷ [] }
    ∷ record { type = 0; tag = 10; payload = 1 ∷ [] }
    ∷ []

opening-IsShort : All IsShort opening
opening-IsShort = (
  short 1 0 1 (omega arith) (omega arith),
  (short 2 0 2 (omega arith) (omega arith), (short 0 10 1 (omega arith) (omega arith), tt)),
)
  where
    short :
        (type tag byte : ℕ)
        → type < 3
        → tag < 15
        → IsShort (record { type = type; tag = tag; payload = byte ∷ [] })
    short type tag byte a b = record {
      type = omega arith;
      tag = omega arith;
      size = inl (omega arith);
      not_long = λ e. omega (arith, e);
    }

run_parser-encode_all_example :
    run_parser (encode_all opening) ≡ some (foldl handle_item initial opening)
run_parser-encode_all_example = run_parser-encode_all opening opening-IsShort
