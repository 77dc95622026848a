-- ===== src/Parser/Bounds/Result.antt =====
-- The two entry points on maps of any length, and on maps below 64 KiB.
use zmk_ble_hid_host.Base.{ℕ, suc, ◌≤◌, ◌≡◌, some, List, length, arith, ◌>>=◌, ap}
use zmk_ble_hid_host.Layout.{ReportLayout, KeyboardLayout}
use zmk_ble_hid_host.Parser.State.{Parser, initial}
use zmk_ble_hid_host.Parser.Walk.{
  run_parser, parse_report_map, parse_keyboard_report_map, pointer_result, keyboard_result,
}
use zmk_ble_hid_host.Parser.Termination.{walk-Ends}
use zmk_ble_hid_host.Parser.Bounds.Main.{Inv, initial-Inv, weaken-Inv}
use zmk_ble_hid_host.Parser.Bounds.Steps.{handle_item-Inv}

-- The item loop ends within one round more than the map has bytes, on every map: both entry points
-- return a code and a layout, and the layout is that of the same final parser state.
pub parse_report_map_total :
    (report_map : List ℕ) (out : ReportLayout) (kbd : KeyboardLayout)
    → (p : Parser) × (run_parser report_map ≡ some p)
      × (parse_report_map (some report_map) (some out) ≡ some (pointer_result p))
      × (parse_keyboard_report_map (some report_map) (some kbd) ≡ some (keyboard_result p))
unfolding run_parser parse_report_map parse_keyboard_report_map
parse_report_map_total report_map out kbd =
    let (n, p, ends, done) =
      walk-Ends (λ n q. Unit {0}) (λ n m q less h. tt) (λ n m q item less h. tt)
        (suc (length report_map)) report_map initial (omega arith) tt in
    (
      p,
      ends,
      ap (λ r. r >>= λ q. some (pointer_result q)) ends,
      ap (λ r. r >>= λ q. some (keyboard_result q)) ends,
    )

-- From a map of at most 65535 bytes (the central passes at most 512) the parser ends in a state
-- where no field ends beyond bit 65535, no array was overrun and the bit cursor has not wrapped.
pub run_parser-Inv :
    (report_map : List ℕ)
    → length report_map ≤ 65535
    → (n : ℕ) × (p : Parser) × (run_parser report_map ≡ some p) × Inv n p
unfolding run_parser
run_parser-Inv report_map h =
    walk-Ends Inv weaken-Inv handle_item-Inv (suc (length report_map)) report_map initial
      (omega arith) (initial-Inv (length report_map) h)
