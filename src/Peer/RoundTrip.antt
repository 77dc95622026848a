-- ===== src/Peer/RoundTrip.antt =====
-- What the device sends is what the decoder returns by the layout that the parser found.
use Prim.Native.Nat.{min}
use native.Mathlib.Nat.{pow-le-pow_right}
use zmk_ble_hid_host.Base.{
  ℕ, ◌+◌, ◌*◌, ◌/◌, ◌%◌, ◌^◌, ◌≤◌, ◌≡◌, ◌≢◌, refl, sym, ap, ◌∙◌, Option, none, some, length, arith,
  ◌==◌, if◌then◌else◌, After,
}
use zmk_ble_hid_host.Layout.{ReportLayout, PointerReport}
use zmk_ble_hid_host.Publish.Device.{Axis, rel_x, rel_y, rel_hwheel, rel_wheel}
use zmk_ble_hid_host.Decode.Pointer.{success, stride, payload_bits, decode_report}
use zmk_ble_hid_host.Decode.Value.{le_value, raw_field}
use zmk_ble_hid_host.Decode.Signs.{field_value}
use zmk_ble_hid_host.Decode.Exact.{IsNarrow, report_value, decode_report-exact}
use zmk_ble_hid_host.Peer.Desc.{
  Peer, map_items, report_bytes, report_length, report_number, total_width,
}
use zmk_ble_hid_host.Peer.Meant.{
  IsPeer, Placed, PlacedButtons, find_axis, find_buttons, field_of, value_of, button_field_of,
  button_count_of, mask_of, layout_of, meant,
}
use zmk_ble_hid_host.Peer.Bytes.{le_bytes-IsBytes, length-le_bytes, le_value-le_bytes}
use zmk_ble_hid_host.Peer.Numbers.{report_number-lt}
use zmk_ble_hid_host.Parser.Stream.{encode_all}
use zmk_ble_hid_host.Parser.Walk.{parse_report_map}
use zmk_ble_hid_host.Peer.Layout.{parse_report_map-map_items}
use zmk_ble_hid_host.Peer.Slots.{IsIn, ButtonsIn, placed_axis, placed_buttons}
use zmk_ble_hid_host.Peer.Reading.{
  as_value, as_value-raw, payload_bits-le, pressed_mask-low, low_low,
}

module _ (d : Peer) (v : IsPeer d) where
  bytes_number : le_value (report_bytes d) ≡ report_number d.groups
  bytes_number =
      le_value-le_bytes (report_length d) (report_number d.groups)
        (omega (arith, report_number-lt d.groups v.groups, enough))
    where
      enough : 2 ^ total_width d.groups ≤ 2 ^ (8 * report_length d)
      enough = pow-le-pow_right {n = 2} (omega arith) (omega arith)

  axis_inside :
      (q : Option Placed)
      → After (IsIn (report_number d.groups) (total_width d.groups)) q
      → ((field_of q).bit_size ≢ 0
          → (field_of q).bit_offset + (field_of q).bit_size ≤ total_width d.groups)
        × ((field_of q).bit_size ≤ 32)
  axis_inside none h = (λ present. absurd (present refl), omega arith)
  axis_inside (some f) h = (λ present. h.inside, h.narrow)

  axis_value :
      (q : Option Placed)
      → After (IsIn (report_number d.groups) (total_width d.groups)) q
      → field_value (report_bytes d) (field_of q) ≡ value_of q
  unfolding field_value raw_field as_value
  axis_value none h = refl
  axis_value (some f) h =
      ap (as_value (f.field).bit_size (f.field).is_signed) (
        ap (λ (t : ℕ). t / 2 ^ (f.field).bit_offset % 2 ^ (f.field).bit_size) bytes_number
        ∙ h.reads)
      ∙ as_value-raw (f.field).bit_size (f.field).is_signed f.value h.present h.holds

  buttons_inside :
      (b : Option PlacedButtons)
      → After (ButtonsIn (report_number d.groups) (total_width d.groups)) b
      → button_count_of b ≢ 0
      → (button_field_of b).bit_offset + button_count_of b * 1 ≤ total_width d.groups
  buttons_inside none h some_buttons = absurd (some_buttons refl)
  buttons_inside (some b) h some_buttons = omega (arith, h.inside)

  buttons_value :
      (b : Option PlacedButtons)
      → After (ButtonsIn (report_number d.groups) (total_width d.groups)) b
      → report_number d.groups / 2 ^ (button_field_of b).bit_offset % 2 ^ min (button_count_of b) 16
        ≡ mask_of b
  buttons_value none h = omega arith
  buttons_value (some b) h =
      ap (λ (k : ℕ). report_number d.groups / 2 ^ b.offset % 2 ^ k) (omega arith)
      ∙ sym (low_low (report_number d.groups / 2 ^ b.offset) b.count (min b.count 16) (omega arith))
      ∙ ap (λ (t : ℕ). t % 2 ^ min b.count 16) h.reads

  one_digit : stride (layout_of d) ≡ 1
  one_digit = unfold stride in by_group (find_buttons 0 d.groups)
    where
      by_group :
          (b : Option PlacedButtons)
          → (if (button_field_of b).bit_size == 0 then 1 else (button_field_of b).bit_size) ≡ 1
      by_group none = refl
      by_group (some b) = refl

  axis-IsIn :
      (a : Axis)
      → After (IsIn (report_number d.groups) (total_width d.groups)) (find_axis a 0 d.groups)
  axis-IsIn a = placed_axis a d.groups v.groups

  buttons-ButtonsIn :
      After (ButtonsIn (report_number d.groups) (total_width d.groups)) (find_buttons 0 d.groups)
  buttons-ButtonsIn = placed_buttons d.groups v.groups

  pub layout_of-le : payload_bits (layout_of d) ≤ total_width d.groups
  layout_of-le = payload_bits-le (layout_of d) (total_width d.groups) (record {
    x = (axis_inside (find_axis rel_x 0 d.groups) (axis-IsIn rel_x)).0;
    y = (axis_inside (find_axis rel_y 0 d.groups) (axis-IsIn rel_y)).0;
    wheel = (axis_inside (find_axis rel_wheel 0 d.groups) (axis-IsIn rel_wheel)).0;
    hwheel = (axis_inside (find_axis rel_hwheel 0 d.groups) (axis-IsIn rel_hwheel)).0;
    buttons = λ some_buttons.
        rw one_digit (buttons_inside (find_buttons 0 d.groups) buttons-ButtonsIn some_buttons);
  })

  pub layout_of-enough : payload_bits (layout_of d) ≤ 8 * length (report_bytes d)
  layout_of-enough =
      omega (arith, layout_of-le, length-le_bytes (report_length d) (report_number d.groups))

  pub layout_of-IsNarrow : IsNarrow (layout_of d)
  layout_of-IsNarrow = record {
    x = (axis_inside (find_axis rel_x 0 d.groups) (axis-IsIn rel_x)).1;
    y = (axis_inside (find_axis rel_y 0 d.groups) (axis-IsIn rel_y)).1;
    wheel = (axis_inside (find_axis rel_wheel 0 d.groups) (axis-IsIn rel_wheel)).1;
    hwheel = (axis_inside (find_axis rel_hwheel 0 d.groups) (axis-IsIn rel_hwheel)).1;
    buttons = omega (arith, one_digit);
  }

  pub report_value-report_bytes : report_value (report_bytes d) (layout_of d) ≡ meant d
  unfolding report_value
  report_value-report_bytes =
      same_parts _ _ (axis_value (find_axis rel_x 0 d.groups) (axis-IsIn rel_x))
        (axis_value (find_axis rel_y 0 d.groups) (axis-IsIn rel_y))
        (axis_value (find_axis rel_wheel 0 d.groups) (axis-IsIn rel_wheel))
        (axis_value (find_axis rel_hwheel 0 d.groups) (axis-IsIn rel_hwheel))
        (pressed_mask-low (report_bytes d) (layout_of d) _ one_digit
          ∙ ap
              (λ (t : ℕ).
                t
                / 2 ^ (button_field_of (find_buttons 0 d.groups)).bit_offset
                % 2 ^ min (button_count_of (find_buttons 0 d.groups)) 16)
              bytes_number
          ∙ buttons_value (find_buttons 0 d.groups) buttons-ButtonsIn)
    where
      same_parts :
          (r s : PointerReport)
          → r.dx ≡ s.dx
          → r.dy ≡ s.dy
          → r.wheel ≡ s.wheel
          → r.hwheel ≡ s.hwheel
          → r.buttons ≡ s.buttons
          → r ≡ s
      same_parts r s x y w h b = cc

-- A device that describes itself by a report map, with an X and a Y axis, and then sends a report is
-- understood: parsing the bytes of its map returns 0 with a layout, and decoding the bytes of its
-- report by that layout returns 0 with exactly the axis values and the buttons that the device
-- means, whatever the two output structs held.
pub decode-parse :
    (d : Peer) (x y : Placed) (o : ReportLayout) (out : PointerReport)
    → IsPeer d
    → find_axis rel_x 0 d.groups ≡ some x
    → find_axis rel_y 0 d.groups ≡ some y
    → (l : ReportLayout) × (parse_report_map (some (encode_all (map_items d))) (some o)
        ≡ some (record { code = success; out = some l }))
      × (decode_report (some l) (some (report_bytes d)) (some out)
          ≡ some (record { code = success; out = some (meant d) }))
decode-parse d x y o out v has_x has_y = (
  layout_of d,
  parse_report_map-map_items d x y o v has_x has_y,
  decode_report-exact (layout_of d) (report_bytes d) out
        (le_bytes-IsBytes (report_length d) (report_number d.groups)) (layout_of-enough d v) refl
        (layout_of-IsNarrow d v)
      ∙ ap (λ r. some (record { code = success; out = some r })) (report_value-report_bytes d v),
)
