-- ===== src/Decode/Tests.antt =====
-- Runs of the decoder on reports of the layout that the documentation gives for the IST PRO.
use zmk_ble_hid_host.Base.{
  ℕ, ◌*◌, ◌≤◌, ◌≡◌, ◌++◌, refl, List, [], ◌∷◌, some, none, true, false, arith, length, inl, inr,
  if◌then◌else◌, ◌==◌, take, u8,
}
use zmk_ble_hid_host.Base.Signed.{pos, negsuc}
use zmk_ble_hid_host.Layout.{
  KeyboardLayout, KeyboardReport, empty_kbd_report, Field, ReportLayout, empty_report, no_field,
}
use zmk_ble_hid_host.Decode.Extract.{gather, sign_extend}
use zmk_ble_hid_host.Decode.Pointer.{
  Returned, success, failure, payload_bits, stride, decode_report,
}
use zmk_ble_hid_host.Decode.Value.{IsBytes}
use zmk_ble_hid_host.Decode.Signs.{field_value}
use zmk_ble_hid_host.Decode.Exact.{IsNarrow, report_value, decode_report-exact}
use zmk_ble_hid_host.Decode.Refusals.{decode_report_refuses, decode_report_wide}
use zmk_ble_hid_host.Decode.Trailing.{decode_report-append}
use zmk_ble_hid_host.Decode.Keyboard.{uint32, kbd_payload_bits, decode_keyboard_report}
use zmk_ble_hid_host.Decode.Keycodes.{codes, noted, decode_keyboard_report-exact}
use zmk_ble_hid_host.Decode.Keys.{KeysFit, decode_keyboard_report_total}

abbrev signed_field : ℕ → ℕ → Field
signed_field offset size = record { bit_offset = offset; bit_size = size; is_signed = true }

abbrev pub mouse : ReportLayout
mouse = record {
  report_id = 2;
  x = signed_field 8 16;
  y = signed_field 24 16;
  wheel = signed_field 40 8;
  hwheel = signed_field 48 8;
  buttons = record { bit_offset = 0; bit_size = 1; is_signed = false };
  button_count = 8;
  valid = true;
}

-- Buttons 0 and 4 held, one step left, two down, wheel -127.
abbrev pub payload : List ℕ
payload = 0x11 ∷ 0xff ∷ 0xff ∷ 2 ∷ 0 ∷ 0x81 ∷ 0 ∷ []

decoded :
    decode_report (some mouse) (some payload) (some empty_report)
    ≡ some (record {
      code = success;
      out = some (record {
        dx = negsuc 0;
        dy = pos 2;
        wheel = negsuc 126;
        hwheel = pos 0;
        buttons = 0x11;
      });
    })
unfolding decode_report gather sign_extend
decoded = refl

pub payload-IsBytes : IsBytes payload
payload-IsBytes = (
  omega arith,
  (omega arith, (omega arith, (omega arith, (omega arith, (omega arith, (omega arith, tt)))))),
)

payload_bits-mouse : payload_bits mouse ≡ 56
unfolding payload_bits
payload_bits-mouse = refl

pub payload_enough : payload_bits mouse ≤ 8 * length payload
payload_enough = omega (arith, payload_bits-mouse)

stride-mouse : stride mouse ≡ 1
unfolding stride
stride-mouse = refl

pub mouse-IsNarrow : IsNarrow mouse
mouse-IsNarrow = record {
  x = omega arith;
  y = omega arith;
  wheel = omega arith;
  hwheel = omega arith;
  buttons = omega (arith, stride-mouse);
}

decode_report-exact_example :
    decode_report (some mouse) (some payload) (some empty_report)
    ≡ some (record { code = success; out = some (report_value payload mouse) })
decode_report-exact_example =
    decode_report-exact mouse payload empty_report payload-IsBytes payload_enough refl
      mouse-IsNarrow

decode_report_refuses_example :
    decode_report (some mouse) (some (1 ∷ 2 ∷ [])) (some empty_report)
    ≡ some (record { code = failure; out = some (if true then empty_report else empty_report) })
decode_report_refuses_example =
    decode_report_refuses mouse (1 ∷ 2 ∷ []) empty_report (inr (omega (arith, payload_bits-mouse)))

-- A layout whose X field has 40 bits.
abbrev wide_mouse : ReportLayout
wide_mouse = record {
  report_id = 0;
  x = signed_field 0 40;
  y = signed_field 40 8;
  wheel = no_field;
  hwheel = no_field;
  buttons = no_field;
  button_count = 0;
  valid = true;
}

payload_bits-wide_mouse : payload_bits wide_mouse ≡ 48
unfolding payload_bits
payload_bits-wide_mouse = refl

decode_report_wide_example :
    decode_report (some wide_mouse) (some payload) (some empty_report) ≡ none
decode_report_wide_example =
    decode_report_wide wide_mouse payload empty_report refl (inl (omega arith))
      (omega (arith, payload_bits-wide_mouse))

decode_report-append_example :
    decode_report (some mouse) (some (payload ++ (7 ∷ []))) (some empty_report)
    ≡ decode_report (some mouse) (some payload) (some empty_report)
decode_report-append_example =
    decode_report-append mouse payload (7 ∷ []) empty_report payload_enough

-- A boot keyboard: a modifier byte, a reserved byte, six keycodes.
abbrev keyboard : KeyboardLayout
keyboard = record {
  report_id = 1;
  modifiers = record { bit_offset = 0; bit_size = 8; is_signed = false };
  keys = record { bit_offset = 16; bit_size = 8; is_signed = false };
  key_count = 6;
  valid = true;
}

abbrev typed : List ℕ
typed = 2 ∷ 0 ∷ 4 ∷ 0 ∷ 1 ∷ 5 ∷ 0 ∷ 0 ∷ []

decoded_keys :
    decode_keyboard_report (some keyboard) (some typed) (some empty_kbd_report)
    ≡ some (record { code = success; out = some (record { modifiers = 2; keys = 4 ∷ 5 ∷ [] }) })
unfolding decode_keyboard_report gather sign_extend
decoded_keys = refl

decode_keyboard_report_total_example :
    (r : Returned KeyboardReport) × (decode_keyboard_report
        (some keyboard)
        (some typed)
        (some empty_kbd_report)
      ≡ some r)
    × KeysFit r.out
decode_keyboard_report_total_example =
    decode_keyboard_report_total keyboard typed empty_kbd_report (omega arith) (omega arith)
      (omega arith)

typed-IsBytes : IsBytes typed
typed-IsBytes = (
  omega arith,
  (
    omega arith,
    (omega arith, (omega arith, (omega arith, (omega arith, (omega arith, (omega arith, tt)))))),
  ),
)

kbd_payload_bits-keyboard : kbd_payload_bits keyboard ≡ 64
unfolding kbd_payload_bits
kbd_payload_bits-keyboard = refl

decode_keyboard_report-exact_example :
    decode_keyboard_report (some keyboard) (some typed) (some empty_kbd_report)
    ≡ some (record {
      code = success;
      out = some (record {
        modifiers =
            if keyboard.modifiers.bit_size == 0
            then 0
            else u8 (uint32 (field_value typed keyboard.modifiers));
        keys = take 16 (noted (codes typed keyboard 6 0));
      });
    })
decode_keyboard_report-exact_example =
    decode_keyboard_report-exact keyboard typed empty_kbd_report typed-IsBytes
      (omega (arith, kbd_payload_bits-keyboard)) refl (omega arith) (omega arith) (omega arith)
