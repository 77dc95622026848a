-- ===== src/Peer/Tests.antt =====
-- The example of the HID specification, and a mouse with 12-bit axes on a link with the central.
use zmk_ble_hid_host.Base.{
  ℕ, ◌≤◌, ◌≡◌, ◌≢◌, refl, ap, List, [], ◌∷◌, some, true, false, length, take, drop, All, arith,
  ◌>>=◌,
}
use zmk_ble_hid_host.Base.Signed.{pos, negsuc}
use zmk_ble_hid_host.Layout.{ReportLayout, empty_layout, empty_report}
use zmk_ble_hid_host.Decode.Extract.{gather, sign_extend}
use zmk_ble_hid_host.Decode.Pointer.{success, failure, decode_report}
use zmk_ble_hid_host.Parser.Stream.{encode_all}
use zmk_ble_hid_host.Parser.Walk.{parse_report_map}
use zmk_ble_hid_host.Central.State.{disc_idle, Attr, ReportEvt, Central}
use zmk_ble_hid_host.Central.Tests.{listed_put, listed, answers_ok, takes_all, plain, central}
use zmk_ble_hid_host.Central.Reassembly.{concat_chunks}
use zmk_ble_hid_host.Central.Wiring.{aside}
use zmk_ble_hid_host.Central.Session.{Service, notifying, bring_up}
use zmk_ble_hid_host.Central.Session.Expected.{expected}
use zmk_ble_hid_host.Publish.Pointer.{publish_all}
use zmk_ble_hid_host.Peer.Layout.{parse_report_map-map_items}
use zmk_ble_hid_host.Peer.Cut.{parse_report_map_cut}
use zmk_ble_hid_host.Peer.RoundTrip.{decode-parse}
use zmk_ble_hid_host.Peer.Link.{bring_up_lem}
use zmk_ble_hid_host.Peer.Session.{Sends, send_all, device_reaches_host}
use zmk_ble_hid_host.Peer.Desc.{
  Peer, signed8, signed16, padding, buttons, axes, map_items, report_bytes,
}
use zmk_ble_hid_host.Peer.Meant.{IsPeer, IsGroup, Placed, layout_of, meant}

-- Appendix E.10: three buttons, five bits of padding, X and Y of 8 bits each.
abbrev boot_mouse : Peer
boot_mouse = record {
  report_id = 0;
  groups =
      buttons 3 5
      ∷ padding 5
      ∷ axes 1 8 signed8
          (record { usage = 0x30; value = negsuc 2 } ∷ record { usage = 0x31; value = pos 4 } ∷ [])
      ∷ [];
}

boot_mouse_map :
    encode_all (map_items boot_mouse)
    ≡ 0x05 ∷ 0x01 ∷ 0x09 ∷ 0x02 ∷ 0xA1 ∷ 0x01 ∷ 0x09 ∷ 0x01 ∷ 0xA1 ∷ 0x00 ∷ 0x05 ∷ 0x09 ∷ 0x19
      ∷ 0x01 ∷ 0x29 ∷ 0x03 ∷ 0x15 ∷ 0x00 ∷ 0x25 ∷ 0x01 ∷ 0x95 ∷ 0x03 ∷ 0x75 ∷ 0x01 ∷ 0x81 ∷ 0x02
      ∷ 0x95 ∷ 0x01 ∷ 0x75 ∷ 0x05 ∷ 0x81 ∷ 0x01 ∷ 0x05 ∷ 0x01 ∷ 0x09 ∷ 0x30 ∷ 0x09 ∷ 0x31 ∷ 0x15
      ∷ 0x81 ∷ 0x25 ∷ 0x7F ∷ 0x75 ∷ 0x08 ∷ 0x95 ∷ 0x02 ∷ 0x81 ∷ 0x06 ∷ 0xC0 ∷ 0xC0 ∷ []
unfolding encode_all
boot_mouse_map = refl

boot_mouse_report : report_bytes boot_mouse ≡ 5 ∷ 0xFD ∷ 4 ∷ []
boot_mouse_report = refl

-- Two 12-bit axes, then a wheel and a pan.
abbrev wide_mouse : Peer
wide_mouse = record {
  report_id = 2;
  groups =
      buttons 5 17
      ∷ padding 3
      ∷ axes 1 12 signed16 (
          record { usage = 0x30; value = negsuc 1000 }
          ∷ record { usage = 0x31; value = pos 2000 }
          ∷ [])
      ∷ axes 1 8 signed8 (record { usage = 0x38; value = negsuc 0 } ∷ [])
      ∷ axes 0x0C 8 signed8 (record { usage = 0x0238; value = pos 7 } ∷ [])
      ∷ [];
}

wide_mouse_layout : ReportLayout
wide_mouse_layout = record {
  report_id = 2;
  x = record { bit_offset = 8; bit_size = 12; is_signed = true };
  y = record { bit_offset = 20; bit_size = 12; is_signed = true };
  wheel = record { bit_offset = 32; bit_size = 8; is_signed = true };
  hwheel = record { bit_offset = 40; bit_size = 8; is_signed = true };
  buttons = record { bit_offset = 0; bit_size = 1; is_signed = false };
  button_count = 5;
  valid = true;
}

wide_mouse_parsed :
    parse_report_map (some (encode_all (map_items wide_mouse))) (some empty_layout)
    ≡ some (record { code = success; out = some wide_mouse_layout })
unfolding parse_report_map encode_all wide_mouse_layout
wide_mouse_parsed = refl

wide_mouse_decoded :
    decode_report (some wide_mouse_layout) (some (report_bytes wide_mouse)) (some empty_report)
    ≡ some (record { code = success; out = some (meant wide_mouse) })
unfolding decode_report wide_mouse_layout gather sign_extend
wide_mouse_decoded = refl

wide_mouse-IsPeer : IsPeer wide_mouse
wide_mouse-IsPeer = record { id = omega arith; groups = checked; short = omega arith }
  where
    checked : All IsGroup wide_mouse.groups
    checked = ground arith

abbrev cell_x : Placed
cell_x = record {
  field = record { bit_offset = 8; bit_size = 12; is_signed = true };
  value = negsuc 1000;
}

abbrev cell_y : Placed
cell_y = record {
  field = record { bit_offset = 20; bit_size = 12; is_signed = true };
  value = pos 2000;
}

parse_report_map-map_items_example :
    parse_report_map (some (encode_all (map_items wide_mouse))) (some empty_layout)
    ≡ some (record { code = success; out = some (layout_of wide_mouse) })
parse_report_map-map_items_example =
    parse_report_map-map_items wide_mouse cell_x cell_y empty_layout wide_mouse-IsPeer refl refl

decode-parse_example :
    (l : ReportLayout) × (parse_report_map
        (some (encode_all (map_items wide_mouse)))
        (some empty_layout)
      ≡ some (record { code = success; out = some l }))
    × (decode_report (some l) (some (report_bytes wide_mouse)) (some empty_report)
        ≡ some (record { code = success; out = some (meant wide_mouse) }))
decode-parse_example =
    decode-parse wide_mouse cell_x cell_y empty_layout empty_report wide_mouse-IsPeer refl refl

-- The service: a battery of characteristics of which two notify, the mouse's report and another.
abbrev attr : ℕ → ℕ → ℕ → ℕ → Attr
attr handle end value props = record {
  handle = handle;
  end_handle = end;
  value_handle = value;
  properties = props;
}

abbrev service : Service
service = record {
  service = attr 16 60 0 0;
  map = attr 17 0 18 2;
  chrcs = attr 20 0 21 0x12 ∷ attr 24 0 25 0x02 ∷ attr 28 0 29 0x12 ∷ [];
  reports =
      record { reference = attr 23 0 0 0; id = 1; kind = 1 ∷ []; ccc = attr 22 0 0 0 }
      ∷ record { reference = attr 31 0 0 0; id = 2; kind = 1 ∷ []; ccc = attr 30 0 0 0 }
      ∷ [];
}

abbrev map_bytes : List ℕ
map_bytes = encode_all (map_items wide_mouse)

abbrev map_chunks : List (List ℕ)
map_chunks = take 20 map_bytes ∷ drop 20 map_bytes ∷ []

map_chunks_full : All (λ chunk. chunk ≢ []) map_chunks
unfolding encode_all
map_chunks_full = ((λ e. cc), ((λ e. cc), tt))

map_chunks_whole : concat_chunks map_chunks ≡ encode_all (map_items wide_mouse)
unfolding encode_all
map_chunks_whole = refl

map_bytes_short : length (encode_all (map_items wide_mouse)) ≤ 512
unfolding encode_all
map_bytes_short = omega arith

abbrev fresh : Central (List ReportEvt)
fresh = record central { report_msgq = []; sub_count = 0; pending_count = 0; pending_idx = 0 }

bring_up_lem_example :
    (c' : Central (List ReportEvt)) × (bring_up answers_ok 1 7 1000 2 service map_chunks fresh
      ≡ some c')
    × (c'.disc_state ≡ disc_idle)
    × (c'.sub_count ≡ 2)
    × (take c'.sub_count c'.subs ≡ expected (notifying service.chrcs) service.reports)
    × (aside c' ≡ (layout_of wide_mouse, true, [], fresh.host_dev))
bring_up_lem_example =
    bring_up_lem answers_ok (λ calls r. refl) wide_mouse cell_x cell_y wide_mouse-IsPeer refl refl 1
      7 1000 2 service map_chunks fresh (omega arith) map_chunks_full map_chunks_whole
      map_bytes_short refl refl (omega arith) refl

-- The same mouse at rest.
abbrev wide_mouse_at_rest : Peer
wide_mouse_at_rest = record {
  report_id = 2;
  groups =
      buttons 5 0
      ∷ padding 3
      ∷ axes 1 12 signed16
          (record { usage = 0x30; value = pos 0 } ∷ record { usage = 0x31; value = pos 0 } ∷ [])
      ∷ axes 1 8 signed8 (record { usage = 0x38; value = pos 0 } ∷ [])
      ∷ axes 0x0C 8 signed8 (record { usage = 0x0238; value = pos 0 } ∷ [])
      ∷ [];
}

moves_Sends : Sends wide_mouse wide_mouse
moves_Sends = record {
  valid = wide_mouse-IsPeer;
  x = (cell_x, refl);
  y = (cell_y, refl);
  same_map = refl;
  short = omega arith;
}

rests_Sends : Sends wide_mouse wide_mouse_at_rest
rests_Sends = record {
  valid = record { id = omega arith; groups = checked; short = omega arith };
  x = (record cell_x { value = pos 0 }, refl);
  y = (record cell_y { value = pos 0 }, refl);
  same_map = refl;
  short = omega arith;
}
  where
    checked : All IsGroup wide_mouse_at_rest.groups
    checked = ground arith

listed_room :
    (e : ReportEvt) (q : List ReportEvt)
    → q ≡ []
    → (q' : List ReportEvt) × (listed_put e q ≡ some q')
listed_room e q h = (e ∷ [], ap (listed_put e) h)

device_reaches_host_example :
    (c' : Central (List ReportEvt)) × ((bring_up answers_ok 1 7 1000 2 service map_chunks fresh
        >>= send_all takes_all plain listed listed_room 1 (wide_mouse ∷ wide_mouse_at_rest ∷ []))
      ≡ some c')
    × (c'.host_dev
        ≡ publish_all takes_all plain
            (meant wide_mouse ∷ meant wide_mouse_at_rest ∷ [])
            fresh.host_dev)
    × (c'.report_msgq ≡ [])
device_reaches_host_example =
    device_reaches_host takes_all plain listed listed_room wide_mouse cell_x cell_y
      wide_mouse-IsPeer refl refl answers_ok 1 7 1000 2 service map_chunks 1
      (record { reference = attr 31 0 0 0; id = 2; kind = 1 ∷ []; ccc = attr 30 0 0 0 })
      (wide_mouse ∷ wide_mouse_at_rest ∷ []) fresh (λ calls r. refl) (omega arith) map_chunks_full
      map_chunks_whole map_bytes_short refl refl (omega arith) refl refl refl
      (moves_Sends, (rests_Sends, tt)) refl

parse_report_map_cut_example :
    (l : ReportLayout) × (parse_report_map
        (some (take 60 (encode_all (map_items wide_mouse))))
        (some empty_layout)
      ≡ some (record { code = failure; out = some l }))
    × (l.valid ≡ false)
parse_report_map_cut_example =
    parse_report_map_cut wide_mouse 60 empty_layout (unfold encode_all in omega arith)
