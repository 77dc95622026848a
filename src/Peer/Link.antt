-- ===== src/Peer/Link.antt =====
-- The central on a link with the device: from its encryption to the events of its reports.
use zmk_ble_hid_host.Base.{
  ℕ, ◌+◌, ◌≤◌, ◌≡◌, ◌≢◌, refl, ap, ◌∙◌, true, false, Option, none, some, List, [], ◌++◌, length,
  take, take_all, ◌>>=◌, >>=-assoc, arith, All, le→ltb,
}
use zmk_ble_hid_host.Publish.Device.{rel_x, rel_y}
use zmk_ble_hid_host.Parser.Stream.{encode_all}
use zmk_ble_hid_host.Parser.Walk.{parse_report_map}
use zmk_ble_hid_host.Central.State.{
  first_handle, last_handle, disc_idle, disc_hids_primary, disc_report_map_chrc, disc_report_chrc,
  hids, hids_report_map, hids_report, primary, characteristic, discover, read, Request, ok, Stack,
  Attr, Central,
}
use zmk_ble_hid_host.Central.Discovery.{
  ask, start_discovery, start_report_discovery, publish_layout, report_map_done, report_map_read_cb,
  read_report_map, found, discover_func,
}
use zmk_ble_hid_host.Central.Link.{security_changed}
use zmk_ble_hid_host.Central.Reassembly.{concat_chunks, read_chunks, read_chunks_lem}
use zmk_ble_hid_host.Central.Wiring.{wire_all, aside}
use zmk_ble_hid_host.Central.Wiring.Steps.{if_is_ok, then_some}
use zmk_ble_hid_host.Central.Wiring.Result.{wires_every_report}
use zmk_ble_hid_host.Central.Session.{
  Service, notifying, collect_all, wire_service, bring_up, collect_all-lem,
}
use zmk_ble_hid_host.Central.Session.Expected.{expected, wanted-expected_all}
use zmk_ble_hid_host.Base.{u16}
use zmk_ble_hid_host.Peer.Desc.{Peer, map_items}
use zmk_ble_hid_host.Peer.Meant.{IsPeer, Placed, find_axis, layout_of}
use zmk_ble_hid_host.Peer.Layout.{parse_report_map-map_items}

module _ {Q : Type 0} (answers : Stack)
    (accepting : (calls : List Request) (r : Request) → answers calls r ≡ ok) where
  -- The central looks for the HID service, then for its report map, then reads it.
  abbrev sought : Central Q → Central Q
  sought c =
      ask (discover hids primary first_handle last_handle)
        (record c { layout_valid = false; hids_end_handle = 0; disc_state = disc_hids_primary })

  abbrev served : Attr → Central Q → Central Q
  served a c =
      ask (discover hids_report_map characteristic (u16 (a.handle + 1)) a.end_handle)
        (record (sought c) { hids_end_handle = a.end_handle; disc_state = disc_report_map_chrc })

  abbrev reading : Attr → Attr → Central Q → Central Q
  reading a m c = ask (read m.value_handle) (record (served a c) { rm_buf = [] })

  security_changed-sought :
      (conn addr now level : ℕ) (c : Central Q)
      → 2 ≤ level
      → security_changed answers conn addr now level 0 c ≡ sought c
  unfolding security_changed start_discovery
  security_changed-sought conn addr now level c h = rw (le→ltb level 2 h) refl

  found_service :
      (a : Attr) (c : Central Q) → discover_func answers (some a) (sought c) ≡ some (served a c)
  unfolding discover_func found
  found_service a c =
      ap some (if_is_ok (answers (sought c).requests _) _ _ (accepting (sought c).requests _))

  found_map :
      (a m : Attr) (c : Central Q)
      → discover_func answers (some m) (served a c) ≡ some (reading a m c)
  unfolding discover_func found read_report_map
  found_map a m c =
      ap some (if_is_ok (answers (served a c).requests _) _ _ (accepting (served a c).requests _))

  -- The read's end installs the device's layout, and the reports are looked for.
  abbrev installed : Peer → Central Q → Central Q
  installed d c =
      ask (discover hids_report characteristic first_handle c.hids_end_handle) (record c {
        layout = layout_of d;
        layout_valid = true;
        pending_count = 0;
        pending_idx = 0;
        sub_count = 0;
        disc_state = disc_report_chrc;
      })

  module _ (d : Peer) (x y : Placed) (v : IsPeer d) (has_x : find_axis rel_x 0 d.groups ≡ some x)
      (has_y : find_axis rel_y 0 d.groups ≡ some y) where
    map_read :
        (c : Central Q)
        → c.rm_buf ≡ encode_all (map_items d)
        → report_map_read_cb answers 0 none c ≡ some (installed d c)
    unfolding report_map_read_cb report_map_done
    map_read c buf =
        ap
          (λ bytes. parse_report_map (some bytes) (some c.layout) >>= λ r.
            some (start_report_discovery answers (publish_layout r c)))
          buf
        ∙ ap (λ o. o >>= λ r. some (start_report_discovery answers (publish_layout r c)))
            (parse_report_map-map_items d x y c.layout v has_x has_y)
        ∙ ap some (
            unfold start_report_discovery publish_layout in
            if_is_ok (answers c.requests _) _ _ (accepting c.requests _))

    map_arrives :
        (chunks : List (List ℕ)) (c : Central Q)
        → c.rm_buf ≡ []
        → All (λ chunk. chunk ≢ []) chunks
        → concat_chunks chunks ≡ encode_all (map_items d)
        → length (encode_all (map_items d)) ≤ 512
        → (read_chunks answers chunks c >>= report_map_read_cb answers 0 none)
          ≡ some (installed d (record c { rm_buf = encode_all (map_items d) }))
    map_arrives chunks c empty full whole short =
        then_some (read_chunks answers chunks c) (report_map_read_cb answers 0 none)
          (record c { rm_buf = encode_all (map_items d) })
          (read_chunks_lem answers chunks c (omega (arith, ap length empty)) full
            ∙ ap (λ buf. some (record c { rm_buf = take 512 (buf ++ concat_chunks chunks) })) empty
            ∙ ap (λ bytes. some (record c { rm_buf = take 512 bytes })) whole
            ∙ ap (λ bytes. some (record c { rm_buf = bytes }))
                (take_all 512 (encode_all (map_items d)) short))
        ∙ map_read (record c { rm_buf = encode_all (map_items d) }) refl

    -- From the installed layout on, the collected reports are wired up.
    service_wired :
        (s : Service) (c : Central Q)
        → length c.pending_reports ≡ 12
        → length c.subs ≡ 12
        → length c.rm_buf ≤ 512
        → length (notifying s.chrcs) ≤ 12
        → length (notifying s.chrcs) ≡ length s.reports
        → (c' : Central Q) × (wire_service answers s (installed d c) ≡ some c')
          × (c'.disc_state ≡ disc_idle)
          × (c'.sub_count ≡ length s.reports)
          × (take c'.sub_count c'.subs ≡ expected (notifying s.chrcs) s.reports)
          × (aside c' ≡ aside (installed d c))
    service_wired s c cells sub_cells short few all =
        let (reports, gathered, same, grown) =
          collect_all-lem answers s.chrcs (installed d c) refl cells (omega (arith, few)) in
        let c1 : Central Q = record (installed d c) {
          pending_reports = reports;
          pending_count = 0 + length (notifying s.chrcs);
        } in
        let (c', e, at, count, subs, left) =
          wires_every_report answers accepting s.reports c1
            (record {
              cells = same;
              sub_cells = sub_cells;
              few = omega (arith, few);
              few_subs = omega arith;
              inside = omega arith;
              wiring = λ none. absurd none;
              short = short;
            })
            refl refl (omega (arith, all)) in
        (
          c',
          then_some (collect_all answers s.chrcs (installed d c))
                (λ c2. discover_func answers none c2 >>= wire_all answers s.reports) c1 gathered
              ∙ e,
          at,
          omega (arith, count, all),
          subs
              ∙ wanted-expected_all (notifying s.chrcs) s.reports reports all
                  (ap (λ (n : ℕ). take n reports) (omega arith) ∙ grown),
          left,
        )

    -- A link with a device whose report map of at most 512 bytes arrives in non-empty chunks, and
    -- whose notifying reports, twelve at most, are each found with their Report Reference and CCC,
    -- comes up where the stack accepts every call: from the link's encryption, at level 2 or more, to
    -- the last subscription the central runs without a fault, and ends idle with exactly the layout
    -- that the device means, valid, and one subscription for each notifying report in order, with its
    -- value handle, its CCC and the report ID of its Report Reference; the queue of reports and the
    -- input device are as they were.
    pub bring_up_lem :
        (conn addr now level : ℕ) (s : Service) (chunks : List (List ℕ)) (c : Central Q)
        → 2 ≤ level
        → All (λ chunk. chunk ≢ []) chunks
        → concat_chunks chunks ≡ encode_all (map_items d)
        → length (encode_all (map_items d)) ≤ 512
        → length c.pending_reports ≡ 12
        → length c.subs ≡ 12
        → length (notifying s.chrcs) ≤ 12
        → length (notifying s.chrcs) ≡ length s.reports
        → (c' : Central Q) × (bring_up answers conn addr now level s chunks c ≡ some c')
          × (c'.disc_state ≡ disc_idle)
          × (c'.sub_count ≡ length s.reports)
          × (take c'.sub_count c'.subs ≡ expected (notifying s.chrcs) s.reports)
          × (aside c' ≡ (layout_of d, true, c.report_msgq, c.host_dev))
    bring_up_lem conn addr now level s chunks c secure full whole short cells sub_cells few all =
        let c2 : Central Q = reading s.service s.map c in
        let c3 : Central Q = record c2 { rm_buf = encode_all (map_items d) } in
        let (c', wired, at, count, subs, left) = service_wired s c3 cells sub_cells short few all in
        (
          c',
          ap (λ c0. discover_func answers (some s.service) c0 >>= from_service)
                (security_changed-sought conn addr now level c secure)
              ∙ then_some (discover_func answers (some s.service) (sought c)) from_service
                  (served s.service c) (found_service s.service c)
              ∙ then_some (discover_func answers (some s.map) (served s.service c)) from_map c2
                  (found_map s.service s.map c)
              ∙ >>=-assoc (read_chunks answers chunks c2) (report_map_read_cb answers 0 none)
                  (wire_service answers s)
              ∙ then_some (read_chunks answers chunks c2 >>= report_map_read_cb answers 0 none)
                  (wire_service answers s) (installed d c3)
                  (map_arrives chunks c2 refl full whole short)
              ∙ wired,
          at,
          count,
          subs,
          left,
        )
      where
        from_map : Central Q → Option (Central Q)
        from_map c2 = read_chunks answers chunks c2 >>= λ c3.
            report_map_read_cb answers 0 none c3 >>= wire_service answers s

        from_service : Central Q → Option (Central Q)
        from_service c1 = discover_func answers (some s.map) c1 >>= from_map
