-- ===== src/Central/Discovery.antt =====
-- The discovery of a peer's HID service: report map, report characteristics, and for each its
-- Report Reference, its CCC and the subscription. `none` is an access beyond an array.
use zmk_ble_hid_host.Base.{
  ℕ, zero, suc, ◌+◌, ◌-◌, ◌^◌, true, false, not, ◌&&◌, Option, none, some, List, [], ◌∷◌, ◌++◌,
  length, take, get_elem?, ltb, leb, ◌==◌, if◌then◌else◌, ◌>>=◌, u16, meets,
}
use zmk_ble_hid_host.Layout.{ReportLayout}
use zmk_ble_hid_host.Decode.Pointer.{Returned}
use zmk_ble_hid_host.Parser.Walk.{parse_report_map}
use zmk_ble_hid_host.Publish.Device.{is_nonzero}
use zmk_ble_hid_host.Central.State.{
  max_reports, report_map_max, first_handle, last_handle, chrc_notify, DiscState, disc_idle,
  disc_hids_primary, disc_report_map_chrc, disc_report_chrc, disc_report_ref, disc_ccc, Sought,
  hids, hids_report_map, hids_report, hids_report_ref, gatt_ccc, primary, characteristic,
  descriptor, Subscription, Request, discover, read, subscribe, is_ok, ok_or_already, Stack, Attr,
  Central, store,
}

-- The report ID of a Report Reference read: 0 on an error or an empty value.
abbrev pub reference_id : ℕ → Option (List ℕ) → ℕ
reference_id zero (some (id ∷ rest)) = id
reference_id zero (some []) = 0
reference_id zero none = 0
reference_id (suc err) value = 0

-- What a parse of the report map does to `layout`; `layout_valid` is only ever set.
unfoldable pub publish_layout : {Q : Type 0} → Returned ReportLayout → Central Q → Central Q
publish_layout r c = elim r.out [
  | none ↦ c
  | some l ↦ record c {
    layout = l;
    layout_valid = if not (is_nonzero r.code) && l.valid then true else c.layout_valid;
  }
]

module _ {Q : Type 0} where
  -- The state after a call; its answer is `answers c.requests r`.
  abbrev pub ask : Request → Central Q → Central Q
  ask r c = record c { requests = r ∷ c.requests }

  unfoldable pub cur_report_end_handle : Central Q → Option ℕ
  cur_report_end_handle c =
      if ltb (c.pending_idx + 1) c.pending_count
      then (get_elem? c.pending_reports (c.pending_idx + 1) >>= λ next. some (u16 (next + 65535)))
      else some c.hids_end_handle

  -- The discovery of a descriptor of pending_reports[pending_idx].
  unfoldable pub descriptor_request : Sought → Central Q → Option Request
  unfolding cur_report_end_handle
  descriptor_request uuid c = do
    value ← get_elem? c.pending_reports c.pending_idx
    end ← cur_report_end_handle c
    some (discover uuid descriptor (u16 (value + 1)) end)

  -- memcpy of a chunk of the report map, cut where the buffer ends.
  unfoldable pub append_chunk : List ℕ → Central Q → Option (Central Q)
  append_chunk chunk c =
      let room = u16 (report_map_max + 2 ^ 16 - length c.rm_buf) in
      let kept = take (if ltb (length chunk) room then length chunk else room) chunk in
      if ltb report_map_max (length c.rm_buf + length kept)
      then none
      else some (record c { rm_buf = c.rm_buf ++ kept })

  -- A report characteristic: only the ones that notify are kept, and max_reports of them.
  unfoldable pub collect_report : Attr → Central Q → Option (Central Q)
  collect_report attr c =
      if meets attr.properties chrc_notify && ltb c.pending_count max_reports
      then (store c.pending_reports c.pending_count attr.value_handle >>= λ reports.
          some (record c { pending_reports = reports; pending_count = c.pending_count + 1 }))
      else some c

module _ {Q : Type 0} (answers : Stack) where
  -- A discovery whose failure ends the state machine.
  abbrev pub discover_or_idle : Request → Central Q → Central Q
  discover_or_idle r c =
      if is_ok (answers c.requests r) then ask r c else record (ask r c) { disc_state = disc_idle }

  unfoldable pub start_report_discovery : Central Q → Central Q
  start_report_discovery c =
      discover_or_idle (discover hids_report characteristic first_handle c.hids_end_handle)
        (record c {
          pending_count = 0;
          pending_idx = 0;
          sub_count = 0;
          disc_state = disc_report_chrc;
        })

  -- The failure of this discovery leaves the state as it is.
  unfoldable pub start_discovery : Central Q → Central Q
  start_discovery c =
      ask (discover hids primary first_handle last_handle)
        (record c { layout_valid = false; hids_end_handle = 0; disc_state = disc_hids_primary })

  unfoldable pub discover_ccc : Central Q → Option (Central Q)
  unfolding descriptor_request
  discover_ccc c = do
    r ← descriptor_request gatt_ccc c
    some (discover_or_idle r (record c { disc_state = disc_ccc }))

  unfoldable pub subscribe_pending : Central Q → Option (Central Q)
  unfolding discover_ccc descriptor_request
  subscribe_pending c =
      if leb c.pending_count c.pending_idx then some (record c { disc_state = disc_idle }) else (do
        r ← descriptor_request hids_report_ref c
        let asked = ask r (record c { cur_report_id = 0; disc_state = disc_report_ref }) in
            if is_ok (answers c.requests r) then some asked else discover_ccc asked)

  unfoldable pub report_ref_read_cb : ℕ → Option (List ℕ) → Central Q → Option (Central Q)
  unfolding discover_ccc
  report_ref_read_cb err value c =
      discover_ccc (record c { cur_report_id = reference_id err value })

  unfoldable pub read_report_ref : ℕ → Central Q → Option (Central Q)
  unfolding discover_ccc
  read_report_ref handle c =
      if is_ok (answers c.requests (read handle))
      then some (ask (read handle) c)
      else discover_ccc (record (ask (read handle) c) { cur_report_id = 0 })

  -- The end of the read: parse, and on to the reports.
  unfoldable pub report_map_done : Central Q → Option (Central Q)
  unfolding parse_report_map publish_layout start_report_discovery
  report_map_done c = parse_report_map (some c.rm_buf) (some c.layout) >>= λ r.
      some (start_report_discovery (publish_layout r c))

  unfoldable pub report_map_read_cb : ℕ → Option (List ℕ) → Central Q → Option (Central Q)
  unfolding append_chunk report_map_done start_report_discovery
  report_map_read_cb zero (some (b ∷ bs)) c = append_chunk (b ∷ bs) c
  report_map_read_cb zero (some []) c = report_map_done c
  report_map_read_cb zero none c = report_map_done c
  report_map_read_cb (suc err) value c = some (start_report_discovery c)

  unfoldable pub read_report_map : ℕ → Central Q → Central Q
  unfolding start_report_discovery
  read_report_map value c =
      let cleared = record c { rm_buf = [] } in
      let asked = ask (read value) cleared in
      if is_ok (answers c.requests (read value)) then asked else start_report_discovery asked

  -- discover_func where the pass is over (attr == NULL).
  unfoldable pub pass_finished : DiscState → Central Q → Option (Central Q)
  unfolding start_report_discovery subscribe_pending discover_ccc
  pass_finished disc_report_map_chrc c = some (start_report_discovery c)
  pass_finished disc_report_chrc c =
      if c.pending_count == 0
      then some (record c { disc_state = disc_idle })
      else subscribe_pending (record c { pending_idx = 0 })
  pass_finished disc_report_ref c = discover_ccc c
  pass_finished disc_ccc c = get_elem? c.pending_reports c.pending_idx >>= λ skipped.
      subscribe_pending (record c { pending_idx = c.pending_idx + 1 })
  pass_finished disc_hids_primary c = some c
  pass_finished disc_idle c = some c

  -- The subscription made of the CCC found for pending_reports[pending_idx].
  unfoldable pub add_subscription : ℕ → Central Q → Option (Central Q)
  add_subscription ccc c =
      if ltb c.sub_count max_reports
      then (do
        value ← get_elem? c.pending_reports c.pending_idx
        let s : Subscription = record {
          report_id = c.cur_report_id;
          value_handle = value;
          ccc_handle = ccc;
        } in
            store c.subs c.sub_count s >>= λ subs. some (
              ask (subscribe s) (record c {
                subs = subs;
                sub_count =
                    if ok_or_already (answers c.requests (subscribe s))
                    then c.sub_count + 1
                    else c.sub_count;
              })))
      else some c

  -- discover_func where it found an attribute.
  unfoldable pub found : DiscState → Attr → Central Q → Option (Central Q)
  unfolding read_report_map collect_report read_report_ref add_subscription subscribe_pending
  found disc_hids_primary attr c = some (
      discover_or_idle
        (discover hids_report_map characteristic (u16 (attr.handle + 1)) attr.end_handle)
        (record c { hids_end_handle = attr.end_handle; disc_state = disc_report_map_chrc }))
  found disc_report_map_chrc attr c = some (read_report_map attr.value_handle c)
  found disc_report_chrc attr c = collect_report attr c
  found disc_report_ref attr c = read_report_ref attr.handle c
  found disc_ccc attr c = add_subscription attr.handle c >>= λ subscribed.
      subscribe_pending (record subscribed { pending_idx = subscribed.pending_idx + 1 })
  found disc_idle attr c = some c

  unfoldable pub discover_func : Option Attr → Central Q → Option (Central Q)
  unfolding pass_finished found
  discover_func none c = pass_finished c.disc_state c
  discover_func (some attr) c = found c.disc_state attr c
