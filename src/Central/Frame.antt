-- ===== src/Central/Frame.antt =====
-- What the discovery leaves alone: it touches the layout's validity, the events, the link and the
-- schedule of the scan retry nowhere, and adds only GATT calls to the log. A predicate on these that
-- GATT calls keep holds through every callback of the discovery.
pub mod Reports
use zmk_ble_hid_host.Base.{
  ℕ, ◌+◌, ◌≡◌, Bool, true, false, ◌&&◌, Option, none, some, List, [], ◌∷◌, ◌++◌, ◌-◌, ◌^◌, length,
  take, get_elem?, ltb, leb, ◌==◌, if◌then◌else◌, ◌>>=◌, meets, u16, After, bind_After, chain_After,
  if_holds,
}
use zmk_ble_hid_host.Publish.Device.{Device}
use zmk_ble_hid_host.Central.State.{
  max_reports, report_map_max, chrc_notify, DiscState, disc_idle, disc_hids_primary,
  disc_report_map_chrc, disc_report_chrc, disc_report_ref, disc_ccc, Sought, hids_report_ref,
  gatt_ccc, descriptor, Request, discover, read, subscribe, set_security, disconnect, bt_enable,
  scan_start, scan_stop, create, is_ok, Stack, Attr, Central, store,
}
use zmk_ble_hid_host.Central.Discovery.{
  ask, discover_or_idle, start_report_discovery, descriptor_request, discover_ccc,
  subscribe_pending, read_report_ref, append_chunk, read_report_map, cur_report_end_handle,
  reference_id, report_ref_read_cb, pass_finished, collect_report, add_subscription, found,
  discover_func,
}

-- A predicate on layout_valid, host_dev, default_conn, retry_scheduled and the calls so far.
abbrev pub Frame : Type 1
Frame = Bool → Device → Option ℕ → Bool → List Request → Type 0

abbrev pub Kept : {Q : Type 0} → Frame → Central Q → Type 0
Kept F c = F c.layout_valid c.host_dev c.default_conn c.retry_scheduled c.requests

-- If the step is defined, it leaves the predicate true.
abbrev pub KeptAfter : {Q : Type 0} → Frame → Option (Central Q) → Type 0
KeptAfter F = After (Kept F)

abbrev pub IsGatt : Request → Type 0
IsGatt (discover sought type first last) = Unit
IsGatt (read handle) = Unit
IsGatt (subscribe s) = Unit
IsGatt (set_security conn) = ⊥
IsGatt (disconnect conn) = ⊥
IsGatt bt_enable = ⊥
IsGatt scan_start = ⊥
IsGatt scan_stop = ⊥
IsGatt (create addr) = ⊥

-- Each GATT call keeps the predicate.
abbrev pub GattKeeps : Frame → Type 0
GattKeeps F =
    (r : Request) (valid : Bool) (d : Device) (conn : Option ℕ) (retry : Bool)
    (calls : List Request)
    → IsGatt r
    → F valid d conn retry calls
    → F valid d conn retry (r ∷ calls)

module _ {Q : Type 0} (F : Frame) where
  collect_report-Kept :
      (attr : Attr) (c : Central Q) → Kept F c → KeptAfter F (collect_report attr c)
  unfolding collect_report
  collect_report-Kept attr c v =
      if_holds (After (Kept F))
        (meets attr.properties chrc_notify && ltb c.pending_count max_reports) _ (some c)
        (bind_After (Kept F) (store c.pending_reports c.pending_count attr.value_handle) _
          (λ reports. v))
        v

  pub append_chunk-Kept :
      (chunk : List ℕ) (c : Central Q) → Kept F c → KeptAfter F (append_chunk chunk c)
  unfolding append_chunk
  append_chunk-Kept chunk c v =
      let room = u16 (report_map_max + 2 ^ 16 - length c.rm_buf) in
      let kept = take (if ltb (length chunk) room then length chunk else room) chunk in
      if_holds (After (Kept F)) (ltb report_map_max (length c.rm_buf + length kept)) none
        (some (record c { rm_buf = c.rm_buf ++ kept })) tt v

  -- A step that goes on from the request for a descriptor.
  descriptor_request-Kept :
      (uuid : Sought) (c : Central Q) (f : Request → Option (Central Q))
      → ((r : Request) → IsGatt r → KeptAfter F (f r))
      → KeptAfter F (descriptor_request uuid c >>= f)
  unfolding descriptor_request
  descriptor_request-Kept uuid c f h =
      by_cells (get_elem? c.pending_reports c.pending_idx) (cur_report_end_handle c)
    where
      by_cells :
          (value end : Option ℕ)
          → KeptAfter F
              ((value >>= λ v. end >>= λ e. some (discover uuid descriptor (u16 (v + 1)) e)) >>= f)
      by_cells none end = tt
      by_cells (some v) none = tt
      by_cells (some v) (some e) = h (discover uuid descriptor (u16 (v + 1)) e) tt

  module _ (keeps : GattKeeps F) where
    ask-Kept : (r : Request) (c : Central Q) → IsGatt r → Kept F c → Kept F (ask r c)
    ask-Kept r c = keeps r c.layout_valid c.host_dev c.default_conn c.retry_scheduled c.requests

    module _ (answers : Stack) where
      discover_or_idle-Kept :
          (r : Request) (c : Central Q)
          → IsGatt r
          → Kept F c
          → Kept F (discover_or_idle answers r c)
      discover_or_idle-Kept r c g v =
          if_holds (Kept F) (is_ok (answers c.requests r)) _ _ (ask-Kept r c g v) (ask-Kept r c g v)

      pub start_report_discovery-Kept :
          (c : Central Q) → Kept F c → Kept F (start_report_discovery answers c)
      unfolding start_report_discovery
      start_report_discovery-Kept c v = discover_or_idle-Kept _ _ tt v

      pub discover_ccc-Kept : (c : Central Q) → Kept F c → KeptAfter F (discover_ccc answers c)
      unfolding discover_ccc
      discover_ccc-Kept c v =
          descriptor_request-Kept gatt_ccc c _
            (λ r g. discover_or_idle-Kept r (record c { disc_state = disc_ccc }) g v)

      subscribe_pending-Kept :
          (c : Central Q) → Kept F c → KeptAfter F (subscribe_pending answers c)
      unfolding subscribe_pending
      subscribe_pending-Kept c v =
          if_holds (After (Kept F)) (leb c.pending_count c.pending_idx)
            (some (record c { disc_state = disc_idle })) _ v
            (descriptor_request-Kept hids_report_ref c _ (λ r g.
              let asked : Central Q =
                ask r (record c { cur_report_id = 0; disc_state = disc_report_ref }) in
              let v' : Kept F asked = ask-Kept r c g v in
              if_holds (After (Kept F)) (is_ok (answers c.requests r)) (some asked)
                (discover_ccc answers asked) v' (discover_ccc-Kept asked v')))

      read_report_ref-Kept :
          (handle : ℕ) (c : Central Q) → Kept F c → KeptAfter F (read_report_ref answers handle c)
      unfolding read_report_ref
      read_report_ref-Kept handle c v =
          let asked : Central Q = record (ask (read handle) c) { cur_report_id = 0 } in
          let v' : Kept F asked = ask-Kept (read handle) c tt v in
          if_holds (After (Kept F)) (is_ok (answers c.requests (read handle)))
            (some (ask (read handle) c)) (discover_ccc answers asked) v'
            (discover_ccc-Kept asked v')

      read_report_map-Kept :
          (value : ℕ) (c : Central Q) → Kept F c → Kept F (read_report_map answers value c)
      unfolding read_report_map
      read_report_map-Kept value c v =
          let asked : Central Q = ask (read value) (record c { rm_buf = [] }) in
          let v' : Kept F asked = ask-Kept (read value) c tt v in
          if_holds (Kept F) (is_ok (answers c.requests (read value))) asked
            (start_report_discovery answers asked) v' (start_report_discovery-Kept asked v')

      add_subscription-Kept :
          (ccc : ℕ) (c : Central Q) → Kept F c → KeptAfter F (add_subscription answers ccc c)
      unfolding add_subscription
      add_subscription-Kept ccc c v =
          if_holds (After (Kept F)) (ltb c.sub_count max_reports) _ (some c)
            (bind_After (Kept F) (get_elem? c.pending_reports c.pending_idx) _ (λ value.
              bind_After (Kept F) (store c.subs c.sub_count _) _
                (λ subs. ask-Kept (subscribe _) c tt v)))
            v

      found-Kept :
          (s : DiscState) (attr : Attr) (c : Central Q)
          → Kept F c
          → KeptAfter F (found answers s attr c)
      unfolding found
      found-Kept disc_hids_primary attr c v = discover_or_idle-Kept _ _ tt v
      found-Kept disc_report_map_chrc attr c v = read_report_map-Kept attr.value_handle c v
      found-Kept disc_report_chrc attr c v = collect_report-Kept attr c v
      found-Kept disc_report_ref attr c v = read_report_ref-Kept attr.handle c v
      found-Kept disc_ccc attr c v =
          chain_After (Kept F) (Kept F) (add_subscription answers attr.handle c) _
            (add_subscription-Kept attr.handle c v)
            (λ c' w. subscribe_pending-Kept (record c' { pending_idx = c'.pending_idx + 1 }) w)
      found-Kept disc_idle attr c v = v

      pass_finished-Kept :
          (s : DiscState) (c : Central Q) → Kept F c → KeptAfter F (pass_finished answers s c)
      unfolding pass_finished
      pass_finished-Kept disc_report_map_chrc c v = start_report_discovery-Kept c v
      pass_finished-Kept disc_report_chrc c v =
          if_holds (After (Kept F)) (c.pending_count == 0)
            (some (record c { disc_state = disc_idle })) _ v
            (subscribe_pending-Kept (record c { pending_idx = 0 }) v)
      pass_finished-Kept disc_report_ref c v = discover_ccc-Kept c v
      pass_finished-Kept disc_ccc c v =
          bind_After (Kept F) (get_elem? c.pending_reports c.pending_idx) _
            (λ skipped. subscribe_pending-Kept (record c { pending_idx = c.pending_idx + 1 }) v)
      pass_finished-Kept disc_hids_primary c v = v
      pass_finished-Kept disc_idle c v = v

      pub report_ref_read_cb-Kept :
          (err : ℕ) (value : Option (List ℕ)) (c : Central Q)
          → Kept F c
          → KeptAfter F (report_ref_read_cb answers err value c)
      unfolding report_ref_read_cb
      report_ref_read_cb-Kept err value c v =
          discover_ccc-Kept (record c { cur_report_id = reference_id err value }) v

      pub discover_func-Kept :
          (attr : Option Attr) (c : Central Q)
          → Kept F c
          → KeptAfter F (discover_func answers attr c)
      unfolding discover_func
      discover_func-Kept none c v = pass_finished-Kept c.disc_state c v
      discover_func-Kept (some attr) c v = found-Kept c.disc_state attr c v
