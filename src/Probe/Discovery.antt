-- ===== src/Probe/Discovery.antt =====
-- The probe's discovery and its notification callback. `none` is an access beyond an array.
use zmk_ble_hid_host.Base.{
  ℕ, ◌+◌, ◌&&◌, Option, none, some, List, ◌∷◌, get_elem?, ltb, leb, ◌==◌, if◌then◌else◌, ◌>>=◌, u16,
  meets,
}
use zmk_ble_hid_host.Central.State.{
  first_handle, last_handle, chrc_notify, hids, hids_report, gatt_ccc, primary, characteristic,
  descriptor, is_ok, ok_or_already, Attr, store,
}
use zmk_ble_hid_host.Probe.State.{
  max_reports, DiscState, disc_idle, disc_hids_primary, disc_report_chrc, disc_ccc, SubParams,
  discover, subscribe, Stack, Probe, ask,
}

-- `sub` is the index in `sub_params` of the params that the stack passes.
unfoldable pub notify_cb : ℕ → Option (List ℕ) → Probe → Option Probe
notify_cb sub none p = get_elem? p.sub_params sub >>= λ s.
    store p.sub_params sub (record s { value_handle = 0 }) >>= λ params.
    some (record p { sub_params = params })
notify_cb sub (some value) p = some (record p { dumped = value ∷ p.dumped })

-- A report characteristic: only the ones that notify are kept, and max_reports of them.
unfoldable pub collect_report : Attr → Probe → Option Probe
collect_report attr p =
    if meets attr.properties chrc_notify && ltb p.pending_count max_reports
    then (store p.pending_reports p.pending_count attr.value_handle >>= λ reports.
        some (record p { pending_reports = reports; pending_count = p.pending_count + 1 }))
    else some p

-- The failure of this discovery leaves the state as it is.
unfoldable pub start_discovery : Probe → Probe
start_discovery p =
    ask (discover hids primary first_handle last_handle) (record p {
      pending_count = 0;
      pending_idx = 0;
      sub_count = 0;
      disc_state = disc_hids_primary;
    })

module _ (answers : Stack) where
  -- The discovery of the CCC of pending_reports[pending_idx]; past the last one there is none.
  unfoldable pub subscribe_pending : Probe → Option Probe
  subscribe_pending p =
      if leb p.pending_count p.pending_idx
      then some (record p { disc_state = disc_idle })
      else (get_elem? p.pending_reports p.pending_idx >>= λ value.
          let r = discover gatt_ccc descriptor (u16 (value + 1)) p.hids_end_handle in
          some (record (ask r p) {
            disc_state = if is_ok (answers p.requests r) then disc_ccc else disc_idle;
          }))

  -- The subscription made of the CCC found for pending_reports[pending_idx].
  unfoldable pub add_subscription : ℕ → Probe → Option Probe
  add_subscription ccc p =
      if ltb p.sub_count max_reports
      then (get_elem? p.pending_reports p.pending_idx >>= λ value.
          let s : SubParams = record { value_handle = value; ccc_handle = ccc } in
          store p.sub_params p.sub_count s >>= λ params. some (
            ask (subscribe s) (record p {
              sub_params = params;
              sub_count =
                  if ok_or_already (answers p.requests (subscribe s))
                  then p.sub_count + 1
                  else p.sub_count;
            })))
      else some p

  -- discover_func where the pass is over (attr == NULL).
  unfoldable pub pass_finished : DiscState → Probe → Option Probe
  unfolding subscribe_pending
  pass_finished disc_report_chrc p =
      if p.pending_count == 0
      then some (record p { disc_state = disc_idle })
      else subscribe_pending (record p { pending_idx = 0 })
  pass_finished disc_hids_primary p = some p
  pass_finished disc_ccc p = some p
  pass_finished disc_idle p = some p

  -- discover_func where it found an attribute. The failure of the discovery of the report
  -- characteristics leaves the state as it is.
  unfoldable pub found : DiscState → Attr → Probe → Option Probe
  unfolding collect_report add_subscription subscribe_pending
  found disc_hids_primary attr p = some (
      ask (discover hids_report characteristic (u16 (attr.handle + 1)) attr.end_handle)
        (record p { hids_end_handle = attr.end_handle; disc_state = disc_report_chrc }))
  found disc_report_chrc attr p = collect_report attr p
  found disc_ccc attr p = add_subscription attr.handle p >>= λ subscribed.
      subscribe_pending (record subscribed { pending_idx = subscribed.pending_idx + 1 })
  found disc_idle attr p = some p

  unfoldable pub discover_func : Option Attr → Probe → Option Probe
  unfolding pass_finished found
  discover_func none p = pass_finished p.disc_state p
  discover_func (some attr) p = found p.disc_state attr p
