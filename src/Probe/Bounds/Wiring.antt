-- ===== src/Probe/Bounds/Wiring.antt =====
-- The discovery and the notifications stay inside the arrays of reports and subscriptions.
use zmk_ble_hid_host.Base.{
  ℕ, ◌+◌, ◌<◌, ◌≡◌, refl, ◌∙◌, ◌&&◌, Option, none, some, List, get_elem?, get_or,
  get_elem?-eq-get_or, ltb, leb, ltb→lt, ◌==◌, if◌then◌else◌, Bool-cases, inl, inr, arith, meets,
  if_holds,
}
use zmk_ble_hid_host.Central.State.{chrc_notify, ok_or_already, Attr, store}
use zmk_ble_hid_host.Central.Bounds.Counters.{counted_fits, store-inside}
use zmk_ble_hid_host.Probe.State.{
  DiscState, disc_idle, disc_hids_primary, disc_report_chrc, disc_ccc, SubParams, Stack, Probe,
  subscribe, ask,
}
use zmk_ble_hid_host.Probe.Discovery.{
  notify_cb, collect_report, subscribe_pending, add_subscription, pass_finished, found,
  discover_func,
}
use zmk_ble_hid_host.Probe.Bounds.{FitsIn, IsWired, Safe, relabel, Safe-bind}

pub notify_cb-Safe :
    (sub : ℕ) (value : Option (List ℕ)) (p : Probe)
    → sub < 12
    → IsWired p
    → Safe (notify_cb sub value p)
unfolding notify_cb
notify_cb-Safe sub none p less v =
    let unset : SubParams = record { value_handle = 0; ccc_handle = 0 } in
    let s = get_or p.sub_params sub unset in
    let (params, stored, same) =
      store-inside p.sub_params sub (record s { value_handle = 0 })
        (omega (arith, v.param_cells)) in
    Safe-bind (get_elem? p.sub_params sub) _ s
      (get_elem?-eq-get_or p.sub_params sub unset (omega (arith, v.param_cells)))
      (Safe-bind (store p.sub_params sub (record s { value_handle = 0 })) _ params stored (
        record p { sub_params = params },
        refl,
        record {
          cells = v.cells;
          param_cells = same ∙ v.param_cells;
          seen_cells = v.seen_cells;
          few = v.few;
          few_subs = v.few_subs;
          few_seen = v.few_seen;
          wiring = v.wiring;
        },
      ))
notify_cb-Safe sub (some value) p less v = (_, refl, v)

collect_report-Safe :
    (attr : Attr) (p : Probe)
    → FitsIn disc_report_chrc p
    → Safe (collect_report attr (record p { disc_state = disc_report_chrc }))
unfolding collect_report
collect_report-Safe attr p v =
    elim (Bool-cases (meets attr.properties chrc_notify && ltb p.pending_count 12)) [
      | inr skipped ↦ rw skipped (record p { disc_state = disc_report_chrc }, refl, v)
      | inl kept ↦
          let room : p.pending_count < 12 = ground (arith, kept) in
          let (reports, stored, same) =
            store-inside p.pending_reports p.pending_count attr.value_handle
              (omega (arith, v.cells)) in
          rw kept (
            Safe-bind (store p.pending_reports p.pending_count attr.value_handle) _ reports stored (
              record p {
                disc_state = disc_report_chrc;
                pending_reports = reports;
                pending_count = p.pending_count + 1;
              },
              refl,
              record {
                cells = same ∙ v.cells;
                param_cells = v.param_cells;
                seen_cells = v.seen_cells;
                few = omega arith;
                few_subs = v.few_subs;
                few_seen = v.few_seen;
                wiring = λ none. absurd none;
              },
            ))
    ]

module _ (answers : Stack) where
  subscribe_pending-Safe : (p : Probe) → FitsIn disc_idle p → Safe (subscribe_pending answers p)
  unfolding subscribe_pending
  subscribe_pending-Safe p v = elim (Bool-cases (leb p.pending_count p.pending_idx)) [
    | inl done ↦ rw done (_, refl, v)
    | inr more ↦
        let less : p.pending_idx < p.pending_count = ground (arith, more) in
        rw more (
          Safe-bind (get_elem? p.pending_reports p.pending_idx) _
            (get_or p.pending_reports p.pending_idx 0)
            (get_elem?-eq-get_or p.pending_reports p.pending_idx 0
              (omega (arith, less, v.few, v.cells)))
            (_, refl, relabel disc_idle _ p (λ w. less) v))
  ]

  add_subscription-Safe :
      (ccc : ℕ) (p : Probe)
      → FitsIn disc_ccc p
      → (p' : Probe) × (add_subscription answers ccc p ≡ some p') × FitsIn disc_ccc p'
  unfolding add_subscription
  add_subscription-Safe ccc p v = elim (Bool-cases (ltb p.sub_count 12)) [
    | inr full ↦ (p, rw full refl, v)
    | inl room ↦
        let less = ltb→lt p.sub_count 12 room in
        let value =
          get_elem?-eq-get_or p.pending_reports p.pending_idx 0
            (omega (arith, v.wiring tt, v.few, v.cells)) in
        let s : SubParams = record {
          value_handle = get_or p.pending_reports p.pending_idx 0;
          ccc_handle = ccc;
        } in
        let (params, stored, same) =
          store-inside p.sub_params p.sub_count s (omega (arith, less, v.param_cells)) in
        let taken = ok_or_already (answers p.requests (subscribe s)) in
        (
          ask (subscribe s) (record p {
            sub_params = params;
            sub_count = if taken then p.sub_count + 1 else p.sub_count;
          }),
          simp (room, value, stored),
          record {
            cells = v.cells;
            param_cells = same ∙ v.param_cells;
            seen_cells = v.seen_cells;
            few = v.few;
            few_subs = counted_fits taken p.sub_count less;
            few_seen = v.few_seen;
            wiring = v.wiring;
          },
        )
  ]

  found-Safe :
      (s : DiscState) (attr : Attr) (p : Probe)
      → FitsIn s p
      → Safe (found answers s attr (record p { disc_state = s }))
  unfolding found
  found-Safe disc_hids_primary attr p v =
      (_, refl, relabel disc_hids_primary disc_report_chrc p (λ none. absurd none) v)
  found-Safe disc_report_chrc attr p v = collect_report-Safe attr p v
  found-Safe disc_ccc attr p v =
      let (p', e, w) = add_subscription-Safe attr.handle (record p { disc_state = disc_ccc }) v in
      Safe-bind (add_subscription answers attr.handle (record p { disc_state = disc_ccc })) _ p' e (
        subscribe_pending-Safe (record p' { pending_idx = p'.pending_idx + 1 })
          (record {
            cells = w.cells;
            param_cells = w.param_cells;
            seen_cells = w.seen_cells;
            few = w.few;
            few_subs = w.few_subs;
            few_seen = w.few_seen;
            wiring = λ none. absurd none;
          }))
  found-Safe disc_idle attr p v = (_, refl, v)

  pass_finished-Safe :
      (s : DiscState) (p : Probe)
      → FitsIn s p
      → Safe (pass_finished answers s (record p { disc_state = s }))
  unfolding pass_finished
  pass_finished-Safe disc_report_chrc p v =
      let first : Probe = record p { pending_idx = 0; disc_state = disc_report_chrc } in
      let none_wired = relabel disc_report_chrc disc_idle p (λ none. absurd none) v in
      if_holds Safe (p.pending_count == 0) (some (record p { disc_state = disc_idle }))
        (subscribe_pending answers first) (_, refl, none_wired)
        (subscribe_pending-Safe first (record {
          cells = v.cells;
          param_cells = v.param_cells;
          seen_cells = v.seen_cells;
          few = v.few;
          few_subs = v.few_subs;
          few_seen = v.few_seen;
          wiring = λ none. absurd none;
        }))
  pass_finished-Safe disc_ccc p v = (_, refl, v)
  pass_finished-Safe disc_hids_primary p v = (_, refl, v)
  pass_finished-Safe disc_idle p v = (_, refl, v)

  pub discover_func-Safe :
      (attr : Option Attr) (p : Probe) → IsWired p → Safe (discover_func answers attr p)
  unfolding discover_func
  discover_func-Safe none p v = pass_finished-Safe p.disc_state p v
  discover_func-Safe (some attr) p v = found-Safe p.disc_state attr p v
