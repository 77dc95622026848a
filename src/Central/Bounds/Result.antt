-- ===== src/Central/Bounds/Result.antt =====
-- The two callbacks of the discovery, whole.
use zmk_ble_hid_host.Base.{
  ℕ, ◌+◌, ◌<◌, ◌≡◌, refl, ◌∙◌, ◌&&◌, Option, none, some, get_elem?, get_or, get_elem?-eq-get_or,
  ltb, ◌==◌, if◌then◌else◌, meets, arith, Bool-cases, inl, inr, ltb→lt, if_holds,
}
use zmk_ble_hid_host.Central.State.{
  chrc_notify, DiscState, disc_idle, disc_hids_primary, disc_report_map_chrc, disc_report_chrc,
  disc_report_ref, disc_ccc, Subscription, ok_or_already, subscribe, Stack, Attr, Central, store,
}
use zmk_ble_hid_host.Central.Discovery.{
  ask, subscribe_pending, pass_finished, collect_report, add_subscription, found, discover_func,
}
use zmk_ble_hid_host.Central.Bounds.Counters.{
  BoundsIn, IsWiring, Ready, Safe, Safe-bind, Wired, counted_fits, store-inside, to_Ready,
}
use zmk_ble_hid_host.Central.Bounds.Steps.{
  discover_ccc-Safe, discover_or_idle-Wired, read_report_map-Wired, read_report_ref-Safe,
  start_report_discovery-Wired, subscribe_pending-Safe,
}

module _ {Q : Type 0} (answers : Stack) where
  relabel :
      (s s' : DiscState) (c : Central Q) → (IsWiring s' → IsWiring s) → BoundsIn s c → BoundsIn s' c
  relabel s s' c h v = record {
    cells = v.cells;
    sub_cells = v.sub_cells;
    few = v.few;
    few_subs = v.few_subs;
    inside = v.inside;
    wiring = λ w. v.wiring (h w);
    short = v.short;
  }

  -- The next report's turn.
  advanced :
      (c : Central Q) → BoundsIn disc_ccc c → Ready (record c { pending_idx = c.pending_idx + 1 })
  advanced c v = record {
    cells = v.cells;
    sub_cells = v.sub_cells;
    few = v.few;
    few_subs = v.few_subs;
    inside = omega (arith, v.wiring tt);
    wiring = λ none. absurd none;
    short = v.short;
  }

  collect_report-Safe :
      (attr : Attr) (c : Central Q)
      → BoundsIn disc_report_chrc c
      → Safe (collect_report attr (record c { disc_state = disc_report_chrc }))
  unfolding collect_report
  collect_report-Safe attr c v =
      elim (Bool-cases (meets attr.properties chrc_notify && ltb c.pending_count 12)) [
        | inr skipped ↦ rw skipped (record c { disc_state = disc_report_chrc }, refl, v)
        | inl kept ↦
            let room : c.pending_count < 12 = ground (arith, kept) in
            let (reports, stored, same) =
              store-inside c.pending_reports c.pending_count attr.value_handle
                (omega (arith, v.cells)) in
            rw kept (
              Safe-bind (store c.pending_reports c.pending_count attr.value_handle) _ reports stored
                (
                  record c {
                    disc_state = disc_report_chrc;
                    pending_reports = reports;
                    pending_count = c.pending_count + 1;
                  },
                  refl,
                  record {
                    cells = same ∙ v.cells;
                    sub_cells = v.sub_cells;
                    few = omega arith;
                    few_subs = v.few_subs;
                    inside = omega (arith, v.inside);
                    wiring = λ none. absurd none;
                    short = v.short;
                  },
                ))
      ]

  add_subscription-Wired :
      (ccc : ℕ) (c : Central Q)
      → BoundsIn disc_ccc c
      → (c' : Central Q) × (add_subscription answers ccc c ≡ some c') × BoundsIn disc_ccc c'
  unfolding add_subscription
  add_subscription-Wired ccc c v = elim (Bool-cases (ltb c.sub_count 12)) [
    | inr full ↦ (c, rw full refl, v)
    | inl room ↦
        let less = ltb→lt c.sub_count 12 room in
        let value =
          get_elem?-eq-get_or c.pending_reports c.pending_idx 0
            (omega (arith, v.wiring tt, v.few, v.cells)) in
        let s : Subscription = record {
          report_id = c.cur_report_id;
          value_handle = get_or c.pending_reports c.pending_idx 0;
          ccc_handle = ccc;
        } in
        let (subs, stored, same) =
          store-inside c.subs c.sub_count s (omega (arith, less, v.sub_cells)) in
        let counted =
          if ok_or_already (answers c.requests (subscribe s))
          then c.sub_count + 1
          else c.sub_count in
        (
          ask (subscribe s) (record c { subs = subs; sub_count = counted }),
          simp (room, value, stored),
          record {
            cells = v.cells;
            sub_cells = same ∙ v.sub_cells;
            few = v.few;
            few_subs =
                counted_fits (ok_or_already (answers c.requests (subscribe s))) c.sub_count less;
            inside = v.inside;
            wiring = v.wiring;
            short = v.short;
          },
        )
  ]

  found-Safe :
      (s : DiscState) (attr : Attr) (c : Central Q)
      → BoundsIn s c
      → Safe (found answers s attr (record c { disc_state = s }))
  unfolding found
  found-Safe disc_hids_primary attr c v = (
    _,
    refl,
    discover_or_idle-Wired answers _ _
        (relabel disc_hids_primary disc_report_map_chrc c (λ n. n) v),
  )
  found-Safe disc_report_map_chrc attr c v = (
    _,
    refl,
    read_report_map-Wired answers attr.value_handle (record c { disc_state = disc_report_map_chrc })
        v,
  )
  found-Safe disc_report_chrc attr c v = collect_report-Safe attr c v
  found-Safe disc_report_ref attr c v =
      read_report_ref-Safe answers attr.handle (record c { disc_state = disc_report_ref }) v tt
  found-Safe disc_ccc attr c v =
      let (c', e, w) = add_subscription-Wired attr.handle (record c { disc_state = disc_ccc }) v in
      Safe-bind (add_subscription answers attr.handle (record c { disc_state = disc_ccc })) _ c' e (
        subscribe_pending-Safe answers (record c' { pending_idx = c'.pending_idx + 1 })
          (advanced c' w))
  found-Safe disc_idle attr c v = (_, refl, v)

  pass_finished-Safe :
      (s : DiscState) (c : Central Q)
      → BoundsIn s c
      → Safe (pass_finished answers s (record c { disc_state = s }))
  unfolding pass_finished
  pass_finished-Safe disc_report_map_chrc c v =
      (_, refl, start_report_discovery-Wired answers c (to_Ready disc_report_map_chrc c v))
  pass_finished-Safe disc_report_chrc c v =
      let first : Central Q = record c { pending_idx = 0; disc_state = disc_report_chrc } in
      if_holds Safe (c.pending_count == 0) (some (record c { disc_state = disc_idle }))
        (subscribe_pending answers first) (_, refl, to_Ready disc_report_chrc c v)
        (subscribe_pending-Safe answers first (record {
          cells = v.cells;
          sub_cells = v.sub_cells;
          few = v.few;
          few_subs = v.few_subs;
          inside = omega arith;
          wiring = λ none. absurd none;
          short = v.short;
        }))
  pass_finished-Safe disc_report_ref c v =
      discover_ccc-Safe answers (record c { disc_state = disc_report_ref })
        (to_Ready disc_report_ref c v) (v.wiring tt)
  pass_finished-Safe disc_ccc c v =
      let next : Central Q = record c { pending_idx = c.pending_idx + 1; disc_state = disc_ccc } in
      Safe-bind (get_elem? c.pending_reports c.pending_idx)
        (λ skipped. subscribe_pending answers next) (get_or c.pending_reports c.pending_idx 0)
        (get_elem?-eq-get_or c.pending_reports c.pending_idx 0
          (omega (arith, v.wiring tt, v.few, v.cells)))
        (subscribe_pending-Safe answers next (advanced c v))
  pass_finished-Safe disc_hids_primary c v = (_, refl, v)
  pass_finished-Safe disc_idle c v = (_, refl, v)

  -- From counters within bounds, discover_func has no undefined access in any state of the
  -- discovery, for every attribute found or the end of a pass and for all answers of the stack, and
  -- leaves the counters within bounds: at most 12 pending reports and 12 subscriptions, the index
  -- not beyond the pending ones, and below them while a report is being wired up.
  pub discover_func-Safe :
      (attr : Option Attr) (c : Central Q) → Wired c → Safe (discover_func answers attr c)
  unfolding discover_func
  discover_func-Safe none c v = pass_finished-Safe c.disc_state c v
  discover_func-Safe (some attr) c v = found-Safe c.disc_state attr c v
