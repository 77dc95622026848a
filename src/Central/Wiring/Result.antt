-- ===== src/Central/Wiring/Result.antt =====
-- The wiring of all reports.
use zmk_ble_hid_host.Base.{
  suc, ◌+◌, ◌≤◌, ◌<◌, ◌≡◌, refl, sym, ap, ap₂, ◌∙◌, Bool, true, false, none, some, List, [], ◌∷◌,
  ◌++◌, append-nil, append_assoc, length, take, get_or, ◌==◌, if◌then◌else◌, ◌>>=◌, arith,
}
use zmk_ble_hid_host.Central.State.{
  disc_idle, disc_report_chrc, disc_report_ref, disc_ccc, Request, read, ok, Stack, Central,
}
use zmk_ble_hid_host.Central.Discovery.{
  ask, subscribe_pending, report_ref_read_cb, pass_finished, discover_func,
}
use zmk_ble_hid_host.Central.Bounds.Counters.{Wired, from_Ready, to_Ready}
use zmk_ble_hid_host.Central.Wiring.{Described, wire, wire_all, wanted, IsAt, aside}
use zmk_ble_hid_host.Central.Wiring.Steps.{
  then_some, found_reference, read_reference, found_ccc, subscribe_pending-IsAt,
}

module _ {Q : Type 0} (answers : Stack)
    (accepting : (calls : List Request) (r : Request) → answers calls r ≡ ok) where
  -- One report, through its three callbacks.
  wire-IsAt :
      (w : Described) (ws : List Described) (c : Central Q)
      → Wired c
      → c.disc_state ≡ disc_report_ref
      → c.pending_idx + suc (length ws) ≡ c.pending_count
      → c.sub_count < 12
      → (c' : Central Q) × (wire answers w c ≡ some c')
        × IsAt ws c'.disc_state
        × Wired c'
        × (c'.pending_reports ≡ c.pending_reports)
        × (c'.pending_count ≡ c.pending_count)
        × (c'.pending_idx ≡ c.pending_idx + 1)
        × (c'.sub_count ≡ c.sub_count + 1)
        × (take c'.sub_count c'.subs
            ≡ take c.sub_count c.subs
              ++ (record {
                report_id = w.id;
                value_handle = get_or c.pending_reports c.pending_idx 0;
                ccc_handle = (w.ccc).handle;
              }
                  ∷ []))
        × (aside c' ≡ aside c)
  wire-IsAt w ws c v at all room =
      let less : c.pending_idx < c.pending_count = omega (arith, all) in
      let c1 : Central Q = ask (read (w.reference).handle) c in
      let ready = to_Ready c.disc_state c v in
      let (r, e) = read_reference answers accepting w.id w.kind c1 ready less in
      let c2 : Central Q = ask r (record c1 { cur_report_id = w.id; disc_state = disc_ccc }) in
      let (c', last, at', v', reports, count, idx, subs, grown, same) =
        found_ccc answers accepting ws w.ccc c2 (from_Ready disc_ccc c less ready) refl all room in
      (
        c',
        then_some (discover_func answers (some w.reference) c) _ c1
              (found_reference answers accepting w.reference c at)
            ∙ then_some (report_ref_read_cb answers 0 (some (w.id ∷ w.kind)) c1) _ c2 e
            ∙ last,
        at',
        v',
        reports,
        count,
        idx,
        subs,
        grown,
        same,
      )

  wire_all-IsAt :
      (ws : List Described) (c : Central Q)
      → Wired c
      → IsAt ws c.disc_state
      → c.pending_idx + length ws ≡ c.pending_count
      → c.sub_count + length ws ≤ 12
      → (c' : Central Q) × (wire_all answers ws c ≡ some c')
        × (c'.disc_state ≡ disc_idle)
        × (c'.sub_count ≡ c.sub_count + length ws)
        × (take c'.sub_count c'.subs
            ≡ take c.sub_count c.subs ++ wanted c.pending_reports c.pending_idx ws)
        × (aside c' ≡ aside c)
  wire_all-IsAt [] c v at all room =
      (c, refl, at, omega arith, sym (append-nil (take c.sub_count c.subs)), refl)
  wire_all-IsAt (w ∷ ws) c v at all room =
      let (c1, first, at1, v1, reports, count, idx, subs, grown, same) =
        wire-IsAt w ws c v at all (omega (arith, room)) in
      let (c2, rest, at2, subs2, grown2, same2) =
        wire_all-IsAt ws c1 v1 at1 (omega (arith, idx, count, all)) (omega (arith, subs, room)) in
      (
        c2,
        then_some (wire answers w c) (wire_all answers ws) c1 first ∙ rest,
        at2,
        omega (arith, subs, subs2),
        grown2
            ∙ ap (λ ys. ys ++ wanted c1.pending_reports c1.pending_idx ws) grown
            ∙ append_assoc (take c.sub_count c.subs) _ (wanted c1.pending_reports c1.pending_idx ws)
            ∙ rw (reports, idx) refl,
        same2 ∙ same,
      )

  -- Where the stack accepts every call, and each of the peer's notifying reports is found with its
  -- Report Reference and its CCC, the end of the characteristics' discovery and then the three
  -- callbacks of each report leave the discovery idle and exactly the collected reports subscribed,
  -- in their order: each with the report ID read from its own Report Reference, its own value handle
  -- and its own CCC. The layout and its validity, the queue of reports and the input device stay as
  -- they were.
  pub wires_every_report :
      (ws : List Described) (c : Central Q)
      → Wired c
      → c.disc_state ≡ disc_report_chrc
      → c.sub_count ≡ 0
      → c.pending_count ≡ length ws
      → (c' : Central Q) × ((discover_func answers none c >>= wire_all answers ws) ≡ some c')
        × (c'.disc_state ≡ disc_idle)
        × (c'.sub_count ≡ c.pending_count)
        × (take c'.sub_count c'.subs ≡ wanted c.pending_reports 0 ws)
        × (aside c' ≡ aside c)
  unfolding discover_func pass_finished
  wires_every_report [] c v at none_yet all =
      let empty : (c.pending_count == 0) ≡ true = ground (arith, all) in
      (
        record c { disc_state = disc_idle },
        ap (λ s. pass_finished answers s c >>= wire_all answers []) at
            ∙ ap
                (λ (test : Bool).
                  (if test
                    then some (record c { disc_state = disc_idle })
                    else subscribe_pending answers (record c { pending_idx = 0 }))
                  >>= wire_all answers [])
                empty,
        refl,
        none_yet ∙ sym all,
        ap (λ n. take n c.subs) none_yet,
        refl,
      )
  wires_every_report (w ∷ ws) c v at none_yet all =
      let some_pending : (c.pending_count == 0) ≡ false = ground (arith, all) in
      let first : Central Q = record c { pending_idx = 0 } in
      let (c1, e, at1, v1, reports, count, idx, subs, sub_count, same) =
        subscribe_pending-IsAt answers accepting (w ∷ ws) first
          (record {
            cells = v.cells;
            sub_cells = v.sub_cells;
            few = v.few;
            few_subs = v.few_subs;
            inside = omega arith;
            wiring = λ none. absurd none;
            short = v.short;
          })
          (omega (arith, all)) in
      let (c2, rest, at2, subs2, grown, same2) =
        wire_all-IsAt (w ∷ ws) c1 v1 at1 (omega (arith, idx, count, all))
          (omega (arith, sub_count, none_yet, all, v.few)) in
      (
        c2,
        ap (λ s. pass_finished answers s c >>= wire_all answers (w ∷ ws)) at
            ∙ ap
                (λ (test : Bool).
                  (if test
                    then some (record c { disc_state = disc_idle })
                    else subscribe_pending answers (record c { pending_idx = 0 }))
                  >>= wire_all answers (w ∷ ws))
                some_pending
            ∙ then_some (subscribe_pending answers first) (wire_all answers (w ∷ ws)) c1 e
            ∙ rest,
        at2,
        omega (arith, subs2, sub_count, none_yet, all),
        grown
            ∙ ap (λ n. take n c1.subs ++ wanted c1.pending_reports c1.pending_idx (w ∷ ws))
                (sub_count ∙ none_yet)
            ∙ ap₂ (λ handles i. wanted handles i (w ∷ ws)) reports idx,
        same2 ∙ same,
      )
