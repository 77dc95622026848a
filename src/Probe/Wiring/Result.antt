-- ===== src/Probe/Wiring/Result.antt =====
-- All reports of a peer, and what a missing CCC leaves.
use zmk_ble_hid_host.Base.{
  ℕ, zero, suc, ◌+◌, ◌≤◌, ◌<◌, ◌≡◌, refl, sym, ap, ◌∙◌, false, none, some, List, [], ◌∷◌, ◌++◌,
  append-nil, append_assoc, length, take, ◌==◌, ◌>>=◌, arith,
}
use zmk_ble_hid_host.Central.State.{ok, Attr}
use zmk_ble_hid_host.Central.Wiring.Steps.{then_some}
use zmk_ble_hid_host.Probe.State.{disc_report_chrc, Request, Stack, Probe}
use zmk_ble_hid_host.Probe.Discovery.{subscribe_pending, pass_finished, discover_func}
use zmk_ble_hid_host.Probe.Events.{discovered, handle_all}
use zmk_ble_hid_host.Probe.Bounds.{IsWired}
use zmk_ble_hid_host.Probe.Wiring.{
  found_all, wanted, remaining, remaining_lem, resting, subscribe_pending-resting, found_ccc,
}

module _ (answers : Stack)
    (accepting : (calls : List Request) (r : Request) → answers calls r ≡ ok) where
  found_all-resting :
      (cccs : List Attr) (missing : ℕ) (p : Probe)
      → IsWired p
      → p.disc_state ≡ resting (remaining cccs missing)
      → p.pending_idx + remaining cccs missing ≡ p.pending_count
      → p.sub_count + length cccs ≤ 12
      → (p' : Probe) × (handle_all answers (found_all cccs) p ≡ some p')
        × (p'.disc_state ≡ resting missing)
        × (p'.sub_count ≡ p.sub_count + length cccs)
        × (take p'.sub_count p'.sub_params
            ≡ take p.sub_count p.sub_params ++ wanted p.pending_reports p.pending_idx cccs)
  found_all-resting [] missing p v at all room =
      (p, refl, at, omega arith, sym (append-nil (take p.sub_count p.sub_params)))
  found_all-resting (ccc ∷ cccs) missing p v at all room =
      let (p1, first, at1, v1, reports, count, idx, subs, grown) =
        found_ccc answers accepting (remaining cccs missing) ccc p v at (omega (arith, all))
          (omega (arith, room)) in
      let (p2, rest, at2, subs2, grown2) =
        found_all-resting cccs missing p1 v1 at1 (omega (arith, idx, count, all))
          (omega (arith, subs, room)) in
      (
        p2,
        then_some (discover_func answers (some ccc) p) (handle_all answers (found_all cccs)) p1
              first
            ∙ rest,
        at2,
        omega (arith, subs, subs2),
        grown2
            ∙ ap (λ ys. ys ++ wanted p1.pending_reports p1.pending_idx cccs) grown
            ∙ append_assoc (take p.sub_count p.sub_params) _
                (wanted p1.pending_reports p1.pending_idx cccs)
            ∙ rw (reports, idx) refl,
      )

  -- The end of the last pass looks for nothing more.
  end_of_pass :
      (missing : ℕ) (p : Probe)
      → p.disc_state ≡ resting missing
      → discover_func answers none p ≡ some p
  unfolding discover_func pass_finished
  end_of_pass zero p at = ap (λ s. pass_finished answers s p) at
  end_of_pass (suc missing) p at = ap (λ s. pass_finished answers s p) at

  some_pending :
      (p : Probe)
      → p.disc_state ≡ disc_report_chrc
      → 0 < p.pending_count
      → discover_func answers none p ≡ subscribe_pending answers (record p { pending_idx = 0 })
  unfolding discover_func pass_finished
  some_pending p at more =
      let test : (p.pending_count == 0) ≡ false = ground (arith, more) in
      ap (λ s. pass_finished answers s p) at ∙ rw test refl

  -- Where the stack accepts every call, the end of the characteristics' discovery, the CCCs found for
  -- the first reports, and then the end of a pass leave exactly these reports subscribed, in order,
  -- each with its own value handle and its own CCC. With no report left the discovery is idle. Where
  -- the CCC of the next report is missing, the end of that pass changes nothing: the probe stays in
  -- the state that looks for a CCC, and none of the reports left is subscribed.
  pub wires_up_to_missing :
      (cccs : List Attr) (missing : ℕ) (p : Probe)
      → IsWired p
      → p.disc_state ≡ disc_report_chrc
      → p.sub_count ≡ 0
      → p.pending_count ≡ length cccs + missing
      → 0 < p.pending_count
      → (p' : Probe) × (handle_all answers (discovered none ∷ found_all cccs) p ≡ some p')
        × (discover_func answers none p' ≡ some p')
        × (p'.disc_state ≡ resting missing)
        × (p'.sub_count ≡ length cccs)
        × (take p'.sub_count p'.sub_params ≡ wanted p.pending_reports 0 cccs)
  wires_up_to_missing cccs missing p v at none_yet all more =
      let first : Probe = record p { pending_idx = 0 } in
      let left = remaining_lem cccs missing in
      let (p1, e, at1, v1, reports, count, idx, params, subs) =
        subscribe_pending-resting answers accepting (remaining cccs missing) first
          (record {
            cells = v.cells;
            param_cells = v.param_cells;
            seen_cells = v.seen_cells;
            few = v.few;
            few_subs = v.few_subs;
            few_seen = v.few_seen;
            wiring = λ none. absurd none;
          })
          (omega (arith, all, left)) in
      let (p2, rest, at2, subs2, grown) =
        found_all-resting cccs missing p1 v1 at1 (omega (arith, idx, count, all, left))
          (omega (arith, subs, none_yet, all, v.few)) in
      (
        p2,
        ap (λ r. r >>= handle_all answers (found_all cccs)) (some_pending p at more ∙ e) ∙ rest,
        end_of_pass missing p2 at2,
        at2,
        omega (arith, subs2, subs, none_yet),
        grown
            ∙ ap (λ n. take n p1.sub_params ++ wanted p1.pending_reports p1.pending_idx cccs)
                (subs ∙ none_yet)
            ∙ rw (reports, idx) refl,
      )
