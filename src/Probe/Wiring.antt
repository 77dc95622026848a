-- ===== src/Probe/Wiring.antt =====
-- The wiring of a peer's reports by the probe, where the stack accepts every call: up to the first
-- report without a CCC.
pub mod Result
use zmk_ble_hid_host.Base.{
  ℕ, zero, suc, ◌+◌, ◌≤◌, ◌<◌, ◌≡◌, refl, sym, ap, ◌∙◌, subst, Bool, true, false, Option, none,
  some, List, [], ◌∷◌, ◌++◌, append-nil, append_assoc, length, take, get_or, get_elem?-eq-get_or,
  ltb, leb, ◌==◌, if◌then◌else◌, ◌>>=◌, arith, u16,
}
use zmk_ble_hid_host.Central.State.{gatt_ccc, descriptor, ok, Attr, store}
use zmk_ble_hid_host.Central.Bounds.Counters.{store-inside}
use zmk_ble_hid_host.Central.Wiring.Steps.{if_is_ok, then_some, Grows, store-Grows}
use zmk_ble_hid_host.Probe.State.{
  DiscState, disc_idle, disc_report_chrc, disc_ccc, SubParams, Request, discover, subscribe, Stack,
  Probe, ask,
}
use zmk_ble_hid_host.Probe.Discovery.{
  subscribe_pending, add_subscription, pass_finished, found, discover_func,
}
use zmk_ble_hid_host.Probe.Events.{Event, discovered, handle_all}
use zmk_ble_hid_host.Probe.Bounds.{FitsIn, IsWired, relabel}

-- The callbacks for CCCs that are found, one for each report in turn.
abbrev pub found_all : List Attr → List Event
found_all [] = []
found_all (ccc ∷ cccs) = discovered (some ccc) ∷ found_all cccs

-- The subscriptions that these reports should get, by their value handles from index `idx` on.
abbrev pub wanted : List ℕ → ℕ → List Attr → List SubParams
wanted reports idx [] = []
wanted reports idx (ccc ∷ cccs) =
    record { value_handle = get_or reports idx 0; ccc_handle = ccc.handle }
    ∷ wanted reports (idx + 1) cccs

-- The reports to go before these CCCs, with `missing` more after them.
abbrev pub remaining : List Attr → ℕ → ℕ
remaining [] missing = missing
remaining (ccc ∷ cccs) missing = suc (remaining cccs missing)

pub remaining_lem :
    (cccs : List Attr) (missing : ℕ) → remaining cccs missing ≡ length cccs + missing
remaining_lem [] missing = omega arith
remaining_lem (ccc ∷ cccs) missing = omega (arith, remaining_lem cccs missing)

-- Where the state machine stands with this many reports to go.
abbrev pub resting : ℕ → DiscState
resting zero = disc_idle
resting (suc left) = disc_ccc

module _ (answers : Stack)
    (accepting : (calls : List Request) (r : Request) → answers calls r ≡ ok) where
  pub subscribe_pending-resting :
      (left : ℕ) (p : Probe)
      → FitsIn disc_idle p
      → p.pending_idx + left ≡ p.pending_count
      → (p' : Probe) × (subscribe_pending answers p ≡ some p')
        × (p'.disc_state ≡ resting left)
        × IsWired p'
        × (p'.pending_reports ≡ p.pending_reports)
        × (p'.pending_count ≡ p.pending_count)
        × (p'.pending_idx ≡ p.pending_idx)
        × (p'.sub_params ≡ p.sub_params)
        × (p'.sub_count ≡ p.sub_count)
  unfolding subscribe_pending
  subscribe_pending-resting zero p v all =
      let done : leb p.pending_count p.pending_idx ≡ true = ground (arith, all) in
      (record p { disc_state = disc_idle }, rw done refl, refl, v, refl, refl, refl, refl, refl)
  subscribe_pending-resting (suc left) p v all =
      let more : leb p.pending_count p.pending_idx ≡ false = ground (arith, all) in
      let less : p.pending_idx < p.pending_count = omega (arith, all) in
      let value =
        get_elem?-eq-get_or p.pending_reports p.pending_idx 0
          (omega (arith, less, v.few, v.cells)) in
      let r =
        discover gatt_ccc descriptor (u16 (get_or p.pending_reports p.pending_idx 0 + 1))
          p.hids_end_handle in
      (
        record (ask r p) { disc_state = disc_ccc },
        rw more (
            rw value (
              ap (λ s. some (record (ask r p) { disc_state = s }))
                (if_is_ok (answers p.requests r) disc_ccc disc_idle (accepting p.requests r)))),
        refl,
        relabel disc_idle disc_ccc p (λ w. less) v,
        refl,
        refl,
        refl,
        refl,
        refl,
      )

  -- The subscription of the report in turn.
  abbrev pub turn : Probe → ℕ → SubParams
  turn p ccc = record { value_handle = get_or p.pending_reports p.pending_idx 0; ccc_handle = ccc }

  add_subscription-ok :
      (ccc : ℕ) (p : Probe)
      → FitsIn disc_ccc p
      → p.sub_count < 12
      → (params : List SubParams) × (add_subscription answers ccc p
          ≡ some (
              ask
                (subscribe (turn p ccc))
                (record p { sub_params = params; sub_count = p.sub_count + 1 })))
        × (length params ≡ length p.sub_params)
        × (take (suc p.sub_count) params ≡ take p.sub_count p.sub_params ++ (turn p ccc ∷ []))
  unfolding add_subscription
  add_subscription-ok ccc p v room =
      let value =
        get_elem?-eq-get_or p.pending_reports p.pending_idx 0
          (omega (arith, v.wiring tt, v.few, v.cells)) in
      let (params, stored, same) =
        store-inside p.sub_params p.sub_count (turn p ccc) (omega (arith, room, v.param_cells)) in
      let open_room : ltb p.sub_count 12 ≡ true = ground (arith, room) in
      (
        params,
        simp (open_room, value, stored, accepting),
        same,
        subst (Grows p.sub_params p.sub_count (turn p ccc)) stored
            (store-Grows p.sub_params p.sub_count (turn p ccc)),
      )

  pub found_ccc :
      (left : ℕ) (ccc : Attr) (p : Probe)
      → IsWired p
      → p.disc_state ≡ disc_ccc
      → p.pending_idx + suc left ≡ p.pending_count
      → p.sub_count < 12
      → (p' : Probe) × (discover_func answers (some ccc) p ≡ some p')
        × (p'.disc_state ≡ resting left)
        × IsWired p'
        × (p'.pending_reports ≡ p.pending_reports)
        × (p'.pending_count ≡ p.pending_count)
        × (p'.pending_idx ≡ p.pending_idx + 1)
        × (p'.sub_count ≡ p.sub_count + 1)
        × (take p'.sub_count p'.sub_params
            ≡ take p.sub_count p.sub_params ++ (turn p ccc.handle ∷ []))
  unfolding discover_func found
  found_ccc left ccc p v at all room =
      let w : FitsIn disc_ccc p = subst (λ s. FitsIn s p) at v in
      let (params, added, same, grown) = add_subscription-ok ccc.handle p w room in
      let next : Probe = ask (subscribe (turn p ccc.handle)) (record p {
        sub_params = params;
        sub_count = p.sub_count + 1;
        pending_idx = p.pending_idx + 1;
      }) in
      let (p', e, at', v', reports, count, idx, params', sub_count) =
        subscribe_pending-resting left next
          (record {
            cells = w.cells;
            param_cells = same ∙ w.param_cells;
            seen_cells = w.seen_cells;
            few = w.few;
            few_subs = omega (arith, room);
            few_seen = w.few_seen;
            wiring = λ none. absurd none;
          })
          (omega (arith, all)) in
      (
        p',
        ap (λ s. found answers s ccc p) at
            ∙ ap
                (λ o. o >>= λ d.
                  subscribe_pending answers (record d { pending_idx = d.pending_idx + 1 }))
                added
            ∙ e,
        at',
        v',
        reports,
        count,
        idx,
        sub_count,
        ap (λ n. take n p'.sub_params) (sub_count ∙ suc_count p.sub_count)
            ∙ ap (take (suc p.sub_count)) params'
            ∙ grown,
      )
    where
      suc_count : (n : ℕ) → n + 1 ≡ suc n
      suc_count n = omega arith
