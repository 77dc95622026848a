-- ===== src/Central/Session.antt =====
-- A whole link, from its encryption to the last subscription: the callbacks of the central in the
-- order in which the stack makes them for a peer with a HID service.
pub mod Expected
use zmk_ble_hid_host.Base.{
  ℕ, zero, suc, ◌+◌, ◌≤◌, ◌<◌, ◌≡◌, refl, sym, ap, ap₂, ◌∙◌, subst, Bool, true, false, Option, none,
  some, List, [], ◌∷◌, ◌++◌, append-nil, append_assoc, length, take, get_or, ltb, if◌then◌else◌,
  ◌>>=◌, ◌&&◌, meets, Bool-cases, inl, inr, arith, length-append, lt→ltb,
}
use zmk_ble_hid_host.Central.State.{
  chrc_notify, disc_report_chrc, Subscription, Stack, Attr, Central, store,
}
use zmk_ble_hid_host.Central.Discovery.{collect_report, report_map_read_cb, found, discover_func}
use zmk_ble_hid_host.Central.Link.{security_changed}
use zmk_ble_hid_host.Central.Reassembly.{read_chunks}
use zmk_ble_hid_host.Central.Bounds.Counters.{store-inside}
use zmk_ble_hid_host.Central.Wiring.{Described, wire_all, wanted}
use zmk_ble_hid_host.Central.Wiring.Steps.{Grows, store-Grows, then_some}

-- What a peer's GATT database holds: its HID service, the Report Map characteristic, all report
-- characteristics, and for each that notifies its descriptors.
pub record Service : Type 0 where
  pub service : Attr
  pub map : Attr
  pub chrcs : List Attr
  pub reports : List Described

-- The value handles of the characteristics that notify.
abbrev pub notifying : List Attr → List ℕ
notifying [] = []
notifying (a ∷ attrs) =
    if meets a.properties chrc_notify then a.value_handle ∷ notifying attrs else notifying attrs

module _ {Q : Type 0} (answers : Stack) where
  abbrev pub collect_all : List Attr → Central Q → Option (Central Q)
  collect_all [] c = some c
  collect_all (a ∷ attrs) c = discover_func answers (some a) c >>= collect_all attrs

  -- From the report map's end to the last subscription.
  abbrev pub wire_service : Service → Central Q → Option (Central Q)
  wire_service s c =
      collect_all s.chrcs c >>= λ c1. discover_func answers none c1 >>= wire_all answers s.reports

  -- From the encryption of the link on; `chunks` are the PDUs of the report map.
  abbrev pub bring_up : ℕ → ℕ → ℕ → ℕ → Service → List (List ℕ) → Central Q → Option (Central Q)
  bring_up conn addr now level s chunks c =
      discover_func answers (some s.service) (security_changed answers conn addr now level 0 c)
      >>= λ c1. discover_func answers (some s.map) c1 >>= λ c2.
          read_chunks answers chunks c2 >>= λ c3.
          report_map_read_cb answers 0 none c3 >>= wire_service s

  -- The characteristics that notify are collected in order.
  collected :
      (a : Attr) (c : Central Q)
      → c.disc_state ≡ disc_report_chrc
      → length c.pending_reports ≡ 12
      → meets a.properties chrc_notify ≡ true
      → c.pending_count < 12
      → (reports : List ℕ) × (discover_func answers (some a) c
          ≡ some (record c { pending_reports = reports; pending_count = c.pending_count + 1 }))
        × (length reports ≡ 12)
        × (take (suc c.pending_count) reports
            ≡ take c.pending_count c.pending_reports ++ (a.value_handle ∷ []))
  unfolding discover_func found collect_report
  collected a c at cells notifies room =
      let (reports, stored, same) =
        store-inside c.pending_reports c.pending_count a.value_handle (omega (arith, cells)) in
      (
        reports,
        ap (λ s. found answers s a c) at
            ∙ ap₂
                (λ (n r : Bool).
                  if n && r
                  then (store c.pending_reports c.pending_count a.value_handle >>= λ reports.
                      some (record c {
                        pending_reports = reports;
                        pending_count = c.pending_count + 1;
                      }))
                  else some c)
                notifies (lt→ltb c.pending_count 12 room)
            ∙ then_some (store c.pending_reports c.pending_count a.value_handle) _ reports stored,
        same ∙ cells,
        subst (Grows c.pending_reports c.pending_count a.value_handle) stored
            (store-Grows c.pending_reports c.pending_count a.value_handle),
      )

  passed_over :
      (a : Attr) (c : Central Q)
      → c.disc_state ≡ disc_report_chrc
      → meets a.properties chrc_notify ≡ false
      → discover_func answers (some a) c ≡ some c
  unfolding discover_func found collect_report
  passed_over a c at silent =
      ap (λ s. found answers s a c) at
      ∙ ap
          (λ (n : Bool).
            if n && ltb c.pending_count 12
            then (store c.pending_reports c.pending_count a.value_handle >>= λ reports.
                some (record c { pending_reports = reports; pending_count = c.pending_count + 1 }))
            else some c)
          silent

  pub collect_all-lem :
      (attrs : List Attr) (c : Central Q)
      → c.disc_state ≡ disc_report_chrc
      → length c.pending_reports ≡ 12
      → c.pending_count + length (notifying attrs) ≤ 12
      → (reports : List ℕ) × (collect_all attrs c
          ≡ some (record c {
            pending_reports = reports;
            pending_count = c.pending_count + length (notifying attrs);
          }))
        × (length reports ≡ 12)
        × (take (c.pending_count + length (notifying attrs)) reports
            ≡ take c.pending_count c.pending_reports ++ notifying attrs)
  collect_all-lem [] c at cells room = (
    c.pending_reports,
    ap (λ n. some (record c { pending_count = n })) (omega arith),
    cells,
    ap (λ (n : ℕ). take n c.pending_reports) (omega arith)
        ∙ sym (append-nil (take c.pending_count c.pending_reports)),
  )
  collect_all-lem (a ∷ attrs) c at cells room = elim (Bool-cases (meets a.properties chrc_notify)) [
    | inl notifies ↦
        let len : length (notifying (a ∷ attrs)) ≡ suc (length (notifying attrs)) =
          ap
            (λ (n : Bool). length (if n then a.value_handle ∷ notifying attrs else notifying attrs))
            notifies in
        let list : notifying (a ∷ attrs) ≡ a.value_handle ∷ notifying attrs =
          ap (λ (n : Bool). if n then a.value_handle ∷ notifying attrs else notifying attrs)
            notifies in
        let (reports, e, same, grown) = collected a c at cells notifies (omega (arith, len)) in
        let c1 : Central Q = record c {
          pending_reports = reports;
          pending_count = c.pending_count + 1;
        } in
        let (reports', e', same', grown') = collect_all-lem attrs c1 at same (omega (arith, len)) in
        (
          reports',
          then_some (discover_func answers (some a) c) (collect_all attrs) c1 e
              ∙ e'
              ∙ ap (λ n. some (record c { pending_reports = reports'; pending_count = n }))
                  (omega (arith, len)),
          same',
          ap (λ (n : ℕ). take n reports') (omega (arith, len))
              ∙ grown'
              ∙ ap (λ (n : ℕ). take n reports ++ notifying attrs) (suc_count c.pending_count)
              ∙ ap (λ hs. hs ++ notifying attrs) grown
              ∙ append_assoc (take c.pending_count c.pending_reports) (a.value_handle ∷ [])
                  (notifying attrs)
              ∙ ap (λ hs. take c.pending_count c.pending_reports ++ hs) (sym list),
        )
    | inr silent ↦
        let list : notifying (a ∷ attrs) ≡ notifying attrs =
          ap (λ (n : Bool). if n then a.value_handle ∷ notifying attrs else notifying attrs)
            silent in
        let (reports', e', same', grown') =
          collect_all-lem attrs c at cells (omega (arith, ap length list)) in
        (
          reports',
          then_some (discover_func answers (some a) c) (collect_all attrs) c
                (passed_over a c at silent)
              ∙ e'
              ∙ ap
                  (λ hs. some (record c {
                    pending_reports = reports';
                    pending_count = c.pending_count + length hs;
                  }))
                  (sym list),
          same',
          ap (λ (hs : List ℕ). take (c.pending_count + length hs) reports') list
              ∙ grown'
              ∙ ap (λ hs. take c.pending_count c.pending_reports ++ hs) (sym list),
        )
  ]
    where
      suc_count : (n : ℕ) → n + 1 ≡ suc n
      suc_count n = omega arith
