-- ===== src/Central/Wiring/Steps.antt =====
-- The callbacks of the wiring, one by one.
use zmk_ble_hid_host.Base.{
  ℕ, zero, suc, ◌+◌, ◌<◌, ◌≡◌, refl, ap, ◌∙◌, subst, true, false, Option, none, some, List, [], ◌∷◌,
  ◌++◌, length, take, get_or, get_elem?-eq-get_or, ltb, leb, if◌then◌else◌, ◌>>=◌, arith,
}
use zmk_ble_hid_host.Central.State.{
  disc_idle, disc_report_ref, disc_ccc, hids_report_ref, gatt_ccc, Subscription, Request, read,
  subscribe, Answer, ok, is_ok, Stack, Attr, Central, store,
}
use zmk_ble_hid_host.Central.Discovery.{
  ask, discover_ccc, subscribe_pending, report_ref_read_cb, read_report_ref, add_subscription,
  found, discover_func,
}
use zmk_ble_hid_host.Central.Bounds.Counters.{
  Ready, Wired, descriptor_request-inside, from_Ready, store-inside,
}
use zmk_ble_hid_host.Central.Wiring.{Described, IsAt, aside}

pub if_is_ok {ℓ} : {A : Type ℓ} (a : Answer) (x y : A) → a ≡ ok → (if is_ok a then x else y) ≡ x
if_is_ok a x y e = ap (λ b. if is_ok b then x else y) e

pub then_some {ℓ κ} :
    {A : Type ℓ} {B : Type κ} (m : Option A) (f : A → Option B) (a : A)
    → m ≡ some a
    → (m >>= f) ≡ f a
then_some m f a e = ap (λ o. o >>= f) e

-- A write after the first `i` cells.
abbrev pub Grows {ℓ} : {A : Type ℓ} → List A → ℕ → A → Option (List A) → Type ℓ
Grows xs i v none = Unit
Grows xs i v (some ys) = take (suc i) ys ≡ take i xs ++ (v ∷ [])

pub store-Grows {ℓ} : {A : Type ℓ} (xs : List A) (i : ℕ) (v : A) → Grows xs i v (store xs i v)
store-Grows [] i v = tt
store-Grows (x ∷ xs) zero v = refl
store-Grows {A = A} (x ∷ xs) (suc i) v = by_rest (store xs i v) (store-Grows xs i v)
  where
    by_rest :
        (o : Option (List A))
        → Grows xs i v o
        → Grows (x ∷ xs) (suc i) v (elim o [ none ↦ none | some ys ↦ some (x ∷ ys) ])
    by_rest none h = tt
    by_rest (some ys) h = ap (◌∷◌ x) h

module _ {Q : Type 0} (answers : Stack)
    (accepting : (calls : List Request) (r : Request) → answers calls r ≡ ok) where
  -- The next report's turn, or the end.
  pub subscribe_pending-IsAt :
      (ws : List Described) (c : Central Q)
      → Ready c
      → c.pending_idx + length ws ≡ c.pending_count
      → (c' : Central Q) × (subscribe_pending answers c ≡ some c')
        × IsAt ws c'.disc_state
        × Wired c'
        × (c'.pending_reports ≡ c.pending_reports)
        × (c'.pending_count ≡ c.pending_count)
        × (c'.pending_idx ≡ c.pending_idx)
        × (c'.subs ≡ c.subs)
        × (c'.sub_count ≡ c.sub_count)
        × (aside c' ≡ aside c)
  unfolding subscribe_pending
  subscribe_pending-IsAt [] c v all =
      let done : leb c.pending_count c.pending_idx ≡ true = ground (arith, all) in
      (
        record c { disc_state = disc_idle },
        rw done refl,
        refl,
        v,
        refl,
        refl,
        refl,
        refl,
        refl,
        refl,
      )
  subscribe_pending-IsAt (w ∷ ws) c v all =
      let more : leb c.pending_count c.pending_idx ≡ false = ground (arith, all) in
      let less : c.pending_idx < c.pending_count = omega (arith, all) in
      let (r, e) = descriptor_request-inside hids_report_ref c v less in
      (
        ask r (record c { cur_report_id = 0; disc_state = disc_report_ref }),
        rw more (rw e (if_is_ok (answers c.requests r) _ _ (accepting c.requests r))),
        refl,
        from_Ready disc_report_ref c less v,
        refl,
        refl,
        refl,
        refl,
        refl,
        refl,
      )

  -- The descriptor's attribute is read.
  pub found_reference :
      (attr : Attr) (c : Central Q)
      → c.disc_state ≡ disc_report_ref
      → discover_func answers (some attr) c ≡ some (ask (read attr.handle) c)
  unfolding discover_func found read_report_ref
  found_reference attr c at =
      ap (λ s. found answers s attr c) at
      ∙ if_is_ok (answers c.requests (read attr.handle)) _ _
          (accepting c.requests (read attr.handle))

  -- Its value is the report ID, and the CCC is looked for.
  pub read_reference :
      (id : ℕ) (kind : List ℕ) (c : Central Q)
      → Ready c
      → c.pending_idx < c.pending_count
      → (r : Request) × (report_ref_read_cb answers 0 (some (id ∷ kind)) c
          ≡ some (ask r (record c { cur_report_id = id; disc_state = disc_ccc })))
  unfolding report_ref_read_cb discover_ccc
  read_reference id kind c v less =
      let (r, e) = descriptor_request-inside gatt_ccc (record c { cur_report_id = id }) v less in
      (r, rw e (ap some (if_is_ok (answers c.requests r) _ _ (accepting c.requests r))))

  -- The subscription of the report in turn.
  abbrev turn : Central Q → ℕ → Subscription
  turn c ccc = record {
    report_id = c.cur_report_id;
    value_handle = get_or c.pending_reports c.pending_idx 0;
    ccc_handle = ccc;
  }

  add_subscription-ok :
      (ccc : ℕ) (c : Central Q)
      → Wired c
      → c.pending_idx < c.pending_count
      → c.sub_count < 12
      → (subs : List Subscription) × (add_subscription answers ccc c
          ≡ some (
              ask (subscribe (turn c ccc)) (record c { subs = subs; sub_count = c.sub_count + 1 })))
        × (length subs ≡ length c.subs)
        × (take (suc c.sub_count) subs ≡ take c.sub_count c.subs ++ (turn c ccc ∷ []))
  unfolding add_subscription
  add_subscription-ok ccc c v less room =
      let value =
        get_elem?-eq-get_or c.pending_reports c.pending_idx 0
          (omega (arith, less, v.few, v.cells)) in
      let (subs, stored, same) =
        store-inside c.subs c.sub_count (turn c ccc) (omega (arith, room, v.sub_cells)) in
      let open_room : ltb c.sub_count 12 ≡ true = ground (arith, room) in
      (
        subs,
        simp (open_room, value, stored, accepting),
        same,
        subst (Grows c.subs c.sub_count (turn c ccc)) stored
            (store-Grows c.subs c.sub_count (turn c ccc)),
      )

  pub found_ccc :
      (ws : List Described) (attr : Attr) (c : Central Q)
      → Wired c
      → c.disc_state ≡ disc_ccc
      → c.pending_idx + suc (length ws) ≡ c.pending_count
      → c.sub_count < 12
      → (c' : Central Q) × (discover_func answers (some attr) c ≡ some c')
        × IsAt ws c'.disc_state
        × Wired c'
        × (c'.pending_reports ≡ c.pending_reports)
        × (c'.pending_count ≡ c.pending_count)
        × (c'.pending_idx ≡ c.pending_idx + 1)
        × (c'.sub_count ≡ c.sub_count + 1)
        × (take c'.sub_count c'.subs ≡ take c.sub_count c.subs ++ (turn c attr.handle ∷ []))
        × (aside c' ≡ aside c)
  unfolding discover_func found
  found_ccc ws attr c v at all room =
      let less : c.pending_idx < c.pending_count = omega (arith, all) in
      let (subs, added, same, grown) = add_subscription-ok attr.handle c v less room in
      let next : Central Q =
        ask (subscribe (turn c attr.handle)) (record c {
          subs = subs;
          sub_count = c.sub_count + 1;
          pending_idx = c.pending_idx + 1;
        }) in
      let (c', e, at', v', reports, count, idx, subs', sub_count, same_aside) =
        subscribe_pending-IsAt ws next
          (record {
            cells = v.cells;
            sub_cells = same ∙ v.sub_cells;
            few = v.few;
            few_subs = omega (arith, room);
            inside = omega (arith, less);
            wiring = λ none. absurd none;
            short = v.short;
          })
          (omega (arith, all)) in
      (
        c',
        ap (λ s. found answers s attr c) at
            ∙ ap
                (λ o. o >>= λ d.
                  subscribe_pending answers (record d { pending_idx = d.pending_idx + 1 }))
                added
            ∙ e,
        at',
        v',
        reports,
        count,
        idx,
        sub_count,
        ap (λ n. take n c'.subs) (sub_count ∙ suc_count c.sub_count)
            ∙ ap (take (suc c.sub_count)) subs'
            ∙ grown,
        same_aside,
      )
    where
      suc_count : (n : ℕ) → n + 1 ≡ suc n
      suc_count n = omega arith
