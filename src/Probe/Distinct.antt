-- ===== src/Probe/Distinct.antt =====
-- The table of seen advertisers has one entry for an address.
use zmk_ble_hid_host.Base.{
  ℕ, zero, suc, ◌+◌, ◌<◌, ◌≡◌, ◌≢◌, refl, sym, ap, ◌∙◌, subst, ◌⊎◌, inl, inr, Bool, true, false,
  not, ◌&&◌, Option, none, some, List, [], ◌∷◌, get_elem?, ltb, if◌then◌else◌, ◌>>=◌, >>=-eq-some,
  arith,
}
use zmk_ble_hid_host.Central.State.{store}
use zmk_ble_hid_host.Probe.State.{max_seen, SeenDev, Probe}
use zmk_ble_hid_host.Probe.Seen.{Logged, seen_again, seen_first, should_log}
use zmk_ble_hid_host.Probe.Sightings.{
  HasEntry, IsDistinct, Found, again, first, should_log-Found, logged,
}

-- After a write to cell `i`, a cell is the written one or an old one.
abbrev Written : {A : Type 0} → List A → ℕ → A → Option (List A) → Type 0
Written xs i v none = Unit
Written {A = A} xs i v (some ys) =
    (j : ℕ) (w : A)
    → get_elem? ys j ≡ some w
    → ((j ≡ i) × (v ≡ w)) ⊎ ((j ≢ i) × (get_elem? xs j ≡ some w))

-- The value of a cell, for one that is read.
abbrev cell_of : {A : Type 0} → A → Option A → A
cell_of a none = a
cell_of a (some b) = b

store-Written : {A : Type 0} (xs : List A) (i : ℕ) (v : A) → Written xs i v (store xs i v)
store-Written [] i v = tt
store-Written (x ∷ xs) zero v = at_first
  where
    at_first : Written (x ∷ xs) zero v (some (v ∷ xs))
    at_first zero w e = inl (refl, ap (cell_of v) e)
    at_first (suc j) w e = inr ((λ h. omega (arith, h)), e)
store-Written {A = A} (x ∷ xs) (suc i) v = by_rest (store xs i v) (store-Written xs i v)
  where
    shifted :
        (ys : List A)
        → Written xs i v (some ys)
        → (j : ℕ) (w : A) → get_elem? (x ∷ ys) j ≡ some w
        → ((j ≡ suc i) × (v ≡ w)) ⊎ ((j ≢ suc i) × (get_elem? (x ∷ xs) j ≡ some w))
    shifted ys h zero w e = inr ((λ h. omega (arith, h)), e)
    shifted ys h (suc j) w e = elim (h j w e) [
      | inl (here, same) ↦ inl (ap suc here, same)
      | inr (other, old) ↦ inr ((λ k. other (omega (arith, k))), old)
    ]

    by_rest :
        (o : Option (List A))
        → Written xs i v o
        → Written (x ∷ xs) (suc i) v (elim o [ none ↦ none | some ys ↦ some (x ∷ ys) ])
    by_rest none h = tt
    by_rest (some ys) h = shifted ys h

module _ (p : Probe) where
  -- The same addresses, entry by entry.
  KeepsAddresses : Probe → Type 0
  KeepsAddresses q =
      (j : ℕ) (t : SeenDev) → HasEntry q j t → (s : SeenDev) × HasEntry p j s × (s.addr ≡ t.addr)

  KeepsAddresses-IsDistinct : (q : Probe) → IsDistinct p → KeepsAddresses q → IsDistinct q
  unfolding KeepsAddresses
  KeepsAddresses-IsDistinct q distinct kept i j s t ei ej same =
      let (s0, e0, a0) = kept i s ei in
      let (t0, f0, b0) = kept j t ej in distinct i j s0 t0 e0 f0 (a0 ∙ same ∙ sym b0)

  -- The entries and one more, with a new address.
  AddsAddress : ℕ → Probe → Type 0
  AddsAddress addr q =
      (j : ℕ) (t : SeenDev)
      → HasEntry q j t
      → HasEntry p j t ⊎ ((j ≡ p.seen_count) × (t.addr ≡ addr))

  AddsAddress-IsDistinct :
      (addr : ℕ) (q : Probe)
      → IsDistinct p
      → ((i : ℕ) (s : SeenDev) → HasEntry p i s → s.addr ≢ addr)
      → AddsAddress addr q
      → IsDistinct q
  unfolding AddsAddress
  AddsAddress-IsDistinct addr q distinct new added i j s t ei ej same = elim (added i s ei) [
    | inl old ↦ elim (added j t ej) [
      | inl old' ↦ distinct i j s t old old' same
      | inr (last, is_new) ↦ absurd (new i s old (same ∙ is_new))
    ]
    | inr (last, is_new) ↦ elim (added j t ej) [
      | inl old' ↦ absurd (new j t old' (sym same ∙ is_new))
      | inr (last', is_new') ↦ last ∙ sym last'
    ]
  ]

-- What the call leaves, for one that returns.
abbrev after_of : Probe → Option Logged → Probe
after_of p none = p
after_of p (some l) = l.after

module _ (p : Probe) (addr : ℕ) (has_name : Bool) (l : Logged) where
  again-KeepsAddresses :
      (i : ℕ) (s : SeenDev)
      → HasEntry p i s
      → seen_again i s has_name p ≡ some l
      → KeepsAddresses p l.after
  unfolding KeepsAddresses
  again-KeepsAddresses i s entry e = by_test (has_name && not s.named) e
    where
      named : SeenDev
      named = record s { named = true }

      untouched : KeepsAddresses p p
      untouched j t at = (t, at, refl)

      by_test :
          (test : Bool)
          → (if test
              then (store p.seen i (record s { named = true }) >>= λ seen.
                  some (logged true (record p { seen = seen })))
              else some (logged false p))
            ≡ some l
          → KeepsAddresses p l.after
      by_test false e = subst (KeepsAddresses p) (ap (after_of p) e) untouched
      by_test true e =
          let (seen, stored, done) = >>=-eq-some (store p.seen i (record s { named = true })) _ e in
          subst (KeepsAddresses p) (ap (after_of p) done) (
            rewritten seen (
              subst (Written p.seen i (record s { named = true })) stored
                (store-Written p.seen i (record s { named = true }))))
        where
          rewritten :
              (seen : List SeenDev)
              → Written p.seen i (record s { named = true }) (some seen)
              → KeepsAddresses p (record p { seen = seen })
          rewritten seen w j t (below, at) = elim (w j t at) [
            | inl (here, same) ↦ (
              s,
              (below, ap (get_elem? p.seen) here ∙ entry.1),
              ap (λ (d : SeenDev). d.addr) same,
            )
            | inr (other, old) ↦ (t, (below, old), refl)
          ]

  first-AddsAddress : seen_first addr has_name p ≡ some l → AddsAddress p addr l.after
  unfolding AddsAddress
  first-AddsAddress e = by_room (ltb p.seen_count max_seen) e
    where
      added : SeenDev
      added = record { addr = addr; named = has_name }

      untouched : AddsAddress p addr p
      untouched j t at = inl at

      by_room :
          (room : Bool)
          → (if room
              then (store p.seen p.seen_count (record { addr = addr; named = has_name }) >>= λ seen.
                  some (logged true (record p { seen = seen; seen_count = p.seen_count + 1 })))
              else some (logged true p))
            ≡ some l
          → AddsAddress p addr l.after
      by_room false e = subst (AddsAddress p addr) (ap (after_of p) e) untouched
      by_room true e =
          let new : SeenDev = record { addr = addr; named = has_name } in
          let (seen, stored, done) = >>=-eq-some (store p.seen p.seen_count new) _ e in
          subst (AddsAddress p addr) (ap (after_of p) done) (
            extended seen (
              subst (Written p.seen p.seen_count new) stored
                (store-Written p.seen p.seen_count new)))
        where
          before : (j : ℕ) → j < p.seen_count + 1 → j ≢ p.seen_count → j < p.seen_count
          before j below other = grind arith

          extended :
              (seen : List SeenDev)
              → Written p.seen p.seen_count (record { addr = addr; named = has_name }) (some seen)
              → AddsAddress p addr (record p { seen = seen; seen_count = p.seen_count + 1 })
          extended seen w j t (below, at) = elim (w j t at) [
            | inl (here, same) ↦ inr (here, sym (ap (λ (d : SeenDev). d.addr) same))
            | inr (other, old) ↦ inl (before j below other, old)
          ]

  -- should_log keeps the addresses of the table's entries different from one another.
  pub should_log-IsDistinct :
      IsDistinct p → should_log addr has_name p ≡ some l → IsDistinct l.after
  should_log-IsDistinct distinct e = by_end (should_log-Found p addr has_name l e)
    where
      by_end : Found p addr has_name l → IsDistinct l.after
      by_end (again i s entry same e) =
          KeepsAddresses-IsDistinct p l.after distinct (again-KeepsAddresses i s entry e)
      by_end (first new e) =
          AddsAddress-IsDistinct p addr l.after distinct new (first-AddsAddress e)
