-- ===== src/Central/Bounds/Counters.antt =====
-- The counters, what they have to keep to, and the reads that this makes safe.
use Prim.Native.Nat.{min}
use zmk_ble_hid_host.Base.{
  ℕ, zero, suc, ◌+◌, ◌-◌, ◌^◌, ◌≤◌, ◌<◌, ◌≡◌, refl, sym, ap, subst, Bool, true, false, Option, some,
  List, [], ◌∷◌, length, get_or, get_elem?-eq-get_or, ltb, if◌then◌else◌, ◌>>=◌, u16, arith,
  Bool-cases, inl, inr, ltb→lt,
}
use zmk_ble_hid_host.Central.State.{
  DiscState, disc_idle, disc_hids_primary, disc_report_map_chrc, disc_report_chrc, disc_report_ref,
  disc_ccc, Sought, Subscription, Request, discover, descriptor, Central, store,
}
use zmk_ble_hid_host.Central.Discovery.{cur_report_end_handle, descriptor_request}

-- The states that wire up pending_reports[pending_idx].
abbrev pub IsWiring : DiscState → Type 0
IsWiring disc_report_ref = Unit
IsWiring disc_ccc = Unit
IsWiring disc_idle = ⊥
IsWiring disc_hids_primary = ⊥
IsWiring disc_report_map_chrc = ⊥
IsWiring disc_report_chrc = ⊥

pub record Bounds (reports : List ℕ) (subs : List Subscription) (count idx sub_count : ℕ)
    (state : DiscState) (rm : List ℕ) : Type 0 where
  pub cells : length reports ≡ 12
  pub sub_cells : length subs ≡ 12
  pub few : count ≤ 12
  pub few_subs : sub_count ≤ 12
  pub inside : idx ≤ count
  pub wiring : IsWiring state → idx < count
  pub short : length rm ≤ 512

-- The cut leaves what the buffer has room for.
pub kept_fits :
    (n m : ℕ)
    → n ≤ 512
    → n + min (if ltb m (u16 (512 + 2 ^ 16 - n)) then m else u16 (512 + 2 ^ 16 - n)) m ≤ 512
kept_fits n m h = ground arith

pub counted_fits : (taken : Bool) (n : ℕ) → n < 12 → (if taken then n + 1 else n) ≤ 12
counted_fits true n h = omega arith
counted_fits false n h = omega arith

-- A write inside an array.
pub store-inside :
    {A : Type 0} (xs : List A) (i : ℕ) (v : A)
    → i < length xs
    → (ys : List A) × (store xs i v ≡ some ys) × (length ys ≡ length xs)
store-inside [] i v h = absurd (omega arith)
store-inside (x ∷ xs) zero v h = (v ∷ xs, refl, refl)
store-inside (x ∷ xs) (suc i) v h =
    let (ys, stored, same) = store-inside xs i v (omega arith) in
    (x ∷ ys, rw stored refl, ap suc same)

module _ {Q : Type 0} where
  abbrev pub BoundsIn : DiscState → Central Q → Type 0
  BoundsIn s c =
      Bounds c.pending_reports c.subs c.pending_count c.pending_idx c.sub_count s c.rm_buf

  -- The counters are within their arrays, and in a wiring state there is a report to wire.
  abbrev pub Wired : Central Q → Type 0
  Wired c = BoundsIn c.disc_state c

  -- The same without the state's demand.
  abbrev pub Ready : Central Q → Type 0
  Ready c = BoundsIn disc_idle c

  pub to_Ready : (s : DiscState) (c : Central Q) → BoundsIn s c → Ready c
  to_Ready s c v = record {
    cells = v.cells;
    sub_cells = v.sub_cells;
    few = v.few;
    few_subs = v.few_subs;
    inside = v.inside;
    wiring = λ none. absurd none;
    short = v.short;
  }

  pub from_Ready :
      (s : DiscState) (c : Central Q) → c.pending_idx < c.pending_count → Ready c → BoundsIn s c
  from_Ready s c less v = record {
    cells = v.cells;
    sub_cells = v.sub_cells;
    few = v.few;
    few_subs = v.few_subs;
    inside = v.inside;
    wiring = λ w. less;
    short = v.short;
  }

  -- The call has no undefined access and keeps the bounds.
  abbrev pub Safe : Option (Central Q) → Type 0
  Safe r = (c : Central Q) × (r ≡ some c) × Wired c

  pub Safe-bind {ℓ} :
      {A : Type ℓ} (m : Option A) (f : A → Option (Central Q)) (a : A)
      → m ≡ some a
      → Safe (f a)
      → Safe (m >>= f)
  Safe-bind m f a e h = subst (λ o. Safe (o >>= f)) (sym e) h

  pub descriptor_request-inside :
      (uuid : Sought) (c : Central Q)
      → Ready c
      → c.pending_idx < c.pending_count
      → (r : Request) × (descriptor_request uuid c ≡ some r)
  unfolding descriptor_request cur_report_end_handle
  descriptor_request-inside uuid c v less =
      let value =
        get_elem?-eq-get_or c.pending_reports c.pending_idx 0 (omega (arith, v.few, v.cells)) in
      elim (Bool-cases (ltb (c.pending_idx + 1) c.pending_count)) [
        | inl more ↦
            let next =
              get_elem?-eq-get_or c.pending_reports (c.pending_idx + 1) 0
                (omega (arith, ltb→lt (c.pending_idx + 1) c.pending_count more, v.few, v.cells)) in
            (
              discover uuid descriptor (u16 (get_or c.pending_reports c.pending_idx 0 + 1))
                  (u16 (get_or c.pending_reports (c.pending_idx + 1) 0 + 65535)),
              simp (value, more, next),
            )
        | inr last ↦ (
          discover uuid descriptor (u16 (get_or c.pending_reports c.pending_idx 0 + 1))
              c.hids_end_handle,
          simp (value, last),
        )
      ]
