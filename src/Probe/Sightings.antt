-- ===== src/Probe/Sightings.antt =====
-- What the table of seen advertisers makes of an advertisement: an address is worth a line once, and
-- once more when its name is learned.
use zmk_ble_hid_host.Base.{
  ℕ, zero, suc, ◌+◌, ◌<◌, ◌≡◌, ◌≢◌, refl, sym, ap, ◌∙◌, inl, inr, ◌↔◌, Bool, true, false, not, ◌&&◌,
  Option, none, some, List, get_elem?, ltb, ltb→lt, ◌==◌, ==_iff, if◌then◌else◌, ◌>>=◌, >>=-eq-some,
  Bool-cases, arith,
}
use zmk_ble_hid_host.Central.State.{store}
use zmk_ble_hid_host.Probe.State.{max_seen, SeenDev, Probe}
use zmk_ble_hid_host.Probe.Seen.{Logged, seen_again, seen_first, look_up, should_log}

-- `s` is entry `i` of the table.
abbrev pub HasEntry : Probe → ℕ → SeenDev → Type 0
HasEntry p i s = (i < p.seen_count) × (get_elem? p.seen i ≡ some s)

-- No two entries have the same address.
abbrev pub IsDistinct : Probe → Type 0
IsDistinct p = (i j : ℕ) (s t : SeenDev) → HasEntry p i s → HasEntry p j t → s.addr ≡ t.addr → i ≡ j

-- The address has an entry, and its name is known if the advertisement carries one.
abbrev pub IsKnown : Probe → ℕ → Bool → Type 0
IsKnown p addr has_name =
    (i : ℕ) × (s : SeenDev) × HasEntry p i s × (s.addr ≡ addr) × (has_name ≡ true → s.named ≡ true)

-- The address of an entry, for one that is read.
abbrev addr_of : SeenDev → Option SeenDev → ℕ
addr_of s none = s.addr
addr_of s (some t) = t.addr

abbrev named_of : SeenDev → Option SeenDev → Bool
named_of s none = s.named
named_of s (some t) = t.named

abbrev worth_of : Option Logged → Bool
worth_of none = false
worth_of (some l) = l.worth

abbrev pub logged : Bool → Probe → Logged
logged worth after = record { worth = worth; after = after }

-- How the loop ends: at the entry of the address, or at the end with none.
pub data Found (p : Probe) (addr : ℕ) (has_name : Bool) (l : Logged) : Type 0 where
  again :
      (i : ℕ) (s : SeenDev)
      → HasEntry p i s
      → s.addr ≡ addr
      → seen_again i s has_name p ≡ some l
      → Found p addr has_name l
  first :
      ((i : ℕ) (s : SeenDev) → HasEntry p i s → s.addr ≢ addr)
      → seen_first addr has_name p ≡ some l
      → Found p addr has_name l

module _ (p : Probe) (addr : ℕ) (has_name : Bool) (l : Logged) where
  look_up-Found :
      (left i : ℕ)
      → i + left ≡ p.seen_count
      → ((k : ℕ) (s : SeenDev) → k < i → get_elem? p.seen k ≡ some s → s.addr ≢ addr)
      → look_up left i addr has_name p ≡ some l
      → Found p addr has_name l
  unfolding look_up
  look_up-Found zero i all before e =
      first (λ k s (below, got). before k s (omega (arith, all, below)) got) e
  look_up-Found (suc left) i all before e =
      let (s, got, rest) = >>=-eq-some (get_elem? p.seen i) _ e in
      elim (Bool-cases (s.addr == addr)) [
        | inl same ↦
            again i s (omega (arith, all), got) ((==_iff s.addr addr).0 same)
              (ap
                  (λ (test : Bool).
                    if test
                    then seen_again i s has_name p
                    else look_up left (i + 1) addr has_name p)
                  (sym same)
                ∙ rest)
        | inr other ↦ look_up-Found left (i + 1) (omega (arith, all)) (further s got other) (
            ap
              (λ (test : Bool).
                if test then seen_again i s has_name p else look_up left (i + 1) addr has_name p)
              (sym other)
            ∙ rest)
      ]
    where
      further :
          (s : SeenDev)
          → get_elem? p.seen i ≡ some s
          → (s.addr == addr) ≡ false
          → (k : ℕ) (t : SeenDev) → k < i + 1
          → get_elem? p.seen k ≡ some t
          → t.addr ≢ addr
      further s got other k t below at same = elim (Bool-cases (ltb k i)) [
        | inl less ↦ before k t (ltb→lt k i less) at same
        | inr not_less ↦
            let here : k ≡ i = ground (arith, not_less, below) in
            let same_entry : some s ≡ some t = sym got ∙ ap (get_elem? p.seen) (sym here) ∙ at in
            let same_addr : s.addr ≡ addr = ap (addr_of s) same_entry ∙ same in
            cc (other, (==_iff s.addr addr).1 same_addr)
      ]

  pub should_log-Found : should_log addr has_name p ≡ some l → Found p addr has_name l
  unfolding should_log
  should_log-Found e =
      look_up-Found p.seen_count 0 (omega arith) (λ k s below got. absurd (omega arith)) e

  -- What a call returns, after a write that it makes.
  written-worth :
      (seen : Option (List SeenDev)) (after : List SeenDev → Probe)
      → (seen >>= λ entries. some (logged true (after entries))) ≡ some l
      → l.worth ≡ true
  written-worth none after e = cc
  written-worth (some entries) after e = ap worth_of (sym e)

  -- At an entry, a line is worth it for a first name only.
  again_iff :
      (i : ℕ) (s : SeenDev)
      → seen_again i s has_name p ≡ some l
      → (l.worth ≡ false) ↔ (has_name ≡ true → s.named ≡ true)
  again_iff i s e =
      by_flags has_name s.named
        (store p.seen i (record s { named = true }) >>= λ seen.
          some (logged true (record p { seen = seen })))
        (written-worth (store p.seen i (record s { named = true }))
          (λ seen. record p { seen = seen }))
        e
    where
      by_flags :
          (has named : Bool) (o : Option Logged)
          → (o ≡ some l → l.worth ≡ true)
          → (if has && not named then o else some (logged false p)) ≡ some l
          → (l.worth ≡ false) ↔ (has ≡ true → named ≡ true)
      by_flags true false o w e = (λ f. cc (w e), λ k. cc (k refl))
      by_flags true true o w e = (λ f k. refl, λ k. ap worth_of (sym e))
      by_flags false named o w e = (λ f k. cc, λ k. ap worth_of (sym e))

  first-worth : seen_first addr has_name p ≡ some l → l.worth ≡ true
  first-worth e = by_room (ltb p.seen_count max_seen) e
    where
      by_room :
          (room : Bool)
          → (if room
              then (store p.seen p.seen_count (record { addr = addr; named = has_name }) >>= λ seen.
                  some (logged true (record p { seen = seen; seen_count = p.seen_count + 1 })))
              else some (logged true p))
            ≡ some l
          → l.worth ≡ true
      by_room true e =
          written-worth (store p.seen p.seen_count (record { addr = addr; named = has_name }))
            (λ seen. record p { seen = seen; seen_count = p.seen_count + 1 }) e
      by_room false e = ap worth_of (sym e)

  -- While no two entries of the table have the same address, should_log finds an advertisement worth
  -- no line exactly where its address has an entry, and that entry has a name already or the
  -- advertisement carries none.
  pub should_log_iff :
      IsDistinct p
      → should_log addr has_name p ≡ some l
      → (l.worth ≡ false) ↔ IsKnown p addr has_name
  should_log_iff distinct e = by_end (should_log-Found e)
    where
      by_end : Found p addr has_name l → (l.worth ≡ false) ↔ IsKnown p addr has_name
      by_end (again i s entry same e) =
          let (to, from) = again_iff i s e in
          (
            λ quiet. (i, s, entry, same, to quiet),
            λ (j, t, entry', same', known).
                let here = distinct i j s t entry entry' (same ∙ sym same') in
                let same_entry : some s ≡ some t =
                  sym entry.1 ∙ ap (get_elem? p.seen) here ∙ entry'.1 in
                from (λ h. ap (named_of s) same_entry ∙ known h),
          )
      by_end (first new e) =
          (λ quiet. cc (first-worth e), λ (j, t, entry, same, known). absurd (new j t entry same))
