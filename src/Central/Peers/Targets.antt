-- ===== src/Central/Peers/Targets.antt =====
-- Which peers the central connects to.
use mathlib.Core.List.{foldl}
use zmk_ble_hid_host.Base.{
  ℕ, ◌≤◌, ◌≡◌, refl, ◌↔◌, ◌⊎◌, inl, inr, Bool, true, false, not, ◌&&◌, none, some, List, [], ◌∷◌,
  ◌==◌, ==_iff, set_flag_iff, if◌then◌else◌, arith, Option, ◌++◌,
}
use zmk_ble_hid_host.Central.State.{scan_stop, create, ok, Stack, Central}
use zmk_ble_hid_host.Central.Advert.{AdElement, parse_advert, gap_appearance, le16}
use zmk_ble_hid_host.Central.Advert.Matching.{LooksLikePointer, parse_advert_iff}
use zmk_ble_hid_host.Central.Peers.{
  AdvType, is_connectable, bond_match_cb, addr_is_bonded, elapsed, is_cooling, is_target,
  connect_to, device_found,
}

-- `addr` is one of the bonds.
abbrev pub IsBonded : List ℕ → ℕ → Type 0
IsBonded [] addr = ⊥
IsBonded (bond ∷ bonds) addr = (bond ≡ addr) ⊎ IsBonded bonds addr

found_from :
    (bonds : List ℕ) (addr : ℕ) (found : Bool)
    → (foldl (bond_match_cb addr) found bonds ≡ true) ↔ ((found ≡ true) ⊎ IsBonded bonds addr)
found_from [] addr found = (inl, λ h. elim h [ inl e ↦ e | inr b ↦ absurd b ])
found_from (bond ∷ bonds) addr found =
    let (to, from) = found_from bonds addr (bond_match_cb addr found bond) in
    let (split, join) = set_flag_iff (bond == addr) found in
    (
      λ h. elim (to h) [
        | inr later ↦ inr (inr later)
        | inl now ↦ elim (split now) [
          | inl same ↦ inr (inl ((==_iff bond addr).0 same))
          | inr before ↦ inl before
        ]
      ],
      λ h. from (elim h [
        | inl before ↦ inl (join (inr before))
        | inr b ↦ elim b [
          | inl same ↦ inl (join (inl ((==_iff bond addr).1 same)))
          | inr later ↦ inr later
        ]
      ]),
    )

addr_is_bonded_iff :
    (bonds : List ℕ) (addr : ℕ) → (addr_is_bonded bonds addr ≡ true) ↔ IsBonded bonds addr
unfolding addr_is_bonded
addr_is_bonded_iff bonds addr =
    let (to, from) = found_from bonds addr false in
    (λ h. elim (to h) [ inl never ↦ absurd (ground arith) | inr b ↦ b ], λ b. from (inr b))

module _ {Q : Type 0} (bonds : List ℕ) (addr : ℕ) (es : List AdElement) (now : ℕ)
    (c : Central Q) where
  -- A bonded peer, or one that looks like a pointer and did not fail to pair in the last 8 seconds.
  abbrev pub IsWanted : Type 0
  IsWanted =
      IsBonded bonds addr
      ⊎ (LooksLikePointer c.name_filter es
          × (addr ≡ c.last_failed_addr → 8000 ≤ elapsed now c.last_failed_ms))

  cooling_iff :
      (is_cooling addr now c ≡ false)
      ↔ (addr ≡ c.last_failed_addr → 8000 ≤ elapsed now c.last_failed_ms)
  cooling_iff = (λ h e. ground (arith, h, e), λ h. ground (arith, h))

  -- The last two tests of is_target, by what they test.
  wanted_iff :
      (bonded looks cooling : Bool)
      → (bonded ≡ true) ↔ IsBonded bonds addr
      → (looks ≡ true) ↔ LooksLikePointer c.name_filter es
      → (cooling ≡ false) ↔ (addr ≡ c.last_failed_addr → 8000 ≤ elapsed now c.last_failed_ms)
      → ((if not bonded && not looks then false else if not bonded && cooling then false else true)
          ≡ true)
        ↔ IsWanted
  wanted_iff true looks cooling b l k = (λ h. inl (b.0 refl), λ h. refl)
  wanted_iff false false cooling b l k =
      (λ h. cc, λ h. elim h [ inl bonded ↦ b.1 bonded | inr (looks, cool) ↦ l.1 looks ])
  wanted_iff false true true b l k =
      (λ h. cc, λ h. elim h [ inl bonded ↦ b.1 bonded | inr (looks, cool) ↦ cc (k.1 cool) ])
  wanted_iff false true false b l k = (λ h. inr (l.0 refl, k.0 refl), λ h. refl)

  is_target_iff :
      (type : AdvType)
      → c.default_conn ≡ none
      → is_connectable type ≡ true
      → (is_target bonds addr type es now c ≡ true) ↔ IsWanted
  unfolding is_target
  is_target_iff type idle answered = rw idle (
      rw answered (
        wanted_iff (addr_is_bonded bonds addr) (parse_advert c.name_filter es).is_match
          (is_cooling addr now c) (addr_is_bonded_iff bonds addr)
          (parse_advert_iff c.name_filter es) cooling_iff))

module _ {Q : Type 0} (answers : Stack) (addr conn : ℕ) (c : Central Q) where
  connect_to-ok :
      answers c.requests scan_stop ≡ ok
      → answers (scan_stop ∷ c.requests) (create addr) ≡ ok
      → (connect_to answers addr conn c).default_conn ≡ some conn
  unfolding connect_to
  connect_to-ok stopped created = simp (stopped, created)

  -- While no link is up, and where the scan stops and the connection can be created, a connectable
  -- advertiser is connected to if and only if it is bonded, or its advertisement looks like a
  -- pointer and it is not the peer that failed to pair within the last 8 seconds.
  pub device_found_iff :
      (bonds : List ℕ) (type : AdvType) (es : List AdElement) (now : ℕ)
      → c.default_conn ≡ none
      → is_connectable type ≡ true
      → answers c.requests scan_stop ≡ ok
      → answers (scan_stop ∷ c.requests) (create addr) ≡ ok
      → ((device_found answers bonds addr type es now conn c).default_conn ≡ some conn)
        ↔ IsWanted bonds addr es now c
  unfolding device_found
  device_found_iff bonds type es now idle answered stopped created =
      by_target (is_target bonds addr type es now c)
        (is_target_iff bonds addr es now c type idle answered)
    where
      by_target :
          (test : Bool)
          → (test ≡ true) ↔ IsWanted bonds addr es now c
          → ((if test then connect_to answers addr conn c else c).default_conn ≡ some conn)
            ↔ IsWanted bonds addr es now c
      by_target true t = (λ h. t.0 refl, λ w. connect_to-ok stopped created)
      by_target false t = (λ h. cc (idle, h), λ w. cc (t.1 w))

  by_appearance :
      (filter : Option (List ℕ)) (before after : List AdElement) (lo hi : ℕ) (rest : List ℕ)
      → le16 lo hi ≡ 0x03C2
      → LooksLikePointer filter
          (before ++ record { type = gap_appearance; payload = lo ∷ hi ∷ rest } ∷ after)
  by_appearance filter [] after lo hi rest mouse = inl (lo, hi, rest, refl, mouse)
  by_appearance filter (e ∷ before) after lo hi rest mouse =
      inr (by_appearance filter before after lo hi rest mouse)

  -- Whatever the name filter and whatever name the advertisement carries, a connectable advertiser
  -- with the appearance of a mouse that did not fail to pair within the last 8 seconds is connected
  -- to, while no link is up, the scan stops and the connection can be created: the filter does not
  -- restrict the peers to those of its name.
  pub appearance_passes_filter :
      (bonds : List ℕ) (type : AdvType) (before after : List AdElement) (lo hi now : ℕ)
      (rest : List ℕ)
      → le16 lo hi ≡ 0x03C2
      → (addr ≡ c.last_failed_addr → 8000 ≤ elapsed now c.last_failed_ms)
      → c.default_conn ≡ none
      → is_connectable type ≡ true
      → answers c.requests scan_stop ≡ ok
      → answers (scan_stop ∷ c.requests) (create addr) ≡ ok
      → (device_found answers bonds addr type
          (before ++ record { type = gap_appearance; payload = lo ∷ hi ∷ rest } ∷ after)
          now
          conn
          c).default_conn
        ≡ some conn
  appearance_passes_filter bonds type before after lo hi now rest mouse cool idle answered stopped
        created =
      (device_found_iff bonds type _ now idle answered stopped created).1
        (inr (by_appearance c.name_filter before after lo hi rest mouse, cool))
