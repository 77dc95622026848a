-- ===== src/Probe/Bounds/Table.antt =====
-- The table of seen advertisers stays inside its 24 entries.
use zmk_ble_hid_host.Base.{
  ℕ, zero, suc, ◌+◌, ◌≤◌, ◌<◌, ◌≡◌, refl, ◌∙◌, sym, subst, Bool, true, false, not, ◌&&◌, Option,
  some, get_elem?, get_or, get_elem?-eq-get_or, ltb, ltb→lt, ◌==◌, if◌then◌else◌, ◌>>=◌, arith,
}
use zmk_ble_hid_host.Central.State.{store}
use zmk_ble_hid_host.Central.Bounds.Counters.{store-inside}
use zmk_ble_hid_host.Probe.State.{SeenDev, Probe}
use zmk_ble_hid_host.Probe.Seen.{Logged, seen_again, seen_first, look_up, should_log}
use zmk_ble_hid_host.Probe.Bounds.{IsWired}

-- The lookup is defined and keeps the counters.
abbrev pub SafeLog : Option Logged → Type 0
SafeLog r = (l : Logged) × (r ≡ some l) × IsWired l.after

Logged-bind {ℓ} :
    {A : Type ℓ} (m : Option A) (f : A → Option Logged) (a : A)
    → m ≡ some a
    → SafeLog (f a)
    → SafeLog (m >>= f)
Logged-bind m f a e h = subst (λ o. SafeLog (o >>= f)) (sym e) h

if_SafeLog :
    (test : Bool) (a b : Option Logged)
    → (test ≡ true → SafeLog a)
    → (test ≡ false → SafeLog b)
    → SafeLog (if test then a else b)
if_SafeLog true a b ha hb = ha refl
if_SafeLog false a b ha hb = hb refl

seen_again-Safe :
    (i : ℕ) (s : SeenDev) (has_name : Bool) (p : Probe)
    → i < 24
    → IsWired p
    → SafeLog (seen_again i s has_name p)
seen_again-Safe i s has_name p less v =
    let (seen, stored, same) =
      store-inside p.seen i (record s { named = true }) (omega (arith, v.seen_cells)) in
    if_SafeLog (has_name && not s.named) _ _
      (λ _. Logged-bind (store p.seen i (record s { named = true })) _ seen stored (
        record { worth = true; after = record p { seen = seen } },
        refl,
        record {
          cells = v.cells;
          param_cells = v.param_cells;
          seen_cells = same ∙ v.seen_cells;
          few = v.few;
          few_subs = v.few_subs;
          few_seen = v.few_seen;
          wiring = v.wiring;
        },
      ))
      (λ _. (_, refl, v))

seen_first-Safe :
    (addr : ℕ) (has_name : Bool) (p : Probe) → IsWired p → SafeLog (seen_first addr has_name p)
seen_first-Safe addr has_name p v =
    if_SafeLog (ltb p.seen_count 24) _ _
      (λ room.
        let less = ltb→lt p.seen_count 24 room in
        let entry : SeenDev = record { addr = addr; named = has_name } in
        let (seen, stored, same) =
          store-inside p.seen p.seen_count entry (omega (arith, less, v.seen_cells)) in
        Logged-bind (store p.seen p.seen_count entry) _ seen stored (
          record { worth = true; after = record p { seen = seen; seen_count = p.seen_count + 1 } },
          refl,
          record {
            cells = v.cells;
            param_cells = v.param_cells;
            seen_cells = same ∙ v.seen_cells;
            few = v.few;
            few_subs = v.few_subs;
            few_seen = omega (arith, less);
            wiring = v.wiring;
          },
        ))
      (λ _. (_, refl, v))

look_up-Safe :
    (left i addr : ℕ) (has_name : Bool) (p : Probe)
    → i + left ≤ 24
    → IsWired p
    → SafeLog (look_up left i addr has_name p)
unfolding look_up
look_up-Safe zero i addr has_name p h v = seen_first-Safe addr has_name p v
look_up-Safe (suc left) i addr has_name p h v =
    let s = get_or p.seen i (record { addr = 0; named = false }) in
    Logged-bind (get_elem? p.seen i) _ s
      (get_elem?-eq-get_or p.seen i (record { addr = 0; named = false })
        (omega (arith, v.seen_cells)))
      (if_SafeLog (s.addr == addr) _ _ (λ _. seen_again-Safe i s has_name p (omega arith) v)
        (λ _. look_up-Safe left (i + 1) addr has_name p (omega arith) v))

pub should_log-Safe :
    (addr : ℕ) (has_name : Bool) (p : Probe) → IsWired p → SafeLog (should_log addr has_name p)
unfolding should_log
should_log-Safe addr has_name p v =
    look_up-Safe p.seen_count 0 addr has_name p (omega (arith, v.few_seen)) v
