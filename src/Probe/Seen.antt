-- ===== src/Probe/Seen.antt =====
-- The table of the advertisers that were printed: should_log of probe/src/main.c. `none` is an
-- access beyond the table.
use zmk_ble_hid_host.Base.{
  ℕ, zero, suc, ◌+◌, Bool, true, false, not, ◌&&◌, Option, some, get_elem?, ltb, ◌==◌,
  if◌then◌else◌, ◌>>=◌,
}
use zmk_ble_hid_host.Central.State.{store}
use zmk_ble_hid_host.Probe.State.{max_seen, SeenDev, Probe}

-- What a call returns and leaves.
pub record Logged : Type 0 where
  pub worth : Bool
  pub after : Probe

-- An entry at `i` for the same address: only the first name is worth a line.
abbrev pub seen_again : ℕ → SeenDev → Bool → Probe → Option Logged
seen_again i s has_name p =
    if has_name && not s.named
    then (store p.seen i (record s { named = true }) >>= λ seen.
        some (record { worth = true; after = record p { seen = seen } }))
    else some (record { worth = false; after = p })

-- An address that the table does not hold; where the table is full, it is not entered.
abbrev pub seen_first : ℕ → Bool → Probe → Option Logged
seen_first addr has_name p =
    if ltb p.seen_count max_seen
    then (store p.seen p.seen_count (record { addr = addr; named = has_name }) >>= λ seen.
        some (record {
          worth = true;
          after = record p { seen = seen; seen_count = p.seen_count + 1 };
        }))
    else some (record { worth = true; after = p })

-- The loop from entry `i`, over the `left` entries that remain.
unfoldable pub look_up : ℕ → ℕ → ℕ → Bool → Probe → Option Logged
look_up zero i addr has_name p = seen_first addr has_name p
look_up (suc left) i addr has_name p = get_elem? p.seen i >>= λ s.
    let rest = look_up left (i + 1) addr has_name p in
    if s.addr == addr then seen_again i s has_name p else rest

unfoldable pub should_log : ℕ → Bool → Probe → Option Logged
unfolding look_up
should_log addr has_name p = look_up p.seen_count 0 addr has_name p
