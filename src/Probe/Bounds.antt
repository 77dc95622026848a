-- ===== src/Probe/Bounds.antt =====
-- The arrays of the probe: every callback stays inside them.
pub mod Table
pub mod Wiring
pub mod Result
use zmk_ble_hid_host.Base.{
  ℕ, ◌≤◌, ◌<◌, ◌≡◌, sym, subst, Bool, true, false, Option, some, List, length, if◌then◌else◌, ◌>>=◌,
}
use zmk_ble_hid_host.Probe.State.{
  DiscState, disc_idle, disc_hids_primary, disc_report_chrc, disc_ccc, SubParams, SeenDev, Probe,
}

-- The state that wires up pending_reports[pending_idx].
abbrev pub IsWiring : DiscState → Type 0
IsWiring disc_ccc = Unit
IsWiring disc_idle = ⊥
IsWiring disc_hids_primary = ⊥
IsWiring disc_report_chrc = ⊥

pub record Fits (reports : List ℕ) (params : List SubParams) (count idx sub_count : ℕ)
    (state : DiscState) (seen : List SeenDev) (seen_count : ℕ) : Type 0 where
  pub cells : length reports ≡ 12
  pub param_cells : length params ≡ 12
  pub seen_cells : length seen ≡ 24
  pub few : count ≤ 12
  pub few_subs : sub_count ≤ 12
  pub few_seen : seen_count ≤ 24
  pub wiring : IsWiring state → idx < count

abbrev pub FitsIn : DiscState → Probe → Type 0
FitsIn s p =
    Fits p.pending_reports p.sub_params p.pending_count p.pending_idx p.sub_count s p.seen
      p.seen_count

-- The counters are within their arrays, and while a CCC is looked for there is a report it is for.
abbrev pub IsWired : Probe → Type 0
IsWired p = FitsIn p.disc_state p

-- The call has no undefined access and keeps the counters within the arrays.
abbrev pub Safe : Option Probe → Type 0
Safe r = (p : Probe) × (r ≡ some p) × IsWired p

pub relabel :
    (s s' : DiscState) (p : Probe)
    → (IsWiring s' → p.pending_idx < p.pending_count)
    → FitsIn s p
    → FitsIn s' p
relabel s s' p less v = record {
  cells = v.cells;
  param_cells = v.param_cells;
  seen_cells = v.seen_cells;
  few = v.few;
  few_subs = v.few_subs;
  few_seen = v.few_seen;
  wiring = less;
}

pub Safe-bind {ℓ} :
    {A : Type ℓ} (m : Option A) (f : A → Option Probe) (a : A)
    → m ≡ some a
    → Safe (f a)
    → Safe (m >>= f)
Safe-bind m f a e h = subst (λ o. Safe (o >>= f)) (sym e) h
