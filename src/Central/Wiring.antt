-- ===== src/Central/Wiring.antt =====
-- The wiring of a peer's reports where the stack accepts every call: what is subscribed, and under
-- which report ID.
pub mod Steps
pub mod Result
use zmk_ble_hid_host.Base.{
  ℕ, zero, suc, ◌+◌, ◌≤◌, ◌<◌, ◌≡◌, refl, sym, ap, ap₂, ◌∙◌, subst, Bool, true, false, Option, none,
  some, List, [], ◌∷◌, ◌++◌, append-nil, append_assoc, length, take, get_elem?, get_or,
  get_elem?-eq-get_or, ltb, leb, ◌==◌, if◌then◌else◌, ◌>>=◌, Bool-cases, inl, inr, arith,
}
use zmk_ble_hid_host.Layout.{ReportLayout}
use zmk_ble_hid_host.Publish.Device.{Device}
use zmk_ble_hid_host.Central.State.{
  max_reports, DiscState, disc_idle, disc_report_chrc, disc_report_ref, disc_ccc, hids_report_ref,
  gatt_ccc, Subscription, Request, read, subscribe, Answer, ok, is_ok, ok_or_already, Stack, Attr,
  Central, store,
}
use zmk_ble_hid_host.Central.Discovery.{
  ask, discover_or_idle, descriptor_request, discover_ccc, subscribe_pending, report_ref_read_cb,
  read_report_ref, add_subscription, found, pass_finished, discover_func,
}
use zmk_ble_hid_host.Central.Bounds.Counters.{
  Bounds, BoundsIn, Ready, Wired, descriptor_request-inside, from_Ready, store-inside, to_Ready,
}

-- What a peer says of one report: its Report Reference, the value read there, and its CCC.
pub record Described : Type 0 where
  pub reference : Attr
  pub id : ℕ
  pub kind : List ℕ
  pub ccc : Attr

-- The three callbacks for one report.
abbrev pub wire : {Q : Type 0} → Stack → Described → Central Q → Option (Central Q)
wire answers w c = discover_func answers (some w.reference) c >>= λ c1.
    report_ref_read_cb answers 0 (some (w.id ∷ w.kind)) c1 >>= λ c2.
    discover_func answers (some w.ccc) c2

abbrev pub wire_all : {Q : Type 0} → Stack → List Described → Central Q → Option (Central Q)
wire_all answers [] c = some c
wire_all answers (w ∷ ws) c = wire answers w c >>= wire_all answers ws

-- The subscriptions that these reports should get, by their value handles from index `idx` on.
abbrev pub wanted : List ℕ → ℕ → List Described → List Subscription
wanted reports idx [] = []
wanted reports idx (w ∷ ws) =
    record { report_id = w.id; value_handle = get_or reports idx 0; ccc_handle = (w.ccc).handle }
    ∷ wanted reports (idx + 1) ws

-- Where the state machine stands before these reports.
abbrev pub IsAt : List Described → DiscState → Type 0
IsAt [] s = s ≡ disc_idle
IsAt (w ∷ ws) s = s ≡ disc_report_ref

-- What the wiring leaves alone of what reports are handled by.
abbrev pub aside : {Q : Type 0} → Central Q → ReportLayout × Bool × Q × Device
aside c = (c.layout, c.layout_valid, c.report_msgq, c.host_dev)
