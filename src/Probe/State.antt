-- ===== src/Probe/State.antt =====
-- The static variables of probe/src/main.c and the calls it makes of the Bluetooth and USB stacks.
-- What it shares with the central by type (the answers of a call, the discovery types of Zephyr) is
-- the central's.
use zmk_ble_hid_host.Base.{ℕ, Bool, Option, List, ◌∷◌}
use zmk_ble_hid_host.Central.State.{Sought, DiscoverType, Answer}

-- MAX_REPORTS and MAX_SEEN
abbrev pub max_reports : ℕ
max_reports = 12

abbrev pub max_seen : ℕ
max_seen = 24

-- enum disc_state
pub data DiscState : Type 0 where
  disc_idle disc_hids_primary disc_report_chrc disc_ccc : DiscState

-- struct bt_gatt_subscribe_params: the members that differ from one to the next.
pub record SubParams : Type 0 where
  pub value_handle : ℕ
  pub ccc_handle : ℕ

-- struct seen_dev
pub record SeenDev : Type 0 where
  pub addr : ℕ
  pub named : Bool

-- The calls that can fail. A connection, and a peer's address, is a number.
pub data Request : Type 0 where
  discover : Sought → DiscoverType → ℕ → ℕ → Request
  subscribe : SubParams → Request
  set_security : ℕ → Request
  disconnect : ℕ → Request
  usb_enable : Request
  bt_enable : Request
  scan_start : Request
  scan_stop : Request
  create : ℕ → Request

abbrev pub Stack : Type 0
Stack = List Request → Request → Answer

-- The static variables, with the calls so far and what is printed of reports and advertisers, the
-- latest first, and the sleeps of main. The arrays have max_reports and max_seen cells.
pub record Probe : Type 0 where
  pub default_conn : Option ℕ
  pub disc_state : DiscState
  pub hids_end_handle : ℕ
  pub pending_reports : List ℕ
  pub pending_count : ℕ
  pub pending_idx : ℕ
  pub sub_params : List SubParams
  pub sub_count : ℕ
  pub seen : List SeenDev
  pub seen_count : ℕ
  pub last_failed_addr : ℕ
  pub last_failed_ms : ℕ
  pub dumped : List (List ℕ)
  pub saw : List ℕ
  pub sleeps : ℕ
  pub requests : List Request

abbrev pub ask : Request → Probe → Probe
ask r p = record p { requests = r ∷ p.requests }
