-- ===== src/Central/State.antt =====
-- The static variables of drivers/input/hog_central.c, the calls it makes of the Bluetooth stack
-- and the message queue between the two threads. The stack and the queue are Zephyr's: the answers
-- of the one are a parameter, the other is an interface.
use zmk_ble_hid_host.Base.{
  ℕ, zero, suc, ◌≡◌, Bool, true, false, Option, none, some, List, [], ◌∷◌, ◌++◌,
}
use zmk_ble_hid_host.Layout.{ReportLayout}
use zmk_ble_hid_host.Publish.Device.{Device}

-- MAX_REPORTS, REPORT_MAP_MAX and the size of `data` in struct report_evt
abbrev pub max_reports : ℕ
max_reports = 12

abbrev pub report_map_max : ℕ
report_map_max = 512

abbrev pub evt_data_max : ℕ
evt_data_max = 32

-- BT_ATT_FIRST_ATTRIBUTE_HANDLE, BT_ATT_LAST_ATTRIBUTE_HANDLE and BT_GATT_CHRC_NOTIFY
abbrev pub first_handle : ℕ
first_handle = 1

abbrev pub last_handle : ℕ
last_handle = 65535

abbrev pub chrc_notify : ℕ
chrc_notify = 16

-- enum disc_state
pub data DiscState : Type 0 where
  disc_idle disc_hids_primary disc_report_map_chrc disc_report_chrc disc_report_ref disc_ccc :
      DiscState

-- The UUID and the type of a bt_gatt_discover.
pub data Sought : Type 0 where
  hids hids_report_map hids_report hids_report_ref gatt_ccc : Sought

pub data DiscoverType : Type 0 where
  primary characteristic descriptor : DiscoverType

-- struct hid_subscription: the members that differ from one to the next.
pub record Subscription : Type 0 where
  pub report_id : ℕ
  pub value_handle : ℕ
  pub ccc_handle : ℕ

-- The calls that can fail. A connection, and a peer's address, is a number.
pub data Request : Type 0 where
  discover : Sought → DiscoverType → ℕ → ℕ → Request
  read : ℕ → Request
  subscribe : Subscription → Request
  set_security : ℕ → Request
  disconnect : ℕ → Request
  bt_enable : Request
  scan_start : Request
  scan_stop : Request
  create : ℕ → Request

-- What a call returns: 0, -EALREADY, or another error.
pub data Answer : Type 0 where
  ok already failed : Answer

abbrev pub is_ok : Answer → Bool
is_ok ok = true
is_ok already = false
is_ok failed = false

abbrev pub ok_or_already : Answer → Bool
ok_or_already ok = true
ok_or_already already = true
ok_or_already failed = false

-- A call's answer by the calls before it, the latest first.
abbrev pub Stack : Type 0
Stack = List Request → Request → Answer

-- What the code reads of an attribute that a discovery found: its handle, and by the discovery's
-- type members of its service value or its characteristic.
pub record Attr : Type 0 where
  pub handle : ℕ
  pub end_handle : ℕ
  pub value_handle : ℕ
  pub properties : ℕ

-- struct report_evt, its `data` member as the first `len` bytes
pub record ReportEvt : Type 0 where
  pub value_handle : ℕ
  pub report_id : ℕ
  pub evt_data : List ℕ

-- k_msgq: put fails when the queue is full, get takes the oldest, purge empties.
pub record MessageQueue : Type 1 where
  pub Carrier : Type 0
  pub put : ReportEvt → Carrier → Option Carrier
  pub get : Carrier → Option (ReportEvt × Carrier)
  pub purge : Carrier → Carrier
  pub queued : Carrier → List ReportEvt
  pub put-queued :
      (e : ReportEvt) (q q' : Carrier) → put e q ≡ some q' → queued q' ≡ queued q ++ (e ∷ [])
  pub get-empty : (q : Carrier) → queued q ≡ [] → get q ≡ none
  pub get-queued :
      (q : Carrier) (e : ReportEvt) (es : List ReportEvt)
      → queued q ≡ e ∷ es
      → (q' : Carrier) × (get q ≡ some (e, q')) × (queued q' ≡ es)
  pub purge-queued : (q : Carrier) → queued (purge q) ≡ []

-- The static variables, with the calls of the stack so far. The arrays have max_reports cells;
-- `rm_buf` is its first rm_len bytes. `none` for default_conn and name_filter is NULL, and
-- name_filter is the array that holds the string. work_submitted says that the work item was
-- submitted at some time.
pub record Central (Q : Type 0) : Type 0 where
  pub default_conn : Option ℕ
  pub disc_state : DiscState
  pub hids_end_handle : ℕ
  pub rm_buf : List ℕ
  pub layout : ReportLayout
  pub layout_valid : Bool
  pub pending_reports : List ℕ
  pub pending_count : ℕ
  pub pending_idx : ℕ
  pub cur_report_id : ℕ
  pub subs : List Subscription
  pub sub_count : ℕ
  pub report_msgq : Q
  pub work_submitted : Bool
  pub start_scheduled : Bool
  pub retry_scheduled : Bool
  pub heartbeat_scheduled : Bool
  pub last_failed_addr : ℕ
  pub last_failed_ms : ℕ
  pub scan_starts : ℕ
  pub scan_fails : ℕ
  pub name_filter : Option (List ℕ)
  pub host_dev : Device
  pub requests : List Request

-- A write to an array cell; `none` beyond its end.
abbrev pub store {ℓ} : {A : Type ℓ} → List A → ℕ → A → Option (List A)
store [] i v = none
store (x ∷ xs) zero v = some (v ∷ xs)
store (x ∷ xs) (suc i) v = elim (store xs i v) [ none ↦ none | some ys ↦ some (x ∷ ys) ]
