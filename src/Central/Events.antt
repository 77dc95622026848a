-- ===== src/Central/Events.antt =====
-- Sequences of callbacks and work queue handlers, in any order and with any contents.
use zmk_ble_hid_host.Base.{ℕ, suc, ◌≡◌, false, Option, some, List, ◌∷◌}
use zmk_ble_hid_host.Publish.Device.{Config, Queue}
use zmk_ble_hid_host.Central.State.{Stack, Attr, MessageQueue, Central}
use zmk_ble_hid_host.Central.Discovery.{
  report_ref_read_cb, report_map_read_cb, report_map_done, discover_func,
}
use zmk_ble_hid_host.Central.Reports.{report_work_handler, notify_cb}
use zmk_ble_hid_host.Central.Link.{
  is_current, scan_retry_handler, connected, security_changed, disconnected,
}
use zmk_ble_hid_host.Central.Advert.{AdElement}
use zmk_ble_hid_host.Central.Peers.{AdvType, device_found}
use zmk_ble_hid_host.Central.Startup.{heartbeat_handler}

-- What can happen to the central once it is up, but for a disconnection and the read that ends a
-- report map: the other callbacks, with any contents, and the handlers of the work queue.
pub data Happens (answers : Stack) (accepts : Queue) (cfg : Config) (mq : MessageQueue)
    : Central mq.Carrier → Central mq.Carrier → Type 0 where
  notified :
      (sub : ℕ) (value : Option (List ℕ)) (c c' : Central mq.Carrier)
      → notify_cb mq sub value c ≡ some c'
      → Happens answers accepts cfg mq c c'
  worked :
      (fuel : ℕ) (c c' : Central mq.Carrier)
      → report_work_handler accepts cfg mq fuel c ≡ some c'
      → Happens answers accepts cfg mq c c'
  discovered :
      (attr : Option Attr) (c c' : Central mq.Carrier)
      → discover_func answers attr c ≡ some c'
      → Happens answers accepts cfg mq c c'
  referenced :
      (err : ℕ) (value : Option (List ℕ)) (c c' : Central mq.Carrier)
      → report_ref_read_cb answers err value c ≡ some c'
      → Happens answers accepts cfg mq c c'
  map_chunk :
      (b : ℕ) (bs : List ℕ) (c c' : Central mq.Carrier)
      → report_map_read_cb answers 0 (some (b ∷ bs)) c ≡ some c'
      → Happens answers accepts cfg mq c c'
  map_failed :
      (err : ℕ) (value : Option (List ℕ)) (c c' : Central mq.Carrier)
      → report_map_read_cb answers (suc err) value c ≡ some c'
      → Happens answers accepts cfg mq c c'
  retried :
      (c : Central mq.Carrier) → Happens answers accepts cfg mq c (scan_retry_handler answers c)
  linked :
      (conn err : ℕ) (c : Central mq.Carrier)
      → Happens answers accepts cfg mq c (connected answers conn err c)
  secured :
      (conn addr now level err : ℕ) (c : Central mq.Carrier)
      → Happens answers accepts cfg mq c (security_changed answers conn addr now level err c)
  advertised :
      (bonds : List ℕ) (addr : ℕ) (type : AdvType) (es : List AdElement) (now conn : ℕ)
      (c : Central mq.Carrier)
      → Happens answers accepts cfg mq c (device_found answers bonds addr type es now conn c)
  alive : (c : Central mq.Carrier) → Happens answers accepts cfg mq c (heartbeat_handler c)

-- Any number of these and of disconnections, with no report map read to its end; the number counts
-- the disconnections of the link that was current.
pub data Unmapped (answers : Stack) (accepts : Queue) (cfg : Config) (mq : MessageQueue)
    : ℕ → Central mq.Carrier → Central mq.Carrier → Type 0 where
  nothing_yet : (c : Central mq.Carrier) → Unmapped answers accepts cfg mq 0 c c
  and_then :
      (n : ℕ) (c c' c'' : Central mq.Carrier)
      → Unmapped answers accepts cfg mq n c c'
      → Happens answers accepts cfg mq c' c''
      → Unmapped answers accepts cfg mq n c c''
  lost_current :
      (n conn : ℕ) (c c' : Central mq.Carrier)
      → Unmapped answers accepts cfg mq n c c'
      → c'.default_conn ≡ some conn
      → Unmapped answers accepts cfg mq (suc n) c (disconnected answers accepts cfg mq conn c')
  lost_other :
      (n conn : ℕ) (c c' : Central mq.Carrier)
      → Unmapped answers accepts cfg mq n c c'
      → is_current c'.default_conn conn ≡ false
      → Unmapped answers accepts cfg mq n c (disconnected answers accepts cfg mq conn c')

-- Any number of those that Happens lists, of reads that end a report map, and of disconnections: all
-- that can happen once the central is up.
pub data Runs (answers : Stack) (accepts : Queue) (cfg : Config) (mq : MessageQueue)
    : Central mq.Carrier → Central mq.Carrier → Type 0 where
  begun : (c : Central mq.Carrier) → Runs answers accepts cfg mq c c
  then_happens :
      (c c' c'' : Central mq.Carrier)
      → Runs answers accepts cfg mq c c'
      → Happens answers accepts cfg mq c' c''
      → Runs answers accepts cfg mq c c''
  then_mapped :
      (c c' c'' : Central mq.Carrier)
      → Runs answers accepts cfg mq c c'
      → report_map_done answers c' ≡ some c''
      → Runs answers accepts cfg mq c c''
  then_dropped :
      (conn : ℕ) (c c' : Central mq.Carrier)
      → Runs answers accepts cfg mq c c'
      → Runs answers accepts cfg mq c (disconnected answers accepts cfg mq conn c')
