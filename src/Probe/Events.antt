-- ===== src/Probe/Events.antt =====
-- The callbacks of the probe as one step, and sequences of them.
use zmk_ble_hid_host.Base.{ℕ, ◌<◌, Option, some, List, [], ◌∷◌, ◌>>=◌}
use zmk_ble_hid_host.Central.State.{Attr}
use zmk_ble_hid_host.Central.Advert.{AdElement}
use zmk_ble_hid_host.Central.Peers.{AdvType}
use zmk_ble_hid_host.Probe.State.{Stack, Probe}
use zmk_ble_hid_host.Probe.Discovery.{notify_cb, discover_func}
use zmk_ble_hid_host.Probe.Link.{device_found, connected, security_changed, disconnected}

-- A callback with what the stack passes it.
pub data Event : Type 0 where
  notified : ℕ → Option (List ℕ) → Event
  discovered : Option Attr → Event
  advertised : List ℕ → ℕ → AdvType → List AdElement → ℕ → ℕ → Event
  linked : ℕ → ℕ → Event
  secured : ℕ → ℕ → ℕ → ℕ → ℕ → Event
  dropped : ℕ → Event

-- A notification's params are one of the twelve.
abbrev pub IsWithin : Event → Type 0
IsWithin (notified sub value) = sub < 12
IsWithin (discovered attr) = Unit
IsWithin (advertised bonds addr type es now conn) = Unit
IsWithin (linked conn err) = Unit
IsWithin (secured conn addr now level err) = Unit
IsWithin (dropped conn) = Unit

module _ (answers : Stack) where
  abbrev pub handle : Event → Probe → Option Probe
  handle (notified sub value) p = notify_cb sub value p
  handle (discovered attr) p = discover_func answers attr p
  handle (advertised bonds addr type es now conn) p =
      device_found answers bonds addr type es now conn p
  handle (linked conn err) p = some (connected conn err p)
  handle (secured conn addr now level err) p = some (security_changed conn addr now level err p)
  handle (dropped conn) p = some (disconnected conn p)

  abbrev pub handle_all : List Event → Probe → Option Probe
  handle_all [] p = some p
  handle_all (e ∷ es) p = handle e p >>= handle_all es
