-- ===== src/Central/Silence/Quiet.antt =====
-- Quiet: no valid layout, no new events.
use zmk_ble_hid_host.Base.{◌≡◌, false}
use zmk_ble_hid_host.Publish.Device.{Device}
use zmk_ble_hid_host.Central.Frame.{Frame, GattKeeps}

-- No layout is valid and the events sent so far are those of `d`.
abbrev pub quiet : Device → Frame
quiet d valid dev conn retry calls = (valid ≡ false) × (dev ≡ d)

pub quiet-GattKeeps : (d : Device) → GattKeeps (quiet d)
quiet-GattKeeps d r valid dev conn retry calls g v = v
