-- ===== src/Central/Startup.antt =====
-- The deferred bring-up of drivers/input/hog_central.c, and what starts it.
use zmk_ble_hid_host.Base.{ℕ, true, false, not, Option, List, if◌then◌else◌}
use zmk_ble_hid_host.Publish.Device.{Device}
use zmk_ble_hid_host.Central.State.{bt_enable, ok_or_already, Stack, Central}
use zmk_ble_hid_host.Central.Discovery.{ask}
use zmk_ble_hid_host.Central.Link.{start_scan}

module _ {Q : Type 0} (answers : Stack) where
  -- The work item runs; settings_load and the registration of the pairing callbacks are Zephyr's.
  unfoldable pub start_work_handler : Central Q → Central Q
  unfolding start_scan
  start_work_handler c =
      let enabled = ask bt_enable (record c { start_scheduled = false }) in
      if not (ok_or_already (answers c.requests bt_enable))
      then enabled
      else record (start_scan answers enabled) { heartbeat_scheduled = true }

module _ {Q : Type 0} where
  -- The heartbeat logs and schedules itself again.
  unfoldable pub heartbeat_handler : Central Q → Central Q
  heartbeat_handler c = record c { heartbeat_scheduled = true }

  -- k_work_schedule of start_work
  unfoldable pub central_start : Device → Option (List ℕ) → Central Q → Central Q
  central_start dev filter c = record c {
    host_dev = dev;
    name_filter = filter;
    start_scheduled = true;
  }

  -- ble_hid_host_init: the device, with its data, and the peer's name from the devicetree.
  unfoldable pub ble_hid_host_init : Device → Option (List ℕ) → Central Q → Central Q
  unfolding central_start
  ble_hid_host_init dev device_name c = central_start dev device_name c
