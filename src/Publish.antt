-- ===== src/Publish.antt =====
-- drivers/input/ble_hid_host.c: decoded reports become input events. Device is the code; View is
-- what the consumer of the events believes, and the others hold the theorems.
pub mod Device
pub mod View
pub mod Buttons
pub mod Tracks
pub mod Growth
pub mod Report
pub mod Pointer
pub mod Dpad
pub mod Reset
mod Tests
