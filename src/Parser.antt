-- ===== src/Parser.antt =====
-- drivers/input/hid_report_parser.c. Tags, State, Fields, Items and Walk are the code in its order; the
-- others hold the theorems about it.
pub mod Tags
pub mod State
pub mod Fields
pub mod Items
pub mod Walk
pub mod Termination
pub mod Locking
pub mod Stream
pub mod Cut
pub mod Depth
pub mod Locked
pub mod Bounds
mod Tests
