-- ===== src/Central.antt =====
-- drivers/input/hog_central.c: the central that finds a peer, reads how its reports are laid out,
-- subscribes to them and hands what arrives to the publisher.
pub mod State
pub mod Discovery
pub mod Frame
pub mod Reports
pub mod Link
pub mod Advert
pub mod Peers
pub mod Startup
pub mod Bounds
pub mod Draining
pub mod Events
pub mod Silence
pub mod Awake
pub mod Reassembly
pub mod Wiring
pub mod Session
pub mod Delivery
pub mod Order
pub mod Tests
mod LinkTests
mod QueueTests
