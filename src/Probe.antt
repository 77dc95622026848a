-- ===== src/Probe.antt =====
-- probe/src/main.c: the diagnostic program that connects to a pointer, subscribes to its reports and
-- prints them.
pub mod State
pub mod Discovery
pub mod Advert
pub mod Seen
pub mod Sightings
pub mod Distinct
pub mod Link
pub mod Events
pub mod Bounds
pub mod Agreement
pub mod Wiring
pub mod Deaf
mod Tests
mod WiringTests
