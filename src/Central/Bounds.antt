-- ===== src/Central/Bounds.antt =====
-- The discovery stays within its arrays.
pub mod Counters
pub mod Steps
pub mod Result
