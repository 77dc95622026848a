-- ===== src/Base/Bits.antt =====
-- The laws of `&`, `|` and `^` on binary digits, which the libraries leave out.
pub mod Step
pub mod Fields
