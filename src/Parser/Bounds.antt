-- ===== src/Parser/Bounds.antt =====
-- No recorded field leaves the 16-bit range, no array of the parser overflows, no cursor wraps.
pub mod Fits
pub mod Main
pub mod Steps
pub mod Result
