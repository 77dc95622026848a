-- ===== src/Decode.antt =====
-- drivers/input/hid_report_decode.c. The child modules Extract, Pointer and Keyboard are the code,
-- Value is an independent reading of a payload as one number, and the others hold the theorems.
-- `none` stands for undefined behaviour: a shift of a uint32_t by 32 or more.
pub mod Extract
pub mod Pointer
pub mod Keyboard
pub mod Keys
pub mod Keycodes
pub mod Value
pub mod Signs
pub mod Buttons
pub mod Exact
pub mod Refusals
pub mod Trailing
pub mod Tests
