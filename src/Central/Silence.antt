-- ===== src/Central/Silence.antt =====
-- After a disconnection no report is published until a new report map has been read to its end.
pub mod Quiet
pub mod Handlers
pub mod Result
