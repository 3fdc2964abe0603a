-- ===== src/Api.antt =====
-- crates/api/src: the HTTP API.
pub mod Errors
pub mod Wire
pub mod Auth
pub mod Cursor
pub mod Live
pub mod Periods
