-- ===== src/Api/Cursor.antt =====
-- crates/api/src/http/cursor.rs: a page's cursor as an opaque blob, and back.
pub mod Tags
pub mod Encode
pub mod Decode
pub mod Injective
pub mod RoundTrip
pub mod Lists
pub mod Mismatch
pub mod Refusal
