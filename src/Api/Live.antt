-- ===== src/Api/Live.antt =====
-- crates/api/src/application/live: the pollers that feed the live connections.
pub mod Watermark
pub mod Settling
pub mod Poller
pub mod Once
pub mod Refinement
pub mod Hole
