-- ===== src/Domain.antt =====
-- The domain types of crates/core/src/domain that more than one component uses.
pub mod Announcements
pub mod ApiKey
pub mod Cursors
pub mod Cycle
pub mod Errors
pub mod LiquidityMoves
pub mod Time
pub mod Verdicts
pub mod Windows
pub mod Protocols
