-- ===== src/Amm.antt =====
-- crates/core/src/amm: the arithmetic of prices and fees.
pub mod Common
pub mod Impact
pub mod Fees
pub mod Schedule
pub mod Powers
pub mod Decay
pub mod Dlmm
