-- ===== src/Rpc.antt =====
-- crates/indexer/src/infra/rpc: the JSON-RPC path, one subscription for each watched address.
pub mod Dispatcher
pub mod Dispatched
pub mod Worker
pub mod Stops
pub mod Fleet
pub mod Listener
