-- ===== src/Grpc.antt =====
-- The Yellowstone gRPC ingestion path of the indexer: crates/indexer/src/infra/grpc.
pub mod Buffer
pub mod Listener
pub mod Recorder
pub mod Session
pub mod Ranges
