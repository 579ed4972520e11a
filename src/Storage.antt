-- ===== src/Storage.antt =====
-- crates/topodb/src/storage.rs: the write path, from one op to a group of batches in one commit.
pub mod Act
pub mod Records
pub mod Rows
pub mod Keeps
pub mod Moves
pub mod Evolves
pub mod Hnsw
pub mod Apply
pub mod Steps
pub mod Batch
pub mod Group
pub mod Reconcile
pub mod Example
mod Tests
