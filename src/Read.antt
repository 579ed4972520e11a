-- ===== src/Read.antt =====
-- crates/topodb/src/read.rs: the temporal gates and the traversal of the graph.
pub mod Interval
pub mod Traverse
pub mod Listing
