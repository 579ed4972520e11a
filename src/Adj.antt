-- ===== src/Adj.antt =====
-- crates/topodb/src/adj.rs: the payload of an adjacency block, a list of entries written as
-- variable-length integers. `Codec` has the integers, `Block` the entries; the other modules prove.
pub mod Codec
pub mod Zigzag
pub mod Varint
pub mod Block
pub mod Chunks
mod Tests
