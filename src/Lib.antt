-- ===== src/Lib.antt =====
-- TopoDB, an embedded temporal property graph: a model of the engine (crates/topodb) and its proofs.
--
-- The engine keeps an append-only log of ops and, beside it, tables of state that the ops were applied
-- to. Nodes and edges have 128-bit ids, which the tables map to dense slots; strings and scopes are
-- interned as small ids. An adjacency table holds, for each node slot and edge type, blocks of entries.
-- Reads filter by a set of scopes and by the valid time of edges.
--
-- Files, and the code that each models:
--
--   Prelude    shared names: tests, lists, signed integers, tables as functions of a key, bit laws,
--              and the results of fallible functions (crates/topodb/src/error.rs).
--   Frame      crates/topodb/src/codec.rs: frame_value and unframe_value; the lz4_flex crate is a
--              parameter with its documented behaviour as laws.
--   Adj        crates/topodb/src/adj.rs. Adj/Codec has the integers, Adj/Block the entries of a block,
--              Adj/Chunks the operations over a table (adj_insert, adj_close, adj_remove_edge,
--              adj_remove_all, read_adj), the other modules the proofs. A byte slice is a list of
--              numbers, an i64 is its bit pattern, a key of 16 bytes is its number. write_varint takes
--              nine rounds of fuel: a u64 has fewer than 128 ^ 10 values, so nine rounds
--              leave less than seven bits. The proofs about tables take them as the frames of decoded blocks
--              (Adj.Chunks.Store.blocks), of at most 8192 entries each. The binary search for the place
--              of an entry is a scan for the first entry that does not precede it.
--   Ids        crates/topodb/src/ids.rs: scopes and scope sets. The text of an id is not modelled.
--   Log        the op log of crates/topodb/src/storage.rs: append_ops, the append of apply_ops_in_txn,
--              oldest_seq, current_seq, compact_ops_through and read_ops. A log is the list of its rows
--              and the optional row "oldest_seq". Sequence numbers are unbounded here; the code's u64
--              would take 2 ^ 64 ops to end. The op type is a parameter.
--   Slots      crates/topodb/src/slots.rs: alloc and remove, over the two tables and the counter.
--   Registry   crates/topodb/src/dict.rs and crates/topodb/src/scopes.rs: Registry.claim and
--              Registry.forget are the steps that the two share, Registry/Dicts and Registry/Scopes
--              the functions over them, with the journal that undoes an aborted batch;
--              Registry/Load reads a registry from its table.
--   Op         crates/topodb/src/op.rs and props.rs: the ops and the values of properties. Op/Resolve
--              has resolve_op and remap_op_node_ids of storage.rs, Op/Upsert the pre-pass of
--              apply_ops_in_txn that removes the upserts, Op/Validate crates/topodb/src/validate.rs.
--              What lookup_indexed_node answers is an argument of the pre-pass; Storage fills it in.
--   Read       crates/topodb/src/read.rs: Read/Interval has ValidInterval (validate, from_parts,
--              matches), and the window in which a traversal sees an edge; Read/Traverse has traverse,
--              traverse_interval and traverse_inner. The tables of the read transaction are a snapshot;
--              the reads of a node and of an edge by slot are functions of it, and the bump of the
--              access counters is left out. The loop over the queue takes one unit of fuel for each
--              slot that it pops; as many as there are slots with a node are enough, since
--              a slot enters the queue once. Read/Listing has the listings of crates/topodb/src/db.rs
--              (scan_adjacency and the functions that call it) over the same snapshot.
--   Index      crates/topodb/src/index.rs and crates/topodb/src/prop_index.rs: the declared properties,
--              the keys of the property index (Index/Keys), its lookup and its maintenance, with the
--              proofs in modules below it. A text is its code points, a key its bytes; Unicode's lower case is a parameter.
--   Storage    the write path of crates/topodb/src/storage.rs. Storage/Act has the state: the tables,
--              the rows and mirrors of the two registries, and an open transaction with its journal.
--              An Act is a step of the transaction; what it has written stays when it fails, since only
--              the abort of the transaction takes it back. Storage/Records is
--              crates/topodb/src/disk.rs, Storage/Rows the rows of nodes, edges and vectors
--              (crates/topodb/src/vector_store.rs), Storage/Hnsw what a write does to the graph of
--              crates/topodb/src/hnsw.rs, Storage/Apply the arms of apply_op, Storage/Batch
--              apply_ops_in_txn with lookup_indexed_node and doc_text of crates/topodb/src/fts.rs,
--              Storage/Group apply_batches and apply_batch, Storage/Reconcile
--              ensure_index_spec, with the rows of NODES as a list. Storage/Keeps and Storage/Steps have the
--              lemmas on the registries' mirrors that the proofs about groups use, Storage/Moves and
--              Storage/Evolves those on the slots, the pinned dimensions and the log. The encoding of
--              postcard, the compression of lz4_flex, the quantization of vectors, the search and the
--              building of a graph, the update of the text index, and the answers of redb to
--              begin_write and commit are parameters. The lookups of the pre-pass are checked for
--              errors before it runs, as it writes nothing. A panic of expect on an op whose times are
--              missing is an error here; resolve_op has filled them in. The map that a batch returns
--              is the list of its insertions.
--   Db         crates/topodb/src/db.rs: the thread that applies. Db/Applier has apply_one_job and
--              apply_group, Db/Queue the loop with its channel, of which a turn is one round, Db/Feed
--              broadcast_batch. What the thread asks of the storage is an interface (Db.Backend), with
--              what it relies on in Db.Steps.IsBackend; Db/OnStorage gives the storage for it.
--              The clock and the order of sends and turns are arguments. A set of ids is a list.
--              A reply channel is a number, and a send on it never fails. The jobs that rebuild,
--              compact, count and write metadata are one call of the interface; for the storage it is
--              the compaction of Log for one of them, and an argument for the rebuild. Counters and
--              metadata are in tables that the storage here does not have.
--
-- A table of the key-value store is a function of its key, or where ranges are scanned the list of its
-- rows in key order (Prelude/Rows); errors of the store itself (I/O, a value of a
-- wrong width) are not modelled, since the engine never writes such a value. Messages of errors are
-- reduced to their fixed text. The one store error that leaves a trace behind, a row of a registry that
-- is refused, is an argument of Registry.Dicts.intern and Registry.Scopes.intern; in a write transaction of
-- Storage redb takes those rows.
pub mod Prelude
pub mod Frame
pub mod Adj
pub mod Ids
pub mod Log
pub mod Slots
pub mod Registry
pub mod Op
pub mod Read
pub mod Index
pub mod Storage
pub mod Db
