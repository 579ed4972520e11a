-- ===== src/Adj/Chunks/Tests.antt =====
-- Runs of the table operations of crates/topodb/src/adj.rs, and the theorems at concrete inputs.
use topo_db.Prelude.{
  ℕ, ◌+◌, ◌*◌, ◌^◌, ◌<◌, ◌≡◌, ◌⊎◌, refl, arith, true, false, none, some, List, [], ◌∷◌, ◌++◌,
  length, All,
}
use topo_db.Prelude.Rows.{range, last_key}
use topo_db.Prelude.Outcome.{ok}
use topo_db.Frame.Tests.{stored, stored-IsLz4}
use topo_db.Adj.Codec.{IsU64}
use topo_db.Adj.Block.{AdjEntry, is_unsorted}
use topo_db.Adj.Block.Entry.{IsEntry}
use topo_db.Adj.Chunks.{
  out_adj_key, u32_max, key_chunk, key_type, chunk_of, retain_other, read_adj, adj_insert,
  adj_close, adj_remove_edge, adj_remove_all,
}
use topo_db.Adj.Chunks.Store.{Chunks, Fits, blocks}
use topo_db.Adj.Chunks.Section.{WellFormed, section_of, entries_of}
use topo_db.Adj.Chunks.Insert.{Inserted}
use topo_db.Adj.Chunks.Succeeds.{adj_insert_lem}
use topo_db.Adj.Chunks.Read.{of_types, tagged, read_adj_lem}
use topo_db.Adj.Chunks.Update.{Updated}
use topo_db.Adj.Chunks.Close.{closed, Other, FirstOf, adj_close_lem}
use topo_db.Adj.Chunks.Remove.{adj_remove_edge_lem}
use topo_db.Adj.Chunks.Drain.{Drained, adj_remove_all_lem}

abbrev edge_to : ℕ → ℕ → AdjEntry
edge_to target edge = record {
  target = target;
  edge = edge;
  scope = 0;
  valid_from = 100;
  valid_to = none;
}

edge_to-IsEntry : (target edge : ℕ) → IsU64 target → IsU64 edge → IsEntry (edge_to target edge)
edge_to-IsEntry target edge t e = record {
  target_u64 = t;
  edge_u64 = e;
  scope_u32 = omega arith;
  valid_from_i64 = omega arith;
  valid_to_i64 = tt;
}

-- Two edges of type 2 that leave slot 3.
abbrev two_edges : List AdjEntry
two_edges = edge_to 4 10 ∷ edge_to 9 11 ∷ []

abbrev pub small_table : Chunks
small_table = (3 * 2 ^ 64 + 2 * 2 ^ 32, two_edges) ∷ []

two_edges-Fits : Fits two_edges
unfolding is_unsorted
two_edges-Fits = record {
  sorted = refl;
  entries = (
    edge_to-IsEntry 4 10 (omega arith) (omega arith),
    (edge_to-IsEntry 9 11 (omega arith) (omega arith), tt),
  );
  few = omega arith;
}

small_table-WellFormed : WellFormed small_table
small_table-WellFormed = record { ascends = (tt, tt); fits = (two_edges-Fits, tt) }

-- The table has room for another chunk.
small_table_room : chunk_of (last_key (section_of small_table 3 2)) + 1 < 2 ^ 32
unfolding last_key range out_adj_key key_chunk
small_table_room = omega arith

adj_insert_lem_example :
    (c' : Chunks) × (adj_insert stored (blocks stored small_table) 3 2 (edge_to 6 12)
      ≡ ok (blocks stored c'))
    × Inserted small_table c' 3 2 (edge_to 6 12)
adj_insert_lem_example =
    adj_insert_lem stored stored-IsLz4 small_table 3 2 (edge_to 6 12) small_table-WellFormed
      (edge_to-IsEntry 6 12 (omega arith) (omega arith)) small_table_room

read_adj_lem_example :
    (read_adj stored (blocks stored small_table) 3 (some (2 ∷ []))
      ≡ ok (of_types small_table 3 (2 ∷ [])))
    × (read_adj stored (blocks stored small_table) 3 none
        ≡ ok (
            tagged key_type
              (range (out_adj_key 3 0 0) (out_adj_key 3 u32_max u32_max) small_table)))
read_adj_lem_example =
    read_adj_lem stored small_table 3 (2 ∷ []) stored-IsLz4 small_table-WellFormed

adj_close_lem_example :
    ((adj_close stored (blocks stored small_table) 3 2 11 200
        ≡ ok (false, blocks stored small_table))
      × All (Other 11) (entries_of small_table 3 2))
    ⊎ ((before : List AdjEntry) × (e : AdjEntry) × (after : List AdjEntry) × (c' : Chunks) × FirstOf
          11
          (entries_of small_table 3 2)
          before
          e
          after
        × (adj_close stored (blocks stored small_table) 3 2 11 200 ≡ ok (true, blocks stored c'))
        × Updated small_table c' 3 2 (before ++ closed e 200 ∷ after))
adj_close_lem_example =
    adj_close_lem stored stored-IsLz4 small_table 3 2 11 200 small_table-WellFormed (omega arith)

adj_remove_edge_lem_example :
    ((adj_remove_edge stored (blocks stored small_table) 3 2 11
        ≡ ok (false, blocks stored small_table))
      × All (Other 11) (entries_of small_table 3 2))
    ⊎ ((before : List AdjEntry) × (es : List AdjEntry) × (after : List AdjEntry) × (c' : Chunks)
        × (entries_of small_table 3 2 ≡ before ++ (es ++ after))
        × All (Other 11) before
        × (length (retain_other es 11) < length es)
        × (adj_remove_edge stored (blocks stored small_table) 3 2 11 ≡ ok (true, blocks stored c'))
        × Updated small_table c' 3 2 (before ++ (retain_other es 11 ++ after)))
adj_remove_edge_lem_example =
    adj_remove_edge_lem stored stored-IsLz4 small_table 3 2 11 small_table-WellFormed

adj_remove_all_lem_example :
    let low = out_adj_key 3 0 0 in
    let high = out_adj_key 3 u32_max u32_max in
    (c' : Chunks) × (adj_remove_all stored (blocks stored small_table) 3
      ≡ ok (tagged key_type (range low high small_table), blocks stored c'))
    × Drained small_table c' low high
adj_remove_all_lem_example =
    adj_remove_all_lem stored small_table 3 stored-IsLz4 small_table-WellFormed
