-- ===== src/Read/Listing/Tests.antt =====
-- Listings of crates/topodb/src/db.rs on a small graph, and the theorem there.
use topo_db.Prelude.{◌+◌, ◌*◌, ◌^◌, ◌≡◌, refl, true, none, some, [], ◌∷◌, ◌==◌, if◌then◌else◌}
use topo_db.Prelude.Int.{pos}
use topo_db.Prelude.Outcome.{ok}
use topo_db.Prelude.Rows.{range, get_row}
use topo_db.Ids.{ScopeSet, shared, contains}
use topo_db.Frame.Tests.{stored}
use topo_db.Frame.{unframe_value}
use topo_db.Adj.Codec.{read_varint, read_varint_loop, unzigzag}
use topo_db.Adj.Block.{
  AdjEntry, read_valid_to, read_entry, decode_entries, reject_trailing, decode_block,
}
use topo_db.Adj.Chunks.{
  AdjTable, out_adj_key, key_type, slot_rows, load_value, load_chunk, read_chunks, read_adj,
}
use topo_db.Registry.{blank}
use topo_db.Registry.Scopes.{resolve}
use topo_db.Read.Traverse.{TimeAxis, EdgeRecord, Snapshot}
use topo_db.Read.Listing.{from_node, open_edges, scan_adjacency, sort_by_id}
use topo_db.Read.Listing.Exact.{is_wanted, select, AllAgree, IsOneToOne, scan_adjacency-select}

-- The edge in slot 10 leads to node 4, the one in slot 11 to node 9; that one has been superseded.
abbrev to_four : EdgeRecord
to_four = record {
  id = 70;
  scope = shared;
  ty = "knows";
  from = 3;
  to = 4;
  props = [];
  valid_from = pos 100;
  valid_to = none;
  recorded_at = pos 100;
  superseded_at = none;
}

abbrev to_nine : EdgeRecord
to_nine = record to_four { id = 60; to = 9; superseded_at = some (pos 130) }

abbrev two_edges : AdjTable
two_edges =
    (3 * 2 ^ 64 + 2 * 2 ^ 32, 0 ∷ 0 ∷ 2 ∷ 4 ∷ 10 ∷ 0 ∷ 200 ∷ 1 ∷ 0 ∷ 5 ∷ 11 ∷ 0 ∷ 200 ∷ 1 ∷ 0 ∷ [])
    ∷ []

abbrev entry_four : AdjEntry
entry_four = record { target = 4; edge = 10; scope = 0; valid_from = 100; valid_to = none }

abbrev entry_nine : AdjEntry
entry_nine = record { target = 9; edge = 11; scope = 0; valid_from = 100; valid_to = none }

abbrev fork : Snapshot
fork = record {
  lz4 = stored;
  dicts = record { labels = blank; types = blank; props = blank; models = blank };
  scope_registry = record { by_key = λ s. none; by_id = λ i. some shared; next = 1 };
  node_slots = λ id. some id;
  out_adj = two_edges;
  in_adj = [];
  read_node_by_slot = λ slot. ok none;
  read_edge_by_slot = λ slot. ok (some (if slot == 10 then to_four else to_nine));
}

abbrev all_shared : ScopeSet
all_shared = record { include_shared = true; ids = [] }

read_three : read_adj stored two_edges 3 none ≡ ok ((2, entry_four) ∷ (2, entry_nine) ∷ [])
unfolding read_adj read_chunks slot_rows range key_type out_adj_key load_chunk load_value get_row
    unframe_value decode_block read_varint read_varint_loop decode_entries read_entry read_valid_to
    reject_trailing unzigzag
read_three = refl

fork-IsOneToOne : IsOneToOne fork from_node
fork-IsOneToOne i j slot h k = cc

agree : AllAgree fork from_node ((2, entry_four) ∷ (2, entry_nine) ∷ []) (to_four ∷ to_nine ∷ [])
unfolding resolve
agree = (
  record { row = refl; scope = refl; valid_from = refl; valid_to = refl; target = refl },
  (record { row = refl; scope = refl; valid_from = refl; valid_to = refl; target = refl }, tt),
)

-- Sorted by id; on the recorded axis the edge that was superseded is closed.
selected :
    sort_by_id (
      select
        (is_wanted all_shared from_node none (open_edges true TimeAxis.valid))
        (to_four ∷ to_nine ∷ []))
    ≡ to_nine ∷ to_four ∷ []
unfolding sort_by_id contains
selected = refl

scan_adjacency-select_example :
    scan_adjacency fork all_shared 3 none none from_node (open_edges true TimeAxis.recorded)
    ≡ ok (
        sort_by_id (
          select
            (is_wanted all_shared from_node none (open_edges true TimeAxis.recorded))
            (to_four ∷ to_nine ∷ [])))
scan_adjacency-select_example =
    scan_adjacency-select fork from_node all_shared 3 3 none none
      (open_edges true TimeAxis.recorded) ((2, entry_four) ∷ (2, entry_nine) ∷ [])
      (to_four ∷ to_nine ∷ []) fork-IsOneToOne refl read_three agree
