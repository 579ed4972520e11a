-- ===== src/Read/Traverse/Tests.antt =====
-- A traversal of crates/topodb/src/read.rs on a small graph, and the theorems there.
use topo_db.Prelude.{
  ℕ, ◌+◌, ◌*◌, ◌^◌, ◌≤◌, ◌≡◌, ◌≢◌, refl, arith, ◌||◌, ◌==◌, true, Option, none, some, [], ◌∷◌, All,
  if◌then◌else◌, Bool-cases, inl, inr,
}
use topo_db.Prelude.Int.{pos}
use topo_db.Prelude.Outcome.{ok-injective, ok}
use topo_db.Ids.{shared, contains}
use topo_db.Op.Resolve.{unwrap_or}
use topo_db.Frame.Tests.{stored}
use topo_db.Frame.{unframe_value}
use topo_db.Adj.Codec.{read_varint, read_varint_loop, unzigzag}
use topo_db.Adj.Block.{read_valid_to, read_entry, decode_entries, reject_trailing, decode_block}
use topo_db.Adj.Chunks.{
  AdjTable, out_adj_key, key_type, slot_rows, load_value, load_chunk, read_chunks, read_adj,
}
use topo_db.Prelude.Rows.{range, get_row}
use topo_db.Registry.Scopes.{resolve}
use topo_db.Read.Interval.Instants.{visible_at}
use topo_db.Registry.{blank}
use topo_db.Read.Traverse.{
  out, valid, TraversalQuery, NodeRecord, EdgeRecord, Snapshot, Subgraph, is_member, insert_slot,
}
use topo_db.Read.Traverse.Steps.{
  traverse_inner, run, plant, plant_at, reach, walk, expand, candidates, candidates_by, take_all,
  take_edge, admits, admit_scoped, admit_target, is_current, collect, read_all,
}
use topo_db.Read.Traverse.Returned.{FoundNode, FoundEdge, traverse_inner_sound}
use topo_db.Read.Traverse.Ends.{Covers, traverse_inner_lasts}

abbrev person : ℕ → NodeRecord
person slot = record { id = slot; scope = shared; label = "Person"; props = []; embedding = none }

abbrev known : ℕ → EdgeRecord
known slot = record {
  id = slot;
  scope = shared;
  ty = "knows";
  from = 3;
  to = 4;
  props = [];
  valid_from = pos 100;
  valid_to = none;
  recorded_at = pos 100;
  superseded_at = none;
}

abbrev node_at : ℕ → Option NodeRecord
node_at slot = if slot == 3 || slot == 4 then some (person slot) else none

abbrev edge_at : ℕ → Option EdgeRecord
edge_at slot = some (known slot)

-- The framed block of two open edges of type 2 that leave slot 3, valid from 100 on.
abbrev one_block : AdjTable
one_block =
    (3 * 2 ^ 64 + 2 * 2 ^ 32, 0 ∷ 0 ∷ 2 ∷ 4 ∷ 10 ∷ 0 ∷ 200 ∷ 1 ∷ 0 ∷ 5 ∷ 11 ∷ 0 ∷ 200 ∷ 1 ∷ 0 ∷ [])
    ∷ []

-- The edges of slot 3 lead to slot 4 and to slot 9, which has no node.
abbrev small_graph : Snapshot
small_graph = record {
  lz4 = stored;
  dicts = record { labels = blank; types = blank; props = blank; models = blank };
  scope_registry = record { by_key = λ s. none; by_id = λ i. some shared; next = 1 };
  node_slots = λ id. some id;
  out_adj = one_block;
  in_adj = [];
  read_node_by_slot = λ slot. ok (node_at slot);
  read_edge_by_slot = λ slot. ok (edge_at slot);
}

abbrev from_three : TraversalQuery
from_three = record {
  scopes = record { include_shared = true; ids = [] };
  seeds = 3 ∷ [];
  max_hops = 2;
  edge_types = none;
  direction = out;
  as_of = some (pos 150);
  time_axis = valid;
}

abbrev small_answer : Subgraph
small_answer = record { nodes = person 4 ∷ person 3 ∷ []; edges = known 10 ∷ [] }

small_run : traverse_inner 2 (pos 0) small_graph from_three none ≡ ok (some small_answer)
unfolding traverse_inner run plant plant_at reach walk expand candidates candidates_by take_all
    take_edge admits admit_scoped admit_target is_current collect read_all insert_slot is_member
    contains visible_at resolve read_adj read_chunks slot_rows range key_type out_adj_key load_chunk
    load_value get_row unframe_value decode_block read_varint read_varint_loop decode_entries
    read_entry read_valid_to reject_trailing unzigzag
small_run = refl

small_graph-Covers : Covers (3 ∷ 4 ∷ []) small_graph
unfolding is_member
small_graph-Covers slot rec h =
    let e : node_at slot ≡ some rec = ok-injective none (node_at slot) (some rec) h in
    elim (Bool-cases (slot == 3 || slot == 4)) [
      | inl here ↦ ground (arith, here)
      | inr other ↦ absurd (let bad : none ≡ some rec = rw other at e in cc)
    ]

traverse_inner_sound_example :
    (1 ≤ from_three.max_hops)
    × (from_three.max_hops ≤ 4)
    × All
        (FoundNode small_graph from_three (unwrap_or from_three.as_of (pos 0)) none)
        small_answer.nodes
    × All
        (FoundEdge small_graph from_three (unwrap_or from_three.as_of (pos 0)) none)
        small_answer.edges
traverse_inner_sound_example =
    traverse_inner_sound 2 (pos 0) small_graph from_three none small_answer small_run

traverse_inner_lasts_example : traverse_inner 2 (pos 0) small_graph from_three none ≢ ok none
traverse_inner_lasts_example =
    traverse_inner_lasts 2 (pos 0) small_graph from_three none (3 ∷ 4 ∷ []) small_graph-Covers
      (omega arith)
