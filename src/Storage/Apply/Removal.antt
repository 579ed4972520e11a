-- ===== src/Storage/Apply/Removal.antt =====
-- crates/topodb/src/storage.rs: the arm of `apply_op` that removes a node, with its edges.
use topo_db.Prelude.{ℕ, Option, none, some, List, [], ◌∷◌, ◌==◌, if◌then◌else◌}
use topo_db.Prelude.Table.{remove, nat_key}
use topo_db.Prelude.Bytes.{Bytes}
use topo_db.Prelude.Outcome.{Result, ok, rejected, encoding}
use topo_db.Prelude.Outcome.{◌>>=◌ as ◌>>>◌}
use topo_db.Slots.{Slots, remove_mapping}
use topo_db.Adj.Block.{AdjEntry}
use topo_db.Adj.Chunks.{adj_remove_edge, adj_remove_all}
use topo_db.Read.Traverse.{is_member, insert_slot}
use topo_db.Storage.Act.{Tables, Storage, Act, pure, read, write, modify, ◌>>=◌, ◌>>◌}
use topo_db.Storage.Records.{node_slot, slot_or, ok_or}
use topo_db.Storage.Rows.{Codecs, decode_node, read_ref, remove_vector}
use topo_db.Storage.Hnsw.{Graph, retire}
use topo_db.Storage.Apply.Parts.{Side, out_side, in_side, adj_of, on_side, label_index_key}
use topo_db.Storage.Apply.Nodes.{sources, with_vectors}

-- The row of an edge and its slot, where the edge is met for the first time.
abbrev pub drop_mapping : Slots → Option ℕ → Slots
drop_mapping slots none = slots
drop_mapping slots (some id) = remove_mapping slots id

abbrev pub drop_edge : ℕ → Tables → Tables
drop_edge slot t = record t {
  edges = remove t.edges slot;
  edge_slots = drop_mapping t.edge_slots (t.edge_slots.reverse slot);
}

abbrev pub drop_new_edge : List ℕ → ℕ → Tables → Tables
drop_new_edge removed slot t = if is_member slot removed then t else drop_edge slot t

abbrev pub node_row : ℕ → Storage → Result Bytes
node_row slot s =
    ok_or (s.tables.nodes slot) (encoding "RemoveNode: node slot present but record row missing")

module _ (codecs : Codecs) where
  -- `if target != removed_slot { adj_remove_edge(other, target, edge_type, edge)?; }`
  abbrev pub drop_counterpart : Side → ℕ → ℕ → AdjEntry → Tables → Result (Unit {0} × Tables)
  drop_counterpart other removed_slot ty e t =
      if e.target == removed_slot
      then ok (tt, t)
      else on_side other t
          (adj_remove_edge codecs.lz4 (adj_of other t) e.target ty e.edge >>> λ p. ok (tt, p.1))

  unfoldable pub cascade : Side → ℕ → List (ℕ × AdjEntry) → List ℕ → Act (List ℕ)
  unfolding is_member insert_slot
  cascade other removed_slot [] removed = pure removed
  cascade other removed_slot ((ty, e) ∷ entries) removed = do
    write (drop_counterpart other removed_slot ty e)
    modify (drop_new_edge removed e.edge)
    cascade other removed_slot entries (insert_slot removed e.edge)

  abbrev pub drain : Side → ℕ → Act (List (ℕ × AdjEntry))
  drain side slot = write (λ t. on_side side t (adj_remove_all codecs.lz4 (adj_of side t) slot))

module _ (codecs : Codecs) (graph : Graph) where
  -- The tombstone of the vector that the node had.
  abbrev pub retire_ref : Option (ℕ × ℕ) → ℕ → Tables → Result (Unit {0} × Tables)
  retire_ref none slot t = ok (tt, t)
  retire_ref (some (model, scope)) slot t =
      retire graph t.hnsw (sources t) model scope slot >>> λ hnsw. ok (tt, record t { hnsw = hnsw })

  unfoldable pub apply_remove_node : ℕ → Act (Unit {0})
  unfolding label_index_key cascade decode_node
  apply_remove_node id = do
    slot ← read (slot_or (rejected "RemoveNode: node not found") (node_slot id))
    row ← read (node_row slot)
    modify (λ t. record t { nodes = remove t.nodes slot })
    disk ← read (λ s. decode_node codecs row)
    modify (λ t. record t {
      label_index = remove t.label_index (label_index_key disk.label disk.scope id);
    })
    old_ref ← read (λ s. read_ref codecs s.tables.embedding_ref slot)
    write (λ t. with_vectors t (remove_vector codecs t.vectors t.embedding_ref slot))
    write (retire_ref old_ref slot)
    out_entries ← drain codecs out_side slot
    in_entries ← drain codecs in_side slot
    modify (λ t. record t { node_slots = remove_mapping t.node_slots id })
    removed ← cascade codecs in_side slot out_entries []
    all_removed ← cascade codecs out_side slot in_entries removed
    pure tt
