-- ===== src/Storage/Steps.antt =====
-- crates/topodb/src/storage.rs: every op keeps what a transaction relies on.
pub mod Batches
use topo_db.Prelude.{ℕ, String, Bool, true, false, Option, List, [], ◌∷◌}
use topo_db.Prelude.Int.{ℤ}
use topo_db.Ids.{Scope}
use topo_db.Adj.Block.{AdjEntry}
use topo_db.Op.{
  Op, create_node, set_node_props, set_embedding, remove_node, create_edge, close_edge, upsert_node,
  PropValue, Props, EdgeSpec,
}
use topo_db.Read.Traverse.{NodeRecord, EdgeRecord}
use topo_db.Storage.Act.{Act}
use topo_db.Storage.Keeps.{Keeps, keeps_rules}
use topo_db.Storage.Records.{intern_props, node_to_disk_v3, edge_to_disk_v4}
use topo_db.Storage.Rows.{Codecs, put_node, put_edge}
use topo_db.Storage.Hnsw.{Graph}
use topo_db.Storage.Apply.{apply_op}
use topo_db.Storage.Apply.Parts.{Side}
use topo_db.Storage.Apply.Nodes.{apply_create_node, apply_set_node_props, apply_set_embedding}
use topo_db.Storage.Apply.Removal.{cascade, apply_remove_node}
use topo_db.Storage.Apply.Edges.{also_closed, apply_create_edge, apply_close_edge}

intern_props-Keeps : (props : Props) (p : List (ℕ × PropValue)) → Keeps (intern_props props p)
unfolding intern_props
intern_props-Keeps [] p = search keeps_rules
intern_props-Keeps ((k, v) ∷ props) p = search (keeps_rules, intern_props-Keeps props) depth 30

node_to_disk_v3-Keeps : (r : NodeRecord) → Keeps (node_to_disk_v3 r)
unfolding node_to_disk_v3
node_to_disk_v3-Keeps r = search (keeps_rules, intern_props-Keeps) depth 30

edge_to_disk_v4-Keeps : (r : EdgeRecord) → Keeps (edge_to_disk_v4 r)
unfolding edge_to_disk_v4
edge_to_disk_v4-Keeps r = search (keeps_rules, intern_props-Keeps) depth 30

also_closed-Keeps : (b : Bool) (m : Act Bool) → Keeps m → Keeps (also_closed b m)
also_closed-Keeps true m k = k
also_closed-Keeps false m k = search keeps_rules

module _ (codecs : Codecs) (graph : Graph) where
  put_node-Keeps : (r : NodeRecord) → Keeps (put_node codecs r)
  unfolding put_node
  put_node-Keeps r = search (keeps_rules, node_to_disk_v3-Keeps) depth 30

  put_edge-Keeps : (r : EdgeRecord) → Keeps (put_edge codecs r)
  unfolding put_edge
  put_edge-Keeps r = search (keeps_rules, edge_to_disk_v4-Keeps) depth 30

  cascade-Keeps :
      (other : Side) (removed_slot : ℕ) (entries : List (ℕ × AdjEntry)) (removed : List ℕ)
      → Keeps (cascade codecs other removed_slot entries removed)
  unfolding cascade
  cascade-Keeps other slot [] removed = search keeps_rules
  cascade-Keeps other slot ((ty, e) ∷ entries) removed =
      search (keeps_rules, cascade-Keeps other slot entries) depth 30

  apply_create_node-Keeps :
      (id : ℕ) (scope : Scope) (label : String) (props : Props)
      → Keeps (apply_create_node codecs id scope label props)
  unfolding apply_create_node
  apply_create_node-Keeps id scope label props = search (keeps_rules, put_node-Keeps) depth 30

  apply_set_node_props-Keeps :
      (id : ℕ) (edits : List (String × Option PropValue))
      → Keeps (apply_set_node_props codecs id edits)
  unfolding apply_set_node_props
  apply_set_node_props-Keeps id edits = search (keeps_rules, put_node-Keeps) depth 30

  apply_set_embedding-Keeps :
      (id : ℕ) (model : String) (vector : List ℕ)
      → Keeps (apply_set_embedding codecs graph id model vector)
  unfolding apply_set_embedding
  apply_set_embedding-Keeps id model [] = search keeps_rules
  apply_set_embedding-Keeps id model (c ∷ vector) = search keeps_rules depth 30

  apply_remove_node-Keeps : (id : ℕ) → Keeps (apply_remove_node codecs graph id)
  unfolding apply_remove_node
  apply_remove_node-Keeps id = search (keeps_rules, cascade-Keeps) depth 30

  apply_create_edge-Keeps :
      (e : EdgeSpec) (valid_from recorded_at : Option ℤ)
      → Keeps (apply_create_edge codecs e valid_from recorded_at)
  unfolding apply_create_edge
  apply_create_edge-Keeps e valid_from recorded_at = search (keeps_rules, put_edge-Keeps) depth 30

  apply_close_edge-Keeps :
      (id : ℕ) (valid_to superseded_at : Option ℤ)
      → Keeps (apply_close_edge codecs id valid_to superseded_at)
  unfolding apply_close_edge
  apply_close_edge-Keeps id valid_to superseded_at =
      search (keeps_rules, put_edge-Keeps, also_closed-Keeps) depth 30

  pub apply_op-Keeps : (op : Op) → Keeps (apply_op codecs graph op)
  unfolding apply_op
  apply_op-Keeps (create_node id scope label props) = apply_create_node-Keeps id scope label props
  apply_op-Keeps (set_node_props id edits) = apply_set_node_props-Keeps id edits
  apply_op-Keeps (set_embedding id model vector) = apply_set_embedding-Keeps id model vector
  apply_op-Keeps (remove_node id) = apply_remove_node-Keeps id
  apply_op-Keeps (create_edge e vf ra) = apply_create_edge-Keeps e vf ra
  apply_op-Keeps (close_edge id vt sa) = apply_close_edge-Keeps id vt sa
  apply_op-Keeps (upsert_node id scope label key props) = search keeps_rules
