-- ===== src/Storage/Apply.antt =====
-- crates/topodb/src/storage.rs: `apply_op`, which applies one resolved op to the tables.
pub mod Parts
pub mod Nodes
pub mod Removal
pub mod Edges
use topo_db.Prelude.Table.{nat_key}
use topo_db.Prelude.Outcome.{encoding}
use topo_db.Op.{
  Op, create_node, set_node_props, set_embedding, remove_node, create_edge, close_edge, upsert_node,
}
use topo_db.Storage.Act.{Act, fail}
use topo_db.Storage.Rows.{Codecs}
use topo_db.Storage.Hnsw.{Graph}
use topo_db.Storage.Apply.Nodes.{apply_create_node, apply_set_node_props, apply_set_embedding}
use topo_db.Storage.Apply.Removal.{apply_remove_node}
use topo_db.Storage.Apply.Edges.{apply_create_edge, apply_close_edge}

module _ (codecs : Codecs) (graph : Graph) where
  unfoldable pub apply_op : Op → Act (Unit {0})
  unfolding apply_create_node apply_set_node_props apply_set_embedding apply_remove_node
      apply_create_edge apply_close_edge
  apply_op (create_node id scope label props) = apply_create_node codecs id scope label props
  apply_op (set_node_props id edits) = apply_set_node_props codecs id edits
  apply_op (set_embedding id model vector) = apply_set_embedding codecs graph id model vector
  apply_op (remove_node id) = apply_remove_node codecs graph id
  apply_op (create_edge e valid_from recorded_at) =
      apply_create_edge codecs e valid_from recorded_at
  apply_op (close_edge id valid_to superseded_at) =
      apply_close_edge codecs id valid_to superseded_at
  apply_op (upsert_node id scope label key props) =
      fail (encoding "UpsertNode reached apply_op unresolved")
