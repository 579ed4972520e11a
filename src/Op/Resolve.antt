-- ===== src/Op/Resolve.antt =====
-- crates/topodb/src/storage.rs: `resolve_op`, which fills the times of an op, and
-- `remap_op_node_ids`, which redirects the nodes that an op refers to.
use topo_db.Prelude.{ℕ, Option, none, some, List, [], ◌∷◌, ◌==◌, if◌then◌else◌}
use topo_db.Prelude.Int.{ℤ}
use topo_db.Op.{Op, set_node_props, set_embedding, remove_node, create_edge, close_edge}

abbrev pub unwrap_or {ℓ} : {A : Type ℓ} → Option A → A → A
unwrap_or none d = d
unwrap_or (some a) d = a

unfoldable pub resolve_op : Op → ℤ → Op
resolve_op (create_edge e valid_from recorded_at) now =
    create_edge e (some (unwrap_or valid_from now)) (some now)
resolve_op (close_edge id valid_to superseded_at) now =
    close_edge id (some (unwrap_or valid_to now)) (some now)
resolve_op op now = op

-- `HashMap<NodeId, NodeId>` as the list of its insertions, the newest first.
abbrev pub Remap : Type 0
Remap = List (ℕ × ℕ)

-- `remap.get(&id).copied().unwrap_or(id)`
unfoldable pub remapped : Remap → ℕ → ℕ
remapped [] id = id
remapped ((k, v) ∷ remap) id = if k == id then v else remapped remap id

unfoldable pub remap_op_node_ids : Op → Remap → Op
remap_op_node_ids (create_edge e vf ra) remap =
    create_edge (record e { from = remapped remap e.from; to = remapped remap e.to }) vf ra
remap_op_node_ids (set_node_props id props) remap = set_node_props (remapped remap id) props
remap_op_node_ids (set_embedding id model vector) remap =
    set_embedding (remapped remap id) model vector
remap_op_node_ids (remove_node id) remap = remove_node (remapped remap id)
remap_op_node_ids op remap = op
