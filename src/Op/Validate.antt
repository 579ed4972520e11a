-- ===== src/Op/Validate.antt =====
-- crates/topodb/src/validate.rs: the checks of a live submit. What storage holds before the batch is
-- the table of the nodes' scopes; a set of ids is a table too.
pub mod Visible
pub mod Created
pub mod Edges
use topo_db.Prelude.{
  ℕ, Bool, true, false, ◌||◌, Option, none, some, List, [], ◌∷◌, ◌==◌, if◌then◌else◌, not,
}
use topo_db.Prelude.Table.{Table, insert, empty, nat_key}
use topo_db.Prelude.Outcome.{Except, ok, err, Result, TopoError, rejected}
use topo_db.Ids.{Scope, shared, id, same_scope}
use topo_db.Op.{
  Op, create_node, set_node_props, set_embedding, remove_node, create_edge, close_edge, upsert_node,
  EdgeSpec,
}
use topo_db.Op.Upsert.{or_else}

-- The project scope of two endpoints, if there is one.
abbrev pub endpoint : Scope → Scope → Scope
endpoint (id a) to = id a
endpoint shared to = to

unfoldable pub edge_scope_is_valid : Scope → Scope → Scope → Bool
edge_scope_is_valid edge shared shared = true
edge_scope_is_valid edge from to = same_scope edge (endpoint from to) || same_scope edge shared

-- `created_scope.get(node).copied().or_else(|| pre.get(node).map(...))`
abbrev pub first_of : Option Scope → Option Scope → Option Scope
first_of none b = b
first_of (some a) b = some a

abbrev pub scope_of : Table ℕ Scope → Table ℕ Scope → ℕ → Option Scope
scope_of pre made node = first_of (made node) (pre node)

abbrev pub edge_scope_check : Scope → Option Scope → Option Scope → Bool
edge_scope_check edge (some from) (some to) = edge_scope_is_valid edge from to
edge_scope_check edge from to = true

unfoldable pub prevalidate_edge_scopes_loop :
    Table ℕ Scope → Table ℕ Scope → List Op → Result (Unit {0})
prevalidate_edge_scopes_loop pre made [] = ok tt
prevalidate_edge_scopes_loop pre made (create_node node scope label props ∷ ops) =
    prevalidate_edge_scopes_loop pre (insert made node scope) ops
prevalidate_edge_scopes_loop pre made (create_edge e vf ra ∷ ops) =
    let rest = prevalidate_edge_scopes_loop pre made ops in
    if edge_scope_check e.scope (scope_of pre made e.from) (scope_of pre made e.to)
    then rest
    else err (rejected "CreateEdge: edge scope is unrelated to its endpoints")
prevalidate_edge_scopes_loop pre made (op ∷ ops) = prevalidate_edge_scopes_loop pre made ops

unfoldable pub prevalidate_edge_scopes : Table ℕ Scope → List Op → Result (Unit {0})
prevalidate_edge_scopes pre ops = prevalidate_edge_scopes_loop pre empty ops

-- `pre.contains_key(id)`
abbrev pub holds : {V : Type 0} → Option V → Bool
holds none = false
holds (some v) = true

unfoldable pub prevalidate_create_node_ids_loop :
    Table ℕ Scope → Table ℕ (Unit {0}) → List Op → Result (Unit {0})
prevalidate_create_node_ids_loop pre seen [] = ok tt
prevalidate_create_node_ids_loop pre seen (create_node node scope label props ∷ ops) =
    let rest = prevalidate_create_node_ids_loop pre (insert seen node tt) ops in
    if holds (pre node) || holds (seen node)
    then err (rejected "CreateNode: id already exists")
    else rest
prevalidate_create_node_ids_loop pre seen (op ∷ ops) = prevalidate_create_node_ids_loop pre seen ops

unfoldable pub prevalidate_create_node_ids : Table ℕ Scope → List Op → Result (Unit {0})
prevalidate_create_node_ids pre ops = prevalidate_create_node_ids_loop pre empty ops
