-- ===== src/Op/Tests.antt =====
-- Runs of the functions of crates/topodb/src/op.rs, validate.rs and storage.rs that check and
-- rewrite a batch, and the theorems at concrete inputs.
use topo_db.Prelude.{ℕ, ◌≡◌, ◌↔◌, ◌⊎◌, refl, none, some, List, [], ◌∷◌, ◌++◌, All, true}
use topo_db.Prelude.Table.{empty, insert, nat_key}
use topo_db.Prelude.Outcome.{ok, err, rejected}
use topo_db.Ids.{Scope, shared, id}
use topo_db.Op.{
  Op, create_node, create_edge, upsert_node, EdgeSpec, str, same_prop, Props, get_prop,
}
use topo_db.Op.Resolve.{unwrap_or, remapped, remap_op_node_ids}
use topo_db.Op.Upsert.{
  Index, upsert, existing_node, find_pending, pass_op, pass_all, fresh_pass, resolve_upserts,
}
use topo_db.Op.Upsert.Laws.{upsert_once}
use topo_db.Op.Upsert.Targets.{Known, resolve_upserts_targets}
use topo_db.Op.Validate.{
  edge_scope_is_valid, prevalidate_edge_scopes, prevalidate_edge_scopes_loop,
  prevalidate_create_node_ids, prevalidate_create_node_ids_loop,
}
use topo_db.Op.Validate.Visible.{IsReadable, edge_scope_is_valid_iff}
use topo_db.Op.Validate.Created.{created_ids, Distinct, prevalidate_create_node_ids_iff}
use topo_db.Op.Validate.Edges.{EdgesIn, prevalidate_edge_scopes_iff}

abbrev ada : Props
ada = ("name", str "Ada") ∷ []

abbrev knows : EdgeSpec
knows = record { id = 90; scope = id 7; ty = "knows"; from = 1; to = 2; props = [] }

abbrev upsert_ada : ℕ → Op
upsert_ada n = upsert_node n shared "Person" "name" ada

abbrev batch : List Op
batch = upsert_ada 1 ∷ upsert_ada 2 ∷ create_edge knows none none ∷ []

abbrev no_hits : Index
no_hits scope label key value = none

-- Two upserts of one name make one node, and the edge between them becomes a loop on it.
collapsed : resolve_upserts no_hits batch ≡ (
  create_node 1 shared "Person" ada ∷ create_edge (record knows { to = 1 }) none none ∷ [],
  (2, 1) ∷ [],
)
unfolding resolve_upserts pass_all pass_op upsert existing_node find_pending get_prop same_prop
    remap_op_node_ids remapped
collapsed = refl

resolve_upserts_targets_example :
    All
      (λ (r : ℕ × ℕ). Known no_hits (resolve_upserts no_hits batch).0 r.1)
      (resolve_upserts no_hits batch).1
resolve_upserts_targets_example = resolve_upserts_targets no_hits batch

ada_named : get_prop ada "name" ≡ some (str "Ada")
unfolding get_prop
ada_named = refl

ada_same : same_prop (str "Ada") (str "Ada") ≡ true
unfolding same_prop
ada_same = refl

upsert_once_example :
    let s' =
      pass_all no_hits
        (pass_op no_hits fresh_pass (upsert_ada 1))
        (create_edge knows none none ∷ []) in
    pass_op no_hits s' (upsert_ada 2) ≡ record s' {
      remap =
          (
            2,
            unwrap_or
                (existing_node no_hits fresh_pass shared "Person" "name" (some (str "Ada")))
                1,
          )
          ∷ s'.remap;
    }
upsert_once_example =
    upsert_once no_hits fresh_pass 1 2 shared "Person" "name" ada ada
      (create_edge knows none none ∷ []) (str "Ada") ada_named ada_named ada_same

edge_scope_is_valid_iff_example :
    (edge_scope_is_valid (id 7) shared (id 7) ≡ true)
    ↔ (((shared ≡ shared) × (id 7 ≡ shared)) ⊎ IsReadable (id 7) shared (id 7))
edge_scope_is_valid_iff_example = edge_scope_is_valid_iff (id 7) shared (id 7) tt

abbrev two_nodes : List Op
two_nodes =
    create_node 1 shared "Person" ada
    ∷ create_node 2 (id 8) "Person" ada
    ∷ create_edge knows none none
    ∷ []

-- The edge of project 7 may not touch the node of project 8.
refused :
    prevalidate_edge_scopes empty two_nodes
    ≡ err (rejected "CreateEdge: edge scope is unrelated to its endpoints")
unfolding prevalidate_edge_scopes prevalidate_edge_scopes_loop edge_scope_is_valid insert
refused = refl

twice :
    prevalidate_create_node_ids empty (two_nodes ++ two_nodes)
    ≡ err (rejected "CreateNode: id already exists")
unfolding prevalidate_create_node_ids prevalidate_create_node_ids_loop insert
twice = refl

prevalidate_create_node_ids_iff_example : (prevalidate_create_node_ids empty two_nodes ≡ ok tt) ↔ (
    All (λ n. empty {K = ℕ} {V = Scope} n ≡ none) (created_ids two_nodes)
    × Distinct (created_ids two_nodes))
prevalidate_create_node_ids_iff_example = prevalidate_create_node_ids_iff empty two_nodes

prevalidate_edge_scopes_iff_example :
    (prevalidate_edge_scopes empty two_nodes ≡ ok tt) ↔ EdgesIn empty empty two_nodes
prevalidate_edge_scopes_iff_example = prevalidate_edge_scopes_iff empty two_nodes
