-- ===== src/Op/Upsert.antt =====
-- crates/topodb/src/storage.rs: the pre-pass of `apply_ops_in_txn` that turns each `UpsertNode` into
-- a `CreateNode` or drops it. What the index answers for the committed state is an argument: the
-- pre-pass writes no table, so it asks one state all along.
pub mod Laws
pub mod Targets
use topo_db.Prelude.{
  ℕ, Bool, false, ◌&&◌, String, Option, none, some, List, [], ◌∷◌, ◌++◌, if◌then◌else◌,
}
use topo_db.Ids.{Scope, same_scope}
use topo_db.Op.{Op, create_node, upsert_node, PropValue, same_prop, Props, get_prop}
use topo_db.Op.Resolve.{Remap, remap_op_node_ids}
use text.Mathlib.Text.{◌==◌ as str_eq}

-- The answer of `lookup_indexed_node` for a scope, a label, a property and its value.
abbrev pub Index : Type 0
Index = Scope → String → String → PropValue → Option ℕ

pub record Pending : Type 0 where
  pub scope : Scope
  pub label : String
  pub key_prop : String
  pub value : PropValue
  pub node : ℕ

abbrev pub is_pending : Scope → String → String → PropValue → Pending → Bool
is_pending scope label key value p =
    same_scope p.scope scope
    && (str_eq p.label label && (str_eq p.key_prop key && same_prop p.value value))

unfoldable pub find_pending : List Pending → Scope → String → String → PropValue → Option ℕ
find_pending [] scope label key value = none
find_pending (p ∷ ps) scope label key value =
    if is_pending scope label key value p
    then some p.node
    else find_pending ps scope label key value

pub record Pass : Type 0 where
  pub pending : List Pending
  pub rewritten : List Op
  pub remap : Remap

-- `a.or_else(|| b)`
abbrev pub or_else : Option ℕ → Option ℕ → Option ℕ
or_else none b = b
or_else (some a) b = some a

-- No answer where the op has no value for its key.
unfoldable pub existing_node : Index → Pass → Scope → String → String → Option PropValue → Option ℕ
existing_node index s scope label key none = none
existing_node index s scope label key (some value) =
    or_else (index scope label key value) (find_pending s.pending scope label key value)

abbrev pub push_pending :
    List Pending → Scope → String → String → Option PropValue → ℕ → List Pending
push_pending ps scope label key none id = ps
push_pending ps scope label key (some v) id =
    ps ++ record { scope = scope; label = label; key_prop = key; value = v; node = id } ∷ []

unfoldable pub upsert :
    Pass → ℕ → Scope → String → String → Props → Option PropValue → Option ℕ → Pass
upsert s id scope label key props value (some found) = record s { remap = (id, found) ∷ s.remap }
upsert s id scope label key props value none = record s {
  pending = push_pending s.pending scope label key value id;
  rewritten = s.rewritten ++ create_node id scope label props ∷ [];
}

unfoldable pub pass_op : Index → Pass → Op → Pass
unfolding upsert existing_node
pass_op index s (upsert_node id scope label key props) =
    let value = get_prop props key in
    upsert s id scope label key props value (existing_node index s scope label key value)
pass_op index s op = record s { rewritten = s.rewritten ++ remap_op_node_ids op s.remap ∷ [] }

unfoldable pub pass_all : Index → Pass → List Op → Pass
unfolding pass_op
pass_all index s [] = s
pass_all index s (op ∷ ops) = pass_all index (pass_op index s op) ops

abbrev pub fresh_pass : Pass
fresh_pass = record { pending = []; rewritten = []; remap = [] }

-- The whole pre-pass: the ops to apply and to log, and the remapping of the planned ids.
unfoldable pub resolve_upserts : Index → List Op → List Op × Remap
unfolding pass_all
resolve_upserts index ops = let s = pass_all index fresh_pass ops in (s.rewritten, s.remap)
