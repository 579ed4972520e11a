-- ===== src/Storage/Steps/Batches.antt =====
-- crates/topodb/src/storage.rs: a batch keeps what a transaction relies on.
use topo_db.Prelude.{Option, none, some, List, [], ◌∷◌, map}
use topo_db.Prelude.Int.{ℤ}
use topo_db.Op.{Op}
use topo_db.Op.Resolve.{resolve_op}
use topo_db.Storage.Keeps.{Keeps, keeps_rules}
use topo_db.Storage.Steps.{apply_op-Keeps}
use topo_db.Storage.Batch.{
  Engine, FtsEdit, Pre, unindex_old, index_new, push_edit, apply_one, apply_each, apply_resolved,
  apply_ops_in_txn,
}

module _ (engine : Engine) where
  unindex_old-Keeps : (op : Op) → Keeps (unindex_old engine op)
  unfolding unindex_old
  unindex_old-Keeps op = search keeps_rules depth 30

  index_new-Keeps : (op : Op) → Keeps (index_new engine op)
  unfolding index_new
  index_new-Keeps op = search keeps_rules depth 30

  push_edit-Keeps :
      (op : Op) (pre : Option Pre) (edits : List FtsEdit) → Keeps (push_edit engine op pre edits)
  unfolding push_edit
  push_edit-Keeps op none edits = search keeps_rules
  push_edit-Keeps op (some (id, scope, slot, old)) edits = search keeps_rules depth 30

  apply_one-Keeps : (op : Op) (edits : List FtsEdit) → Keeps (apply_one engine op edits)
  unfolding apply_one
  apply_one-Keeps op edits =
      search (keeps_rules, unindex_old-Keeps, apply_op-Keeps, index_new-Keeps, push_edit-Keeps)
        depth 30

  apply_each-Keeps : (ops : List Op) (edits : List FtsEdit) → Keeps (apply_each engine ops edits)
  unfolding apply_each
  apply_each-Keeps [] edits = search keeps_rules
  apply_each-Keeps (op ∷ ops) edits =
      search (keeps_rules, apply_one-Keeps, apply_each-Keeps ops) depth 30

  apply_resolved-Keeps : (ops : List Op) → Keeps (apply_resolved engine ops)
  unfolding apply_resolved
  apply_resolved-Keeps ops = search (keeps_rules, apply_each-Keeps) depth 30

  pub apply_ops_in_txn-Keeps : (ops : List Op) (now : ℤ) → Keeps (apply_ops_in_txn engine ops now)
  unfolding apply_ops_in_txn
  apply_ops_in_txn-Keeps [] now = search keeps_rules
  apply_ops_in_txn-Keeps (op ∷ ops) now =
      apply_resolved-Keeps (map (λ o. resolve_op o now) (op ∷ ops))
