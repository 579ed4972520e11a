-- ===== src/Storage/Evolves/Batches.antt =====
-- crates/topodb/src/storage.rs: how a group of batches moves the slots and the pinned dimensions.
use topo_db.Prelude.{ℕ, suc, refl, Option, none, some, List, [], ◌∷◌, map}
use topo_db.Prelude.Int.{ℤ}
use topo_db.Prelude.Outcome.{Result, ok, err}
use topo_db.Prelude.Outcome.{◌>>=◌ as ◌>>>◌}
use topo_db.Op.{Op}
use topo_db.Op.Resolve.{resolve_op}
use topo_db.Storage.Act.{Tables, FtsTables, Storage, Txn, begin_write}
use topo_db.Storage.Moves.{Moves, Moves-weaken, Leads, moves_rules}
use topo_db.Storage.Evolves.{
  Evolves, Evolves-refl, Evolves-IsOrder, Edits, Edits-IsOrder, Edits-quiet, Evolves-quiet,
  edits_rules, evolves_rules,
}
use topo_db.Storage.Evolves.Steps.{apply_op-Moves}
use topo_db.Storage.Batch.{
  Engine, FtsEdit, Pre, AppliedBatch, edit_index, unindex_old, index_new, push_edit, apply_one,
  apply_each, append_log, apply_resolved, apply_ops_in_txn,
}
use topo_db.Storage.Group.{
  Answer, PreCommit, push_front, finish, batch_then, apply_all, begun, apply_batches,
}
use topo_db.Prelude.Bytes.{KeyTable}
use topo_db.Read.Traverse.{NodeRecord}

module _ (engine : Engine) where
  edit_index-Edits :
      (edit : KeyTable → NodeRecord → ℕ → KeyTable) (node : Option NodeRecord) (slot : Option ℕ)
      (t : Tables)
      → Edits t (edit_index engine edit node slot t)
  edit_index-Edits edit (some node) (some slot) t = Edits-quiet _ _ refl refl refl refl
  edit_index-Edits edit (some node) none t = Edits-IsOrder.rest t
  edit_index-Edits edit none slot t = Edits-IsOrder.rest t

  unindex_old-Moves : (op : Op) → Moves Edits (unindex_old engine op)
  unfolding unindex_old
  unindex_old-Moves op = search (moves_rules, edits_rules, edit_index-Edits) depth 30

  index_new-Moves : (op : Op) → Moves Edits (index_new engine op)
  unfolding index_new
  index_new-Moves op = search (moves_rules, edits_rules, edit_index-Edits) depth 30

  push_edit-Moves :
      (op : Op) (pre : Option Pre) (edits : List FtsEdit)
      → Moves Edits (push_edit engine op pre edits)
  unfolding push_edit
  push_edit-Moves op none edits = search (moves_rules, edits_rules)
  push_edit-Moves op (some (id, scope, slot, old)) edits =
      search (moves_rules, edits_rules) depth 30

  apply_one-Moves : (op : Op) (edits : List FtsEdit) → Moves Edits (apply_one engine op edits)
  unfolding apply_one
  apply_one-Moves op edits =
      search
        (
          moves_rules, edits_rules, unindex_old-Moves, apply_op-Moves, index_new-Moves,
          push_edit-Moves,
        )
        depth 30

  pub apply_each-Moves :
      (ops : List Op) (edits : List FtsEdit) → Moves Edits (apply_each engine ops edits)
  unfolding apply_each
  apply_each-Moves [] edits = search (moves_rules, edits_rules)
  apply_each-Moves (op ∷ ops) edits =
      search (moves_rules, edits_rules, apply_one-Moves, apply_each-Moves ops) depth 30

  each_op-Moves :
      (ops : List Op) (edits : List FtsEdit) → Moves Evolves (apply_each engine ops edits)
  each_op-Moves ops edits =
      Moves-weaken Edits Evolves _ (λ t t' h. h.evolves) (apply_each-Moves ops edits)

  written_fts-Leads :
      (t : Tables) (r : Result FtsTables)
      → Leads Evolves t (r >>> λ fts. ok (tt, record t { fts = fts }))
  written_fts-Leads t (ok fts) = Evolves-quiet _ _ refl refl refl
  written_fts-Leads t (err e) = tt

  append_log-Leads : (ops : List Op) (t : Tables) → Leads Evolves t (append_log engine ops t)
  append_log-Leads ops t = Evolves-quiet _ _ refl refl refl

  apply_resolved-Moves : (ops : List Op) → Moves Evolves (apply_resolved engine ops)
  unfolding apply_resolved
  apply_resolved-Moves ops =
      search (moves_rules, evolves_rules, each_op-Moves, written_fts-Leads, append_log-Leads) depth
        30

  apply_ops_in_txn-Moves :
      (ops : List Op) (now : ℤ) → Moves Evolves (apply_ops_in_txn engine ops now)
  unfolding apply_ops_in_txn
  apply_ops_in_txn-Moves [] now = search (moves_rules, evolves_rules)
  apply_ops_in_txn-Moves (op ∷ ops) now =
      apply_resolved-Moves (map (λ o. resolve_op o now) (op ∷ ops))

  push_front-Evolves :
      (t : Tables) (batch : AppliedBatch) (p : PreCommit × Txn)
      → Evolves t p.1.tables
      → Evolves t (push_front batch p).1.tables
  push_front-Evolves t batch (ok batches, u) h = h
  push_front-Evolves t batch (err e, u) h = h

  batch_then-Evolves :
      (t : Tables) (rest : Txn → PreCommit × Txn) (idx : ℕ) (r : Result AppliedBatch × Txn)
      → Evolves t r.1.tables
      → ((u : Txn) → Evolves u.tables (rest u).1.tables)
      → Evolves t (batch_then engine rest idx r).1.tables
  batch_then-Evolves t rest idx (ok batch, u) h k =
      push_front-Evolves t batch (rest u) (Evolves-IsOrder.join _ _ _ h (k u))
  batch_then-Evolves t rest idx (err e, u) h k = h

  apply_all-Evolves :
      (now : ℤ) (idx : ℕ) (groups : List (List Op)) (t : Txn)
      → Evolves t.tables (apply_all engine now idx groups t).1.tables
  unfolding apply_all
  apply_all-Evolves now idx [] t = Evolves-refl t.tables
  apply_all-Evolves now idx (ops ∷ groups) t =
      batch_then-Evolves t.tables (apply_all engine now (suc idx) groups) idx
        (apply_ops_in_txn engine ops now t) ((apply_ops_in_txn-Moves ops now).moves t)
        (apply_all-Evolves now (suc idx) groups)

  begun-Evolves :
      (s : Storage) (groups : List (List Op)) (now : ℤ) (begin : Answer)
      → Evolves s.tables (begun engine s groups now begin).1.tables
  begun-Evolves s groups now (some e) = Evolves-refl s.tables
  begun-Evolves s groups now none = apply_all-Evolves now 0 groups (begin_write s)

finish-Evolves :
    (s : Storage) (n : ℕ) (commit : Answer) (p : PreCommit × Txn)
    → Evolves s.tables p.1.tables
    → Evolves s.tables (finish s n commit p).1.tables
unfolding finish
finish-Evolves s n commit (err (idx, e), t) h = Evolves-refl s.tables
finish-Evolves s n none (ok batches, t) h = h
finish-Evolves s n (some e) (ok batches, t) h = Evolves-refl s.tables

-- Over every group of batches, whether it commits or fails: the slot tables of the nodes and of the
-- edges stay inverse to one another, their counters never go back, and a slot that is in use
-- afterwards belongs to the id that it belonged to before, unless it was never given out. The
-- dimension that is pinned for a model stays what it is.
pub apply_batches-Evolves :
    (engine : Engine) (s : Storage) (groups : List (List Op)) (now : ℤ) (begin commit : Answer)
    → Evolves s.tables (apply_batches engine s groups now begin commit).1.tables
unfolding apply_batches
apply_batches-Evolves engine s [] now begin commit = Evolves-refl s.tables
apply_batches-Evolves engine s (ops ∷ groups) now begin commit =
    finish-Evolves s _ commit _ (begun-Evolves engine s (ops ∷ groups) now begin)
