-- ===== src/Storage/Group.antt =====
-- crates/topodb/src/storage.rs: `apply_batches`, a group of batches in one transaction, and
-- `apply_batch`. What redb answers to `begin_write` and to `commit` are arguments.
pub mod Atomic
pub mod Sequential
use topo_db.Prelude.{
  ℕ, suc, ◌+◌, ◌-◌, Option, none, some, List, [], ◌∷◌, ◌++◌, map, length, replicate,
}
use topo_db.Prelude.Int.{ℤ}
use topo_db.Prelude.Outcome.{Except, Result, ok, err, TopoError, rejected, encoding}
use topo_db.Op.{Op}
use topo_db.Registry.Dicts
use topo_db.Registry.Scopes
use topo_db.Storage.Act.{Storage, Txn, begin_write, view}
use topo_db.Storage.Batch.{Engine, AppliedBatch, apply_ops_in_txn}

-- The failure of a call of redb, if it fails.
abbrev pub Answer : Type 0
Answer = Option TopoError

abbrev pub aborted_by_later : TopoError
aborted_by_later = rejected "aborted by a later batch's failure in the same group"

abbrev pub aborted_by_earlier : TopoError
aborted_by_earlier = rejected "aborted by an earlier batch's failure in the same group"

abbrev pub commit_failed : TopoError
commit_failed = rejected "optimistic group commit failed at tx.commit()"

-- What the loop returns: the batches, or the index of the one that failed.
abbrev pub PreCommit : Type 0
PreCommit = Except (ℕ × TopoError) (List AppliedBatch)

abbrev pub push_front : AppliedBatch → PreCommit × Txn → PreCommit × Txn
push_front batch (ok batches, t) = (ok (batch ∷ batches), t)
push_front batch (err e, t) = (err e, t)

-- The journal is undone in both mirrors; the transaction is dropped.
unfoldable pub revert : Storage → Txn → Storage
unfolding Dicts.revert Scopes.revert
revert s t = record s {
  dicts = Dicts.revert t.dict.dicts t.dict.dict_ids;
  scope_registry = Scopes.revert t.scopes.mirror t.scopes.scope_ids;
}

abbrev pub aborted : ℕ → ℕ → TopoError → List (Result AppliedBatch)
aborted n idx e =
    replicate idx (err aborted_by_later)
    ++ (err e ∷ replicate (n - (idx + 1)) (err aborted_by_earlier))

abbrev pub uncommitted : ℕ → TopoError → List (Result AppliedBatch)
uncommitted n e = replicate (n - 1) (err commit_failed) ++ err e ∷ []

unfoldable pub finish :
    Storage → ℕ → Answer → PreCommit × Txn → List (Result AppliedBatch) × Storage
unfolding revert
finish s n commit (err (idx, e), t) = (aborted n idx e, revert s t)
finish s n none (ok batches, t) = (map ok batches, view t)
finish s n (some e) (ok batches, t) = (uncommitted n e, revert s t)

abbrev pub only : List (Result AppliedBatch) × Storage → Result AppliedBatch × Storage
only (r ∷ rs, s) = (r, s)
only ([], s) = (err (encoding "apply_batches returns one result per group"), s)

module _ (engine : Engine) where
  abbrev pub batch_then : (Txn → PreCommit × Txn) → ℕ → Result AppliedBatch × Txn → PreCommit × Txn
  batch_then rest idx (ok batch, t) = push_front batch (rest t)
  batch_then rest idx (err e, t) = (err (idx, e), t)

  unfoldable pub apply_all : ℤ → ℕ → List (List Op) → Txn → PreCommit × Txn
  unfolding apply_ops_in_txn
  apply_all now idx [] t = (ok [], t)
  apply_all now idx (ops ∷ groups) t =
      batch_then (apply_all now (suc idx) groups) idx (apply_ops_in_txn engine ops now t)

  abbrev pub begun : Storage → List (List Op) → ℤ → Answer → PreCommit × Txn
  begun s groups now (some e) = (err (0, e), begin_write s)
  begun s groups now none = apply_all now 0 groups (begin_write s)

  unfoldable pub apply_batches :
      Storage → List (List Op) → ℤ → Answer → Answer → List (Result AppliedBatch) × Storage
  unfolding apply_all finish
  apply_batches s [] now begin commit = ([], s)
  apply_batches s (ops ∷ groups) now begin commit =
      finish s (length (ops ∷ groups)) commit (begun s (ops ∷ groups) now begin)

  -- `apply_batches(vec![ops], now_ms).pop().expect(..)`
  unfoldable pub apply_batch :
      Storage → List Op → ℤ → Answer → Answer → Result AppliedBatch × Storage
  unfolding apply_batches
  apply_batch s ops now begin commit = only (apply_batches s (ops ∷ []) now begin commit)
