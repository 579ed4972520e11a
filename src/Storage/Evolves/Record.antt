-- ===== src/Storage/Evolves/Record.antt =====
-- crates/topodb/src/storage.rs: what a group of batches leaves in the op log.
use topo_db.Prelude.{ℕ, suc, ◌≡◌, ◌⊎◌, inl, inr, refl, subst, none, some, List, [], ◌∷◌, map, All}
use topo_db.Prelude.Int.{ℤ}
use topo_db.Prelude.Outcome.{Result, ok, err}
use topo_db.Prelude.Outcome.{◌>>=◌ as ◌>>>◌}
use topo_db.Op.{Op}
use topo_db.Op.Resolve.{resolve_op}
use topo_db.Log.{Log, append_rewritten}
use topo_db.Storage.Act.{
  Tables, FtsTables, Storage, Txn, Act, pure, write, fail, begin_write, ◌>>=◌, proceed,
}
use topo_db.Storage.Moves.{Moves, Leads, moves_rules}
use topo_db.Storage.Evolves.{Edits, Edits-quiet, edits_rules}
use topo_db.Storage.Evolves.Batches.{apply_each-Moves}
use topo_db.Storage.Batch.{Engine, AppliedBatch, append_log, apply_resolved, apply_ops_in_txn}
use topo_db.Storage.Group.{
  Answer, PreCommit, push_front, finish, batch_then, apply_all, begun, apply_batches,
}
use topo_db.Storage.Group.Atomic.{IsErr, aborted-IsErr, uncommitted-IsErr}

-- The ops of the batches, appended one batch after the other at the numbers that each reports.
abbrev pub Logs : Log Op → List AppliedBatch → Log Op → Type 0
Logs log [] log' = log ≡ log'
Logs log (b ∷ bs) log' =
    (mid : Log Op) × (append_rewritten log b.resolved ≡ (mid, (b.first_seq, b.last_seq)))
    × Logs mid bs log'

-- All of the group is in the log, or nothing is.
abbrev pub Recorded : Log Op → List (Result AppliedBatch) × Storage → Type 0
Recorded log (rs, s) =
    ((bs : List AppliedBatch) × (rs ≡ map ok bs) × Logs log bs s.tables.log)
    ⊎ (All IsErr rs × (s.tables.log ≡ log))

-- What one batch leaves.
abbrev LogsOne : Log Op → Result AppliedBatch × Txn → Type 0
LogsOne log (ok b, t) = append_rewritten log b.resolved ≡ (t.tables.log, (b.first_seq, b.last_seq))
LogsOne log (err e, t) = Unit {0}

record Ends (m : Act AppliedBatch) : Type 0 where
  ends : (t : Txn) → LogsOne t.tables.log (m t)

module _ {A : Type 0} where
  proceed-Ends :
      (log : Log Op) (r : Result A) (f : A → Act AppliedBatch) (t : Txn)
      → ((a : A) → Ends (f a))
      → t.tables.log ≡ log
      → LogsOne log (proceed r f t)
  proceed-Ends log (ok a) f t k same = subst (λ (l : Log Op). LogsOne l (f a t)) same ((k a).ends t)
  proceed-Ends log (err e) f t k same = tt

  -- A step that leaves the log alone may go first.
  Ends-bind :
      (m : Act A) (f : A → Act AppliedBatch)
      → Moves Edits m
      → ((a : A) → Ends (f a))
      → Ends (m >>= f)
  unfolding ◌>>=◌
  Ends-bind m f km kf = record {
    ends = λ t. proceed-Ends t.tables.log (m t).0 f (m t).1 kf (km.moves t).log;
  }

written_fts-Leads :
    (t : Tables) (r : Result FtsTables)
    → Leads Edits t (r >>> λ fts. ok (tt, record t { fts = fts }))
written_fts-Leads t (ok fts) = Edits-quiet _ _ refl refl refl refl
written_fts-Leads t (err e) = tt

module _ (engine : Engine) where
  appended-Ends :
      (ops : List Op) (remap : List (ℕ × ℕ))
      → Ends (
          write (append_log engine ops) >>= λ seqs.
          pure (record { first_seq = seqs.0; last_seq = seqs.1; resolved = ops; remap = remap }))
  unfolding ◌>>=◌ write pure
  appended-Ends ops remap = record { ends = λ t. refl }

  apply_resolved-Ends : (ops : List Op) → Ends (apply_resolved engine ops)
  unfolding apply_resolved
  apply_resolved-Ends ops =
      search
        (Ends-bind, appended-Ends, moves_rules, edits_rules, apply_each-Moves, written_fts-Leads)
        depth 30

  apply_ops_in_txn-Ends : (ops : List Op) (now : ℤ) → Ends (apply_ops_in_txn engine ops now)
  unfolding apply_ops_in_txn fail
  apply_ops_in_txn-Ends [] now = record { ends = λ t. tt }
  apply_ops_in_txn-Ends (op ∷ ops) now =
      apply_resolved-Ends (map (λ o. resolve_op o now) (op ∷ ops))

  abbrev LogsAll : Log Op → PreCommit × Txn → Type 0
  LogsAll log (ok bs, t) = Logs log bs t.tables.log
  LogsAll log (err e, t) = Unit {0}

  push_front-LogsAll :
      (log mid : Log Op) (b : AppliedBatch) (p : PreCommit × Txn)
      → append_rewritten log b.resolved ≡ (mid, (b.first_seq, b.last_seq))
      → LogsAll mid p
      → LogsAll log (push_front b p)
  push_front-LogsAll log mid b (ok bs, t) h k = (mid, h, k)
  push_front-LogsAll log mid b (err e, t) h k = tt

  batch_then-LogsAll :
      (log : Log Op) (rest : Txn → PreCommit × Txn) (idx : ℕ) (r : Result AppliedBatch × Txn)
      → LogsOne log r
      → ((u : Txn) → LogsAll u.tables.log (rest u))
      → LogsAll log (batch_then engine rest idx r)
  batch_then-LogsAll log rest idx (ok b, u) h k =
      push_front-LogsAll log u.tables.log b (rest u) h (k u)
  batch_then-LogsAll log rest idx (err e, u) h k = tt

  apply_all-LogsAll :
      (now : ℤ) (idx : ℕ) (groups : List (List Op)) (t : Txn)
      → LogsAll t.tables.log (apply_all engine now idx groups t)
  unfolding apply_all
  apply_all-LogsAll now idx [] t = refl
  apply_all-LogsAll now idx (ops ∷ groups) t =
      batch_then-LogsAll t.tables.log (apply_all engine now (suc idx) groups) idx
        (apply_ops_in_txn engine ops now t) ((apply_ops_in_txn-Ends ops now).ends t)
        (apply_all-LogsAll now (suc idx) groups)

  begun-LogsAll :
      (s : Storage) (groups : List (List Op)) (now : ℤ) (begin : Answer)
      → LogsAll s.tables.log (begun engine s groups now begin)
  begun-LogsAll s groups now (some e) = tt
  begun-LogsAll s groups now none = apply_all-LogsAll now 0 groups (begin_write s)

  finish-Recorded :
      (s : Storage) (n : ℕ) (commit : Answer) (p : PreCommit × Txn)
      → LogsAll s.tables.log p
      → Recorded s.tables.log (finish s n commit p)
  unfolding finish
  finish-Recorded s n commit (err (idx, e), t) h = inr (aborted-IsErr n idx e, refl)
  finish-Recorded s n none (ok batches, t) h = inl (batches, refl, h)
  finish-Recorded s n (some e) (ok batches, t) h = inr (uncommitted-IsErr n e, refl)

-- After a group of batches the op log holds what it held before and then the ops of the batches, as
-- they were applied, one batch after the other, each at the sequence numbers that its result reports;
-- or every batch has failed and the log is as it was.
pub apply_batches-Recorded :
    (engine : Engine) (s : Storage) (groups : List (List Op)) (now : ℤ) (begin commit : Answer)
    → Recorded s.tables.log (apply_batches engine s groups now begin commit)
unfolding apply_batches
apply_batches-Recorded engine s [] now begin commit = inl ([], refl, refl)
apply_batches-Recorded engine s (ops ∷ groups) now begin commit =
    finish-Recorded engine s _ commit _ (begun-LogsAll engine s (ops ∷ groups) now begin)
