-- ===== src/Storage/Group/Sequential.antt =====
-- crates/topodb/src/storage.rs: a group of batches and the same batches one by one.
use topo_db.Prelude.{ℕ, suc, ◌≡◌, refl, sym, ap, subst, none, List, [], ◌∷◌, map, length}
use topo_db.Prelude.Int.{ℤ}
use topo_db.Prelude.Outcome.{Result, ok, err, TopoError}
use topo_db.Op.{Op}
use topo_db.Storage.Act.{Storage, Txn, begin_write, view}
use topo_db.Storage.Steps.Batches.{apply_ops_in_txn-Keeps}
use topo_db.Storage.Batch.{Engine, AppliedBatch, apply_ops_in_txn}
use topo_db.Storage.Group.{
  PreCommit, push_front, revert, aborted, finish, batch_then, apply_all, apply_batches, apply_batch,
  only,
}
use topo_db.Storage.Group.Atomic.{IsWell, revert-Since, begun-Since}

-- The batches one after the other, each in a transaction of its own, up to the first that fails.
abbrev pub push_batch : AppliedBatch → PreCommit × Storage → PreCommit × Storage
push_batch b (ok batches, s) = (ok (b ∷ batches), s)
push_batch b (err e, s) = (err e, s)

abbrev pub then_next :
    (Storage → PreCommit × Storage)
    → ℕ
    → Storage
    → Result AppliedBatch × Storage
    → PreCommit × Storage
then_next rest idx s (ok b, s') = push_batch b (rest s')
then_next rest idx s (err e, s') = (err (idx, e), s')

abbrev pub one_by_one : Engine → ℤ → ℕ → List (List Op) → Storage → PreCommit × Storage
one_by_one engine now idx [] s = (ok [], s)
one_by_one engine now idx (ops ∷ groups) s =
    then_next (one_by_one engine now (suc idx) groups) idx s
      (apply_batch engine s ops now none none)

-- What the callers of a group are told of such a run, and the storage that it leaves.
abbrev pub as_group : Storage → ℕ → PreCommit × Storage → List (Result AppliedBatch) × Storage
as_group s n (ok batches, s') = (map ok batches, s')
as_group s n (err (idx, e), s') = (aborted n idx e, s)

abbrev settle : Storage → Result AppliedBatch × Txn → Result AppliedBatch × Storage
settle s (ok b, t) = (ok b, view t)
settle s (err e, t) = (err e, revert s t)

-- The open transaction is where the run one by one has come to, or both fail alike.
abbrev Meets : PreCommit × Txn → PreCommit × Storage → Type 0
Meets (ok batches, t) run = run ≡ (ok batches, view t)
Meets (err x, t) run = run.0 ≡ err x

push-Meets :
    (b : AppliedBatch) (p : PreCommit × Txn) (q : PreCommit × Storage)
    → Meets p q
    → Meets (push_front b p) (push_batch b q)
push-Meets b (ok bs, t) q h = ap (push_batch b) h
push-Meets b (err x, t) (ok bs, s) h = absurd (cc)
push-Meets b (err x, t) (err y, s) h = h

module _ (engine : Engine) (now : ℤ) where
  settle-only :
      (s : Storage) (r : Result AppliedBatch × Txn)
      → only (finish s 1 none (batch_then engine (apply_all engine now 1 []) 0 r)) ≡ settle s r
  unfolding finish apply_all
  settle-only s (ok b, t) = refl
  settle-only s (err e, t) = refl

  apply_batch-settle :
      (s : Storage) (ops : List Op)
      → apply_batch engine s ops now none none
        ≡ settle s (apply_ops_in_txn engine ops now (begin_write s))
  unfolding apply_batch apply_batches apply_all
  apply_batch-settle s ops = settle-only s (apply_ops_in_txn engine ops now (begin_write s))

  step-Meets :
      (rest : Txn → PreCommit × Txn) (rest' : Storage → PreCommit × Storage) (idx : ℕ) (s : Storage)
      (r r' : Result AppliedBatch) (t u : Txn)
      → ((t : Txn) (s : Storage) → view t ≡ s → Meets (rest t) (rest' s))
      → r ≡ r'
      → view t ≡ view u
      → Meets (batch_then engine rest idx (r, t)) (then_next rest' idx s (settle s (r', u)))
  step-Meets rest rest' idx s (ok b) (ok b') t u more same views =
      let e : b ≡ b' = cc in
      subst (λ (x : AppliedBatch). Meets (push_front b (rest t)) (push_batch x (rest' (view u)))) e
        (push-Meets b (rest t) (rest' (view u)) (more t (view u) views))
  step-Meets rest rest' idx s (ok b) (err e) t u more same views = absurd (cc)
  step-Meets rest rest' idx s (err e) (ok b) t u more same views = absurd (cc)
  step-Meets rest rest' idx s (err e) (err e') t u more same views = cc

  apply_all-Meets :
      (groups : List (List Op)) (idx : ℕ) (t : Txn) (s : Storage)
      → view t ≡ s
      → Meets (apply_all engine now idx groups t) (one_by_one engine now idx groups s)
  unfolding apply_all
  apply_all-Meets [] idx t s e =
      ap (λ (v : Storage). let p : PreCommit × Storage = (ok [], v) in p) (sym e)
  apply_all-Meets (ops ∷ groups) idx t s e =
      let (same, views) = (apply_ops_in_txn-Keeps engine ops now).blind t (begin_write s) e in
      rw (apply_batch-settle s ops) (
        step-Meets (apply_all engine now (suc idx) groups) (one_by_one engine now (suc idx) groups)
          idx s (apply_ops_in_txn engine ops now t).0
          (apply_ops_in_txn engine ops now (begin_write s)).0 (apply_ops_in_txn engine ops now t).1
          (apply_ops_in_txn engine ops now (begin_write s)).1 (apply_all-Meets groups (suc idx))
          same views)

  group-Meets :
      (s : Storage) (n : ℕ) (p : PreCommit × Txn) (q : PreCommit × Storage)
      → (revert s p.1 ≡ s)
      → Meets p q
      → finish s n none p ≡ as_group s n q
  unfolding finish
  group-Meets s n (ok bs, t) q back h = sym (ap (as_group s n) h)
  group-Meets s n (err (idx, e), t) (ok bs, s') back h = absurd (cc)
  group-Meets s n (err (idx, e), t) (err (j, e'), s') back h =
      let same : (let x : ℕ × TopoError = (idx, e) in x) ≡ (j, e') =
        ap (λ (r : PreCommit). elim r [ err x ↦ x | ok bs ↦ (idx, e) ]) (sym h) in
      λ i. (aborted n (same i).0 (same i).1, back i)

  -- A group of batches does what the batches do one after the other, each in a transaction of its
  -- own: if all of those succeed, the results and the storage are the same; if one of them fails, the
  -- group reports its error at its place, reports the other batches as aborted, and leaves the
  -- storage as it was. Here redb opens and commits every transaction, and the mirrors of the
  -- storage agree with its tables.
  pub apply_batches_one_by_one :
      (s : Storage) (groups : List (List Op))
      → IsWell s
      → apply_batches engine s groups now none none
        ≡ as_group s (length groups) (one_by_one engine now 0 groups s)
  unfolding apply_batches
  apply_batches_one_by_one s [] w = refl
  apply_batches_one_by_one s (ops ∷ groups) w =
      group-Meets s (length (ops ∷ groups)) (apply_all engine now 0 (ops ∷ groups) (begin_write s))
        (one_by_one engine now 0 (ops ∷ groups) s)
        (revert-Since s _ (begun-Since engine s (ops ∷ groups) now none w))
        (apply_all-Meets (ops ∷ groups) 0 (begin_write s) s refl)
