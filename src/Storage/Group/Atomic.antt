-- ===== src/Storage/Group/Atomic.antt =====
-- crates/topodb/src/storage.rs: all or nothing in `apply_batches`.
use topo_db.Prelude.{
  ℕ, suc, ◌+◌, ◌-◌, ◌≤◌, ◌<◌, ◌≡◌, refl, ◌⊎◌, inl, inr, arith, none, some, List, [], ◌∷◌, map,
  length, replicate, All, length-append, length-replicate, All-append, All-replicate,
}
use topo_db.Prelude.Int.{ℤ}
use topo_db.Prelude.Outcome.{Result, ok, err, TopoError}
use topo_db.Op.{Op}
use topo_db.Ids.{scope_key}
use topo_db.Registry.Laws.{IsConsistent}
use topo_db.Registry.Dicts.{Dicts, DictKind, mirror_of}
use topo_db.Registry.Dicts
use topo_db.Registry.Dicts.Undo.{AllConsistent}
use topo_db.Registry.Scopes
use topo_db.Storage.Act.{Storage, Txn, begin_write, view}
use topo_db.Storage.Keeps.{IsUndoable}
use topo_db.Storage.Steps.Batches.{apply_ops_in_txn-Keeps}
use topo_db.Storage.Batch.{Engine, AppliedBatch, apply_ops_in_txn}
use topo_db.Storage.Group.{
  Answer, PreCommit, push_front, revert, aborted, uncommitted, finish, batch_then, apply_all, begun,
  apply_batches, aborted_by_later, aborted_by_earlier, commit_failed,
}

-- The mirrors are what the tables would be loaded as.
pub record IsWell (s : Storage) : Type 0 where
  pub dicts : AllConsistent s.dicts
  pub dict_rows : (kind : DictKind) → s.dict_rows kind ≡ (mirror_of s.dicts kind).by_id
  pub scopes : IsConsistent s.scope_registry
  pub in_step : s.scope_rows ≡ s.scope_registry.by_id

abbrev pub IsErr : Result AppliedBatch → Type 0
IsErr (ok batch) = ⊥
IsErr (err e) = Unit {0}

-- Since the transaction began the mirrors of `s` can be had back.
abbrev pub Since : Storage → Txn → Type 0
Since s t = IsUndoable s.dicts s.scope_registry t

begin_write-Since : (s : Storage) → IsWell s → Since s (begin_write s)
begin_write-Since s w = record {
  dict = record { consistent = w.dicts; undone = unfold Dicts.revert in refl };
  rows = w.dict_rows;
  scope = record {
    consistent = w.scopes;
    undone = unfold Scopes.revert in refl;
    in_step = w.in_step;
  };
}

view-IsWell : (s : Storage) (t : Txn) → Since s t → IsWell (view t)
view-IsWell s t h = record {
  dicts = h.dict.consistent;
  dict_rows = h.rows;
  scopes = h.scope.consistent;
  in_step = h.scope.in_step;
}

pub revert-Since : (s : Storage) (t : Txn) → Since s t → revert s t ≡ s
unfolding revert
revert-Since s t h = λ i. record s { dicts = h.dict.undone i; scope_registry = h.scope.undone i }

push_front-Since :
    (s : Storage) (b : AppliedBatch) (r : PreCommit × Txn)
    → Since s r.1
    → Since s (push_front b r).1
push_front-Since s b (ok bs, t) h = h
push_front-Since s b (err e, t) h = h

-- The number of batches done, or the place of the failure.
abbrev Places : ℕ → ℕ → PreCommit → Type 0
Places from n (ok batches) = from + length batches ≡ n
Places from n (err (idx, e)) = (from ≤ idx) × (idx < n)

module _ (engine : Engine) (s : Storage) where
  batch_then-Since :
      (rest : Txn → PreCommit × Txn) (idx : ℕ) (r : Result AppliedBatch × Txn)
      → ((t : Txn) → Since s t → Since s (rest t).1)
      → Since s r.1
      → Since s (batch_then engine rest idx r).1
  batch_then-Since rest idx (ok b, t) keep h = push_front-Since s b (rest t) (keep t h)
  batch_then-Since rest idx (err e, t) keep h = h

  apply_all-Since :
      (now : ℤ) (idx : ℕ) (groups : List (List Op)) (t : Txn)
      → Since s t
      → Since s (apply_all engine now idx groups t).1
  unfolding apply_all
  apply_all-Since now idx [] t h = h
  apply_all-Since now idx (ops ∷ groups) t h =
      batch_then-Since (apply_all engine now (suc idx) groups) idx
        (apply_ops_in_txn engine ops now t) (apply_all-Since now (suc idx) groups)
        ((apply_ops_in_txn-Keeps engine ops now).undoable s.dicts s.scope_registry t h)

  pub begun-Since :
      (groups : List (List Op)) (now : ℤ) (begin : Answer)
      → IsWell s
      → Since s (begun engine s groups now begin).1
  begun-Since groups now none w =
      apply_all-Since now 0 groups (begin_write s) (begin_write-Since s w)
  begun-Since groups now (some e) w = begin_write-Since s w

  push_front-Places :
      (b : AppliedBatch) (idx n : ℕ) (r : PreCommit × Txn)
      → Places (suc idx) n r.0
      → Places idx n (push_front b r).0
  push_front-Places b idx n (ok bs, t) h = omega arith
  push_front-Places b idx n (err (j, e), t) h = omega arith

  batch_then-Places :
      (rest : Txn → PreCommit × Txn) (idx n : ℕ) (r : Result AppliedBatch × Txn)
      → ((t : Txn) → Places (suc idx) n (rest t).0)
      → idx < n
      → Places idx n (batch_then engine rest idx r).0
  batch_then-Places rest idx n (ok b, t) more h = push_front-Places b idx n (rest t) (more t)
  batch_then-Places rest idx n (err e, t) more h = omega arith

  apply_all-Places :
      (now : ℤ) (idx n : ℕ) (groups : List (List Op)) (t : Txn)
      → idx + length groups ≡ n
      → Places idx n (apply_all engine now idx groups t).0
  unfolding apply_all
  apply_all-Places now idx n [] t h = h
  apply_all-Places now idx n (ops ∷ groups) t h =
      batch_then-Places (apply_all engine now (suc idx) groups) idx n
        (apply_ops_in_txn engine ops now t)
        (λ t'. apply_all-Places now (suc idx) n groups t' (omega arith)) (omega arith)

  begun-Places :
      (ops : List Op) (groups : List (List Op)) (now : ℤ) (begin : Answer)
      → Places 0 (length (ops ∷ groups)) (begun engine s (ops ∷ groups) now begin).0
  begun-Places ops groups now none =
      apply_all-Places now 0 (length (ops ∷ groups)) (ops ∷ groups) (begin_write s) (omega arith)
  begun-Places ops groups now (some e) = omega arith

-- All succeed, or all fail and nothing has changed.
abbrev pub AllOrNothing : Storage → ℕ → List (Result AppliedBatch) × Storage → Type 0
AllOrNothing s n (results, s') =
    (length results ≡ n)
    × (((batches : List AppliedBatch) × (results ≡ map ok batches))
        ⊎ (All IsErr results × (s' ≡ s)))
    × IsWell s'

-- A result of a batch that failed.
abbrev failed : TopoError → Result AppliedBatch
failed e = err e

length-map_ok :
    (batches : List AppliedBatch)
    → length (map (λ (b : AppliedBatch). let r : Result AppliedBatch = ok b in r) batches)
      ≡ length batches
length-map_ok [] = refl
length-map_ok (b ∷ bs) = omega (arith, length-map_ok bs)

length-aborted : (n idx : ℕ) (e : TopoError) → idx < n → length (aborted n idx e) ≡ n
length-aborted n idx e h =
    let later = replicate (n - (idx + 1)) (failed aborted_by_earlier) in
    omega (
      arith,
      length-append (replicate idx (failed aborted_by_later)) (failed e ∷ later),
      length-replicate idx (failed aborted_by_later),
      length-replicate (n - (idx + 1)) (failed aborted_by_earlier),
    )

pub aborted-IsErr : (n idx : ℕ) (e : TopoError) → All IsErr (aborted n idx e)
aborted-IsErr n idx e =
    All-append IsErr (replicate idx (failed aborted_by_later)) _
      (All-replicate IsErr idx (failed aborted_by_later) tt)
      (tt, All-replicate IsErr (n - (idx + 1)) (failed aborted_by_earlier) tt)

length-uncommitted : (n : ℕ) (e : TopoError) → 0 < n → length (uncommitted n e) ≡ n
length-uncommitted n e h = omega (
  arith,
  length-append (replicate (n - 1) (failed commit_failed)) (failed e ∷ []),
  length-replicate (n - 1) (failed commit_failed),
)

pub uncommitted-IsErr : (n : ℕ) (e : TopoError) → All IsErr (uncommitted n e)
uncommitted-IsErr n e =
    All-append IsErr (replicate (n - 1) (failed commit_failed)) _
      (All-replicate IsErr (n - 1) (failed commit_failed) tt) (tt, tt)

finish-AllOrNothing :
    (s : Storage) (n : ℕ) (commit : Answer) (r : PreCommit × Txn)
    → 0 < n
    → IsWell s
    → Since s r.1
    → Places 0 n r.0
    → AllOrNothing s n (finish s n commit r)
unfolding finish
finish-AllOrNothing s n commit (err (idx, e), t) h w since place =
    let same = revert-Since s t since in
    (length-aborted n idx e place.1, inr (aborted-IsErr n idx e, same), rw same w)
finish-AllOrNothing s n none (ok batches, t) h w since place =
    (omega (arith, length-map_ok batches), inl (batches, refl), view-IsWell s t since)
finish-AllOrNothing s n (some e) (ok batches, t) h w since place =
    let same = revert-Since s t since in
    (length-uncommitted n e h, inr (uncommitted-IsErr n e, same), rw same w)

-- Whatever a group of batches holds, and whether or not redb opens the transaction and commits it,
-- over a storage whose mirrors agree with its tables: there is one result for each batch, and either
-- every batch has succeeded, or every one has failed and the storage, the tables and both mirrors with
-- their counters, is exactly as it was. Afterwards the mirrors agree with the tables: each id of a
-- dictionary or of the scopes has the row that its mirror has. The other calls of redb succeed.
pub apply_batches-AllOrNothing :
    (engine : Engine) (s : Storage) (groups : List (List Op)) (now : ℤ) (begin commit : Answer)
    → IsWell s
    → AllOrNothing s (length groups) (apply_batches engine s groups now begin commit)
unfolding apply_batches
apply_batches-AllOrNothing engine s [] now begin commit w = (refl, inl ([], refl), w)
apply_batches-AllOrNothing engine s (ops ∷ groups) now begin commit w =
    finish-AllOrNothing s (length (ops ∷ groups)) commit (begun engine s (ops ∷ groups) now begin)
      (omega arith) w (begun-Since engine s (ops ∷ groups) now begin w)
      (begun-Places engine s ops groups now begin)
