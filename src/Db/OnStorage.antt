-- ===== src/Db/OnStorage.antt =====
-- crates/topodb/src/db.rs over crates/topodb/src/storage.rs: the storage as what the applier asks for.
-- What redb answers when a transaction is opened and when it is committed are arguments, and so are
-- the rebuild from the op log and the outcome of the jobs that write to no table of the storage here.
use topo_db.Prelude.{
  ℕ, zero, suc, ◌≡◌, refl, sym, ap, ◌∙◌, inl, inr, true, false, Option, none, some, List, [], ◌∷◌,
  ◌++◌, ◌-◌, replicate, map, length, arith,
}
use topo_db.Prelude.Int.{ℤ}
use topo_db.Prelude.Table.{Table, insert, empty, nat_key}
use topo_db.Prelude.Outcome.{Result, ok, err, TopoError, ◌>>=◌}
use topo_db.Ids.{Scope}
use topo_db.Op.{Op}
use topo_db.Read.Traverse.{NodeRecord}
use topo_db.Storage.Act.{Storage, Txn, begin_write}
use topo_db.Storage.Rows.{read_node}
use topo_db.Storage.Batch.{Engine, AppliedBatch}
use topo_db.Storage.Group
use topo_db.Storage.Group.{Answer, PreCommit, aborted, commit_failed, only, finish, begun}
use topo_db.Storage.Group.Atomic.{IsWell, AllOrNothing, apply_batches-AllOrNothing}
use topo_db.Storage.Group.Sequential.{
  push_batch, then_next, one_by_one, as_group, apply_batches_one_by_one,
}
use topo_db.Db.{Backend, OtherJob, rebuild, compact}
use topo_db.Log.{Log, compact_ops_through}
use topo_db.Db.Applier.{all_ok}
use topo_db.Db.Steps.{IsBackend, Served}

abbrev loaded : Table ℕ Scope → ℕ → Option NodeRecord → Table ℕ Scope
loaded found id none = found
loaded found id (some rec) = insert found id rec.scope

-- `load_nodes`, as far as the scopes of the records go.
unfoldable pub load_nodes : Engine → Storage → List ℕ → Table ℕ Scope → Result (Table ℕ Scope)
unfolding read_node
load_nodes engine s [] found = ok found
load_nodes engine s (id ∷ ids) found = do
  rec ← read_node engine.codecs id s
  load_nodes engine s ids (loaded found id rec)

-- The log after a compaction, or the error.
abbrev compacted_to : Storage → Result (Log Op) → Result (Unit {0}) × Storage
compacted_to s (ok log) = (ok tt, record s { tables = record s.tables { log = log } })
compacted_to s (err e) = (err e, s)

-- The jobs other than a batch. `merge_counter_bumps` and `write_meta` write to the tables COUNTERS and
-- META alone, which the storage here does not have.
unfoldable pub run_job :
    (Storage → Result (Unit {0}) × Storage)
    → (OtherJob → Result (Unit {0}))
    → Storage
    → OtherJob
    → Result (Unit {0}) × Storage
unfolding compact_ops_through
run_job replay outcome s rebuild = replay s
run_job replay outcome s (compact keep_from) =
    compacted_to s (compact_ops_through s.tables.log keep_from)
run_job replay outcome s job = (outcome job, s)

abbrev pub on_storage :
    Engine
    → Answer
    → Answer
    → (Storage → Result (Unit {0}) × Storage)
    → (OtherJob → Result (Unit {0}))
    → Backend
on_storage engine begin commit replay outcome = record {
  State = Storage;
  load_nodes = λ s ids. load_nodes engine s ids empty;
  apply_batches = λ s groups now. Group.apply_batches engine s groups now begin commit;
  apply_batch = λ s ops now. Group.apply_batch engine s ops now begin commit;
  run_other = run_job replay outcome;
}

compacted_to-IsWell : (s : Storage) (r : Result (Log Op)) → IsWell s → IsWell (compacted_to s r).1
compacted_to-IsWell s (ok log) w = record {
  dicts = w.dicts;
  dict_rows = w.dict_rows;
  scopes = w.scopes;
  in_step = w.in_step;
}
compacted_to-IsWell s (err e) w = w

run_job-IsWell :
    (replay : Storage → Result (Unit {0}) × Storage) (outcome : OtherJob → Result (Unit {0}))
    → ((s : Storage) → IsWell s → IsWell (replay s).1)
    → (s : Storage) (job : OtherJob) → IsWell s
    → IsWell (run_job replay outcome s job).1
unfolding run_job
run_job-IsWell replay outcome keep s rebuild w = keep s w
run_job-IsWell replay outcome keep s (compact k) w = compacted_to-IsWell s _ w
run_job-IsWell replay outcome keep s job w = w

all_ok-map :
    (batches : List AppliedBatch)
    → all_ok (map (λ (b : AppliedBatch). let r : Result AppliedBatch = ok b in r) batches) ≡ true
all_ok-map [] = refl
all_ok-map (b ∷ bs) = all_ok-map bs

all_ok-aborted : (n idx : ℕ) (e : TopoError) → all_ok (aborted n idx e) ≡ false
all_ok-aborted n zero e = refl
all_ok-aborted n (suc idx) e = refl

all_ok-failed :
    (k : ℕ) (e : TopoError) → all_ok (replicate k (err commit_failed) ++ err e ∷ []) ≡ false
all_ok-failed zero e = refl
all_ok-failed (suc k) e = refl

-- A commit that fails is no success.
all_ok-finish :
    (s : Storage) (n : ℕ) (x : TopoError) (r : PreCommit × Txn)
    → all_ok (finish s n (some x) r).0 ≡ false
unfolding finish
all_ok-finish s n x (ok batches, t) = all_ok-failed (n - 1) x
all_ok-finish s n x (err (idx, e), t) = all_ok-aborted n idx e

all_ok-unbegun :
    (s : Storage) (n : ℕ) (commit : Answer) (e : TopoError) (t : Txn)
    → all_ok (finish s n commit (err (0, e), t)).0 ≡ false
unfolding finish
all_ok-unbegun s n commit e t = all_ok-aborted n 0 e

-- One batch in a transaction of its own.
module _ (engine : Engine) (now : ℤ) (begin commit : Answer) where
  abbrev alone : Storage → List Op → Result AppliedBatch × Storage
  alone s ops = Group.apply_batch engine s ops now begin commit

  only-Alone :
      (s : Storage) (r : List (Result AppliedBatch) × Storage)
      → AllOrNothing s 1 r
      → IsWell (only r).1 × ((e : TopoError) (s' : Storage) → only r ≡ (err e, s') → s' ≡ s)
  only-Alone s (ok batch ∷ [], s') (one, inl (batches, same), well) = (well, λ e t h. absurd (cc))
  only-Alone s (ok batch ∷ [], s') (one, inr (bad, same), well) = elim bad.0 [ ]
  only-Alone s (err x ∷ [], s') (one, inr (bad, same), well) =
      (well, λ e t h. sym (ap (λ (p : Result AppliedBatch × Storage). p.1) h) ∙ same)
  only-Alone s (err x ∷ [], s') (one, inl ([], same), well) = absurd (cc)
  only-Alone s (err x ∷ [], s') (one, inl (b ∷ bs, same), well) = absurd (cc)
  only-Alone s ([], s') (one, rest, well) = absurd (omega arith)
  only-Alone s (x ∷ y ∷ rs, s') (one, rest, well) = absurd (omega arith)

  alone-Alone :
      (s : Storage) (ops : List Op)
      → IsWell s
      → IsWell (alone s ops).1
        × ((e : TopoError) (s' : Storage) → alone s ops ≡ (err e, s') → s' ≡ s)
  unfolding Group.apply_batch
  alone-Alone s ops well =
      only-Alone s _ (apply_batches-AllOrNothing engine s (ops ∷ []) now begin commit well)

  failed-AllOrNothing :
      (s : Storage) (n : ℕ) (r : List (Result AppliedBatch) × Storage)
      → AllOrNothing s n r
      → all_ok r.0 ≡ false
      → r.1 ≡ s
  failed-AllOrNothing s n (rs, s') (len, inr (bad, same), well) h = same
  failed-AllOrNothing s n (rs, s') (len, inl (bs, same), well) h =
      absurd (cc (ap all_ok same, all_ok-map bs))

module _ (engine : Engine) (now : ℤ) (replay : Storage → Result (Unit {0}) × Storage)
    (outcome : OtherJob → Result (Unit {0})) where
  abbrev sound_disk : Backend
  sound_disk = on_storage engine none none replay outcome

  abbrev by_itself : Storage → List Op → Result AppliedBatch × Storage
  by_itself s ops = Group.apply_batch engine s ops now none none

  abbrev Serves : List (List Op) → Storage → PreCommit × Storage → Type 0
  Serves groups s (ok batches, s') = Served sound_disk now s groups (map ok batches) s'
  Serves groups s (err e, s') = Unit {0}

  push-Serves :
      (ops : List Op) (groups : List (List Op)) (s t : Storage) (b : AppliedBatch)
      (q : PreCommit × Storage)
      → by_itself s ops ≡ (ok b, t)
      → Serves groups t q
      → Serves (ops ∷ groups) s (push_batch b q)
  push-Serves ops groups s t b (ok bs, u) done h = (t, done, h)
  push-Serves ops groups s t b (err e, u) done h = tt

  stepped-Serves :
      (ops : List Op) (groups : List (List Op)) (idx : ℕ) (s : Storage)
      (rest : Storage → PreCommit × Storage) (r : Result AppliedBatch × Storage)
      → ((t : Storage) → Serves groups t (rest t))
      → by_itself s ops ≡ r
      → Serves (ops ∷ groups) s (then_next rest idx s r)
  stepped-Serves ops groups idx s rest (ok b, t) more done =
      push-Serves ops groups s t b (rest t) done (more t)
  stepped-Serves ops groups idx s rest (err e, t) more done = tt

  -- A run one by one, as the applier sees it.
  one_by_one-Serves :
      (groups : List (List Op)) (idx : ℕ) (s : Storage)
      → Serves groups s (one_by_one engine now idx groups s)
  one_by_one-Serves [] idx s = refl
  one_by_one-Serves (ops ∷ groups) idx s =
      stepped-Serves ops groups idx s (one_by_one engine now (suc idx) groups) (by_itself s ops)
        (one_by_one-Serves groups (suc idx)) refl

  as_group-Served :
      (n : ℕ) (groups : List (List Op)) (s : Storage) (q : PreCommit × Storage)
      → Serves groups s q
      → all_ok (as_group s n q).0 ≡ true
      → Served sound_disk now s groups (as_group s n q).0 (as_group s n q).1
  as_group-Served n groups s (ok bs, s') h good = h
  as_group-Served n groups s (err (idx, e), s') h good = absurd (cc (all_ok-aborted n idx e))

  group-Served :
      (s : Storage) (groups : List (List Op))
      → IsWell s
      → (let r = Group.apply_batches engine s groups now none none in
          all_ok r.0 ≡ true → Served sound_disk now s groups r.0 r.1)
  group-Served s groups well =
      rw (apply_batches_one_by_one engine now s groups well)
        (as_group-Served (length groups) groups s _ (one_by_one-Serves groups 0 s))

  group-Served-any :
      (begin commit : Answer) (s : Storage) (groups : List (List Op))
      → IsWell s
      → (let r = Group.apply_batches engine s groups now begin commit in
          all_ok r.0 ≡ true
          → Served (on_storage engine begin commit replay outcome) now s groups r.0 r.1)
  unfolding Group.apply_batches
  group-Served-any none none s groups w = group-Served s groups w
  group-Served-any (some e) commit s [] w = λ good. refl
  group-Served-any none (some x) s [] w = λ good. refl
  group-Served-any (some e) commit s (ops ∷ groups) w =
      λ good. absurd (cc (all_ok-unbegun s (length (ops ∷ groups)) commit e (begin_write s)))
  group-Served-any none (some x) s (ops ∷ groups) w = λ good.
      absurd
        (cc (all_ok-finish s (length (ops ∷ groups)) x (begun engine s (ops ∷ groups) now none)))

pub on_storage-IsBackend :
    (engine : Engine) (begin commit : Answer) (replay : Storage → Result (Unit {0}) × Storage)
    (outcome : OtherJob → Result (Unit {0}))
    → ((s : Storage) → IsWell s → IsWell (replay s).1)
    → IsBackend (on_storage engine begin commit replay outcome) IsWell
on_storage-IsBackend engine begin commit replay outcome keep = record {
  batch_sound = λ s ops now well. (alone-Alone engine now begin commit s ops well).0;
  batch_failed = λ s ops now e s' well h. (alone-Alone engine now begin commit s ops well).1 e s' h;
  other_sound = run_job-IsWell replay outcome keep;
  group_served =
      λ s groups now well. group-Served-any engine now replay outcome begin commit s groups well;
  group_failed = λ s groups now well.
      failed-AllOrNothing engine now begin commit s (length groups) _
        (apply_batches-AllOrNothing engine s groups now begin commit well);
}
