-- ===== src/Db/Applier.antt =====
-- crates/topodb/src/db.rs: `apply_one_job`, `apply_group`, and the draining of the queue.
use topo_db.Prelude.{ℕ, Bool, true, false, List, [], ◌∷◌, ◌++◌, map, if◌then◌else◌}
use topo_db.Prelude.Int.{ℤ}
use topo_db.Prelude.Table.{Table, empty}
use topo_db.Prelude.Outcome.{Result, ok, err, TopoError, ◌>>◌}
use topo_db.Ids.{Scope}
use topo_db.Op.{Op}
use topo_db.Op.Validate.{prevalidate_edge_scopes, prevalidate_create_node_ids}
use topo_db.Storage.Batch.{AppliedBatch}
use topo_db.Db.Feed.{Subscriber, broadcast_batch}
use topo_db.Db.{
  Backend, ids_needing_pre_state, group_pre_read_error, Overlay, effective_pre, record_effects,
}

-- The ops, and the channel of the reply.
pub record ApplyJob : Type 0 where
  pub ops : List Op
  pub reply : ℕ

abbrev pub Reply : Type 0
Reply = ℕ × Result AppliedBatch

-- The two checks that run before a batch.
unfoldable pub prevalidate : Table ℕ Scope → List Op → Result (Unit {0})
unfolding prevalidate_edge_scopes prevalidate_create_node_ids
prevalidate pre ops = prevalidate_edge_scopes pre ops >> prevalidate_create_node_ids pre ops

abbrev pub all_ok : List (Result AppliedBatch) → Bool
all_ok [] = true
all_ok (ok batch ∷ rs) = all_ok rs
all_ok (err e ∷ rs) = false

-- The jobs that go into the shared commit, and the replies to those that do not.
pub record Sorting : Type 0 where
  pub included : List ApplyJob
  pub refused : List Reply

abbrev pub sort_one : ApplyJob → Result (Unit {0}) → Sorting → Sorting
sort_one job (ok done) rest = record rest { included = job ∷ rest.included }
sort_one job (err e) rest = record rest { refused = (job.reply, err e) ∷ rest.refused }

-- A refused batch leaves the overlay alone.
abbrev pub next_overlay : Overlay → List Op → Result (Unit {0}) → Overlay
next_overlay overlay ops (ok done) = record_effects overlay ops
next_overlay overlay ops (err e) = overlay

unfoldable pub sort_jobs : Table ℕ Scope → Overlay → List ApplyJob → Sorting
unfolding prevalidate effective_pre record_effects
sort_jobs base overlay [] = record { included = []; refused = [] }
sort_jobs base overlay (job ∷ jobs) =
    let checked = prevalidate (effective_pre base overlay) job.ops in
    sort_one job checked (sort_jobs base (next_overlay overlay job.ops checked) jobs)

unfoldable pub all_ids : List ApplyJob → List ℕ
unfolding ids_needing_pre_state
all_ids [] = []
all_ids (job ∷ jobs) = ids_needing_pre_state job.ops ++ all_ids jobs

-- A read that failed is the reply to all.
unfoldable pub refuse_all : TopoError → List ApplyJob → List Reply
unfolding group_pre_read_error
refuse_all e [] = []
refuse_all e (job ∷ jobs) = (job.reply, err (group_pre_read_error e)) ∷ refuse_all e jobs

module _ (b : Backend) where
  open b use {State, load_nodes, apply_batches, apply_batch}

  pub record World : Type 0 where
    pub state : State
    pub subs : List Subscriber
    pub replies : List Reply

  abbrev pub reply : World → ℕ → Result AppliedBatch → World
  reply w channel r = record w { replies = w.replies ++ (channel, r) ∷ [] }

  -- A batch that is in: the broadcast, then the reply.
  abbrev pub committed : World → ℕ → AppliedBatch → World
  committed w channel batch =
      reply (record w { subs = broadcast_batch w.subs batch }) channel (ok batch)

  abbrev pub applied : World → ℕ → Result AppliedBatch × State → World
  applied w channel (ok batch, s) = committed (record w { state = s }) channel batch
  applied w channel (err e, s) = reply (record w { state = s }) channel (err e)

  abbrev pub apply_checked : World → ApplyJob → ℤ → Result (Unit {0}) → World
  apply_checked w job now (ok done) = applied w job.reply (apply_batch w.state job.ops now)
  apply_checked w job now (err e) = reply w job.reply (err e)

  abbrev pub apply_loaded : World → ApplyJob → ℤ → Result (Table ℕ Scope) → World
  apply_loaded w job now (ok pre) = apply_checked w job now (prevalidate pre job.ops)
  apply_loaded w job now (err e) = reply w job.reply (err e)

  unfoldable pub apply_one_job : World → ApplyJob → ℤ → World
  unfolding prevalidate ids_needing_pre_state
  apply_one_job w job now =
      apply_loaded w job now (load_nodes w.state (ids_needing_pre_state job.ops))

  unfoldable pub apply_each_job : World → List ApplyJob → ℤ → World
  unfolding apply_one_job
  apply_each_job w [] now = w
  apply_each_job w (job ∷ jobs) now = apply_each_job (apply_one_job w job now) jobs now

  -- `included.into_iter().zip(results)`, in the order of submission
  unfoldable pub commit_all : World → List ApplyJob → List (Result AppliedBatch) → World
  commit_all w (job ∷ jobs) (ok batch ∷ rs) = commit_all (committed w job.reply batch) jobs rs
  commit_all w _ _ = w

  abbrev pub settle_group : World → List ApplyJob → ℤ → List (Result AppliedBatch) × State → World
  settle_group w jobs now (rs, s) =
      let w' = record w { state = s } in
      if all_ok rs then commit_all w' jobs rs else apply_each_job w' jobs now

  -- None is left, one is left, or there is a group to commit at once.
  unfoldable pub apply_included : World → List ApplyJob → ℤ → World
  unfolding apply_each_job commit_all
  apply_included w [] now = w
  apply_included w (job ∷ []) now = apply_one_job w job now
  apply_included w (job ∷ (next ∷ jobs)) now =
      settle_group w (job ∷ (next ∷ jobs)) now
        (apply_batches w.state (map (λ (j : ApplyJob). j.ops) (job ∷ (next ∷ jobs))) now)

  abbrev pub apply_sorted : World → Sorting → ℤ → World
  apply_sorted w sorting now =
      apply_included (record w { replies = w.replies ++ sorting.refused }) sorting.included now

  abbrev pub group_loaded : World → List ApplyJob → ℤ → Result (Table ℕ Scope) → World
  group_loaded w jobs now (err e) = record w { replies = w.replies ++ refuse_all e jobs }
  group_loaded w jobs now (ok base) = apply_sorted w (sort_jobs base empty jobs) now

  unfoldable pub apply_group : World → List ApplyJob → ℤ → World
  unfolding apply_included sort_jobs refuse_all all_ids
  apply_group w jobs now = group_loaded w jobs now (load_nodes w.state (all_ids jobs))
