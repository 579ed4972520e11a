-- ===== src/Db/Steps.antt =====
-- crates/topodb/src/db.rs: what the applier may do with a job, as the runs of a list of jobs, and what
-- it relies on from the storage.
use mathlib.Core.List.{Sublistᴰ}
use topo_db.Prelude.{
  ℕ, ◌∙◌, ◌≡◌, refl, sym, subst, ◌⊎◌, inl, inr, true, false, List, [], ◌∷◌, ◌++◌, map,
}
use topo_db.Prelude.Int.{ℤ}
use topo_db.Prelude.Table.{Table, empty}
use topo_db.Prelude.Outcome.{Result, ok, err, TopoError}
use topo_db.Ids.{Scope}
use topo_db.Op.{Op}
use topo_db.Storage.Batch.{AppliedBatch}
use topo_db.Db.{
  Backend, OtherJob, Overlay, effective_pre, record_effects, ids_needing_pre_state,
  group_pre_read_error,
}
use topo_db.Db.Applier.{
  ApplyJob, World, reply, committed, applied, all_ok, all_ids, prevalidate, apply_checked,
  apply_loaded, apply_one_job, apply_each_job, commit_all,
}

-- What the batches of these jobs do to the scopes, one after the other.
abbrev pub overlay_of : Overlay → List ApplyJob → Overlay
overlay_of overlay [] = overlay
overlay_of overlay (job ∷ jobs) = overlay_of (record_effects overlay job.ops) jobs

module _ (b : Backend) where
  open b use {State, load_nodes, apply_batches, apply_batch, run_other}

  -- The answer of the checks to a job of a group: over the scopes that storage holds for the group,
  -- and over them the effects of jobs of the group that stand before it.
  abbrev pub Checked : List ApplyJob → State → ApplyJob → Result (Unit {0}) → Type 0
  Checked group s job r =
      (base : Table ℕ Scope) × (earlier : List ApplyJob) × (later : List ApplyJob) × (load_nodes s
          (all_ids group)
        ≡ ok base)
      × Sublistᴰ (earlier ++ job ∷ later) group
      × (prevalidate (effective_pre base (overlay_of empty earlier)) job.ops ≡ r)

  -- Why a job of a group is refused with an error: the checks refuse it within the group or on its own,
  -- the scopes cannot be read, or the storage refuses the batch.
  pub data Refused (now : ℤ) (group : List ApplyJob) (s : State) (job : ApplyJob)
      : TopoError → Type 0 where
    in_group : (e : TopoError) → Checked group s job (err e) → Refused now group s job e
    on_its_own :
        (e : TopoError) (pre : Table ℕ Scope)
        → load_nodes s (ids_needing_pre_state job.ops) ≡ ok pre
        → prevalidate pre job.ops ≡ err e
        → Refused now group s job e
    group_unread :
        (e : TopoError)
        → load_nodes s (all_ids group) ≡ err e
        → Refused now group s job (group_pre_read_error e)
    unread :
        (e : TopoError)
        → load_nodes s (ids_needing_pre_state job.ops) ≡ err e
        → Refused now group s job e
    by_storage :
        (e : TopoError) → apply_batch s job.ops now ≡ (err e, s) → Refused now group s job e

  -- The batches one after the other, with these results.
  abbrev pub Served : ℤ → State → List (List Op) → List (Result AppliedBatch) → State → Type 0
  Served now s [] [] s' = s ≡ s'
  Served now s (ops ∷ groups) (ok batch ∷ rs) s' =
      (t : State) × (apply_batch s ops now ≡ (ok batch, t)) × Served now t groups rs s'
  Served now s _ _ s' = ⊥

  -- A batch that fails changes nothing. A group of batches does what its batches do one after the
  -- other, or it changes nothing.
  pub record IsBackend (IsSound : State → Type 0) : Type 0 where
    pub batch_sound :
        (s : State) (ops : List Op) (now : ℤ) → IsSound s → IsSound (apply_batch s ops now).1
    pub batch_failed :
        (s : State) (ops : List Op) (now : ℤ) (e : TopoError) (s' : State)
        → IsSound s
        → apply_batch s ops now ≡ (err e, s')
        → s' ≡ s
    pub other_sound : (s : State) (job : OtherJob) → IsSound s → IsSound (run_other s job).1
    pub group_served :
        (s : State) (groups : List (List Op)) (now : ℤ)
        → IsSound s
        → all_ok (apply_batches s groups now).0 ≡ true
        → Served now s groups (apply_batches s groups now).0 (apply_batches s groups now).1
    pub group_failed :
        (s : State) (groups : List (List Op)) (now : ℤ)
        → IsSound s
        → all_ok (apply_batches s groups now).0 ≡ false
        → (apply_batches s groups now).1 ≡ s

  -- Each job in turn is refused for a reason, and only its reply is sent; or its batch is applied, and its ops go
  -- to the subscribers before its reply is sent.
  abbrev pub Ran : ℤ → List ApplyJob → World b → List ApplyJob → World b → Type 0
  Ran now group w [] w' = w ≡ w'
  Ran now group w (job ∷ jobs) w' =
      ((e : TopoError) × Refused now group w.state job e
        × Ran now group (reply b w job.reply (err e)) jobs w')
      ⊎ ((batch : AppliedBatch) × (s : State) × (apply_batch w.state job.ops now ≡ (ok batch, s))
          × Ran now group (committed b (record w { state = s }) job.reply batch) jobs w')

  pub Ran-append :
      (now : ℤ) (group js ks : List ApplyJob) (w v u : World b)
      → Ran now group w js v
      → Ran now group v ks u
      → Ran now group w (js ++ ks) u
  Ran-append now group [] ks w v u h k = subst (λ (x : World b). Ran now group x ks u) (sym h) k
  Ran-append now group (j ∷ js) ks w v u (inl (e, why, h)) k =
      inl (e, why, Ran-append now group js ks _ v u h k)
  Ran-append now group (j ∷ js) ks w v u (inr (batch, s, done, h)) k =
      inr (batch, s, done, Ran-append now group js ks _ v u h k)

  module _ {IsSound : State → Type 0} (laws : IsBackend IsSound) (now : ℤ)
      (group : List ApplyJob) where
    applied-Ran :
        (w : World b) (job : ApplyJob) (r : Result AppliedBatch) (s : State)
        → IsSound w.state
        → apply_batch w.state job.ops now ≡ (r, s)
        → Ran now group w (job ∷ []) (applied b w job.reply (r, s))
    applied-Ran w job (ok batch) s sound h = inr (batch, s, h, refl)
    applied-Ran w job (err e) s sound h =
        let same = laws.batch_failed w.state job.ops now e s sound h in
        inl (
          e,
          by_storage e (h ∙ λ i. (err e, same i)),
          λ i. reply b (record w { state = sym same i }) job.reply (err e),
        )

    checked-Ran :
        (w : World b) (job : ApplyJob) (pre : Table ℕ Scope) (r : Result (Unit {0}))
        → IsSound w.state
        → load_nodes w.state (ids_needing_pre_state job.ops) ≡ ok pre
        → prevalidate pre job.ops ≡ r
        → Ran now group w (job ∷ []) (apply_checked b w job now r)
    checked-Ran w job pre (ok done) sound l c = applied-Ran w job _ _ sound refl
    checked-Ran w job pre (err e) sound l c = inl (e, on_its_own e pre l c, refl)

    loaded-Ran :
        (w : World b) (job : ApplyJob) (r : Result (Table ℕ Scope))
        → IsSound w.state
        → load_nodes w.state (ids_needing_pre_state job.ops) ≡ r
        → Ran now group w (job ∷ []) (apply_loaded b w job now r)
    loaded-Ran w job (ok pre) sound l = checked-Ran w job pre (prevalidate pre job.ops) sound l refl
    loaded-Ran w job (err e) sound l = inl (e, unread e l, refl)

    pub apply_one_job-Ran :
        (w : World b) (job : ApplyJob)
        → IsSound w.state
        → Ran now group w (job ∷ []) (apply_one_job b w job now)
    unfolding apply_one_job
    apply_one_job-Ran w job sound = loaded-Ran w job _ sound refl

    -- A run keeps the storage sound.
    pub Ran-sound :
        (jobs : List ApplyJob) (w v : World b)
        → IsSound w.state
        → Ran now group w jobs v
        → IsSound v.state
    Ran-sound [] w v sound h = subst (λ (x : World b). IsSound x.state) h sound
    Ran-sound (j ∷ jobs) w v sound (inl (e, why, h)) = Ran-sound jobs _ v sound h
    Ran-sound (j ∷ jobs) w v sound (inr (batch, s, done, h)) =
        let kept : IsSound s =
          subst (λ (p : Result AppliedBatch × State). IsSound p.1) done
            (laws.batch_sound w.state j.ops now sound) in
        Ran-sound jobs _ v kept h

    pub apply_each_job-Ran :
        (jobs : List ApplyJob) (w : World b)
        → IsSound w.state
        → Ran now group w jobs (apply_each_job b w jobs now)
    unfolding apply_each_job
    apply_each_job-Ran [] w sound = refl
    apply_each_job-Ran (j ∷ jobs) w sound =
        let first = apply_one_job-Ran w j sound in
        Ran-append now group (j ∷ []) jobs w _ _ first
          (apply_each_job-Ran jobs (apply_one_job b w j now) (Ran-sound (j ∷ []) w _ sound first))

    pub commit_all-Ran :
        (jobs : List ApplyJob) (w : World b) (rs : List (Result AppliedBatch)) (s : State)
        → Served now w.state (map (λ (j : ApplyJob). j.ops) jobs) rs s
        → Ran now group w jobs (commit_all b (record w { state = s }) jobs rs)
    unfolding commit_all
    commit_all-Ran [] w [] s h = λ i. record w { state = h i }
    commit_all-Ran (j ∷ jobs) w (ok batch ∷ rs) s (t, done, h) = inr (
      batch,
      t,
      done,
      commit_all-Ran jobs (committed b (record w { state = t }) j.reply batch) rs s h,
    )
    commit_all-Ran [] w (r ∷ rs) s h = elim h [ ]
    commit_all-Ran (j ∷ jobs) w [] s h = elim h [ ]
    commit_all-Ran (j ∷ jobs) w (err e ∷ rs) s h = elim h [ ]
