-- ===== src/Db/Group.antt =====
-- crates/topodb/src/db.rs: the group of jobs that share a commit.
use mathlib.Core.List.{Perm, perm_middle, append-nil, append_assoc}
use mathlib.Core.List.Perm
use mathlib.Core.List.{Sublistᴰ}
use mathlib.Core.List.Sublistᴰ
use topo_db.Prelude.{
  ℕ, ◌≡◌, refl, ap, sym, ◌∙◌, subst, inl, inr, Bool-cases, List, [], ◌∷◌, ◌++◌, map, All,
}
use topo_db.Prelude.Int.{ℤ}
use topo_db.Prelude.Table.{Table, empty}
use topo_db.Prelude.Outcome.{Result, ok, err, TopoError}
use topo_db.Ids.{Scope}
use topo_db.Db.{Backend, Overlay, effective_pre, record_effects, group_pre_read_error}
use topo_db.Db.Applier.{
  ApplyJob, Reply, World, reply, prevalidate, all_ok, all_ids, Sorting, sort_one, next_overlay,
  sort_jobs, refuse_all, settle_group, apply_included, group_loaded, apply_group,
}
use topo_db.Db.Steps.{
  Checked, Refused, in_group, group_unread, overlay_of, IsBackend, Ran, Ran-append,
  apply_one_job-Ran, apply_each_job-Ran, commit_all-Ran,
}

overlay_of-append :
    (overlay : Overlay) (jobs : List ApplyJob) (job : ApplyJob)
    → record_effects (overlay_of overlay jobs) job.ops ≡ overlay_of overlay (jobs ++ job ∷ [])
overlay_of-append overlay [] job = refl
overlay_of-append overlay (j ∷ jobs) job = overlay_of-append (record_effects overlay j.ops) jobs job

module _ (b : Backend) where
  open b use {State, load_nodes, apply_batches}

  -- These replies refuse these jobs of a group, each for a reason.
  abbrev Refuses : ℤ → List ApplyJob → State → List ApplyJob → List Reply → Type 0
  Refuses now group s [] [] = Unit {0}
  Refuses now group s (job ∷ jobs) (r ∷ rs) =
      ((e : TopoError) × (r ≡ (job.reply, err e)) × Refused b now group s job e)
      × Refuses now group s jobs rs
  Refuses now group s _ _ = ⊥

  -- The checks within the group let the job pass.
  abbrev pub Passed : List ApplyJob → State → ApplyJob → Type 0
  Passed group s job = Checked b group s job (ok tt)

  -- The jobs of a sorting, those that are refused first.
  abbrev IsSorting : ℤ → List ApplyJob → State → List ApplyJob → Sorting → Type 0
  IsSorting now group s jobs sorting =
      (out : List ApplyJob) × Refuses now group s out sorting.refused
      × Perm (out ++ sorting.included) jobs
      × All (Passed group s) sorting.included

  module _ (now : ℤ) (group : List ApplyJob) (s : State) where
    sort_one-IsSorting :
        (job : ApplyJob) (jobs : List ApplyJob) (r : Result (Unit {0})) (sorting : Sorting)
        → Checked b group s job r
        → IsSorting now group s jobs sorting
        → IsSorting now group s (job ∷ jobs) (sort_one job r sorting)
    sort_one-IsSorting job jobs (ok done) sorting c (out, refuses, perm, passed) = (
      out,
      refuses,
      Perm.trans (perm_middle out sorting.included) (Perm.cons job perm),
      (c, passed),
    )
    sort_one-IsSorting job jobs (err e) sorting c (out, refuses, perm, passed) =
        (job ∷ out, ((e, refl, in_group e c), refuses), Perm.cons job perm, passed)

    sort_next-IsSorting :
        (base : Table ℕ Scope) (earlier jobs : List ApplyJob) (job : ApplyJob)
        (r : Result (Unit {0}))
        → ((before : List ApplyJob)
            → Sublistᴰ (before ++ jobs) group
            → IsSorting now group s jobs (sort_jobs base (overlay_of empty before) jobs))
        → Sublistᴰ (earlier ++ job ∷ jobs) group
        → IsSorting now group s jobs
            (sort_jobs base (next_overlay (overlay_of empty earlier) job.ops r) jobs)
    sort_next-IsSorting base earlier jobs job (ok done) more sub =
        subst (λ (o : Overlay). IsSorting now group s jobs (sort_jobs base o jobs))
          (sym (overlay_of-append empty earlier job))
          (more (earlier ++ job ∷ []) (
            subst (λ (xs : List ApplyJob). Sublistᴰ xs group)
              (sym (append_assoc earlier (job ∷ []) jobs)) sub))
    sort_next-IsSorting base earlier jobs job (err e) more sub = more earlier (
        Sublistᴰ.trans
          (Sublistᴰ.append (Sublistᴰ.refl earlier) (Sublistᴰ.cons (Sublistᴰ.refl jobs))) sub)

    -- The jobs that have passed and those to come stand in the group in this order.
    sort_jobs-IsSorting :
        (base : Table ℕ Scope) (earlier jobs : List ApplyJob)
        → load_nodes s (all_ids group) ≡ ok base
        → Sublistᴰ (earlier ++ jobs) group
        → IsSorting now group s jobs (sort_jobs base (overlay_of empty earlier) jobs)
    unfolding sort_jobs
    sort_jobs-IsSorting base earlier [] l sub = ([], tt, Perm.refl [], tt)
    sort_jobs-IsSorting base earlier (job ∷ jobs) l sub =
        let r = prevalidate (effective_pre base (overlay_of empty earlier)) job.ops in
        sort_one-IsSorting job jobs r _ (base, earlier, jobs, l, sub, refl)
          (sort_next-IsSorting base earlier jobs job r
            (λ before sub'. sort_jobs-IsSorting base before jobs l sub') sub)

    refuse_all-Refuses :
        (e : TopoError) (jobs : List ApplyJob)
        → load_nodes s (all_ids group) ≡ err e
        → Refuses now group s jobs (refuse_all e jobs)
    unfolding refuse_all
    refuse_all-Refuses e [] l = tt
    refuse_all-Refuses e (job ∷ jobs) l =
        ((group_pre_read_error e, refl, group_unread e l), refuse_all-Refuses e jobs l)

  Refuses-Ran :
      (now : ℤ) (group : List ApplyJob) (w : World b) (out : List ApplyJob) (rs : List Reply)
      → Refuses now group w.state out rs
      → Ran b now group w out (record w { replies = w.replies ++ rs })
  Refuses-Ran now group w [] [] h = λ i. record w { replies = sym (append-nil w.replies) i }
  Refuses-Ran now group w (job ∷ out) (r ∷ rs) ((e, same, why), h) =
      let same_replies : (w.replies ++ (job.reply, err e) ∷ []) ++ rs ≡ w.replies ++ r ∷ rs =
        append_assoc w.replies ((job.reply, err e) ∷ []) rs
        ∙ ap (λ (x : Reply). w.replies ++ x ∷ rs) (sym same) in
      inl (
        e,
        why,
        subst
            (λ (all : List Reply).
              Ran b now group (reply b w job.reply (err e)) out (record w { replies = all }))
            same_replies (Refuses-Ran now group (reply b w job.reply (err e)) out rs h),
      )
  Refuses-Ran now group w [] (r ∷ rs) h = elim h [ ]
  Refuses-Ran now group w (job ∷ out) [] h = elim h [ ]

  module _ {IsSound : State → Type 0} (laws : IsBackend b IsSound) (now : ℤ)
      (group : List ApplyJob) where
    settle_group-Ran :
        (w : World b) (jobs : List ApplyJob)
        → IsSound w.state
        → Ran b now group w jobs (
            settle_group b w jobs now
              (apply_batches w.state (map (λ (j : ApplyJob). j.ops) jobs) now))
    settle_group-Ran w jobs sound =
        let groups = map (λ (j : ApplyJob). j.ops) jobs in
        elim (Bool-cases (all_ok (apply_batches w.state groups now).0)) [
          | inl good ↦ rw good (
              commit_all-Ran b laws now group jobs w _ _
                (laws.group_served w.state groups now sound good))
          | inr bad ↦
              rw (bad, laws.group_failed w.state groups now sound bad)
                (apply_each_job-Ran b laws now group jobs w sound)
        ]

    apply_included-Ran :
        (w : World b) (jobs : List ApplyJob)
        → IsSound w.state
        → Ran b now group w jobs (apply_included b w jobs now)
    unfolding apply_included
    apply_included-Ran w [] sound = refl
    apply_included-Ran w (job ∷ []) sound = apply_one_job-Ran b laws now group w job sound
    apply_included-Ran w (job ∷ (next ∷ jobs)) sound =
        settle_group-Ran w (job ∷ (next ∷ jobs)) sound

    -- The jobs in the order in which they are handled.
    abbrev pub Serves : World b → World b → Type 0
    Serves w v =
        (refused : List ApplyJob) × (included : List ApplyJob) × Perm (refused ++ included) group
        × All (Passed group w.state) included
        × Ran b now group w (refused ++ included) v

    group_loaded-Serves :
        (w : World b) (r : Result (Table ℕ Scope))
        → IsSound w.state
        → load_nodes w.state (all_ids group) ≡ r
        → Serves w (group_loaded b w group now r)
    group_loaded-Serves w (err e) sound l =
        let v = group_loaded b w group now (err e) in
        let (perm, ran) =
          subst (λ (xs : List ApplyJob). Perm xs group × Ran b now group w xs v)
            (sym (append-nil group))
            (
              Perm.refl group,
              Refuses-Ran now group w group _ (refuse_all-Refuses now group w.state e group l),
            ) in
        (group, [], perm, tt, ran)
    group_loaded-Serves w (ok base) sound l =
        let (out, refuses, perm, passed) =
          sort_jobs-IsSorting now group w.state base [] group l (Sublistᴰ.refl group) in
        let s = sort_jobs base empty group in
        (
          out,
          s.included,
          perm,
          passed,
          Ran-append b now group out s.included w _ _
              (Refuses-Ran now group w out s.refused refuses)
              (apply_included-Ran (record w { replies = w.replies ++ s.refused }) s.included sound),
        )

  -- Over a storage that is what the applier relies on (Db.Steps.IsBackend), and that is sound: the
  -- jobs of a group are handled each of them once, first those that are refused by the checks within
  -- the group or because the scopes cannot be read, then those that have passed these checks. A job
  -- that is refused gets as its one reply the error of the check, of the read or of the storage that
  -- refuses it at its turn, and changes nothing else. Any other job is applied to the storage that the
  -- jobs before it have left: its batch is committed, its ops are broadcast, and then the result is its
  -- one reply. So it is whether the shared commit succeeds, or it fails and the jobs are replayed one
  -- by one.
  pub apply_group_serves :
      {IsSound : State → Type 0}
      → IsBackend b IsSound
      → (now : ℤ) (w : World b) (jobs : List ApplyJob) → IsSound w.state
      → (refused : List ApplyJob) × (included : List ApplyJob) × Perm (refused ++ included) jobs
        × All (Passed jobs w.state) included
        × Ran b now jobs w (refused ++ included) (apply_group b w jobs now)
  unfolding apply_group
  apply_group_serves laws now w jobs sound = group_loaded-Serves laws now jobs w _ sound refl
