-- ===== src/Db/Queue/Turns.antt =====
-- crates/topodb/src/db.rs: one turn of the applier's loop.
use mathlib.Core.List.{Perm, append-nil, append_assoc, map-append}
use mathlib.Core.List.Perm
use topo_db.Prelude.{
  ℕ, ◌-◌, ◌≤◌, ◌≡◌, sym, ap, ◌∙◌, subst, inl, inr, Option, none, some, List, [], ◌∷◌, ◌++◌, map,
  length, arith,
}
use topo_db.Prelude.Int.{ℤ}
use topo_db.Prelude.Outcome.{Result, ok, err}
use topo_db.Storage.Batch.{AppliedBatch}
use topo_db.Db.{Backend}
use topo_db.Db.Applier.{ApplyJob, Reply, World, reply, apply_one_job, apply_group}
use topo_db.Db.Steps.{IsBackend, Ran, Ran-sound, apply_one_job-Ran}
use topo_db.Db.Group.{apply_group_serves}
use topo_db.Db.Queue.{
  Job, apply, other, drain, Machine, apply_drained, handle, receive, take_pending, turn,
}
use topo_db.Db.Queue.Draining.{channels, as_list, reply_of, left_of, drain-channels, drain-length}

module _ (b : Backend) where
  open b use {State, run_other}

  abbrev pub answered : World b → List ℕ
  answered w = map (λ (r : Reply). r.0) w.replies

  -- The jobs in the machine, the one that was popped first.
  abbrev pub waiting : Machine b → List Job
  waiting m = as_list m.pending ++ m.channel

  -- What a turn does to the replies, when it handles the job that is first in the machine.
  abbrev pub Advances : Machine b → List Job → (State → Type 0) → Machine b → Type 0
  Advances m queue IsSound m' =
      IsSound m'.world.state
      × Perm (answered m'.world ++ channels (waiting m')) (answered m.world ++ channels queue)
      × (length (waiting m') ≤ length queue - 1)

  -- One more reply.
  push-answered :
      (w : World b) (channel : ℕ) (r : Result AppliedBatch) (more : List ℕ)
      → answered (reply b w channel r) ++ more ≡ answered w ++ channel ∷ more
  push-answered w channel r more =
      ap (λ (l : List ℕ). l ++ more) (map-append (λ (x : Reply). x.0) w.replies ((channel, r) ∷ []))
      ∙ append_assoc (answered w) (channel ∷ []) more

  Ran-answered :
      (now : ℤ) (group jobs : List ApplyJob) (w v : World b)
      → Ran b now group w jobs v
      → answered v ≡ answered w ++ map reply_of jobs
  Ran-answered now group [] w v h = sym (append-nil (answered w) ∙ ap answered h)
  Ran-answered now group (j ∷ jobs) w v (inl (e, why, h)) =
      Ran-answered now group jobs _ v h ∙ push-answered w j.reply (err e) (map reply_of jobs)
  Ran-answered now group (j ∷ jobs) w v (inr (batch, s, done, h)) =
      Ran-answered now group jobs _ v h ∙ push-answered w j.reply (ok batch) (map reply_of jobs)

  module _ {IsSound : State → Type 0} (laws : IsBackend b IsSound) where
    abbrev Handled : World b → List ApplyJob → World b → Type 0
    Handled w jobs v = IsSound v.state × Perm (answered v) (answered w ++ map reply_of jobs)

    Ran-Handled :
        (now : ℤ) (group order jobs : List ApplyJob) (w v : World b)
        → IsSound w.state
        → Perm order jobs
        → Ran b now group w order v
        → Handled w jobs v
    Ran-Handled now group order jobs w v sound perm ran = (
      Ran-sound b laws now group order w v sound ran,
      subst (λ (l : List ℕ). Perm l (answered w ++ map reply_of jobs))
          (sym (Ran-answered now group order w v ran))
          (Perm.append_left (answered w) (Perm.map reply_of perm)),
    )

    one-Handled :
        (now : ℤ) (w : World b) (job : ApplyJob)
        → IsSound w.state
        → Handled w (job ∷ []) (apply_one_job b w job now)
    one-Handled now w job sound =
        Ran-Handled now (job ∷ []) (job ∷ []) (job ∷ []) w _ sound (Perm.refl (job ∷ []))
          (apply_one_job-Ran b laws now (job ∷ []) w job sound)

    group-Handled :
        (now : ℤ) (w : World b) (jobs : List ApplyJob)
        → IsSound w.state
        → Handled w jobs (apply_group b w jobs now)
    group-Handled now w jobs sound =
        let (refused, included, perm, passed, ran) = apply_group_serves b laws now w jobs sound in
        Ran-Handled now jobs (refused ++ included) jobs w _ sound perm ran

    drained-Handled :
        (now : ℤ) (w : World b) (jobs : List ApplyJob)
        → IsSound w.state
        → Handled w jobs (apply_drained b w jobs now)
    drained-Handled now w [] sound = group-Handled now w [] sound
    drained-Handled now w (job ∷ []) sound = one-Handled now w job sound
    drained-Handled now w (job ∷ (next ∷ jobs)) sound =
        group-Handled now w (job ∷ (next ∷ jobs)) sound

    -- With the jobs that stay behind.
    Handled-Perm :
        (w v : World b) (jobs : List ApplyJob) (behind : List ℕ)
        → Handled w jobs v
        → Perm (answered v ++ behind) (answered w ++ (map reply_of jobs ++ behind))
    Handled-Perm w v jobs behind h =
        subst (λ (l : List ℕ). Perm (answered v ++ behind) l)
          (append_assoc (answered w) (map reply_of jobs) behind) (Perm.append_right behind h.1)

    handle-Advances :
        (now : ℤ) (m : Machine b) (job : Job)
        → IsSound m.world.state
        → Advances m (job ∷ m.channel) IsSound (handle b (record m { pending = none }) now job)
    unfolding handle
    handle-Advances now m (apply ops none reply) sound =
        let first : ApplyJob = record { ops = ops; reply = reply } in
        let d = drain m.channel (first ∷ []) (length ops) in
        let handled = drained-Handled now m.world d.jobs sound in
        (
          handled.0,
          subst
              (λ (l : List ℕ).
                Perm (answered (apply_drained b m.world d.jobs now) ++ channels (left_of d))
                  (answered m.world ++ l))
              (drain-channels m.channel (first ∷ []) (length ops))
              (Handled-Perm m.world (apply_drained b m.world d.jobs now) d.jobs
                (channels (left_of d)) handled),
          omega (arith, drain-length m.channel (first ∷ []) (length ops)),
        )
    handle-Advances now m (apply ops (some at) reply) sound =
        let job : ApplyJob = record { ops = ops; reply = reply } in
        let handled = one-Handled at m.world job sound in
        (
          handled.0,
          Handled-Perm m.world (apply_one_job b m.world job at) (job ∷ []) (channels m.channel)
              handled,
          omega arith,
        )
    handle-Advances now m (other job reply) sound =
        (laws.other_sound m.world.state job sound, Perm.refl _, omega arith)

    received-Advances :
        (now : ℤ) (m : Machine b) (queue : List Job)
        → IsSound m.world.state
        → Advances m queue IsSound
            (receive b (record m { pending = none; channel = queue }) now queue)
    received-Advances now m [] sound = (sound, Perm.refl _, omega arith)
    received-Advances now m (job ∷ rest) sound =
        handle-Advances now (record m { channel = rest }) job sound

    taken-Advances :
        (now : ℤ) (m : Machine b) (pending : Option Job)
        → IsSound m.world.state
        → Advances m
            (as_list pending ++ m.channel)
            IsSound
            (take_pending b (record m { pending = none }) now pending)
    taken-Advances now m (some job) sound = handle-Advances now m job sound
    taken-Advances now m none sound = received-Advances now m m.channel sound

    pub turn-Advances :
        (now : ℤ) (m : Machine b)
        → IsSound m.world.state
        → Advances m (waiting m) IsSound (turn b m now)
    unfolding turn
    turn-Advances now m sound = taken-Advances now m m.pending sound
