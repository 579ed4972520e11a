-- ===== src/Db/Queue.antt =====
-- crates/topodb/src/db.rs: the loop of the applier thread over its channel, one turn at a time, and
-- `submit_inner`, which may put jobs into the channel between any two turns.
pub mod Draining
pub mod Turns
pub mod Answers
use topo_db.Prelude.{
  ℕ, ◌+◌, Bool, true, false, ◌&&◌, Option, none, some, List, [], ◌∷◌, ◌++◌, length, ltb,
  if◌then◌else◌,
}
use topo_db.Prelude.Int.{ℤ}
use topo_db.Prelude.Outcome.{Result}
use topo_db.Op.{Op}
use topo_db.Db.{Backend, OtherJob}
use topo_db.Db.Applier.{ApplyJob, World, apply_one_job, apply_group}

-- A batch with the time that its caller gives, if any; or another job. The number is the channel of
-- the reply, which a bump of the counters has not.
pub data Job : Type 0 where
  apply : List Op → Option ℤ → ℕ → Job
  other : OtherJob → Option ℕ → Job

-- What was drained, the job that was popped and does not belong to it, and the rest of the channel.
pub record Drained : Type 0 where
  pub jobs : List ApplyJob
  pub popped : Option Job
  pub rest : List Job

-- The body of the draining loop, for the next job of the channel.
abbrev pub drain_next : (List ApplyJob → ℕ → Drained) → List ApplyJob → ℕ → Job → List Job → Drained
drain_next more jobs total (apply ops none reply) rest =
    more (jobs ++ record { ops = ops; reply = reply } ∷ []) (total + length ops)
drain_next more jobs total job rest = record { jobs = jobs; popped = some job; rest = rest }

-- Up to 16 jobs, and up to 4096 ops before the last of them.
unfoldable pub drain : List Job → List ApplyJob → ℕ → Drained
drain [] jobs total = record { jobs = jobs; popped = none; rest = [] }
drain (job ∷ rest) jobs total =
    if ltb (length jobs) 16 && ltb total 4096
    then drain_next (drain rest) jobs total job rest
    else record { jobs = jobs; popped = none; rest = job ∷ rest }

module _ (b : Backend) where
  open b use {State, run_other}

  pub record Machine : Type 0 where
    pub world : World b
    pub pending : Option Job
    pub channel : List Job
    pub acks : List (ℕ × Result (Unit {0}))

  abbrev pub acked :
      List (ℕ × Result (Unit {0})) → Option ℕ → Result (Unit {0}) → List (ℕ × Result (Unit {0}))
  acked acks none r = acks
  acked acks (some channel) r = acks ++ (channel, r) ∷ []

  abbrev pub apply_drained : World b → List ApplyJob → ℤ → World b
  apply_drained w (job ∷ []) now = apply_one_job b w job now
  apply_drained w jobs now = apply_group b w jobs now

  abbrev pub after_drain : Machine → Drained → ℤ → Machine
  after_drain m d now = record m {
    world = apply_drained m.world d.jobs now;
    pending = d.popped;
    channel = d.rest;
  }

  -- The clock is read for a batch that brings no time.
  unfoldable pub handle : Machine → ℤ → Job → Machine
  unfolding drain apply_one_job apply_group
  handle m now (apply ops (some at) reply) = record m {
    world = apply_one_job b m.world (record { ops = ops; reply = reply }) at;
  }
  handle m now (apply ops none reply) =
      after_drain m (drain m.channel (record { ops = ops; reply = reply } ∷ []) (length ops)) now
  handle m now (other job reply) =
      let (r, s) = run_other m.world.state job in
      record m { world = record (m.world) { state = s }; acks = acked m.acks reply r }

  -- `rx.recv()`, which waits on an empty channel.
  abbrev pub receive : Machine → ℤ → List Job → Machine
  receive m now [] = m
  receive m now (job ∷ rest) = handle (record m { channel = rest }) now job

  abbrev pub take_pending : Machine → ℤ → Option Job → Machine
  take_pending m now none = receive m now m.channel
  take_pending m now (some job) = handle m now job

  -- One turn of the loop. `take` leaves nothing behind.
  unfoldable pub turn : Machine → ℤ → Machine
  unfolding handle
  turn m now = take_pending (record m { pending = none }) now m.pending

  unfoldable pub send : Machine → Job → Machine
  send m job = record m { channel = m.channel ++ job ∷ [] }

  -- What happens to the machine: a submitter sends a job, or the thread makes a turn at some time.
  pub data Event : Type 0 where
    sent : Job → Event
    turned : ℤ → Event

  abbrev pub on_event : Machine → Event → Machine
  on_event m (sent job) = send m job
  on_event m (turned now) = turn m now

  unfoldable pub play : Machine → List Event → Machine
  unfolding send turn
  play m [] = m
  play m (event ∷ events) = play (on_event m event) events
