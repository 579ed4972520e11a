-- ===== src/Db/Tests.antt =====
-- Runs of the applier of crates/topodb/src/db.rs, and the theorems at concrete inputs.
use mathlib.Core.List.{Perm}
use topo_db.Prelude.{◌≡◌, refl, none, some, true, List, [], ◌∷◌, ◌++◌, All, length, arith}
use topo_db.Prelude.Int.{pos}
use topo_db.Prelude.Outcome.{Result, ok}
use topo_db.Storage.Act.{Storage}
use topo_db.Storage.Batch.{AppliedBatch}
use topo_db.Storage.Group.Atomic.{IsWell}
use topo_db.Storage.Example.{small_engine, fresh, fresh-IsWell, two_nodes, an_edge, a_stray_edge}
use topo_db.Db.{Backend, OtherJob, compact}
use topo_db.Db.Feed.{Subscriber, broadcast_batch, events_of}
use topo_db.Db.Feed.Buffers.{reached, broadcast_batch_lem}
use topo_db.Db.Feed.Recovered.{IsRecoverable, apply_batches-IsRecoverable}
use topo_db.Log.Feed
use topo_db.Storage.Group.{apply_batches}
use topo_db.Db.Applier.{ApplyJob, World, apply_group}
use topo_db.Db.Steps.{IsBackend, Ran}
use topo_db.Db.Group.{Passed, apply_group_serves}
use topo_db.Db.Queue.{apply, other, Event, sent, play}
use topo_db.Db.Queue.Turns.{answered, waiting}
use topo_db.Db.Queue.Answers.{submitted, started, finished, applier_answers}
use topo_db.Db.OnStorage.{on_storage, on_storage-IsBackend}

-- A rebuild that empties the property index, and the other jobs succeed.
abbrev emptied : Storage → Result (Unit {0}) × Storage
emptied s = (ok tt, record s { tables = record s.tables { prop_index = [] } })

abbrev succeeds : OtherJob → Result (Unit {0})
succeeds job = ok tt

emptied-IsWell : (s : Storage) → IsWell s → IsWell (emptied s).1
emptied-IsWell s well = record {
  dicts = well.dicts;
  dict_rows = well.dict_rows;
  scopes = well.scopes;
  in_step = well.in_step;
}

abbrev database : Backend
database = on_storage small_engine none none emptied succeeds

on_storage-IsBackend_example : IsBackend database IsWell
on_storage-IsBackend_example =
    on_storage-IsBackend small_engine none none emptied succeeds emptied-IsWell

abbrev listener : Subscriber
listener = record { buffer = []; capacity = 2; connected = true }

abbrev two_jobs : List ApplyJob
two_jobs =
    record { ops = two_nodes; reply = 1 }
    ∷ record { ops = a_stray_edge; reply = 2 }
    ∷ record { ops = an_edge; reply = 3 }
    ∷ []

abbrev world : World database
world = record { state = fresh; subs = listener ∷ []; replies = [] }

apply_group_serves_example :
    (refused : List ApplyJob) × (included : List ApplyJob) × Perm (refused ++ included) two_jobs
    × All (Passed database two_jobs fresh) included
    × Ran database
        (pos 1000)
        two_jobs
        world
        (refused ++ included)
        (apply_group database world two_jobs (pos 1000))
apply_group_serves_example =
    apply_group_serves database on_storage-IsBackend_example (pos 1000) world two_jobs fresh-IsWell

abbrev events : List (Event database)
events =
    sent (apply two_nodes none 1)
    ∷ sent (other (compact 1) (some 2))
    ∷ sent (apply an_edge (some (pos 5)) 3)
    ∷ []

all_wait : length (waiting database (play database (started database fresh []) events)) ≡ 3
unfolding play
all_wait = refl

applier_answers_example :
    (let m = finished database (started database fresh []) events (pos 1 ∷ pos 2 ∷ pos 3 ∷ []) in
      Perm (answered database m.world) (submitted database events)
      × (length (waiting database m) ≡ 0))
applier_answers_example =
    applier_answers database on_storage-IsBackend_example fresh [] events
      (pos 1 ∷ pos 2 ∷ pos 3 ∷ []) fresh-IsWell (omega (arith, all_wait))

abbrev both : AppliedBatch
both = record { first_seq = 7; last_seq = 8; resolved = two_nodes; remap = [] }

broadcast_batch_lem_example :
    broadcast_batch (listener ∷ []) both ≡ reached (listener ∷ []) (events_of 7 two_nodes)
broadcast_batch_lem_example = broadcast_batch_lem (listener ∷ []) both ((omega arith), tt)

apply_batches-IsRecoverable_example :
    IsRecoverable fresh.tables.log
      (apply_batches small_engine fresh (two_nodes ∷ an_edge ∷ []) (pos 1000) none none)
apply_batches-IsRecoverable_example =
    apply_batches-IsRecoverable small_engine fresh (two_nodes ∷ an_edge ∷ []) (pos 1000) none none
      [] Feed.started
