-- ===== src/Db/Feed.antt =====
-- crates/topodb/src/db.rs: `broadcast_batch`, the live change feed. A subscriber is its bounded
-- buffer, and whether its receiver is still there.
pub mod Buffers
pub mod Recovered
use topo_db.Prelude.{ℕ, ◌+◌, Bool, true, false, List, [], ◌∷◌, ◌++◌, length, ltb, if◌then◌else◌}
use topo_db.Op.{Op}
use topo_db.Storage.Batch.{AppliedBatch}

-- `ChangeEvent`: the sequence number and the op.
abbrev pub ChangeEvent : Type 0
ChangeEvent = ℕ × Op

pub record Subscriber : Type 0 where
  pub buffer : List ChangeEvent
  pub capacity : ℕ
  pub connected : Bool

unfoldable pub events_of : ℕ → List Op → List ChangeEvent
events_of seq [] = []
events_of seq (op ∷ ops) = (seq, op) ∷ events_of (seq + 1) ops

-- `try_send`: a full buffer drops the event.
unfoldable pub try_send : Subscriber → ChangeEvent → Subscriber
try_send s event =
    if ltb (length s.buffer) s.capacity then record s { buffer = s.buffer ++ event ∷ [] } else s

unfoldable pub send_all : Subscriber → List ChangeEvent → Subscriber
unfolding try_send
send_all s [] = s
send_all s (event ∷ events) = send_all (try_send s event) events

-- `retain`: a subscriber whose receiver is gone is dropped at its first event.
abbrev pub is_kept : Subscriber → List ChangeEvent → Bool
is_kept s [] = true
is_kept s (event ∷ events) = s.connected

unfoldable pub send_each : List Subscriber → List ChangeEvent → List Subscriber
unfolding send_all
send_each [] events = []
send_each (s ∷ subs) events =
    let rest = send_each subs events in if is_kept s events then send_all s events ∷ rest else rest

unfoldable pub broadcast_batch : List Subscriber → AppliedBatch → List Subscriber
unfolding send_each events_of
broadcast_batch subs batch = send_each subs (events_of batch.first_seq batch.resolved)
