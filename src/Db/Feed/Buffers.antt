-- ===== src/Db/Feed/Buffers.antt =====
-- crates/topodb/src/db.rs: what a broadcast puts into the buffer of a subscriber.
use mathlib.Core.List.{append-nil, append_assoc}
use topo_db.Prelude.{
  ℕ, zero, suc, ◌+◌, ◌-◌, ◌≤◌, ◌≡◌, refl, sym, ◌∙◌, arith, true, false, List, [], ◌∷◌, ◌++◌, length,
  length-append, All, take, ltb, if◌then◌else◌, Bool, ◌||◌, Bool-cases, inl, inr,
}
use topo_db.Storage.Batch.{AppliedBatch}
use topo_db.Db.Feed.{
  ChangeEvent, Subscriber, events_of, send_all, is_kept, send_each, broadcast_batch,
}

send_all_full :
    (events : List ChangeEvent) (s : Subscriber)
    → s.capacity ≤ length s.buffer
    → send_all s events ≡ s
unfolding send_all
send_all_full [] s h = refl
send_all_full (e ∷ events) s h =
    let full : ltb (length s.buffer) s.capacity ≡ false = ground arith in
    rw full (send_all_full events s h)

unchanged : (s : Subscriber) → s ≡ record s { buffer = s.buffer ++ [] }
unchanged s = λ i. record s { buffer = sym (append-nil s.buffer) i }

send_all-take :
    (events : List ChangeEvent) (n : ℕ) (s : Subscriber)
    → length s.buffer + n ≡ s.capacity
    → send_all s events ≡ record s { buffer = s.buffer ++ take n events }
unfolding send_all
send_all-take [] zero s h = unchanged s
send_all-take [] (suc n) s h = unchanged s
send_all-take (e ∷ events) zero s h = send_all_full (e ∷ events) s (omega arith) ∙ unchanged s
send_all-take (e ∷ events) (suc n) s h =
    let room : ltb (length s.buffer) s.capacity ≡ true = ground arith in
    let grown : length (s.buffer ++ e ∷ []) + n ≡ s.capacity =
      omega (arith, length-append s.buffer (e ∷ [])) in
    rw room (
      send_all-take events n (record s { buffer = s.buffer ++ e ∷ [] }) grown ∙ λ i. record s {
        buffer = append_assoc s.buffer (e ∷ []) (take n events) i;
      })

abbrev none_sent : List ChangeEvent → Bool
none_sent [] = true
none_sent (event ∷ events) = false

-- Whether a subscriber stays: its receiver is there, or nothing was sent that could show that it is
-- not.
abbrev pub stays : Subscriber → List ChangeEvent → Bool
stays s events = s.connected || none_sent events

is_kept-stays : (s : Subscriber) (events : List ChangeEvent) → is_kept s events ≡ stays s events
is_kept-stays s [] = elim (Bool-cases s.connected) [
  | inl here ↦ rw here refl
  | inr gone ↦ rw gone refl
]
is_kept-stays s (event ∷ events) = elim (Bool-cases s.connected) [
  | inl here ↦ rw here refl
  | inr gone ↦ rw gone refl
]

-- The buffers after the broadcast of some events: who is gone is dropped, everyone else has the
-- events that fit, in order.
abbrev pub reached : List Subscriber → List ChangeEvent → List Subscriber
reached [] events = []
reached (s ∷ subs) events =
    let rest = reached subs events in
    if stays s events
    then record s { buffer = s.buffer ++ take (s.capacity - length s.buffer) events } ∷ rest
    else rest

send_each-reached :
    (subs : List Subscriber) (events : List ChangeEvent)
    → All (λ (s : Subscriber). length s.buffer ≤ s.capacity) subs
    → send_each subs events ≡ reached subs events
unfolding send_each
send_each-reached [] events h = refl
send_each-reached (s ∷ subs) events h =
    rw
      (
        send_all-take events (s.capacity - length s.buffer) s (omega (arith, h.0)),
        send_each-reached subs events h.1,
        is_kept-stays s events,
      )
      refl

-- A broadcast leaves every subscriber that is still there with the first events of the batch, as many
-- as its buffer has room for, in order and after what was in it; the other events are lost to it. One
-- whose receiver is gone is dropped, unless the batch has no event. No buffer holds more
-- than its capacity before.
pub broadcast_batch_lem :
    (subs : List Subscriber) (batch : AppliedBatch)
    → All (λ (s : Subscriber). length s.buffer ≤ s.capacity) subs
    → broadcast_batch subs batch ≡ reached subs (events_of batch.first_seq batch.resolved)
unfolding broadcast_batch
broadcast_batch_lem subs batch h = send_each-reached subs _ h
