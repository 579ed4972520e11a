-- ===== src/Db/Queue/Answers.antt =====
-- crates/topodb/src/db.rs: the replies of the applier, over all that may happen to its channel.
use mathlib.Core.List.{Perm, append-nil, append_assoc}
use mathlib.Core.List.Perm
use topo_db.Prelude.{
  ℕ, ◌≤◌, ◌≡◌, refl, sym, ap, ◌∙◌, subst, none, List, [], ◌∷◌, ◌++◌, map, length, arith,
}
use topo_db.Prelude.Int.{ℤ}
use topo_db.Db.{Backend}
use topo_db.Db.Feed.{Subscriber}
use topo_db.Db.Steps.{IsBackend}
use topo_db.Db.Queue.{Job, Machine, turn, send, Event, sent, turned, play}
use topo_db.Db.Queue.Draining.{channels, as_list, channels-append, without_nils}
use topo_db.Db.Queue.Turns.{answered, waiting, turn-Advances}

module _ (b : Backend) where
  open b use {State}

  -- The replies that are due once these jobs have been sent.
  abbrev pub submitted : List (Event b) → List ℕ
  submitted [] = []
  submitted (sent job ∷ events) = channels (job ∷ []) ++ submitted events
  submitted (turned now ∷ events) = submitted events

  send-channels :
      (m : Machine b) (job : Job)
      → channels (waiting b (send b m job)) ≡ channels (waiting b m) ++ channels (job ∷ [])
  unfolding send
  send-channels m job =
      ap channels (sym (append_assoc (as_list m.pending) m.channel (job ∷ [])))
      ∙ channels-append (waiting b m) (job ∷ [])

  abbrev pub started : State → List Subscriber → Machine b
  started s subs = record {
    world = record { state = s; subs = subs; replies = [] };
    pending = none;
    channel = [];
    acks = [];
  }

  -- The events, and then a turn at each of some times.
  abbrev pub finished : Machine b → List (Event b) → List ℤ → Machine b
  finished m events times = play b (play b m events) (map turned times)

  module _ {IsSound : State → Type 0} (laws : IsBackend b IsSound) where
    -- Replies and waiting jobs make up what was sent.
    abbrev Accounts : Machine b → List ℕ → Machine b → Type 0
    Accounts m due m' =
        IsSound m'.world.state
        × Perm (answered b m'.world ++ channels (waiting b m'))
            ((answered b m.world ++ channels (waiting b m)) ++ due)

    play-Accounts :
        (events : List (Event b)) (m : Machine b)
        → IsSound m.world.state
        → Accounts m (submitted events) (play b m events)
    unfolding play
    play-Accounts [] m sound = (
      sound,
      subst (λ (l : List ℕ). Perm (answered b m.world ++ channels (waiting b m)) l)
          (sym (append-nil _)) (Perm.refl _),
    )
    play-Accounts (sent job ∷ events) m sound =
        let (sound', perm) = play-Accounts events (send b m job) sound in
        let due = submitted events in
        (
          sound',
          subst
              (λ (l : List ℕ).
                Perm
                  (answered b (play b (send b m job) events).world
                    ++ channels (waiting b (play b (send b m job) events)))
                  l)
              (ap (λ (l : List ℕ). (answered b m.world ++ l) ++ due) (send-channels m job)
                ∙ ap (λ (l : List ℕ). l ++ due)
                    (sym (
                      append_assoc (answered b m.world) (channels (waiting b m))
                        (channels (job ∷ []))))
                ∙ append_assoc (answered b m.world ++ channels (waiting b m)) (channels (job ∷ []))
                    due)
              perm,
        )
    play-Accounts (turned now ∷ events) m sound =
        let (sound', advance, less) = turn-Advances b laws now m sound in
        let (sound'', perm) = play-Accounts events (turn b m now) sound' in
        (sound'', Perm.trans perm (Perm.append_right (submitted events) advance))

    turns-length :
        (times : List ℤ) (m : Machine b)
        → IsSound m.world.state
        → length (waiting b m) ≤ length times
        → length (waiting b (play b m (map turned times))) ≡ 0
    unfolding play
    turns-length [] m sound h = omega arith
    turns-length (now ∷ times) m sound h =
        let (sound', perm, less) = turn-Advances b laws now m sound in
        turns-length times (turn b m now) sound' (omega arith)

    channels-nil : (jobs : List Job) → length jobs ≡ 0 → channels jobs ≡ []
    channels-nil [] h = refl
    channels-nil (job ∷ jobs) h = absurd (omega arith)

    submitted-turns : (times : List ℤ) → submitted (map turned times) ≡ []
    submitted-turns [] = refl
    submitted-turns (now ∷ times) = submitted-turns times

    -- Over a storage that is what the applier relies on (Db.Steps.IsBackend), and that is sound at
    -- first: whatever is sent to an idle applier, and however the sends fall between its turns: once it has
    -- had as many more turns as jobs were waiting, every batch that was sent has exactly one reply on
    -- its channel, and nothing else has been sent there; no job is left.
    pub applier_answers :
        (s : State) (subs : List Subscriber) (events : List (Event b)) (times : List ℤ)
        → IsSound s
        → length (waiting b (play b (started s subs) events)) ≤ length times
        → Perm (answered b (finished (started s subs) events times).world) (submitted events)
          × (length (waiting b (finished (started s subs) events times)) ≡ 0)
    applier_answers s subs events times sound enough =
        let m = started s subs in
        let (sound', sends) = play-Accounts events m sound in
        let (_, turns) = play-Accounts (map turned times) (play b m events) sound' in
        let empty = turns-length times (play b m events) sound' enough in
        (
          Perm.trans (without_nils _ _ _ _ turns (channels-nil _ empty) (submitted-turns times))
              sends,
          empty,
        )
