-- ===== src/Db/Feed/Recovered.antt =====
-- crates/topodb/src/db.rs over the op log of crates/topodb/src/storage.rs: the events of the live feed,
-- read again from the log.
use mathlib.Core.List.{append-nil, append_assoc}
use topo_db.Prelude.{
  ℕ, ◌+◌, ◌-◌, ◌≡◌, refl, sym, ap, ◌∙◌, subst, ◌⊎◌, inl, inr, arith, false, List, [], ◌∷◌, ◌++◌,
  map, length, All, drop, ltb, max,
}
use topo_db.Prelude.Int.{ℤ}
use topo_db.Prelude.Outcome.{Result, ok}
use topo_db.Op.{Op}
use topo_db.Log.{Log, append_rewritten, current_seq, oldest_seq, read_ops}
use topo_db.Log.Seqs.{number, append_rewritten_lem, oldest_seq-append_rewritten}
use topo_db.Log.Feed.{History, appended, IsSuffix, History-IsSuffix, read_ops-History, drop_whole}
use topo_db.Storage.Act.{Storage}
use topo_db.Storage.Batch.{Engine, AppliedBatch}
use topo_db.Storage.Group.{Answer, apply_batches}
use topo_db.Storage.Group.Atomic.{IsErr}
use topo_db.Storage.Evolves.Record.{Logs, Recorded, apply_batches-Recorded}
use topo_db.Db.Feed.{ChangeEvent, events_of}

-- The events that are broadcast for some batches.
abbrev pub events_of_all : List AppliedBatch → List ChangeEvent
events_of_all [] = []
events_of_all (b ∷ bs) = events_of b.first_seq b.resolved ++ events_of_all bs

abbrev ops_of_all : List AppliedBatch → List Op
ops_of_all [] = []
ops_of_all (b ∷ bs) = b.resolved ++ ops_of_all bs

events_of-number : (seq : ℕ) (ops : List Op) → events_of seq ops ≡ number seq ops
unfolding events_of
events_of-number seq [] = refl
events_of-number seq (op ∷ ops) =
    ap (λ (l : List ChangeEvent). (seq, op) ∷ l) (events_of-number (seq + 1) ops)

number-append :
    (n : ℕ) (xs ys : List Op) → number n (xs ++ ys) ≡ number n xs ++ number (n + length xs) ys
number-append n [] ys = ap (λ (k : ℕ). number k ys) (omega arith)
number-append n (x ∷ xs) ys =
    ap (λ (l : List ChangeEvent). (n, x) ∷ l)
      (number-append (n + 1) xs ys ∙ ap (λ (k : ℕ). number (n + 1) xs ++ number k ys) (omega arith))

-- What a run of batches does to a log with this past.
record Continues (log : Log Op) (past : List Op) (bs : List AppliedBatch) (log' : Log Op)
    : Type 0 where
  history : History log' (past ++ ops_of_all bs)
  floor : oldest_seq log' ≡ oldest_seq log
  numbered : events_of_all bs ≡ number (current_seq log + 1) (ops_of_all bs)

appended-Continues :
    (log mid log' : Log Op) (past : List Op) (b : AppliedBatch) (bs : List AppliedBatch)
    → History log past
    → append_rewritten log b.resolved ≡ (mid, (b.first_seq, b.last_seq))
    → Continues mid (past ++ b.resolved) bs log'
    → Continues log past (b ∷ bs) log'
appended-Continues log mid log' past b bs h e k =
    let (_, first, _, current) =
      append_rewritten_lem log (drop (oldest_seq log - 1) past) b.resolved
        (History-IsSuffix h).held in
    let at_mid : current_seq mid ≡ current_seq log + length b.resolved =
      ap (λ (p : Log Op × (ℕ × ℕ)). current_seq p.0) (sym e) ∙ current in
    let starts : b.first_seq ≡ current_seq log + 1 =
      ap (λ (p : Log Op × (ℕ × ℕ)). p.1.0) (sym e) ∙ first in
    record {
      history =
          subst (λ (l : List Op). History log' l) (append_assoc past b.resolved (ops_of_all bs))
            k.history;
      floor =
          k.floor
          ∙ ap (λ (p : Log Op × (ℕ × ℕ)). oldest_seq p.0) (sym e)
          ∙ oldest_seq-append_rewritten log b.resolved;
      numbered =
          rw
            (
              events_of-number b.first_seq b.resolved,
              starts,
              number-append (current_seq log + 1) b.resolved (ops_of_all bs),
            )
            (ap (λ (l : List ChangeEvent). number (current_seq log + 1) b.resolved ++ l)
              (k.numbered ∙ ap (λ (n : ℕ). number n (ops_of_all bs)) (omega (arith, at_mid))));
    }

Logs-Continues :
    (bs : List AppliedBatch) (log log' : Log Op) (past : List Op)
    → History log past
    → Logs log bs log'
    → Continues log past bs log'
Logs-Continues [] log log' past h same =
    subst (λ (l : Log Op). Continues log past [] l) same
      (record {
        history = subst (λ (l : List Op). History log l) (sym (append-nil past)) h;
        floor = refl;
        numbered = refl;
      })
Logs-Continues (b ∷ bs) log log' past h (mid, e, rest) =
    let next : History mid (past ++ b.resolved) =
      subst (λ (p : Log Op × (ℕ × ℕ)). History p.0 (past ++ b.resolved)) e
        (appended h b.resolved) in
    appended-Continues log mid log' past b bs h e
      (Logs-Continues bs mid log' (past ++ b.resolved) next rest)

Continues-read :
    (log log' : Log Op) (past : List Op) (bs : List AppliedBatch)
    → History log past
    → Continues log past bs log'
    → read_ops log' (current_seq log + 1) ≡ ok (events_of_all bs)
Continues-read log log' past bs h k =
    let was : IsSuffix log past = History-IsSuffix h in
    let above : ltb (max (current_seq log + 1) 1) (oldest_seq log') ≡ false =
      ground (arith, k.floor, was.floor, was.current) in
    let start : max (current_seq log + 1) 1 ≡ current_seq log + 1 = omega arith in
    let place : current_seq log + 1 - 1 ≡ length past = omega (arith, was.current) in
    read_ops-History (current_seq log + 1) k.history
    ∙ rw (above, start, place, drop_whole past (ops_of_all bs), k.numbered) refl

abbrev pub IsRecoverable : Log Op → List (Result AppliedBatch) × Storage → Type 0
IsRecoverable log (rs, s) =
    ((bs : List AppliedBatch) × (rs ≡ map ok bs)
      × (read_ops s.tables.log (current_seq log + 1) ≡ ok (events_of_all bs)))
    ⊎ (All IsErr rs × (s.tables.log ≡ log))

Recorded-IsRecoverable :
    (log : Log Op) (past : List Op) (r : List (Result AppliedBatch) × Storage)
    → History log past
    → Recorded log r
    → IsRecoverable log r
Recorded-IsRecoverable log past (rs, s) h (inl (bs, same, logs)) =
    let c = Logs-Continues bs log s.tables.log past h logs in
    inl (bs, same, Continues-read log s.tables.log past bs h c)
Recorded-IsRecoverable log past (rs, s) h (inr failed) = inr failed

-- After a group of batches that has committed, a read of the op log from one past the sequence number
-- that was current before returns the very events that are broadcast for the batches of the group, in
-- order and with the same sequence numbers, so that a subscriber can recover what it has lost; a
-- group that has failed leaves the log as it was. The log before may be any that appends and
-- compactions lead to.
pub apply_batches-IsRecoverable :
    (engine : Engine) (s : Storage) (groups : List (List Op)) (now : ℤ) (begin commit : Answer)
    (past : List Op)
    → History s.tables.log past
    → IsRecoverable s.tables.log (apply_batches engine s groups now begin commit)
apply_batches-IsRecoverable engine s groups now begin commit past h =
    Recorded-IsRecoverable s.tables.log past (apply_batches engine s groups now begin commit) h
      (apply_batches-Recorded engine s groups now begin commit)
