-- ===== src/Log/Feed.antt =====
-- crates/topodb/src/storage.rs: the op log against the history of all ops ever appended.
use topo_db.Prelude.{
  ℕ, ◌+◌, ◌-◌, ◌≤◌, max, ◌≡◌, refl, ◌∙◌, sym, subst, arith, none, List, [], ◌∷◌, ◌++◌, length,
  length-append, drop, drop-append, drop-drop, ltb, if◌then◌else◌, inl, inr, Bool-cases, false,
}
use mathlib.Core.List.{append-nil, append_assoc}
use topo_db.Prelude.Outcome.{ok-injective, ok, err, compacted}
use topo_db.Prelude.Rows.{last_key}
use topo_db.Log.{Log, append_rewritten, oldest_seq, current_seq, compact_ops_through, read_ops}
use topo_db.Log.Seqs.{
  Holds, number, append_rewritten_lem, compact_ops_through_lem, read_ops_lem,
  oldest_seq-append_rewritten,
}

pub drop_whole {ℓ} : {A : Type ℓ} (xs ys : List A) → drop (length xs) (xs ++ ys) ≡ ys
drop_whole [] ys = refl
drop_whole (x ∷ xs) ys = drop_whole xs ys

module _ {Op : Type 0} where
  abbrev pub genesis : Log Op
  genesis = record { ops = []; oldest = none }

  -- The logs that the operations reach, each with all the ops appended on the way.
  pub data History : Log Op → List Op → Type 0 where
    started : History genesis []
    appended :
        {log : Log Op} {past : List Op}
        → History log past
        → (ops : List Op) → History (append_rewritten log ops).0 (past ++ ops)
    trimmed :
        {log log' : Log Op} {past : List Op}
        → History log past
        → (keep_from : ℕ) → compact_ops_through log keep_from ≡ ok log'
        → History log' past

  -- The log holds the end of the history, from the floor on.
  pub record IsSuffix (log : Log Op) (past : List Op) : Type 0 where
    pub held : Holds log (drop (oldest_seq log - 1) past)
    pub current : current_seq log ≡ length past
    pub floor : oldest_seq log ≤ length past + 1

  genesis-IsSuffix : IsSuffix genesis []
  unfolding oldest_seq current_seq last_key
  genesis-IsSuffix = record {
    held = record { positive = omega arith; rows = refl };
    current = refl;
    floor = omega arith;
  }

  appended-IsSuffix :
      (log : Log Op) (past ops : List Op)
      → IsSuffix log past
      → IsSuffix (append_rewritten log ops).0 (past ++ ops)
  appended-IsSuffix log past ops h =
      let (held, _, _, current) =
        append_rewritten_lem log (drop (oldest_seq log - 1) past) ops h.held in
      record {
        held =
            rw (oldest_seq-append_rewritten log ops)
              (rw (drop-append (oldest_seq log - 1) past ops (omega (arith, h.floor))) held);
        current = omega (arith, current, h.current, length-append past ops);
        floor = omega (arith, oldest_seq-append_rewritten log ops, h.floor, length-append past ops);
      }

  trimmed-IsSuffix :
      (log log' : Log Op) (past : List Op) (keep_from : ℕ)
      → compact_ops_through log keep_from ≡ ok log'
      → IsSuffix log past
      → IsSuffix log' past
  trimmed-IsSuffix log log' past k e h =
      elim (compact_ops_through_lem log (drop (oldest_seq log - 1) past) k h.held) [
        | inl (_, same) ↦ subst (λ l. IsSuffix l past) (cc) h
        | inr (inl (log'', low, high, e', held, floor, current)) ↦
            subst (λ l. IsSuffix l past) (cc)
              (record {
                held = rw floor (
                    subst (λ n. Holds log'' (drop n past)) (omega (arith, h.held.positive))
                      (rw (drop-drop (k - oldest_seq log) (oldest_seq log - 1) past) at held));
                current = current ∙ h.current;
                floor = omega (arith, floor, high, h.current);
              })
        | inr (inr (_, e')) ↦ absurd (cc)
      ]

  -- Whatever appends and compactions led to a log, it holds the end of the history, each op under
  -- its place in the history counted from 1, and the current sequence number counts the history.
  pub History-IsSuffix : {log : Log Op} {past : List Op} → History log past → IsSuffix log past
  History-IsSuffix started = genesis-IsSuffix
  History-IsSuffix (appended {log} {past} h ops) =
      appended-IsSuffix log past ops (History-IsSuffix h)
  History-IsSuffix (trimmed {log} {log'} {past} h k e) =
      trimmed-IsSuffix log log' past k e (History-IsSuffix h)

  -- Whatever appends and compactions led to a log, a read of the change feed at `since` (0 counts as
  -- 1) returns all of the history of appended ops from there on, under the numbers from `since` on,
  -- or is `Compacted` if the floor is higher.
  pub read_ops-History :
      {log : Log Op} {past : List Op} (since : ℕ)
      → History log past
      → read_ops log since ≡ (
          if ltb (max since 1) (oldest_seq log)
          then err (compacted (oldest_seq log))
          else ok (number (max since 1) (drop (max since 1 - 1) past)))
  read_ops-History {log} {past} since h =
      let s : IsSuffix log past = History-IsSuffix h in
      read_ops_lem log (drop (oldest_seq log - 1) past) since s.held
      ∙ elim (Bool-cases (ltb (max since 1) (oldest_seq log))) [
        | inl below ↦ rw below
        | inr above ↦
            let place : max since 1 - oldest_seq log + (oldest_seq log - 1) ≡ max since 1 - 1 =
              ground (arith, s.held.positive) in
            rw (above, drop-drop (max since 1 - oldest_seq log) (oldest_seq log - 1) past, place)
      ]

  -- What may come after a log: appends, and compactions that keep the rows from `kept` on; with the
  -- ops appended.
  pub data Grown (kept : ℕ) : Log Op → Log Op → List Op → Type 0 where
    no_more : (log : Log Op) → Grown kept log log []
    more :
        (log log' : Log Op) (since ops : List Op)
        → Grown kept log log' since
        → Grown kept log (append_rewritten log' ops).0 (since ++ ops)
    compacted_below :
        (log log' log'' : Log Op) (since : List Op) (keep_from : ℕ)
        → Grown kept log log' since
        → keep_from ≤ kept
        → compact_ops_through log' keep_from ≡ ok log''
        → Grown kept log log'' since

  -- The floor does not rise above what is kept.
  abbrev Below : ℕ → Log Op → Log Op → Type 0
  Below kept log log' = oldest_seq log' ≤ max (oldest_seq log) kept

  trimmed-Below :
      (kept keep_from : ℕ) (log log' log'' : Log Op) (past : List Op)
      → IsSuffix log' past
      → keep_from ≤ kept
      → compact_ops_through log' keep_from ≡ ok log''
      → Below kept log log'
      → Below kept log log''
  trimmed-Below kept k log log' log'' past s le e h =
      elim (compact_ops_through_lem log' (drop (oldest_seq log' - 1) past) k s.held) [
        | inl (_, same) ↦
            let here : log' ≡ log'' = ok-injective log' log' log'' (sym same ∙ e) in
            subst (λ (l : Log Op). oldest_seq l ≤ max (oldest_seq log) kept) here h
        | inr (inl (l, low, high, e', held, floor, current)) ↦
            let here : l ≡ log'' = ok-injective l l log'' (sym e' ∙ e) in
            subst (λ (m : Log Op). oldest_seq m ≤ max (oldest_seq log) kept) here
              (omega (arith, floor))
        | inr (inr (_, e')) ↦ absurd (cc)
      ]

  Grown-History :
      {kept : ℕ} {log log' : Log Op} {past since : List Op}
      → History log past
      → Grown kept log log' since
      → History log' (past ++ since) × Below kept log log'
  Grown-History {past = past} h (no_more log) =
      (subst (λ p. History log p) (sym (append-nil past)) h, omega arith)
  Grown-History {past = past} h (more log log' since ops g) =
      let (k, floor) = Grown-History h g in
      (
        subst (λ p. History (append_rewritten log' ops).0 p) (append_assoc past since ops)
            (appended k ops),
        omega (arith, floor, oldest_seq-append_rewritten log' ops),
      )
  Grown-History {kept} {past = past} h (compacted_below log log' log'' since k g le e) =
      let (l, floor) = Grown-History h g in
      (
        trimmed l k e,
        trimmed-Below kept k log log' log'' (past ++ since) (History-IsSuffix l) le e floor,
      )

  -- The anchor recipe of the change feed is gap-free: a reader that took the current sequence number,
  -- and reads from the next one after any appends and any compactions that keep the rows from there
  -- on, gets the ops appended since, all of them and nothing else, and is not told `Compacted`.
  pub read_ops-Grown :
      {log log' : Log Op} {past since : List Op}
      → History log past
      → Grown (current_seq log + 1) log log' since
      → read_ops log' (current_seq log + 1) ≡ ok (number (current_seq log + 1) since)
  read_ops-Grown {log} {log'} {past} {since} h g =
      let s : IsSuffix log past = History-IsSuffix h in
      let (k, floor) = Grown-History h g in
      let above : ltb (max (current_seq log + 1) 1) (oldest_seq log') ≡ false =
        ground (arith, floor, s.floor, s.current) in
      let start : max (current_seq log + 1) 1 ≡ current_seq log + 1 = omega arith in
      let place : current_seq log + 1 - 1 ≡ length past = omega (arith, s.current) in
      read_ops-History (current_seq log + 1) k
      ∙ rw (above, start, place) (rw (drop_whole past since))
