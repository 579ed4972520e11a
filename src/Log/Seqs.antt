-- ===== src/Log/Seqs.antt =====
-- crates/topodb/src/storage.rs: the sequence numbers of the op log.
use topo_db.Prelude.{
  ℕ, suc, ◌+◌, ◌-◌, ◌≤◌, ◌<◌, max, ◌≡◌, refl, ap, arith, some, List, [], ◌∷◌, ◌++◌, length,
  length-append, drop, drop-nil, Bool-cases, inl, inr, ◌⊎◌, length-drop, ltb→lt, leb→le, ltb, leb,
  if◌then◌else◌,
}
use topo_db.Prelude.Outcome.{ok, err, rejected, compacted}
use topo_db.Prelude.Rows.{last_key, insert_row}
use topo_db.Log.{
  Log, insert_all, next_seq, append_rewritten, oldest_seq, current_seq, rows_from,
  compact_ops_through, read_ops,
}
use mathlib.Core.List.{append_assoc, append-nil}

module _ {Op : Type 0} where
  -- The ops in order, numbered from `n` on.
  abbrev pub number : ℕ → List Op → List (ℕ × Op)
  number n [] = []
  number n (op ∷ ops) = (n, op) ∷ number (n + 1) ops

  -- The log holds `kept` under the numbers from the floor on, and the floor is positive.
  pub record Holds (log : Log Op) (kept : List Op) : Type 0 where
    pub positive : 1 ≤ oldest_seq log
    pub rows : log.ops ≡ number (oldest_seq log) kept

  last_key-number :
      (n : ℕ) (x : Op) (xs : List Op) → last_key (number n (x ∷ xs)) ≡ some (n + length xs)
  unfolding last_key
  last_key-number n x [] = ground arith
  last_key-number n x (y ∷ ys) = ground (arith, last_key-number (n + 1) y ys)

  insert_row_end :
      (n : ℕ) (xs : List Op) (op : Op)
      → insert_row (number n xs) (n + length xs) op ≡ number n (xs ++ op ∷ [])
  unfolding insert_row
  insert_row_end n [] op = ground arith
  insert_row_end n (x ∷ xs) op = ground (arith, insert_row_end (n + 1) xs op)

  insert_all_end :
      (ops : List Op) (n : ℕ) (xs : List Op)
      → insert_all (number n xs) (n + length xs) ops ≡ number n (xs ++ ops)
  unfolding insert_all
  insert_all_end [] n xs = rw append-nil
  insert_all_end (op ∷ ops) n xs = ground (
    arith,
    insert_row_end n xs op,
    length-append xs (op ∷ []),
    append_assoc xs (op ∷ []) ops,
    insert_all_end ops n (xs ++ op ∷ []),
  )

  rows_from_all : (key m : ℕ) (xs : List Op) → key ≤ m → rows_from key (number m xs) ≡ number m xs
  unfolding rows_from
  rows_from_all key m [] h = refl
  rows_from_all key m (x ∷ xs) h = ground (arith, rows_from_all key (m + 1) xs)

  drop_next :
      (key n : ℕ) (x : Op) (xs : List Op)
      → n < key
      → drop (key - n) (x ∷ xs) ≡ drop (key - (n + 1)) xs
  drop_next key n x xs h = let e : key - n ≡ suc (key - (n + 1)) = omega arith in rw e

  -- The rows at and above a key, by number.
  pub rows_from-number :
      (key n : ℕ) (xs : List Op)
      → n ≤ key
      → rows_from key (number n xs) ≡ number key (drop (key - n) xs)
  unfolding rows_from
  rows_from-number key n [] h = rw (drop-nil {A = Op} (key - n))
  rows_from-number key n (x ∷ xs) h = elim (Bool-cases (ltb n key)) [
    | inl low ↦ ground (arith, drop_next key n x xs, rows_from-number key (n + 1) xs)
    | inr high ↦
        let e : key ≡ n = ground arith in
        let z : key - n ≡ 0 = omega arith in
        rw (z, high) (rw (rows_from_all key (n + 1) xs (omega arith)) (rw e))
  ]

  pub last_key-Holds :
      (log : Log Op) (kept : List Op)
      → Holds log kept
      → (next_seq log ≡ oldest_seq log + length kept)
        × (current_seq log + 1 ≡ oldest_seq log + length kept)
  unfolding next_seq current_seq
  last_key-Holds log [] h = rw h.rows (unfold last_key in ground (arith, h.positive))
  last_key-Holds log (x ∷ xs) h =
      rw h.rows (ground (arith, last_key-number (oldest_seq log) x xs, h.positive))

  append_rewritten-Holds :
      (log : Log Op) (kept ops : List Op)
      → Holds log kept
      → Holds (append_rewritten log ops).0 (kept ++ ops)
  unfolding append_rewritten oldest_seq
  append_rewritten-Holds log kept [] h = rw append-nil h
  append_rewritten-Holds log kept (op ∷ ops) h = record {
    positive = h.positive;
    rows =
        rw ((last_key-Holds log kept h).0, h.rows)
          (insert_all_end (op ∷ ops) (oldest_seq log) kept);
  }

  -- An append leaves the floor.
  pub oldest_seq-append_rewritten :
      (log : Log Op) (ops : List Op) → oldest_seq (append_rewritten log ops).0 ≡ oldest_seq log
  unfolding append_rewritten oldest_seq
  oldest_seq-append_rewritten log [] = refl
  oldest_seq-append_rewritten log (op ∷ ops) = refl

  -- Appending `ops` to a log of contiguous rows keeps them contiguous, behind the rows that were
  -- there. The numbers returned are those after the current one, and the last is the current one
  -- then; if `ops` is empty, the range is empty.
  pub append_rewritten_lem :
      (log : Log Op) (kept ops : List Op)
      → Holds log kept
      → Holds (append_rewritten log ops).0 (kept ++ ops)
        × ((append_rewritten log ops).1.0 ≡ current_seq log + 1)
        × ((append_rewritten log ops).1.1 ≡ current_seq log + length ops)
        × (current_seq (append_rewritten log ops).0 ≡ current_seq log + length ops)
  append_rewritten_lem log kept ops h = (
    append_rewritten-Holds log kept ops h,
    first log kept ops h,
    last log kept ops h,
    omega (
      arith,
      (last_key-Holds (append_rewritten log ops).0 (kept ++ ops)
          (append_rewritten-Holds log kept ops h)).1,
      (last_key-Holds log kept h).1,
      length-append kept ops,
      oldest_seq-append_rewritten log ops,
    ),
  )
    where
      first :
          (log : Log Op) (kept ops : List Op)
          → Holds log kept
          → (append_rewritten log ops).1.0 ≡ current_seq log + 1
      first log kept [] h = unfold append_rewritten in omega (arith, last_key-Holds log kept h)
      first log kept (op ∷ ops) h =
          unfold append_rewritten in omega (arith, last_key-Holds log kept h)

      last :
          (log : Log Op) (kept ops : List Op)
          → Holds log kept
          → (append_rewritten log ops).1.1 ≡ current_seq log + length ops
      last log kept [] h = unfold append_rewritten in omega (arith, last_key-Holds log kept h)
      last log kept (op ∷ ops) h =
          unfold append_rewritten in omega (arith, last_key-Holds log kept h)

  compact-current :
      (log : Log Op) (kept : List Op) (keep_from : ℕ)
      → Holds log kept
      → oldest_seq log < keep_from
      → keep_from ≤ current_seq log + 1
      → Holds
          (record { ops = rows_from keep_from log.ops; oldest = some keep_from })
          (drop (keep_from - oldest_seq log) kept)
  unfolding oldest_seq
  compact-current log kept k h low high = record {
    positive = omega arith;
    rows = rw h.rows (rows_from-number k (oldest_seq log) kept (omega arith));
  }

  -- Compaction up to a key in range drops the rows below it and moves the floor there. The current
  -- sequence number stays, also if no row is left. A key at or below the floor changes nothing, and
  -- one past the end is rejected.
  pub compact_ops_through_lem :
      (log : Log Op) (kept : List Op) (keep_from : ℕ)
      → Holds log kept
      → ((keep_from ≤ oldest_seq log) × (compact_ops_through log keep_from ≡ ok log))
        ⊎ ((log' : Log Op) × (oldest_seq log < keep_from)
            × (keep_from ≤ current_seq log + 1)
            × (compact_ops_through log keep_from ≡ ok log')
            × Holds log' (drop (keep_from - oldest_seq log) kept)
            × (oldest_seq log' ≡ keep_from)
            × (current_seq log' ≡ current_seq log))
        ⊎ ((current_seq log + 1 < keep_from)
            × (compact_ops_through log keep_from
                ≡ err (rejected "compact: keep_from exceeds current_seq + 1")))
  compact_ops_through_lem log kept k h = elim (Bool-cases (leb k (oldest_seq log))) [
    | inl old ↦ inl (leb→le _ _ old, unfold compact_ops_through in rw old)
    | inr new ↦ elim (Bool-cases (ltb (current_seq log + 1) k)) [
      | inl past ↦ inr (inr (ltb→lt _ _ past, unfold compact_ops_through in rw (new, past)))
      | inr fits ↦
          let log' : Log Op = record { ops = rows_from k log.ops; oldest = some k } in
          let low : oldest_seq log < k = ground arith in
          let high : k ≤ current_seq log + 1 = ground arith in
          let held : Holds log' (drop (k - oldest_seq log) kept) =
            compact-current log kept k h low high in
          let floor : oldest_seq log' ≡ k = unfold oldest_seq in refl in
          inr (
            inl (
              log',
              low,
              high,
              unfold compact_ops_through in rw (new, fits),
              held,
              floor,
              omega (
                arith,
                floor,
                (last_key-Holds log' (drop (k - oldest_seq log) kept) held).1,
                (last_key-Holds log kept h).1,
                length-drop (k - oldest_seq log) kept,
              ),
            ))
    ]
  ]

  -- A read at `since`, where 0 counts as 1, is `Compacted` below the floor, and otherwise returns
  -- exactly the rows from `since` on.
  pub read_ops_lem :
      (log : Log Op) (kept : List Op) (since : ℕ)
      → Holds log kept
      → read_ops log since ≡ (
          if ltb (max since 1) (oldest_seq log)
          then err (compacted (oldest_seq log))
          else ok (number (max since 1) (drop (max since 1 - oldest_seq log) kept)))
  unfolding read_ops oldest_seq
  read_ops_lem log kept since h = elim (Bool-cases (ltb (max since 1) (oldest_seq log))) [
    | inl below ↦ rw below
    | inr above ↦
        rw (above, h.rows)
          (ap ok (rows_from-number (max since 1) (oldest_seq log) kept (ground arith)))
  ]
