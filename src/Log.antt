-- ===== src/Log.antt =====
-- crates/topodb/src/storage.rs: the op log and its sequence numbers. The table `OPS` is the list of
-- its rows in key order; `oldest` is the row "oldest_seq" of `META`, absent before the first
-- compaction. Each function is the body of one redb transaction.
pub mod Seqs
pub mod Feed
mod Tests
use topo_db.Prelude.{
  ℕ, zero, suc, ◌+◌, ◌-◌, max, Option, none, some, List, [], ◌∷◌, ◌++◌, length, ltb, leb, ◌==◌,
  if◌then◌else◌,
}
use topo_db.Prelude.Rows.{last_key, insert_row}
use topo_db.Prelude.Outcome.{Result, ok, err, rejected, compacted}

pub record Log (Op : Type 0) : Type 0 where
  pub ops : List (ℕ × Op)
  pub oldest : Option ℕ

-- An absent row means that the log was never compacted.
unfoldable pub read_oldest_seq : Option ℕ → ℕ
read_oldest_seq none = 1
read_oldest_seq (some seq) = seq

abbrev pub after_last : Option ℕ → ℕ
after_last none = 1
after_last (some k) = k + 1

abbrev pub last_or_zero : Option ℕ → ℕ
last_or_zero none = 0
last_or_zero (some k) = k

module _ {Op : Type 0} where
  -- `for (i, op) in ops.iter().enumerate()`
  unfoldable pub insert_all : List (ℕ × Op) → ℕ → List Op → List (ℕ × Op)
  insert_all rows next [] = rows
  insert_all rows next (op ∷ ops) = insert_all (insert_row rows next op) (next + 1) ops

  -- One past the last key, clamped up to the floor.
  unfoldable pub next_seq : Log Op → ℕ
  unfolding read_oldest_seq
  next_seq log = max (after_last (last_key log.ops)) (read_oldest_seq log.oldest)

  -- The log append at the end of a batch, which may have nothing left to write: the new log and
  -- `(first_seq, last_seq)`.
  unfoldable pub append_rewritten : Log Op → List Op → Log Op × (ℕ × ℕ)
  unfolding next_seq
  append_rewritten log [] = (log, (next_seq log, next_seq log - 1))
  append_rewritten log (op ∷ ops) =
      let next = next_seq log in
      (
        record log { ops = insert_all log.ops next (op ∷ ops) },
        (next, next + length (op ∷ ops) - 1),
      )

  unfoldable pub append_ops : Log Op → List Op → Result (Log Op × (ℕ × ℕ))
  unfolding append_rewritten
  append_ops log [] = err (rejected "empty op batch")
  append_ops log (op ∷ ops) = ok (append_rewritten log (op ∷ ops))

  unfoldable pub oldest_seq : Log Op → ℕ
  unfolding read_oldest_seq
  oldest_seq log = read_oldest_seq log.oldest

  unfoldable pub current_seq : Log Op → ℕ
  unfolding oldest_seq
  current_seq log = max (last_or_zero (last_key log.ops)) (oldest_seq log - 1)

  -- The rows at and above a key: what `retain_in(..key, |_, _| false)` keeps, and what
  -- `range(key..)` reads.
  unfoldable pub rows_from : ℕ → List (ℕ × Op) → List (ℕ × Op)
  rows_from key [] = []
  rows_from key ((k, op) ∷ rows) =
      if ltb k key then rows_from key rows else (k, op) ∷ rows_from key rows

  unfoldable pub compact_ops_through : Log Op → ℕ → Result (Log Op)
  unfolding oldest_seq current_seq rows_from
  compact_ops_through log keep_from =
      if leb keep_from (oldest_seq log)
      then ok log
      else if ltb (current_seq log + 1) keep_from
      then err (rejected "compact: keep_from exceeds current_seq + 1")
      else ok (record { ops = rows_from keep_from log.ops; oldest = some keep_from })

  unfoldable pub read_ops : Log Op → ℕ → Result (List (ℕ × Op))
  unfolding read_oldest_seq rows_from
  read_ops log since =
      let from = max since 1 in
      if ltb from (read_oldest_seq log.oldest)
      then err (compacted (read_oldest_seq log.oldest))
      else ok (rows_from from log.ops)
