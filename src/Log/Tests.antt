-- ===== src/Log/Tests.antt =====
-- Runs of the op log of crates/topodb/src/storage.rs, and the theorems at concrete inputs.
use topo_db.Prelude.{
  ℕ, ◌+◌, ◌-◌, ◌≤◌, ◌<◌, ◌≡◌, refl, arith, none, some, [], ◌∷◌, drop, ltb, if◌then◌else◌, ◌⊎◌,
}
use topo_db.Prelude.Outcome.{ok, err, rejected, compacted}
use topo_db.Prelude.Rows.{last_key, insert_row}
use topo_db.Log.{
  insert_all, Log, append_rewritten, append_ops, oldest_seq, current_seq, compact_ops_through,
  read_ops,
}
use topo_db.Log.Seqs.{Holds, number, compact_ops_through_lem}
use topo_db.Log.Feed.{
  genesis, History, started, appended, trimmed, read_ops-History, read_ops-Grown, no_more, more,
  compacted_below,
}

-- Two ops, numbered 1 and 2, and the log emptied by a compaction up to 3.
abbrev two_ops : Log ℕ
two_ops = record { ops = (1, 40) ∷ (2, 50) ∷ []; oldest = none }

abbrev emptied : Log ℕ
emptied = record { ops = []; oldest = some 3 }

append_two : append_ops genesis (40 ∷ 50 ∷ []) ≡ ok (two_ops, (1, 2))
unfolding append_ops insert_all insert_row last_key
append_two = refl

compact_two : compact_ops_through two_ops 3 ≡ ok emptied
unfolding compact_ops_through last_key
compact_two = refl

-- The numbers go on after the emptying compaction.
append_after :
    append_ops emptied (60 ∷ []) ≡ ok (record { ops = (3, 60) ∷ []; oldest = some 3 }, (3, 3))
unfolding append_ops insert_all insert_row last_key
append_after = refl

two_ops-Holds : Holds two_ops (40 ∷ 50 ∷ [])
unfolding oldest_seq
two_ops-Holds = record { positive = omega arith; rows = refl }

two_ops-History : History two_ops (40 ∷ 50 ∷ [])
unfolding append_rewritten insert_all insert_row last_key
two_ops-History = appended started (40 ∷ 50 ∷ [])

emptied-History : History emptied (40 ∷ 50 ∷ [])
emptied-History = trimmed two_ops-History 3 compact_two

compact_ops_through_lem_example :
    ((3 ≤ oldest_seq two_ops) × (compact_ops_through two_ops 3 ≡ ok two_ops))
    ⊎ ((log' : Log ℕ) × (oldest_seq two_ops < 3)
        × (3 ≤ current_seq two_ops + 1)
        × (compact_ops_through two_ops 3 ≡ ok log')
        × Holds log' (drop (3 - oldest_seq two_ops) (40 ∷ 50 ∷ []))
        × (oldest_seq log' ≡ 3)
        × (current_seq log' ≡ current_seq two_ops))
    ⊎ ((current_seq two_ops + 1 < 3)
        × (compact_ops_through two_ops 3
            ≡ err (rejected "compact: keep_from exceeds current_seq + 1")))
compact_ops_through_lem_example = compact_ops_through_lem two_ops (40 ∷ 50 ∷ []) 3 two_ops-Holds

read_ops-History_example : read_ops two_ops 2 ≡ (
    if ltb 2 (oldest_seq two_ops) then err (compacted (oldest_seq two_ops)) else ok ((2, 50) ∷ []))
read_ops-History_example = read_ops-History 2 two_ops-History

-- An append and a compaction after the anchor.
abbrev one_more : Log ℕ
one_more = (append_rewritten emptied (60 ∷ [])).0

compact_more : compact_ops_through one_more 3 ≡ ok one_more
unfolding compact_ops_through append_rewritten insert_all insert_row last_key oldest_seq
compact_more = refl

emptied_current : current_seq emptied ≡ 2
unfolding current_seq last_key
emptied_current = refl

read_ops-Grown_example :
    read_ops one_more (current_seq emptied + 1) ≡ ok (number (current_seq emptied + 1) (60 ∷ []))
read_ops-Grown_example = read_ops-Grown emptied-History (
    compacted_below emptied one_more one_more (60 ∷ []) 3
      (more emptied emptied [] (60 ∷ []) (no_more emptied)) (omega (arith, emptied_current))
      compact_more)
