-- ===== src/Slots.antt =====
-- crates/topodb/src/slots.rs: dense slots for the 128-bit ids of nodes and edges, as two tables that
-- are inverse to one another and a counter. Nodes and edges each have such a set; the two counters
-- are rows of `META`. A slot or an id is its number: the fixed-width keys are read back as written.
pub mod Laws
pub mod History
mod Tests
use topo_db.Prelude.{ℕ, ◌+◌, ◌^◌, Option, none, some, ltb, if◌then◌else◌}
use topo_db.Prelude.Table.{Table, insert, remove, nat_key}
use topo_db.Prelude.Outcome.{Result, ok, err, encoding}

pub record Slots : Type 0 where
  pub forward : Table ℕ ℕ
  pub reverse : Table ℕ ℕ
  pub counter : Option ℕ

-- The row of the counter is absent before the first allocation.
abbrev pub next_slot : Option ℕ → ℕ
next_slot none = 0
next_slot (some slot) = slot

-- `checked_add(1)` of a `u64`, then the three writes.
unfoldable pub alloc_fresh : Slots → ℕ → ℕ → Result (ℕ × Slots)
alloc_fresh s id slot =
    if ltb (slot + 1) (2 ^ 64)
    then ok (
      slot,
      record {
        forward = insert s.forward id slot;
        reverse = insert s.reverse slot id;
        counter = some (slot + 1);
      },
    )
    else err (encoding "slot space exhausted")

unfoldable pub alloc_found : Slots → ℕ → Option ℕ → Result (ℕ × Slots)
unfolding alloc_fresh
alloc_found s id (some slot) = ok (slot, s)
alloc_found s id none = alloc_fresh s id (next_slot s.counter)

unfoldable pub alloc : Slots → ℕ → Result (ℕ × Slots)
unfolding alloc_found
alloc s id = alloc_found s id (s.forward id)

unfoldable pub remove_found : Slots → ℕ → Option ℕ → Slots
remove_found s id none = s
remove_found s id (some slot) = record s {
  forward = remove s.forward id;
  reverse = remove s.reverse slot;
}

unfoldable pub remove_mapping : Slots → ℕ → Slots
unfolding remove_found
remove_mapping s id = remove_found s id (s.forward id)
