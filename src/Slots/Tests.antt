-- ===== src/Slots/Tests.antt =====
-- Runs of the functions of crates/topodb/src/slots.rs, and the theorems at concrete inputs.
use topo_db.Prelude.{ℕ, ◌≢◌, ◌<◌, ◌≡◌, refl, none, some}
use topo_db.Prelude.Table.{insert, remove, nat_key}
use topo_db.Prelude.Outcome.{ok}
use topo_db.Slots.{Slots, alloc, remove_mapping}
use topo_db.Slots.Laws.{IsBijective, none_yet, none_yet-IsBijective, alloc_lem}
use topo_db.Slots.History.{no_step, allocated, remove_mapping_retires}

-- The slots of the id 9: 0 in the tables, and 1 is the next one.
abbrev one_slot : Slots
one_slot = record {
  forward = insert (λ id. none) 9 0;
  reverse = insert (λ slot. none) 0 9;
  counter = some 1;
}

alloc_nine : alloc none_yet 9 ≡ ok (0, one_slot)
unfolding alloc
alloc_nine = refl

one_slot-IsBijective : IsBijective one_slot
one_slot-IsBijective = (alloc_lem none_yet one_slot 9 0 none_yet-IsBijective alloc_nine).0

one_slot_nine : one_slot.forward 9 ≡ some 0
unfolding insert
one_slot_nine = refl

-- The slot of a removed id is not given out again, not even to the same id.
alloc_again :
    alloc (remove_mapping one_slot 9) 9
    ≡ ok (
      1,
      record {
        forward = insert (remove_mapping one_slot 9).forward 9 1;
        reverse = insert (remove_mapping one_slot 9).reverse 1 9;
        counter = some 2;
      },
    )
unfolding alloc remove_mapping insert remove
alloc_again = refl

abbrev two_slots : Slots
two_slots = record {
  forward = insert (remove_mapping one_slot 9).forward 9 1;
  reverse = insert (remove_mapping one_slot 9).reverse 1 9;
  counter = some 2;
}

-- The slot 0 stays retired after the id 9 has come back.
remove_mapping_retires_example :
    ((remove_mapping one_slot 9).forward 9 ≡ none)
    × ((j : ℕ) → j ≢ 9 → (remove_mapping one_slot 9).forward j ≡ one_slot.forward j)
    × IsBijective two_slots
    × ((j : ℕ) → two_slots.forward j ≢ some 0)
    × ((j new_slot : ℕ) (u : Slots)
        → two_slots.forward j ≡ none
        → alloc two_slots j ≡ ok (new_slot, u)
        → 0 < new_slot)
remove_mapping_retires_example =
    remove_mapping_retires one_slot two_slots 9 0 one_slot-IsBijective one_slot_nine (
      allocated (remove_mapping one_slot 9) (remove_mapping one_slot 9) two_slots 9 1
        (no_step (remove_mapping one_slot 9)) alloc_again)
