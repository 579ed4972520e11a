-- ===== src/Read/Interval/Tests.antt =====
-- Runs of the functions of crates/topodb/src/read.rs, and the theorems at concrete inputs.
use topo_db.Prelude.{◌≡◌, ◌↔◌, refl, arith, true, false, none, some}
use topo_db.Prelude.Int.{ℤ, pos, ◌≤ℤ◌, ◌<ℤ◌}
use topo_db.Prelude.Outcome.{ok, err}
use topo_db.Read.Interval.{during, overlaps, validate, from_parts, matches, more_than_one}
use topo_db.Read.Interval.Instants.{visible_at, overlaps_iff_visible}
use topo_db.Read.Interval.Parts.{IsValid, parts_of, from_parts-parts_of, from_parts_sound}

closed_edge : matches (during (pos 100) (pos 200)) (pos 150) (some (pos 180)) ≡ true
unfolding matches
closed_edge = refl

-- The edge that closes at the start of the query interval does not overlap it.
touching_edge : matches (overlaps (pos 100) (pos 200)) (pos 50) (some (pos 100)) ≡ false
unfolding matches
touching_edge = refl

two_parts : from_parts none none (some (pos 1)) (some (pos 2)) ≡ err more_than_one
unfolding from_parts
two_parts = refl

overlaps_iff_visible_example :
    (matches (overlaps (pos 100) (pos 200)) (pos 150) none ≡ true)
    ↔ ((t : ℤ) × (pos 100 ≤ℤ t) × (t <ℤ pos 200) × (visible_at t (pos 150) none ≡ true))
overlaps_iff_visible_example = overlaps_iff_visible (pos 100) (pos 200) (pos 150) none (omega arith)

during-IsValid : IsValid (some (during (pos 1) (pos 2)))
unfolding validate
during-IsValid = refl

from_parts_during :
    from_parts (some (pos 1, pos 2)) none none none ≡ ok (some (during (pos 1) (pos 2)))
from_parts_during = from_parts-parts_of (some (during (pos 1) (pos 2))) during-IsValid

from_parts-parts_of_example :
    from_parts (some (pos 1, pos 2)) none none none ≡ ok (some (during (pos 1) (pos 2)))
from_parts-parts_of_example = from_parts-parts_of (some (during (pos 1) (pos 2))) during-IsValid

from_parts_sound_example :
    (parts_of (some (during (pos 1) (pos 2))) ≡ (some (pos 1, pos 2), none, none, none))
    × IsValid (some (during (pos 1) (pos 2)))
from_parts_sound_example =
    from_parts_sound (some (pos 1, pos 2)) none none none (some (during (pos 1) (pos 2)))
      from_parts_during
