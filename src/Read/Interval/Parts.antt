-- ===== src/Read/Interval/Parts.antt =====
-- crates/topodb/src/read.rs: `ValidInterval::from_parts` against `ValidInterval::validate`.
use topo_db.Prelude.{◌≡◌, refl, arith, Option, none, some}
use topo_db.Prelude.Int.{ℤ}
use topo_db.Prelude.Outcome.{ok}
use topo_db.Read.Interval.{ValidInterval, during, overlaps, before, after, validate, from_parts}

abbrev pub Parts : Type 0
Parts = Option (ℤ × ℤ) × Option (ℤ × ℤ) × Option ℤ × Option ℤ

-- The four parameters that stand for a predicate, or for none.
abbrev pub parts_of : Option ValidInterval → Parts
parts_of none = (none, none, none, none)
parts_of (some (during from until)) = (some (from, until), none, none, none)
parts_of (some (overlaps from until)) = (none, some (from, until), none, none)
parts_of (some (before t)) = (none, none, some t, none)
parts_of (some (after t)) = (none, none, none, some t)

abbrev pub IsValid : Option ValidInterval → Type 0
IsValid none = Unit
IsValid (some iv) = validate iv ≡ ok tt

-- A predicate that `validate` accepts is read from its own parameters.
pub from_parts-parts_of :
    (r : Option ValidInterval)
    → IsValid r
    → from_parts (parts_of r).0 (parts_of r).1 (parts_of r).2 (parts_of r).3 ≡ ok r
unfolding from_parts validate
from_parts-parts_of none h = refl
from_parts-parts_of (some (during from until)) h = ground arith
from_parts-parts_of (some (overlaps from until)) h = ground arith
from_parts-parts_of (some (before t)) h = ground arith
from_parts-parts_of (some (after t)) h = ground arith

-- What `from_parts` returns is valid and stands for all the parameters that were given.
pub from_parts_sound :
    (d o : Option (ℤ × ℤ)) (b a : Option ℤ) (r : Option ValidInterval)
    → from_parts d o b a ≡ ok r
    → (parts_of r ≡ (d, o, b, a)) × IsValid r
unfolding from_parts validate
from_parts_sound (some (x, y)) none none none r h = ground arith
from_parts_sound none none none none r h = ground arith
from_parts_sound d o b a r h = ground arith
