-- ===== src/Read/Interval.antt =====
-- crates/topodb/src/read.rs: `ValidInterval`, the Allen predicates over the valid time of an edge.
pub mod Instants
pub mod Parts
mod Tests
use topo_db.Prelude.{
  ℕ, Bool, true, false, ◌&&◌, Option, none, some, String, if◌then◌else◌, ◌+◌, ltb,
}
use topo_db.Prelude.Int.{ℤ, pos, ltb_ℤ, leb_ℤ}
use topo_db.Prelude.Outcome.{Except, Result, ok, err, rejected, ◌>>◌, ◌>>=◌}

pub data ValidInterval : Type 0 where
  during : ℤ → ℤ → ValidInterval
  overlaps : ℤ → ℤ → ValidInterval
  before : ℤ → ValidInterval
  after : ℤ → ValidInterval

-- `check_ts` of `validate`
unfoldable pub check_ts : ℤ → Result (Unit {0})
check_ts t =
    if leb_ℤ t (pos 0) then err (rejected "interval timestamps must be positive Unix ms") else ok tt

unfoldable pub check_range : ℤ → ℤ → Result (Unit {0})
unfolding check_ts
check_range from until = do
  check_ts from
  check_ts until
  if leb_ℤ until from then err (rejected "inverted interval") else ok tt

unfoldable pub validate : ValidInterval → Result (Unit {0})
unfolding check_range
validate (during from until) = check_range from until
validate (overlaps from until) = check_range from until
validate (before t) = check_ts t
validate (after t) = check_ts t

-- The messages of `from_parts`, with the names that they quote.
pub data PartsError : Type 0 where
  not_positive : PartsError
  inverted : String → PartsError
  more_than_one : PartsError

-- `check_ts` and `check_range` of `from_parts`
unfoldable pub part_ts : ℤ → Except PartsError (Unit {0})
part_ts t = if leb_ℤ t (pos 0) then err not_positive else ok tt

unfoldable pub part_range : ℤ → ℤ → String → Except PartsError (Unit {0})
unfolding part_ts
part_range from until name = do
  part_ts from
  part_ts until
  if leb_ℤ until from then err (inverted name) else ok tt

abbrev pub count_some {ℓ} : {A : Type ℓ} → Option A → ℕ
count_some none = 0
count_some (some a) = 1

-- The four tests in a row, each with its return.
unfoldable pub first_part :
    Option (ℤ × ℤ) → Option (ℤ × ℤ) → Option ℤ → Option ℤ → Except PartsError (Option ValidInterval)
unfolding part_range
first_part (some (from, until)) o b a = do
  part_range from until "valid_during"
  ok (some (during from until))
first_part none (some (from, until)) b a = do
  part_range from until "valid_overlaps"
  ok (some (overlaps from until))
first_part none none (some t) a = do part_ts t; ok (some (before t))
first_part none none none (some t) = do part_ts t; ok (some (after t))
first_part none none none none = ok none

unfoldable pub from_parts :
    Option (ℤ × ℤ) → Option (ℤ × ℤ) → Option ℤ → Option ℤ → Except PartsError (Option ValidInterval)
unfolding first_part
from_parts d o b a =
    if ltb 1 (count_some d + count_some o + count_some b + count_some a)
    then err more_than_one
    else first_part d o b a

-- `valid_to.is_some_and(|vt| vt <= until)` and `valid_to.is_none_or(|vt| vt > from)`
abbrev pub ended_by : Option ℤ → ℤ → Bool
ended_by none until = false
ended_by (some vt) until = leb_ℤ vt until

abbrev pub lasts_past : Option ℤ → ℤ → Bool
lasts_past none from = true
lasts_past (some vt) from = ltb_ℤ from vt

-- The predicates on an interval that is not empty.
unfoldable pub satisfies : ValidInterval → ℤ → Option ℤ → Bool
satisfies (during from until) vf vt = leb_ℤ from vf && ended_by vt until
satisfies (overlaps from until) vf vt = ltb_ℤ vf until && lasts_past vt from
satisfies (before t) vf vt = ended_by vt t
satisfies (after t) vf vt = leb_ℤ t vf

-- Empty intervals match no predicate.
unfoldable pub matches : ValidInterval → ℤ → Option ℤ → Bool
unfolding satisfies
matches iv vf none = satisfies iv vf none
matches iv vf (some vt) = if leb_ℤ vt vf then false else satisfies iv vf (some vt)
