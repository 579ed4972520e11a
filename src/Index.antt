-- ===== src/Index.antt =====
-- crates/topodb/src/index.rs: which properties are indexed, and the values that an index can hold.
pub mod Keys
mod Tests
use topo_db.Prelude.{
  ℕ, Bool, false, ◌&&◌, ◌||◌, String, Option, none, some, List, [], ◌∷◌, if◌then◌else◌,
}
use topo_db.Prelude.Int.{ℤ}
use topo_db.Prelude.Outcome.{Result, ok, err, rejected, ◌>>◌, ◌>>=◌}
use topo_db.Op.{PropValue, str, int, float, bool, bytes, date_time}
use text.Mathlib.Text.{◌==◌ as str_eq}

pub record PropIndex : Type 0 where
  pub label : String
  pub prop : String

pub record IndexSpec : Type 0 where
  pub equality : List PropIndex
  pub text : List PropIndex

abbrev pub is_pair : String → String → PropIndex → Bool
is_pair label prop p = str_eq p.label label && str_eq p.prop prop

-- `list.iter().any(|p| p.label == label && p.prop == prop)`
unfoldable pub declares : List PropIndex → String → String → Bool
declares [] label prop = false
declares (p ∷ ps) label prop = is_pair label prop p || declares ps label prop

-- `HashSet::insert` of each pair, which is false for one that was there. The set is the list of
-- those that came before.
unfoldable pub validate_unique_loop : List PropIndex → List PropIndex → Result (Unit {0})
unfolding declares
validate_unique_loop seen [] = ok tt
validate_unique_loop seen (p ∷ ps) =
    let rest = validate_unique_loop (p ∷ seen) ps in
    if declares seen p.label p.prop then err (rejected "duplicate index declaration") else rest

unfoldable pub validate_unique : List PropIndex → Result (Unit {0})
unfolding validate_unique_loop
validate_unique entries = validate_unique_loop [] entries

unfoldable pub validate_spec : IndexSpec → Result (Unit {0})
unfolding validate_unique
validate_spec spec = do validate_unique spec.equality; validate_unique spec.text

pub data IndexValue : Type 0 where
  str_value : String → IndexValue
  int_value : ℤ → IndexValue
  bool_value : Bool → IndexValue
  bytes_value : List ℕ → IndexValue
  date_time_value : ℤ → IndexValue

-- `IndexValue::of`
unfoldable pub value_of : PropValue → Option IndexValue
value_of (str s) = some (str_value s)
value_of (int i) = some (int_value i)
value_of (float b) = none
value_of (bool b) = some (bool_value b)
value_of (bytes b) = some (bytes_value b)
value_of (date_time t) = some (date_time_value t)
