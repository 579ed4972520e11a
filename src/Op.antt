-- ===== src/Op.antt =====
-- crates/topodb/src/op.rs and crates/topodb/src/props.rs: the mutations and the values of properties.
-- Floats are their bit patterns. A `BTreeMap` that the code iterates over is its ascending list.
pub mod Resolve
pub mod Upsert
pub mod Validate
mod Tests
use topo_db.Prelude.{
  ℕ, suc, ◌+◌, ◌-◌, ◌*◌, ◌/◌, ◌%◌, ◌^◌, Bool, true, false, not, ◌&&◌, ◌||◌, String, Option, none,
  some, List, [], ◌∷◌, ◌==◌, if◌then◌else◌,
}
use topo_db.Prelude.Int.{ℤ, pos, negsuc}
use topo_db.Ids.{Scope}
use text.Mathlib.Text.{◌==◌ as str_eq}

pub data PropValue : Type 0 where
  str : String → PropValue
  int : ℤ → PropValue
  float : ℕ → PropValue
  bool : Bool → PropValue
  bytes : List ℕ → PropValue
  date_time : ℤ → PropValue

-- `==` of `f64`: a NaN equals nothing, and the two zeros are equal.
abbrev pub is_nan : ℕ → Bool
is_nan b = b / 2 ^ 52 % 2048 == 2047 && not (b % 2 ^ 52 == 0)

abbrev pub is_zero : ℕ → Bool
is_zero b = b % 2 ^ 63 == 0

abbrev pub same_float : ℕ → ℕ → Bool
same_float a b = not (is_nan a) && not (is_nan b) && (a == b || (is_zero a && is_zero b))

abbrev pub same_int : ℤ → ℤ → Bool
same_int (pos a) (pos b) = a == b
same_int (negsuc a) (negsuc b) = a == b
same_int _ _ = false

abbrev pub same_bool : Bool → Bool → Bool
same_bool true b = b
same_bool false b = not b

abbrev pub same_bytes : List ℕ → List ℕ → Bool
same_bytes [] [] = true
same_bytes (a ∷ as') (b ∷ bs) = a == b && same_bytes as' bs
same_bytes _ _ = false

-- The derived `PartialEq`.
unfoldable pub same_prop : PropValue → PropValue → Bool
same_prop (str a) (str b) = str_eq a b
same_prop (int a) (int b) = same_int a b
same_prop (float a) (float b) = same_float a b
same_prop (bool a) (bool b) = same_bool a b
same_prop (bytes a) (bytes b) = same_bytes a b
same_prop (date_time a) (date_time b) = same_int a b
same_prop _ _ = false

abbrev pub Props : Type 0
Props = List (String × PropValue)

-- `props.get(key)`
unfoldable pub get_prop : Props → String → Option PropValue
get_prop [] key = none
get_prop ((k, v) ∷ props) key = if str_eq k key then some v else get_prop props key

-- The fields of an edge that an op or a record carries.
pub record EdgeSpec : Type 0 where
  pub id : ℕ
  pub scope : Scope
  pub ty : String
  pub from : ℕ
  pub to : ℕ
  pub props : Props

pub data Op : Type 0 where
  create_node : ℕ → Scope → String → Props → Op
  set_node_props : ℕ → List (String × Option PropValue) → Op
  set_embedding : ℕ → String → List ℕ → Op
  remove_node : ℕ → Op
  -- The edge, `valid_from` and `recorded_at`.
  create_edge : EdgeSpec → Option ℤ → Option ℤ → Op
  -- The edge's id, `valid_to` and `superseded_at`.
  close_edge : ℕ → Option ℤ → Option ℤ → Op
  -- The id, the scope, the label, the key property and the properties.
  upsert_node : ℕ → Scope → String → String → Props → Op
