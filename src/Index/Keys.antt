-- ===== src/Index/Keys.antt =====
-- crates/topodb/src/prop_index.rs: the keys of the equality index, its maintenance and its lookup.
-- A text is its code points. The lower case of a text, which needs the tables of Unicode, is an
-- argument.
pub mod Exact
pub mod Upkeep
pub mod Spec
pub mod Declared
use Prim.Native.Char.{code}
use Prim.Native.Nat.{bit_xor}
use Prim.Native.String
use topo_db.Prelude.{
  ℕ, ◌+◌, ◌-◌, ◌/◌, ◌%◌, ◌^◌, Bool, true, false, ◌&&◌, ◌||◌, Option, none, some, List, [], ◌∷◌,
  ◌++◌, length, drop, ltb, leb, ◌==◌, if◌then◌else◌,
}
use topo_db.Prelude.Int.{ℤ, as_u64}
use topo_db.Prelude.Bytes.{
  Bytes, be_bytes, of_be, starts_with, KeyTable, insert_key, remove_key, range_keys,
}
use topo_db.Op.{PropValue, Props}
use topo_db.Registry.Dicts.{Dicts, prop_key, mirror_of}
use topo_db.Read.Traverse.{NodeRecord}
use topo_db.Index.{
  IndexSpec, declares, IndexValue, str_value, int_value, bool_value, bytes_value, date_time_value,
  value_of,
}

abbrev pub codes : String.String → List ℕ
codes String.[] = []
codes (String.◌∷◌ c s) = code c ∷ codes s

-- `char::is_whitespace`, the property White_Space of Unicode
unfoldable pub is_whitespace : ℕ → Bool
is_whitespace c =
    (leb 9 c && leb c 13)
    || c == 32
    || c == 0x85
    || c == 0xA0
    || c == 0x1680
    || (leb 0x2000 c && leb c 0x200A)
    || c == 0x2028
    || c == 0x2029
    || c == 0x202F
    || c == 0x205F
    || c == 0x3000

-- A word that is read goes before the words after it, unless it is empty.
abbrev pub push_word : List ℕ → List (List ℕ) → List (List ℕ)
push_word [] ws = ws
push_word (c ∷ cs) ws = (c ∷ cs) ∷ ws

-- The word at the start, and the words after it.
unfoldable pub scan_words : List ℕ → List ℕ × List (List ℕ)
unfolding is_whitespace
scan_words [] = ([], [])
scan_words (c ∷ cs) =
    let (w, ws) = scan_words cs in if is_whitespace c then ([], push_word w ws) else (c ∷ w, ws)

unfoldable pub split_whitespace : List ℕ → List (List ℕ)
unfolding scan_words
split_whitespace cs = let (w, ws) = scan_words cs in push_word w ws

abbrev pub more_words : List ℕ → List (List ℕ) → List ℕ
more_words joined [] = []
more_words joined (w ∷ ws) = 32 ∷ joined

-- `if i > 0 { out.push(' ') }`, and the word
unfoldable pub join_words : List (List ℕ) → List ℕ
join_words [] = []
join_words (w ∷ ws) = w ++ more_words (join_words ws) ws

-- The bytes of a code point in UTF-8.
unfoldable pub utf8_char : ℕ → Bytes
utf8_char c =
    if ltb c 0x80
    then c ∷ []
    else if ltb c 0x800
    then (0xC0 + c / 64) ∷ (0x80 + c % 64) ∷ []
    else if ltb c 0x10000
    then (0xE0 + c / 4096) ∷ (0x80 + c / 64 % 64) ∷ (0x80 + c % 64) ∷ []
    else (0xF0 + c / 262144) ∷ (0x80 + c / 4096 % 64) ∷ (0x80 + c / 64 % 64) ∷ (0x80 + c % 64) ∷ []

unfoldable pub utf8 : List ℕ → Bytes
unfolding utf8_char
utf8 [] = []
utf8 (c ∷ cs) = utf8_char c ++ utf8 cs

-- `(*value as u64) ^ (1 << 63)`
unfoldable pub flip_sign : ℤ → ℕ
flip_sign i = bit_xor (as_u64 i) (2 ^ 63)

abbrev pub bool_byte : Bool → ℕ
bool_byte true = 1
bool_byte false = 0

-- The loop of `lookup` over the range.
unfoldable pub slots_of : Bytes → KeyTable → List ℕ
unfolding starts_with of_be
slots_of prefix [] = []
slots_of prefix (key ∷ keys) =
    let rest = slots_of prefix keys in
    if starts_with key prefix && length key == length prefix + 8
    then of_be 0 (drop (length prefix) key) ∷ rest
    else rest

module _ (to_lowercase : List ℕ → List ℕ) where
  unfoldable pub normalize_str : List ℕ → List ℕ
  unfolding join_words split_whitespace
  normalize_str s = to_lowercase (join_words (split_whitespace s))

  unfoldable pub value_bytes : IndexValue → Bytes
  unfolding normalize_str utf8 flip_sign be_bytes
  value_bytes (str_value s) = 0 ∷ utf8 (normalize_str (codes s))
  value_bytes (int_value i) = 1 ∷ be_bytes 8 (flip_sign i)
  value_bytes (bool_value b) = 2 ∷ bool_byte b ∷ []
  value_bytes (bytes_value b) = 3 ∷ b
  value_bytes (date_time_value t) = 4 ∷ be_bytes 8 (flip_sign t)

  unfoldable pub index_prefix : ℕ → IndexValue → Bytes
  unfolding value_bytes be_bytes
  index_prefix prop value = be_bytes 4 prop ++ value_bytes value

  unfoldable pub index_key : ℕ → IndexValue → ℕ → Bytes
  unfolding index_prefix be_bytes
  index_key prop value slot = index_prefix prop value ++ be_bytes 8 slot

  unfoldable pub lookup : KeyTable → ℕ → IndexValue → List ℕ
  unfolding index_prefix be_bytes slots_of range_keys
  lookup table prop value =
      let prefix = index_prefix prop value in
      slots_of prefix
        (range_keys (prefix ++ be_bytes 8 0) (prefix ++ be_bytes 8 (2 ^ 64 - 1)) table)

  -- The key of a property of the node, or none where one of the three tests skips it.
  unfoldable pub entry_key : Option ℕ → Option IndexValue → ℕ → Option Bytes
  unfolding index_key
  entry_key none value slot = none
  entry_key (some prop) none slot = none
  entry_key (some prop) (some value) slot = some (index_key prop value slot)

  unfoldable pub prop_entry :
      IndexSpec → Dicts → NodeRecord → String.String → PropValue → ℕ → Option Bytes
  unfolding entry_key declares mirror_of value_of
  prop_entry spec dicts node key value slot =
      if declares spec.equality node.label key
      then entry_key ((mirror_of dicts prop_key).by_key key) (value_of value) slot
      else none

  abbrev pub insert_entry : KeyTable → Option Bytes → KeyTable
  insert_entry table none = table
  insert_entry table (some key) = insert_key table key

  abbrev pub remove_entry : KeyTable → Option Bytes → KeyTable
  remove_entry table none = table
  remove_entry table (some key) = remove_key table key

  unfoldable pub index_props : KeyTable → IndexSpec → Dicts → NodeRecord → ℕ → Props → KeyTable
  unfolding prop_entry insert_key
  index_props table spec dicts node slot [] = table
  index_props table spec dicts node slot ((key, value) ∷ props) =
      index_props (insert_entry table (prop_entry spec dicts node key value slot)) spec dicts node
        slot props

  unfoldable pub index_node : KeyTable → IndexSpec → Dicts → NodeRecord → ℕ → KeyTable
  unfolding index_props
  index_node table spec dicts node slot = index_props table spec dicts node slot node.props

  unfoldable pub unindex_props : KeyTable → IndexSpec → Dicts → NodeRecord → ℕ → Props → KeyTable
  unfolding prop_entry remove_key
  unindex_props table spec dicts node slot [] = table
  unindex_props table spec dicts node slot ((key, value) ∷ props) =
      unindex_props (remove_entry table (prop_entry spec dicts node key value slot)) spec dicts node
        slot props

  unfoldable pub unindex_node : KeyTable → IndexSpec → Dicts → NodeRecord → ℕ → KeyTable
  unfolding unindex_props
  unindex_node table spec dicts node slot = unindex_props table spec dicts node slot node.props
