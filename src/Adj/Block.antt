-- ===== src/Adj/Block.antt =====
-- crates/topodb/src/adj.rs: `AdjEntryDisk`, `encode_block` and `decode_block`.
pub mod Entry
pub mod RoundTrip
pub mod Sizes
use topo_db.Prelude.{
  ℕ, zero, suc, ◌+◌, ◌-◌, ◌^◌, Bool, false, ◌||◌, Option, none, some, List, [], ◌∷◌, ◌++◌, length,
  ltb, leb, ◌==◌, if◌then◌else◌,
}
use topo_db.Prelude.Outcome.{Result, ok, err, encoding, ◌>>=◌}
use topo_db.Adj.Codec.{u64_mod, write_varint, read_varint, zigzag, unzigzag}

pub record AdjEntry : Type 0 where
  pub target : ℕ
  pub edge : ℕ
  pub scope : ℕ
  pub valid_from : ℕ
  pub valid_to : Option ℕ

-- The byte that tells an open edge from a closed one, and the end of a closed one.
unfoldable pub write_valid_to : List ℕ → Option ℕ → List ℕ
write_valid_to out none = out ++ 0 ∷ []
write_valid_to out (some valid_to) = write_varint (out ++ 1 ∷ []) (zigzag valid_to)

unfoldable pub write_entry : List ℕ → ℕ → AdjEntry → List ℕ
write_entry out delta entry =
    let head = write_varint (write_varint (write_varint out delta) entry.edge) entry.scope in
    write_valid_to (write_varint head (zigzag entry.valid_from)) entry.valid_to

-- The loop over the entries, with the `checked_sub` of the targets.
unfoldable pub encode_entries : List ℕ → ℕ → List AdjEntry → Result (List ℕ)
encode_entries out previous [] = ok out
encode_entries out previous (entry ∷ entries) =
    if ltb entry.target previous
    then err (encoding "adjacency target underflow")
    else encode_entries (write_entry out (entry.target - previous) entry) entry.target entries

-- `entries.windows(2).any(...)`
unfoldable pub is_unsorted : List AdjEntry → Bool
is_unsorted [] = false
is_unsorted (first ∷ []) = false
is_unsorted (first ∷ second ∷ rest) = ltb second.target first.target || is_unsorted (second ∷ rest)

unfoldable pub encode_block : List AdjEntry → Result (List ℕ)
unfolding encode_entries
encode_block entries =
    if is_unsorted entries
    then err (encoding "adjacency entries are not target-sorted")
    else encode_entries (write_varint (0 ∷ []) (length entries)) 0 entries

unfoldable pub read_valid_to : List ℕ → Result (Option ℕ × List ℕ)
read_valid_to [] = err (encoding "truncated adjacency valid_to tag")
read_valid_to (tag ∷ rest) =
    if tag == 0
    then ok (none, rest)
    else if tag == 1
    then (do (valid_to, rest') ← read_varint rest; ok (some (unzigzag valid_to), rest'))
    else err (encoding "bad adjacency valid_to tag")

-- `checked_add` of a `u64`, and `u32::try_from`
abbrev pub checked_add : ℕ → ℕ → Result ℕ
checked_add a b =
    if ltb (a + b) u64_mod then ok (a + b) else err (encoding "adjacency target overflow")

abbrev pub try_u32 : ℕ → Result ℕ
try_u32 v = if ltb v (2 ^ 32) then ok v else err (encoding "adjacency scope too large")

unfoldable pub read_entry : List ℕ → ℕ → Result (AdjEntry × List ℕ)
unfolding read_valid_to
read_entry input previous = do
  (delta, input₁) ← read_varint input
  target ← checked_add previous delta
  (edge, input₂) ← read_varint input₁
  (scope_raw, input₃) ← read_varint input₂
  scope ← try_u32 scope_raw
  (valid_from, input₄) ← read_varint input₃
  (valid_to, input₅) ← read_valid_to input₄
  ok (
    record {
      target = target;
      edge = edge;
      scope = scope;
      valid_from = unzigzag valid_from;
      valid_to = valid_to;
    },
    input₅,
  )

-- `count` rounds; the entries read so far stand in `entries`.
unfoldable pub decode_entries : ℕ → List ℕ → ℕ → List AdjEntry → Result (List AdjEntry × List ℕ)
decode_entries zero input target entries = ok (entries, input)
decode_entries (suc count) input target entries = do
  (entry, rest) ← read_entry input target
  decode_entries count rest entry.target (entries ++ entry ∷ [])

unfoldable pub reject_trailing : List AdjEntry → List ℕ → Result (List AdjEntry)
reject_trailing entries [] = ok entries
reject_trailing entries (b ∷ bs) = err (encoding "trailing bytes in adjacency block")

unfoldable pub decode_block : List ℕ → Result (List AdjEntry)
unfolding decode_entries reject_trailing
decode_block [] = err (encoding "empty adjacency block")
decode_block (format ∷ input) =
    if format == 0
    then (do
      (count, input₁) ← read_varint input
      (entries, rest) ← decode_entries count input₁ 0 []
      reject_trailing entries rest)
    else err (encoding "unknown adjacency block format")
