-- ===== src/Adj/Block/RoundTrip.antt =====
-- crates/topodb/src/adj.rs: `decode_block` against `encode_block`.
use mathlib.Core.List.{append_assoc, append-nil}
use topo_db.Prelude.{
  ℕ, ◌-◌, ◌≤◌, ◌≡◌, refl, arith, true, false, List, [], ◌∷◌, ◌++◌, length, All, Bool-cases, inl,
  inr, ◌↔◌,
}
use topo_db.Prelude.Outcome.{ok}
use topo_db.Adj.Codec.{IsU64}
use topo_db.Adj.Varint.{groups, write_varint-groups, read_groups}
use topo_db.Adj.Block.{
  AdjEntry, encode_entries, is_unsorted, encode_block, decode_entries, decode_block,
}
use topo_db.Adj.Block.Entry.{IsEntry, entry_bytes, write_entry-entry_bytes, read_entry-entry_bytes}

-- The targets rise from `previous` on.
abbrev pub IsSorted : ℕ → List AdjEntry → Type 0
IsSorted previous [] = Unit
IsSorted previous (e ∷ es) = (previous ≤ e.target) × IsSorted e.target es

unfoldable pub block_bytes : ℕ → List AdjEntry → List ℕ
block_bytes previous [] = []
block_bytes previous (e ∷ es) = entry_bytes (e.target - previous) e ++ block_bytes e.target es

encode_entries-block_bytes :
    (out : List ℕ) (previous : ℕ) (es : List AdjEntry)
    → IsSorted previous es
    → All IsEntry es
    → encode_entries out previous es ≡ ok (out ++ block_bytes previous es)
unfolding encode_entries block_bytes
encode_entries-block_bytes out previous [] s h = rw append-nil
encode_entries-block_bytes out previous (e ∷ es) (le, s) (he, hs) = ground (
  arith,
  write_entry-entry_bytes out (e.target - previous) e (omega (arith, he.target_u64)) he,
  encode_entries-block_bytes (out ++ entry_bytes (e.target - previous) e) e.target es s hs,
  append_assoc out (entry_bytes (e.target - previous) e) (block_bytes e.target es),
)

decode_entries-block_bytes :
    (es : List AdjEntry) (previous : ℕ) (done : List AdjEntry)
    → IsSorted previous es
    → All IsEntry es
    → decode_entries (length es) (block_bytes previous es) previous done ≡ ok (done ++ es, [])
unfolding decode_entries block_bytes
decode_entries-block_bytes [] previous done s h = rw append-nil
decode_entries-block_bytes (e ∷ es) previous done (le, s) (he, hs) =
    rw (read_entry-entry_bytes previous e (block_bytes e.target es) le he) (
      rw (decode_entries-block_bytes es e.target (done ++ e ∷ []) s hs)
        (rw (append_assoc done (e ∷ []) es)))

is_unsorted-IsSorted :
    (e : AdjEntry) (es : List AdjEntry) → is_unsorted (e ∷ es) ≡ false → IsSorted e.target es
unfolding is_unsorted
is_unsorted-IsSorted e [] h = tt
is_unsorted-IsSorted e (e' ∷ es) h = (ground arith, is_unsorted-IsSorted e' es (ground arith))

-- The test of `encode_block`, read as the order of the targets.
pub is_unsorted_sound : (es : List AdjEntry) → is_unsorted es ≡ false → IsSorted 0 es
is_unsorted_sound [] h = tt
is_unsorted_sound (e ∷ es) h = (omega arith, is_unsorted-IsSorted e es h)

pub is_unsorted_complete :
    (previous : ℕ) (es : List AdjEntry) → IsSorted previous es → is_unsorted es ≡ false
unfolding is_unsorted
is_unsorted_complete previous [] s = refl
is_unsorted_complete previous (e ∷ []) s = refl
is_unsorted_complete previous (e ∷ (e' ∷ es)) (le, (le', s)) =
    ground (arith, is_unsorted_complete e.target (e' ∷ es) (le', s))

encode_block_bad :
    (es : List AdjEntry) → is_unsorted es ≡ true → (bytes : List ℕ) → encode_block es ≡ ok bytes → ⊥
unfolding encode_block
encode_block_bad es bad bytes e = cc (rw bad at e)

-- The bytes of a block: the format, the count and the entries.
unfoldable pub whole_block : List AdjEntry → List ℕ
unfolding block_bytes
whole_block es = 0 ∷ (groups 9 (length es) ++ block_bytes 0 es)

pub encode_block-whole_block :
    (es : List AdjEntry)
    → is_unsorted es ≡ false
    → All IsEntry es
    → IsU64 (length es)
    → encode_block es ≡ ok (whole_block es)
unfolding encode_block whole_block
encode_block-whole_block es sorted h n = rw sorted (
    rw (write_varint-groups (0 ∷ []) (length es) n)
      (encode_entries-block_bytes _ 0 es (is_unsorted_sound es sorted) h))

pub decode_block-whole_block :
    (es : List AdjEntry)
    → is_unsorted es ≡ false
    → All IsEntry es
    → IsU64 (length es)
    → decode_block (whole_block es) ≡ ok es
unfolding decode_block whole_block
decode_block-whole_block es sorted h n =
    rw (read_groups (length es) (block_bytes 0 es) n)
      (rw (decode_entries-block_bytes es 0 [] (is_unsorted_sound es sorted) h))

-- A sorted block of entries within the ranges of their types is encoded, and decodes to itself.
pub decode_block-encode_block :
    (es : List AdjEntry)
    → is_unsorted es ≡ false
    → All IsEntry es
    → IsU64 (length es)
    → (bytes : List ℕ) × (encode_block es ≡ ok bytes) × (decode_block bytes ≡ ok es)
decode_block-encode_block es sorted h n =
    (whole_block es, encode_block-whole_block es sorted h n, decode_block-whole_block es sorted h n)

-- For entries within the ranges of their types, `encode_block` succeeds exactly on the lists whose
-- targets do not fall.
pub encode_block_iff :
    (es : List AdjEntry)
    → All IsEntry es
    → IsU64 (length es)
    → ((bytes : List ℕ) × (encode_block es ≡ ok bytes)) ↔ IsSorted 0 es
encode_block_iff es h n = (
  λ p. elim (Bool-cases (is_unsorted es)) [
    | inl bad ↦ absurd (refuses bad p)
    | inr sorted ↦ is_unsorted_sound es sorted
  ],
  λ s.
      let (bytes, e, _) = decode_block-encode_block es (is_unsorted_complete 0 es s) h n in
      (bytes, e),
)
  where
    refuses : is_unsorted es ≡ true → ((bytes : List ℕ) × (encode_block es ≡ ok bytes)) → ⊥
    refuses bad p = encode_block_bad es bad p.0 p.1
