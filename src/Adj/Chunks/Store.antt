-- ===== src/Adj/Chunks/Store.antt =====
-- crates/topodb/src/adj.rs: an adjacency table as the frames of decoded blocks, and its chunks as
-- they are loaded and stored.
use topo_db.Prelude.{
  ℕ, ◌≤◌, ◌≡◌, refl, ap, inl, inr, arith, false, Option, none, some, List, [], ◌∷◌, length, All,
  ◌==◌, Bool-cases,
}
use topo_db.Prelude.Rows.{insert_row, remove_row, get_row, range, last_key}
use topo_db.Prelude.Outcome.{ok}
use topo_db.Frame.{Lz4, IsLz4, frame_value, unframe_value}
use topo_db.Frame.RoundTrip.{unframe_value-frame_value}
use topo_db.Adj.Block.{AdjEntry, is_unsorted}
use topo_db.Adj.Block.Entry.{IsEntry}
use topo_db.Adj.Block.RoundTrip.{whole_block, encode_block-whole_block, decode_block-whole_block}
use topo_db.Adj.Block.Sizes.{length-whole_block}
use topo_db.Adj.Chunks.{AdjTable, load_value, load_chunk, store_chunk}

-- The tables with their blocks decoded.
abbrev pub Chunks : Type 0
Chunks = List (ℕ × List AdjEntry)

-- A block that the table may hold: sorted, with entries in range, and not overfull.
pub record Fits (es : List AdjEntry) : Type 0 where
  pub sorted : is_unsorted es ≡ false
  pub entries : All IsEntry es
  pub few : length es ≤ 8192

abbrev pub FitsRow : ℕ × List AdjEntry → Type 0
FitsRow (k, es) = Fits es

abbrev pub or_nil : Option (List AdjEntry) → List AdjEntry
or_nil none = []
or_nil (some es) = es

module _ (lz4 : Lz4) where
  abbrev pub value_of : List AdjEntry → List ℕ
  value_of es = frame_value lz4 (whole_block es)

  unfoldable pub blocks : Chunks → AdjTable
  blocks [] = []
  blocks ((k, es) ∷ c) = (k, value_of es) ∷ blocks c

  pub insert_row-blocks :
      (c : Chunks) (k : ℕ) (es : List AdjEntry)
      → insert_row (blocks c) k (value_of es) ≡ blocks (insert_row c k es)
  unfolding insert_row blocks
  insert_row-blocks [] k es = refl
  insert_row-blocks ((j, fs) ∷ c) k es = ground (arith, insert_row-blocks c k es)

  pub remove_row-blocks : (c : Chunks) (k : ℕ) → remove_row (blocks c) k ≡ blocks (remove_row c k)
  unfolding remove_row blocks
  remove_row-blocks [] k = refl
  remove_row-blocks ((j, fs) ∷ c) k = ground (arith, remove_row-blocks c k)

  pub range-blocks :
      (low high : ℕ) (c : Chunks) → range low high (blocks c) ≡ blocks (range low high c)
  unfolding range blocks
  range-blocks low high [] = refl
  range-blocks low high ((j, fs) ∷ c) = ground (arith, range-blocks low high c)

  pub last_key-blocks : (c : Chunks) → last_key (blocks c) ≡ last_key c
  unfolding last_key blocks
  last_key-blocks [] = refl
  last_key-blocks ((j, fs) ∷ []) = refl
  last_key-blocks ((j, fs) ∷ (row ∷ c)) = last_key-blocks (row ∷ c)

  pub load_value-value_of :
      (es : List AdjEntry) → IsLz4 lz4 → Fits es → load_value lz4 (some (value_of es)) ≡ ok es
  unfolding load_value
  load_value-value_of es laws fits =
      let size = length-whole_block es in
      let back : unframe_value lz4 (value_of es) ≡ ok (whole_block es) =
        (unframe_value-frame_value lz4 (whole_block es) laws (omega (arith, size, fits.few))).1
          (inr (omega (arith, size, fits.few))) in
      rw back (decode_block-whole_block es fits.sorted fits.entries (omega (arith, fits.few)))

  -- Loading a chunk gives its entries, and none under a key that has no row.
  pub load_chunk-blocks :
      (c : Chunks) (k : ℕ)
      → IsLz4 lz4
      → All FitsRow c
      → load_chunk lz4 (blocks c) k ≡ ok (or_nil (get_row c k))
  unfolding load_chunk get_row blocks load_value
  load_chunk-blocks [] k laws fits = refl
  load_chunk-blocks ((j, es) ∷ c) k laws fits = elim (Bool-cases (j == k)) [
    | inl here ↦ rw here (load_value-value_of es laws fits.0)
    | inr other ↦ rw other (load_chunk-blocks c k laws fits.1)
  ]

  pub store_chunk-blocks :
      (c : Chunks) (k : ℕ) (es : List AdjEntry)
      → Fits es
      → store_chunk lz4 (blocks c) k es ≡ ok (blocks (insert_row c k es))
  unfolding store_chunk
  store_chunk-blocks c k es fits =
      rw (encode_block-whole_block es fits.sorted fits.entries (omega (arith, fits.few)))
        (ap ok (insert_row-blocks c k es))
