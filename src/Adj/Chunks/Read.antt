-- ===== src/Adj/Chunks/Read.antt =====
-- crates/topodb/src/adj.rs: `read_adj` over the decoded blocks.
use topo_db.Prelude.{ℕ, ◌≡◌, refl, none, some, List, [], ◌∷◌, ◌++◌, map, All}
use topo_db.Prelude.Rows.{range, All-range}
use topo_db.Prelude.Rows.Ends.{Found, Ascends-Found}
use topo_db.Prelude.Outcome.{ok}
use topo_db.Frame.{Lz4, IsLz4}
use topo_db.Adj.Block.{AdjEntry}
use topo_db.Adj.Chunks.{
  out_adj_key, u32_max, key_type, keys, type_rows, slot_rows, read_chunks, read_types, read_adj,
}
use topo_db.Adj.Chunks.Store.{Chunks, FitsRow, blocks, range-blocks, load_chunk-blocks}
use topo_db.Adj.Chunks.Section.{section_of, low_key, high_key, WellFormed}

-- The entries of some rows, each with the type of its row.
abbrev pub tagged : (ℕ → ℕ) → Chunks → List (ℕ × AdjEntry)
tagged type_of [] = []
tagged type_of ((k, es) ∷ rows) = map (λ e. (type_of k, e)) es ++ tagged type_of rows

read_chunks-blocks :
    (lz4 : Lz4) (type_of : ℕ → ℕ) (c rows : Chunks)
    → IsLz4 lz4
    → All FitsRow c
    → All (Found c) rows
    → read_chunks lz4 type_of (blocks lz4 c) (keys (blocks lz4 rows)) ≡ ok (tagged type_of rows)
unfolding read_chunks blocks
read_chunks-blocks lz4 type_of c [] laws fits found = refl
read_chunks-blocks lz4 type_of c ((k, es) ∷ rows) laws fits found =
    rw (load_chunk-blocks lz4 c k laws fits, found.0)
      (rw (read_chunks-blocks lz4 type_of c rows laws fits found.1))

read_range :
    (lz4 : Lz4) (type_of : ℕ → ℕ) (c : Chunks) (low high : ℕ)
    → IsLz4 lz4
    → WellFormed c
    → read_chunks lz4 type_of (blocks lz4 c) (keys (range low high (blocks lz4 c)))
      ≡ ok (tagged type_of (range low high c))
read_range lz4 type_of c low high laws well = rw (range-blocks lz4 low high c) (
    read_chunks-blocks lz4 type_of c (range low high c) laws well.fits
      (All-range (Found c) low high c (Ascends-Found c well.ascends)))

-- The entries of each of the types, in turn.
abbrev pub of_types : Chunks → ℕ → List ℕ → List (ℕ × AdjEntry)
of_types c slot [] = []
of_types c slot (edge_type ∷ types) =
    tagged (λ k. edge_type) (section_of c slot edge_type) ++ of_types c slot types

read_types-blocks :
    (lz4 : Lz4) (c : Chunks) (slot : ℕ) (types : List ℕ)
    → IsLz4 lz4
    → WellFormed c
    → read_types lz4 (blocks lz4 c) slot types ≡ ok (of_types c slot types)
unfolding read_types type_rows
read_types-blocks lz4 c slot [] laws well = refl
read_types-blocks lz4 c slot (edge_type ∷ types) laws well =
    rw
      (read_range lz4 (λ k. edge_type) c (low_key slot edge_type) (high_key slot edge_type) laws
        well)
      (rw (read_types-blocks lz4 c slot types laws well))

-- On a well-formed table `read_adj` succeeds. With a filter it returns the entries of the slot under
-- each type asked for, in turn; without one, all entries of the slot, each under the type of its key.
pub read_adj_lem :
    (lz4 : Lz4) (c : Chunks) (slot : ℕ) (types : List ℕ)
    → IsLz4 lz4
    → WellFormed c
    → (read_adj lz4 (blocks lz4 c) slot (some types) ≡ ok (of_types c slot types))
      × (read_adj lz4 (blocks lz4 c) slot none
          ≡ ok
              (tagged key_type (range (out_adj_key slot 0 0) (out_adj_key slot u32_max u32_max) c)))
unfolding read_adj slot_rows
read_adj_lem lz4 c slot types laws well = (
  read_types-blocks lz4 c slot types laws well,
  read_range lz4 key_type c (out_adj_key slot 0 0) (out_adj_key slot u32_max u32_max) laws well,
)
