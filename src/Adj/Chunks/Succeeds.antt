-- ===== src/Adj/Chunks/Succeeds.antt =====
-- crates/topodb/src/adj.rs: `adj_insert` over the decoded blocks.
use topo_db.Prelude.{
  ℕ, ◌+◌, ◌/◌, ◌^◌, ◌≤◌, ◌<◌, ◌≡◌, refl, sym, ap, ◌∙◌, subst, inl, inr, arith, true, false, some,
  List, [], ◌∷◌, length, take, drop, All, leb, ◌==◌, if◌then◌else◌, Bool-cases, length-drop,
}
use topo_db.Prelude.Rows.{insert_row, get_row, last_key}
use topo_db.Prelude.Outcome.{ok}
use topo_db.Frame.{Lz4, IsLz4}
use topo_db.Adj.Block.{AdjEntry, is_unsorted}
use topo_db.Adj.Block.Entry.{IsEntry}
use topo_db.Adj.Block.RoundTrip.{whole_block, encode_block-whole_block}
use topo_db.Adj.Block.Sizes.{length-whole_block}
use topo_db.Adj.Chunks.{
  chunk_split_target, out_adj_key, type_rows, chunk_of, insert_entry, store_split, adj_insert,
}
use topo_db.Adj.Chunks.Store.{
  Chunks, Fits, FitsRow, or_nil, blocks, range-blocks, last_key-blocks, load_chunk-blocks,
  store_chunk-blocks,
}
use topo_db.Adj.Chunks.Entries.{
  Added, insert_entry-Added, length-insert_entry, All-insert_entry, sorted-insert_entry,
  sorted-take, sorted-drop, All-take, All-drop, length-take, take-drop,
}
use topo_db.Adj.Chunks.Section.{low_key, high_key, section_of, WellFormed, current}
use topo_db.Adj.Chunks.Insert.{Inserted, put_whole, put_halved, next_key}

Fits-get_row : (c : Chunks) (key : ℕ) → All FitsRow c → Fits (or_nil (get_row c key))
unfolding get_row
Fits-get_row [] key h = record {
  sorted = unfold is_unsorted in refl;
  entries = tt;
  few = omega arith;
}
Fits-get_row ((j, es) ∷ c) key h =
    elim (j == key) as (λ b. Fits (or_nil (if b then some es else get_row c key))) [
      | true ↦ h.0
      | false ↦ Fits-get_row c key h.1
    ]

-- What `adj_insert` writes into its row, before any split.
record Overfull (es : List AdjEntry) : Type 0 where
  sorted : is_unsorted es ≡ false
  entries : All IsEntry es
  few : length es ≤ 8193

overfull : (es : List AdjEntry) (e : AdjEntry) → Fits es → IsEntry e → Overfull (insert_entry es e)
overfull es e fits h = record {
  sorted = sorted-insert_entry es e fits.sorted;
  entries = All-insert_entry IsEntry es e fits.entries h;
  few = omega (arith, length-insert_entry es e, fits.few);
}

small-Fits :
    (es : List AdjEntry)
    → Overfull es
    → leb (length (whole_block es)) chunk_split_target ≡ true
    → Fits es
small-Fits es o h = record {
  sorted = o.sorted;
  entries = o.entries;
  few = ground (arith, length-whole_block es);
}

first-Fits : (es : List AdjEntry) → Overfull es → Fits (take (length es / 2) es)
first-Fits es o = record {
  sorted = sorted-take (length es / 2) es o.sorted;
  entries = All-take IsEntry (length es / 2) es o.entries;
  few = omega (arith, length-take (length es / 2) es, o.few);
}

second-Fits : (es : List AdjEntry) → Overfull es → Fits (drop (length es / 2) es)
second-Fits es o = record {
  sorted = sorted-drop (length es / 2) es o.sorted;
  entries = All-drop IsEntry (length es / 2) es o.entries;
  few = omega (arith, length-drop (length es / 2) es, o.few);
}

module _ (lz4 : Lz4) (laws : IsLz4 lz4) (c : Chunks) (slot edge_type : ℕ) (entry : AdjEntry) where
  abbrev chunk : ℕ
  chunk = chunk_of (last_key (section_of c slot edge_type))

  abbrev key : ℕ
  key = out_adj_key slot edge_type chunk

  abbrev merged : List AdjEntry
  merged = insert_entry (or_nil (get_row c key)) entry

  chunk-blocks : chunk_of (last_key (type_rows (blocks lz4 c) slot edge_type)) ≡ chunk
  unfolding type_rows
  chunk-blocks =
      ap (λ r. chunk_of (last_key r))
        (range-blocks lz4 (low_key slot edge_type) (high_key slot edge_type) c)
      ∙ ap chunk_of (last_key-blocks lz4 (section_of c slot edge_type))

  adj_insert-blocks :
      All FitsRow c
      → Overfull merged
      → adj_insert lz4 (blocks lz4 c) slot edge_type entry
        ≡ store_split lz4 (blocks lz4 c) slot edge_type chunk merged (length (whole_block merged))
  unfolding adj_insert
  adj_insert-blocks fits o = rw chunk-blocks (
      rw (load_chunk-blocks lz4 c key laws fits)
        (rw (encode_block-whole_block merged o.sorted o.entries (omega (arith, o.few)))))

  split_whole :
      Overfull merged
      → leb (length (whole_block merged)) chunk_split_target ≡ true
      → store_split lz4 (blocks lz4 c) slot edge_type chunk merged (length (whole_block merged))
        ≡ ok (blocks lz4 (insert_row c key merged))
  unfolding store_split
  split_whole o small = rw small (store_chunk-blocks lz4 c key merged (small-Fits merged o small))

  split_halved :
      Overfull merged
      → chunk + 1 < 2 ^ 32
      → leb (length (whole_block merged)) chunk_split_target ≡ false
      → store_split lz4 (blocks lz4 c) slot edge_type chunk merged (length (whole_block merged))
        ≡ ok (
            blocks lz4 (
              insert_row
                (insert_row c key (take (length merged / 2) merged))
                (key + 1)
                (drop (length merged / 2) merged)))
  unfolding store_split
  split_halved o room large = rw large (
      rw (store_chunk-blocks lz4 c key (take (length merged / 2) merged) (first-Fits merged o)) (
        rw (next_key slot edge_type chunk room) (
          store_chunk-blocks lz4 (insert_row c key (take (length merged / 2) merged)) (key + 1)
            (drop (length merged / 2) merged) (second-Fits merged o))))

  next-Within : chunk + 1 < 2 ^ 32 → key + 1 ≤ high_key slot edge_type
  unfolding out_adj_key
  next-Within room = omega arith

  -- On a well-formed table whose chunk numbers are not used up, `adj_insert` succeeds. The new table
  -- is well-formed, holds the entry among those of its slot and type, whose order is otherwise kept,
  -- and agrees with the old one on every range of keys outside them.
  pub adj_insert_lem :
      WellFormed c
      → IsEntry entry
      → chunk_of (last_key (section_of c slot edge_type)) + 1 < 2 ^ 32
      → (c' : Chunks) × (adj_insert lz4 (blocks lz4 c) slot edge_type entry ≡ ok (blocks lz4 c'))
        × Inserted c c' slot edge_type entry
  adj_insert_lem well h room =
      let o = overfull (or_nil (get_row c key)) entry (Fits-get_row c key well.fits) h in
      let cur = current c slot edge_type well in
      let add = insert_entry-Added (or_nil (get_row c key)) entry in
      elim (Bool-cases (leb (length (whole_block merged)) chunk_split_target)) [
        | inl small ↦ (
          insert_row c key merged,
          adj_insert-blocks well.fits o ∙ split_whole o small,
          put_whole c slot edge_type key entry merged well cur (small-Fits merged o small) add,
        )
        | inr large ↦ (
          insert_row (insert_row c key (take (length merged / 2) merged)) (key + 1)
              (drop (length merged / 2) merged),
          adj_insert-blocks well.fits o ∙ split_halved o room large,
          put_halved c slot edge_type key entry (take (length merged / 2) merged)
              (drop (length merged / 2) merged) well cur (next-Within room) (first-Fits merged o)
              (second-Fits merged o)
              (subst (λ r. Added entry (or_nil (get_row c key)) r)
                (sym (take-drop (length merged / 2) merged)) add),
        )
      ]
