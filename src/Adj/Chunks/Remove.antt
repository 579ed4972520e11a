-- ===== src/Adj/Chunks/Remove.antt =====
-- crates/topodb/src/adj.rs: `adj_remove_edge` over the decoded blocks.
use topo_db.Prelude.{
  ℕ, ◌≤◌, ◌<◌, ◌≡◌, ◌⊎◌, refl, sym, ap, subst, ◌∙◌, inl, inr, arith, true, false, List, [], ◌∷◌,
  ◌++◌, length, All, ◌==◌, Bool-cases,
}
use topo_db.Prelude.Rows.{insert_row, Ascends, All-range}
use topo_db.Prelude.Rows.Ends.{Found, Ascends-Found, All-at, Within, range-Within, range-Ascends}
use topo_db.Prelude.Outcome.{ok}
use topo_db.Frame.{Lz4, IsLz4}
use topo_db.Adj.Block.{AdjEntry}
use topo_db.Adj.Block.Entry.{IsEntry}
use topo_db.Adj.Block.RoundTrip.{IsSorted, is_unsorted_sound, is_unsorted_complete}
use topo_db.Adj.Chunks.{
  keys, type_rows, retain_other, store_or_remove, remove_in, remove_chunks, adj_remove_edge,
}
use topo_db.Adj.Chunks.Store.{
  Chunks, Fits, FitsRow, blocks, range-blocks, load_chunk-blocks, store_chunk-blocks,
}
use topo_db.Adj.Chunks.Section.{
  flat, flat-append, low_key, high_key, section_of, entries_of, WellFormed,
}
use topo_db.Prelude.Rows.{remove_row}
use topo_db.Prelude.Rows.Removal.{
  All-remove_row, remove_row-Ascends, range-remove_row, range-remove_row_out, remove_row_middle,
}
use topo_db.Adj.Chunks.Store.{remove_row-blocks}
use topo_db.Adj.Chunks.Close.{Other, All-append, flat_step}
use topo_db.Adj.Chunks.Entries.{IsSorted-lower}
use topo_db.Adj.Chunks.Update.{Updated, replaced}
use mathlib.Core.List.{append_assoc}

-- A row of the section goes away.
removed :
    (c : Chunks) (slot edge_type : ℕ) (init rest : Chunks) (key : ℕ) (es : List AdjEntry)
    → WellFormed c
    → section_of c slot edge_type ≡ init ++ (key, es) ∷ rest
    → Updated c (remove_row c key) slot edge_type (flat init ++ flat rest)
removed c slot edge_type init rest key es well e =
    let low = low_key slot edge_type in
    let high = high_key slot edge_type in
    let within =
      All-at (Within low high) init (key, es) rest
        (subst (λ r. All (Within low high) r) e (range-Within low high c)) in
    let ascends = subst (λ r. Ascends r) e (range-Ascends low high c well.ascends) in
    record {
      well = record {
        ascends = remove_row-Ascends c key well.ascends;
        fits = All-remove_row FitsRow c key well.fits;
      };
      now =
          ap flat (
            range-remove_row c low high key
            ∙ ap (λ r. remove_row r key) e
            ∙ remove_row_middle init key es rest ascends)
          ∙ flat-append init rest;
      outside = λ low' high' p. elim p [
        | inl q ↦ range-remove_row_out c low' high' key (ground (arith, within.0, within.1))
        | inr q ↦ range-remove_row_out c low' high' key (ground (arith, within.0, within.1))
      ];
    }

length-retain_other :
    (es : List AdjEntry) (edge_slot : ℕ) → length (retain_other es edge_slot) ≤ length es
unfolding retain_other
length-retain_other [] edge_slot = omega arith
length-retain_other (e ∷ es) edge_slot = ground (arith, length-retain_other es edge_slot)

retain_cases :
    (es : List AdjEntry) (edge_slot : ℕ)
    → ((length (retain_other es edge_slot) ≡ length es) × All (Other edge_slot) es)
      ⊎ (length (retain_other es edge_slot) < length es)
unfolding retain_other
retain_cases [] edge_slot = inl (refl, tt)
retain_cases (e ∷ es) edge_slot = elim (Bool-cases (e.edge == edge_slot)) [
  | inl here ↦ inr (rw here (omega (arith, length-retain_other es edge_slot)))
  | inr other ↦ elim (retain_cases es edge_slot) [
    | inl (same, others) ↦ inl (rw other (omega (arith, same)), (other, others))
    | inr less ↦ inr (rw other (omega (arith, less)))
  ]
]

IsSorted-retain_other :
    (previous : ℕ) (es : List AdjEntry) (edge_slot : ℕ)
    → IsSorted previous es
    → IsSorted previous (retain_other es edge_slot)
unfolding retain_other
IsSorted-retain_other previous [] edge_slot s = tt
IsSorted-retain_other previous (e ∷ es) edge_slot s = elim (Bool-cases (e.edge == edge_slot)) [
  | inl here ↦ rw here (
      IsSorted-lower previous e.target (retain_other es edge_slot) s.0
        (IsSorted-retain_other e.target es edge_slot s.1))
  | inr other ↦ rw other (s.0, IsSorted-retain_other e.target es edge_slot s.1)
]

entries-retain_other :
    (es : List AdjEntry) (edge_slot : ℕ) → All IsEntry es → All IsEntry (retain_other es edge_slot)
unfolding retain_other
entries-retain_other [] edge_slot h = tt
entries-retain_other (e ∷ es) edge_slot h = elim (Bool-cases (e.edge == edge_slot)) [
  | inl here ↦ rw here (entries-retain_other es edge_slot h.1)
  | inr other ↦ rw other (h.0, entries-retain_other es edge_slot h.1)
]

retain-Fits : (es : List AdjEntry) (edge_slot : ℕ) → Fits es → Fits (retain_other es edge_slot)
retain-Fits es edge_slot fits = record {
  sorted =
      is_unsorted_complete 0 (retain_other es edge_slot)
        (IsSorted-retain_other 0 es edge_slot (is_unsorted_sound es fits.sorted));
  entries = entries-retain_other es edge_slot fits.entries;
  few = omega (arith, length-retain_other es edge_slot, fits.few);
}

module _ (lz4 : Lz4) (laws : IsLz4 lz4) (c : Chunks) (slot edge_type edge_slot : ℕ)
    (well : WellFormed c) where
  -- What is left of a block is stored, or the row goes if nothing is.
  stored_or_removed :
      (init rest : Chunks) (key : ℕ) (es kept : List AdjEntry)
      → section_of c slot edge_type ≡ init ++ (key, es) ∷ rest
      → Fits kept
      → (c' : Chunks) × (store_or_remove lz4 (blocks lz4 c) key kept ≡ ok (blocks lz4 c'))
        × Updated c c' slot edge_type (flat init ++ (kept ++ flat rest))
  unfolding store_or_remove
  stored_or_removed init rest key es [] e fits = (
    remove_row c key,
    ap ok (remove_row-blocks lz4 c key),
    removed c slot edge_type init rest key es well e,
  )
  stored_or_removed init rest key es (d ∷ kept) e fits = (
    insert_row c key (d ∷ kept),
    store_chunk-blocks lz4 c key (d ∷ kept) fits,
    replaced c slot edge_type init rest key es (d ∷ kept) well e fits,
  )

  -- The two outcomes of the walk over `rest`, the rows of the section after `init`.
  abbrev Walked : Chunks → Chunks → Type 0
  Walked init rest =
      ((remove_chunks lz4 (blocks lz4 c) (keys (blocks lz4 rest)) edge_slot
          ≡ ok (false, blocks lz4 c))
        × All (Other edge_slot) (flat rest))
      ⊎ ((before : List AdjEntry) × (es : List AdjEntry) × (after : List AdjEntry) × (c' : Chunks)
          × (flat rest ≡ before ++ (es ++ after))
          × All (Other edge_slot) before
          × (length (retain_other es edge_slot) < length es)
          × (remove_chunks lz4 (blocks lz4 c) (keys (blocks lz4 rest)) edge_slot
              ≡ ok (true, blocks lz4 c'))
          × Updated c c' slot edge_type
              (flat init ++ (before ++ (retain_other es edge_slot ++ after))))

  walk :
      (init rest : Chunks)
      → section_of c slot edge_type ≡ init ++ rest
      → All (Found c) rest
      → All FitsRow rest
      → Walked init rest
  unfolding remove_chunks blocks flat remove_in
  walk init [] e found fits = inl (refl, tt)
  walk init ((k, es) ∷ rest) e found fits =
      let load = load_chunk-blocks lz4 c k laws well.fits in
      elim (retain_cases es edge_slot) [
        | inr less ↦
            let (c', stored, updated) =
              stored_or_removed init rest k es (retain_other es edge_slot) e
                (retain-Fits es edge_slot fits.0) in
            let shorter : (length (retain_other es edge_slot) == length es) ≡ false =
              ground (arith, less) in
            inr (
              [],
              es,
              flat rest,
              c',
              refl,
              tt,
              less,
              rw (load, found.0) (rw shorter (rw stored)),
              updated,
            )
        | inl (same, absent) ↦
            let equal : (length (retain_other es edge_slot) == length es) ≡ true =
              ground (arith, same) in
            elim (walk (init ++ (k, es) ∷ []) rest (e ∙ sym (append_assoc init ((k, es) ∷ []) rest))
              found.1 fits.1) [
                | inl (r, others) ↦ inl (
                  rw (load, found.0) (rw equal r),
                  All-append (Other edge_slot) es (flat rest) absent others,
                )
                | inr (before, fs, after, c', p, others, less, r, updated) ↦ inr (
                  es ++ before,
                  fs,
                  after,
                  c',
                  ap (λ t. es ++ t) p ∙ sym (append_assoc es before (fs ++ after)),
                  All-append (Other edge_slot) es before absent others,
                  less,
                  rw (load, found.0) (rw equal r),
                  subst (λ t. Updated c c' slot edge_type t)
                      (flat_step init k es (before ++ (retain_other fs edge_slot ++ after))
                        ∙ ap (λ t. flat init ++ t)
                            (sym (append_assoc es before (retain_other fs edge_slot ++ after))))
                      updated,
                )
              ]
      ]

  -- On a well-formed table `adj_remove_edge` succeeds. Where no entry of the slot and type is of the
  -- edge, it answers no and leaves the table; else it answers yes, and drops the entries of the edge
  -- from one stretch of the entries, before which the edge has none and in which it has some: the
  -- others, their order and the rows outside are as they were.
  pub adj_remove_edge_lem :
      ((adj_remove_edge lz4 (blocks lz4 c) slot edge_type edge_slot ≡ ok (false, blocks lz4 c))
        × All (Other edge_slot) (entries_of c slot edge_type))
      ⊎ ((before : List AdjEntry) × (es : List AdjEntry) × (after : List AdjEntry) × (c' : Chunks)
          × (entries_of c slot edge_type ≡ before ++ (es ++ after))
          × All (Other edge_slot) before
          × (length (retain_other es edge_slot) < length es)
          × (adj_remove_edge lz4 (blocks lz4 c) slot edge_type edge_slot ≡ ok (true, blocks lz4 c'))
          × Updated c c' slot edge_type (before ++ (retain_other es edge_slot ++ after)))
  unfolding adj_remove_edge type_rows flat
  adj_remove_edge_lem =
      let low = low_key slot edge_type in
      let high = high_key slot edge_type in
      rw (range-blocks lz4 low high c) (
        walk [] (section_of c slot edge_type) refl
          (All-range (Found c) low high c (Ascends-Found c well.ascends))
          (All-range FitsRow low high c well.fits))
