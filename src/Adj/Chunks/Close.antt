-- ===== src/Adj/Chunks/Close.antt =====
-- crates/topodb/src/adj.rs: `adj_close` over the decoded blocks.
use topo_db.Prelude.{
  ℕ, ◌≡◌, ◌⊎◌, refl, sym, ap, subst, ◌∙◌, inl, inr, arith, true, false, none, some, List, [], ◌∷◌,
  ◌++◌, length, All, ◌==◌, Bool-cases,
}
use topo_db.Prelude.Rows.{insert_row, All-range}
use topo_db.Prelude.Rows.Ends.{Found, Ascends-Found}
use topo_db.Prelude.Outcome.{ok}
use topo_db.Frame.{Lz4, IsLz4}
use topo_db.Adj.Codec.{IsU64}
use topo_db.Adj.Block.{AdjEntry}
use topo_db.Adj.Block.Entry.{IsEntry}
use topo_db.Adj.Block.RoundTrip.{IsSorted, is_unsorted_sound, is_unsorted_complete}
use topo_db.Adj.Chunks.{keys, type_rows, close_entry, close_in, close_chunks, adj_close}
use topo_db.Adj.Chunks.Store.{
  Chunks, Fits, FitsRow, blocks, range-blocks, load_chunk-blocks, store_chunk-blocks,
}
use topo_db.Adj.Chunks.Section.{
  flat, flat-append, low_key, high_key, section_of, entries_of, WellFormed,
}
use topo_db.Adj.Chunks.Update.{Updated, replaced}
use mathlib.Core.List.{append_assoc, append-nil}

abbrev pub closed : AdjEntry → ℕ → AdjEntry
closed e valid_to = record e { valid_to = some valid_to }

-- An entry of another edge.
abbrev pub Other : ℕ → AdjEntry → Type 0
Other edge_slot e = (e.edge == edge_slot) ≡ false

-- The entry `e` is the first of its edge in `es`.
abbrev pub FirstOf : ℕ → List AdjEntry → List AdjEntry → AdjEntry → List AdjEntry → Type 0
FirstOf edge_slot es before e after =
    (es ≡ before ++ e ∷ after) × All (Other edge_slot) before × ((e.edge == edge_slot) ≡ true)

close_entry_cases :
    (es : List AdjEntry) (edge_slot valid_to : ℕ)
    → ((close_entry es edge_slot valid_to ≡ none) × All (Other edge_slot) es)
      ⊎ ((before : List AdjEntry) × (e : AdjEntry) × (after : List AdjEntry) × FirstOf edge_slot es
            before e after
          × (close_entry es edge_slot valid_to ≡ some (before ++ closed e valid_to ∷ after)))
unfolding close_entry
close_entry_cases [] edge_slot valid_to = inl (refl, tt)
close_entry_cases (d ∷ es) edge_slot valid_to = elim (Bool-cases (d.edge == edge_slot)) [
  | inl here ↦ inr ([], d, es, (refl, tt, here), rw here)
  | inr other ↦ elim (close_entry_cases es edge_slot valid_to) [
    | inl (e, others) ↦ inl (rw (other, e), (other, others))
    | inr (before, e, after, (p, others, first), q) ↦
        inr (d ∷ before, e, after, (ap (λ r. d ∷ r) p, (other, others), first), rw (other, q))
  ]
]

IsSorted-closed :
    (previous : ℕ) (before : List AdjEntry) (e : AdjEntry) (after : List AdjEntry) (valid_to : ℕ)
    → IsSorted previous (before ++ e ∷ after)
    → IsSorted previous (before ++ closed e valid_to ∷ after)
IsSorted-closed previous [] e after valid_to s = s
IsSorted-closed previous (d ∷ before) e after valid_to s =
    (s.0, IsSorted-closed d.target before e after valid_to s.1)

entries-closed :
    (before : List AdjEntry) (e : AdjEntry) (after : List AdjEntry) (valid_to : ℕ)
    → IsU64 valid_to
    → All IsEntry (before ++ e ∷ after)
    → All IsEntry (before ++ closed e valid_to ∷ after)
entries-closed [] e after valid_to v h = (
  record {
    target_u64 = h.0.target_u64;
    edge_u64 = h.0.edge_u64;
    scope_u32 = h.0.scope_u32;
    valid_from_i64 = h.0.valid_from_i64;
    valid_to_i64 = v;
  },
  h.1,
)
entries-closed (d ∷ before) e after valid_to v h =
    (h.0, entries-closed before e after valid_to v h.1)

length-closed :
    (before : List AdjEntry) (e : AdjEntry) (after : List AdjEntry) (valid_to : ℕ)
    → length (before ++ closed e valid_to ∷ after) ≡ length (before ++ e ∷ after)
length-closed [] e after valid_to = refl
length-closed (d ∷ before) e after valid_to = omega (arith, length-closed before e after valid_to)

closed-Fits :
    (es before : List AdjEntry) (e : AdjEntry) (after : List AdjEntry) (valid_to : ℕ)
    → IsU64 valid_to
    → es ≡ before ++ e ∷ after
    → Fits es
    → Fits (before ++ closed e valid_to ∷ after)
closed-Fits es before e after valid_to v p fits = record {
  sorted = is_unsorted_complete 0 (before ++ closed e valid_to ∷ after) (
      IsSorted-closed 0 before e after valid_to
        (subst (λ r. IsSorted 0 r) p (is_unsorted_sound es fits.sorted)));
  entries = entries-closed before e after valid_to v (subst (λ r. All IsEntry r) p fits.entries);
  few =
      let same : length es ≡ length (before ++ e ∷ after) =
        ap (λ (r : List AdjEntry). length r) p in
      omega (arith, length-closed before e after valid_to, same, fits.few);
}

pub All-append :
    (P : AdjEntry → Type 0) (xs ys : List AdjEntry) → All P xs → All P ys → All P (xs ++ ys)
All-append P [] ys h k = k
All-append P (x ∷ xs) ys h k = (h.0, All-append P xs ys h.1 k)

pub flat_step :
    (init : Chunks) (k : ℕ) (es more : List AdjEntry)
    → flat (init ++ (k, es) ∷ []) ++ more ≡ flat init ++ (es ++ more)
unfolding flat
flat_step init k es more =
    ap (λ r. r ++ more) (flat-append init ((k, es) ∷ []) ∙ ap (λ r. flat init ++ r) (append-nil es))
    ∙ append_assoc (flat init) es more

module _ (lz4 : Lz4) (laws : IsLz4 lz4) (c : Chunks) (slot edge_type edge_slot valid_to : ℕ)
    (well : WellFormed c) (time : IsU64 valid_to) where
  -- The two outcomes of the walk over `rest`, the rows of the section after `init`.
  abbrev Walked : Chunks → Chunks → Type 0
  Walked init rest =
      ((close_chunks lz4 (blocks lz4 c) (keys (blocks lz4 rest)) edge_slot valid_to
          ≡ ok (false, blocks lz4 c))
        × All (Other edge_slot) (flat rest))
      ⊎ ((before : List AdjEntry) × (e : AdjEntry) × (after : List AdjEntry) × (c' : Chunks)
          × FirstOf edge_slot (flat rest) before e after
          × (close_chunks lz4 (blocks lz4 c) (keys (blocks lz4 rest)) edge_slot valid_to
              ≡ ok (true, blocks lz4 c'))
          × Updated c c' slot edge_type (flat init ++ (before ++ closed e valid_to ∷ after)))

  walk :
      (init rest : Chunks)
      → section_of c slot edge_type ≡ init ++ rest
      → All (Found c) rest
      → All FitsRow rest
      → Walked init rest
  unfolding close_chunks blocks flat close_in
  walk init [] e found fits = inl (refl, tt)
  walk init ((k, es) ∷ rest) e found fits =
      let load = load_chunk-blocks lz4 c k laws well.fits in
      elim (close_entry_cases es edge_slot valid_to) [
        | inr (before, d, after, (p, others, first), q) ↦
            let fits' = closed-Fits es before d after valid_to time p fits.0 in
            inr (
              before,
              d,
              after ++ flat rest,
              insert_row c k (before ++ closed d valid_to ∷ after),
              (
                ap (λ r. r ++ flat rest) p ∙ append_assoc before (d ∷ after) (flat rest),
                others,
                first,
              ),
              rw (load, found.0)
                  (rw q
                    (rw (store_chunk-blocks lz4 c k (before ++ closed d valid_to ∷ after) fits'))),
              subst
                  (λ r.
                    Updated c (insert_row c k (before ++ closed d valid_to ∷ after)) slot edge_type
                      (flat init ++ r))
                  (append_assoc before (closed d valid_to ∷ after) (flat rest))
                  (replaced c slot edge_type init rest k es (before ++ closed d valid_to ∷ after)
                    well e fits'),
            )
        | inl (q, absent) ↦
            elim (walk (init ++ (k, es) ∷ []) rest (e ∙ sym (append_assoc init ((k, es) ∷ []) rest))
              found.1 fits.1) [
                | inl (r, others) ↦ inl (
                  rw (load, found.0) (rw q r),
                  All-append (Other edge_slot) es (flat rest) absent others,
                )
                | inr (before, d, after, c', (p, others, first), r, updated) ↦ inr (
                  es ++ before,
                  d,
                  after,
                  c',
                  (
                    ap (λ t. es ++ t) p ∙ sym (append_assoc es before (d ∷ after)),
                    All-append (Other edge_slot) es before absent others,
                    first,
                  ),
                  rw (load, found.0) (rw q r),
                  subst (λ t. Updated c c' slot edge_type t)
                      (flat_step init k es (before ++ closed d valid_to ∷ after)
                        ∙ ap (λ t. flat init ++ t)
                            (sym (append_assoc es before (closed d valid_to ∷ after))))
                      updated,
                )
              ]
      ]

  -- On a well-formed table `adj_close` succeeds. Where no entry of the slot and type is of the edge,
  -- it answers no and leaves the table; else it answers yes, and closes the first such entry: the
  -- others, their order and the rows outside are as they were.
  pub adj_close_lem :
      ((adj_close lz4 (blocks lz4 c) slot edge_type edge_slot valid_to ≡ ok (false, blocks lz4 c))
        × All (Other edge_slot) (entries_of c slot edge_type))
      ⊎ ((before : List AdjEntry) × (e : AdjEntry) × (after : List AdjEntry) × (c' : Chunks)
          × FirstOf edge_slot (entries_of c slot edge_type) before e after
          × (adj_close lz4 (blocks lz4 c) slot edge_type edge_slot valid_to
              ≡ ok (true, blocks lz4 c'))
          × Updated c c' slot edge_type (before ++ closed e valid_to ∷ after))
  unfolding adj_close type_rows flat
  adj_close_lem =
      let low = low_key slot edge_type in
      let high = high_key slot edge_type in
      rw (range-blocks lz4 low high c) (
        walk [] (section_of c slot edge_type) refl
          (All-range (Found c) low high c (Ascends-Found c well.ascends))
          (All-range FitsRow low high c well.fits))
