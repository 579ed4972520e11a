-- ===== src/Adj/Chunks/Update.antt =====
-- crates/topodb/src/adj.rs: a row of a table that is written again.
use topo_db.Prelude.{ℕ, ◌<◌, ◌≡◌, ◌⊎◌, ap, subst, ◌∙◌, List, ◌∷◌, ◌++◌, All}
use topo_db.Prelude.Rows.{insert_row, range, Ascends, insert_row-Ascends, range-insert_row_in}
use topo_db.Prelude.Rows.Ends.{
  insert_row_middle, All-at, All-insert_row, Within, range-Within, range-Ascends,
}
use topo_db.Adj.Block.{AdjEntry}
use topo_db.Adj.Chunks.Store.{Chunks, Fits, FitsRow}
use topo_db.Adj.Chunks.Section.{
  flat, flat-append, low_key, high_key, section_of, entries_of, WellFormed,
}
use topo_db.Adj.Chunks.Insert.{range_outside}

-- The table after an update in place: the entries of a slot and a type are `es`, and the rows outside
-- their range are as they were.
pub record Updated (c c' : Chunks) (slot edge_type : ℕ) (es : List AdjEntry) : Type 0 where
  pub well : WellFormed c'
  pub now : entries_of c' slot edge_type ≡ es
  pub outside :
      (low high : ℕ)
      → (high < low_key slot edge_type) ⊎ (high_key slot edge_type < low)
      → range low high c' ≡ range low high c

-- A row of the section gets other entries.
pub replaced :
    (c : Chunks) (slot edge_type : ℕ) (init rest : Chunks) (key : ℕ) (es fs : List AdjEntry)
    → WellFormed c
    → section_of c slot edge_type ≡ init ++ (key, es) ∷ rest
    → Fits fs
    → Updated c (insert_row c key fs) slot edge_type (flat init ++ (fs ++ flat rest))
unfolding flat
replaced c slot edge_type init rest key es fs well e fits =
    let low = low_key slot edge_type in
    let high = high_key slot edge_type in
    let within =
      All-at (Within low high) init (key, es) rest
        (subst (λ r. All (Within low high) r) e (range-Within low high c)) in
    let ascends = subst (λ r. Ascends r) e (range-Ascends low high c well.ascends) in
    let rows : section_of (insert_row c key fs) slot edge_type ≡ init ++ (key, fs) ∷ rest =
      range-insert_row_in c low high key fs well.ascends within.0 within.1
      ∙ ap (λ r. insert_row r key fs) e
      ∙ insert_row_middle init key es fs rest ascends in
    record {
      well = record {
        ascends = insert_row-Ascends c key fs well.ascends;
        fits = All-insert_row FitsRow c key fs well.fits fits;
      };
      now = ap flat rows ∙ flat-append init ((key, fs) ∷ rest);
      outside =
          λ low' high' p. range_outside c slot edge_type key low' high' fs within.0 within.1 p;
    }
