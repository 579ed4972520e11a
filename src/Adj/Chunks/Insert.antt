-- ===== src/Adj/Chunks/Insert.antt =====
-- crates/topodb/src/adj.rs: the table after `adj_insert`, with its block whole or split.
use topo_db.Prelude.{
  ℕ, ◌+◌, ◌%◌, ◌^◌, ◌≤◌, ◌<◌, ◌≡◌, ◌⊎◌, sym, ap, ◌∙◌, inl, inr, arith, List, [], ◌∷◌, ◌++◌, All,
}
use topo_db.Prelude.Rows.{
  insert_row, get_row, range, Below, insert_row-Ascends, insert_row_end, range-insert_row_in,
  range-insert_row_out,
}
use topo_db.Prelude.Rows.Ends.{All-insert_row}
use topo_db.Adj.Block.{AdjEntry}
use topo_db.Adj.Chunks.{out_adj_key}
use topo_db.Adj.Chunks.Store.{Chunks, Fits, FitsRow, or_nil}
use topo_db.Adj.Chunks.Entries.{Added}
use topo_db.Adj.Chunks.Section.{
  flat, flat-append, low_key, high_key, section_of, entries_of, WellFormed, Current,
}
use mathlib.Core.List.{append_assoc, append-nil}

-- The table after an insertion: the entry is among those of its slot and type, and the rows outside
-- their range are as they were.
pub record Inserted (c c' : Chunks) (slot edge_type : ℕ) (entry : AdjEntry) : Type 0 where
  pub well : WellFormed c'
  pub added : Added entry (entries_of c slot edge_type) (entries_of c' slot edge_type)
  pub outside :
      (low high : ℕ)
      → (high < low_key slot edge_type) ⊎ (high_key slot edge_type < low)
      → range low high c' ≡ range low high c

Added-flat :
    (entry : AdjEntry) (head old new : List AdjEntry)
    → Added entry old new
    → Added entry (head ++ old) (head ++ new)
Added-flat entry head old new (before, after, p, q) = (
  head ++ before,
  after,
  ap (λ r. head ++ r) p ∙ sym (append_assoc head before after),
  ap (λ r. head ++ r) q ∙ sym (append_assoc head before (entry ∷ after)),
)

pub range_outside :
    (c : Chunks) (slot edge_type key low high : ℕ) (es : List AdjEntry)
    → low_key slot edge_type ≤ key
    → key ≤ high_key slot edge_type
    → (high < low_key slot edge_type) ⊎ (high_key slot edge_type < low)
    → range low high (insert_row c key es) ≡ range low high c
range_outside c slot edge_type key low high es l h (inl p) =
    range-insert_row_out c low high key es (ground arith)
range_outside c slot edge_type key low high es l h (inr p) =
    range-insert_row_out c low high key es (ground arith)

-- The block is stored whole.
pub put_whole :
    (c : Chunks) (slot edge_type key : ℕ) (entry : AdjEntry) (es : List AdjEntry)
    → WellFormed c
    → Current c slot edge_type key
    → Fits es
    → Added entry (or_nil (get_row c key)) es
    → Inserted c (insert_row c key es) slot edge_type entry
unfolding flat
put_whole c slot edge_type key entry es well cur fits add =
    let low = low_key slot edge_type in
    let high = high_key slot edge_type in
    let rows : section_of (insert_row c key es) slot edge_type ≡ cur.init ++ (key, es) ∷ [] =
      range-insert_row_in c low high key es well.ascends cur.low cur.high ∙ cur.put es in
    let flat' : entries_of (insert_row c key es) slot edge_type ≡ flat cur.init ++ es =
      ap flat rows
      ∙ flat-append cur.init ((key, es) ∷ [])
      ∙ ap (λ r. flat cur.init ++ r) (append-nil es) in
    record {
      well = record {
        ascends = insert_row-Ascends c key es well.ascends;
        fits = All-insert_row FitsRow c key es well.fits fits;
      };
      added =
          rw (flat', cur.flat_rows)
            (Added-flat entry (flat cur.init) (or_nil (get_row c key)) es add);
      outside = λ low' high' p. range_outside c slot edge_type key low' high' es cur.low cur.high p;
    }

pub next_key :
    (slot edge_type chunk : ℕ)
    → chunk + 1 < 2 ^ 32
    → out_adj_key slot edge_type ((chunk + 1) % 2 ^ 32) ≡ out_adj_key slot edge_type chunk + 1
unfolding out_adj_key
next_key slot edge_type chunk h = omega arith

All-Below-next :
    (init : Chunks) (key : ℕ) (es : List AdjEntry)
    → All (Below key) init
    → All (Below (key + 1)) (init ++ (key, es) ∷ [])
All-Below-next [] key es h = (omega arith, tt)
All-Below-next ((j, fs) ∷ init) key es h = (omega (arith, h.0), All-Below-next init key es h.1)

-- The block is stored as two, under its key and the next.
pub put_halved :
    (c : Chunks) (slot edge_type key : ℕ) (entry : AdjEntry) (first second : List AdjEntry)
    → WellFormed c
    → Current c slot edge_type key
    → key + 1 ≤ high_key slot edge_type
    → Fits first
    → Fits second
    → Added entry (or_nil (get_row c key)) (first ++ second)
    → Inserted c (insert_row (insert_row c key first) (key + 1) second) slot edge_type entry
unfolding flat
put_halved c slot edge_type key entry first second well cur room fits fits' add =
    let low = low_key slot edge_type in
    let high = high_key slot edge_type in
    let c1 = insert_row c key first in
    let ascends1 = insert_row-Ascends c key first well.ascends in
    let above : low_key slot edge_type ≤ key + 1 = omega (arith, cur.low) in
    let rows1 : section_of c1 slot edge_type ≡ cur.init ++ (key, first) ∷ [] =
      range-insert_row_in c low high key first well.ascends cur.low cur.high ∙ cur.put first in
    let rows : section_of (insert_row c1 (key + 1) second) slot edge_type
        ≡ (cur.init ++ (key, first) ∷ []) ++ (key + 1, second) ∷ [] =
      range-insert_row_in c1 low high (key + 1) second ascends1 above room
      ∙ ap (λ r. insert_row r (key + 1) second) rows1
      ∙ insert_row_end (cur.init ++ (key, first) ∷ []) (key + 1) second
          (All-Below-next cur.init key first cur.below) in
    let flat' : entries_of (insert_row c1 (key + 1) second) slot edge_type
        ≡ flat cur.init ++ (first ++ second) =
      ap flat rows
      ∙ ap flat (append_assoc cur.init ((key, first) ∷ []) ((key + 1, second) ∷ []))
      ∙ flat-append cur.init ((key, first) ∷ (key + 1, second) ∷ [])
      ∙ ap (λ r. flat cur.init ++ (first ++ r)) (append-nil second) in
    record {
      well = record {
        ascends = insert_row-Ascends c1 (key + 1) second ascends1;
        fits =
            All-insert_row FitsRow c1 (key + 1) second
              (All-insert_row FitsRow c key first well.fits fits) fits';
      };
      added =
          rw (flat', cur.flat_rows)
            (Added-flat entry (flat cur.init) (or_nil (get_row c key)) (first ++ second) add);
      outside = λ low' high' p.
          range_outside c1 slot edge_type (key + 1) low' high' second above room p
          ∙ range_outside c slot edge_type key low' high' first cur.low cur.high p;
    }
