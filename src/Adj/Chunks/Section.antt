-- ===== src/Adj/Chunks/Section.antt =====
-- crates/topodb/src/adj.rs: the rows of a slot and a type, and the row where `adj_insert` works.
use topo_db.Prelude.{
  ℕ, ◌≤◌, ◌≡◌, refl, sym, ap, ◌∙◌, subst, inl, inr, arith, none, some, List, [], ◌∷◌, ◌++◌, All,
}
use topo_db.Prelude.Rows.{insert_row, get_row, range, last_key, Ascends, Below}
use topo_db.Prelude.Rows.Ends.{
  Ascends-Ends, insert_row_last, get_row_last, get_row-range, Within, range-Within, range-Ascends,
  All-last,
}
use topo_db.Adj.Block.{AdjEntry}
use topo_db.Adj.Chunks.{u32_max, out_adj_key, key_chunk, chunk_of}
use topo_db.Adj.Chunks.Store.{Chunks, FitsRow, or_nil}
use mathlib.Core.List.{append_assoc, append-nil}

unfoldable pub flat : Chunks → List AdjEntry
flat [] = []
flat ((k, es) ∷ c) = es ++ flat c

pub flat-append : (c d : Chunks) → flat (c ++ d) ≡ flat c ++ flat d
unfolding flat
flat-append [] d = refl
flat-append ((k, es) ∷ c) d =
    ap (λ r. es ++ r) (flat-append c d) ∙ sym (append_assoc es (flat c) (flat d))

-- The rows under a slot and a type, and their entries in order.
abbrev pub low_key : ℕ → ℕ → ℕ
low_key slot edge_type = out_adj_key slot edge_type 0

abbrev pub high_key : ℕ → ℕ → ℕ
high_key slot edge_type = out_adj_key slot edge_type u32_max

abbrev pub section_of : Chunks → ℕ → ℕ → Chunks
section_of c slot edge_type = range (low_key slot edge_type) (high_key slot edge_type) c

abbrev pub entries_of : Chunks → ℕ → ℕ → List AdjEntry
entries_of c slot edge_type = flat (section_of c slot edge_type)

pub record WellFormed (c : Chunks) : Type 0 where
  pub ascends : Ascends c
  pub fits : All FitsRow c

-- Where `adj_insert` puts its entry: the last row of the section, or its first key.
pub record Current (c : Chunks) (slot edge_type : ℕ) (key : ℕ) : Type 0 where
  pub init : Chunks
  pub below : All (Below key) init
  pub low : low_key slot edge_type ≤ key
  pub high : key ≤ high_key slot edge_type
  pub flat_rows : entries_of c slot edge_type ≡ flat init ++ or_nil (get_row c key)
  pub put :
      (es : List AdjEntry)
      → insert_row (section_of c slot edge_type) key es ≡ init ++ (key, es) ∷ []

abbrev pub current_key : Chunks → ℕ → ℕ → ℕ
current_key c slot edge_type =
    out_adj_key slot edge_type (chunk_of (last_key (section_of c slot edge_type)))

pub key_back :
    (slot edge_type key : ℕ)
    → low_key slot edge_type ≤ key
    → key ≤ high_key slot edge_type
    → out_adj_key slot edge_type (key_chunk key) ≡ key
unfolding out_adj_key key_chunk
key_back slot edge_type key l h = omega arith

at_first_chunk :
    (c : Chunks) (slot edge_type : ℕ)
    → section_of c slot edge_type ≡ []
    → Current c slot edge_type (current_key c slot edge_type)
unfolding flat insert_row last_key get_row
at_first_chunk c slot edge_type e =
    let low = low_key slot edge_type in
    let bound : low_key slot edge_type ≤ high_key slot edge_type =
      unfold out_adj_key in omega arith in
    let gone : get_row c low ≡ none =
      sym (get_row-range c low (high_key slot edge_type) low (omega arith) bound)
      ∙ ap (λ r. get_row r low) e in
    rw e (record {
      init = [];
      below = tt;
      low = omega arith;
      high = bound;
      flat_rows = rw gone (ap flat e);
      put = λ es. ap (λ r. insert_row r low es) e;
    })

at_last_chunk :
    (c : Chunks) (slot edge_type : ℕ) (init : Chunks) (key : ℕ) (es : List AdjEntry)
    → section_of c slot edge_type ≡ init ++ (key, es) ∷ []
    → All (Below key) init
    → Current c slot edge_type key
unfolding flat
at_last_chunk c slot edge_type init key es e below =
    let within =
      All-last (Within (low_key slot edge_type) (high_key slot edge_type)) init (key, es)
        (subst (λ r. All (Within (low_key slot edge_type) (high_key slot edge_type)) r) e
          (range-Within (low_key slot edge_type) (high_key slot edge_type) c)) in
    let found : get_row c key ≡ some es =
      sym (get_row-range c (low_key slot edge_type) (high_key slot edge_type) key within.0 within.1)
      ∙ ap (λ r. get_row r key) e
      ∙ get_row_last init key es below in
    record {
      init = init;
      below = below;
      low = within.0;
      high = within.1;
      flat_rows = rw found (
          ap flat e ∙ flat-append init ((key, es) ∷ []) ∙ ap (λ r. flat init ++ r) (append-nil es));
      put = λ fs. rw e (insert_row_last init key es fs below);
    }

pub current :
    (c : Chunks) (slot edge_type : ℕ)
    → WellFormed c
    → Current c slot edge_type (current_key c slot edge_type)
current c slot edge_type well =
    let low = low_key slot edge_type in
    let high = high_key slot edge_type in
    elim (Ascends-Ends (section_of c slot edge_type) (range-Ascends low high c well.ascends)) [
      | inl e ↦ at_first_chunk c slot edge_type e
      | inr (init, key, es, e, last, below) ↦
          let cur = at_last_chunk c slot edge_type init key es e below in
          let same : current_key c slot edge_type ≡ key =
            ap (λ o. out_adj_key slot edge_type (chunk_of o)) last
            ∙ key_back slot edge_type key cur.low cur.high in
          subst (λ k. Current c slot edge_type k) (sym same) cur
    ]
