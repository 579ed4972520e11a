-- ===== src/Prelude/Rows/Ends.antt =====
-- The last row of a range of ordered rows, and what point reads see of a range.
use topo_db.Prelude.Lists.{All}
use topo_db.Prelude.Rows.{last_key, insert_row, get_row, range, Above, Below, Ascends}
use Prim.Native.Nat.{ℕ, ◌≤◌}
use mathlib.Core.Path.{◌≡◌, refl, subst, ap}
use mathlib.Core.Logic.{◌⊎◌, inl, inr}
use mathlib.Core.Option.{none, some}
use mathlib.Core.List.{List, [], ◌∷◌, ◌++◌}
use native.Mathlib.Omega.{arith}

module _ {V : Type 0} where
  -- The rows are none, or some rows and a last one above them.
  abbrev pub Ends : List (ℕ × V) → Type 0
  Ends rows =
      (rows ≡ [])
      ⊎ ((init : List (ℕ × V)) × (k : ℕ) × (v : V) × (rows ≡ init ++ (k, v) ∷ [])
          × (last_key rows ≡ some k)
          × All (Below k) init)

  pub All-last :
      (P : ℕ × V → Type 0) (init : List (ℕ × V)) (r : ℕ × V) → All P (init ++ r ∷ []) → P r
  All-last P [] r h = h.0
  All-last P (q ∷ init) r h = All-last P init r h.1

  pub Ascends-Ends : (rows : List (ℕ × V)) → Ascends rows → Ends rows
  unfolding last_key
  Ascends-Ends [] h = inl refl
  Ascends-Ends ((j, w) ∷ []) h = inr ([], j, w, refl, refl, tt)
  Ascends-Ends ((j, w) ∷ (row ∷ rows)) h = elim (Ascends-Ends (row ∷ rows) h.1) [
    | inl e ↦ absurd (cc)
    | inr (init, k, v, e, l, below) ↦ inr (
      (j, w) ∷ init,
      k,
      v,
      ap (λ r. (j, w) ∷ r) e,
      l,
      (All-last (Above j) init (k, v) (subst (λ r. All (Above j) r) e h.0), below),
    )
  ]

  pub insert_row_last :
      (init : List (ℕ × V)) (k : ℕ) (w v : V)
      → All (Below k) init
      → insert_row (init ++ (k, w) ∷ []) k v ≡ init ++ (k, v) ∷ []
  unfolding insert_row
  insert_row_last [] k w v h = ground arith
  insert_row_last ((j, u) ∷ init) k w v h = ground (arith, h.0, insert_row_last init k w v h.1)

  pub get_row_last :
      (init : List (ℕ × V)) (k : ℕ) (v : V)
      → All (Below k) init
      → get_row (init ++ (k, v) ∷ []) k ≡ some v
  unfolding get_row
  get_row_last [] k v h = ground arith
  get_row_last ((j, u) ∷ init) k v h = ground (arith, h.0, get_row_last init k v h.1)

  pub get_row-range :
      (rows : List (ℕ × V)) (low high k : ℕ)
      → low ≤ k
      → k ≤ high
      → get_row (range low high rows) k ≡ get_row rows k
  unfolding get_row range
  get_row-range [] low high k l h = refl
  get_row-range ((j, w) ∷ rows) low high k l h = ground (arith, get_row-range rows low high k l h)

  pub All-insert_row :
      (P : ℕ × V → Type 0) (rows : List (ℕ × V)) (k : ℕ) (v : V)
      → All P rows
      → P (k, v)
      → All P (insert_row rows k v)
  unfolding insert_row
  All-insert_row P [] k v h p = (p, tt)
  All-insert_row P ((j, w) ∷ rows) k v h p =
      ground (arith, h.0, h.1, p, All-insert_row P rows k v h.1 p)

  abbrev pub Within : ℕ → ℕ → ℕ × V → Type 0
  Within low high (k, v) = (low ≤ k) × (k ≤ high)

  pub range-Within :
      (low high : ℕ) (rows : List (ℕ × V)) → All (Within low high) (range low high rows)
  unfolding range
  range-Within low high [] = tt
  range-Within low high ((j, w) ∷ rows) = ground (arith, range-Within low high rows)

  pub range-Ascends :
      (low high : ℕ) (rows : List (ℕ × V)) → Ascends rows → Ascends (range low high rows)
  unfolding range
  range-Ascends low high [] h = tt
  range-Ascends low high ((j, w) ∷ rows) h =
      ground (arith, range-Ascends low high rows h.1, above rows h.0)
    where
      above : (rows : List (ℕ × V)) → All (Above j) rows → All (Above j) (range low high rows)
      above [] h = tt
      above ((i, u) ∷ rows) h = ground (arith, h.0, above rows h.1)

  get_row-Above :
      (rows : List (ℕ × V)) (j k : ℕ) → All (Above j) rows → k ≤ j → get_row rows k ≡ none
  unfolding get_row
  get_row-Above [] j k h l = refl
  get_row-Above ((i, u) ∷ rows) j k h l = ground (arith, h.0, get_row-Above rows j k h.1 l)

  abbrev pub Found : List (ℕ × V) → ℕ × V → Type 0
  Found rows (k, v) = get_row rows k ≡ some v

  Found-more :
      (j : ℕ) (w : V) (rows more : List (ℕ × V))
      → All (Above j) more
      → All (Found rows) more
      → All (Found ((j, w) ∷ rows)) more
  unfolding get_row
  Found-more j w rows [] a h = tt
  Found-more j w rows ((k, v) ∷ more) a h =
      (ground (arith, a.0, h.0), Found-more j w rows more a.1 h.1)

  -- A point read of a key gives its row.
  pub Ascends-Found : (rows : List (ℕ × V)) → Ascends rows → All (Found rows) rows
  unfolding get_row
  Ascends-Found [] h = tt
  Ascends-Found ((j, w) ∷ rows) h =
      (ground arith, Found-more j w rows rows h.0 (Ascends-Found rows h.1))

  pub All-at :
      (P : ℕ × V → Type 0) (init : List (ℕ × V)) (r : ℕ × V) (rest : List (ℕ × V))
      → All P (init ++ r ∷ rest)
      → P r
  All-at P [] r rest h = h.0
  All-at P (q ∷ init) r rest h = All-at P init r rest h.1

  pub insert_row_middle :
      (init : List (ℕ × V)) (k : ℕ) (w v : V) (rest : List (ℕ × V))
      → Ascends (init ++ (k, w) ∷ rest)
      → insert_row (init ++ (k, w) ∷ rest) k v ≡ init ++ (k, v) ∷ rest
  unfolding insert_row
  insert_row_middle [] k w v rest h = ground arith
  insert_row_middle ((j, u) ∷ init) k w v rest h =
      ground (arith, All-at (Above j) init (k, w) rest h.0, insert_row_middle init k w v rest h.1)
