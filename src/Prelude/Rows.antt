-- ===== src/Prelude/Rows.antt =====
-- A table of the key-value store as the list of its rows in key order, where the code scans ranges of
-- keys. A key of fixed width is the number whose big-endian bytes it is: their orders agree.
pub mod Ends
pub mod Removal
use Prim.Native.Nat.{ℕ, ◌≤◌, ◌<◌}
use mathlib.Core.Path.{◌≡◌, refl, sym}
use mathlib.Core.Bool.{false, ◌&&◌}
use mathlib.Core.Option.{Option, none, some}
use mathlib.Core.List.{List, [], ◌∷◌, ◌++◌}
use native.Mathlib.Omega.{arith}
use topo_db.Prelude.Tests.{ltb, leb, ◌==◌, if◌then◌else◌}
use topo_db.Prelude.Lists.{All}

module _ {V : Type 0} where
  -- `table.last()`, the greatest key
  unfoldable pub last_key : List (ℕ × V) → Option ℕ
  last_key [] = none
  last_key ((k, v) ∷ []) = some k
  last_key ((k, v) ∷ (row ∷ rows)) = last_key (row ∷ rows)

  -- `table.insert(key, value)`, in key order
  unfoldable pub insert_row : List (ℕ × V) → ℕ → V → List (ℕ × V)
  insert_row [] k v = (k, v) ∷ []
  insert_row ((j, w) ∷ rows) k v =
      if ltb k j
      then (k, v) ∷ ((j, w) ∷ rows)
      else if k == j
      then (k, v) ∷ rows
      else (j, w) ∷ insert_row rows k v

  -- `table.remove(key)`
  unfoldable pub remove_row : List (ℕ × V) → ℕ → List (ℕ × V)
  remove_row [] k = []
  remove_row ((j, w) ∷ rows) k = if j == k then remove_row rows k else (j, w) ∷ remove_row rows k

  -- `table.get(key)`
  unfoldable pub get_row : List (ℕ × V) → ℕ → Option V
  get_row [] k = none
  get_row ((j, w) ∷ rows) k = if j == k then some w else get_row rows k

  -- `table.range(low..=high)`
  unfoldable pub range : ℕ → ℕ → List (ℕ × V) → List (ℕ × V)
  range low high [] = []
  range low high ((k, v) ∷ rows) =
      if leb low k && leb k high then (k, v) ∷ range low high rows else range low high rows

  abbrev pub Above : ℕ → ℕ × V → Type 0
  Above k (j, w) = k < j

  abbrev pub Below : ℕ → ℕ × V → Type 0
  Below k (j, w) = j < k

  -- The keys rise.
  abbrev pub Ascends : List (ℕ × V) → Type 0
  Ascends [] = Unit
  Ascends ((k, v) ∷ rows) = All (Above k) rows × Ascends rows

  All-Above : (j k : ℕ) (rows : List (ℕ × V)) → j < k → All (Above k) rows → All (Above j) rows
  All-Above j k [] h a = tt
  All-Above j k ((i, v) ∷ rows) h a = (omega (arith, a.0), All-Above j k rows h a.1)

  All-Above-insert_row :
      (j k : ℕ) (v : V) (rows : List (ℕ × V))
      → j < k
      → All (Above j) rows
      → All (Above j) (insert_row rows k v)
  unfolding insert_row
  All-Above-insert_row j k v [] h a = (h, tt)
  All-Above-insert_row j k v ((i, w) ∷ rows) h a =
      ground (arith, All-Above-insert_row j k v rows h a.1)

  pub insert_row-Ascends :
      (rows : List (ℕ × V)) (k : ℕ) (v : V) → Ascends rows → Ascends (insert_row rows k v)
  unfolding insert_row
  insert_row-Ascends [] k v h = (tt, tt)
  insert_row-Ascends ((j, w) ∷ rows) k v h = ground (
    arith,
    λ (p : k < j). All-Above k j rows p h.0,
    insert_row-Ascends rows k v h.1,
    λ (p : j < k). All-Above-insert_row j k v rows p h.0,
    h.0,
    h.1,
  )

  insert_row_front :
      (rows : List (ℕ × V)) (k : ℕ) (v : V)
      → All (Above k) rows
      → insert_row rows k v ≡ (k, v) ∷ rows
  unfolding insert_row
  insert_row_front [] k v h = refl
  insert_row_front ((j, w) ∷ rows) k v h = ground (arith, h.0)

  pub insert_row_end :
      (rows : List (ℕ × V)) (k : ℕ) (v : V)
      → All (Below k) rows
      → insert_row rows k v ≡ rows ++ (k, v) ∷ []
  unfolding insert_row
  insert_row_end [] k v h = refl
  insert_row_end ((j, w) ∷ rows) k v h = ground (arith, h.0, insert_row_end rows k v h.1)

  pub All-range :
      (P : ℕ × V → Type 0) (low high : ℕ) (rows : List (ℕ × V))
      → All P rows
      → All P (range low high rows)
  unfolding range
  All-range P low high [] h = tt
  All-range P low high ((j, w) ∷ rows) h = ground (arith, h.0, All-range P low high rows h.1)

  pub range-insert_row_in :
      (rows : List (ℕ × V)) (low high k : ℕ) (v : V)
      → Ascends rows
      → low ≤ k
      → k ≤ high
      → range low high (insert_row rows k v) ≡ insert_row (range low high rows) k v
  unfolding range insert_row
  range-insert_row_in [] low high k v a l h = ground arith
  range-insert_row_in ((j, w) ∷ rows) low high k v a l h = ground (
    arith,
    λ (p : k < j).
        insert_row_front (range low high rows) k v
          (All-range (Above k) low high rows (All-Above k j rows p a.0)),
    λ (p : k ≡ j).
        insert_row_front (range low high rows) k v
          (All-range (Above k) low high rows (rw (sym p) at a.0)),
    range-insert_row_in rows low high k v a.1 l h,
  )

  pub range-insert_row_out :
      (rows : List (ℕ × V)) (low high k : ℕ) (v : V)
      → (leb low k && leb k high) ≡ false
      → range low high (insert_row rows k v) ≡ range low high rows
  unfolding range insert_row
  range-insert_row_out [] low high k v out = ground arith
  range-insert_row_out ((j, w) ∷ rows) low high k v out =
      ground (arith, range-insert_row_out rows low high k v out)
