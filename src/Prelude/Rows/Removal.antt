-- ===== src/Prelude/Rows/Removal.antt =====
-- Ordered rows with the row of a key taken out.
use topo_db.Prelude.Tests.{leb}
use topo_db.Prelude.Lists.{All}
use topo_db.Prelude.Rows.{remove_row, range, Above, Ascends}
use topo_db.Prelude.Rows.Ends.{All-at}
use Prim.Native.Nat.{ℕ}
use mathlib.Core.Path.{◌≡◌, refl}
use mathlib.Core.Bool.{false, ◌&&◌}
use mathlib.Core.List.{List, [], ◌∷◌, ◌++◌}
use native.Mathlib.Omega.{arith}

module _ {V : Type 0} where
  pub All-remove_row :
      (P : ℕ × V → Type 0) (rows : List (ℕ × V)) (k : ℕ) → All P rows → All P (remove_row rows k)
  unfolding remove_row
  All-remove_row P [] k h = tt
  All-remove_row P ((j, w) ∷ rows) k h = ground (arith, h.0, All-remove_row P rows k h.1)

  pub remove_row-Ascends :
      (rows : List (ℕ × V)) (k : ℕ) → Ascends rows → Ascends (remove_row rows k)
  unfolding remove_row
  remove_row-Ascends [] k h = tt
  remove_row-Ascends ((j, w) ∷ rows) k h =
      ground (arith, All-remove_row (Above j) rows k h.0, remove_row-Ascends rows k h.1)

  pub range-remove_row :
      (rows : List (ℕ × V)) (low high k : ℕ)
      → range low high (remove_row rows k) ≡ remove_row (range low high rows) k
  unfolding range remove_row
  range-remove_row [] low high k = refl
  range-remove_row ((j, w) ∷ rows) low high k = ground (arith, range-remove_row rows low high k)

  pub range-remove_row_out :
      (rows : List (ℕ × V)) (low high k : ℕ)
      → (leb low k && leb k high) ≡ false
      → range low high (remove_row rows k) ≡ range low high rows
  unfolding range remove_row
  range-remove_row_out [] low high k out = refl
  range-remove_row_out ((j, w) ∷ rows) low high k out =
      ground (arith, range-remove_row_out rows low high k out)

  remove_row_greater : (rows : List (ℕ × V)) (k : ℕ) → All (Above k) rows → remove_row rows k ≡ rows
  unfolding remove_row
  remove_row_greater [] k h = refl
  remove_row_greater ((j, w) ∷ rows) k h = ground (arith, h.0, remove_row_greater rows k h.1)

  pub remove_row_middle :
      (init : List (ℕ × V)) (k : ℕ) (w : V) (rest : List (ℕ × V))
      → Ascends (init ++ (k, w) ∷ rest)
      → remove_row (init ++ (k, w) ∷ rest) k ≡ init ++ rest
  unfolding remove_row
  remove_row_middle [] k w rest h = ground (arith, remove_row_greater rest k h.0)
  remove_row_middle ((j, u) ∷ init) k w rest h =
      ground (arith, All-at (Above j) init (k, w) rest h.0, remove_row_middle init k w rest h.1)
