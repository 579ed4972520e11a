-- ===== src/Prelude/Table.antt =====
-- A table of the key-value store, as the function that its reads compute. The engine's point reads
-- and writes go by key alone, so the order of the rows is not part of the state.
use Prim.Native.Nat.{ℕ}
use mathlib.Core.Path.{◌≡◌, refl, sym, ap, ◌∙◌, fun_ext}
use mathlib.Core.Logic.{◌↔◌, inl, inr}
use mathlib.Core.Bool.{Bool, true}
use mathlib.Core.Option.{Option, none, some}
use topo_db.Prelude.Tests.{◌==◌, ==_iff, Bool-cases, if◌then◌else◌}

pub record Key (K : Type 0) : Type 0 where
  pub same : K → K → Bool
  pub same_iff : (a b : K) → (same a b ≡ true) ↔ (a ≡ b)

instance abbrev pub nat_key : Key ℕ
nat_key = record { same = ◌==◌; same_iff = ==_iff }

abbrev pub Table : Type 0 → Type 0 → Type 0
Table K V = K → Option V

abbrev pub empty : {K V : Type 0} → Table K V
empty k = none

pub same_refl : {K : Type 0} ⦃key : Key K⦄ (k : K) → key.same k k ≡ true
same_refl ⦃key⦄ k = (key.same_iff k k).1 refl

module _ {K V : Type 0} ⦃key : Key K⦄ where
  unfoldable pub insert : Table K V → K → V → Table K V
  insert t k v j = if key.same j k then some v else t j

  unfoldable pub remove : Table K V → K → Table K V
  remove t k j = if key.same j k then none else t j

  pub insert_self : (t : Table K V) (k : K) (v : V) → insert t k v k ≡ some v
  unfolding insert
  insert_self t k v = rw (same_refl k)

  pub remove_self : (t : Table K V) (k : K) → remove t k k ≡ none
  unfolding remove
  remove_self t k = rw (same_refl k)

  -- Writing a new row and removing it again gives back the table.
  pub remove-insert : (t : Table K V) (k : K) (v : V) → t k ≡ none → remove (insert t k v) k ≡ t
  unfolding insert remove
  remove-insert t k v e = fun_ext (λ j. elim (Bool-cases (key.same j k)) [
    | inl here ↦ rw here (sym (ap t ((key.same_iff j k).0 here) ∙ e))
    | inr other ↦ rw other
  ])
