-- ===== src/Ids/Sets.antt =====
-- crates/topodb/src/ids.rs: the members of a scope set.
use mathlib.Core.List.{foldl}
use topo_db.Prelude.{
  ℕ, ◌<◌, Bool, true, false, ◌≡◌, refl, arith, List, [], ◌∷◌, ◌++◌, map, ◌==◌, ◌||◌, if◌then◌else◌,
}
use topo_db.Ids.{
  Scope, shared, id, ScopeSet, same_scope, set_insert, set_contains, of, with_shared, contains,
  iter_scopes,
}

set_contains-set_insert :
    (xs : List ℕ) (x y : ℕ) → set_contains (set_insert xs x) y ≡ (y == x || set_contains xs y)
unfolding set_contains set_insert
set_contains-set_insert [] x y = refl
set_contains-set_insert (z ∷ zs) x y = ground (arith, set_contains-set_insert zs x y)

set_contains-foldl :
    (ids xs : List ℕ) (y : ℕ)
    → set_contains (foldl set_insert xs ids) y ≡ (set_contains ids y || set_contains xs y)
unfolding set_contains
set_contains-foldl [] xs y = refl
set_contains-foldl (i ∷ ids) xs y =
    ground (arith, set_contains-foldl ids (set_insert xs i) y, set_contains-set_insert xs i y)

-- A set of ids holds just those scopes; `with_shared` adds the shared scope and nothing else.
pub contains-of :
    (ids : List ℕ) (s : Scope)
    → (contains (of ids) s ≡ elim s [ shared ↦ false | id i ↦ set_contains ids i ])
      × (contains (with_shared (of ids)) s ≡ (same_scope s shared || contains (of ids) s))
unfolding contains of with_shared set_contains
contains-of ids shared = (refl, refl)
contains-of ids (id i) = (ground (arith, set_contains-foldl ids [] i), refl)

-- An ascending list, with no repetition.
abbrev pub Rises : List ℕ → Type 0
Rises [] = Unit
Rises (x ∷ []) = Unit
Rises (x ∷ y ∷ r) = (x < y) × Rises (y ∷ r)

Rises-set_insert : (xs : List ℕ) (x : ℕ) → Rises xs → Rises (set_insert xs x)
unfolding set_insert
Rises-set_insert [] x h = tt
Rises-set_insert (y ∷ []) x h = ground arith
Rises-set_insert (y ∷ z ∷ r) x h = ground (arith, Rises-set_insert (z ∷ r) x h.1)

Rises-foldl : (ids xs : List ℕ) → Rises xs → Rises (foldl set_insert xs ids)
Rises-foldl [] xs h = h
Rises-foldl (i ∷ ids) xs h = Rises-foldl ids (set_insert xs i) (Rises-set_insert xs i h)

-- The ids of a scope set are ascending and distinct, whatever order they came in.
of-Rises : (ids : List ℕ) → Rises (of ids).ids
unfolding of
of-Rises ids = Rises-foldl ids [] tt

abbrev pub listed : List Scope → Scope → Bool
listed [] s = false
listed (t ∷ ts) s = same_scope s t || listed ts s

listed-ids :
    (ids : List ℕ) (s : Scope)
    → listed (map id ids) s ≡ elim s [ shared ↦ false | id i ↦ set_contains ids i ]
unfolding set_contains
listed-ids [] shared = refl
listed-ids [] (id i) = refl
listed-ids (x ∷ ids) shared = listed-ids ids shared
listed-ids (x ∷ ids) (id i) = ground (arith, listed-ids ids (id i))

-- `iter_scopes` lists a scope exactly when the set contains it.
listed-iter_scopes : (s : ScopeSet) (t : Scope) → listed (iter_scopes s) t ≡ contains s t
unfolding iter_scopes contains
listed-iter_scopes s shared =
    elim s.include_shared
      as (λ b. listed ((if b then shared ∷ [] else []) ++ map id s.ids) shared ≡ b) [
        | true ↦ refl
        | false ↦ listed-ids s.ids shared
      ]
listed-iter_scopes s (id i) =
    elim s.include_shared
      as (λ b.
        listed ((if b then shared ∷ [] else []) ++ map id s.ids) (id i) ≡ set_contains s.ids i) [
          | true ↦ listed-ids s.ids (id i)
          | false ↦ listed-ids s.ids (id i)
        ]
