-- ===== src/Ids.antt =====
-- crates/topodb/src/ids.rs: scopes and scope sets. An id is its 128-bit number; the layout of a ULID
-- is that of the `ulid` crate and is not modelled.
pub mod Sets
mod Tests
use topo_db.Prelude.{
  ℕ, Bool, true, false, ◌≡◌, ◌↔◌, refl, arith, List, [], ◌∷◌, ◌++◌, map, ltb, ◌==◌, ◌||◌,
  if◌then◌else◌,
}
use topo_db.Prelude.Table.{Key}
use mathlib.Core.List.{foldl}

pub data Scope : Type 0 where
  shared : Scope
  id : ℕ → Scope

-- The derived equality.
abbrev pub same_scope : Scope → Scope → Bool
same_scope shared shared = true
same_scope (id a) (id b) = a == b
same_scope _ _ = false

pub same_scope_iff : (a b : Scope) → (same_scope a b ≡ true) ↔ (a ≡ b)
same_scope_iff shared shared = (λ h. refl, λ h. refl)
same_scope_iff shared (id b) = (λ h. cc, λ h. cc)
same_scope_iff (id a) shared = (λ h. cc, λ h. cc)
same_scope_iff (id a) (id b) = ground arith

instance abbrev pub scope_key : Key Scope
scope_key = record { same = same_scope; same_iff = same_scope_iff }

-- The mandatory filter of every read. The `BTreeSet` is its ascending list.
pub record ScopeSet : Type 0 where
  pub include_shared : Bool
  pub ids : List ℕ

-- `BTreeSet::insert`
unfoldable pub set_insert : List ℕ → ℕ → List ℕ
set_insert [] x = x ∷ []
set_insert (y ∷ ys) x =
    if x == y then y ∷ ys else if ltb x y then x ∷ (y ∷ ys) else y ∷ set_insert ys x

-- `BTreeSet::contains`
unfoldable pub set_contains : List ℕ → ℕ → Bool
set_contains [] x = false
set_contains (y ∷ ys) x = x == y || set_contains ys x

unfoldable pub of : List ℕ → ScopeSet
of ids = record { include_shared = false; ids = foldl set_insert [] ids }

unfoldable pub with_shared : ScopeSet → ScopeSet
with_shared s = record s { include_shared = true }

unfoldable pub contains : ScopeSet → Scope → Bool
contains s shared = s.include_shared
contains s (id i) = set_contains s.ids i

unfoldable pub iter_scopes : ScopeSet → List Scope
iter_scopes s = (if s.include_shared then shared ∷ [] else []) ++ map id s.ids
