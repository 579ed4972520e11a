-- ===== src/Op/Validate/Visible.antt =====
-- crates/topodb/src/validate.rs: what the scope rule of an edge means to its readers.
use topo_db.Prelude.{ℕ, ◌≡◌, ◌↔◌, ◌⊎◌, inl, inr, refl, subst, arith, true, ◌||◌, [], ◌∷◌}
use topo_db.Ids.{
  Scope, shared, id, same_scope, ScopeSet, of, with_shared, contains, set_insert, set_contains,
}
use topo_db.Op.Validate.{edge_scope_is_valid}

-- A pair of endpoints that `apply_op` admits: two different projects never meet.
abbrev pub IsLegalPair : Scope → Scope → Type 0
IsLegalPair (id a) (id b) = a ≡ b
IsLegalPair from to = Unit

-- A reader that sees the shared scope and both endpoints also sees the edge.
abbrev pub IsReadable : Scope → Scope → Scope → Type 0
IsReadable edge from to =
    (s : ScopeSet)
    → s.include_shared ≡ true
    → contains s from ≡ true
    → contains s to ≡ true
    → contains s edge ≡ true

abbrev reader : ℕ → ScopeSet
reader a = with_shared (of (a ∷ []))

reader-contains : (a : ℕ) → contains (reader a) (id a) ≡ true
unfolding contains with_shared of set_insert set_contains
reader-contains a = ground arith

reader-shared : (a : ℕ) → (reader a).include_shared ≡ true
unfolding with_shared of
reader-shared a = refl

contains-reader : (a : ℕ) → contains (reader a) shared ≡ true
unfolding contains with_shared
contains-reader a = refl

reader-only : (a b : ℕ) → contains (reader a) (id b) ≡ true → b ≡ a
unfolding contains with_shared of set_insert set_contains
reader-only a b h = ground arith

valid-IsReadable :
    (edge from to : Scope) (a : ℕ)
    → (from ≡ id a) ⊎ (to ≡ id a)
    → IsLegalPair from to
    → edge_scope_is_valid edge from to ≡ true
    → IsReadable edge from to
unfolding edge_scope_is_valid contains
valid-IsReadable shared from to a p legal v s sh f t = sh
valid-IsReadable (id e) shared shared a p legal v s sh f t = absurd (ground arith)
valid-IsReadable (id e) shared (id b) a p legal v s sh f t = ground arith
valid-IsReadable (id e) (id b) to a p legal v s sh f t = ground arith

edge-of :
    (edge : Scope) (a : ℕ)
    → contains (reader a) edge ≡ true
    → (same_scope edge (id a) || same_scope edge shared) ≡ true
edge-of shared a h = refl
edge-of (id b) a h = ground (arith, reader-only a b h)

reader-sees :
    (edge from to : Scope) (a : ℕ)
    → contains (reader a) from ≡ true
    → contains (reader a) to ≡ true
    → IsReadable edge from to
    → (same_scope edge (id a) || same_scope edge shared) ≡ true
reader-sees edge from to a f t r = edge-of edge a (r (reader a) (reader-shared a) f t)

-- An edge between legal endpoints has a valid scope exactly when both endpoints are shared, or when
-- every reader of the shared scope that sees both endpoints also sees the edge.
pub edge_scope_is_valid_iff :
    (edge from to : Scope)
    → IsLegalPair from to
    → (edge_scope_is_valid edge from to ≡ true)
      ↔ (((from ≡ shared) × (to ≡ shared)) ⊎ IsReadable edge from to)
unfolding edge_scope_is_valid
edge_scope_is_valid_iff edge shared shared legal = (λ v. inl (refl, refl), λ r. refl)
edge_scope_is_valid_iff edge shared (id b) legal = (
  λ v. inr (valid-IsReadable edge shared (id b) b (inr refl) legal v),
  λ r. elim r [
    | inl both ↦ absurd (let bad : id b ≡ shared = both.1 in cc)
    | inr see ↦ reader-sees edge shared (id b) b (contains-reader b) (reader-contains b) see
  ],
)
edge_scope_is_valid_iff edge (id a) shared legal = (
  λ v. inr (valid-IsReadable edge (id a) shared a (inl refl) legal v),
  λ r. elim r [
    | inl both ↦ absurd (let bad : id a ≡ shared = both.0 in cc)
    | inr see ↦ reader-sees edge (id a) shared a (reader-contains a) (contains-reader a) see
  ],
)
edge_scope_is_valid_iff edge (id a) (id b) legal = (
  λ v. inr (valid-IsReadable edge (id a) (id b) a (inl refl) legal v),
  λ r. elim r [
    | inl both ↦ absurd (let bad : id a ≡ shared = both.0 in cc)
    | inr see ↦
        reader-sees edge (id a) (id b) a (reader-contains a)
          (subst (λ x. contains (reader a) (id x) ≡ true) legal (reader-contains a)) see
  ],
)
