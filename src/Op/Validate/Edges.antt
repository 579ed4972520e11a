-- ===== src/Op/Validate/Edges.antt =====
-- crates/topodb/src/validate.rs: the batches whose edges the scope check lets through.
use topo_db.Prelude.{
  ℕ, ◌≡◌, ◌↔◌, refl, sym, ap, ◌∙◌, Bool, true, false, List, [], ◌∷◌, ◌++◌, Option, if◌then◌else◌,
  none, some, ◌⊎◌, inl, inr, Option-cases, subst,
}
use topo_db.Prelude.Int.{ℤ}
use topo_db.Prelude.Table.{Table, insert, empty, nat_key}
use topo_db.Prelude.Outcome.{ok, err, Result, TopoError, rejected}
use topo_db.Ids.{Scope}
use topo_db.Op.{Op, create_node, create_edge, EdgeSpec}
use topo_db.Op.Validate.{
  scope_of, edge_scope_check, edge_scope_is_valid, prevalidate_edge_scopes_loop,
  prevalidate_edge_scopes,
}

-- The scopes of the nodes that a batch creates, the last creation of an id standing.
abbrev pub created_scopes : Table ℕ Scope → List Op → Table ℕ Scope
created_scopes made [] = made
created_scopes made (create_node node scope label props ∷ ops) =
    created_scopes (insert made node scope) ops
created_scopes made (op ∷ ops) = created_scopes made ops

-- Every edge of the batch passes the check under the scopes known at its place.
abbrev Checked : Table ℕ Scope → Table ℕ Scope → List Op → Type 0
Checked pre made ops =
    (before after : List Op) (e : EdgeSpec) (vf ra : Option ℤ)
    → ops ≡ before ++ create_edge e vf ra ∷ after
    → let known = scope_of pre (created_scopes made before) in
      edge_scope_check e.scope (known e.from) (known e.to) ≡ true

-- The scope of a node: the one that the batch has created it in, or the one that it is stored in, if
-- the batch has not created it.
abbrev pub IsIn : Table ℕ Scope → Table ℕ Scope → ℕ → Scope → Type 0
IsIn pre made node scope = (made node ≡ some scope) ⊎ ((made node ≡ none) × (pre node ≡ some scope))

-- Every edge of the batch whose endpoints both have a scope at its place obeys the rule.
abbrev pub EdgesIn : Table ℕ Scope → Table ℕ Scope → List Op → Type 0
EdgesIn pre made ops =
    (before after : List Op) (e : EdgeSpec) (vf ra : Option ℤ) (from to : Scope)
    → ops ≡ before ++ create_edge e vf ra ∷ after
    → IsIn pre (created_scopes made before) e.from from
    → IsIn pre (created_scopes made before) e.to to
    → edge_scope_is_valid e.scope from to ≡ true

test-ok :
    (b : Bool) (m : Result (Unit {0})) (e : TopoError)
    → ((if b then m else err e) ≡ ok tt) ↔ ((b ≡ true) × (m ≡ ok tt))
test-ok true m e = (λ h. (refl, h), λ h. h.1)
test-ok false m e = (λ h. absurd (cc), λ h. absurd (let bad : false ≡ true = h.0 in cc))

edge_test :
    (pre made : Table ℕ Scope) (e : EdgeSpec) (vf ra : Option ℤ) (ops : List Op)
    → (prevalidate_edge_scopes_loop pre made (create_edge e vf ra ∷ ops) ≡ ok tt) ↔ (
        (edge_scope_check e.scope (scope_of pre made e.from) (scope_of pre made e.to) ≡ true)
        × (prevalidate_edge_scopes_loop pre made ops ≡ ok tt))
unfolding prevalidate_edge_scopes_loop
edge_test pre made e vf ra ops =
    test-ok (edge_scope_check e.scope (scope_of pre made e.from) (scope_of pre made e.to))
      (prevalidate_edge_scopes_loop pre made ops)
      (rejected "CreateEdge: edge scope is unrelated to its endpoints")

passed_at :
    (pre made : Table ℕ Scope) (before after : List Op) (e : EdgeSpec) (vf ra : Option ℤ)
    → prevalidate_edge_scopes_loop pre made (before ++ create_edge e vf ra ∷ after) ≡ ok tt
    → let known = scope_of pre (created_scopes made before) in
      edge_scope_check e.scope (known e.from) (known e.to) ≡ true
unfolding prevalidate_edge_scopes_loop
passed_at pre made [] after e vf ra h = ((edge_test pre made e vf ra after).0 h).0
passed_at pre made (create_node node scope label props ∷ before) after e vf ra h =
    passed_at pre (insert made node scope) before after e vf ra h
passed_at pre made (create_edge d vd rd ∷ before) after e vf ra h =
    passed_at pre made before after e vf ra
      ((edge_test pre made d vd rd (before ++ create_edge e vf ra ∷ after)).0 h).1
passed_at pre made (op ∷ before) after e vf ra h = passed_at pre made before after e vf ra h

passes :
    (pre made : Table ℕ Scope) (ops : List Op)
    → Checked pre made ops
    → prevalidate_edge_scopes_loop pre made ops ≡ ok tt
unfolding prevalidate_edge_scopes_loop
passes pre made [] h = refl
passes pre made (create_node node scope label props ∷ ops) h =
    passes pre (insert made node scope) ops (λ before after e vf ra p.
      h (create_node node scope label props ∷ before) after e vf ra
        (ap (λ r. create_node node scope label props ∷ r) p))
passes pre made (create_edge d vd rd ∷ ops) h = (edge_test pre made d vd rd ops).1 (
  h [] ops d vd rd refl,
  passes pre made ops (λ before after e vf ra p.
      h (create_edge d vd rd ∷ before) after e vf ra (ap (λ r. create_edge d vd rd ∷ r) p)),
)
passes pre made (op ∷ ops) h =
    passes pre made ops
      (λ before after e vf ra p. h (op ∷ before) after e vf ra (ap (λ r. op ∷ r) p))

-- The scope that the check goes by is that of the node.
scope_of-IsIn :
    (pre made : Table ℕ Scope) (node : ℕ) (scope : Scope)
    → (scope_of pre made node ≡ some scope) ↔ IsIn pre made node scope
scope_of-IsIn pre made node scope = elim (Option-cases (made node)) [
  | inl fresh ↦ (
    λ h. inr (fresh, rw fresh at h),
    λ h. elim h [ inl m ↦ absurd (cc) | inr (_, p) ↦ rw fresh p ],
  )
  | inr (s, created) ↦ (
    λ h. inl (created ∙ (rw created at h)),
    λ h. elim h [ inl m ↦ rw created (sym created ∙ m) | inr (n, _) ↦ absurd (cc) ],
  )
]

edge_scope_check_iff :
    (edge : Scope) (from to : Option Scope)
    → (edge_scope_check edge from to ≡ true)
      ↔ ((a b : Scope) → from ≡ some a → to ≡ some b → edge_scope_is_valid edge a b ≡ true)
edge_scope_check_iff edge none to = (λ h a b f t. absurd (cc), λ h. refl)
edge_scope_check_iff edge (some a) none = (λ h x y f t. absurd (cc), λ h. refl)
edge_scope_check_iff edge (some a) (some b) = (
  λ h x y f t.
      let same_a : a ≡ x = cc in
      let same_b : b ≡ y = cc in
      subst (λ (s : Scope). edge_scope_is_valid edge s y ≡ true) same_a
        (subst (λ (s : Scope). edge_scope_is_valid edge a s ≡ true) same_b h),
  λ h. h a b refl refl,
)

Checked-EdgesIn :
    (pre made : Table ℕ Scope) (ops : List Op) → Checked pre made ops ↔ EdgesIn pre made ops
Checked-EdgesIn pre made ops = (
  λ h before after e vf ra from to p f t.
      let now = created_scopes made before in
      (edge_scope_check_iff e.scope (scope_of pre now e.from) (scope_of pre now e.to)).0
        (h before after e vf ra p) from to ((scope_of-IsIn pre now e.from from).1 f)
        ((scope_of-IsIn pre now e.to to).1 t),
  λ h before after e vf ra p.
      let now = created_scopes made before in
      (edge_scope_check_iff e.scope (scope_of pre now e.from) (scope_of pre now e.to)).1
        (λ from to f t.
          h before after e vf ra from to p ((scope_of-IsIn pre now e.from from).0 f)
            ((scope_of-IsIn pre now e.to to).0 t)),
)

-- The check of the edges' scopes passes exactly when every edge of the batch obeys the rule, under
-- the scopes of its endpoints at its place: those of the nodes created before it in the batch, and
-- else those of storage; an edge with an unknown endpoint passes.
pub prevalidate_edge_scopes_iff :
    (pre : Table ℕ Scope) (ops : List Op)
    → (prevalidate_edge_scopes pre ops ≡ ok tt) ↔ EdgesIn pre empty ops
unfolding prevalidate_edge_scopes
prevalidate_edge_scopes_iff pre ops = (
  λ h. (Checked-EdgesIn pre empty ops).0 (λ before after e vf ra p.
      passed_at pre empty before after e vf ra
        (ap (λ o. prevalidate_edge_scopes_loop pre empty o) (sym p) ∙ h)),
  λ h. passes pre empty ops ((Checked-EdgesIn pre empty ops).1 h),
)
