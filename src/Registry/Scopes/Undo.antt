-- ===== src/Registry/Scopes/Undo.antt =====
-- crates/topodb/src/scopes.rs: `revert` after the interns of a write region.
use topo_db.Prelude.{ℕ, ◌≡◌, inl, inr, refl, ◌∙◌, ap, none, some, List, [], ◌∷◌, ◌++◌}
use topo_db.Prelude.Table.{Table, insert, nat_key}
use topo_db.Prelude.Outcome.{ok}
use topo_db.Ids.{Scope, scope_key}
use topo_db.Registry.{Mirror, add, forget}
use topo_db.Registry.Laws.{IsConsistent, add-IsConsistent, forget-add, claim_cases}
use topo_db.Registry.Scopes.{Region, interned, intern, revert, intern_all}

revert-append :
    (m : Mirror Scope) (ids : List ℕ) (i : ℕ) → revert m (ids ++ i ∷ []) ≡ revert (forget m i) ids
unfolding revert
revert-append m [] i = refl
revert-append m (j ∷ ids) i = ap (λ (n : Mirror Scope). forget n j) (revert-append m ids i)

-- The state of a write region that began at `base`: undoing the journal leads back there, and the
-- rows of the table are the mirror's.
pub record IsUndoable (base : Mirror Scope) (g : Region) : Type 0 where
  pub consistent : IsConsistent g.mirror
  pub undone : revert g.mirror g.scope_ids ≡ base
  pub in_step : g.rows ≡ g.mirror.by_id

interned_new :
    (base : Mirror Scope) (g : Region) (scope : Scope)
    → IsUndoable base g
    → g.mirror.by_key scope ≡ none
    → IsUndoable base (interned none g scope (ok (g.mirror.next, some (add g.mirror scope)))).1
unfolding interned
interned_new base g scope h new = record {
  consistent = add-IsConsistent g.mirror scope h.consistent new;
  undone =
      revert-append (add g.mirror scope) g.scope_ids g.mirror.next
      ∙ rw (forget-add g.mirror scope h.consistent new) h.undone;
  in_step = unfold add in ap (λ (t : Table ℕ Scope). insert t g.mirror.next scope) h.in_step;
}

pub intern-IsUndoable :
    (base : Mirror Scope) (g : Region) (scope : Scope)
    → IsUndoable base g
    → IsUndoable base (intern none g scope).1
unfolding intern
intern-IsUndoable base g scope h = elim (claim_cases g.mirror scope) [
  | inl (i, _, e) ↦ rw e h
  | inr (inl (new, e)) ↦ rw e (interned_new base g scope h new)
  | inr (inr (_, _, e)) ↦ rw e h
]

intern_all-IsUndoable :
    (base : Mirror Scope) (scopes : List Scope) (g : Region)
    → IsUndoable base g
    → IsUndoable base (intern_all g scopes)
unfolding intern_all
intern_all-IsUndoable base [] g h = h
intern_all-IsUndoable base (scope ∷ scopes) g h =
    intern_all-IsUndoable base scopes (intern none g scope).1 (intern-IsUndoable base g scope h)

-- Undoing the journal of a write region gives back the mirror exactly as it was at the region's
-- start, its counter included, whatever scopes were interned and whether or not ids ran out.
pub revert-intern_all_scopes :
    (m : Mirror Scope) (scopes : List Scope)
    → IsConsistent m
    → revert
        (intern_all (record { mirror = m; rows = m.by_id; scope_ids = [] }) scopes).mirror
        (intern_all (record { mirror = m; rows = m.by_id; scope_ids = [] }) scopes).scope_ids
      ≡ m
revert-intern_all_scopes m scopes h =
    (intern_all-IsUndoable m scopes (record { mirror = m; rows = m.by_id; scope_ids = [] })
      (record { consistent = h; undone = unfold revert in refl; in_step = refl })).undone
