-- ===== src/Registry/Scopes.antt =====
-- crates/topodb/src/scopes.rs: `ScopeRegistry` over its table, and the journal of a write region.
pub mod Undo
pub mod Answers
use topo_db.Prelude.{
  ℕ, ◌≡◌, ◌≢◌, ◌⊎◌, inl, inr, refl, ◌∙◌, ap, sym, subst, arith, Option, none, some, List, [], ◌∷◌,
  ◌++◌,
}
use topo_db.Prelude.Table.{Table, Key, insert, insert_self, nat_key}
use topo_db.Prelude.Outcome.{TopoError, Result, ok, err, encoding}
use topo_db.Ids.{Scope, shared, scope_key, same_scope_iff}
use topo_db.Registry.{Mirror, add, claim, forget}
use topo_db.Registry.Laws.{IsConsistent, add-IsConsistent, forget-add, claim_cases, claim_old}

-- What `intern` writes to: the registry, the table `SCOPES`, and `journal.scope_ids`.
pub record Region : Type 0 where
  pub mirror : Mirror Scope
  pub rows : Table ℕ Scope
  pub scope_ids : List ℕ

-- After a new id: the row, which redb takes or refuses with an error, the maps, and the journal entry.
-- The counter has moved on before, so that a refused row leaves it there, out of the journal.
unfoldable pub interned :
    Option TopoError → Region → Scope → Result (ℕ × Option (Mirror Scope)) → Result ℕ × Region
interned answer g scope (err e) = (err e, g)
interned answer g scope (ok (i, none)) = (ok i, g)
interned (some e) g scope (ok (i, some mirror)) =
    (err e, record g { mirror = record g.mirror { next = mirror.next } })
interned none g scope (ok (i, some mirror)) = (
  ok i,
  record { mirror = mirror; rows = insert g.rows i scope; scope_ids = g.scope_ids ++ i ∷ [] },
)

unfoldable pub intern : Option TopoError → Region → Scope → Result ℕ × Region
unfolding interned
intern answer g scope = interned answer g scope (claim g.mirror scope)

-- `for &id in journal.scope_ids.iter().rev()`
unfoldable pub revert : Mirror Scope → List ℕ → Mirror Scope
revert m [] = m
revert m (i ∷ ids) = forget (revert m ids) i

unfoldable pub resolve : Mirror Scope → ℕ → Result Scope
resolve m i = elim (m.by_id i) [ some scope ↦ ok scope | none ↦ err (encoding "unknown scope id") ]

unfoldable pub id_of : Mirror Scope → Scope → Option ℕ
id_of m scope = m.by_key scope

-- The interns of a region whose rows redb takes, one after the other.
unfoldable pub intern_all : Region → List Scope → Region
intern_all g [] = g
intern_all g (scope ∷ scopes) = intern_all (intern none g scope).1 scopes
