-- ===== src/Registry/Scopes/Answers.antt =====
-- crates/topodb/src/scopes.rs: what `intern` answers, and what stays.
use topo_db.Prelude.{ℕ, ◌≡◌, inl, inr, subst, arith, none, some, [], ◌∷◌, ◌++◌}
use topo_db.Prelude.Table.{insert, insert_self, nat_key}
use topo_db.Prelude.Outcome.{ok, err, encoding}
use topo_db.Ids.{Scope, scope_key, same_scope_iff}
use topo_db.Registry.{Mirror, add}
use topo_db.Registry.Laws.{IsConsistent, claim_cases, claim_old}
use topo_db.Registry.Scopes.{Region, interned, intern, resolve, id_of}

abbrev grown : Region → Scope → Region
grown g scope = record {
  mirror = add g.mirror scope;
  rows = insert g.rows g.mirror.next scope;
  scope_ids = g.scope_ids ++ g.mirror.next ∷ [];
}

pub intern_known :
    (g : Region) (scope : Scope) (i : ℕ)
    → g.mirror.by_key scope ≡ some i
    → intern none g scope ≡ (ok i, g)
unfolding intern
intern_known g scope i old = rw (claim_old g.mirror scope i old, interned)

-- The region `q` after an `intern` of `scope` in `g` that answered `i`.
abbrev Interned : Region → Scope → ℕ → Region → Type 0
Interned g scope i q =
    (id_of q.mirror scope ≡ some i)
    × (resolve q.mirror i ≡ ok scope)
    × ((t : Scope) (j : ℕ) → id_of g.mirror t ≡ some j → id_of q.mirror t ≡ some j)
    × (intern none q scope ≡ (ok i, q))

resolve_known :
    (m : Mirror Scope) (i : ℕ) (scope : Scope) → m.by_id i ≡ some scope → resolve m i ≡ ok scope
unfolding resolve
resolve_known m i scope e = rw (e, resolve)

known-Interned :
    (g : Region) (scope : Scope) (i : ℕ)
    → IsConsistent g.mirror
    → g.mirror.by_key scope ≡ some i
    → Interned g scope i g
unfolding id_of
known-Interned g scope i h old = (
  old,
  resolve_known g.mirror i scope (h.there scope i old),
  λ t j e. e,
  intern_known g scope i old,
)

grown-Interned :
    (g : Region) (scope : Scope)
    → IsConsistent g.mirror
    → g.mirror.by_key scope ≡ none
    → Interned g scope g.mirror.next (grown g scope)
unfolding id_of add
grown-Interned g scope h new =
    let here : (add g.mirror scope).by_key scope ≡ some g.mirror.next =
      insert_self g.mirror.by_key scope g.mirror.next in
    (
      here,
      resolve_known (add g.mirror scope) g.mirror.next scope
          (insert_self g.mirror.by_id g.mirror.next scope),
      λ t j e. unfold insert in ground (arith, same_scope_iff t scope),
      intern_known (grown g scope) scope g.mirror.next here,
    )

-- A successful `intern` answers with an id that from then on stands for the scope, both ways. It
-- changes no scope that has an id already, and interning the scope once more changes nothing.
intern_lem :
    (g : Region) (scope : Scope) (i : ℕ)
    → IsConsistent g.mirror
    → (intern none g scope).0 ≡ ok i
    → (id_of (intern none g scope).1.mirror scope ≡ some i)
      × (resolve (intern none g scope).1.mirror i ≡ ok scope)
      × ((t : Scope) (j : ℕ)
          → id_of g.mirror t ≡ some j
          → id_of (intern none g scope).1.mirror t ≡ some j)
      × (intern none (intern none g scope).1 scope ≡ (ok i, (intern none g scope).1))
intern_lem g scope i h e = elim (claim_cases g.mirror scope) [
  | inl (j, old, c) ↦
      let same : intern none g scope ≡ (ok j, g) = intern_known g scope j old in
      let answer : j ≡ i = cc in
      rw same (subst (λ n. Interned g scope n g) answer (known-Interned g scope j h old))
  | inr (inl (new, c)) ↦
      let same : intern none g scope ≡ (ok g.mirror.next, grown g scope) =
        unfold intern in rw (c, interned) in
      let answer : g.mirror.next ≡ i = cc in
      rw same
        (subst (λ n. Interned g scope n (grown g scope)) answer (grown-Interned g scope h new))
  | inr (inr (_, _, c)) ↦
      let same : intern none g scope ≡ (err (encoding "id exhausted"), g) =
        unfold intern in rw (c, interned) in
      absurd (cc)
]
