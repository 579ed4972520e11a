-- ===== src/Read/Traverse/Sound.antt =====
-- crates/topodb/src/read.rs: the slots that a traversal may reach from its seeds.
use topo_db.Prelude.{
  ℕ, ◌+◌, ◌≡◌, refl, ap, ◌∙◌, Bool, true, false, Option, none, some, List, inl, inr, Option-cases,
}
use topo_db.Prelude.Int.{ℤ}
use topo_db.Prelude.Outcome.{bind_ok, ok-injective, ok}
use topo_db.Ids.{Scope, contains}
use topo_db.Adj.Block.{AdjEntry}
use topo_db.Registry.Scopes.{resolve}
use topo_db.Read.Interval.{ValidInterval}
use topo_db.Read.Traverse.{
  TimeAxis, valid, recorded, TraversalQuery, NodeRecord, Snapshot, is_readable, believed_at,
}
use topo_db.Read.Traverse.Steps.{is_current, admit_target, admit_scoped, admits, candidates}
use topo_db.Read.Traverse.Asked.{
  In, contains-Sees, matches-Meets, visible_at-Lasts, believed_at-Lasts, IsReadable, IsTimely,
  IsAdmitted,
}

module _ (snap : Snapshot) (q : TraversalQuery) (t : ℤ)
    (valid_interval : Option ValidInterval) where
  -- A slot that some walk of `hop` admitted hops reaches from a readable seed.
  pub data Reach : ℕ → ℕ → Type 0 where
    at_seed :
        (seed slot : ℕ)
        → In seed q.seeds
        → snap.node_slots seed ≡ some slot
        → IsReadable snap q t valid_interval slot
        → Reach slot 0
    hop_over :
        (slot hop : ℕ) (found : List (ℕ × AdjEntry)) (ty : ℕ) (entry : AdjEntry)
        → Reach slot hop
        → candidates snap q t valid_interval slot ≡ ok found
        → In (ty, entry) found
        → IsAdmitted snap q t valid_interval entry
        → Reach entry.target (hop + 1)

  seen_target :
      (entry : AdjEntry) (other : Option NodeRecord)
      → snap.read_node_by_slot entry.target ≡ ok other
      → is_readable q.scopes other ≡ true
      → IsReadable snap q t valid_interval entry.target
  seen_target entry none e h = absurd (cc)
  seen_target entry (some rec) e h = (rec, e, contains-Sees q.scopes rec.scope h)

  admit_target_opens :
      (entry : AdjEntry) (current : Bool)
      → admit_target snap q t valid_interval entry current ≡ ok true
      → (current ≡ true) × IsReadable snap q t valid_interval entry.target
  unfolding admit_target
  admit_target_opens entry false h =
      absurd (let bad : false ≡ true = ok-injective true false true h in cc)
  admit_target_opens entry true h =
      let (other, e, r) =
        bind_ok (snap.read_node_by_slot entry.target) (λ o. ok (is_readable q.scopes o)) true h in
      (refl, seen_target entry other e (ok-injective true (is_readable q.scopes other) true r))

  admit_scoped_opens :
      (entry : AdjEntry) (scoped : Bool)
      → admit_scoped snap q t valid_interval entry scoped ≡ ok true
      → (scoped ≡ true)
        × (is_current snap q t valid_interval valid_interval q.time_axis entry ≡ ok true)
        × IsReadable snap q t valid_interval entry.target
  unfolding admit_scoped
  admit_scoped_opens entry false h =
      absurd (let bad : false ≡ true = ok-injective true false true h in cc)
  admit_scoped_opens entry true h =
      let (current, e, r) =
        bind_ok (is_current snap q t valid_interval valid_interval q.time_axis entry)
          (admit_target snap q t valid_interval entry) true h in
      let (gate, readable) = admit_target_opens entry current r in (refl, e ∙ ap ok gate, readable)

  resolve_known :
      (i : ℕ) (scope : Scope)
      → resolve snap.scope_registry i ≡ ok scope
      → snap.scope_registry.by_id i ≡ some scope
  unfolding resolve
  resolve_known i scope h = elim (Option-cases (snap.scope_registry.by_id i)) [
    | inl missing ↦ absurd (cc (rw (missing, resolve) at h))
    | inr (s, e) ↦ e ∙ ap some (ok-injective s s scope (rw (e, resolve) at h))
  ]

  is_current-IsTimely :
      (iv : Option ValidInterval) (axis : TimeAxis) (entry : AdjEntry)
      → is_current snap q t valid_interval iv axis entry ≡ ok true
      → IsTimely snap q t valid_interval iv axis entry
  unfolding is_current
  is_current-IsTimely (some iv) axis entry h = matches-Meets iv _ _ (ok-injective true _ true h)
  is_current-IsTimely none valid entry h = visible_at-Lasts t _ _ (ok-injective true _ true h)
  is_current-IsTimely none recorded entry h =
      let (o, e, r) =
        bind_ok (snap.read_edge_by_slot entry.edge) (λ o. ok (believed_at t o)) true h in
      let (rec, same, lasts) = believed_at-Lasts t o (ok-injective true _ true r) in
      (rec, e ∙ ap ok same, lasts)

  -- A candidate that gets past every `continue` is admitted.
  pub admits_opens :
      (entry : AdjEntry)
      → admits snap q t valid_interval entry ≡ ok true
      → IsAdmitted snap q t valid_interval entry
  unfolding admits
  admits_opens entry h =
      let (scope, e, r) =
        bind_ok (resolve snap.scope_registry entry.scope)
          (λ s. admit_scoped snap q t valid_interval entry (contains q.scopes s)) true h in
      let (seen, current, readable) = admit_scoped_opens entry (contains q.scopes scope) r in
      (
        (scope, resolve_known entry.scope scope e, contains-Sees q.scopes scope seen),
        is_current-IsTimely valid_interval q.time_axis entry current,
        readable,
      )

  pub Reach-IsReadable : (slot hop : ℕ) → Reach slot hop → IsReadable snap q t valid_interval slot
  Reach-IsReadable slot hop (at_seed seed s i e r) = r
  Reach-IsReadable slot hop (hop_over s h found ty entry r c i a) = a.2
