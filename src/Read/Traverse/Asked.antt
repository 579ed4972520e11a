-- ===== src/Read/Traverse/Asked.antt =====
-- crates/topodb/src/read.rs: what a query of a traversal asks of an edge, apart from the code.
use topo_db.Prelude.{
  ℕ, ◌≡◌, refl, ap, true, Option, none, some, List, [], ◌∷◌, ◌++◌, arith, ◌==◌, inl, inr,
  Bool-cases,
}
use topo_db.Prelude.Int.{ℤ, ◌≤ℤ◌, ◌<ℤ◌}
use topo_db.Prelude.Outcome.{ok}
use topo_db.Ids.{Scope, shared, id, ScopeSet, contains, set_contains}
use topo_db.Adj.Block.{AdjEntry}
use topo_db.Read.Interval.{ValidInterval, during, overlaps, before, after, matches}
use topo_db.Read.Interval.Instants.{visible_at}
use topo_db.Read.Traverse.{
  TimeAxis, valid, recorded, TraversalQuery, NodeRecord, EdgeRecord, Snapshot, to_i64, end_of,
  believed_at,
}

-- An item of a list, by its place.
abbrev pub In : {A : Type 0} → A → List A → Type 0
In {A} x xs = (front : List A) × (back : List A) × (xs ≡ front ++ x ∷ back)

-- A reader of these scopes sees the scope.
abbrev pub Sees : ScopeSet → Scope → Type 0
Sees s shared = s.include_shared ≡ true
Sees s (id a) = In a s.ids

In-set_contains : (ids : List ℕ) (a : ℕ) → set_contains ids a ≡ true → In a ids
unfolding set_contains
In-set_contains [] a h = absurd (cc)
In-set_contains (x ∷ ids) a h = elim (Bool-cases (a == x)) [
  | inl same ↦ ([], ids, ap (λ (y : ℕ). y ∷ ids) (ground (arith, same)))
  | inr apart ↦
      let (front, back, e) = In-set_contains ids a (rw apart at h) in
      (x ∷ front, back, ap (λ (ys : List ℕ). x ∷ ys) e)
]

pub contains-Sees : (s : ScopeSet) (scope : Scope) → contains s scope ≡ true → Sees s scope
unfolding contains
contains-Sees s shared h = h
contains-Sees s (id a) h = In-set_contains s.ids a h

-- The valid times of an edge against an interval that the query asks for. An edge that ends where it
-- starts, or before, meets no interval.
abbrev pub Meets : ValidInterval → ℤ → Option ℤ → Type 0
Meets (during from until) vf none = ⊥
Meets (during from until) vf (some vt) = (vf <ℤ vt) × (from ≤ℤ vf) × (vt ≤ℤ until)
Meets (overlaps from until) vf none = vf <ℤ until
Meets (overlaps from until) vf (some vt) = (vf <ℤ vt) × (vf <ℤ until) × (from <ℤ vt)
Meets (before t) vf none = ⊥
Meets (before t) vf (some vt) = (vf <ℤ vt) × (vt ≤ℤ t)
Meets (after t) vf none = t ≤ℤ vf
Meets (after t) vf (some vt) = (vf <ℤ vt) × (t ≤ℤ vf)

pub matches-Meets :
    (iv : ValidInterval) (vf : ℤ) (vt : Option ℤ) → matches iv vf vt ≡ true → Meets iv vf vt
unfolding matches
matches-Meets (during from until) vf none h = ground arith
matches-Meets (during from until) vf (some vt) h = ground arith
matches-Meets (overlaps from until) vf none h = ground arith
matches-Meets (overlaps from until) vf (some vt) h = ground arith
matches-Meets (before t) vf none h = ground arith
matches-Meets (before t) vf (some vt) h = ground arith
matches-Meets (after t) vf none h = ground arith
matches-Meets (after t) vf (some vt) h = ground arith

-- From the start on, and before the end, if there is one.
abbrev pub Lasts : ℤ → ℤ → Option ℤ → Type 0
Lasts t start none = start ≤ℤ t
Lasts t start (some end) = (start ≤ℤ t) × (t <ℤ end)

pub visible_at-Lasts : (t vf : ℤ) (vt : Option ℤ) → visible_at t vf vt ≡ true → Lasts t vf vt
unfolding visible_at
visible_at-Lasts t vf none h = ground arith
visible_at-Lasts t vf (some vt) h = ground arith

pub believed_at-Lasts :
    (t : ℤ) (o : Option EdgeRecord)
    → believed_at t o ≡ true
    → (rec : EdgeRecord) × (o ≡ some rec) × Lasts t rec.recorded_at rec.superseded_at
believed_at-Lasts t none h = absurd (cc)
believed_at-Lasts t (some rec) h =
    (rec, refl, unfold visible_at in visible_at-Lasts t rec.recorded_at rec.superseded_at h)

module _ (snap : Snapshot) (q : TraversalQuery) (t : ℤ)
    (valid_interval : Option ValidInterval) where
  abbrev pub IsReadable : ℕ → Type 0
  IsReadable slot =
      (rec : NodeRecord) × (snap.read_node_by_slot slot ≡ ok (some rec)) × Sees q.scopes rec.scope

  -- The time of an edge is one that the query asks for: its valid times meet the interval, if there is
  -- one, or they hold at the point in time; on the recorded axis the times of its record do.
  abbrev pub IsTimely : Option ValidInterval → TimeAxis → AdjEntry → Type 0
  IsTimely (some iv) axis entry = Meets iv (to_i64 entry.valid_from) (end_of entry.valid_to)
  IsTimely none valid entry = Lasts t (to_i64 entry.valid_from) (end_of entry.valid_to)
  IsTimely none recorded entry =
      (rec : EdgeRecord) × (snap.read_edge_by_slot entry.edge ≡ ok (some rec))
      × Lasts t rec.recorded_at rec.superseded_at

  -- What the query asks of an edge: a scope that it sees, a time, and a node at the other end whose
  -- scope it sees.
  abbrev pub IsAdmitted : AdjEntry → Type 0
  IsAdmitted entry =
      ((scope : Scope) × (snap.scope_registry.by_id entry.scope ≡ some scope) × Sees q.scopes scope)
      × IsTimely valid_interval q.time_axis entry
      × IsReadable entry.target
