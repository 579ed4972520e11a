-- ===== src/Read/Traverse/Returned.antt =====
-- crates/topodb/src/read.rs: the nodes and edges that a traversal returns.
use topo_db.Prelude.{
  ℕ, ◌≤◌, ◌≡◌, refl, sym, ap, ◌∙◌, subst, arith, Option, none, some, List, [], ◌∷◌, All, ltb, ◌==◌,
  ◌||◌, if◌then◌else◌, inl, inr, Bool-cases,
}
use topo_db.Prelude.Int.{ℤ}
use topo_db.Prelude.Outcome.{bind_ok, ok-injective, Result, ok, err, rejected, ◌>>=◌}
use topo_db.Op.Resolve.{unwrap_or}
use topo_db.Read.Interval.{ValidInterval}
use topo_db.Read.Traverse.{TraversalQuery, NodeRecord, EdgeRecord, Snapshot, Subgraph}
use topo_db.Read.Traverse.Steps.{
  Walk, walk, plant, cons_some, read_all, collect, nowhere, run, traverse_inner,
}
use topo_db.Read.Traverse.Sound.{Reach, Reach-IsReadable}
use topo_db.Read.Traverse.Asked.{Sees, IsReadable}
use topo_db.Read.Traverse.Confined.{Near, Crossed, Sound, walk-Sound, plant-Sound}

module _ (snap : Snapshot) (q : TraversalQuery) (t : ℤ)
    (valid_interval : Option ValidInterval) where
  abbrev Reached : ℕ → ℕ → Type 0
  Reached = Reach snap q t valid_interval

  ReadFrom : {A : Type 0} → (ℕ → Result (Option A)) → (ℕ → Type 0) → A → Type 0
  ReadFrom read P rec = (slot : ℕ) × P slot × (read slot ≡ ok (some rec))

  cons_some-ReadFrom :
      {A : Type 0} (read : ℕ → Result (Option A)) (P : ℕ → Type 0) (slot : ℕ) (rec : Option A)
      (more : List A)
      → P slot
      → read slot ≡ ok rec
      → All (ReadFrom read P) more
      → All (ReadFrom read P) (cons_some snap q t valid_interval rec more)
  unfolding ReadFrom
  cons_some-ReadFrom read P slot none more p r h = h
  cons_some-ReadFrom read P slot (some rec) more p r h = ((slot, p, r), h)

  -- Each record read has a slot that it was read from.
  read_all_sound :
      {A : Type 0} (read : ℕ → Result (Option A)) (P : ℕ → Type 0) (slots : List ℕ) (recs : List A)
      → All P slots
      → read_all snap q t valid_interval read slots ≡ ok recs
      → All (ReadFrom read P) recs
  unfolding read_all
  read_all_sound {A = A} read P [] recs h e =
      subst (λ r. All (ReadFrom read P) r) (ok-injective [] [] recs e) tt
  read_all_sound {A = A} read P (slot ∷ slots) recs h e =
      let (rec, r, k) =
        bind_ok (read slot)
          (λ rec. read_all snap q t valid_interval read slots >>= λ more.
            ok (cons_some snap q t valid_interval rec more))
          recs e in
      let (more, m, l) =
        bind_ok (read_all snap q t valid_interval read slots)
          (λ more. ok (cons_some snap q t valid_interval rec more)) recs k in
      subst (λ r. All (ReadFrom read P) r)
        (ok-injective [] (cons_some snap q t valid_interval rec more) recs l)
        (cons_some-ReadFrom read P slot rec more h.0 r (read_all_sound read P slots more h.1 m))

  -- A record of a node within the hops, that the query sees.
  abbrev pub FoundNode : NodeRecord → Type 0
  FoundNode rec =
      (slot : ℕ) × (hop : ℕ) × Reached slot hop
      × (hop ≤ q.max_hops)
      × (snap.read_node_by_slot slot ≡ ok (some rec))
      × Sees q.scopes rec.scope

  abbrev pub FoundEdge : EdgeRecord → Type 0
  FoundEdge rec =
      (edge : ℕ) × (Crossed snap q t valid_interval) edge
      × (snap.read_edge_by_slot edge ≡ ok (some rec))

  abbrev SeesRecord : Option NodeRecord → Type 0
  SeesRecord none = ⊥
  SeesRecord (some rec) = Sees q.scopes rec.scope

  same_record :
      (slot : ℕ) (rec : NodeRecord)
      → IsReadable snap q t valid_interval slot
      → snap.read_node_by_slot slot ≡ ok (some rec)
      → Sees q.scopes rec.scope
  same_record slot rec (rec', e, seen) r =
      subst (λ (o : Option NodeRecord). SeesRecord o)
        (ok-injective none (some rec') (some rec) (sym e ∙ r)) seen

  found_nodes :
      (recs : List NodeRecord)
      → All (ReadFrom snap.read_node_by_slot (Near snap q t valid_interval)) recs
      → All FoundNode recs
  unfolding ReadFrom
  found_nodes [] h = tt
  found_nodes (rec ∷ recs) ((slot, (hop, r, le), e), h) = (
    (
      slot,
      hop,
      r,
      le,
      e,
      same_record slot rec (Reach-IsReadable snap q t valid_interval slot hop r) e,
    ),
    found_nodes recs h,
  )

  found_edges :
      (recs : List EdgeRecord)
      → All (ReadFrom snap.read_edge_by_slot (Crossed snap q t valid_interval)) recs
      → All FoundEdge recs
  unfolding ReadFrom
  found_edges [] h = tt
  found_edges (rec ∷ recs) (f, h) = (f, found_edges recs h)

  collect-Sound :
      (w : Walk) (sg : Subgraph)
      → Sound snap q t valid_interval w
      → collect snap q t valid_interval (some w) ≡ ok (some sg)
      → All FoundNode sg.nodes × All FoundEdge sg.edges
  unfolding collect
  collect-Sound w sg s h =
      let (nodes, n, k) =
        bind_ok (read_all snap q t valid_interval snap.read_node_by_slot w.visited)
          (λ nodes.
            read_all snap q t valid_interval snap.read_edge_by_slot w.result_edge_slots >>= λ edges.
            ok (some (record { nodes = nodes; edges = edges })))
          (some sg) h in
      let (edges, e, l) =
        bind_ok (read_all snap q t valid_interval snap.read_edge_by_slot w.result_edge_slots)
          (λ edges. ok (some (record { nodes = nodes; edges = edges }))) (some sg) k in
      let both : Option Subgraph → Type 0 =
        λ o. elim o [ none ↦ Unit {0} | some g ↦ All FoundNode g.nodes × All FoundEdge g.edges ] in
      subst both (ok-injective none (some (record { nodes = nodes; edges = edges })) (some sg) l) (
        found_nodes nodes (
            read_all_sound snap.read_node_by_slot (Near snap q t valid_interval) w.visited nodes
              s.nodes n),
        found_edges edges (
            read_all_sound snap.read_edge_by_slot (Crossed snap q t valid_interval)
              w.result_edge_slots edges s.edges e),
      )

  collect_done :
      (done : Option Walk) (sg : Subgraph)
      → ((w : Walk) → done ≡ some w → Sound snap q t valid_interval w)
      → collect snap q t valid_interval done ≡ ok (some sg)
      → All FoundNode sg.nodes × All FoundEdge sg.edges
  unfolding collect
  collect_done none sg s h =
      absurd (let bad : none ≡ some sg = ok-injective none none (some sg) h in cc)
  collect_done (some w) sg s h = collect-Sound w sg (s w refl) h

  pub run_sound :
      (fuel : ℕ) (sg : Subgraph)
      → run snap q t valid_interval fuel ≡ ok (some sg)
      → All FoundNode sg.nodes × All FoundEdge sg.edges
  unfolding run
  run_sound fuel sg h =
      let (w, p, k) =
        bind_ok (plant snap q t valid_interval (nowhere snap q t valid_interval) q.seeds)
          (λ w. walk snap q t valid_interval fuel w w.frontier >>= λ done.
            collect snap q t valid_interval done)
          (some sg) h in
      let (done, d, l) =
        bind_ok (walk snap q t valid_interval fuel w w.frontier)
          (λ done. collect snap q t valid_interval done) (some sg) k in
      collect_done done sg
        (λ v e.
          walk-Sound snap q t valid_interval fuel w w.frontier v
            (plant-Sound snap q t valid_interval (nowhere snap q t valid_interval) [] q.seeds w
              (record { nodes = tt; queue = tt; edges = tt }) refl p)
            refl (d ∙ ap ok e))
        l

bounds_ok :
    (hops : ℕ) (m : Result (Option Subgraph)) (sg : Subgraph)
    → (if hops == 0 || ltb 4 hops then err (rejected "max_hops must be in 1..=4") else m)
      ≡ ok (some sg)
    → (1 ≤ hops) × (hops ≤ 4) × (m ≡ ok (some sg))
bounds_ok hops m sg h = elim (Bool-cases (hops == 0 || ltb 4 hops)) [
  | inl bad ↦ absurd (cc (rw bad at h))
  | inr fine ↦ (ground (arith, fine), ground (arith, fine), rw fine at h)
]

-- A traversal that returns asked for one to four hops. Each node that it returns is reached from a
-- readable seed over at most that many admitted hops, and its scope is one of the query's; each edge
-- that it returns belongs to an entry of a reached node, and the scope of the entry, its time and the
-- node that it leads to are all ones that the query asks for: the scopes are among its scopes, and the
-- valid times meet its interval, or hold at its point in time, or on the recorded axis the times of
-- the edge's record hold there.
pub traverse_inner_sound :
    (fuel : ℕ) (now : ℤ) (snap : Snapshot) (q : TraversalQuery)
    (valid_interval : Option ValidInterval) (sg : Subgraph)
    → traverse_inner fuel now snap q valid_interval ≡ ok (some sg)
    → (1 ≤ q.max_hops)
      × (q.max_hops ≤ 4)
      × All (FoundNode snap q (unwrap_or q.as_of now) valid_interval) sg.nodes
      × All (FoundEdge snap q (unwrap_or q.as_of now) valid_interval) sg.edges
unfolding traverse_inner
traverse_inner_sound fuel now snap q valid_interval sg h =
    let t = unwrap_or q.as_of now in
    let (low, high, r) = bounds_ok q.max_hops (run snap q t valid_interval fuel) sg h in
    let (nodes, edges) = run_sound snap q t valid_interval fuel sg r in (low, high, nodes, edges)
