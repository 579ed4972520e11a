-- ===== src/Read/Traverse/Ends.antt =====
-- crates/topodb/src/read.rs: the fuel of the loop over the queue of a traversal.
use topo_db.Prelude.{
  ℕ, zero, suc, ◌+◌, ◌≤◌, ◌≡◌, ◌≢◌, refl, ap, ◌∙◌, subst, arith, Bool, true, false, Option, none,
  some, List, [], ◌∷◌, length, length-append, leb, ltb, ◌==◌, ◌||◌, if◌then◌else◌, inl, inr,
  Bool-cases,
}
use topo_db.Prelude.Int.{ℤ}
use topo_db.Prelude.Outcome.{bind_ok, ok-injective, Result, ok, err, rejected, ◌>>=◌}
use topo_db.Ids.{contains}
use topo_db.Op.Resolve.{unwrap_or}
use topo_db.Adj.Block.{AdjEntry}
use topo_db.Read.Interval.{ValidInterval}
use topo_db.Read.Traverse.{TraversalQuery, NodeRecord, Snapshot, Subgraph, is_member, insert_slot}
use topo_db.Read.Traverse.Steps.{
  Walk, reach, admits, candidates, take_edge, take_all, expand, walk, sow, plant_at, plant,
  read_all, collect, nowhere, run, traverse_inner,
}
use topo_db.Read.Traverse.Sound.{admits_opens}
use topo_db.Read.Traverse.Asked.{IsReadable}

-- How many slots of a list are not visited.
unfoldable fresh : List ℕ → List ℕ → ℕ
fresh [] visited = 0
fresh (x ∷ xs) visited = if is_member x visited then fresh xs visited else suc (fresh xs visited)

fresh-bound : (xs visited : List ℕ) → fresh xs visited ≤ length xs
unfolding fresh
fresh-bound [] visited = omega arith
fresh-bound (x ∷ xs) visited = ground (arith, fresh-bound xs visited)

fresh_less : (xs visited : List ℕ) (slot : ℕ) → fresh xs (slot ∷ visited) ≤ fresh xs visited
unfolding fresh is_member
fresh_less [] visited slot = omega arith
fresh_less (x ∷ xs) visited slot = ground (arith, fresh_less xs visited slot)

fresh_visit :
    (xs visited : List ℕ) (slot : ℕ)
    → is_member slot xs ≡ true
    → is_member slot visited ≡ false
    → fresh xs (slot ∷ visited) + 1 ≤ fresh xs visited
unfolding fresh is_member
fresh_visit [] visited slot h k = absurd (cc)
fresh_visit (x ∷ xs) visited slot h k = elim (Bool-cases (slot == x)) [
  | inl here ↦
      let same : slot ≡ x = ground (arith, here) in
      let old : is_member x visited ≡ false = subst (λ s. is_member s visited ≡ false) same k in
      ground (arith, old, here, fresh_less xs visited slot)
  | inr other ↦
      ground
        (arith, other, fresh_visit xs visited slot (rw other at h) k, fresh_less xs visited slot)
]

-- Every slot that has a node is in the list.
abbrev pub Covers : List ℕ → Snapshot → Type 0
Covers slots snap =
    (slot : ℕ) (rec : NodeRecord)
    → snap.read_node_by_slot slot ≡ ok (some rec)
    → is_member slot slots ≡ true

module _ (snap : Snapshot) (q : TraversalQuery) (t : ℤ) (valid_interval : Option ValidInterval)
    (slots : List ℕ) (covers : Covers slots snap) where
  -- The rounds that the loop may still take.
  abbrev budget : Walk → ℕ
  budget w = fresh slots w.visited + length w.frontier

  reach-budget :
      (w : Walk) (slot hop : ℕ) → is_member slot slots ≡ true → budget (reach w slot hop) ≤ budget w
  unfolding reach
  reach-budget w slot hop m = elim (Bool-cases (is_member slot w.visited)) [
    | inl seen ↦ rw seen (omega arith)
    | inr new ↦ rw new (
        omega (
          arith,
          fresh_visit slots w.visited slot m new,
          length-append w.frontier ((slot, hop) ∷ []),
        ))
  ]

  readable_member :
      (slot : ℕ) → IsReadable snap q t valid_interval slot → is_member slot slots ≡ true
  readable_member slot (rec, e, seen) = covers slot rec e

  take_edge-budget :
      (w : Walk) (hop : ℕ) (entry : AdjEntry) (b : Bool)
      → admits snap q t valid_interval entry ≡ ok b
      → budget (take_edge snap q t valid_interval w hop entry b) ≤ budget w
  unfolding take_edge
  take_edge-budget w hop entry false a = omega arith
  take_edge-budget w hop entry true a =
      reach-budget (record w { result_edge_slots = insert_slot w.result_edge_slots entry.edge })
        entry.target (hop + 1)
        (readable_member entry.target (admits_opens snap q t valid_interval entry a).2)

  same_budget : (w w' : Walk) → (let r : Result Walk = ok w in r ≡ ok w') → budget w' ≤ budget w
  same_budget w w' e =
      let same : budget w ≡ budget w' = ap budget (ok-injective w w w' e) in omega (arith, same)

  take_all-budget :
      (w : Walk) (hop : ℕ) (found : List (ℕ × AdjEntry)) (w' : Walk)
      → take_all snap q t valid_interval w hop found ≡ ok w'
      → budget w' ≤ budget w
  unfolding take_all
  take_all-budget w hop [] w' h = same_budget w w' h
  take_all-budget w hop ((ty, entry) ∷ rest) w' h =
      let (b, a, k) =
        bind_ok (admits snap q t valid_interval entry)
          (λ b.
            take_all snap q t valid_interval (take_edge snap q t valid_interval w hop entry b) hop
              rest)
          w' h in
      omega (
        arith,
        take_edge-budget w hop entry b a,
        take_all-budget (take_edge snap q t valid_interval w hop entry b) hop rest w' k,
      )

  expand-budget :
      (w : Walk) (slot hop : ℕ) (b : Bool) (w' : Walk)
      → expand snap q t valid_interval w slot hop b ≡ ok w'
      → budget w' ≤ budget w
  unfolding expand
  expand-budget w slot hop true w' h = same_budget w w' h
  expand-budget w slot hop false w' h =
      let (found, c, k) =
        bind_ok (candidates snap q t valid_interval slot)
          (λ f. take_all snap q t valid_interval w hop f) w' h in
      take_all-budget w hop found w' k

  some_not_none : (w : Walk) → (let r : Result (Option Walk) = ok (some w) in r ≡ ok none) → ⊥
  some_not_none w h = let bad : some w ≡ none = ok-injective none (some w) none h in cc

  walk_lasts :
      (fuel : ℕ) (w : Walk) (queue : List (ℕ × ℕ))
      → queue ≡ w.frontier
      → budget w ≤ fuel
      → walk snap q t valid_interval fuel w queue ≡ ok none
      → ⊥
  unfolding walk
  walk_lasts zero w [] e le h = some_not_none w h
  walk_lasts (suc fuel) w [] e le h = some_not_none w h
  walk_lasts zero w ((slot, hop) ∷ rest) e le h =
      let long : suc (length rest) ≡ length w.frontier = ap (λ (r : List (ℕ × ℕ)). length r) e in
      omega (arith, long)
  walk_lasts (suc fuel) w ((slot, hop) ∷ rest) e le h =
      let long : suc (length rest) ≡ length w.frontier = ap (λ (r : List (ℕ × ℕ)). length r) e in
      let w1 : Walk = record w { frontier = rest } in
      let (v, x, k) =
        bind_ok (expand snap q t valid_interval w1 slot hop (leb q.max_hops hop))
          (λ v. walk snap q t valid_interval fuel v v.frontier) none h in
      walk_lasts fuel v v.frontier refl
        (omega (arith, expand-budget w1 slot hop (leb q.max_hops hop) v x, long)) k

  sow-budget :
      (w : Walk) (slot : ℕ) (rec : Option NodeRecord)
      → snap.read_node_by_slot slot ≡ ok rec
      → budget (sow snap q t valid_interval w slot rec) ≤ budget w
  sow-budget w slot none r = omega arith
  sow-budget w slot (some rec) r = elim (Bool-cases (contains q.scopes rec.scope)) [
    | inl seen ↦ rw seen (reach-budget w slot 0 (covers slot rec r))
    | inr hidden ↦ rw hidden (omega arith)
  ]

  plant_at-budget :
      (w : Walk) (found : Option ℕ) (w' : Walk)
      → plant_at snap q t valid_interval w found ≡ ok w'
      → budget w' ≤ budget w
  unfolding plant_at
  plant_at-budget w none w' h = same_budget w w' h
  plant_at-budget w (some slot) w' h =
      let (rec, r, k) =
        bind_ok (snap.read_node_by_slot slot) (λ o. ok (sow snap q t valid_interval w slot o)) w'
          h in
      omega
        (arith, sow-budget w slot rec r, same_budget (sow snap q t valid_interval w slot rec) w' k)

  plant-budget :
      (w : Walk) (seeds : List ℕ) (w' : Walk)
      → plant snap q t valid_interval w seeds ≡ ok w'
      → budget w' ≤ budget w
  unfolding plant
  plant-budget w [] w' h = same_budget w w' h
  plant-budget w (seed ∷ seeds) w' h =
      let (v, x, k) =
        bind_ok (plant_at snap q t valid_interval w (snap.node_slots seed))
          (λ v. plant snap q t valid_interval v seeds) w' h in
      omega (arith, plant_at-budget w (snap.node_slots seed) v x, plant-budget v seeds w' k)

  collect_lasts :
      (done : Option Walk) → collect snap q t valid_interval done ≡ ok none → done ≡ none
  unfolding collect
  collect_lasts none h = refl
  collect_lasts (some w) h =
      let (nodes, n, k) =
        bind_ok (read_all snap q t valid_interval snap.read_node_by_slot w.visited)
          (λ nodes.
            read_all snap q t valid_interval snap.read_edge_by_slot w.result_edge_slots >>= λ edges.
            ok (some (record { nodes = nodes; edges = edges })))
          none h in
      let (edges, e, l) =
        bind_ok (read_all snap q t valid_interval snap.read_edge_by_slot w.result_edge_slots)
          (λ edges. ok (some (record { nodes = nodes; edges = edges }))) none k in
      let sg : Subgraph = record { nodes = nodes; edges = edges } in
      absurd (let bad : some sg ≡ none = ok-injective none (some sg) none l in cc)

  run_lasts : (fuel : ℕ) → length slots ≤ fuel → run snap q t valid_interval fuel ≡ ok none → ⊥
  unfolding run
  run_lasts fuel le h =
      let start = nowhere snap q t valid_interval in
      let (w, p, k) =
        bind_ok (plant snap q t valid_interval start q.seeds)
          (λ w. walk snap q t valid_interval fuel w w.frontier >>= λ done.
            collect snap q t valid_interval done)
          none h in
      let (done, d, l) =
        bind_ok (walk snap q t valid_interval fuel w w.frontier)
          (λ done. collect snap q t valid_interval done) none k in
      walk_lasts fuel w w.frontier refl
        (omega (arith, plant-budget start q.seeds w p, fresh-bound slots [], le))
        (d ∙ ap ok (collect_lasts done l))

bounds_none :
    (hops : ℕ) (m : Result (Option Subgraph))
    → (if hops == 0 || ltb 4 hops then err (rejected "max_hops must be in 1..=4") else m) ≡ ok none
    → m ≡ ok none
bounds_none hops m h = elim (Bool-cases (hops == 0 || ltb 4 hops)) [
  | inl bad ↦ absurd (cc (rw bad at h))
  | inr fine ↦ rw fine at h
]

-- A traversal never runs out of fuel if it has as much as there are slots with a node: each slot
-- enters the queue at most once.
pub traverse_inner_lasts :
    (fuel : ℕ) (now : ℤ) (snap : Snapshot) (q : TraversalQuery)
    (valid_interval : Option ValidInterval) (slots : List ℕ)
    → Covers slots snap
    → length slots ≤ fuel
    → traverse_inner fuel now snap q valid_interval ≢ ok none
unfolding traverse_inner
traverse_inner_lasts fuel now snap q valid_interval slots covers le h =
    let t = unwrap_or q.as_of now in
    run_lasts snap q t valid_interval slots covers fuel le
      (bounds_none q.max_hops (run snap q t valid_interval fuel) h)
