-- ===== src/Read/Traverse/Confined.antt =====
-- crates/topodb/src/read.rs: the steps of a traversal against what the query admits.
use topo_db.Prelude.{
  ℕ, zero, suc, ◌+◌, ◌≤◌, ◌<◌, ◌≡◌, refl, sym, ap, ◌∙◌, subst, arith, Bool, true, false, Option,
  none, some, List, [], ◌∷◌, ◌++◌, All, leb, if◌then◌else◌, inl, inr, Bool-cases,
}
use topo_db.Prelude.Int.{ℤ}
use topo_db.Prelude.Outcome.{bind_ok, ok-injective, ok}
use topo_db.Ids.{contains}
use topo_db.Adj.Block.{AdjEntry}
use topo_db.Read.Interval.{ValidInterval}
use topo_db.Read.Traverse.{TraversalQuery, NodeRecord, Snapshot, is_member, insert_slot}
use topo_db.Read.Traverse.Steps.{
  Walk, reach, admits, candidates, take_edge, take_all, expand, walk, sow, plant_at, plant,
}
use mathlib.Core.List.{append_assoc}
use topo_db.Read.Traverse.Sound.{Reach, at_seed, hop_over, admits_opens}
use topo_db.Read.Traverse.Asked.{In, contains-Sees, IsAdmitted}

module _ (snap : Snapshot) (q : TraversalQuery) (t : ℤ)
    (valid_interval : Option ValidInterval) where
  abbrev Reached : ℕ → ℕ → Type 0
  Reached = Reach snap q t valid_interval

  abbrev pub Near : ℕ → Type 0
  Near slot = (hop : ℕ) × Reached slot hop × (hop ≤ q.max_hops)

  abbrev pub Queued : ℕ × ℕ → Type 0
  Queued (slot, hop) = Reached slot hop × (hop ≤ q.max_hops)

  -- The edge of an admitted candidate of a slot within the hops.
  pub record Crossed (edge : ℕ) : Type 0 where
    pub slot : ℕ
    pub hop : ℕ
    pub found : List (ℕ × AdjEntry)
    pub ty : ℕ
    pub entry : AdjEntry
    pub reached : Reached slot hop
    pub less : hop < q.max_hops
    pub listed : candidates snap q t valid_interval slot ≡ ok found
    pub place : In (ty, entry) found
    pub admitted : IsAdmitted snap q t valid_interval entry
    pub same : entry.edge ≡ edge

  pub record Sound (w : Walk) : Type 0 where
    pub nodes : All Near w.visited
    pub queue : All Queued w.frontier
    pub edges : All Crossed w.result_edge_slots

  All-end :
      {A : Type 0} (P : A → Type 0) (xs : List A) (x : A) → All P xs → P x → All P (xs ++ x ∷ [])
  All-end P [] x h p = (p, tt)
  All-end P (y ∷ xs) x h p = (h.0, All-end P xs x h.1 p)

  reach-Sound :
      (w : Walk) (slot hop : ℕ)
      → Sound w
      → Reached slot hop
      → hop ≤ q.max_hops
      → Sound (reach w slot hop)
  unfolding reach
  reach-Sound w slot hop s r le =
      elim (is_member slot w.visited)
        as (λ b. Sound (
          if b then w else record w {
            visited = slot ∷ w.visited;
            frontier = w.frontier ++ (slot, hop) ∷ [];
          })) [
            | true ↦ s
            | false ↦ record {
              nodes = ((hop, r, le), s.nodes);
              queue = All-end Queued w.frontier (slot, hop) s.queue (r, le);
              edges = s.edges;
            }
          ]

  insert_slot-All :
      (P : ℕ → Type 0) (xs : List ℕ) (x : ℕ) → All P xs → P x → All P (insert_slot xs x)
  unfolding insert_slot
  insert_slot-All P xs x h p = elim (is_member x xs) as (λ b. All P (if b then xs else x ∷ xs)) [
    | true ↦ h
    | false ↦ (p, h)
  ]

  take_edge-Sound :
      (w : Walk) (slot hop : ℕ) (found : List (ℕ × AdjEntry)) (ty : ℕ) (entry : AdjEntry) (b : Bool)
      → Sound w
      → Reached slot hop
      → leb q.max_hops hop ≡ false
      → candidates snap q t valid_interval slot ≡ ok found
      → In (ty, entry) found
      → admits snap q t valid_interval entry ≡ ok b
      → Sound (take_edge snap q t valid_interval w hop entry b)
  unfolding take_edge
  take_edge-Sound w slot hop found ty entry false s r le c i a = s
  take_edge-Sound w slot hop found ty entry true s r le c i a =
      let w' : Walk = record w { result_edge_slots = insert_slot w.result_edge_slots entry.edge } in
      let crossed : Crossed entry.edge = record {
        slot = slot;
        hop = hop;
        found = found;
        ty = ty;
        entry = entry;
        reached = r;
        less = ground (arith, le);
        listed = c;
        place = i;
        admitted = admits_opens snap q t valid_interval entry a;
        same = refl;
      } in
      reach-Sound w' entry.target (hop + 1)
        (record {
          nodes = s.nodes;
          queue = s.queue;
          edges = insert_slot-All Crossed w.result_edge_slots entry.edge s.edges crossed;
        })
        (hop_over slot hop found ty entry r c i (admits_opens snap q t valid_interval entry a))
        (ground (arith, le))

  take_all-Sound :
      (w : Walk) (slot hop : ℕ) (found before rest : List (ℕ × AdjEntry)) (w' : Walk)
      → Sound w
      → Reached slot hop
      → leb q.max_hops hop ≡ false
      → candidates snap q t valid_interval slot ≡ ok found
      → found ≡ before ++ rest
      → take_all snap q t valid_interval w hop rest ≡ ok w'
      → Sound w'
  unfolding take_all
  take_all-Sound w slot hop found before [] w' s r le c e h =
      subst (λ v. Sound v) (ok-injective w w w' h) s
  take_all-Sound w slot hop found before ((ty, entry) ∷ rest) w' s r le c e h =
      let (b, a, k) =
        bind_ok (admits snap q t valid_interval entry)
          (λ b.
            take_all snap q t valid_interval (take_edge snap q t valid_interval w hop entry b) hop
              rest)
          w' h in
      take_all-Sound (take_edge snap q t valid_interval w hop entry b) slot hop found
        (before ++ (ty, entry) ∷ []) rest w'
        (take_edge-Sound w slot hop found ty entry b s r le c (before, rest, e) a) r le c
        (e ∙ sym (append_assoc before ((ty, entry) ∷ []) rest)) k

  expand-Sound :
      (w : Walk) (slot hop : ℕ) (b : Bool) (w' : Walk)
      → Sound w
      → Reached slot hop
      → leb q.max_hops hop ≡ b
      → expand snap q t valid_interval w slot hop b ≡ ok w'
      → Sound w'
  unfolding expand
  expand-Sound w slot hop true w' s r e h = subst (λ v. Sound v) (ok-injective w w w' h) s
  expand-Sound w slot hop false w' s r e h =
      let (found, c, k) =
        bind_ok (candidates snap q t valid_interval slot)
          (λ f. take_all snap q t valid_interval w hop f) w' h in
      take_all-Sound w slot hop found [] found w' s r e c refl k

  some_walk : Walk → Option Walk → Walk
  some_walk d none = d
  some_walk d (some w) = w

  done-Sound : (w w' : Walk) → Sound w → some w ≡ some w' → Sound w'
  unfolding some_walk
  done-Sound w w' s e = subst (λ v. Sound v) (ap (some_walk w) e) s

  pub walk-Sound :
      (fuel : ℕ) (w : Walk) (queue : List (ℕ × ℕ)) (w' : Walk)
      → Sound w
      → queue ≡ w.frontier
      → walk snap q t valid_interval fuel w queue ≡ ok (some w')
      → Sound w'
  unfolding walk
  walk-Sound zero w [] w' s e h = done-Sound w w' s (ok-injective none (some w) (some w') h)
  walk-Sound (suc fuel) w [] w' s e h = done-Sound w w' s (ok-injective none (some w) (some w') h)
  walk-Sound zero w ((slot, hop) ∷ rest) w' s e h =
      absurd (let bad : none ≡ some w' = ok-injective none none (some w') h in cc)
  walk-Sound (suc fuel) w ((slot, hop) ∷ rest) w' s e h =
      let (reached, more) = subst (λ r. All Queued r) (sym e) s.queue in
      let (v, x, k) =
        bind_ok
          (expand snap q t valid_interval (record w { frontier = rest }) slot hop
            (leb q.max_hops hop))
          (λ v. walk snap q t valid_interval fuel v v.frontier) (some w') h in
      walk-Sound fuel v v.frontier w'
        (expand-Sound (record w { frontier = rest }) slot hop (leb q.max_hops hop) v
          (record { nodes = s.nodes; queue = more; edges = s.edges }) reached.0 refl x)
        refl k

  sow-Sound :
      (w : Walk) (seed slot : ℕ) (rec : Option NodeRecord)
      → Sound w
      → In seed q.seeds
      → snap.node_slots seed ≡ some slot
      → snap.read_node_by_slot slot ≡ ok rec
      → Sound (sow snap q t valid_interval w slot rec)
  sow-Sound w seed slot none s i e r = s
  sow-Sound w seed slot (some rec) s i e r = elim (Bool-cases (contains q.scopes rec.scope)) [
    | inl seen ↦ rw seen (
        reach-Sound w slot 0 s
          (at_seed seed slot i e (rec, r, contains-Sees q.scopes rec.scope seen)) (omega arith))
    | inr hidden ↦ rw hidden s
  ]

  plant_at-Sound :
      (w : Walk) (seed : ℕ) (found : Option ℕ) (w' : Walk)
      → Sound w
      → In seed q.seeds
      → snap.node_slots seed ≡ found
      → plant_at snap q t valid_interval w found ≡ ok w'
      → Sound w'
  unfolding plant_at
  plant_at-Sound w seed none w' s i e h = subst (λ v. Sound v) (ok-injective w w w' h) s
  plant_at-Sound w seed (some slot) w' s i e h =
      let (rec, r, k) =
        bind_ok (snap.read_node_by_slot slot) (λ o. ok (sow snap q t valid_interval w slot o)) w'
          h in
      subst (λ v. Sound v) (ok-injective w (sow snap q t valid_interval w slot rec) w' k)
        (sow-Sound w seed slot rec s i e r)

  pub plant-Sound :
      (w : Walk) (before seeds : List ℕ) (w' : Walk)
      → Sound w
      → q.seeds ≡ before ++ seeds
      → plant snap q t valid_interval w seeds ≡ ok w'
      → Sound w'
  unfolding plant
  plant-Sound w before [] w' s e h = subst (λ v. Sound v) (ok-injective w w w' h) s
  plant-Sound w before (seed ∷ seeds) w' s e h =
      let (v, x, k) =
        bind_ok (plant_at snap q t valid_interval w (snap.node_slots seed))
          (λ v. plant snap q t valid_interval v seeds) w' h in
      plant-Sound v (before ++ seed ∷ []) seeds w'
        (plant_at-Sound w seed (snap.node_slots seed) v s (before, seeds, e) refl x)
        (e ∙ sym (append_assoc before (seed ∷ []) seeds)) k
