-- ===== src/Read/Traverse/Steps.antt =====
-- crates/topodb/src/read.rs: the loops of `traverse_inner`, and the two functions that call it. The
-- loop over the queue runs on fuel.
use topo_db.Prelude.{
  ℕ, zero, suc, ◌+◌, Bool, true, false, ◌||◌, Option, none, some, List, [], ◌∷◌, ◌++◌, ltb, leb,
  ◌==◌, if◌then◌else◌,
}
use topo_db.Prelude.Int.{ℤ}
use topo_db.Prelude.Outcome.{Result, ok, err, rejected, ◌>>=◌, ◌>>◌}
use topo_db.Ids.{contains}
use topo_db.Adj.Block.{AdjEntry}
use topo_db.Adj.Chunks.{read_adj}
use topo_db.Registry.Scopes.{resolve}
use topo_db.Read.Interval.{ValidInterval, validate, matches}
use topo_db.Read.Interval.Instants.{visible_at}
use topo_db.Op.Resolve.{unwrap_or}
use topo_db.Read.Traverse.{
  Direction, out, into, both, TimeAxis, valid, recorded, TraversalQuery, NodeRecord, Snapshot,
  Subgraph, to_i64, end_of, believed_at, is_readable, type_filter, is_member, insert_slot,
}

pub record Walk : Type 0 where
  pub visited : List ℕ
  pub result_edge_slots : List ℕ
  pub frontier : List (ℕ × ℕ)

-- `if visited.insert(slot) { frontier.push_back((slot, hop)) }`
unfoldable pub reach : Walk → ℕ → ℕ → Walk
unfolding is_member
reach w slot hop =
    if is_member slot w.visited
    then w
    else record w { visited = slot ∷ w.visited; frontier = w.frontier ++ (slot, hop) ∷ [] }

module _ (snap : Snapshot) (q : TraversalQuery) (t : ℤ)
    (valid_interval : Option ValidInterval) where
  -- The gate of a hop, by the interval or by the point in time on the query's axis.
  unfoldable pub is_current : Option ValidInterval → TimeAxis → AdjEntry → Result Bool
  is_current (some iv) axis entry =
      ok (matches iv (to_i64 entry.valid_from) (end_of entry.valid_to))
  is_current none valid entry = ok (visible_at t (to_i64 entry.valid_from) (end_of entry.valid_to))
  is_current none recorded entry = do
    rec ← snap.read_edge_by_slot entry.edge
    ok (believed_at t rec)

  unfoldable pub admit_target : AdjEntry → Bool → Result Bool
  admit_target entry false = ok false
  admit_target entry true = do
    other ← snap.read_node_by_slot entry.target
    ok (is_readable q.scopes other)

  unfoldable pub admit_scoped : AdjEntry → Bool → Result Bool
  unfolding is_current admit_target
  admit_scoped entry false = ok false
  admit_scoped entry true = do
    current ← is_current valid_interval q.time_axis entry
    admit_target entry current

  -- Whether a candidate gets past every `continue`.
  unfoldable pub admits : AdjEntry → Result Bool
  unfolding admit_scoped
  admits entry = do
    entry_scope ← resolve snap.scope_registry entry.scope
    admit_scoped entry (contains q.scopes entry_scope)

  unfoldable pub candidates_by : Direction → ℕ → Result (List (ℕ × AdjEntry))
  candidates_by out slot = read_adj snap.lz4 snap.out_adj slot (type_filter snap.dicts q.edge_types)
  candidates_by into slot = read_adj snap.lz4 snap.in_adj slot (type_filter snap.dicts q.edge_types)
  candidates_by both slot = do
    outs ← read_adj snap.lz4 snap.out_adj slot (type_filter snap.dicts q.edge_types)
    ins ← read_adj snap.lz4 snap.in_adj slot (type_filter snap.dicts q.edge_types)
    ok (outs ++ ins)

  unfoldable pub candidates : ℕ → Result (List (ℕ × AdjEntry))
  unfolding candidates_by
  candidates slot = candidates_by q.direction slot

  unfoldable pub take_edge : Walk → ℕ → AdjEntry → Bool → Walk
  unfolding reach insert_slot
  take_edge w hop entry false = w
  take_edge w hop entry true =
      reach (record w { result_edge_slots = insert_slot w.result_edge_slots entry.edge })
        entry.target (hop + 1)

  -- `for (_ty, entry) in candidates`
  unfoldable pub take_all : Walk → ℕ → List (ℕ × AdjEntry) → Result Walk
  unfolding take_edge admits
  take_all w hop [] = ok w
  take_all w hop ((ty, entry) ∷ rest) = do
    admitted ← admits entry
    take_all (take_edge w hop entry admitted) hop rest

  unfoldable pub expand : Walk → ℕ → ℕ → Bool → Result Walk
  unfolding take_all candidates
  expand w slot hop true = ok w
  expand w slot hop false = do found ← candidates slot; take_all w hop found

  -- `while let Some((slot, hop)) = frontier.pop_front()`; nothing if the fuel does not last.
  unfoldable pub walk : ℕ → Walk → List (ℕ × ℕ) → Result (Option Walk)
  unfolding expand
  walk fuel w [] = ok (some w)
  walk zero w ((slot, hop) ∷ rest) = ok none
  walk (suc fuel) w ((slot, hop) ∷ rest) = do
    w' ← expand (record w { frontier = rest }) slot hop (leb q.max_hops hop)
    walk fuel w' w'.frontier

  abbrev pub sow : Walk → ℕ → Option NodeRecord → Walk
  sow w slot rec = if is_readable q.scopes rec then reach w slot 0 else w

  unfoldable pub plant_at : Walk → Option ℕ → Result Walk
  unfolding reach
  plant_at w none = ok w
  plant_at w (some slot) = do rec ← snap.read_node_by_slot slot; ok (sow w slot rec)

  -- `for &seed in &q.seeds`
  unfoldable pub plant : Walk → List ℕ → Result Walk
  unfolding plant_at
  plant w [] = ok w
  plant w (seed ∷ seeds) = do w' ← plant_at w (snap.node_slots seed); plant w' seeds

  abbrev pub cons_some {ℓ} : {A : Type ℓ} → Option A → List A → List A
  cons_some none xs = xs
  cons_some (some x) xs = x ∷ xs

  unfoldable pub read_all : {A : Type 0} → (ℕ → Result (Option A)) → List ℕ → Result (List A)
  read_all read [] = ok []
  read_all read (slot ∷ slots) = do
    rec ← read slot
    more ← read_all read slots
    ok (cons_some rec more)

  unfoldable pub collect : Option Walk → Result (Option Subgraph)
  unfolding read_all
  collect none = ok none
  collect (some w) = do
    nodes ← read_all snap.read_node_by_slot w.visited
    edges ← read_all snap.read_edge_by_slot w.result_edge_slots
    ok (some (record { nodes = nodes; edges = edges }))

  abbrev pub nowhere : Walk
  nowhere = record { visited = []; result_edge_slots = []; frontier = [] }

  unfoldable pub run : ℕ → Result (Option Subgraph)
  unfolding plant walk collect
  run fuel = do w ← plant nowhere q.seeds; done ← walk fuel w w.frontier; collect done

-- The clock is read only where the query names no time.
unfoldable pub traverse_inner :
    ℕ → ℤ → Snapshot → TraversalQuery → Option ValidInterval → Result (Option Subgraph)
unfolding run
traverse_inner fuel now snap q valid_interval =
    let t = unwrap_or q.as_of now in
    if q.max_hops == 0 || ltb 4 q.max_hops
    then err (rejected "max_hops must be in 1..=4")
    else run snap q t valid_interval fuel

unfoldable pub traverse : ℕ → ℤ → Snapshot → TraversalQuery → Result (Option Subgraph)
unfolding traverse_inner
traverse fuel now snap q = traverse_inner fuel now snap q none

abbrev pub is_some {ℓ} : {A : Type ℓ} → Option A → Bool
is_some none = false
is_some (some a) = true

abbrev pub is_recorded : TimeAxis → Bool
is_recorded valid = false
is_recorded recorded = true

unfoldable pub point_free : TraversalQuery → Result (Unit {0})
point_free q =
    if is_some q.as_of
    then err (rejected "valid_interval and as_of are mutually exclusive")
    else if is_recorded q.time_axis
    then err (rejected "valid_interval gates the valid axis only")
    else ok tt

unfoldable pub traverse_interval :
    ℕ → ℤ → Snapshot → TraversalQuery → ValidInterval → Result (Option Subgraph)
unfolding traverse_inner point_free
traverse_interval fuel now snap q valid_interval = do
  validate valid_interval
  point_free q
  traverse_inner fuel now snap q (some valid_interval)
