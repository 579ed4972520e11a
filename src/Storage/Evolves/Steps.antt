-- ===== src/Storage/Evolves/Steps.antt =====
-- crates/topodb/src/storage.rs: how every op moves the slots and the pinned dimensions.
use topo_db.Prelude.{
  ℕ, String, ◌≡◌, inl, inr, refl, subst, arith, ◌^◌, Bool, true, false, ◌==◌, Bool-cases, Option,
  none, some, List, [], ◌∷◌, ltb,
}
use topo_db.Prelude.Int.{ℤ}
use topo_db.Prelude.Table.{Table, insert, nat_key}
use topo_db.Prelude.Bytes.{Bytes}
use topo_db.Prelude.Outcome.{Result, ok, err, rejected, encoding, compacted}
use topo_db.Prelude.Outcome.{◌>>=◌ as ◌>>>◌}
use topo_db.Ids.{Scope}
use topo_db.Slots.{Slots, alloc, remove_mapping}
use topo_db.Slots.History.{
  SlotsEvolve, SlotsEvolve-refl, alloc-SlotsEvolve, remove_mapping-SlotsEvolve,
}
use topo_db.Adj.Block.{AdjEntry}
use topo_db.Adj.Chunks.{AdjTable}
use topo_db.Op.{
  Op, create_node, set_node_props, set_embedding, remove_node, create_edge, close_edge, upsert_node,
  PropValue, Props, EdgeSpec,
}
use topo_db.Read.Traverse.{is_member, NodeRecord, EdgeRecord}
use topo_db.Storage.Act.{Tables, HnswTables, Act, write}
use topo_db.Storage.Moves.{Moves, Leads, Moves-write, moves_rules}
use topo_db.Storage.Evolves.{Edits, Edits-IsOrder, Edits-quiet, Pins, edits_rules}
use topo_db.Storage.Records.{intern_props, node_to_disk_v3, edge_to_disk_v4}
use topo_db.Storage.Rows.{Codecs, put_node, put_edge, check_or_pin_dim, pin_found}
use topo_db.Storage.Hnsw.{Graph}
use topo_db.Storage.Apply.{apply_op}
use topo_db.Storage.Apply.Parts.{
  Side, out_side, in_side, on_side, alloc_node_slot, alloc_edge_slot, node_slots_of, edge_slots_of,
}
use topo_db.Storage.Apply.Nodes.{
  with_vectors, name_model, apply_create_node, apply_set_node_props, apply_set_embedding,
}
use topo_db.Storage.Apply.Removal.{
  drop_edge, drop_mapping, drop_new_edge, drop_counterpart, cascade, retire_ref, apply_remove_node,
}
use topo_db.Storage.Apply.Edges.{also_closed, apply_create_edge, apply_close_edge}

module _ {A : Type 0} where
  on_side-Leads :
      (side : Side) (t : Tables) (r : Result (A × AdjTable)) → Leads Edits t (on_side side t r)
  on_side-Leads out_side t (ok (a, table)) = Edits-quiet _ _ refl refl refl refl
  on_side-Leads in_side t (ok (a, table)) = Edits-quiet _ _ refl refl refl refl
  on_side-Leads side t (err e) = tt

node_slots_of-Leads :
    (t : Tables) (id : ℕ) (r : Result (ℕ × Slots))
    → alloc t.node_slots id ≡ r
    → Leads Edits t (node_slots_of t r)
node_slots_of-Leads t id (ok (slot, s)) h = record {
  evolves = record {
    nodes = alloc-SlotsEvolve t.node_slots s id slot h;
    edges = SlotsEvolve-refl t.edge_slots;
    dims = λ model dim e. e;
  };
  log = refl;
}
node_slots_of-Leads t id (err e) h = tt

edge_slots_of-Leads :
    (t : Tables) (id : ℕ) (r : Result (ℕ × Slots))
    → alloc t.edge_slots id ≡ r
    → Leads Edits t (edge_slots_of t r)
edge_slots_of-Leads t id (ok (slot, s)) h = record {
  evolves = record {
    nodes = SlotsEvolve-refl t.node_slots;
    edges = alloc-SlotsEvolve t.edge_slots s id slot h;
    dims = λ model dim e. e;
  };
  log = refl;
}
edge_slots_of-Leads t id (err e) h = tt

alloc_node_slot-Moves : (id : ℕ) → Moves Edits (alloc_node_slot id)
alloc_node_slot-Moves id =
    Moves-write Edits-IsOrder _ (λ t. node_slots_of-Leads t id (alloc t.node_slots id) refl)

alloc_edge_slot-Moves : (id : ℕ) → Moves Edits (alloc_edge_slot id)
alloc_edge_slot-Moves id =
    Moves-write Edits-IsOrder _ (λ t. edge_slots_of-Leads t id (alloc t.edge_slots id) refl)

-- A dimension is pinned once.
inserted-Pins :
    (dims : Table ℕ ℕ) (model dim : ℕ) → dims model ≡ none → Pins dims (insert dims model dim)
unfolding insert
inserted-Pins dims model dim free m d e = ground arith

pin_found-Pins :
    (dims dims' : Table ℕ ℕ) (model dim : ℕ) (found : Option ℕ)
    → dims model ≡ found
    → pin_found dims model dim found ≡ ok dims'
    → Pins dims dims'
unfolding pin_found
pin_found-Pins dims dims' model dim none free h =
    let same : insert dims model dim ≡ dims' = cc in
    subst (λ (d : Table ℕ ℕ). Pins dims d) same (inserted-Pins dims model dim free)
pin_found-Pins dims dims' model dim (some pinned) there h = elim (Bool-cases (pinned == dim)) [
  | inl agrees ↦
      let same : dims ≡ dims' = cc (rw agrees at h) in
      subst (λ (d : Table ℕ ℕ). Pins dims d) same (λ m d e. e)
  | inr differs ↦ absurd (cc (rw differs at h))
]

check_or_pin_dim-Pins :
    (dims dims' : Table ℕ ℕ) (model dim : ℕ)
    → check_or_pin_dim dims model dim ≡ ok dims'
    → Pins dims dims'
unfolding check_or_pin_dim
check_or_pin_dim-Pins dims dims' model dim h = elim (Bool-cases (ltb dim (2 ^ 32))) [
  | inl small ↦ pin_found-Pins dims dims' model dim _ refl (rw small at h)
  | inr big ↦ absurd (cc)
]

pinned-Leads :
    (t : Tables) (model dim : ℕ) (r : Result (Table ℕ ℕ))
    → check_or_pin_dim t.vector_dims model dim ≡ r
    → Leads Edits t (name_model r >>> λ dims. ok (tt, record t { vector_dims = dims }))
pinned-Leads t model dim (ok dims) h = record {
  evolves = record {
    nodes = SlotsEvolve-refl t.node_slots;
    edges = SlotsEvolve-refl t.edge_slots;
    dims = check_or_pin_dim-Pins t.vector_dims dims model dim h;
  };
  log = refl;
}
pinned-Leads t model dim (err (rejected e)) h = tt
pinned-Leads t model dim (err (encoding e)) h = tt
pinned-Leads t model dim (err (compacted o)) h = tt

with_vectors-Leads :
    (t : Tables) (r : Result (Table ℕ Bytes × Table ℕ Bytes)) → Leads Edits t (with_vectors t r)
with_vectors-Leads t (ok p) = Edits-quiet _ _ refl refl refl refl
with_vectors-Leads t (err e) = tt

hnsw-Leads :
    (t : Tables) (r : Result HnswTables)
    → Leads Edits t (r >>> λ hnsw. ok (tt, record t { hnsw = hnsw }))
hnsw-Leads t (ok h) = Edits-quiet _ _ refl refl refl refl
hnsw-Leads t (err e) = tt

drop_mapping-SlotsEvolve : (s : Slots) (id : Option ℕ) → SlotsEvolve s (drop_mapping s id)
drop_mapping-SlotsEvolve s none = SlotsEvolve-refl s
drop_mapping-SlotsEvolve s (some id) = remove_mapping-SlotsEvolve s id

drop_edge-Edits : (slot : ℕ) (t : Tables) → Edits t (drop_edge slot t)
drop_edge-Edits slot t = record {
  evolves = record {
    nodes = SlotsEvolve-refl t.node_slots;
    edges = drop_mapping-SlotsEvolve t.edge_slots (t.edge_slots.reverse slot);
    dims = λ model dim e. e;
  };
  log = refl;
}

drop_new_edge-Edits :
    (removed : List ℕ) (slot : ℕ) (t : Tables) → Edits t (drop_new_edge removed slot t)
drop_new_edge-Edits removed slot t = elim (Bool-cases (is_member slot removed)) [
  | inl old ↦ rw old (Edits-IsOrder.rest t)
  | inr new ↦ rw new (drop_edge-Edits slot t)
]

freed-Edits :
    (id : ℕ) (t : Tables) → Edits t (record t { node_slots = remove_mapping t.node_slots id })
freed-Edits id t = record {
  evolves = record {
    nodes = remove_mapping-SlotsEvolve t.node_slots id;
    edges = SlotsEvolve-refl t.edge_slots;
    dims = λ model dim e. e;
  };
  log = refl;
}

intern_props-Moves : (props : Props) (p : List (ℕ × PropValue)) → Moves Edits (intern_props props p)
unfolding intern_props
intern_props-Moves [] p = search (moves_rules, edits_rules)
intern_props-Moves ((k, v) ∷ props) p =
    search (moves_rules, edits_rules, intern_props-Moves props) depth 30

node_to_disk_v3-Moves : (r : NodeRecord) → Moves Edits (node_to_disk_v3 r)
unfolding node_to_disk_v3
node_to_disk_v3-Moves r = search (moves_rules, edits_rules, intern_props-Moves) depth 30

edge_to_disk_v4-Moves : (r : EdgeRecord) → Moves Edits (edge_to_disk_v4 r)
unfolding edge_to_disk_v4
edge_to_disk_v4-Moves r = search (moves_rules, edits_rules, intern_props-Moves) depth 30

also_closed-Moves : (b : Bool) (m : Act Bool) → Moves Edits m → Moves Edits (also_closed b m)
also_closed-Moves true m k = k
also_closed-Moves false m k = search (moves_rules, edits_rules)

module _ (codecs : Codecs) (graph : Graph) where
  put_node-Moves : (r : NodeRecord) → Moves Edits (put_node codecs r)
  unfolding put_node
  put_node-Moves r = search (moves_rules, edits_rules, node_to_disk_v3-Moves) depth 30

  put_edge-Moves : (r : EdgeRecord) → Moves Edits (put_edge codecs r)
  unfolding put_edge
  put_edge-Moves r = search (moves_rules, edits_rules, edge_to_disk_v4-Moves) depth 30

  drop_counterpart-Leads :
      (other : Side) (slot ty : ℕ) (e : AdjEntry) (t : Tables)
      → Leads Edits t (drop_counterpart codecs other slot ty e t)
  drop_counterpart-Leads other slot ty e t = elim (Bool-cases (e.target == slot)) [
    | inl loop ↦ rw loop (Edits-IsOrder.rest t)
    | inr apart ↦ rw apart (on_side-Leads other t _)
  ]

  cascade-Moves :
      (other : Side) (removed_slot : ℕ) (entries : List (ℕ × AdjEntry)) (removed : List ℕ)
      → Moves Edits (cascade codecs other removed_slot entries removed)
  unfolding cascade
  cascade-Moves other slot [] removed = search (moves_rules, edits_rules)
  cascade-Moves other slot ((ty, e) ∷ entries) removed =
      search
        (
          moves_rules,
          edits_rules,
          drop_counterpart-Leads,
          drop_new_edge-Edits,
          cascade-Moves other slot entries,
        )
        depth 30

  apply_create_node-Moves :
      (id : ℕ) (scope : Scope) (label : String) (props : Props)
      → Moves Edits (apply_create_node codecs id scope label props)
  unfolding apply_create_node
  apply_create_node-Moves id scope label props =
      search (moves_rules, edits_rules, alloc_node_slot-Moves, put_node-Moves) depth 30

  apply_set_node_props-Moves :
      (id : ℕ) (edits : List (String × Option PropValue))
      → Moves Edits (apply_set_node_props codecs id edits)
  unfolding apply_set_node_props
  apply_set_node_props-Moves id edits = search (moves_rules, edits_rules, put_node-Moves) depth 30

  pinned_write-Moves :
      (model dim : ℕ)
      → Moves Edits (
          write (λ t. name_model (check_or_pin_dim t.vector_dims model dim) >>> λ dims.
          ok (tt, record t { vector_dims = dims })))
  pinned_write-Moves model dim = Moves-write Edits-IsOrder _ (λ t. pinned-Leads t model dim _ refl)

  apply_set_embedding-Moves :
      (id : ℕ) (model : String) (vector : List ℕ)
      → Moves Edits (apply_set_embedding codecs graph id model vector)
  unfolding apply_set_embedding
  apply_set_embedding-Moves id model [] = search (moves_rules, edits_rules)
  apply_set_embedding-Moves id model (c ∷ vector) =
      search (pinned_write-Moves, moves_rules, edits_rules, with_vectors-Leads, hnsw-Leads) depth 30

  retire_ref-Leads :
      (r : Option (ℕ × ℕ)) (slot : ℕ) (t : Tables)
      → Leads Edits t (retire_ref codecs graph r slot t)
  retire_ref-Leads none slot t = Edits-IsOrder.rest t
  retire_ref-Leads (some (model, scope)) slot t = hnsw-Leads t _

  apply_remove_node-Moves : (id : ℕ) → Moves Edits (apply_remove_node codecs graph id)
  unfolding apply_remove_node
  apply_remove_node-Moves id =
      search
        (
          moves_rules, edits_rules, freed-Edits, with_vectors-Leads, retire_ref-Leads,
          on_side-Leads, cascade-Moves,
        )
        depth 30

  apply_create_edge-Moves :
      (e : EdgeSpec) (valid_from recorded_at : Option ℤ)
      → Moves Edits (apply_create_edge codecs e valid_from recorded_at)
  unfolding apply_create_edge
  apply_create_edge-Moves e valid_from recorded_at =
      search (moves_rules, edits_rules, alloc_edge_slot-Moves, put_edge-Moves, on_side-Leads) depth
        40

  apply_close_edge-Moves :
      (id : ℕ) (valid_to superseded_at : Option ℤ)
      → Moves Edits (apply_close_edge codecs id valid_to superseded_at)
  unfolding apply_close_edge
  apply_close_edge-Moves id valid_to superseded_at =
      search (moves_rules, edits_rules, put_edge-Moves, also_closed-Moves, on_side-Leads) depth 30

  pub apply_op-Moves : (op : Op) → Moves Edits (apply_op codecs graph op)
  unfolding apply_op
  apply_op-Moves (create_node id scope label props) = apply_create_node-Moves id scope label props
  apply_op-Moves (set_node_props id edits) = apply_set_node_props-Moves id edits
  apply_op-Moves (set_embedding id model vector) = apply_set_embedding-Moves id model vector
  apply_op-Moves (remove_node id) = apply_remove_node-Moves id
  apply_op-Moves (create_edge e vf ra) = apply_create_edge-Moves e vf ra
  apply_op-Moves (close_edge id vt sa) = apply_close_edge-Moves id vt sa
  apply_op-Moves (upsert_node id scope label key props) = search (moves_rules, edits_rules)
