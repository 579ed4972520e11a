-- ===== src/Read/Listing.antt =====
-- crates/topodb/src/db.rs: the listings of the edges at a node, `scan_adjacency` and the functions
-- that call it, over the snapshot of a read transaction.
pub mod Exact
mod Tests
use topo_db.Prelude.{
  ℕ, Bool, true, false, not, String, Option, none, some, List, [], ◌∷◌, leb, ◌==◌, if◌then◌else◌,
}
use topo_db.Prelude.Outcome.{Result, ok, ◌>>=◌, ◌>>◌}
use topo_db.Ids.{ScopeSet, contains}
use topo_db.Adj.Block.{AdjEntry}
use topo_db.Adj.Chunks.{AdjTable, read_adj}
use topo_db.Registry.Scopes.{resolve}
use topo_db.Read.Interval.{ValidInterval, validate, matches}
use topo_db.Read.Traverse.{TimeAxis, EdgeRecord, Snapshot, to_i64, end_of, type_ids}
use topo_db.Read.Traverse.Steps.{is_some}

pub data EdgeDirection : Type 0 where
  from_node to_node : EdgeDirection

pub data EdgeGate : Type 0 where
  open_edges : Bool → TimeAxis → EdgeGate
  interval : ValidInterval → EdgeGate

unfoldable pub should_skip_entry : EdgeGate → AdjEntry → Bool
should_skip_entry (open_edges false axis) entry = false
should_skip_entry (open_edges true TimeAxis.valid) entry = is_some entry.valid_to
should_skip_entry (open_edges true TimeAxis.recorded) entry = false
should_skip_entry (interval iv) entry =
    not (matches iv (to_i64 entry.valid_from) (end_of entry.valid_to))

unfoldable pub should_skip_record : EdgeGate → EdgeRecord → Bool
should_skip_record (open_edges false axis) rec = false
should_skip_record (open_edges true TimeAxis.valid) rec = false
should_skip_record (open_edges true TimeAxis.recorded) rec = is_some rec.superseded_at
should_skip_record (interval iv) rec = false

-- `filter_slot.is_some_and(|slot| entry.target != slot)`
abbrev pub is_elsewhere : Option ℕ → AdjEntry → Bool
is_elsewhere none entry = false
is_elsewhere (some slot) entry = not (entry.target == slot)

-- `sort_by_key(|e| e.id)`, which is stable.
unfoldable pub insert_by_id : EdgeRecord → List EdgeRecord → List EdgeRecord
insert_by_id r [] = r ∷ []
insert_by_id r (s ∷ rs) = if leb r.id s.id then r ∷ (s ∷ rs) else s ∷ insert_by_id r rs

unfoldable pub sort_by_id : List EdgeRecord → List EdgeRecord
unfolding insert_by_id
sort_by_id [] = []
sort_by_id (r ∷ rs) = insert_by_id r (sort_by_id rs)

-- `out.push(rec)`, for a record that no `continue` has left out.
abbrev pub push_some : Option EdgeRecord → List EdgeRecord → List EdgeRecord
push_some none recs = recs
push_some (some rec) recs = rec ∷ recs

module _ (snap : Snapshot) where
  abbrev pub kept_record : EdgeGate → Option EdgeRecord → Option EdgeRecord
  kept_record gate none = none
  kept_record gate (some rec) = if should_skip_record gate rec then none else some rec

  abbrev pub scan_scoped : EdgeGate → AdjEntry → Bool → Result (Option EdgeRecord)
  scan_scoped gate entry false = ok none
  scan_scoped gate entry true =
      snap.read_edge_by_slot entry.edge >>= λ rec. ok (kept_record gate rec)

  abbrev pub scan_current : ScopeSet → EdgeGate → AdjEntry → Bool → Result (Option EdgeRecord)
  scan_current scopes gate entry true = ok none
  scan_current scopes gate entry false = resolve snap.scope_registry entry.scope >>= λ entry_scope.
      scan_scoped gate entry (contains scopes entry_scope)

  -- One round of the loop, up to its four `continue`s.
  abbrev pub scan_entry : ScopeSet → Option ℕ → EdgeGate → AdjEntry → Result (Option EdgeRecord)
  scan_entry scopes filter_slot gate entry =
      if is_elsewhere filter_slot entry
      then ok none
      else scan_current scopes gate entry (should_skip_entry gate entry)

  unfoldable pub scan_entries :
      ScopeSet → Option ℕ → EdgeGate → List (ℕ × AdjEntry) → Result (List EdgeRecord)
  unfolding should_skip_entry should_skip_record
  scan_entries scopes filter_slot gate [] = ok []
  scan_entries scopes filter_slot gate ((ty, entry) ∷ entries) = do
    rec ← scan_entry scopes filter_slot gate entry
    more ← scan_entries scopes filter_slot gate entries
    ok (push_some rec more)

  abbrev pub adj_in : EdgeDirection → AdjTable
  adj_in from_node = snap.out_adj
  adj_in to_node = snap.in_adj

  -- `ty.map(|name| dicts.id_of(EdgeType, name).into_iter().collect())`
  abbrev pub name_filter : Option String → Option (List ℕ)
  name_filter none = none
  name_filter (some name) = some (type_ids snap.dicts (name ∷ []))

  abbrev pub scan_slot :
      ScopeSet → Option ℕ → Option String → EdgeDirection → EdgeGate → ℕ → Result (List EdgeRecord)
  scan_slot scopes filter_slot ty direction gate slot = do
    entries ← read_adj snap.lz4 (adj_in direction) slot (name_filter ty)
    found ← scan_entries scopes filter_slot gate entries
    ok (sort_by_id found)

  -- A filter node that has no slot has no edges.
  abbrev pub scan_known :
      ScopeSet → Option String → EdgeDirection → EdgeGate → ℕ → Option ℕ → Result (List EdgeRecord)
  scan_known scopes ty direction gate slot none = ok []
  scan_known scopes ty direction gate slot (some filter_slot) =
      scan_slot scopes (some filter_slot) ty direction gate slot

  abbrev pub scan_filtered :
      ScopeSet → Option ℕ → Option String → EdgeDirection → EdgeGate → ℕ → Result (List EdgeRecord)
  scan_filtered scopes none ty direction gate slot = scan_slot scopes none ty direction gate slot
  scan_filtered scopes (some node) ty direction gate slot =
      scan_known scopes ty direction gate slot (snap.node_slots node)

  abbrev pub scan_from :
      ScopeSet
      → Option ℕ
      → Option String
      → EdgeDirection
      → EdgeGate
      → Option ℕ
      → Result (List EdgeRecord)
  scan_from scopes filter_node ty direction gate none = ok []
  scan_from scopes filter_node ty direction gate (some slot) =
      scan_filtered scopes filter_node ty direction gate slot

  unfoldable pub scan_adjacency :
      ScopeSet → ℕ → Option ℕ → Option String → EdgeDirection → EdgeGate → Result (List EdgeRecord)
  unfolding scan_entries sort_by_id type_ids
  scan_adjacency scopes primary_node filter_node ty direction gate =
      scan_from scopes filter_node ty direction gate (snap.node_slots primary_node)

  unfoldable pub edges_from :
      ScopeSet → ℕ → Option ℕ → Option String → Bool → TimeAxis → Result (List EdgeRecord)
  unfolding scan_adjacency
  edges_from scopes from to ty open_only axis =
      scan_adjacency scopes from to ty from_node (open_edges open_only axis)

  unfoldable pub edges_to :
      ScopeSet → ℕ → Option ℕ → Option String → Bool → TimeAxis → Result (List EdgeRecord)
  unfolding scan_adjacency
  edges_to scopes to from ty open_only axis =
      scan_adjacency scopes to from ty to_node (open_edges open_only axis)

  unfoldable pub edges_from_interval :
      ScopeSet → ℕ → Option ℕ → Option String → ValidInterval → Result (List EdgeRecord)
  unfolding scan_adjacency
  edges_from_interval scopes from to ty iv =
      validate iv >> scan_adjacency scopes from to ty from_node (interval iv)

  unfoldable pub edges_to_interval :
      ScopeSet → ℕ → Option ℕ → Option String → ValidInterval → Result (List EdgeRecord)
  unfolding scan_adjacency
  edges_to_interval scopes to from ty iv =
      validate iv >> scan_adjacency scopes to from ty to_node (interval iv)
