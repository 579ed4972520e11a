-- ===== src/Read/Traverse.antt =====
-- crates/topodb/src/read.rs: the bounded, scoped, temporal breadth-first traversal. The tables of its
-- read transaction are a snapshot; the records of nodes and edges are read through it. The hash sets
-- are lists without repetition, the queue is a list.
pub mod Steps
pub mod Asked
pub mod Sound
pub mod Confined
pub mod Returned
pub mod Ends
mod Tests
use topo_db.Prelude.{
  ℕ, zero, suc, ◌+◌, ◌-◌, ◌^◌, Bool, true, false, not, ◌&&◌, ◌||◌, String, Option, none, some, List,
  [], ◌∷◌, ◌++◌, ltb, leb, ◌==◌, if◌then◌else◌,
}
use topo_db.Prelude.Int.{ℤ, pos, negsuc, leb_ℤ, ltb_ℤ}
use topo_db.Prelude.Table.{Table}
use topo_db.Prelude.Outcome.{Result, ok, err, rejected, ◌>>=◌, ◌>>◌}
use topo_db.Ids.{Scope, ScopeSet, contains}
use topo_db.Op.{Props}
use topo_db.Frame.{Lz4}
use topo_db.Adj.Block.{AdjEntry}
use topo_db.Adj.Chunks.{AdjTable, read_adj}
use topo_db.Registry.{Mirror}
use topo_db.Registry.Dicts.{Dicts, mirror_of, edge_type}
use topo_db.Registry.Scopes.{resolve}
use topo_db.Read.Interval.{ValidInterval, validate, matches, lasts_past}
use topo_db.Read.Interval.Instants.{visible_at}

pub data Direction : Type 0 where
  out both : Direction
  into : Direction

pub data TimeAxis : Type 0 where
  valid recorded : TimeAxis

pub record TraversalQuery : Type 0 where
  pub scopes : ScopeSet
  pub seeds : List ℕ
  pub max_hops : ℕ
  pub edge_types : Option (List String)
  pub direction : Direction
  pub as_of : Option ℤ
  pub time_axis : TimeAxis

-- crates/topodb/src/state.rs: an embedding is the name of its model and the bits of its floats.
pub record NodeRecord : Type 0 where
  pub id : ℕ
  pub scope : Scope
  pub label : String
  pub props : Props
  pub embedding : Option (String × List ℕ)

pub record EdgeRecord : Type 0 where
  pub id : ℕ
  pub scope : Scope
  pub ty : String
  pub from : ℕ
  pub to : ℕ
  pub props : Props
  pub valid_from : ℤ
  pub valid_to : Option ℤ
  pub recorded_at : ℤ
  pub superseded_at : Option ℤ

-- What the read transaction and the two guards hold.
pub record Snapshot : Type 0 where
  pub lz4 : Lz4
  pub dicts : Dicts
  pub scope_registry : Mirror Scope
  pub node_slots : Table ℕ ℕ
  pub out_adj : AdjTable
  pub in_adj : AdjTable
  pub read_node_by_slot : ℕ → Result (Option NodeRecord)
  pub read_edge_by_slot : ℕ → Result (Option EdgeRecord)

pub record Subgraph : Type 0 where
  pub nodes : List NodeRecord
  pub edges : List EdgeRecord

-- The `i64` of a bit pattern.
abbrev pub to_i64 : ℕ → ℤ
to_i64 v = if ltb v (2 ^ 63) then pos v else negsuc (2 ^ 64 - 1 - v)

abbrev pub end_of : Option ℕ → Option ℤ
end_of none = none
end_of (some v) = some (to_i64 v)

-- `rec.recorded_at <= t && rec.superseded_at.is_none_or(|st| st > t)`
abbrev pub believed_at : ℤ → Option EdgeRecord → Bool
believed_at t none = false
believed_at t (some rec) = leb_ℤ rec.recorded_at t && lasts_past rec.superseded_at t

abbrev pub is_readable : ScopeSet → Option NodeRecord → Bool
is_readable scopes none = false
is_readable scopes (some rec) = contains scopes rec.scope

-- `names.iter().filter_map(|name| dicts.id_of(..)).collect()`
abbrev pub found_ids : Option ℕ → List ℕ → List ℕ
found_ids none ids = ids
found_ids (some i) ids = i ∷ ids

unfoldable pub type_ids : Dicts → List String → List ℕ
unfolding mirror_of
type_ids dicts [] = []
type_ids dicts (name ∷ names) =
    found_ids ((mirror_of dicts edge_type).by_key name) (type_ids dicts names)

abbrev pub type_filter : Dicts → Option (List String) → Option (List ℕ)
type_filter dicts none = none
type_filter dicts (some names) = some (type_ids dicts names)

-- `HashSet::insert`: whether the slot is new is asked first.
unfoldable pub is_member : ℕ → List ℕ → Bool
is_member x [] = false
is_member x (y ∷ ys) = x == y || is_member x ys

unfoldable pub insert_slot : List ℕ → ℕ → List ℕ
unfolding is_member
insert_slot xs x = if is_member x xs then xs else x ∷ xs
