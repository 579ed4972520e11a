-- ===== src/Storage/Apply/Edges.antt =====
-- crates/topodb/src/storage.rs: the arms of `apply_op` that create and close edges. A panic of
-- `expect` on an op whose times are not filled in is the error `unresolved`.
use topo_db.Prelude.{ℕ, Bool, true, false, ◌&&◌, not, String, Option, none, some, if◌then◌else◌}
use topo_db.Prelude.Int.{ℤ, as_u64}
use topo_db.Prelude.Table.{nat_key}
use topo_db.Prelude.Outcome.{Result, rejected, encoding}
use topo_db.Prelude.Outcome.{◌>>=◌ as ◌>>>◌}
use topo_db.Ids.{Scope, shared, same_scope}
use topo_db.Adj.Block.{AdjEntry}
use topo_db.Adj.Chunks.{adj_insert, adj_close}
use topo_db.Registry.Dicts.{DictKind}
use topo_db.Op.{EdgeSpec}
use topo_db.Op.Resolve.{unwrap_or}
use topo_db.Read.Traverse.{EdgeRecord}
use topo_db.Storage.Act.{Storage, Act, pure, fail, read, write, intern, intern_scope, ◌>>=◌, ◌>>◌}
use topo_db.Storage.Records.{node_slot, edge_slot, slot_or, ok_or}
use topo_db.Storage.Rows.{Codecs, read_edge, put_edge}
use topo_db.Storage.Apply.Parts.{
  unresolved, keep, alloc_edge_slot, Side, out_side, in_side, adj_of, on_side, node_or,
}

abbrev pub are_apart : Scope → Scope → Bool
are_apart a b = not (same_scope a b) && (not (same_scope a shared) && not (same_scope b shared))

abbrev pub is_closed : Option ℤ → Bool
is_closed none = false
is_closed (some t) = true

-- The second table is closed only where the first one was.
abbrev pub also_closed : Bool → Act Bool → Act Bool
also_closed b m = if b then m else pure false

module _ (codecs : Codecs) where
  abbrev pub insert_adj : Side → ℕ → ℕ → AdjEntry → Act (Unit {0})
  insert_adj side slot ty entry =
      write (λ t. on_side side t (keep (adj_insert codecs.lz4 (adj_of side t) slot ty entry)))

  unfoldable pub apply_create_edge : EdgeSpec → Option ℤ → Option ℤ → Act (Unit {0})
  apply_create_edge e valid_from recorded_at = do
    from_rec ← read (node_or codecs "CreateEdge: from node not found" e.from)
    to_rec ← read (node_or codecs "CreateEdge: to node not found" e.to)
    (if are_apart from_rec.scope to_rec.scope
        then fail (rejected "CreateEdge: cross-scope edge requires at least one Shared endpoint")
        else pure tt)
    slot ← alloc_edge_slot e.id
    from_slot ← read (slot_or (encoding "missing from slot") (node_slot e.from))
    to_slot ← read (slot_or (encoding "missing to slot") (node_slot e.to))
    ty ← intern DictKind.edge_type e.ty
    scope_id ← intern_scope e.scope
    from_time ← read (λ s. ok_or valid_from unresolved)
    put_edge codecs (record {
      id = e.id;
      scope = e.scope;
      ty = e.ty;
      from = e.from;
      to = e.to;
      props = e.props;
      valid_from = from_time;
      valid_to = none;
      recorded_at = unwrap_or recorded_at from_time;
      superseded_at = none;
    })
    insert_adj out_side from_slot ty (record {
      target = to_slot;
      edge = slot;
      scope = scope_id;
      valid_from = as_u64 from_time;
      valid_to = none;
    })
    insert_adj in_side to_slot ty (record {
      target = from_slot;
      edge = slot;
      scope = scope_id;
      valid_from = as_u64 from_time;
      valid_to = none;
    })

  abbrev pub edge_or : String → ℕ → Storage → Result EdgeRecord
  edge_or message id s = read_edge codecs id s >>> λ found. ok_or found (rejected message)

  abbrev pub close_adj : Side → ℕ → ℕ → ℕ → ℤ → Act Bool
  close_adj side slot ty edge until =
      write (λ t. on_side side t (adj_close codecs.lz4 (adj_of side t) slot ty edge (as_u64 until)))

  unfoldable pub apply_close_edge : ℕ → Option ℤ → Option ℤ → Act (Unit {0})
  apply_close_edge id valid_to superseded_at = do
    rec ← read (edge_or "CloseEdge: edge not found" id)
    (if is_closed rec.valid_to then fail (rejected "CloseEdge: edge already closed") else pure tt)
    until ← read (λ s. ok_or valid_to unresolved)
    put_edge codecs
        (record rec { valid_to = some until; superseded_at = some (unwrap_or superseded_at until) })
    slot ← read (slot_or (encoding "missing edge slot") (edge_slot id))
    from_slot ← read (slot_or (encoding "missing from slot") (node_slot rec.from))
    to_slot ← read (slot_or (encoding "missing to slot") (node_slot rec.to))
    ty ← intern DictKind.edge_type rec.ty
    out_closed ← close_adj out_side from_slot ty slot until
    both_closed ← also_closed out_closed (close_adj in_side to_slot ty slot until)
    (if both_closed then pure tt else fail (encoding "adjacency missing closed edge"))
