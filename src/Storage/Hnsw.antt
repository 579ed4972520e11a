-- ===== src/Storage/Hnsw.antt =====
-- crates/topodb/src/hnsw.rs and crates/topodb/src/storage.rs: the rows of the vector graph, its
-- tombstones, and the upkeep that the ops ask for. The search that builds and rewires the graph
-- works on floats and is a parameter.
use topo_db.Prelude.{
  ℕ, ◌+◌, ◌*◌, ◌%◌, ◌^◌, Bool, true, false, Option, none, some, List, leb, ◌==◌, if◌then◌else◌,
}
use topo_db.Prelude.Table.{Table, insert, nat_key}
use topo_db.Prelude.Bytes.{Bytes}
use topo_db.Prelude.Outcome.{Result, ok, err, encoding, ◌>>=◌}
use topo_db.Frame.{Lz4, frame_value, unframe_value}
use topo_db.Storage.Act.{HnswTables}

pub record LinkRow : Type 0 where
  pub tomb : Bool
  pub neighbors : List ℕ

pub record ClusterMeta : Type 0 where
  pub format : ℕ
  pub built : Bool
  pub entry_slot : ℕ
  pub entry_level : ℕ
  pub graph_len : ℕ
  pub stale : ℕ

pub record HnswParams : Type 0 where
  pub version : ℕ
  pub m : ℕ
  pub m0 : ℕ
  pub ef_construction : ℕ
  pub level_cap : ℕ
  pub build_threshold : ℕ
  pub rebuild_num : ℕ
  pub rebuild_den : ℕ

-- The tables `VECTORS`, `EMBEDDING_REF` and `NODE_IDS`, from which a graph is built.
pub record Sources : Type 0 where
  pub vectors : Table ℕ Bytes
  pub refs : Table ℕ Bytes
  pub node_ids : Table ℕ ℕ

-- What this code takes from elsewhere: the codecs of the two rows, and the parts of hnsw.rs that
-- search the graph.
pub record Graph : Type 0 where
  pub lz4 : Lz4
  pub of_links : LinkRow → Result Bytes
  pub to_links : Bytes → Result LinkRow
  pub of_meta : ClusterMeta → Result Bytes
  pub to_meta : Bytes → Result ClusterMeta
  pub params : HnswParams
  pub cluster_vector_count : Table ℕ Bytes → ℕ → ℕ → Result ℕ
  pub reinsert_links : HnswTables → Sources → ℕ → ℕ → ℕ → List ℕ → Result HnswTables
  pub insert_slot : HnswTables → Sources → ℕ → ℕ → ℕ → ℕ → List ℕ → Result HnswTables
  pub build_cluster : HnswTables → Sources → ℕ → ℕ → Result HnswTables

unfoldable pub meta_key : ℕ → ℕ → ℕ
meta_key model scope = model * 2 ^ 32 + scope

unfoldable pub link_key : ℕ → ℕ → ℕ → ℕ → ℕ
link_key model scope slot level = model * 2 ^ 104 + scope * 2 ^ 72 + slot * 2 ^ 8 + level

module _ (graph : Graph) where
  -- `HNSW_META_FORMAT_V0` is 0.
  abbrev pub checked_meta : ClusterMeta → Result (Option ClusterMeta)
  checked_meta meta =
      if meta.format == 0 then ok (some meta) else err (encoding "unknown hnsw meta format")

  unfoldable pub meta_of_row : Option Bytes → Result (Option ClusterMeta)
  meta_of_row none = ok none
  meta_of_row (some row) = graph.to_meta row >>= checked_meta

  unfoldable pub read_meta : HnswTables → ℕ → ℕ → Result (Option ClusterMeta)
  unfolding meta_of_row meta_key
  read_meta t model scope = meta_of_row (t.metas (meta_key model scope))

  unfoldable pub write_meta : HnswTables → ℕ → ℕ → ClusterMeta → Result HnswTables
  unfolding meta_key
  write_meta t model scope meta = do
    row ← graph.of_meta meta
    ok (record t { metas = insert t.metas (meta_key model scope) row })

  unfoldable pub links_of_row : Option Bytes → Result (Option LinkRow)
  links_of_row none = ok none
  links_of_row (some row) = do
    raw ← unframe_value graph.lz4 row
    links ← graph.to_links raw
    ok (some links)

  unfoldable pub read_links : HnswTables → ℕ → ℕ → ℕ → ℕ → Result (Option LinkRow)
  unfolding links_of_row link_key
  read_links t model scope slot level = links_of_row (t.links (link_key model scope slot level))

  unfoldable pub write_links : HnswTables → ℕ → ℕ → ℕ → ℕ → LinkRow → Result HnswTables
  unfolding link_key
  write_links t model scope slot level row = do
    raw ← graph.of_links row
    ok (record t {
      links = insert t.links (link_key model scope slot level) (frame_value graph.lz4 raw);
    })

  -- `m.stale += 1` of a `u64`
  abbrev pub bump_stale : HnswTables → ℕ → ℕ → Option ClusterMeta → Result HnswTables
  bump_stale t model scope none = ok t
  bump_stale t model scope (some m) =
      write_meta t model scope (record m { stale = (m.stale + 1) % 2 ^ 64 })

  abbrev pub bury : HnswTables → ℕ → ℕ → ℕ → LinkRow → Result (Bool × HnswTables)
  bury t model scope slot row = do
    t' ← write_links t model scope slot 0 (record row { tomb = true })
    meta ← read_meta t' model scope
    t'' ← bump_stale t' model scope meta
    ok (true, t'')

  unfoldable pub tombstone_found :
      HnswTables → ℕ → ℕ → ℕ → Option LinkRow → Result (Bool × HnswTables)
  unfolding write_links read_meta write_meta
  tombstone_found t model scope slot none = ok (false, t)
  tombstone_found t model scope slot (some row) =
      if row.tomb then ok (false, t) else bury t model scope slot row

  unfoldable pub tombstone : HnswTables → ℕ → ℕ → ℕ → Result (Bool × HnswTables)
  unfolding tombstone_found read_links
  tombstone t model scope slot =
      read_links t model scope slot 0 >>= tombstone_found t model scope slot

  -- The test of the ratio, in products of `u64`s.
  abbrev pub is_worn : ClusterMeta → Bool
  is_worn meta =
      leb (meta.graph_len * graph.params.rebuild_num % 2 ^ 64)
        (meta.stale * graph.params.rebuild_den % 2 ^ 64)

  abbrev pub rebuild_worn : HnswTables → Sources → ℕ → ℕ → Option ClusterMeta → Result HnswTables
  rebuild_worn t from model scope none = ok t
  rebuild_worn t from model scope (some meta) =
      if is_worn meta then graph.build_cluster t from model scope else ok t

  unfoldable pub maybe_rebuild_cluster : HnswTables → Sources → ℕ → ℕ → Result HnswTables
  unfolding read_meta
  maybe_rebuild_cluster t from model scope =
      read_meta t model scope >>= rebuild_worn t from model scope

  -- A tombstone, and the check of the ratio if it is new.
  unfoldable pub retire : HnswTables → Sources → ℕ → ℕ → ℕ → Result HnswTables
  unfolding tombstone maybe_rebuild_cluster
  retire t from model scope slot = do
    done ← tombstone t model scope slot
    if done.0 then maybe_rebuild_cluster done.1 from model scope else ok done.1

  -- The node has moved out of a cluster of another model.
  unfoldable pub leave_old : HnswTables → Sources → Option (ℕ × ℕ) → ℕ → ℕ → Result HnswTables
  unfolding retire
  leave_old t from none model slot = ok t
  leave_old t from (some (old_model, old_scope)) model slot =
      if old_model == model then ok t else retire t from old_model old_scope slot

  abbrev pub join_cluster :
      HnswTables → Sources → ℕ → ℕ → ℕ → ℕ → List ℕ → Option ClusterMeta → Result HnswTables
  join_cluster t from model scope slot id vector (some meta) =
      graph.insert_slot t from model scope slot id vector
  join_cluster t from model scope slot id vector none = do
    count ← graph.cluster_vector_count from.vectors model scope
    if leb graph.params.build_threshold count then graph.build_cluster t from model scope else ok t

  abbrev pub enter :
      HnswTables → Sources → ℕ → ℕ → ℕ → ℕ → List ℕ → Option LinkRow → Result HnswTables
  enter t from model scope slot id vector (some row) = do
    t' ← graph.reinsert_links t from model scope slot vector
    maybe_rebuild_cluster t' from model scope
  enter t from model scope slot id vector none =
      read_meta t model scope >>= join_cluster t from model scope slot id vector

  unfoldable pub apply_hnsw_set_embedding :
      HnswTables → Sources → Option (ℕ × ℕ) → ℕ → ℕ → ℕ → ℕ → List ℕ → Result HnswTables
  unfolding leave_old read_links read_meta maybe_rebuild_cluster
  apply_hnsw_set_embedding t from old_ref model scope slot id vector = do
    t' ← leave_old t from old_ref model slot
    row ← read_links t' model scope slot 0
    enter t' from model scope slot id vector row
