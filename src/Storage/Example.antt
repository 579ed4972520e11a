-- ===== src/Storage/Example.antt =====
-- An engine with small codecs, for runs of the write path of crates/topodb/src/storage.rs.
use topo_db.Prelude.{ℕ, refl, false, Option, none, some, List, [], ◌∷◌, ◌==◌, if◌then◌else◌}
use topo_db.Prelude.Int.{ℤ, pos, negsuc}
use topo_db.Prelude.Bytes.{Bytes}
use topo_db.Prelude.Outcome.{Result, ok, err, encoding}
use topo_db.Ids.{shared, scope_key}
use topo_db.Frame.Tests.{stored}
use topo_db.Registry.{blank}
use topo_db.Registry.Laws.{blank-IsConsistent}
use topo_db.Registry.Dicts.{label, edge_type, prop_key, model, mirror_of, string_key}
use topo_db.Op.{Op, create_node, create_edge, remove_node, EdgeSpec, str}
use topo_db.Slots.{Slots}
use topo_db.Storage.Act.{Storage, Tables}
use topo_db.Storage.Records.{NodeRecordDiskV3, EdgeRecordDiskV4, Postcard}
use topo_db.Storage.Rows.{Codecs}
use topo_db.Storage.Hnsw.{Graph}
use topo_db.Storage.Batch.{Engine}
use topo_db.Storage.Group.Atomic.{IsWell}

-- Rows of numbers; the properties are left out.
abbrev time : ℤ → List ℕ → Bytes
time (pos n) rest = 0 ∷ n ∷ rest
time (negsuc n) rest = 1 ∷ n ∷ rest

abbrev of_time : ℕ → ℕ → ℤ
of_time sign n = if sign == 0 then pos n else negsuc n

abbrev end_time : Option ℤ → List ℕ → Bytes
end_time none rest = 0 ∷ 0 ∷ 0 ∷ rest
end_time (some t) rest = 1 ∷ time t rest

abbrev of_end : ℕ → ℕ → ℕ → Option ℤ
of_end tag sign n = if tag == 0 then none else some (of_time sign n)

abbrev node_of : Bytes → Result NodeRecordDiskV3
node_of (i ∷ s ∷ l ∷ []) = ok (record { id = i; scope = s; label = l; props = [] })
node_of _ = err (encoding "node row")

abbrev edge_of : Bytes → Result EdgeRecordDiskV4
edge_of (i ∷ s ∷ t ∷ f ∷ to ∷ a ∷ b ∷ c ∷ d ∷ e ∷ g ∷ h ∷ j ∷ k ∷ l ∷ []) = ok (record {
  id = i;
  scope = s;
  ty = t;
  from = f;
  to = to;
  props = [];
  valid_from = of_time a b;
  valid_to = of_end c d e;
  recorded_at = of_time g h;
  superseded_at = of_end j k l;
})
edge_of _ = err (encoding "edge row")

abbrev pair_of : Bytes → Result (ℕ × ℕ)
pair_of (m ∷ s ∷ []) = ok (m, s)
pair_of _ = err (encoding "reference row")

abbrev rows : Postcard
rows = record {
  of_node = λ r. ok (r.id ∷ r.scope ∷ r.label ∷ []);
  to_node = node_of;
  of_edge = λ r. ok (
      r.id
      ∷ r.scope
      ∷ r.ty
      ∷ r.from
      ∷ r.to
      ∷ time r.valid_from (end_time r.valid_to (time r.recorded_at (end_time r.superseded_at []))));
  to_edge = edge_of;
  of_ref = λ p. ok (p.0 ∷ p.1 ∷ []);
  to_ref = pair_of;
  of_qvec = λ q. ok (q.0 ∷ []);
  to_qvec = λ b. ok (0, []);
}

abbrev pub small_codecs : Codecs
small_codecs = record {
  lz4 = stored;
  postcard = rows;
  quantize = λ v. (0, []);
  dequantize = λ q. [];
}

-- A graph that is never built.
abbrev pub small_graph : Graph
small_graph = record {
  lz4 = stored;
  of_links = λ r. ok [];
  to_links = λ b. ok (record { tomb = false; neighbors = [] });
  of_meta = λ m. ok [];
  to_meta = λ b. err (encoding "meta row");
  params = record {
    version = 1;
    m = 16;
    m0 = 32;
    ef_construction = 200;
    level_cap = 16;
    build_threshold = 2000;
    rebuild_num = 1;
    rebuild_den = 4;
  };
  cluster_vector_count = λ v m s. ok 0;
  reinsert_links = λ t f m s i v. ok t;
  insert_slot = λ t f m s i n v. ok t;
  build_cluster = λ t f m s. ok t;
}

abbrev pub small_engine : Engine
small_engine = record {
  codecs = small_codecs;
  graph = small_graph;
  spec = record { equality = []; text = [] };
  to_lowercase = λ cs. cs;
  fts_update = λ fts scope slot old new. ok fts;
}

abbrev no_slots : Slots
no_slots = record { forward = λ i. none; reverse = λ i. none; counter = none }

abbrev no_tables : Tables
no_tables = record {
  nodes = λ i. none;
  edges = λ i. none;
  node_slots = no_slots;
  edge_slots = no_slots;
  out_adj = [];
  in_adj = [];
  label_index = λ i. none;
  prop_index = [];
  vector_dims = λ i. none;
  vectors = λ i. none;
  embedding_ref = λ i. none;
  hnsw = record { links = λ i. none; metas = λ i. none };
  fts = record { postings = λ i. none; docs = λ i. none; stats = λ i. none };
  log = record { ops = []; oldest = none };
}

-- A database as it is created.
abbrev pub fresh : Storage
fresh = record {
  tables = no_tables;
  dict_rows = λ kind i. none;
  scope_rows = λ i. none;
  dicts = record { labels = blank; types = blank; props = blank; models = blank };
  scope_registry = blank;
}

abbrev pub knows : EdgeSpec
knows = record { id = 20; scope = shared; ty = "KNOWS"; from = 10; to = 11; props = [] }

-- Two nodes, then an edge between them.
abbrev pub two_nodes : List Op
two_nodes =
    create_node 10 shared "Person" (("name", str "Ann") ∷ [])
    ∷ create_node 11 shared "Person" []
    ∷ []

abbrev pub an_edge : List Op
an_edge = create_edge knows none none ∷ []

abbrev pub a_removal : List Op
a_removal = remove_node 11 ∷ []

abbrev pub a_stray_edge : List Op
a_stray_edge = create_edge (record knows { id = 21; to = 99 }) none none ∷ []

pub fresh-IsWell : IsWell fresh
unfolding mirror_of
fresh-IsWell = record {
  dicts = elim [
    | label ↦ blank-IsConsistent
    | edge_type ↦ blank-IsConsistent
    | prop_key ↦ blank-IsConsistent
    | model ↦ blank-IsConsistent
  ];
  dict_rows = elim [ label ↦ refl | edge_type ↦ refl | prop_key ↦ refl | model ↦ refl ];
  scopes = blank-IsConsistent;
  in_step = refl;
}
