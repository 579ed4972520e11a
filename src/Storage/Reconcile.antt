-- ===== src/Storage/Reconcile.antt =====
-- crates/topodb/src/storage.rs: `ensure_index_spec`, which brings the indexes of a file in step with
-- the declarations that it is opened with. The rows of `NODES` are a list in slot order; the encoding
-- of the declarations is a parameter.
pub mod Settled
use topo_db.Prelude.{
  ℕ, Bool, true, false, not, ◌&&◌, ◌||◌, Option, none, some, List, [], ◌∷◌, ◌==◌, if◌then◌else◌,
}
use topo_db.Prelude.Bytes.{Bytes, KeyTable, lt_key}
use topo_db.Prelude.Outcome.{Result, ok, ◌>>=◌}
use topo_db.Op.{same_bytes}
use topo_db.Index.{PropIndex, IndexSpec}
use topo_db.Index.Keys.{codes, index_node}
use topo_db.Read.Traverse.{NodeRecord}
use topo_db.Storage.Act.{FtsTables, Storage}
use topo_db.Storage.Records.{NodeRecordDiskV3, node_from_disk_v3}
use topo_db.Storage.Rows.{decode_node}
use topo_db.Storage.Batch.{Engine, doc_text}
use text.Mathlib.Text.{◌==◌ as str_eq}

-- The rows of `META` that this function reads and writes. A stamp is its number.
pub record SpecMeta : Type 0 where
  pub index_spec : Option Bytes
  pub prop_index_norm_version : Option ℕ
  pub fts_analyzer_version : Option ℕ
  pub fts_spec : Option Bytes
  pub fts_doc_count : Option Bytes
  pub fts_total_len : Option Bytes

pub record SpecCodec : Type 0 where
  pub of_spec : IndexSpec → Result Bytes
  pub to_spec : Bytes → Result IndexSpec

-- `PROP_INDEX_NORM_VERSION` and `FTS_ANALYZER_VERSION`
abbrev pub norm_version : ℕ
norm_version = 1

abbrev pub analyzer_version : ℕ
analyzer_version = 1

-- The order of the pairs `(label, prop)`.
abbrev pub is_before : PropIndex → PropIndex → Bool
is_before p q =
    lt_key (codes p.label) (codes q.label)
    || (str_eq p.label q.label && lt_key (codes p.prop) (codes q.prop))

unfoldable pub insert_sorted : PropIndex → List PropIndex → List PropIndex
unfolding lt_key
insert_sorted p [] = p ∷ []
insert_sorted p (q ∷ qs) = if is_before q p then q ∷ insert_sorted p qs else p ∷ (q ∷ qs)

unfoldable pub sort_props : List PropIndex → List PropIndex
unfolding insert_sorted
sort_props [] = []
sort_props (p ∷ ps) = insert_sorted p (sort_props ps)

unfoldable pub normalized_spec : IndexSpec → IndexSpec
unfolding sort_props
normalized_spec spec = record { equality = sort_props spec.equality; text = sort_props spec.text }

abbrev pub same_pair : PropIndex → PropIndex → Bool
same_pair p q = str_eq p.label q.label && str_eq p.prop q.prop

unfoldable pub same_list : List PropIndex → List PropIndex → Bool
same_list [] [] = true
same_list (p ∷ ps) (q ∷ qs) = same_pair p q && same_list ps qs
same_list _ _ = false

abbrev pub is_stale : Option ℕ → ℕ → Bool
is_stale none version = true
is_stale (some stamp) version = not (stamp == version)

abbrev pub has_none : List PropIndex → Bool
has_none [] = true
has_none (p ∷ ps) = false

-- What is to be done: a reindex, the removal of the legacy keys, a write of these rows.
abbrev pub Decision : Type 0
Decision = Bool × Bool × Bool

module _ (codec : SpecCodec) where
  abbrev pub against_stored : Bool → IndexSpec → Bytes → Option Bytes → Result Decision
  against_stored stale incoming incoming_bytes none =
      ok (stale || not (has_none incoming.text), false, true)
  against_stored stale incoming incoming_bytes (some v) = codec.to_spec v >>= λ stored. ok (
    stale
        || (not (same_list stored.text incoming.text)
            || not (same_list stored.equality incoming.equality)),
    false,
    stale || not (same_bytes v incoming_bytes),
  )

  abbrev pub unless_legacy : SpecMeta → Bool → IndexSpec → Bytes → Option Bytes → Result Decision
  unless_legacy meta stale incoming incoming_bytes (some legacy) = ok (true, true, true)
  unless_legacy meta stale incoming incoming_bytes none =
      against_stored stale incoming incoming_bytes meta.index_spec

  unfoldable pub index_spec_reconcile_decision : SpecMeta → IndexSpec → Bytes → Result Decision
  unfolding same_list
  index_spec_reconcile_decision meta incoming incoming_bytes =
      unless_legacy meta
        (is_stale meta.prop_index_norm_version norm_version
          || is_stale meta.fts_analyzer_version analyzer_version)
        incoming incoming_bytes meta.fts_spec

module _ (engine : Engine) where
  -- The tables of the two indexes.
  abbrev pub Indexes : Type 0
  Indexes = FtsTables × KeyTable

  abbrev pub reindex_record : Storage → ℕ → ℕ → NodeRecord → Indexes → Result Indexes
  reindex_record s slot scope_id rec (fts, keys) =
      engine.fts_update fts scope_id slot none (doc_text engine.spec rec) >>= λ fts'.
      ok (fts', index_node engine.to_lowercase keys engine.spec s.dicts rec slot)

  abbrev pub reindex_row : Storage → ℕ → NodeRecordDiskV3 → Indexes → Result Indexes
  reindex_row s slot disk indexes = node_from_disk_v3 disk s.dicts s.scope_registry >>= λ rec.
      reindex_record s slot disk.scope rec indexes

  -- The loop over the rows of the nodes.
  unfoldable pub reindex : Storage → List (ℕ × Bytes) → Indexes → Result Indexes
  unfolding decode_node node_from_disk_v3 doc_text index_node
  reindex s [] indexes = ok indexes
  reindex s ((slot, row) ∷ rows) indexes = do
    disk ← decode_node engine.codecs row
    indexes' ← reindex_row s slot disk indexes
    reindex s rows indexes'

  abbrev pub drained : Indexes
  drained = (record { postings = λ k. none; docs = λ k. none; stats = λ k. none }, [])

  abbrev pub reindexed_if : Bool → Storage → List (ℕ × Bytes) → Indexes → Result Indexes
  reindexed_if true s rows indexes = reindex s rows drained
  reindexed_if false s rows indexes = ok indexes

  abbrev pub without_legacy : Bool → SpecMeta → SpecMeta
  without_legacy true meta = record meta {
    fts_spec = none;
    fts_doc_count = none;
    fts_total_len = none;
  }
  without_legacy false meta = meta

  abbrev pub stamped : SpecMeta → Bytes → SpecMeta
  stamped meta incoming_bytes = record meta {
    index_spec = some incoming_bytes;
    prop_index_norm_version = some norm_version;
    fts_analyzer_version = some analyzer_version;
  }

  -- Nothing is written where nothing is to be done.
  abbrev pub carried_out :
      Storage
      → List (ℕ × Bytes)
      → SpecMeta
      → Indexes
      → Bytes
      → Decision
      → Result (SpecMeta × Indexes)
  carried_out s rows meta indexes incoming_bytes (false, legacy, false) = ok (meta, indexes)
  carried_out s rows meta indexes incoming_bytes (needs_reindex, legacy, dirty) =
      reindexed_if needs_reindex s rows indexes >>= λ indexes'.
      ok (stamped (without_legacy legacy meta) incoming_bytes, indexes')

  unfoldable pub ensure_index_spec :
      SpecCodec → Storage → List (ℕ × Bytes) → SpecMeta → Indexes → Result (SpecMeta × Indexes)
  unfolding normalized_spec index_spec_reconcile_decision reindex
  ensure_index_spec codec s rows meta indexes = do
    incoming_bytes ← codec.of_spec (normalized_spec engine.spec)
    decision ← index_spec_reconcile_decision codec meta (normalized_spec engine.spec) incoming_bytes
    carried_out s rows meta indexes incoming_bytes decision
