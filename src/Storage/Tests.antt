-- ===== src/Storage/Tests.antt =====
-- Runs of the write path of crates/topodb/src/storage.rs, and the theorems at concrete inputs.
use topo_db.Prelude.{ℕ, ◌≡◌, refl, none, some, List, [], ◌∷◌, map}
use topo_db.Prelude.Int.{pos}
use topo_db.Prelude.Outcome.{Result, ok, err, rejected}
use topo_db.Registry.Dicts.{intern}
use topo_db.Op.{Op}
use topo_db.Op.Resolve.{remap_op_node_ids, remapped}
use topo_db.Slots.{alloc, remove_mapping}
use topo_db.Prelude.Table.{insert, remove}
use topo_db.Prelude.Rows.{range, last_key, insert_row, remove_row, get_row}
use topo_db.Registry.{claim, forget}
use topo_db.Registry.Scopes
use topo_db.Ids.{scope_key}
use topo_db.Frame.{frame_value, unframe_value}
use topo_db.Adj.Block.{
  encode_block, decode_block, is_unsorted, write_entry, write_valid_to, read_entry,
}
use topo_db.Log.{insert_all}
use topo_db.Adj.Codec.{write_varint, read_varint, zigzag, unzigzag}
use topo_db.Adj.Chunks.{
  adj_insert, adj_remove_edge, adj_remove_all, slot_rows, type_rows, out_adj_key, key_chunk,
  key_type, insert_entry, retain_other,
}
use topo_db.Storage.Records.{node_to_disk_v3, node_from_disk_v3, edge_to_disk_v4, edge_from_disk_v4}
use topo_db.Storage.Rows.{put_node, put_edge, read_node, read_edge, remove_vector}
use topo_db.Storage.Act.{Storage, ◌>>=◌}
use topo_db.Storage.Batch.{AppliedBatch}
use topo_db.Storage.Group.{apply_batches, aborted_by_earlier, aborted_by_later}
use topo_db.Storage.Group.Atomic.{AllOrNothing, apply_batches-AllOrNothing}
use topo_db.Storage.Group.Sequential.{one_by_one, as_group, apply_batches_one_by_one}
use topo_db.Storage.Evolves.{Evolves}
use topo_db.Storage.Evolves.Batches.{apply_batches-Evolves}
use topo_db.Storage.Reconcile.{SpecMeta, SpecCodec, normalized_spec, drained, ensure_index_spec}
use topo_db.Storage.Reconcile.Settled.{ensure_index_spec_settles}
use topo_db.Registry.Scopes.{resolve}
use topo_db.Ids.{shared}
use topo_db.Index.{IndexSpec}
use topo_db.Storage.Batch.{Engine}
use topo_db.Storage.Example.{
  small_engine, fresh, fresh-IsWell, two_nodes, an_edge, a_removal, a_stray_edge,
}

abbrev seqs : Result AppliedBatch → Result (ℕ × ℕ)
seqs (ok b) = ok (b.first_seq, b.last_seq)
seqs (err e) = err e

abbrev apply : List (List Op) → List (Result AppliedBatch) × Storage
apply groups = apply_batches small_engine fresh groups (pos 1000) none none

run : List (List Op) → List (Result AppliedBatch) × Storage
unfolding apply_batches ◌>>=◌ remap_op_node_ids remapped alloc remove_mapping insert remove put_node
    put_edge node_to_disk_v3 node_from_disk_v3 edge_to_disk_v4 edge_from_disk_v4 intern
    Scopes.intern claim forget read_node read_edge unframe_value frame_value adj_insert
    adj_remove_edge adj_remove_all slot_rows type_rows range out_adj_key key_chunk key_type last_key
    insert_row remove_row get_row encode_block decode_block insert_entry retain_other write_varint
    read_varint zigzag unzigzag is_unsorted write_entry write_valid_to read_entry remove_vector
    insert_all
run groups = apply groups

-- The sequence numbers go on from batch to batch.
numbered : map seqs (run (two_nodes ∷ an_edge ∷ [])).0 ≡ ok (1, 2) ∷ ok (3, 3) ∷ []
unfolding run
numbered = refl

-- An edge to a node that is not there aborts its group, and the names that it interned are gone.
aborts :
    map seqs (run (two_nodes ∷ a_stray_edge ∷ an_edge ∷ [])).0
    ≡ err aborted_by_later
      ∷ err (rejected "CreateEdge: to node not found")
      ∷ err aborted_by_earlier
      ∷ []
unfolding run
aborts = refl

forgets : (run (two_nodes ∷ a_stray_edge ∷ [])).1.dicts.labels.by_key "Person" ≡ none
unfolding run
forgets = refl

-- The removal of a node takes its edge along, on both sides.
cascades : (run (two_nodes ∷ an_edge ∷ a_removal ∷ [])).1.tables.edges 0 ≡ none
unfolding run
cascades = refl

no_adjacency : (run (two_nodes ∷ an_edge ∷ a_removal ∷ [])).1.tables.out_adj ≡ []
unfolding run
no_adjacency = refl

apply_batches-AllOrNothing_example : AllOrNothing fresh 2 (apply (two_nodes ∷ a_stray_edge ∷ []))
apply_batches-AllOrNothing_example =
    apply_batches-AllOrNothing small_engine fresh (two_nodes ∷ a_stray_edge ∷ []) (pos 1000) none
      none fresh-IsWell

apply_batches_one_by_one_example :
    apply (two_nodes ∷ an_edge ∷ [])
    ≡ as_group fresh 2 (one_by_one small_engine (pos 1000) 0 (two_nodes ∷ an_edge ∷ []) fresh)
apply_batches_one_by_one_example =
    apply_batches_one_by_one small_engine (pos 1000) fresh (two_nodes ∷ an_edge ∷ []) fresh-IsWell

apply_batches-Evolves_example :
    Evolves fresh.tables (apply (two_nodes ∷ an_edge ∷ a_removal ∷ [])).1.tables
apply_batches-Evolves_example =
    apply_batches-Evolves small_engine fresh (two_nodes ∷ an_edge ∷ a_removal ∷ []) (pos 1000) none
      none

abbrev ages : IndexSpec
ages = record { equality = record { label = "Person"; prop = "age" } ∷ []; text = [] }

abbrev with_ages : Engine
with_ages = record small_engine { spec = ages }

abbrev age_codec : SpecCodec
age_codec = record { of_spec = λ spec. ok (9 ∷ []); to_spec = λ b. ok ages }

-- A file of before the stamps, with a node in slot 3.
abbrev old_meta : SpecMeta
old_meta = record {
  index_spec = none;
  prop_index_norm_version = none;
  fts_analyzer_version = none;
  fts_spec = some (1 ∷ []);
  fts_doc_count = some (0 ∷ []);
  fts_total_len = none;
}

abbrev one_person : Storage
one_person = record fresh {
  dicts = record (fresh.dicts) {
    labels = record { by_key = λ s. none; by_id = λ i. some "Person"; next = 1 };
  };
  scope_registry = record { by_key = λ s. none; by_id = λ i. some shared; next = 1 };
}

abbrev new_meta : SpecMeta
new_meta = record {
  index_spec = some (9 ∷ []);
  prop_index_norm_version = some 1;
  fts_analyzer_version = some 1;
  fts_spec = none;
  fts_doc_count = none;
  fts_total_len = none;
}

opened :
    ensure_index_spec with_ages age_codec one_person
      ((3, 0 ∷ 10 ∷ 0 ∷ 0 ∷ []) ∷ [])
      old_meta
      (drained with_ages)
    ≡ ok (new_meta, drained with_ages)
unfolding ensure_index_spec resolve unframe_value
opened = refl

ensure_index_spec_settles_example :
    ensure_index_spec with_ages age_codec one_person [] new_meta (drained with_ages)
    ≡ ok (new_meta, drained with_ages)
ensure_index_spec_settles_example =
    ensure_index_spec_settles with_ages age_codec one_person one_person
      ((3, 0 ∷ 10 ∷ 0 ∷ 0 ∷ []) ∷ []) [] old_meta new_meta (drained with_ages) (drained with_ages)
      (9 ∷ []) refl (unfold normalized_spec in refl) opened
