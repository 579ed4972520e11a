-- ===== src/Storage/Rows.antt =====
-- crates/topodb/src/storage.rs and crates/topodb/src/vector_store.rs: the reads and writes of one
-- row, of a node, an edge, or an embedding. The quantizer of quant.rs works on floats and is a
-- parameter, with a float as its bit pattern.
use topo_db.Prelude.{ℕ, ◌+◌, ◌*◌, ◌^◌, String, Option, none, some, List, ltb, ◌==◌, if◌then◌else◌}
use topo_db.Prelude.Int.{ℤ}
use topo_db.Prelude.Table.{Table, insert, remove, nat_key}
use topo_db.Prelude.Bytes.{Bytes}
use topo_db.Prelude.Outcome.{Result, ok, err, rejected, encoding}
use topo_db.Prelude.Outcome.{◌>>=◌ as ◌>>>◌}
use topo_db.Frame.{Lz4, frame_value, unframe_value}
use topo_db.Registry.Dicts.{Dicts, DictKind}
use topo_db.Read.Traverse.{NodeRecord, EdgeRecord}
use topo_db.Storage.Act.{Storage, Act, read, modify, ◌>>=◌}
use topo_db.Storage.Records.{
  Postcard, NodeRecordDiskV3, EdgeRecordDiskV4, node_to_disk_v3, node_from_disk_v3, edge_to_disk_v4,
  edge_from_disk_v4, node_slot, edge_slot, slot_or, ok_or, resolve_name,
}

pub record Codecs : Type 0 where
  pub lz4 : Lz4
  pub postcard : Postcard
  pub quantize : List ℕ → ℕ × List ℤ
  pub dequantize : ℕ × List ℤ → List ℕ

unfoldable pub vector_key : ℕ → ℕ → ℕ → ℕ
vector_key model scope slot = model * 2 ^ 96 + scope * 2 ^ 64 + slot

-- The pinned dimension is as given, or the batch is rejected; `dim` does not fit a `u32` at first.
unfoldable pub pin_found : Table ℕ ℕ → ℕ → ℕ → Option ℕ → Result (Table ℕ ℕ)
pin_found dims model_id dim (some pinned) =
    if pinned == dim then ok dims else err (rejected "embedding dim is pinned")
pin_found dims model_id dim none = ok (insert dims model_id dim)

unfoldable pub check_or_pin_dim : Table ℕ ℕ → ℕ → ℕ → Result (Table ℕ ℕ)
unfolding pin_found
check_or_pin_dim dims model_id dim =
    if ltb dim (2 ^ 32)
    then pin_found dims model_id dim (dims model_id)
    else err (encoding "embedding dim exceeds u32")

module _ (codecs : Codecs) where
  unfoldable pub decode_node : Bytes → Result NodeRecordDiskV3
  decode_node v = unframe_value codecs.lz4 v >>> codecs.postcard.to_node

  unfoldable pub decode_edge : Bytes → Result EdgeRecordDiskV4
  decode_edge v = unframe_value codecs.lz4 v >>> codecs.postcard.to_edge

  -- The row of `EMBEDDING_REF`, decoded where there is one.
  unfoldable pub read_ref_row : Option Bytes → Result (Option (ℕ × ℕ))
  read_ref_row none = ok none
  read_ref_row (some row) = codecs.postcard.to_ref row >>> λ r. ok (some r)

  unfoldable pub read_ref : Table ℕ Bytes → ℕ → Result (Option (ℕ × ℕ))
  unfolding read_ref_row
  read_ref refs slot = read_ref_row (refs slot)

  unfoldable pub qvec_row : Option Bytes → ℕ × ℕ → Result (Option (ℕ × ℕ × ℕ × List ℤ))
  qvec_row none (model, scope) =
      err (encoding "read_qvec_by_slot: embedding_ref present but vectors row missing")
  qvec_row (some v) (model, scope) = unframe_value codecs.lz4 v >>> λ raw.
      codecs.postcard.to_qvec raw >>> λ q. ok (some (model, scope, q.0, q.1))

  abbrev pub qvec_of : Table ℕ Bytes → ℕ → Option (ℕ × ℕ) → Result (Option (ℕ × ℕ × ℕ × List ℤ))
  qvec_of vectors slot none = ok none
  qvec_of vectors slot (some (model, scope)) =
      qvec_row (vectors (vector_key model scope slot)) (model, scope)

  unfoldable pub read_qvec_by_slot :
      Table ℕ Bytes → Table ℕ Bytes → ℕ → Result (Option (ℕ × ℕ × ℕ × List ℤ))
  unfolding read_ref qvec_row vector_key
  read_qvec_by_slot vectors refs slot = read_ref refs slot >>> qvec_of vectors slot

  abbrev pub embedding_of : Dicts → Option (ℕ × ℕ × ℕ × List ℤ) → Result (Option (String × List ℕ))
  embedding_of dicts none = ok none
  embedding_of dicts (some (model_id, scope_id, scale, codes)) =
      resolve_name dicts DictKind.model model_id >>> λ name.
      ok (some (name, codecs.dequantize (scale, codes)))

  unfoldable pub read_embedding_by_slot : Storage → ℕ → Result (Option (String × List ℕ))
  unfolding read_qvec_by_slot
  read_embedding_by_slot s slot =
      read_qvec_by_slot s.tables.vectors s.tables.embedding_ref slot >>> embedding_of s.dicts

  abbrev pub node_of_row : Storage → ℕ → Option Bytes → Result (Option NodeRecord)
  node_of_row s slot none = ok none
  node_of_row s slot (some v) = decode_node v >>> λ disk.
      node_from_disk_v3 disk s.dicts s.scope_registry >>> λ rec.
      read_embedding_by_slot s slot >>> λ e. ok (some (record rec { embedding = e }))

  unfoldable pub read_node_by_slot : Storage → ℕ → Result (Option NodeRecord)
  unfolding decode_node read_embedding_by_slot
  read_node_by_slot s slot = node_of_row s slot (s.tables.nodes slot)

  -- A mapping without a row is corruption, not a miss.
  abbrev pub node_at : Storage → Option ℕ → Result (Option NodeRecord)
  node_at s none = ok none
  node_at s (some slot) = read_node_by_slot s slot >>> λ found.
      ok_or found (encoding "node slot mapping without record row") >>> λ rec. ok (some rec)

  unfoldable pub read_node : ℕ → Storage → Result (Option NodeRecord)
  unfolding read_node_by_slot
  read_node id s = node_slot id s >>> node_at s

  abbrev pub edge_of_row : Storage → Option Bytes → Result (Option EdgeRecord)
  edge_of_row s none = ok none
  edge_of_row s (some v) = decode_edge v >>> λ disk.
      edge_from_disk_v4 disk s.dicts s.scope_registry s.tables.node_slots.reverse >>> λ rec.
      ok (some rec)

  unfoldable pub read_edge_by_slot : Storage → ℕ → Result (Option EdgeRecord)
  unfolding decode_edge
  read_edge_by_slot s slot = edge_of_row s (s.tables.edges slot)

  abbrev pub edge_at : Storage → Option ℕ → Result (Option EdgeRecord)
  edge_at s none = ok none
  edge_at s (some slot) = read_edge_by_slot s slot >>> λ found.
      ok_or found (encoding "edge slot mapping without record row") >>> λ rec. ok (some rec)

  unfoldable pub read_edge : ℕ → Storage → Result (Option EdgeRecord)
  unfolding read_edge_by_slot
  read_edge id s = edge_slot id s >>> edge_at s

  unfoldable pub put_node : NodeRecord → Act (Unit {0})
  put_node rec = do
    slot ← read (slot_or (encoding "put_node: missing node slot") (node_slot rec.id))
    disk ← node_to_disk_v3 rec
    raw ← read (λ s. codecs.postcard.of_node disk)
    modify (λ t. record t { nodes = insert t.nodes slot (frame_value codecs.lz4 raw) })

  unfoldable pub put_edge : EdgeRecord → Act (Unit {0})
  put_edge rec = do
    slot ← read (slot_or (encoding "put_edge: missing edge slot") (edge_slot rec.id))
    disk ← edge_to_disk_v4 rec
    raw ← read (λ s. codecs.postcard.of_edge disk)
    modify (λ t. record t { edges = insert t.edges slot (frame_value codecs.lz4 raw) })

  -- The old row goes if the model changes; that the scope is the same otherwise is asserted in debug
  -- builds only.
  abbrev pub without_old : Table ℕ Bytes → ℕ → ℕ → Option (ℕ × ℕ) → Table ℕ Bytes
  without_old vectors slot model none = vectors
  without_old vectors slot model (some (old_model, old_scope)) =
      if old_model == model then vectors else remove vectors (vector_key old_model old_scope slot)

  unfoldable pub put_vector :
      Table ℕ Bytes → Table ℕ Bytes → ℕ → ℕ → ℕ → List ℕ → Result (Table ℕ Bytes × Table ℕ Bytes)
  unfolding vector_key read_ref
  put_vector vectors refs model scope slot v = read_ref refs slot >>> λ old.
      codecs.postcard.of_qvec (codecs.quantize v) >>> λ raw.
      codecs.postcard.of_ref (model, scope) >>> λ ref. ok (
        insert (without_old vectors slot model old) (vector_key model scope slot)
            (frame_value codecs.lz4 raw),
        insert refs slot ref,
      )

  abbrev pub removed_vector :
      Table ℕ Bytes → Table ℕ Bytes → ℕ → Option (ℕ × ℕ) → Table ℕ Bytes × Table ℕ Bytes
  removed_vector vectors refs slot none = (vectors, refs)
  removed_vector vectors refs slot (some (model, scope)) =
      (remove vectors (vector_key model scope slot), remove refs slot)

  unfoldable pub remove_vector :
      Table ℕ Bytes → Table ℕ Bytes → ℕ → Result (Table ℕ Bytes × Table ℕ Bytes)
  unfolding vector_key read_ref
  remove_vector vectors refs slot =
      read_ref refs slot >>> λ old. ok (removed_vector vectors refs slot old)
