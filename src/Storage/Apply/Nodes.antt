-- ===== src/Storage/Apply/Nodes.antt =====
-- crates/topodb/src/storage.rs: the arms of `apply_op` that create and change nodes.
use topo_db.Prelude.{
  ℕ, ◌/◌, ◌%◌, ◌^◌, Bool, true, ◌&&◌, not, String, Option, none, some, List, [], ◌∷◌, length, ◌==◌,
  if◌then◌else◌,
}
use topo_db.Prelude.Table.{Table, insert, nat_key}
use topo_db.Prelude.Bytes.{Bytes}
use topo_db.Prelude.Outcome.{Result, ok, err, rejected, encoding}
use topo_db.Prelude.Outcome.{◌>>=◌ as ◌>>>◌}
use topo_db.Ids.{Scope}
use topo_db.Registry.Dicts.{DictKind}
use topo_db.Op.{PropValue, Props}
use topo_db.Storage.Act.{Tables, Act, fail, read, write, modify, intern, intern_scope, ◌>>=◌, ◌>>◌}
use topo_db.Storage.Records.{insert_prop, remove_prop, node_slot, slot_or}
use topo_db.Storage.Rows.{Codecs, check_or_pin_dim, read_ref, put_node, put_vector}
use topo_db.Storage.Hnsw.{Graph, Sources, apply_hnsw_set_embedding}
use topo_db.Storage.Apply.Parts.{alloc_node_slot, label_index_key, node_or}

-- `f32::is_finite`
abbrev pub is_finite : ℕ → Bool
is_finite c = not (c / 2 ^ 23 % 256 == 255)

unfoldable pub all_finite : List ℕ → Bool
all_finite [] = true
all_finite (c ∷ cs) = is_finite c && all_finite cs

-- The error of the pinned dimension, with the model's name.
abbrev pub name_model {ℓ} : {A : Type ℓ} → Result A → Result A
name_model (err (rejected m)) = err (rejected "SetEmbedding: the dimension is pinned")
name_model r = r

unfoldable pub edit_props : Props → List (String × Option PropValue) → Props
unfolding insert_prop remove_prop
edit_props props [] = props
edit_props props ((k, some v) ∷ edits) = edit_props (insert_prop props k v) edits
edit_props props ((k, none) ∷ edits) = edit_props (remove_prop props k) edits

abbrev pub sources : Tables → Sources
sources t = record { vectors = t.vectors; refs = t.embedding_ref; node_ids = t.node_slots.reverse }

abbrev pub with_vectors :
    Tables → Result (Table ℕ Bytes × Table ℕ Bytes) → Result (Unit {0} × Tables)
with_vectors t r = r >>> λ p. ok (tt, record t { vectors = p.0; embedding_ref = p.1 })

module _ (codecs : Codecs) where
  unfoldable pub apply_create_node : ℕ → Scope → String → Props → Act (Unit {0})
  unfolding label_index_key
  apply_create_node id scope label props = do
    slot ← alloc_node_slot id
    put_node codecs
        (record { id = id; scope = scope; label = label; props = props; embedding = none })
    label_id ← intern DictKind.label label
    scope_id ← intern_scope scope
    modify (λ t. record t {
      label_index = insert t.label_index (label_index_key label_id scope_id id) slot;
    })

  unfoldable pub apply_set_node_props : ℕ → List (String × Option PropValue) → Act (Unit {0})
  unfolding edit_props
  apply_set_node_props id edits = do
    rec ← read (node_or codecs "SetNodeProps: node not found" id)
    put_node codecs (record rec { props = edit_props rec.props edits })

module _ (codecs : Codecs) (graph : Graph) where
  unfoldable pub apply_set_embedding : ℕ → String → List ℕ → Act (Unit {0})
  unfolding all_finite check_or_pin_dim
  apply_set_embedding id model [] = fail (rejected "embedding must have at least one dimension")
  apply_set_embedding id model (c ∷ vector) =
      if not (all_finite (c ∷ vector))
      then fail (rejected "embedding contains a non-finite component")
      else (do
        rec ← read (node_or codecs "SetEmbedding: node not found" id)
        model_id ← intern DictKind.model model
        write (λ t.
            name_model (check_or_pin_dim t.vector_dims model_id (length (c ∷ vector))) >>> λ dims.
            ok (tt, record t { vector_dims = dims }))
        slot ← read (
            slot_or (encoding "SetEmbedding: missing node slot after read_node hit") (node_slot id))
        scope_id ← intern_scope rec.scope
        old_ref ← read (λ s. read_ref codecs s.tables.embedding_ref slot)
        write (λ t.
            with_vectors t
              (put_vector codecs t.vectors t.embedding_ref model_id scope_id slot (c ∷ vector)))
        write (λ t.
            apply_hnsw_set_embedding graph t.hnsw (sources t) old_ref model_id scope_id slot id
              (c ∷ vector)
            >>> λ hnsw. ok (tt, record t { hnsw = hnsw })))
