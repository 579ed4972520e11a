-- ===== src/Storage/Records.antt =====
-- crates/topodb/src/disk.rs and the record functions of crates/topodb/src/storage.rs: the rows of
-- `NODES` and `EDGES`. The crates `postcard` and `lz4_flex` are parameters. A `BTreeMap` is its
-- ascending list.
use topo_db.Prelude.{ℕ, String, Option, none, some, List, [], ◌∷◌, if◌then◌else◌}
use topo_db.Prelude.Int.{ℤ}
use topo_db.Prelude.Table.{Table, nat_key}
use topo_db.Prelude.Rows.{insert_row}
use topo_db.Prelude.Bytes.{Bytes, lt_key}
use topo_db.Prelude.Outcome.{Result, ok, err, TopoError, encoding}
use topo_db.Prelude.Outcome.{◌>>=◌ as ◌>>>◌}
use topo_db.Ids.{Scope}
use topo_db.Op.{PropValue, Props}
use topo_db.Registry.{Mirror}
use topo_db.Registry.Dicts.{Dicts, DictKind, label, edge_type, prop_key, mirror_of}
use topo_db.Registry.Scopes.{resolve}
use topo_db.Read.Traverse.{NodeRecord, EdgeRecord}
use topo_db.Index.Keys.{codes}
use topo_db.Storage.Act.{Storage, Act, pure, read, intern, intern_scope, ◌>>=◌}
use text.Mathlib.Text.{◌==◌ as str_eq}

pub record NodeRecordDiskV3 : Type 0 where
  pub id : ℕ
  pub scope : ℕ
  pub label : ℕ
  pub props : List (ℕ × PropValue)

pub record EdgeRecordDiskV4 : Type 0 where
  pub id : ℕ
  pub scope : ℕ
  pub ty : ℕ
  pub from : ℕ
  pub to : ℕ
  pub props : List (ℕ × PropValue)
  pub valid_from : ℤ
  pub valid_to : Option ℤ
  pub recorded_at : ℤ
  pub superseded_at : Option ℤ

-- `to_allocvec` and `from_bytes` of the crate `postcard`, at the types that the tables hold: the two
-- records, a reference `(model, scope)`, and a quantized vector `(scale, codes)`.
pub record Postcard : Type 0 where
  pub of_node : NodeRecordDiskV3 → Result Bytes
  pub to_node : Bytes → Result NodeRecordDiskV3
  pub of_edge : EdgeRecordDiskV4 → Result Bytes
  pub to_edge : Bytes → Result EdgeRecordDiskV4
  pub of_ref : ℕ × ℕ → Result Bytes
  pub to_ref : Bytes → Result (ℕ × ℕ)
  pub of_qvec : ℕ × List ℤ → Result Bytes
  pub to_qvec : Bytes → Result (ℕ × List ℤ)

-- `BTreeMap::insert` and `BTreeMap::remove`, in the order of the keys' bytes
unfoldable pub insert_prop : Props → String → PropValue → Props
unfolding lt_key
insert_prop [] k v = (k, v) ∷ []
insert_prop ((j, w) ∷ props) k v =
    if str_eq k j
    then (k, v) ∷ props
    else if lt_key (codes k) (codes j)
    then (k, v) ∷ ((j, w) ∷ props)
    else (j, w) ∷ insert_prop props k v

unfoldable pub remove_prop : Props → String → Props
remove_prop [] k = []
remove_prop ((j, w) ∷ props) k = if str_eq k j then props else (j, w) ∷ remove_prop props k

-- `Dicts::resolve`
abbrev pub resolved_name : Option String → Result String
resolved_name none = err (encoding "unknown dict id")
resolved_name (some name) = ok name

unfoldable pub resolve_name : Dicts → DictKind → ℕ → Result String
unfolding mirror_of
resolve_name dicts kind id = resolved_name ((mirror_of dicts kind).by_id id)

-- `.ok_or_else(|| e)?`
abbrev pub ok_or {ℓ} : {A : Type ℓ} → Option A → TopoError → Result A
ok_or none e = err e
ok_or (some a) e = ok a

-- `for (k, v) in &r.props { p.insert(d.intern(..)?, v.clone()); }`
unfoldable pub intern_props : Props → List (ℕ × PropValue) → Act (List (ℕ × PropValue))
unfolding insert_row
intern_props [] p = pure p
intern_props ((k, v) ∷ props) p = do i ← intern prop_key k; intern_props props (insert_row p i v)

unfoldable pub node_to_disk_v3 : NodeRecord → Act NodeRecordDiskV3
unfolding intern_props
node_to_disk_v3 r = do
  p ← intern_props r.props []
  s ← intern_scope r.scope
  l ← intern label r.label
  pure (record { id = r.id; scope = s; label = l; props = p })

unfoldable pub resolve_props : Dicts → List (ℕ × PropValue) → Props → Result Props
unfolding resolve_name insert_prop
resolve_props dicts [] p = ok p
resolve_props dicts ((k, v) ∷ props) p =
    resolve_name dicts prop_key k >>> λ name. resolve_props dicts props (insert_prop p name v)

unfoldable pub node_from_disk_v3 : NodeRecordDiskV3 → Dicts → Mirror Scope → Result NodeRecord
unfolding resolve_props resolve
node_from_disk_v3 r dicts scopes = resolve_props dicts r.props [] >>> λ p.
    resolve scopes r.scope >>> λ s. resolve_name dicts label r.label >>> λ l.
    ok (record { id = r.id; scope = s; label = l; props = p; embedding = none })

-- `node_slot`, `edge_slot`
abbrev pub node_slot : ℕ → Storage → Result (Option ℕ)
node_slot id s = ok (s.tables.node_slots.forward id)

abbrev pub edge_slot : ℕ → Storage → Result (Option ℕ)
edge_slot id s = ok (s.tables.edge_slots.forward id)

abbrev pub slot_or : TopoError → (Storage → Result (Option ℕ)) → Storage → Result ℕ
slot_or e f s = f s >>> λ slot. ok_or slot e

unfoldable pub edge_to_disk_v4 : EdgeRecord → Act EdgeRecordDiskV4
unfolding intern_props
edge_to_disk_v4 r = do
  p ← intern_props r.props []
  from ← read (slot_or (encoding "edge_to_disk_v4: missing from slot") (node_slot r.from))
  to ← read (slot_or (encoding "edge_to_disk_v4: missing to slot") (node_slot r.to))
  s ← intern_scope r.scope
  t ← intern edge_type r.ty
  pure (record {
    id = r.id;
    scope = s;
    ty = t;
    from = from;
    to = to;
    props = p;
    valid_from = r.valid_from;
    valid_to = r.valid_to;
    recorded_at = r.recorded_at;
    superseded_at = r.superseded_at;
  })

unfoldable pub edge_from_disk_v4 :
    EdgeRecordDiskV4 → Dicts → Mirror Scope → Table ℕ ℕ → Result EdgeRecord
unfolding resolve_props resolve
edge_from_disk_v4 r dicts scopes node_ids = resolve_props dicts r.props [] >>> λ p.
    ok_or (node_ids r.from) (encoding "edge_from_disk_v4: missing from ulid") >>> λ from.
    ok_or (node_ids r.to) (encoding "edge_from_disk_v4: missing to ulid") >>> λ to.
    resolve scopes r.scope >>> λ s. resolve_name dicts edge_type r.ty >>> λ t. ok (record {
      id = r.id;
      scope = s;
      ty = t;
      from = from;
      to = to;
      props = p;
      valid_from = r.valid_from;
      valid_to = r.valid_to;
      recorded_at = r.recorded_at;
      superseded_at = r.superseded_at;
    })
