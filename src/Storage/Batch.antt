-- ===== src/Storage/Batch.antt =====
-- crates/topodb/src/storage.rs and crates/topodb/src/fts.rs: `apply_ops_in_txn`, one batch in an open
-- transaction. A text is its code points; the postings of fts.rs are a parameter.
use topo_db.Prelude.{
  ℕ, Bool, ◌&&◌, String, Option, none, some, List, [], ◌∷◌, ◌++◌, map, ltb, if◌then◌else◌,
}
use topo_db.Prelude.Int.{ℤ}
use topo_db.Prelude.Bytes.{KeyTable}
use topo_db.Prelude.Outcome.{Result, ok, err, rejected, encoding}
use topo_db.Prelude.Outcome.{◌>>=◌ as ◌>>>◌}
use topo_db.Ids.{Scope, same_scope}
use topo_db.Log.{append_rewritten}
use topo_db.Registry.Dicts.{DictKind, mirror_of}
use topo_db.Op.{
  Op, create_node, set_node_props, remove_node, upsert_node, PropValue, str, Props, get_prop,
}
use topo_db.Op.Resolve.{resolve_op, Remap}
use topo_db.Op.Upsert.{Index, resolve_upserts}
use topo_db.Read.Traverse.{NodeRecord}
use topo_db.Index.{PropIndex, IndexSpec, declares, IndexValue, value_of}
use topo_db.Index.Keys.{codes, lookup, index_node, unindex_node}
use topo_db.Storage.Act.{
  Tables, FtsTables, Storage, Act, pure, fail, read, write, modify, intern_scope, ◌>>=◌, ◌>>◌,
}
use topo_db.Storage.Records.{node_slot, ok_or}
use topo_db.Storage.Rows.{Codecs, read_node, read_node_by_slot}
use topo_db.Storage.Hnsw.{Graph}
use topo_db.Storage.Apply.{apply_op}
use text.Mathlib.Text.{◌==◌ as str_eq}

pub record Engine : Type 0 where
  pub codecs : Codecs
  pub graph : Graph
  pub spec : IndexSpec
  pub to_lowercase : List ℕ → List ℕ
  pub fts_update : FtsTables → ℕ → ℕ → Option (List ℕ) → Option (List ℕ) → Result FtsTables

-- `doc_text`: the parts of the declared text, and their join by a space.
abbrev pub text_part : Option PropValue → List String → List String
text_part (some (str s)) parts = s ∷ parts
text_part _ parts = parts

unfoldable pub text_parts : List PropIndex → String → Props → List String
unfolding get_prop
text_parts [] label props = []
text_parts (p ∷ ps) label props =
    let rest = text_parts ps label props in
    if str_eq p.label label then text_part (get_prop props p.prop) rest else rest

abbrev pub join_rest : List ℕ → List String → List ℕ
join_rest joined [] = []
join_rest joined (s ∷ parts) = 32 ∷ joined

unfoldable pub join_parts : List String → List ℕ
join_parts [] = []
join_parts (s ∷ parts) = codes s ++ join_rest (join_parts parts) parts

abbrev pub joined_text : List String → Option (List ℕ)
joined_text [] = none
joined_text (s ∷ parts) = some (join_parts (s ∷ parts))

unfoldable pub doc_text : IndexSpec → NodeRecord → Option (List ℕ)
unfolding text_parts join_parts
doc_text spec rec = joined_text (text_parts spec.text rec.label rec.props)

-- The edit of the text index that an op asks for: scope id, slot, old text and new text.
abbrev pub FtsEdit : Type 0
FtsEdit = ℕ × ℕ × Option (List ℕ) × Option (List ℕ)

-- `pre`: the node, its scope, its slot where it has one, and its old text.
abbrev pub Pre : Type 0
Pre = ℕ × Scope × Option ℕ × Option (List ℕ)

pub record AppliedBatch : Type 0 where
  pub first_seq : ℕ
  pub last_seq : ℕ
  pub resolved : List Op
  pub remap : Remap

-- `best.map_or(rec.id, |b| b.min(rec.id))`
abbrev pub better : Option ℕ → ℕ → Option ℕ
better none id = some id
better (some b) id = some (if ltb id b then id else b)

abbrev pub is_hit : String → Scope → NodeRecord → Bool
is_hit label scope rec = str_eq rec.label label && same_scope rec.scope scope

abbrev pub best_of : String → Scope → Option ℕ → Option NodeRecord → Option ℕ
best_of label scope best none = best
best_of label scope best (some rec) = if is_hit label scope rec then better best rec.id else best

module _ (engine : Engine) where
  unfoldable pub best_match : Storage → String → Scope → Option ℕ → List ℕ → Result (Option ℕ)
  best_match s label scope best [] = ok best
  best_match s label scope best (slot ∷ slots) = read_node_by_slot engine.codecs s slot >>> λ found.
      best_match s label scope (best_of label scope best found) slots

  abbrev pub looked_up : Storage → String → Scope → Option ℕ → Option IndexValue → Result (Option ℕ)
  looked_up s label scope (some prop_key) (some value) =
      best_match s label scope none (lookup engine.to_lowercase s.tables.prop_index prop_key value)
  looked_up s label scope _ _ = ok none

  unfoldable pub lookup_indexed_node :
      Storage → Scope → String → String → PropValue → Result (Option ℕ)
  unfolding best_match declares mirror_of value_of
  lookup_indexed_node s scope label prop value =
      if declares engine.spec.equality label prop
      then looked_up s label scope ((mirror_of s.dicts DictKind.prop_key).by_key prop)
          (value_of value)
      else ok none

  abbrev pub answer : Result (Option ℕ) → Option ℕ
  answer (ok found) = found
  answer (err e) = none

  -- The answers of the index as the pre-pass reads them, and the first lookup of the pre-pass that
  -- fails. The pre-pass writes nothing, so that all its lookups see one state.
  unfoldable pub index_of : Storage → Index
  unfolding lookup_indexed_node
  index_of s scope label key value = answer (lookup_indexed_node s scope label key value)

  abbrev pub lookup_value : Storage → Scope → String → String → Option PropValue → Result (Option ℕ)
  lookup_value s scope label key none = ok none
  lookup_value s scope label key (some value) = lookup_indexed_node s scope label key value

  unfoldable pub check_lookups : List Op → Storage → Result (Unit {0})
  unfolding lookup_indexed_node get_prop
  check_lookups [] s = ok tt
  check_lookups (upsert_node id scope label key props ∷ ops) s =
      lookup_value s scope label key (get_prop props key) >>> λ _. check_lookups ops s
  check_lookups (op ∷ ops) s = check_lookups ops s

  abbrev pub pre_of_node : Storage → ℕ → Option NodeRecord → Result (Option Pre)
  pre_of_node s id none = ok none
  pre_of_node s id (some rec) =
      node_slot id s >>> λ slot. ok (some (id, rec.scope, slot, doc_text engine.spec rec))

  abbrev pub pre_of_id : ℕ → Storage → Result (Option Pre)
  pre_of_id id s = read_node engine.codecs id s >>> pre_of_node s id

  unfoldable pub pre_of : Op → Storage → Result (Option Pre)
  unfolding doc_text
  pre_of (create_node id scope label props) s = ok (some (id, scope, none, none))
  pre_of (set_node_props id props) s = pre_of_id id s
  pre_of (remove_node id) s = pre_of_id id s
  pre_of op s = ok none

  abbrev pub read_some : Option ℕ → Storage → Result (Option NodeRecord)
  read_some none s = ok none
  read_some (some id) s = read_node engine.codecs id s

  abbrev pub slot_of_node : Option NodeRecord → Storage → Result (Option ℕ)
  slot_of_node none s = ok none
  slot_of_node (some node) s = node_slot node.id s

  -- The node whose old entries go, and the node whose new entries come.
  abbrev pub unindexed : Op → Option ℕ
  unindexed (set_node_props id props) = some id
  unindexed (remove_node id) = some id
  unindexed op = none

  abbrev pub reindexed : Op → Option ℕ
  reindexed (create_node id scope label props) = some id
  reindexed (set_node_props id props) = some id
  reindexed op = none

  abbrev pub edit_index :
      (KeyTable → NodeRecord → ℕ → KeyTable) → Option NodeRecord → Option ℕ → Tables → Tables
  edit_index edit (some node) (some slot) t = record t { prop_index = edit t.prop_index node slot }
  edit_index edit _ _ t = t

  unfoldable pub unindex_old : Op → Act (Unit {0})
  unfolding unindex_node
  unindex_old op = do
    node ← read (read_some (unindexed op))
    slot ← read (slot_of_node node)
    s ← read (λ s. ok s)
    modify
        (edit_index (λ t n i. unindex_node engine.to_lowercase t engine.spec s.dicts n i) node slot)

  unfoldable pub index_new : Op → Act (Unit {0})
  unfolding index_node
  index_new op = do
    node ← read (read_some (reindexed op))
    slot ← read (slot_of_node node)
    s ← read (λ s. ok s)
    modify
        (edit_index (λ t n i. index_node engine.to_lowercase t engine.spec s.dicts n i) node slot)

  abbrev pub text_of : Option NodeRecord → Option (List ℕ)
  text_of none = none
  text_of (some rec) = doc_text engine.spec rec

  unfoldable pub new_text : Op → ℕ → Storage → Result (Option (List ℕ))
  unfolding doc_text
  new_text (remove_node id) node s = ok none
  new_text op node s = read_node engine.codecs node s >>> λ rec. ok (text_of rec)

  abbrev pub slot_after : Option ℕ → ℕ → Storage → Result ℕ
  slot_after (some slot) id s = ok slot
  slot_after none id s = node_slot id s >>> λ slot.
      ok_or slot (encoding "fts edit: node slot missing after CreateNode")

  unfoldable pub push_edit : Op → Option Pre → List FtsEdit → Act (List FtsEdit)
  unfolding new_text
  push_edit op none edits = pure edits
  push_edit op (some (id, scope, pre_slot, old)) edits = do
    new ← read (new_text op id)
    slot ← read (slot_after pre_slot id)
    scope_id ← intern_scope scope
    pure (edits ++ (scope_id, slot, old, new) ∷ [])

  -- One round of the op loop.
  unfoldable pub apply_one : Op → List FtsEdit → Act (List FtsEdit)
  unfolding pre_of unindex_old apply_op index_new push_edit
  apply_one op edits = do
    pre ← read (pre_of op)
    unindex_old op
    apply_op engine.codecs engine.graph op
    index_new op
    push_edit op pre edits

  unfoldable pub apply_each : List Op → List FtsEdit → Act (List FtsEdit)
  unfolding apply_one
  apply_each [] edits = pure edits
  apply_each (op ∷ ops) edits = do edits' ← apply_one op edits; apply_each ops edits'

  unfoldable pub update_fts : FtsTables → List FtsEdit → Result FtsTables
  update_fts fts [] = ok fts
  update_fts fts ((scope_id, slot, old, new) ∷ edits) =
      engine.fts_update fts scope_id slot old new >>> λ fts'. update_fts fts' edits

  abbrev pub write_fts : List FtsEdit → Tables → Result (Unit {0} × Tables)
  write_fts edits t = update_fts t.fts edits >>> λ fts. ok (tt, record t { fts = fts })

  abbrev pub append_log : List Op → Tables → Result ((ℕ × ℕ) × Tables)
  append_log ops t =
      let (log, seqs) = append_rewritten t.log ops in ok (seqs, record t { log = log })

  unfoldable pub apply_resolved : List Op → Act AppliedBatch
  unfolding check_lookups index_of resolve_upserts apply_each update_fts append_rewritten
  apply_resolved resolved = do
    read (check_lookups resolved)
    pass ← read (λ s. ok (resolve_upserts (index_of s) resolved))
    edits ← apply_each pass.0 []
    write (write_fts edits)
    seqs ← write (append_log pass.0)
    pure (record { first_seq = seqs.0; last_seq = seqs.1; resolved = pass.0; remap = pass.1 })

  unfoldable pub apply_ops_in_txn : List Op → ℤ → Act AppliedBatch
  unfolding resolve_op apply_resolved
  apply_ops_in_txn [] now = fail (rejected "empty op batch")
  apply_ops_in_txn (op ∷ ops) now = apply_resolved (map (λ o. resolve_op o now) (op ∷ ops))
