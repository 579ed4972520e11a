-- ===== src/Registry/Tests.antt =====
-- Runs of the mirrors of crates/topodb/src/dict.rs and scopes.rs, and the theorems at concrete inputs.
use topo_db.Prelude.{
  ◌≡◌, refl, none, some, Option, String, List, [], ◌∷◌, ◌++◌, ◌+◌, ◌^◌, ltb, true,
}
use topo_db.Prelude.Table.{nat_key, insert}
use topo_db.Prelude.Outcome.{TopoError, encoding, ok}
use topo_db.Ids.{Scope, shared, id, scope_key}
use topo_db.Registry.{Mirror, add, blank, claim, forget}
use topo_db.Registry.Load.{
  load_row, scope_bytes, scope_from_key, load_scopes, require_shared, load_table_for_rebuild,
}
use topo_db.Registry.Load.Reopen.{load_table_for_rebuild-claim}
use topo_db.Registry.Laws.{blank-IsConsistent}
use topo_db.Registry.Scopes
use topo_db.Registry.Scopes.Undo.{revert-intern_all_scopes}
use topo_db.Registry.Dicts
use topo_db.Registry.Dicts.{DictKind, label, model, string_key}
use topo_db.Registry.Dicts.Refused.{AllRestored, intern_each, revert-intern_refused}
use topo_db.Registry.Dicts.Undo.{AllConsistent, revert-intern_all_dicts}

abbrev no_scopes : Scopes.Region
no_scopes = record { mirror = blank; rows = λ i. none; scope_ids = [] }

-- Shared, then a project twice: the ids 0 and 1, journalled once each.
two_scopes : (Scopes.intern_all no_scopes (shared ∷ id 7 ∷ id 7 ∷ [])).scope_ids ≡ 0 ∷ 1 ∷ []
unfolding Scopes.intern_all Scopes.intern claim insert
two_scopes = refl

intern_shared : (Scopes.intern none no_scopes shared).0 ≡ ok 0
unfolding Scopes.intern claim
intern_shared = refl

revert-intern_all_scopes_example :
    Scopes.revert
      (Scopes.intern_all no_scopes (shared ∷ id 7 ∷ [])).mirror
      (Scopes.intern_all no_scopes (shared ∷ id 7 ∷ [])).scope_ids
    ≡ blank
revert-intern_all_scopes_example =
    revert-intern_all_scopes blank (shared ∷ id 7 ∷ []) blank-IsConsistent

abbrev no_names : Dicts.Dicts
no_names = record { labels = blank; types = blank; props = blank; models = blank }

no_names-AllConsistent : AllConsistent no_names
unfolding Dicts.mirror_of
no_names-AllConsistent = elim [
  | label ↦ blank-IsConsistent
  | DictKind.edge_type ↦ blank-IsConsistent
  | DictKind.prop_key ↦ blank-IsConsistent
  | model ↦ blank-IsConsistent
]

revert-intern_all_dicts_example :
    Dicts.revert
      (Dicts.intern_all
        (record { dicts = no_names; rows = λ k i. none; dict_ids = [] })
        ((label, "Memory") ∷ (model, "m") ∷ [])).dicts
      (Dicts.intern_all
        (record { dicts = no_names; rows = λ k i. none; dict_ids = [] })
        ((label, "Memory") ∷ (model, "m") ∷ [])).dict_ids
    ≡ no_names
revert-intern_all_dicts_example =
    revert-intern_all_dicts no_names (λ k i. none) ((label, "Memory") ∷ (model, "m") ∷ [])
      no_names-AllConsistent

-- The row of the first name is refused, that of the second is taken.
abbrev calls : List (Option TopoError × DictKind × String)
calls = (some (encoding "full"), label, "Memory") ∷ (none, model, "m") ∷ []

revert-intern_refused_example : AllRestored no_names (
    Dicts.revert
      (intern_each (record { dicts = no_names; rows = λ k i. none; dict_ids = [] }) calls).dicts
      (intern_each (record { dicts = no_names; rows = λ k i. none; dict_ids = [] }) calls).dict_ids)
revert-intern_refused_example =
    revert-intern_refused no_names (λ k i. none) calls no_names-AllConsistent

-- The counter of the labels stays where the refused row has left it.
counter_left :
    (Dicts.revert
      (intern_each (record { dicts = no_names; rows = λ k i. none; dict_ids = [] }) calls).dicts
      (intern_each
        (record { dicts = no_names; rows = λ k i. none; dict_ids = [] })
        calls).dict_ids).labels.next
    ≡ 1
unfolding Dicts.revert Dicts.intern claim forget insert
counter_left = refl

-- A registry of the shared scope and of one project, as its table and as its mirror.
abbrev loaded : Mirror Scope
loaded = add (add blank shared) (id 7)

load_two : load_table_for_rebuild ((0, (0, 0)) ∷ (1, (1, 7)) ∷ []) ≡ ok loaded
unfolding load_table_for_rebuild load_scopes load_row scope_from_key require_shared add insert
load_two = refl

nine_is_new : loaded.by_key (id 9) ≡ none
unfolding add insert
nine_is_new = refl

loaded_fits : ltb (loaded.next + 1) (2 ^ 32) ≡ true
unfolding add
loaded_fits = refl

load_table_for_rebuild-claim_example :
    (claim loaded (id 9) ≡ ok (loaded.next, some (add loaded (id 9))))
    × (load_table_for_rebuild
          (((0, (0, 0)) ∷ (1, (1, 7)) ∷ []) ++ (loaded.next, scope_bytes (id 9)) ∷ [])
        ≡ ok (add loaded (id 9)))
load_table_for_rebuild-claim_example =
    load_table_for_rebuild-claim ((0, (0, 0)) ∷ (1, (1, 7)) ∷ []) loaded (id 9) load_two nine_is_new
      loaded_fits
