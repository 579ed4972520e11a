-- ===== src/Registry/Load.antt =====
-- crates/topodb/src/scopes.rs and crates/topodb/src/dict.rs: a registry is loaded from its table. The rows
-- come in key order; a scope's 17 bytes are their first one and the number that the others write.
pub mod Reopen
use topo_db.Prelude.{
  ℕ, ◌+◌, ◌^◌, max, Bool, true, false, String, Option, none, some, List, [], ◌∷◌, ◌==◌, ltb,
  if◌then◌else◌,
}
use topo_db.Prelude.Table.{Key, insert, nat_key}
use topo_db.Prelude.Outcome.{Result, ok, err, encoding, ◌>>=◌}
use topo_db.Ids.{Scope, shared, id, scope_key}
use topo_db.Registry.{Mirror, blank}
use topo_db.Registry.Dicts.{
  DictKind, label, edge_type, prop_key, model, Dicts, mirror_of, set_mirror, string_key,
}

module _ {K : Type 0} ⦃key : Key K⦄ where
  -- The three writes of a round, with the `checked_add` of a `u32`.
  unfoldable pub load_row : Mirror K → ℕ → K → Result (Mirror K)
  load_row m i k =
      if ltb (i + 1) (2 ^ 32)
      then ok (record {
        by_key = insert m.by_key k i;
        by_id = insert m.by_id i k;
        next = max m.next (i + 1);
      })
      else err (encoding "id exhausted")

-- `storage::scope_key`, and its reading.
unfoldable pub scope_bytes : Scope → ℕ × ℕ
scope_bytes shared = (0, 0)
scope_bytes (id i) = (1, i)

unfoldable pub scope_from_key : ℕ × ℕ → Result Scope
scope_from_key (tag, rest) =
    if tag == 0
    then (if rest == 0 then ok shared else err (encoding "bad shared scope key"))
    else if tag == 1
    then ok (id rest)
    else err (encoding "bad scope key tag")

unfoldable pub load_scopes : Mirror Scope → List (ℕ × (ℕ × ℕ)) → Result (Mirror Scope)
unfolding load_row scope_from_key
load_scopes m [] = ok m
load_scopes m ((i, bytes) ∷ rows) = do
  scope ← scope_from_key bytes
  m' ← load_row m i scope
  load_scopes m' rows

unfoldable pub require_shared : Mirror Scope → Option Scope → Result (Mirror Scope)
require_shared m none = err (encoding "scope registry missing shared row")
require_shared m (some shared) = ok m
require_shared m (some (id i)) = err (encoding "scope registry missing shared row")

unfoldable pub load_table_for_rebuild : List (ℕ × (ℕ × ℕ)) → Result (Mirror Scope)
unfolding load_scopes require_shared
load_table_for_rebuild rows = do m ← load_scopes blank rows; require_shared m (m.by_id 0)

unfoldable pub from_byte : ℕ → Option DictKind
from_byte b =
    if b == 0
    then some label
    else if b == 1
    then some edge_type
    else if b == 2
    then some prop_key
    else if b == 3
    then some model
    else none

abbrev pub kind_or : Option DictKind → Result DictKind
kind_or none = err (encoding "bad dict kind")
kind_or (some kind) = ok kind

-- A row of `DICT` has the byte of its kind and its id as its key.
unfoldable pub load_names : Dicts → List ((ℕ × ℕ) × String) → Result Dicts
unfolding load_row from_byte mirror_of set_mirror
load_names d [] = ok d
load_names d (((b, i), name) ∷ rows) = do
  kind ← kind_or (from_byte b)
  m ← load_row (mirror_of d kind) i name
  load_names (set_mirror d kind m) rows

unfoldable pub load_from_table : List ((ℕ × ℕ) × String) → Result Dicts
unfolding load_names
load_from_table rows =
    load_names (record { labels = blank; types = blank; props = blank; models = blank }) rows
