-- ===== src/Storage/Act.antt =====
-- crates/topodb/src/storage.rs: the state that a write transaction works on, and its fallible steps.
-- What a step wrote before it failed stays written: it is `apply_batches` that throws it away.
use topo_db.Prelude.{ℕ, String, none, []}
use topo_db.Prelude.Table.{Table}
use topo_db.Prelude.Bytes.{Bytes, KeyTable}
use topo_db.Prelude.Outcome.{TopoError, Result, ok, err}
use topo_db.Ids.{Scope}
use topo_db.Slots.{Slots}
use topo_db.Op.{Op}
use topo_db.Log.{Log}
use topo_db.Adj.Chunks.{AdjTable}
use topo_db.Registry.{Mirror}
use topo_db.Registry.Dicts.{Dicts, DictKind}
use topo_db.Registry.Dicts
use topo_db.Registry.Scopes

-- `HNSW_LINKS` and `HNSW_META`
pub record HnswTables : Type 0 where
  pub links : Table ℕ Bytes
  pub metas : Table ℕ Bytes

-- `POSTINGS`, `FTS_DOCS` and `FTS_STATS`
pub record FtsTables : Type 0 where
  pub postings : Table Bytes Bytes
  pub docs : Table Bytes Bytes
  pub stats : Table Bytes Bytes

-- The tables, those of the two registries apart. A fixed-width key is its number.
pub record Tables : Type 0 where
  pub nodes : Table ℕ Bytes
  pub edges : Table ℕ Bytes
  pub node_slots : Slots
  pub edge_slots : Slots
  pub out_adj : AdjTable
  pub in_adj : AdjTable
  pub label_index : Table ℕ ℕ
  pub prop_index : KeyTable
  pub vector_dims : Table ℕ ℕ
  pub vectors : Table ℕ Bytes
  pub embedding_ref : Table ℕ Bytes
  pub hnsw : HnswTables
  pub fts : FtsTables
  pub log : Log Op

-- `Storage`: the committed tables, and the mirrors behind the two locks.
pub record Storage : Type 0 where
  pub tables : Tables
  pub dict_rows : DictKind → Table ℕ String
  pub scope_rows : Table ℕ Scope
  pub dicts : Dicts
  pub scope_registry : Mirror Scope

-- An open write transaction, with the locked mirrors and `journal`.
pub record Txn : Type 0 where
  pub tables : Tables
  pub dict : Dicts.Region
  pub scopes : Scopes.Region

-- `begin_write`, and an empty journal
abbrev pub begin_write : Storage → Txn
begin_write s = record {
  tables = s.tables;
  dict = record { dicts = s.dicts; rows = s.dict_rows; dict_ids = [] };
  scopes = record { mirror = s.scope_registry; rows = s.scope_rows; scope_ids = [] };
}

-- What the transaction's own reads see, and what its commit makes durable.
abbrev pub view : Txn → Storage
view t = record {
  tables = t.tables;
  dict_rows = t.dict.rows;
  scope_rows = t.scopes.rows;
  dicts = t.dict.dicts;
  scope_registry = t.scopes.mirror;
}

abbrev pub Act : Type 0 → Type 0
Act A = Txn → Result A × Txn

module _ {A : Type 0} where
  unfoldable pub pure : A → Act A
  pure a t = (ok a, t)

  unfoldable pub fail : TopoError → Act A
  fail e t = (err e, t)

  unfoldable pub read : (Storage → Result A) → Act A
  read f t = (f (view t), t)

  abbrev pub written : Txn → Result (A × Tables) → Result A × Txn
  written t (ok (a, tables)) = (ok a, record t { tables = tables })
  written t (err e) = (err e, t)

  unfoldable pub write : (Tables → Result (A × Tables)) → Act A
  write f t = written t (f t.tables)

unfoldable pub modify : (Tables → Tables) → Act (Unit {0})
modify f t = (ok tt, record t { tables = f t.tables })

-- Here redb takes the rows of the registries.
unfoldable pub intern : DictKind → String → Act ℕ
intern kind name t = let (r, g) = Dicts.intern none t.dict kind name in (r, record t { dict = g })

unfoldable pub intern_scope : Scope → Act ℕ
intern_scope scope t =
    let (r, g) = Scopes.intern none t.scopes scope in (r, record t { scopes = g })

module _ {A B : Type 0} where
  abbrev pub proceed : Result A → (A → Act B) → Act B
  proceed (ok a) f t = f a t
  proceed (err e) f t = (err e, t)

  infixl 5 ◌>>=◌
  unfoldable pub ◌>>=◌ : Act A → (A → Act B) → Act B
  unfolding pure fail read write modify intern intern_scope
  ◌>>=◌ m f t = let (r, t') = m t in proceed r f t'

infixl 5 ◌>>◌
abbrev pub ◌>>◌ : {B : Type 0} → Act (Unit {0}) → Act B → Act B
m >> k = m >>= λ _. k
