-- ===== src/Registry/Dicts.antt =====
-- crates/topodb/src/dict.rs: `Dicts`, a mirror for each kind of string, and its journal.
pub mod Undo
pub mod Refused
use topo_db.Prelude.{ℕ, String, Option, none, some, List, [], ◌∷◌, ◌++◌, ◌↔◌, ◌≡◌, true}
use topo_db.Prelude.Table.{Table, Key, insert, nat_key}
use topo_db.Prelude.Outcome.{TopoError, Result, ok, err, encoding}
use topo_db.Registry.{Mirror, claim, forget, blank}
use text.Mathlib.Text.{◌==◌ as str_eq}
use text.Mathlib.TextEquality.{eq_iff}

instance abbrev pub string_key : Key String
string_key = record { same = str_eq; same_iff = eq_iff }

pub data DictKind : Type 0 where
  label edge_type prop_key model : DictKind

pub record Dicts : Type 0 where
  pub labels : Mirror String
  pub types : Mirror String
  pub props : Mirror String
  pub models : Mirror String

unfoldable pub mirror_of : Dicts → DictKind → Mirror String
mirror_of d label = d.labels
mirror_of d edge_type = d.types
mirror_of d prop_key = d.props
mirror_of d model = d.models

-- `map_mut`, with what is written through it
unfoldable pub set_mirror : Dicts → DictKind → Mirror String → Dicts
set_mirror d label m = record d { labels = m }
set_mirror d edge_type m = record d { types = m }
set_mirror d prop_key m = record d { props = m }
set_mirror d model m = record d { models = m }

-- What `intern` writes to: the dictionaries, the table `DICT`, and `journal.dict_ids`. The key of a
-- row is the kind and the id.
pub record Region : Type 0 where
  pub dicts : Dicts
  pub rows : DictKind → Table ℕ String
  pub dict_ids : List (DictKind × ℕ)

unfoldable pub set_row :
    (DictKind → Table ℕ String) → DictKind → ℕ → String → DictKind → Table ℕ String
set_row rows label i s label = insert (rows label) i s
set_row rows edge_type i s edge_type = insert (rows edge_type) i s
set_row rows prop_key i s prop_key = insert (rows prop_key) i s
set_row rows model i s model = insert (rows model) i s
set_row rows kind i s other = rows other

-- After the claim: the row, which redb takes or refuses with an error, then the maps and the journal.
-- The counter has moved on before, so that a refused row leaves it there, out of the journal.
unfoldable pub interned :
    Option TopoError
    → Region
    → DictKind
    → String
    → Result (ℕ × Option (Mirror String))
    → Result ℕ × Region
unfolding set_mirror mirror_of set_row
interned answer g kind s (err e) = (err e, g)
interned answer g kind s (ok (i, none)) = (ok i, g)
interned (some e) g kind s (ok (i, some m)) = (
  err e,
  record g { dicts = set_mirror g.dicts kind (record (mirror_of g.dicts kind) { next = m.next }) },
)
interned none g kind s (ok (i, some m)) = (
  ok i,
  record {
    dicts = set_mirror g.dicts kind m;
    rows = set_row g.rows kind i s;
    dict_ids = g.dict_ids ++ (kind, i) ∷ [];
  },
)

unfoldable pub intern : Option TopoError → Region → DictKind → String → Result ℕ × Region
unfolding interned mirror_of
intern answer g kind s = interned answer g kind s (claim (mirror_of g.dicts kind) s)

unfoldable pub revert : Dicts → List (DictKind × ℕ) → Dicts
unfolding set_mirror mirror_of
revert d [] = d
revert d ((kind, i) ∷ ids) =
    let later = revert d ids in set_mirror later kind (forget (mirror_of later kind) i)

-- The interns of a region whose rows redb takes, one after the other.
unfoldable pub intern_all : Region → List (DictKind × String) → Region
intern_all g [] = g
intern_all g ((kind, s) ∷ rest) = intern_all (intern none g kind s).1 rest
