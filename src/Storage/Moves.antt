-- ===== src/Storage/Moves.antt =====
-- crates/topodb/src/storage.rs: a relation between the tables before a step of a write transaction and
-- those after it, with a rule for each way to build a step.
use topo_db.Prelude.{Bool, true, false, String, if◌then◌else◌}
use topo_db.Prelude.Outcome.{TopoError, Result, ok, err}
use topo_db.Prelude.Outcome.{◌>>=◌ as ◌>>>◌}
use topo_db.Ids.{Scope}
use topo_db.Registry.Dicts.{DictKind}
use topo_db.Storage.Act.{
  Tables, Storage, Txn, Act, pure, fail, read, write, written, modify, intern, intern_scope,
  proceed, ◌>>=◌,
}

abbrev pub Relation : Type 1
Relation = Tables → Tables → Type 0

pub record IsOrder (R : Relation) : Type 0 where
  pub rest : (t : Tables) → R t t
  pub join : (t u v : Tables) → R t u → R u v → R t v

module _ {A : Type 0} where
  -- A step moves the tables so, and a write does where it succeeds.
  pub record Moves (R : Relation) (m : Act A) : Type 0 where
    pub moves : (t : Txn) → R t.tables (m t).1.tables

  abbrev pub Leads : Relation → Tables → Result (A × Tables) → Type 0
  Leads R t (ok (a, t')) = R t t'
  Leads R t (err e) = Unit {0}

  pub Moves-weaken :
      (R S : Relation) (m : Act A) → ((t t' : Tables) → R t t' → S t t') → Moves R m → Moves S m
  Moves-weaken R S m w h = record { moves = λ t. w _ _ (h.moves t) }

  pub Moves-if :
      (R : Relation) (b : Bool) (m n : Act A) → Moves R m → Moves R n → Moves R (if b then m else n)
  Moves-if R true m n km kn = km
  Moves-if R false m n km kn = kn

module _ {X A : Type 0} where
  pub Leads-bind :
      (R : Relation) (t : Tables) (r : Result X) (g : X → Result (A × Tables))
      → ((x : X) → Leads R t (g x))
      → Leads R t (r >>> g)
  Leads-bind R t (ok x) g h = h x
  Leads-bind R t (err e) g h = tt

pub Moves-modify :
    (R : Relation) (f : Tables → Tables) → ((t : Tables) → R t (f t)) → Moves R (modify f)
unfolding modify
Moves-modify R f h = record { moves = λ t. h t.tables }

module _ {R : Relation} (order : IsOrder R) where
  module _ {A : Type 0} where
    pub Moves-pure : (a : A) → Moves R (pure a)
    unfolding pure
    Moves-pure a = record { moves = λ t. order.rest t.tables }

    pub Moves-fail : (e : TopoError) → Moves R (fail {A = A} e)
    unfolding fail
    Moves-fail e = record { moves = λ t. order.rest t.tables }

    pub Moves-read : (f : Storage → Result A) → Moves R (read f)
    unfolding read
    Moves-read f = record { moves = λ t. order.rest t.tables }

    written-Moves :
        (r : Result (A × Tables)) (t : Txn) → Leads R t.tables r → R t.tables (written t r).1.tables
    written-Moves (ok (a, tables)) t h = h
    written-Moves (err e) t h = order.rest t.tables

    pub Moves-write :
        (f : Tables → Result (A × Tables)) → ((t : Tables) → Leads R t (f t)) → Moves R (write f)
    unfolding write
    Moves-write f h = record { moves = λ t. written-Moves (f t.tables) t (h t.tables) }

  pub Moves-intern : (kind : DictKind) (name : String) → Moves R (intern kind name)
  unfolding intern
  Moves-intern kind name = record { moves = λ t. order.rest t.tables }

  pub Moves-intern_scope : (scope : Scope) → Moves R (intern_scope scope)
  unfolding intern_scope
  Moves-intern_scope scope = record { moves = λ t. order.rest t.tables }

  module _ {A B : Type 0} where
    proceed-Moves :
        (r : Result A) (f : A → Act B)
        → ((a : A) → Moves R (f a))
        → (t : Txn) → R t.tables (proceed r f t).1.tables
    proceed-Moves (ok a) f k t = (k a).moves t
    proceed-Moves (err e) f k t = order.rest t.tables

    pub Moves-bind :
        (m : Act A) (f : A → Act B) → Moves R m → ((a : A) → Moves R (f a)) → Moves R (m >>= f)
    unfolding ◌>>=◌
    Moves-bind m f km kf = record {
      moves = λ t. order.join _ _ _ (km.moves t) (proceed-Moves (m t).0 f kf (m t).1);
    }

pub ruleset moves_rules = (
  Moves-pure, Moves-fail, Moves-read, Moves-write, Moves-modify, Moves-if, Moves-intern,
  Moves-intern_scope, Moves-bind,
)
