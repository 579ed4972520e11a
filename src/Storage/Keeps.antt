-- ===== src/Storage/Keeps.antt =====
-- crates/topodb/src/storage.rs: what every step of a write transaction keeps, with a rule for each
-- way to build a step.
use topo_db.Prelude.{ℕ, String, ◌≡◌, refl, ap, Bool, true, false, Option, none, some, if◌then◌else◌}
use topo_db.Prelude.Outcome.{TopoError, Result, ok, err}
use topo_db.Prelude.Table.{insert, nat_key}
use topo_db.Registry.{Mirror, claim}
use topo_db.Registry.Dicts.{Dicts, DictKind, mirror_of, string_key}
use topo_db.Registry.Dicts
use topo_db.Registry.Dicts.Undo as DictUndo
use topo_db.Registry.Scopes
use topo_db.Registry.Scopes.Undo as ScopeUndo
use topo_db.Ids.{Scope, scope_key}
use topo_db.Storage.Act.{
  Tables, Storage, Txn, view, Act, pure, fail, read, write, written, modify, intern, intern_scope,
  proceed, ◌>>=◌,
}

-- The journal undoes what the transaction interned since it began at these two mirrors.
pub record IsUndoable (dicts : Dicts) (scopes : Mirror Scope) (t : Txn) : Type 0 where
  pub dict : DictUndo.IsUndoable dicts t.dict
  pub rows : DictUndo.IsInStep t.dict
  pub scope : ScopeUndo.IsUndoable scopes t.scopes

-- The same answer, and the same state but for the journal.
abbrev pub Agrees : {A : Type 0} → Result A × Txn → Result A × Txn → Type 0
Agrees (r, s) (r', t) = (r ≡ r') × (view s ≡ view t)

-- A step that goes by the journal in no way, and leaves all it interned undoable.
pub record Keeps {A : Type 0} (m : Act A) : Type 0 where
  pub undoable :
      (dicts : Dicts) (scopes : Mirror Scope) (t : Txn)
      → IsUndoable dicts scopes t
      → IsUndoable dicts scopes (m t).1
  pub blind : (s t : Txn) → view s ≡ view t → Agrees (m s) (m t)

module _ {A : Type 0} where
  pub Keeps-pure : (a : A) → Keeps (pure a)
  unfolding pure
  Keeps-pure a = record { undoable = λ d c t h. h; blind = λ s t e. (refl, e) }

  pub Keeps-fail : (e : TopoError) → Keeps (fail {A = A} e)
  unfolding fail
  Keeps-fail x = record { undoable = λ d c t h. h; blind = λ s t e. (refl, e) }

  pub Keeps-read : (f : Storage → Result A) → Keeps (read f)
  unfolding read
  Keeps-read f = record { undoable = λ d c t h. h; blind = λ s t e. (ap f e, e) }

  written-IsUndoable :
      (r : Result (A × Tables)) (d : Dicts) (c : Mirror Scope) (t : Txn)
      → IsUndoable d c t
      → IsUndoable d c (written t r).1
  written-IsUndoable (ok (a, tables)) d c t h = record {
    dict = h.dict;
    rows = h.rows;
    scope = h.scope;
  }
  written-IsUndoable (err e) d c t h = h

  written-blind :
      (r : Result (A × Tables)) (s t : Txn) → view s ≡ view t → Agrees (written s r) (written t r)
  written-blind (ok (a, tables)) s t e = (refl, λ i. record (e i) { tables = tables })
  written-blind (err x) s t e = (refl, e)

  write-blind :
      (f : Tables → Result (A × Tables)) (s t : Txn)
      → view s ≡ view t
      → Agrees (write f s) (write f t)
  unfolding write
  write-blind f s t e =
      let same : f s.tables ≡ f t.tables = ap (λ (v : Storage). f v.tables) e in
      rw same (written-blind (f t.tables) s t e)

  pub Keeps-write : (f : Tables → Result (A × Tables)) → Keeps (write f)
  Keeps-write f = record {
    undoable = λ d c t h. unfold write in written-IsUndoable (f t.tables) d c t h;
    blind = write-blind f;
  }

  pub Keeps-if : (b : Bool) (m n : Act A) → Keeps m → Keeps n → Keeps (if b then m else n)
  Keeps-if true m n km kn = km
  Keeps-if false m n km kn = kn

pub Keeps-modify : (f : Tables → Tables) → Keeps (modify f)
unfolding modify
Keeps-modify f = record {
  undoable = λ d c t h. record { dict = h.dict; rows = h.rows; scope = h.scope };
  blind = λ s t e. (refl, λ i. record (e i) { tables = f (e i).tables });
}

-- The registries' answers go by their mirrors alone.
interned-blind :
    (r : Result (ℕ × Option (Mirror String))) (s t : Txn) (kind : DictKind) (name : String)
    → view s ≡ view t
    → Agrees
        (let (a, g) = Dicts.interned none s.dict kind name r in (a, record s { dict = g }))
        (let (a, g) = Dicts.interned none t.dict kind name r in (a, record t { dict = g }))
unfolding Dicts.interned
interned-blind (ok (i, none)) s t kind name e = (refl, e)
interned-blind (err x) s t kind name e = (refl, e)
interned-blind (ok (i, some m)) s t kind name e = (
  refl,
  λ j. record (e j) {
    dicts = Dicts.set_mirror (e j).dicts kind m;
    dict_rows = Dicts.set_row (e j).dict_rows kind i name;
  },
)

intern-blind :
    (kind : DictKind) (name : String) (s t : Txn)
    → view s ≡ view t
    → Agrees (intern kind name s) (intern kind name t)
unfolding intern Dicts.intern
intern-blind kind name s t e =
    rw (ap (λ (v : Storage). claim (mirror_of v.dicts kind) name) e)
      (interned-blind (claim (mirror_of t.dict.dicts kind) name) s t kind name e)

pub Keeps-intern : (kind : DictKind) (name : String) → Keeps (intern kind name)
Keeps-intern kind name = record {
  undoable = λ d c t h. record {
    dict = unfold intern in DictUndo.intern-IsUndoable d t.dict kind name h.dict;
    rows = unfold intern in DictUndo.intern-IsInStep t.dict kind name h.rows;
    scope = unfold intern in h.scope;
  };
  blind = intern-blind kind name;
}

interned_scope-blind :
    (r : Result (ℕ × Option (Mirror Scope))) (s t : Txn) (scope : Scope)
    → view s ≡ view t
    → Agrees
        (let (a, g) = Scopes.interned none s.scopes scope r in (a, record s { scopes = g }))
        (let (a, g) = Scopes.interned none t.scopes scope r in (a, record t { scopes = g }))
unfolding Scopes.interned
interned_scope-blind (ok (i, none)) s t scope e = (refl, e)
interned_scope-blind (err x) s t scope e = (refl, e)
interned_scope-blind (ok (i, some m)) s t scope e =
    (refl, λ j. record (e j) { scope_registry = m; scope_rows = insert (e j).scope_rows i scope })

intern_scope-blind :
    (scope : Scope) (s t : Txn)
    → view s ≡ view t
    → Agrees (intern_scope scope s) (intern_scope scope t)
unfolding intern_scope Scopes.intern
intern_scope-blind scope s t e =
    rw (ap (λ (v : Storage). claim v.scope_registry scope) e)
      (interned_scope-blind (claim t.scopes.mirror scope) s t scope e)

pub Keeps-intern_scope : (scope : Scope) → Keeps (intern_scope scope)
Keeps-intern_scope scope = record {
  undoable = λ d c t h. record {
    dict = unfold intern_scope in h.dict;
    rows = unfold intern_scope in h.rows;
    scope = unfold intern_scope in ScopeUndo.intern-IsUndoable c t.scopes scope h.scope;
  };
  blind = intern_scope-blind scope;
}

module _ {A B : Type 0} where
  proceed-Keeps : (r : Result A) (f : A → Act B) → ((a : A) → Keeps (f a)) → Keeps (proceed r f)
  proceed-Keeps (ok a) f k = record { undoable = (k a).undoable; blind = (k a).blind }
  proceed-Keeps (err e) f k = record { undoable = λ d c t h. h; blind = λ s t e. (refl, e) }

  bind-blind :
      (m : Act A) (f : A → Act B)
      → Keeps m
      → ((a : A) → Keeps (f a))
      → (s t : Txn) → view s ≡ view t
      → Agrees ((m >>= f) s) ((m >>= f) t)
  unfolding ◌>>=◌
  bind-blind m f km kf s t e =
      let (same, views) = km.blind s t e in
      rw same ((proceed-Keeps (m t).0 f kf).blind (m s).1 (m t).1 views)

  pub Keeps-bind : (m : Act A) (f : A → Act B) → Keeps m → ((a : A) → Keeps (f a)) → Keeps (m >>= f)
  unfolding ◌>>=◌
  Keeps-bind m f km kf = record {
    undoable = λ d c t h. (proceed-Keeps (m t).0 f kf).undoable d c (m t).1 (km.undoable d c t h);
    blind = bind-blind m f km kf;
  }

pub ruleset keeps_rules = (
  Keeps-pure, Keeps-fail, Keeps-read, Keeps-write, Keeps-modify, Keeps-if, Keeps-intern,
  Keeps-intern_scope, Keeps-bind,
)
