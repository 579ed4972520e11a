-- ===== src/Registry/Dicts/Undo.antt =====
-- crates/topodb/src/dict.rs: `revert` after the interns of a write region.
use topo_db.Prelude.{ℕ, String, ◌≡◌, inl, inr, refl, ◌∙◌, ap, none, some, List, [], ◌∷◌, ◌++◌}
use topo_db.Prelude.Table.{Table, insert, nat_key}
use topo_db.Prelude.Outcome.{ok}
use topo_db.Registry.{Mirror, add, forget}
use topo_db.Registry.Laws.{IsConsistent, add-IsConsistent, forget-add, claim_cases}
use topo_db.Registry.Dicts.{
  DictKind, label, edge_type, prop_key, model, Dicts, mirror_of, set_mirror, set_row, Region,
  interned, intern, revert, intern_all, string_key,
}

abbrev pub AllConsistent : Dicts → Type 0
AllConsistent d = (kind : DictKind) → IsConsistent (mirror_of d kind)

revert-append :
    (d : Dicts) (ids : List (DictKind × ℕ)) (kind : DictKind) (i : ℕ)
    → revert d (ids ++ (kind, i) ∷ [])
      ≡ revert (set_mirror d kind (forget (mirror_of d kind) i)) ids
unfolding revert
revert-append d [] kind i = refl
revert-append d ((k, j) ∷ ids) kind i =
    ap (λ (e : Dicts). set_mirror e k (forget (mirror_of e k) j)) (revert-append d ids kind i)

-- A write through `map_mut` is read back, and writing the old mirror changes nothing.
mirror_of-set_mirror :
    (d : Dicts) (kind : DictKind) (m : Mirror String) → mirror_of (set_mirror d kind m) kind ≡ m
unfolding mirror_of set_mirror
mirror_of-set_mirror d label m = refl
mirror_of-set_mirror d edge_type m = refl
mirror_of-set_mirror d prop_key m = refl
mirror_of-set_mirror d model m = refl

set_mirror_back :
    (d : Dicts) (kind : DictKind) (m : Mirror String)
    → set_mirror (set_mirror d kind m) kind (mirror_of d kind) ≡ d
unfolding mirror_of set_mirror
set_mirror_back d label m = refl
set_mirror_back d edge_type m = refl
set_mirror_back d prop_key m = refl
set_mirror_back d model m = refl

pub set_mirror-AllConsistent :
    (d : Dicts) (kind : DictKind) (m : Mirror String)
    → AllConsistent d
    → IsConsistent m
    → AllConsistent (set_mirror d kind m)
unfolding mirror_of set_mirror
set_mirror-AllConsistent d label m h c = elim [ label ↦ c | k ↦ h k ]
set_mirror-AllConsistent d edge_type m h c = elim [ edge_type ↦ c | k ↦ h k ]
set_mirror-AllConsistent d prop_key m h c = elim [ prop_key ↦ c | k ↦ h k ]
set_mirror-AllConsistent d model m h c = elim [ model ↦ c | k ↦ h k ]

pub record IsUndoable (base : Dicts) (g : Region) : Type 0 where
  pub consistent : AllConsistent g.dicts
  pub undone : revert g.dicts g.dict_ids ≡ base

forget_last :
    (d : Dicts) (kind : DictKind) (s : String)
    → IsConsistent (mirror_of d kind)
    → (mirror_of d kind).by_key s ≡ none
    → set_mirror (set_mirror d kind (add (mirror_of d kind) s)) kind (
        forget
          (mirror_of (set_mirror d kind (add (mirror_of d kind) s)) kind)
          (mirror_of d kind).next)
      ≡ d
forget_last d kind s h new =
    rw
      (
        mirror_of-set_mirror d kind (add (mirror_of d kind) s),
        forget-add (mirror_of d kind) s h new,
      )
      (set_mirror_back d kind (add (mirror_of d kind) s))

pub interned_new :
    (base : Dicts) (g : Region) (kind : DictKind) (s : String)
    → IsUndoable base g
    → (mirror_of g.dicts kind).by_key s ≡ none
    → IsUndoable base
        (interned none g kind s
          (ok ((mirror_of g.dicts kind).next, some (add (mirror_of g.dicts kind) s)))).1
unfolding interned
interned_new base g kind s h new = record {
  consistent =
      set_mirror-AllConsistent g.dicts kind _ h.consistent
        (add-IsConsistent (mirror_of g.dicts kind) s (h.consistent kind) new);
  undone =
      revert-append (set_mirror g.dicts kind (add (mirror_of g.dicts kind) s)) g.dict_ids kind _
      ∙ ap (λ (d : Dicts). revert d g.dict_ids) (forget_last g.dicts kind s (h.consistent kind) new)
      ∙ h.undone;
}

pub intern-IsUndoable :
    (base : Dicts) (g : Region) (kind : DictKind) (s : String)
    → IsUndoable base g
    → IsUndoable base (intern none g kind s).1
intern-IsUndoable base g kind s h = elim (claim_cases (mirror_of g.dicts kind) s) [
  | inl (i, _, e) ↦ unfold intern in rw e h
  | inr (inl (new, e)) ↦ unfold intern in rw e (interned_new base g kind s h new)
  | inr (inr (_, _, e)) ↦ unfold intern in rw e h
]

-- The rows of the table are the mirrors'.
abbrev pub IsInStep : Region → Type 0
IsInStep g = (kind : DictKind) → g.rows kind ≡ (mirror_of g.dicts kind).by_id

set_row-set_mirror :
    (d : Dicts) (rows : DictKind → Table ℕ String) (kind : DictKind) (m : Mirror String) (i : ℕ)
    (s : String)
    → ((k : DictKind) → rows k ≡ (mirror_of d k).by_id)
    → insert (mirror_of d kind).by_id i s ≡ m.by_id
    → (k : DictKind) → set_row rows kind i s k ≡ (mirror_of (set_mirror d kind m) k).by_id
unfolding mirror_of set_mirror set_row
set_row-set_mirror d rows label m i s h e = elim [
  | label ↦ ap (λ (t : Table ℕ String). insert t i s) (h label) ∙ e
  | k ↦ h k
]
set_row-set_mirror d rows edge_type m i s h e = elim [
  | edge_type ↦ ap (λ (t : Table ℕ String). insert t i s) (h edge_type) ∙ e
  | k ↦ h k
]
set_row-set_mirror d rows prop_key m i s h e = elim [
  | prop_key ↦ ap (λ (t : Table ℕ String). insert t i s) (h prop_key) ∙ e
  | k ↦ h k
]
set_row-set_mirror d rows model m i s h e = elim [
  | model ↦ ap (λ (t : Table ℕ String). insert t i s) (h model) ∙ e
  | k ↦ h k
]

pub intern-IsInStep :
    (g : Region) (kind : DictKind) (s : String) → IsInStep g → IsInStep (intern none g kind s).1
unfolding intern interned
intern-IsInStep g kind s h = elim (claim_cases (mirror_of g.dicts kind) s) [
  | inl (i, _, e) ↦ rw e h
  | inr (inl (new, e)) ↦ rw e (set_row-set_mirror g.dicts g.rows kind _ _ s h (unfold add in refl))
  | inr (inr (_, _, e)) ↦ rw e h
]

intern_all-IsUndoable :
    (base : Dicts) (names : List (DictKind × String)) (g : Region)
    → IsUndoable base g
    → IsUndoable base (intern_all g names)
unfolding intern_all
intern_all-IsUndoable base [] g h = h
intern_all-IsUndoable base ((kind, s) ∷ names) g h =
    intern_all-IsUndoable base names (intern none g kind s).1 (intern-IsUndoable base g kind s h)

-- Undoing the journal of a write region gives back all four dictionaries exactly as they were at
-- its start, counters included, whatever names of whatever kinds were interned, in any order, and
-- whether or not ids ran out.
pub revert-intern_all_dicts :
    (d : Dicts) (rows : DictKind → Table ℕ String) (names : List (DictKind × String))
    → AllConsistent d
    → revert
        (intern_all (record { dicts = d; rows = rows; dict_ids = [] }) names).dicts
        (intern_all (record { dicts = d; rows = rows; dict_ids = [] }) names).dict_ids
      ≡ d
revert-intern_all_dicts d rows names h =
    (intern_all-IsUndoable d names (record { dicts = d; rows = rows; dict_ids = [] })
      (record { consistent = h; undone = unfold revert in refl })).undone
