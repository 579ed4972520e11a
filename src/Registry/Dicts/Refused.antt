-- ===== src/Registry/Dicts/Refused.antt =====
-- crates/topodb/src/dict.rs: `revert` after interns of which redb has refused some rows.
use topo_db.Prelude.{
  ℕ, ◌≤◌, String, ◌≡◌, inl, inr, refl, sym, subst, ◌∙◌, arith, Option, none, some, Option-cases,
  List, [], ◌∷◌,
}
use topo_db.Prelude.Table.{Table, nat_key}
use topo_db.Prelude.Outcome.{TopoError, ok}
use topo_db.Registry.{Mirror, add, forget, forget_found}
use topo_db.Registry.Laws.{IsConsistent, claim_cases}
use topo_db.Registry.Dicts.{
  DictKind, label, edge_type, prop_key, model, Dicts, mirror_of, set_mirror, Region, interned,
  intern, revert, string_key,
}
use topo_db.Registry.Dicts.Undo.{AllConsistent, set_mirror-AllConsistent, interned_new}

-- The names and their ids are the same, and the counter is not lower.
abbrev pub Restores : Mirror String → Mirror String → Type 0
Restores m n = (n.by_key ≡ m.by_key) × (n.by_id ≡ m.by_id) × (m.next ≤ n.next)

abbrev pub AllRestored : Dicts → Dicts → Type 0
AllRestored d e = (kind : DictKind) → Restores (mirror_of d kind) (mirror_of e kind)

-- The calls of `intern` in a region, each with the answer of redb to its row.
abbrev pub intern_each : Region → List (Option TopoError × DictKind × String) → Region
intern_each g [] = g
intern_each g ((answer, kind, s) ∷ calls) = intern_each (intern answer g kind s).1 calls

-- Forgetting an id goes by the maps alone.
forget_next : (m : Mirror String) (n i : ℕ) → forget (record m { next = n }) i ≡ forget m i
unfolding forget
forget_next m n i = elim (Option-cases (m.by_id i)) [
  | inl gone ↦ rw (gone, forget_found) refl
  | inr (s, there) ↦ rw (there, forget_found) refl
]

forget-Restores : (m n : Mirror String) (i : ℕ) → Restores m n → forget n i ≡ forget m i
forget-Restores m n i (keys, ids, le) =
    (λ j. forget (record { by_key = keys j; by_id = ids j; next = n.next }) i)
    ∙ forget_next m n.next i

Restores-same : (m n : Mirror String) → n ≡ m → Restores m n
Restores-same m n e = rw e (refl, refl, omega arith)

set_mirror-AllRestored :
    (d e : Dicts) (kind : DictKind) (m n : Mirror String)
    → AllRestored d e
    → Restores m n
    → AllRestored (set_mirror d kind m) (set_mirror e kind n)
unfolding mirror_of set_mirror
set_mirror-AllRestored d e label m n h r = elim [ label ↦ r | k ↦ h k ]
set_mirror-AllRestored d e edge_type m n h r = elim [ edge_type ↦ r | k ↦ h k ]
set_mirror-AllRestored d e prop_key m n h r = elim [ prop_key ↦ r | k ↦ h k ]
set_mirror-AllRestored d e model m n h r = elim [ model ↦ r | k ↦ h k ]

bumped-AllRestored :
    (d : Dicts) (kind : DictKind) (m : Mirror String)
    → Restores (mirror_of d kind) m
    → AllRestored d (set_mirror d kind m)
unfolding mirror_of set_mirror
bumped-AllRestored d label m r = elim [ label ↦ r | k ↦ (refl, refl, omega arith) ]
bumped-AllRestored d edge_type m r = elim [ edge_type ↦ r | k ↦ (refl, refl, omega arith) ]
bumped-AllRestored d prop_key m r = elim [ prop_key ↦ r | k ↦ (refl, refl, omega arith) ]
bumped-AllRestored d model m r = elim [ model ↦ r | k ↦ (refl, refl, omega arith) ]

revert-AllRestored :
    (d e : Dicts) (ids : List (DictKind × ℕ))
    → AllRestored d e
    → AllRestored (revert d ids) (revert e ids)
unfolding revert
revert-AllRestored d e [] h = h
revert-AllRestored d e ((kind, i) ∷ ids) h =
    let later = revert-AllRestored d e ids h in
    set_mirror-AllRestored (revert d ids) (revert e ids) kind _ _ later (
      Restores-same _ _ (
        forget-Restores (mirror_of (revert d ids) kind) (mirror_of (revert e ids) kind) i
          (later kind)))

Restores-trans : (a b c : Dicts) → AllRestored a b → AllRestored b c → AllRestored a c
Restores-trans a b c h k = λ kind.
    let (keys, ids, le) = h kind in
    let (keys', ids', le') = k kind in (keys' ∙ keys, ids' ∙ ids, omega arith)

bumped-IsConsistent :
    (m : Mirror String) (n : ℕ) → m.next ≤ n → IsConsistent m → IsConsistent (record m { next = n })
bumped-IsConsistent m n le h = record {
  there = h.there;
  back = h.back;
  below = λ k i e. omega (arith, h.below k i e);
}

-- The region is consistent, and undoing its journal restores `base`.
abbrev Undoes : Dicts → Region → Type 0
Undoes base g = AllConsistent g.dicts × AllRestored base (revert g.dicts g.dict_ids)

refused-Undoes :
    (base : Dicts) (g : Region) (kind : DictKind) (s : String) (e : TopoError)
    → Undoes base g
    → (let m = mirror_of g.dicts kind in
        Undoes base
          (record g { dicts = set_mirror g.dicts kind (record m { next = (add m s).next }) }))
unfolding add
refused-Undoes base g kind s e (consistent, restored) =
    let m = mirror_of g.dicts kind in
    let bumped : Mirror String = record m { next = (add m s).next } in
    (
      set_mirror-AllConsistent g.dicts kind bumped consistent
          (bumped-IsConsistent m _ (omega arith) (consistent kind)),
      Restores-trans base _ _ restored (
          revert-AllRestored g.dicts (set_mirror g.dicts kind bumped) g.dict_ids
            (bumped-AllRestored g.dicts kind bumped (refl, refl, omega arith))),
    )

taken-Undoes :
    (base : Dicts) (g : Region) (kind : DictKind) (s : String)
    → Undoes base g
    → (mirror_of g.dicts kind).by_key s ≡ none
    → Undoes base
        (interned none g kind s
          (ok ((mirror_of g.dicts kind).next, some (add (mirror_of g.dicts kind) s)))).1
taken-Undoes base g kind s (consistent, restored) new =
    let k =
      interned_new (revert g.dicts g.dict_ids) g kind s
        (record { consistent = consistent; undone = refl }) new in
    (k.consistent, subst (λ (d : Dicts). AllRestored base d) (sym k.undone) restored)

intern-Undoes :
    (base : Dicts) (g : Region) (answer : Option TopoError) (kind : DictKind) (s : String)
    → Undoes base g
    → Undoes base (intern answer g kind s).1
unfolding intern
intern-Undoes base g none kind s h = elim (claim_cases (mirror_of g.dicts kind) s) [
  | inl (i, _, e) ↦ rw (e, interned) h
  | inr (inl (new, e)) ↦ rw e (taken-Undoes base g kind s h new)
  | inr (inr (_, _, e)) ↦ rw (e, interned) h
]
intern-Undoes base g (some x) kind s h = elim (claim_cases (mirror_of g.dicts kind) s) [
  | inl (i, _, e) ↦ rw (e, interned) h
  | inr (inl (new, e)) ↦ rw (e, interned) (refused-Undoes base g kind s x h)
  | inr (inr (_, _, e)) ↦ rw (e, interned) h
]

intern_each-Undoes :
    (base : Dicts) (calls : List (Option TopoError × DictKind × String)) (g : Region)
    → Undoes base g
    → Undoes base (intern_each g calls)
intern_each-Undoes base [] g h = h
intern_each-Undoes base ((answer, kind, s) ∷ calls) g h =
    intern_each-Undoes base calls (intern answer g kind s).1 (intern-Undoes base g answer kind s h)

-- Whatever names were interned in a write region, and whichever of their rows redb has refused: undoing
-- its journal gives back the names and the ids of all four dictionaries as they were at its start, and
-- no counter is lower than it was. The mirrors are consistent at its start.
pub revert-intern_refused :
    (d : Dicts) (rows : DictKind → Table ℕ String)
    (calls : List (Option TopoError × DictKind × String))
    → AllConsistent d
    → AllRestored d (
        revert
          (intern_each (record { dicts = d; rows = rows; dict_ids = [] }) calls).dicts
          (intern_each (record { dicts = d; rows = rows; dict_ids = [] }) calls).dict_ids)
revert-intern_refused d rows calls h =
    (intern_each-Undoes d calls (record { dicts = d; rows = rows; dict_ids = [] })
      (h, unfold revert in λ kind. (refl, refl, omega arith))).1
