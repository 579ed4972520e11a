-- ===== src/Registry/Load/Reopen.antt =====
-- crates/topodb/src/scopes.rs and crates/topodb/src/dict.rs: a registry and the table it is loaded from.
use topo_db.Prelude.{
  ℕ, ◌+◌, ◌^◌, ◌<◌, max, ◌≡◌, refl, sym, ap, ◌∙◌, subst, arith, inl, inr, true, Option, none, some,
  List, [], ◌∷◌, ◌++◌, ◌==◌, ltb, Bool-cases,
}
use topo_db.Prelude.Table.{Key, insert, nat_key}
use topo_db.Prelude.Outcome.{ok, ◌>>=◌, bind_ok, ok-injective}
use topo_db.Ids.{Scope, shared, id, scope_key}
use topo_db.Registry.{Mirror, add, claim, blank}
use topo_db.Registry.Laws.{claim_grows}
use topo_db.Registry.Dicts.{string_key}
use topo_db.Registry.Load.{
  load_row, scope_bytes, scope_from_key, load_scopes, require_shared, load_table_for_rebuild,
}

pub scope_from_key-scope_bytes : (s : Scope) → scope_from_key (scope_bytes s) ≡ ok s
unfolding scope_from_key scope_bytes
scope_from_key-scope_bytes shared = refl
scope_from_key-scope_bytes (id i) = refl

module _ {K : Type 0} ⦃key : Key K⦄ where
  -- The row of a new id is what interning it did to the mirror.
  load_row-add :
      (m : Mirror K) (k : K) → ltb (m.next + 1) (2 ^ 32) ≡ true → load_row m m.next k ≡ ok (add m k)
  unfolding load_row add
  load_row-add m k h =
      let next : max m.next (m.next + 1) ≡ m.next + 1 = omega arith in
      rw h (λ i. ok (record {
        by_key = insert m.by_key k m.next;
        by_id = insert m.by_id m.next k;
        next = next i;
      }))

  abbrev BelowNext : Mirror K → Type 0
  BelowNext m = (k : K) (i : ℕ) → m.by_id i ≡ some k → i < m.next

  load_row-BelowNext :
      (m m' : Mirror K) (i : ℕ) (k : K) → BelowNext m → load_row m i k ≡ ok m' → BelowNext m'
  unfolding load_row insert
  load_row-BelowNext m m' i k h e = elim (Bool-cases (ltb (i + 1) (2 ^ 32))) [
    | inr full ↦ absurd (cc (rw full at e))
    | inl fits ↦
        let loaded : Mirror K = record {
          by_key = insert m.by_key k i;
          by_id = insert m.by_id i k;
          next = max m.next (i + 1);
        } in
        let same : loaded ≡ m' = ok-injective loaded loaded m' (rw fits at e) in
        subst BelowNext same (λ j n p. elim (Bool-cases (n == i)) [
          | inl here ↦ ground (arith, here)
          | inr other ↦ let old = h j n (rw other at p) in omega (arith, old)
        ])
  ]

load_scopes-snoc :
    (m m' : Mirror Scope) (rows : List (ℕ × (ℕ × ℕ))) (s : Scope)
    → load_scopes m rows ≡ ok m'
    → ltb (m'.next + 1) (2 ^ 32) ≡ true
    → load_scopes m (rows ++ (m'.next, scope_bytes s) ∷ []) ≡ ok (add m' s)
unfolding load_scopes
load_scopes-snoc m m' [] s h fits =
    subst (λ v. load_scopes v ((m'.next, scope_bytes s) ∷ []) ≡ ok (add m' s))
      (sym (ok-injective m m m' h)) (rw (scope_from_key-scope_bytes s, load_row-add m' s fits))
load_scopes-snoc m m' ((j, bytes) ∷ rows) s h fits =
    let (scope, e, k) =
      bind_ok (scope_from_key bytes) (λ c. load_row m j c >>= λ v. load_scopes v rows) m' h in
    let (v, f, l) = bind_ok (load_row m j scope) (λ v. load_scopes v rows) m' k in
    rw (e, f) (load_scopes-snoc v m' rows s l fits)

load_scopes-BelowNext :
    (m m' : Mirror Scope) (rows : List (ℕ × (ℕ × ℕ)))
    → BelowNext m
    → load_scopes m rows ≡ ok m'
    → BelowNext m'
unfolding load_scopes
load_scopes-BelowNext m m' [] b h = subst (λ v. BelowNext v) (ok-injective m m m' h) b
load_scopes-BelowNext m m' ((j, bytes) ∷ rows) b h =
    let (scope, e, k) =
      bind_ok (scope_from_key bytes) (λ c. load_row m j c >>= λ v. load_scopes v rows) m' h in
    let (v, f, l) = bind_ok (load_row m j scope) (λ v. load_scopes v rows) m' k in
    load_scopes-BelowNext v m' rows (load_row-BelowNext m v j scope b f) l

shared_required :
    (m m' : Mirror Scope) (o : Option Scope)
    → require_shared m o ≡ ok m'
    → (o ≡ some shared) × (m ≡ m')
unfolding require_shared
shared_required m m' none h = absurd (cc)
shared_required m m' (some shared) h = (refl, ok-injective m m m' h)
shared_required m m' (some (id i)) h = absurd (cc)

still_shared :
    (m : Mirror Scope) (s : Scope)
    → m.by_id 0 ≡ some shared
    → 0 < m.next
    → (add m s).by_id 0 ≡ some shared
unfolding add insert
still_shared m s h p = ground (arith, h)

-- A registry that was loaded from its table stays the one that its table would load: when an intern
-- adds a scope that is new, loading the table with the new row gives the same registry as the intern.
pub load_table_for_rebuild-claim :
    (rows : List (ℕ × (ℕ × ℕ))) (m : Mirror Scope) (s : Scope)
    → load_table_for_rebuild rows ≡ ok m
    → m.by_key s ≡ none
    → ltb (m.next + 1) (2 ^ 32) ≡ true
    → (claim m s ≡ ok (m.next, some (add m s)))
      × (load_table_for_rebuild (rows ++ (m.next, scope_bytes s) ∷ []) ≡ ok (add m s))
unfolding load_table_for_rebuild require_shared
load_table_for_rebuild-claim rows m s h new fits =
    let (v, e, k) = bind_ok (load_scopes blank rows) (λ v. require_shared v (v.by_id 0)) m h in
    let (zero_shared, same) = shared_required v m (v.by_id 0) k in
    let e' : load_scopes blank rows ≡ ok m = e ∙ ap ok same in
    let below = load_scopes-BelowNext blank m rows (λ c i p. absurd (cc)) e' in
    let kept : m.by_id 0 ≡ some shared =
      subst (λ (w : Mirror Scope). w.by_id 0 ≡ some shared) same zero_shared in
    let kept' : (add m s).by_id 0 ≡ some shared = still_shared m s kept (below shared 0 kept) in
    (claim_grows m s new fits, rw (load_scopes-snoc blank m rows s e' fits) (rw kept'))
