-- ===== src/Registry/Laws.antt =====
-- crates/topodb/src/dict.rs and crates/topodb/src/scopes.rs: one new id, and its undoing.
use topo_db.Prelude.{
  ℕ, ◌+◌, ◌^◌, ◌≤◌, ◌<◌, ◌≡◌, ◌⊎◌, inl, inr, arith, none, some, Option-cases, Bool-cases, true,
  false, ltb,
}
use topo_db.Prelude.Table.{Key, insert, remove, nat_key, insert_self, remove-insert}
use topo_db.Prelude.Outcome.{ok, err, encoding}
use topo_db.Registry.{Mirror, add, claim, claim_found, forget, forget_found, blank}

module _ {K : Type 0} ⦃key : Key K⦄ where
  -- The two maps are inverse, and the ids lie below the counter.
  pub record IsConsistent (m : Mirror K) : Type 0 where
    pub there : (k : K) (i : ℕ) → m.by_key k ≡ some i → m.by_id i ≡ some k
    pub back : (k : K) (i : ℕ) → m.by_id i ≡ some k → m.by_key k ≡ some i
    pub below : (k : K) (i : ℕ) → m.by_id i ≡ some k → i < m.next

  new_id : (m : Mirror K) → IsConsistent m → m.by_id m.next ≡ none
  new_id m h = elim (Option-cases (m.by_id m.next)) [
    | inl e ↦ e
    | inr (k, e) ↦ absurd (omega (arith, h.below k m.next e))
  ]

  pub blank-IsConsistent : IsConsistent (let b : Mirror K = blank in b)
  blank-IsConsistent = record {
    there = λ k i e. absurd (cc);
    back = λ k i e. absurd (cc);
    below = λ k i e. absurd (cc);
  }

  pub add-IsConsistent :
      (m : Mirror K) (k : K) → IsConsistent m → m.by_key k ≡ none → IsConsistent (add m k)
  unfolding add insert
  add-IsConsistent m k h e = record {
    there = λ j i p. ground (arith, key.same_iff j k, h.there j i, h.below j i);
    back = λ j i p. ground (arith, key.same_iff j k, key.same_iff k k, h.back j i, h.back k i);
    below = λ j i p. ground (arith, h.below j i);
  }

  -- Forgetting the id that was just added gives back the mirror, counter included.
  pub forget-add :
      (m : Mirror K) (k : K) → IsConsistent m → m.by_key k ≡ none → forget (add m k) m.next ≡ m
  unfolding forget add
  forget-add m k h e =
      let keys : remove (insert m.by_key k m.next) k ≡ m.by_key =
        remove-insert m.by_key k m.next e in
      let ids : remove (insert m.by_id m.next k) m.next ≡ m.by_id =
        remove-insert m.by_id m.next k (new_id m h) in
      rw (insert_self m.by_id m.next k, forget_found)
        (λ i. record { by_key = keys i; by_id = ids i; next = m.next })

  pub claim_old : (m : Mirror K) (k : K) (i : ℕ) → m.by_key k ≡ some i → claim m k ≡ ok (i, none)
  unfolding claim
  claim_old m k i e = rw (e, claim_found)

  pub claim_grows :
      (m : Mirror K) (k : K)
      → m.by_key k ≡ none
      → ltb (m.next + 1) (2 ^ 32) ≡ true
      → claim m k ≡ ok (m.next, some (add m k))
  unfolding claim
  claim_grows m k e fits = rw (e, claim_found) (rw fits)

  claim_full :
      (m : Mirror K) (k : K)
      → m.by_key k ≡ none
      → ltb (m.next + 1) (2 ^ 32) ≡ false
      → claim m k ≡ err (encoding "id exhausted")
  unfolding claim
  claim_full m k e full = rw (e, claim_found) (rw full)

  -- The answers of a claim: an id that the mirror knows, a new one, or none is left.
  pub claim_cases :
      (m : Mirror K) (k : K)
      → ((i : ℕ) × (m.by_key k ≡ some i) × (claim m k ≡ ok (i, none)))
        ⊎ ((m.by_key k ≡ none) × (claim m k ≡ ok (m.next, some (add m k))))
        ⊎ ((m.by_key k ≡ none)
            × (2 ^ 32 ≤ m.next + 1)
            × (claim m k ≡ err (encoding "id exhausted")))
  claim_cases m k = elim (Option-cases (m.by_key k)) [
    | inr (i, old) ↦ inl (i, old, claim_old m k i old)
    | inl new ↦ elim (Bool-cases (ltb (m.next + 1) (2 ^ 32))) [
      | inl fits ↦ inr (inl (new, claim_grows m k new fits))
      | inr full ↦ inr (inr (new, ground arith, claim_full m k new full))
    ]
  ]
