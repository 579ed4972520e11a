-- ===== src/Slots/Laws.antt =====
-- crates/topodb/src/slots.rs: the two tables, and the slots that were given out.
use topo_db.Prelude.{
  ℕ, ◌+◌, ◌^◌, ◌≤◌, ◌<◌, ◌≡◌, ◌≢◌, ◌⊎◌, inl, inr, refl, arith, none, some, ltb, Option-cases,
  lt→ltb, ltb→lt, Bool-cases, subst, false,
}
use topo_db.Prelude.Table.{insert, remove, nat_key}
use topo_db.Prelude.Outcome.{ok, err, encoding}
use topo_db.Slots.{Slots, next_slot, alloc, alloc_found}

-- The two tables are inverse, and every slot in use lies below the counter.
pub record IsBijective (s : Slots) : Type 0 where
  pub there : (id slot : ℕ) → s.forward id ≡ some slot → s.reverse slot ≡ some id
  pub back : (id slot : ℕ) → s.reverse slot ≡ some id → s.forward id ≡ some slot
  pub below : (id slot : ℕ) → s.reverse slot ≡ some id → slot < next_slot s.counter

abbrev pub none_yet : Slots
none_yet = record { forward = λ id. none; reverse = λ slot. none; counter = none }

pub none_yet-IsBijective : IsBijective none_yet
none_yet-IsBijective = record {
  there = λ id slot e. cc;
  back = λ id slot e. cc;
  below = λ id slot e. absurd (cc);
}

abbrev pub after_fresh : Slots → ℕ → Slots
after_fresh s id = record {
  forward = insert s.forward id (next_slot s.counter);
  reverse = insert s.reverse (next_slot s.counter) id;
  counter = some (next_slot s.counter + 1);
}

fresh-IsBijective :
    (s : Slots) (id : ℕ) → IsBijective s → s.forward id ≡ none → IsBijective (after_fresh s id)
unfolding insert
fresh-IsBijective s id h new = record {
  there = λ i k e. ground (arith, h.there i k, h.below i k);
  back = λ i k e. ground (arith, h.back i k, h.back id k);
  below = λ i k e. ground (arith, h.below i k);
}

pub removed-IsBijective :
    (s : Slots) (id slot : ℕ)
    → IsBijective s
    → s.forward id ≡ some slot
    → IsBijective (record s { forward = remove s.forward id; reverse = remove s.reverse slot })
unfolding remove
removed-IsBijective s id slot h old = record {
  there = λ i k e. ground (arith, h.there i k, h.there id slot);
  back = λ i k e. ground (arith, h.back i k, h.there id slot);
  below = λ i k e. ground (arith, h.below i k);
}

-- What `alloc` does for an id that has a slot, and for one that has none.
pub alloc_known : (s : Slots) (id slot : ℕ) → s.forward id ≡ some slot → alloc s id ≡ ok (slot, s)
unfolding alloc
alloc_known s id slot e = rw (e, alloc_found)

pub alloc_new :
    (s : Slots) (id : ℕ)
    → s.forward id ≡ none
    → next_slot s.counter + 1 < 2 ^ 64
    → alloc s id ≡ ok (next_slot s.counter, after_fresh s id)
unfolding alloc
alloc_new s id e h = rw (e, alloc_found) (rw (lt→ltb _ _ h))

pub alloc_full :
    (s : Slots) (id : ℕ)
    → s.forward id ≡ none
    → ltb (next_slot s.counter + 1) (2 ^ 64) ≡ false
    → alloc s id ≡ err (encoding "slot space exhausted")
unfolding alloc
alloc_full s id new full = rw (new, alloc_found) (rw full)

-- With the counter in range `alloc` succeeds; it fails only on a new id when the slots are used up.
alloc_error :
    (s : Slots) (id : ℕ)
    → ((slot : ℕ) × (s' : Slots) × (alloc s id ≡ ok (slot, s')))
      ⊎ ((s.forward id ≡ none)
          × (2 ^ 64 ≤ next_slot s.counter + 1)
          × (alloc s id ≡ err (encoding "slot space exhausted")))
unfolding alloc
alloc_error s id = elim (Option-cases (s.forward id)) [
  | inl new ↦ elim (Bool-cases (ltb (next_slot s.counter + 1) (2 ^ 64))) [
    | inl fits ↦ inl (next_slot s.counter, after_fresh s id, alloc_new s id new (ltb→lt _ _ fits))
    | inr full ↦ inr (new, ground arith, alloc_full s id new full)
  ]
  | inr (slot, old) ↦ inl (slot, s, alloc_known s id slot old)
]

-- The result `p` of an allocation, against the state before it.
abbrev Allocated : Slots → ℕ → ℕ × Slots → Type 0
Allocated s id p =
    IsBijective p.1
    × (p.1.forward id ≡ some p.0)
    × ((j : ℕ) → j ≢ id → p.1.forward j ≡ s.forward j)
    × (((s.forward id ≡ some p.0) × (p.1 ≡ s))
        ⊎ ((s.forward id ≡ none) × (p.0 ≡ next_slot s.counter) × (next_slot p.1.counter ≡ p.0 + 1)))

fresh-Allocated :
    (s : Slots) (id : ℕ)
    → IsBijective s
    → s.forward id ≡ none
    → Allocated s id (next_slot s.counter, after_fresh s id)
unfolding insert
fresh-Allocated s id h new =
    (fresh-IsBijective s id h new, ground arith, λ j ne. ground arith, inr (new, refl, refl))

-- An allocation keeps the tables inverse. It answers with the slot of the id, old or new, keeps the
-- slots of all other ids, and takes a new slot from the counter, which then has moved past it.
pub alloc_lem :
    (s s' : Slots) (id slot : ℕ)
    → IsBijective s
    → alloc s id ≡ ok (slot, s')
    → IsBijective s'
      × (s'.forward id ≡ some slot)
      × ((j : ℕ) → j ≢ id → s'.forward j ≡ s.forward j)
      × (((s.forward id ≡ some slot) × (s' ≡ s))
          ⊎ ((s.forward id ≡ none)
              × (slot ≡ next_slot s.counter)
              × (next_slot s'.counter ≡ slot + 1)))
alloc_lem s s' id slot h e = elim (Option-cases (s.forward id)) [
  | inl new ↦ elim (Bool-cases (ltb (next_slot s.counter + 1) (2 ^ 64))) [
    | inl fits ↦
        subst (λ (p : ℕ × Slots). Allocated s id p) (cc (alloc_new s id new (ltb→lt _ _ fits)))
          (fresh-Allocated s id h new)
    | inr full ↦ absurd (cc (alloc_full s id new full))
  ]
  | inr (k, old) ↦
      subst (λ (p : ℕ × Slots). Allocated s id p) (cc (alloc_known s id k old))
        (h, old, λ j ne. refl, inl (old, refl))
]
