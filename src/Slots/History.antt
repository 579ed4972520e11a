-- ===== src/Slots/History.antt =====
-- crates/topodb/src/slots.rs: what stays of the slots when ids come and go.
use topo_db.Prelude.{
  ℕ, ◌<◌, ◌≢◌, none, refl, ◌+◌, ◌^◌, ◌≤◌, ◌≡◌, ◌⊎◌, inl, inr, subst, arith, some, ltb, ltb→lt,
  Option-cases, Bool-cases,
}
use topo_db.Prelude.Table.{insert, remove, nat_key}
use topo_db.Prelude.Outcome.{ok}
use topo_db.Slots.{Slots, next_slot, alloc, remove_mapping, remove_found}
use topo_db.Slots.Laws.{
  IsBijective, after_fresh, alloc_known, alloc_new, alloc_full, alloc_lem, removed-IsBijective,
}

-- The tables stay inverse, the counter never goes back, and a slot in use belongs to the id that it
-- belonged to before, unless it is new.
pub record SlotsEvolve (s s' : Slots) : Type 0 where
  pub bijective : IsBijective s → IsBijective s'
  pub counts : next_slot s.counter ≤ next_slot s'.counter
  pub fixed :
      (slot id : ℕ)
      → s'.reverse slot ≡ some id
      → (s.reverse slot ≡ some id) ⊎ (next_slot s.counter ≤ slot)

pub SlotsEvolve-refl : (s : Slots) → SlotsEvolve s s
SlotsEvolve-refl s = record { bijective = λ h. h; counts = omega arith; fixed = λ slot id e. inl e }

pub SlotsEvolve-trans : (s t u : Slots) → SlotsEvolve s t → SlotsEvolve t u → SlotsEvolve s u
SlotsEvolve-trans s t u h k = record {
  bijective = λ b. k.bijective (h.bijective b);
  counts = omega (arith, h.counts, k.counts);
  fixed = λ slot id e. elim (k.fixed slot id e) [
    | inl was ↦ h.fixed slot id was
    | inr new ↦ inr (omega (arith, h.counts))
  ];
}

fresh-SlotsEvolve :
    (s : Slots) (id : ℕ)
    → (IsBijective s → IsBijective (after_fresh s id))
    → SlotsEvolve s (after_fresh s id)
unfolding insert
fresh-SlotsEvolve s id b = record {
  bijective = b;
  counts = omega arith;
  fixed = λ slot i e. ground arith;
}

pub alloc-SlotsEvolve : (s s' : Slots) (id slot : ℕ) → alloc s id ≡ ok (slot, s') → SlotsEvolve s s'
alloc-SlotsEvolve s s' id slot e = elim (Option-cases (s.forward id)) [
  | inl new ↦ elim (Bool-cases (ltb (next_slot s.counter + 1) (2 ^ 64))) [
    | inl fits ↦
        let here = alloc_new s id new (ltb→lt _ _ fits) in
        let same : after_fresh s id ≡ s' = cc here in
        subst (λ (t : Slots). SlotsEvolve s t) same
          (fresh-SlotsEvolve s id (λ b. (alloc_lem s (after_fresh s id) id _ b here).0))
    | inr full ↦ absurd (cc (alloc_full s id new full))
  ]
  | inr (k, old) ↦
      let same : s ≡ s' = cc (alloc_known s id k old) in
      subst (λ (t : Slots). SlotsEvolve s t) same (SlotsEvolve-refl s)
]

removed-SlotsEvolve :
    (s : Slots) (id slot : ℕ)
    → s.forward id ≡ some slot
    → SlotsEvolve s (remove_found s id (some slot))
unfolding remove_found remove
removed-SlotsEvolve s id slot e = record {
  bijective = λ b. removed-IsBijective s id slot b e;
  counts = omega arith;
  fixed = λ k i h. ground arith;
}

pub remove_mapping-SlotsEvolve : (s : Slots) (id : ℕ) → SlotsEvolve s (remove_mapping s id)
unfolding remove_mapping remove_found
remove_mapping-SlotsEvolve s id = elim (Option-cases (s.forward id)) [
  | inl free ↦ rw free (SlotsEvolve-refl s)
  | inr (slot, e) ↦ rw e (removed-SlotsEvolve s id slot e)
]

-- Any number of allocations and removals, one after the other.
pub data Run : Slots → Slots → Type 0 where
  no_step : (s : Slots) → Run s s
  allocated : (s t u : Slots) (id slot : ℕ) → Run s t → alloc t id ≡ ok (slot, u) → Run s u
  removed : (s t : Slots) (id : ℕ) → Run s t → Run s (remove_mapping t id)

Run-SlotsEvolve : (s t : Slots) → Run s t → SlotsEvolve s t
Run-SlotsEvolve s t (no_step r) = SlotsEvolve-refl s
Run-SlotsEvolve s t (allocated r u v id slot run e) =
    SlotsEvolve-trans s u t (Run-SlotsEvolve s u run) (alloc-SlotsEvolve u t id slot e)
Run-SlotsEvolve s t (removed r u id run) =
    SlotsEvolve-trans s u _ (Run-SlotsEvolve s u run) (remove_mapping-SlotsEvolve u id)

-- The two rows are gone, and the counter stays.
abbrev Freed : Slots → ℕ → ℕ → Slots → Type 0
Freed s id slot r =
    (r.forward id ≡ none)
    × (r.reverse slot ≡ none)
    × ((j : ℕ) → j ≢ id → r.forward j ≡ s.forward j)
    × (next_slot r.counter ≡ next_slot s.counter)

remove_mapping-Freed :
    (s : Slots) (id slot : ℕ) → s.forward id ≡ some slot → Freed s id slot (remove_mapping s id)
unfolding remove_mapping remove_found remove
remove_mapping-Freed s id slot e = rw e (ground arith, ground arith, λ j ne. ground arith, refl)

-- In tables that are inverse, a removal frees an id that has a slot and keeps the slots of all other ids, and the slot is retired: however many
-- allocations and removals follow, of whatever ids, the tables stay inverse, no id ever has the slot
-- again, and an allocation for an id that has no slot answers with a higher one.
pub remove_mapping_retires :
    (s t : Slots) (id slot : ℕ)
    → IsBijective s
    → s.forward id ≡ some slot
    → Run (remove_mapping s id) t
    → ((remove_mapping s id).forward id ≡ none)
      × ((j : ℕ) → j ≢ id → (remove_mapping s id).forward j ≡ s.forward j)
      × IsBijective t
      × ((j : ℕ) → t.forward j ≢ some slot)
      × ((j new_slot : ℕ) (u : Slots)
          → t.forward j ≡ none
          → alloc t j ≡ ok (new_slot, u)
          → slot < new_slot)
remove_mapping_retires s t id slot b e run =
    let r = remove_mapping s id in
    let (free, gone, others, counter) = remove_mapping-Freed s id slot e in
    let since : SlotsEvolve r t = Run-SlotsEvolve r t run in
    let below : slot < next_slot s.counter = b.below id slot (b.there id slot e) in
    let inverse : IsBijective t = since.bijective ((remove_mapping-SlotsEvolve s id).bijective b) in
    (
      free,
      others,
      inverse,
      λ j has. elim (since.fixed slot j (inverse.there j slot has)) [
        | inl was ↦ cc
        | inr new ↦ omega (arith, counter)
      ],
      λ j new_slot u none_yet a.
          let (_, _, _, how) = alloc_lem t u j new_slot inverse a in
          elim how [
            | inl (old, _) ↦ absurd (cc)
            | inr (_, here, _) ↦ omega (arith, counter, since.counts)
          ],
    )
