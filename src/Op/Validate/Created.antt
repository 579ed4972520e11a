-- ===== src/Op/Validate/Created.antt =====
-- crates/topodb/src/validate.rs: which batches the two checks of a live submit let through.
use topo_db.Prelude.{
  ℕ, ◌≡◌, ◌↔◌, inl, inr, refl, sym, ◌∙◌, true, false, ◌||◌, Option, none, some, List, [], ◌∷◌, ◌==◌,
  if◌then◌else◌, All, Bool-cases,
}
use topo_db.Prelude.Table.{Table, insert, empty, nat_key}
use topo_db.Prelude.Outcome.{ok, err, Result, TopoError, rejected}
use topo_db.Ids.{Scope}
use topo_db.Op.{Op, create_node}
use topo_db.Op.Validate.{holds, prevalidate_create_node_ids_loop, prevalidate_create_node_ids}

abbrev pub created_ids : List Op → List ℕ
created_ids [] = []
created_ids (create_node node scope label props ∷ ops) = node ∷ created_ids ops
created_ids (op ∷ ops) = created_ids ops

abbrev pub Apart : ℕ → ℕ → Type 0
Apart x y = (y == x) ≡ false

abbrev pub Distinct : List ℕ → Type 0
Distinct [] = Unit
Distinct (x ∷ xs) = All (Apart x) xs × Distinct xs

abbrev Free : Table ℕ Scope → Table ℕ (Unit {0}) → ℕ → Type 0
Free pre seen n = (pre n ≡ none) × (seen n ≡ none)

Free-insert :
    (pre : Table ℕ Scope) (seen : Table ℕ (Unit {0})) (x n : ℕ)
    → Free pre (insert seen x tt) n ↔ (Free pre seen n × Apart x n)
unfolding insert
Free-insert pre seen x n = elim (Bool-cases (n == x)) [
  | inl e ↦ (
    λ h. absurd (let bad : some tt ≡ none = rw e at h.1 in cc),
    λ h. absurd (let bad : true ≡ false = sym e ∙ h.1 in cc),
  )
  | inr e ↦ (λ h. ((h.0, rw e at h.1), e), λ h. (h.0.0, rw e h.0.1))
]

All-Free :
    (pre : Table ℕ Scope) (seen : Table ℕ (Unit {0})) (x : ℕ) (ns : List ℕ)
    → All (Free pre (insert seen x tt)) ns ↔ (All (Free pre seen) ns × All (Apart x) ns)
All-Free pre seen x [] = (λ h. (tt, tt), λ h. tt)
All-Free pre seen x (n ∷ ns) =
    let (f, g) = Free-insert pre seen x n in
    let (fs, gs) = All-Free pre seen x ns in
    (
      λ h. let (p, q) = f h.0 in let (ps, qs) = fs h.1 in ((p, ps), (q, qs)),
      λ h. (g (h.0.0, h.1.0), gs (h.0.1, h.1.1)),
    )

guard-ok :
    {A B : Type 0} (o : Option A) (p : Option B) (e : TopoError) (m : Result (Unit {0}))
    → ((if holds o || holds p then err e else m) ≡ ok tt) ↔ ((o ≡ none) × (p ≡ none) × (m ≡ ok tt))
guard-ok none none e m = (λ h. (refl, refl, h), λ h. h.2)
guard-ok none (some b) e m = (λ h. absurd (cc), λ h. absurd (let bad : some b ≡ none = h.1 in cc))
guard-ok (some a) p e m = (λ h. absurd (cc), λ h. absurd (let bad : some a ≡ none = h.0 in cc))

prevalidate_create_node_ids_loop_iff :
    (pre : Table ℕ Scope) (seen : Table ℕ (Unit {0})) (ops : List Op)
    → (prevalidate_create_node_ids_loop pre seen ops ≡ ok tt)
      ↔ (All (Free pre seen) (created_ids ops) × Distinct (created_ids ops))
unfolding prevalidate_create_node_ids_loop
prevalidate_create_node_ids_loop_iff pre seen [] = (λ h. (tt, tt), λ h. refl)
prevalidate_create_node_ids_loop_iff pre seen (create_node node scope label props ∷ ops) =
    let (f, g) =
      guard-ok (pre node) (seen node) (rejected "CreateNode: id already exists")
        (prevalidate_create_node_ids_loop pre (insert seen node tt) ops) in
    let (ih, hi) = prevalidate_create_node_ids_loop_iff pre (insert seen node tt) ops in
    let (split, join) = All-Free pre seen node (created_ids ops) in
    (
      λ h.
          let (a, b, c) = f h in
          let (free, distinct) = ih c in
          let (old, apart) = split free in (((a, b), old), (apart, distinct)),
      λ h. g (h.0.0.0, h.0.0.1, hi (join (h.0.1, h.1.0), h.1.1)),
    )
prevalidate_create_node_ids_loop_iff pre seen (op ∷ ops) =
    prevalidate_create_node_ids_loop_iff pre seen ops

-- The check of the created ids passes exactly when no created id is known to storage and none
-- occurs twice in the batch.
pub prevalidate_create_node_ids_iff :
    (pre : Table ℕ Scope) (ops : List Op)
    → (prevalidate_create_node_ids pre ops ≡ ok tt)
      ↔ (All (λ n. pre n ≡ none) (created_ids ops) × Distinct (created_ids ops))
unfolding prevalidate_create_node_ids
prevalidate_create_node_ids_iff pre ops =
    let (f, g) = prevalidate_create_node_ids_loop_iff pre empty ops in
    (
      λ h. let (free, distinct) = f h in (unseen (created_ids ops) free, distinct),
      λ h. g (seen (created_ids ops) h.0, h.1),
    )
  where
    unseen : (ns : List ℕ) → All (Free pre empty) ns → All (λ n. pre n ≡ none) ns
    unseen [] h = tt
    unseen (n ∷ ns) h = (h.0.0, unseen ns h.1)

    seen : (ns : List ℕ) → All (λ n. pre n ≡ none) ns → All (Free pre empty) ns
    seen [] h = tt
    seen (n ∷ ns) h = ((h.0, refl), seen ns h.1)
