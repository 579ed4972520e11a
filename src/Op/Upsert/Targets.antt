-- ===== src/Op/Upsert/Targets.antt =====
-- crates/topodb/src/storage.rs: where the pre-pass for upserts redirects the planned ids.
use topo_db.Prelude.{
  ℕ, ◌≡◌, refl, ap, subst, ◌∙◌, ◌⊎◌, inl, inr, arith, Bool, true, false, ◌||◌, String, Option, none,
  some, List, [], ◌∷◌, ◌++◌, ◌==◌, All, Bool-cases, Option-cases,
}
use topo_db.Ids.{Scope}
use topo_db.Op.{Op, create_node, upsert_node, PropValue, Props, get_prop}
use topo_db.Op.Resolve.{remap_op_node_ids, unwrap_or}
use topo_db.Op.Upsert.{
  Index, Pending, is_pending, find_pending, Pass, existing_node, upsert, pass_op, pass_all,
  fresh_pass, resolve_upserts,
}
use topo_db.Op.Upsert.Laws.{All-snoc}

abbrev pub creates : ℕ → Op → Bool
creates n (create_node id scope label props) = n == id
creates n op = false

abbrev pub created : ℕ → List Op → Bool
created n [] = false
created n (op ∷ ops) = creates n op || created n ops

-- A node that the index has, or that the batch creates.
abbrev pub Known : Index → List Op → ℕ → Type 0
Known index ops n =
    ((scope : Scope) × (label : String) × (key : String) × (v : PropValue) × (index scope label key
          v
        ≡ some n))
    ⊎ (created n ops ≡ true)

created-append :
    (n : ℕ) (ops more : List Op) → created n ops ≡ true → created n (ops ++ more) ≡ true
created-append n [] more h = absurd (cc)
created-append n (op ∷ ops) more h = ground (arith, created-append n ops more)

created-snoc :
    (n : ℕ) (ops : List Op) (scope : Scope) (label : String) (props : Props)
    → created n (ops ++ create_node n scope label props ∷ []) ≡ true
created-snoc n [] scope label props = ground arith
created-snoc n (op ∷ ops) scope label props = ground (arith, created-snoc n ops scope label props)

Known-append :
    (index : Index) (ops more : List Op) (n : ℕ) → Known index ops n → Known index (ops ++ more) n
Known-append index ops more n (inl h) = inl h
Known-append index ops more n (inr h) = inr (created-append n ops more h)

All-map :
    {A : Type 0} (P Q : A → Type 0) (xs : List A) → ((a : A) → P a → Q a) → All P xs → All Q xs
All-map P Q [] f h = tt
All-map P Q (x ∷ xs) f h = (f x h.0, All-map P Q xs f h.1)

abbrev Pends : List Op → Pending → Type 0
Pends ops p = created p.node ops ≡ true

abbrev Aims : Index → List Op → ℕ × ℕ → Type 0
Aims index ops (id, n) = Known index ops n

abbrev Sound : Index → Pass → Type 0
Sound index s = All (Pends s.rewritten) s.pending × All (Aims index s.rewritten) s.remap

find_pending-All :
    (P : ℕ → Type 0) (ps : List Pending) (scope : Scope) (label key : String) (v : PropValue)
    (n : ℕ)
    → All (λ p. P p.node) ps
    → find_pending ps scope label key v ≡ some n
    → P n
unfolding find_pending
find_pending-All P [] scope label key v n h e = absurd (cc)
find_pending-All P (p ∷ ps) scope label key v n h e =
    elim (Bool-cases (is_pending scope label key v p)) [
      | inl here ↦ subst P (ap (λ o. unwrap_or o n) (rw here at e)) h.0
      | inr other ↦ find_pending-All P ps scope label key v n h.1 (rw other at e)
    ]

existing_node-Known :
    (index : Index) (s : Pass) (scope : Scope) (label key : String) (v : Option PropValue) (n : ℕ)
    → Sound index s
    → existing_node index s scope label key v ≡ some n
    → Known index s.rewritten n
unfolding existing_node
existing_node-Known index s scope label key none n h e = absurd (cc)
existing_node-Known index s scope label key (some v) n h e =
    elim (Option-cases (index scope label key v)) [
      | inl miss ↦ inr (
          find_pending-All (λ m. created m s.rewritten ≡ true) s.pending scope label key v n h.0
            (rw miss at e))
      | inr (m, hit) ↦ inl (scope, label, key, v, (hit ∙ (rw hit at e)))
    ]

Sound-append :
    (index : Index) (s : Pass) (more : List Op)
    → Sound index s
    → Sound index (record s { rewritten = s.rewritten ++ more })
Sound-append index s more h = (
  All-map (Pends s.rewritten) (Pends (s.rewritten ++ more)) s.pending
      (λ p k. created-append p.node s.rewritten more k) h.0,
  All-map (Aims index s.rewritten) (Aims index (s.rewritten ++ more)) s.remap
      (λ r k. Known-append index s.rewritten more r.1 k) h.1,
)

Sound-upsert :
    (index : Index) (s : Pass) (id : ℕ) (scope : Scope) (label key : String) (props : Props)
    (v : Option PropValue) (found : Option ℕ)
    → Sound index s
    → ((n : ℕ) → found ≡ some n → Known index s.rewritten n)
    → Sound index (upsert s id scope label key props v found)
unfolding upsert
Sound-upsert index s id scope label key props none none h f =
    Sound-append index s (create_node id scope label props ∷ []) h
Sound-upsert index s id scope label key props (some v) none h f =
    let s' = Sound-append index s (create_node id scope label props ∷ []) h in
    (
      All-snoc (Pends (s.rewritten ++ create_node id scope label props ∷ [])) s.pending
          (record { scope = scope; label = label; key_prop = key; value = v; node = id }) s'.0
          (created-snoc id s.rewritten scope label props),
      s'.1,
    )
Sound-upsert index s id scope label key props v (some n) h f = (h.0, (f n refl, h.1))

Sound-pass_op :
    (index : Index) (s : Pass) (op : Op) → Sound index s → Sound index (pass_op index s op)
unfolding pass_op
Sound-pass_op index s (upsert_node id scope label key props) h =
    let v = get_prop props key in
    Sound-upsert index s id scope label key props v (existing_node index s scope label key v) h
      (λ n e. existing_node-Known index s scope label key v n h e)
Sound-pass_op index s op h = Sound-append index s (remap_op_node_ids op s.remap ∷ []) h

Sound-pass_all :
    (index : Index) (s : Pass) (ops : List Op) → Sound index s → Sound index (pass_all index s ops)
unfolding pass_all
Sound-pass_all index s [] h = h
Sound-pass_all index s (op ∷ ops) h =
    Sound-pass_all index (pass_op index s op) ops (Sound-pass_op index s op h)

-- A planned id is redirected only to a node that the index has in the committed state, or that the
-- rewritten batch itself creates.
pub resolve_upserts_targets :
    (index : Index) (ops : List Op)
    → All
        (λ (r : ℕ × ℕ). Known index (resolve_upserts index ops).0 r.1)
        (resolve_upserts index ops).1
unfolding resolve_upserts
resolve_upserts_targets index ops = (Sound-pass_all index fresh_pass ops (tt, tt)).1
