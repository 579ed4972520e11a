-- ===== src/Op/Upsert/Laws.antt =====
-- crates/topodb/src/storage.rs: the batch after the pre-pass for upserts.
use topo_db.Prelude.{
  ℕ, ◌≡◌, refl, ap, inl, inr, Bool, true, false, String, Option, none, some, List, [], ◌∷◌, ◌++◌,
  All, Bool-cases,
}
use topo_db.Ids.{Scope, same_scope_iff}
use topo_db.Op.{Op, create_node, upsert_node, PropValue, same_prop, Props, get_prop}
use topo_db.Op.Resolve.{Remap, remap_op_node_ids, unwrap_or}
use topo_db.Op.Upsert.{
  Index, Pending, is_pending, find_pending, Pass, existing_node, or_else, upsert, pass_op, pass_all,
  fresh_pass, resolve_upserts,
}
use text.Mathlib.TextEquality.{eq_iff}

abbrev pub is_upsert : Op → Bool
is_upsert (upsert_node id scope label key props) = true
is_upsert op = false

abbrev pub IsPlain : Op → Type 0
IsPlain op = is_upsert op ≡ false

pub All-snoc :
    {A : Type 0} (P : A → Type 0) (xs : List A) (x : A) → All P xs → P x → All P (xs ++ x ∷ [])
All-snoc P [] x h p = (p, tt)
All-snoc P (y ∷ ys) x h p = (h.0, All-snoc P ys x h.1 p)

remap-IsPlain : (op : Op) (remap : Remap) → IsPlain op → IsPlain (remap_op_node_ids op remap)
unfolding remap_op_node_ids
remap-IsPlain (upsert_node id scope label key props) remap h = h
remap-IsPlain op remap h = refl

upsert-IsPlain :
    (s : Pass) (id : ℕ) (scope : Scope) (label key : String) (props : Props) (v : Option PropValue)
    (found : Option ℕ)
    → All IsPlain s.rewritten
    → All IsPlain (upsert s id scope label key props v found).rewritten
unfolding upsert
upsert-IsPlain s id scope label key props v none h =
    All-snoc IsPlain s.rewritten (create_node id scope label props) h refl
upsert-IsPlain s id scope label key props v (some n) h = h

pass_op-IsPlain :
    (index : Index) (s : Pass) (op : Op)
    → All IsPlain s.rewritten
    → All IsPlain (pass_op index s op).rewritten
unfolding pass_op
pass_op-IsPlain index s (upsert_node id scope label key props) h =
    upsert-IsPlain s id scope label key props (get_prop props key)
      (existing_node index s scope label key (get_prop props key)) h
pass_op-IsPlain index s op h =
    All-snoc IsPlain s.rewritten (remap_op_node_ids op s.remap) h (remap-IsPlain op s.remap refl)

pass_all-IsPlain :
    (index : Index) (s : Pass) (ops : List Op)
    → All IsPlain s.rewritten
    → All IsPlain (pass_all index s ops).rewritten
unfolding pass_all
pass_all-IsPlain index s [] h = h
pass_all-IsPlain index s (op ∷ ops) h =
    pass_all-IsPlain index (pass_op index s op) ops (pass_op-IsPlain index s op h)

-- The ops that a batch applies and logs hold no upsert.
resolve_upserts-IsPlain :
    (index : Index) (ops : List Op) → All IsPlain (resolve_upserts index ops).0
unfolding resolve_upserts
resolve_upserts-IsPlain index ops = pass_all-IsPlain index fresh_pass ops tt

find_pending-grown :
    (ps qs : List Pending) (scope : Scope) (label key : String) (v : PropValue) (n : ℕ)
    → find_pending ps scope label key v ≡ some n
    → find_pending (ps ++ qs) scope label key v ≡ some n
unfolding find_pending
find_pending-grown [] qs scope label key v n h = cc
find_pending-grown (p ∷ ps) qs scope label key v n h =
    elim (Bool-cases (is_pending scope label key v p)) [
      | inl e ↦ rw e (rw e at h)
      | inr e ↦ rw e (find_pending-grown ps qs scope label key v n (rw e at h))
    ]

-- The pending nodes of a pass only grow, at the end.
abbrev Grown : Pass → Pass → Type 0
Grown s s' = (qs : List Pending) × (s'.pending ≡ s.pending ++ qs)

append_nil : {A : Type 0} (xs : List A) → xs ≡ xs ++ []
append_nil [] = refl
append_nil (x ∷ xs) = ap (λ r. x ∷ r) (append_nil xs)

upsert-Grown :
    (s : Pass) (id : ℕ) (scope : Scope) (label key : String) (props : Props) (v : Option PropValue)
    (found : Option ℕ)
    → Grown s (upsert s id scope label key props v found)
unfolding upsert
upsert-Grown s id scope label key props none none = ([], append_nil s.pending)
upsert-Grown s id scope label key props (some v) none =
    (record { scope = scope; label = label; key_prop = key; value = v; node = id } ∷ [], refl)
upsert-Grown s id scope label key props v (some n) = ([], append_nil s.pending)

pass_op-Grown : (index : Index) (s : Pass) (op : Op) → Grown s (pass_op index s op)
unfolding pass_op
pass_op-Grown index s (upsert_node id scope label key props) =
    upsert-Grown s id scope label key props (get_prop props key)
      (existing_node index s scope label key (get_prop props key))
pass_op-Grown index s op = ([], append_nil s.pending)

or_else-grown :
    (a b b' : Option ℕ) (n : ℕ)
    → (b ≡ some n → b' ≡ some n)
    → or_else a b ≡ some n
    → or_else a b' ≡ some n
or_else-grown none b b' n grow h = grow h
or_else-grown (some a) b b' n grow h = h

existing_node-Grown :
    (index : Index) (s s' : Pass) (scope : Scope) (label key : String) (v : PropValue) (n : ℕ)
    → Grown s s'
    → existing_node index s scope label key (some v) ≡ some n
    → existing_node index s' scope label key (some v) ≡ some n
unfolding existing_node
existing_node-Grown index s s' scope label key v n (qs, e) h =
    or_else-grown (index scope label key v) (find_pending s.pending scope label key v)
      (find_pending s'.pending scope label key v) n
      (λ k. rw e (find_pending-grown s.pending qs scope label key v n k)) h

pass_all-existing :
    (index : Index) (s : Pass) (ops : List Op) (scope : Scope) (label key : String) (v : PropValue)
    (n : ℕ)
    → existing_node index s scope label key (some v) ≡ some n
    → existing_node index (pass_all index s ops) scope label key (some v) ≡ some n
unfolding pass_all
pass_all-existing index s [] scope label key v n h = h
pass_all-existing index s (op ∷ ops) scope label key v n h =
    pass_all-existing index (pass_op index s op) ops scope label key v n (
      existing_node-Grown index s (pass_op index s op) scope label key v n
        (pass_op-Grown index s op) h)

find_pending-snoc :
    (ps : List Pending) (p : Pending)
    → same_prop p.value p.value ≡ true
    → find_pending ps p.scope p.label p.key_prop p.value ≡ none
    → find_pending (ps ++ p ∷ []) p.scope p.label p.key_prop p.value ≡ some p.node
unfolding find_pending
find_pending-snoc [] p same h = rw (
  (same_scope_iff p.scope p.scope).1 refl,
  (eq_iff p.label p.label).1 refl,
  (eq_iff p.key_prop p.key_prop).1 refl,
  same,
)
find_pending-snoc (q ∷ ps) p same h =
    elim (Bool-cases (is_pending p.scope p.label p.key_prop p.value q)) [
      | inl e ↦ absurd (let bad : some q.node ≡ none = rw e at h in cc)
      | inr e ↦ rw e (find_pending-snoc ps p same (rw e at h))
    ]

upsert-answers :
    (index : Index) (s : Pass) (id : ℕ) (scope : Scope) (label key : String) (props : Props)
    (v : PropValue) (hit old : Option ℕ)
    → index scope label key v ≡ hit
    → find_pending s.pending scope label key v ≡ old
    → same_prop v v ≡ true
    → existing_node index
        (upsert s id scope label key props (some v) (or_else hit old))
        scope
        label
        key
        (some v)
      ≡ some (unwrap_or (or_else hit old) id)
unfolding existing_node upsert
upsert-answers index s id scope label key props v (some n) old e f same = rw e
upsert-answers index s id scope label key props v none (some n) e f same = rw (e, f)
upsert-answers index s id scope label key props v none none e f same = rw e (
    find_pending-snoc s.pending
      (record { scope = scope; label = label; key_prop = key; value = v; node = id }) same f)

-- After an upsert its key has a node: the one that was there, or else the upsert's own id.
existing_node-pass_op :
    (index : Index) (s : Pass) (id : ℕ) (scope : Scope) (label key : String) (props : Props)
    (v : PropValue)
    → get_prop props key ≡ some v
    → same_prop v v ≡ true
    → existing_node index
        (pass_op index s (upsert_node id scope label key props))
        scope
        label
        key
        (some v)
      ≡ some (unwrap_or (existing_node index s scope label key (some v)) id)
unfolding pass_op existing_node
existing_node-pass_op index s id scope label key props v value same = rw value (
    upsert-answers index s id scope label key props v (index scope label key v)
      (find_pending s.pending scope label key v) refl refl same)

upsert-found :
    (s : Pass) (id : ℕ) (scope : Scope) (label key : String) (props : Props) (v : Option PropValue)
    (found : Option ℕ) (n : ℕ)
    → found ≡ some n
    → upsert s id scope label key props v found ≡ record s { remap = (id, n) ∷ s.remap }
unfolding upsert
upsert-found s id scope label key props v none n h = absurd (cc)
upsert-found s id scope label key props v (some m) n h =
    ap (λ k. record s { remap = (id, k) ∷ s.remap }) (ap (λ o. unwrap_or o 0) h)

-- Two upserts of one batch with the same scope, label, key property and value share one node,
-- whatever stands between them, if the value equals itself (it is no NaN): the second creates
-- nothing, and its planned id is redirected to the node that the first one found, or to the first
-- one's own id where it found none.
pub upsert_once :
    (index : Index) (s : Pass) (id id' : ℕ) (scope : Scope) (label key : String)
    (props props' : Props) (between : List Op) (v : PropValue)
    → get_prop props key ≡ some v
    → get_prop props' key ≡ some v
    → same_prop v v ≡ true
    → let s' = pass_all index (pass_op index s (upsert_node id scope label key props)) between in
      pass_op index s' (upsert_node id' scope label key props') ≡ record s' {
        remap = (id', unwrap_or (existing_node index s scope label key (some v)) id) ∷ s'.remap;
      }
unfolding pass_op
upsert_once index s id id' scope label key props props' between v value value' same =
    let s1 = pass_op index s (upsert_node id scope label key props) in
    let s' = pass_all index s1 between in
    let n = unwrap_or (existing_node index s scope label key (some v)) id in
    let e : existing_node index s' scope label key (some v) ≡ some n =
      pass_all-existing index s1 between scope label key v n
        (existing_node-pass_op index s id scope label key props v value same) in
    upsert-found s' id' scope label key props' (get_prop props' key)
      (existing_node index s' scope label key (get_prop props' key)) n (rw value' e)
