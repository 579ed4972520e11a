-- ===== src/Db/Queue/Draining.antt =====
-- crates/topodb/src/db.rs: what the draining of the channel takes from it.
use mathlib.Core.List.{Perm, append-nil, append_assoc, map-append}
use topo_db.Prelude.{
  ℕ, ◌+◌, ◌≤◌, ◌≡◌, refl, ap, ◌∙◌, subst, inl, inr, ◌&&◌, Bool-cases, Option, none, some, List, [],
  ◌∷◌, ◌++◌, map, length, ltb, arith,
}
use topo_db.Db.Applier.{ApplyJob, reply}
use topo_db.Db.Queue.{Job, apply, other, Drained, drain}

-- The reply channels of the batches among some jobs.
abbrev pub channels : List Job → List ℕ
channels [] = []
channels (apply ops at reply ∷ jobs) = reply ∷ channels jobs
channels (other job reply ∷ jobs) = channels jobs

abbrev pub as_list {ℓ} : {A : Type ℓ} → Option A → List A
as_list none = []
as_list (some a) = a ∷ []

abbrev pub reply_of : ApplyJob → ℕ
reply_of job = job.reply

-- Where nothing is left on either side.
pub without_nils :
    (xs ys us vs : List ℕ) → Perm (xs ++ us) (ys ++ vs) → us ≡ [] → vs ≡ [] → Perm xs ys
without_nils xs ys us vs h u v =
    subst (λ (l : List ℕ). Perm l ys) (ap (λ (l : List ℕ). xs ++ l) u ∙ append-nil xs)
      (subst (λ (l : List ℕ). Perm (xs ++ us) l) (ap (λ (l : List ℕ). ys ++ l) v ∙ append-nil ys) h)

pub channels-append : (js ks : List Job) → channels (js ++ ks) ≡ channels js ++ channels ks
channels-append [] ks = refl
channels-append (apply ops at reply ∷ js) ks =
    ap (λ (l : List ℕ). reply ∷ l) (channels-append js ks)
channels-append (other job reply ∷ js) ks = channels-append js ks

-- The drained jobs and what is left of the channel, in order.
abbrev pub left_of : Drained → List Job
left_of d = as_list d.popped ++ d.rest

pub drain-channels :
    (queue : List Job) (jobs : List ApplyJob) (total : ℕ)
    → map reply_of (drain queue jobs total).jobs ++ channels (left_of (drain queue jobs total))
      ≡ map reply_of jobs ++ channels queue
unfolding drain
drain-channels [] jobs total = refl
drain-channels (apply ops none reply ∷ queue) jobs total =
    elim (Bool-cases (ltb (length jobs) 16 && ltb total 4096)) [
      | inl more ↦
          let job : ApplyJob = record { ops = ops; reply = reply } in
          rw more (
            drain-channels queue (jobs ++ job ∷ []) (total + length ops)
            ∙ ap (λ (l : List ℕ). l ++ channels queue) (map-append reply_of jobs (job ∷ []))
            ∙ append_assoc (map reply_of jobs) (reply ∷ []) (channels queue))
      | inr full ↦ rw full refl
    ]
drain-channels (apply ops (some at) reply ∷ queue) jobs total =
    elim (Bool-cases (ltb (length jobs) 16 && ltb total 4096)) [
      | inl more ↦ rw more refl
      | inr full ↦ rw full refl
    ]
drain-channels (other job reply ∷ queue) jobs total =
    elim (Bool-cases (ltb (length jobs) 16 && ltb total 4096)) [
      | inl more ↦ rw more refl
      | inr full ↦ rw full refl
    ]

-- Draining takes nothing from the channel but jobs, and gives back one of them at most.
pub drain-length :
    (queue : List Job) (jobs : List ApplyJob) (total : ℕ)
    → length (left_of (drain queue jobs total)) ≤ length queue
unfolding drain
drain-length [] jobs total = omega arith
drain-length (apply ops none reply ∷ queue) jobs total =
    elim (Bool-cases (ltb (length jobs) 16 && ltb total 4096)) [
      | inl more ↦
          let job : ApplyJob = record { ops = ops; reply = reply } in
          rw more (omega (arith, drain-length queue (jobs ++ job ∷ []) (total + length ops)))
      | inr full ↦ rw full (omega arith)
    ]
drain-length (apply ops (some at) reply ∷ queue) jobs total =
    elim (Bool-cases (ltb (length jobs) 16 && ltb total 4096)) [
      | inl more ↦ rw more (omega arith)
      | inr full ↦ rw full (omega arith)
    ]
drain-length (other job reply ∷ queue) jobs total =
    elim (Bool-cases (ltb (length jobs) 16 && ltb total 4096)) [
      | inl more ↦ rw more (omega arith)
      | inr full ↦ rw full (omega arith)
    ]
