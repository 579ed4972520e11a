-- ===== src/Registry.antt =====
-- crates/topodb/src/dict.rs and crates/topodb/src/scopes.rs: the in-memory mirrors that intern strings
-- and scopes as `u32` ids, with the journal by which an aborted batch is undone.
pub mod Laws
pub mod Dicts
pub mod Scopes
pub mod Load
mod Tests
use topo_db.Prelude.{ℕ, ◌+◌, ◌^◌, Bool, true, false, Option, none, some, ltb, if◌then◌else◌}
use topo_db.Prelude.Table.{Table, Key, insert, remove, nat_key}
use topo_db.Prelude.Outcome.{Result, ok, err, encoding}

-- `Map` of dict.rs, and the fields of `ScopeRegistry`.
pub record Mirror (K : Type 0) : Type 0 where
  pub by_key : Table K ℕ
  pub by_id : Table ℕ K
  pub next : ℕ

abbrev pub blank : {K : Type 0} → Mirror K
blank = record { by_key = λ k. none; by_id = λ i. none; next = 0 }

module _ {K : Type 0} ⦃key : Key K⦄ where
  unfoldable pub add : Mirror K → K → Mirror K
  add m k = record {
    by_key = insert m.by_key k m.next;
    by_id = insert m.by_id m.next k;
    next = m.next + 1;
  }

  -- The steps that the two `intern` share: the id, and the new mirror if the id is new.
  unfoldable pub claim_found : Mirror K → K → Option ℕ → Result (ℕ × Option (Mirror K))
  unfolding add
  claim_found m k (some i) = ok (i, none)
  claim_found m k none =
      if ltb (m.next + 1) (2 ^ 32)
      then ok (m.next, some (add m k))
      else err (encoding "id exhausted")

  unfoldable pub claim : Mirror K → K → Result (ℕ × Option (Mirror K))
  unfolding claim_found
  claim m k = claim_found m k (m.by_key k)

  -- One round of the two `revert`.
  unfoldable pub forget_found : Mirror K → ℕ → Option K → Mirror K
  forget_found m i none = record m { by_id = remove m.by_id i; next = i }
  forget_found m i (some k) = record {
    by_key = remove m.by_key k;
    by_id = remove m.by_id i;
    next = i;
  }

  unfoldable pub forget : Mirror K → ℕ → Mirror K
  unfolding forget_found
  forget m i = forget_found m i (m.by_id i)
