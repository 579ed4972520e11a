-- ===== src/Db.antt =====
-- crates/topodb/src/db.rs: the applier thread, the sole writer. A reply channel is a number, and the
-- replies are the list of what was sent, the oldest first. The clock is an argument.
pub mod Feed
pub mod Applier
pub mod Steps
pub mod Group
pub mod Queue
pub mod OnStorage
mod Tests
use topo_db.Prelude.{
  String, ℕ, ◌+◌, Bool, true, false, ◌&&◌, Option, none, some, List, [], ◌∷◌, ◌++◌,
}
use topo_db.Prelude.Int.{ℤ}
use topo_db.Prelude.Table.{Table, insert, empty, nat_key}
use topo_db.Prelude.Outcome.{
  Except, Result, ok, err, TopoError, rejected, encoding, compacted, ◌>>=◌,
}
use topo_db.Ids.{Scope}
use topo_db.Op.{Op, create_node, remove_node, create_edge}
use topo_db.Storage.Batch.{AppliedBatch}

-- The jobs other than a batch: `Rebuild`, `BumpCounters`, `Compact` and `Meta`.
pub data OtherJob : Type 0 where
  rebuild : OtherJob
  bump_counters : List (ℕ × ℕ × ℤ) → OtherJob
  compact : ℕ → OtherJob
  meta : String → List ℕ → OtherJob

-- What the applier asks of the storage. Of the nodes that it loads, the checks read the scope only.
pub record Backend : Type 1 where
  pub State : Type 0
  pub load_nodes : State → List ℕ → Result (Table ℕ Scope)
  pub apply_batches : State → List (List Op) → ℤ → List (Result AppliedBatch) × State
  pub apply_batch : State → List Op → ℤ → Result AppliedBatch × State
  pub run_other : State → OtherJob → Result (Unit {0}) × State

-- A set of ids is a list of them.
unfoldable pub ids_needing_pre_state : List Op → List ℕ
ids_needing_pre_state [] = []
ids_needing_pre_state (create_edge e vf ra ∷ ops) = e.from ∷ e.to ∷ ids_needing_pre_state ops
ids_needing_pre_state (create_node id scope label props ∷ ops) = id ∷ ids_needing_pre_state ops
ids_needing_pre_state (op ∷ ops) = ids_needing_pre_state ops

-- The kind of the error stays, with what a caller reads from it.
unfoldable pub group_pre_read_error : TopoError → TopoError
group_pre_read_error (rejected m) = rejected "group pre-validation read failed"
group_pre_read_error (encoding m) = encoding "group pre-validation read failed"
group_pre_read_error (compacted oldest) = compacted oldest

-- The effect of the earlier batches of a group: a scope, or that the node is gone.
abbrev pub Overlay : Type 0
Overlay = Table ℕ (Option Scope)

abbrev pub laid_over : Option Scope → Option (Option Scope) → Option Scope
laid_over base none = base
laid_over base (some change) = change

unfoldable pub effective_pre : Table ℕ Scope → Overlay → Table ℕ Scope
effective_pre base overlay id = laid_over (base id) (overlay id)

unfoldable pub record_effects : Overlay → List Op → Overlay
record_effects overlay [] = overlay
record_effects overlay (create_node id scope label props ∷ ops) =
    record_effects (insert overlay id (some scope)) ops
record_effects overlay (remove_node id ∷ ops) = record_effects (insert overlay id none) ops
record_effects overlay (op ∷ ops) = record_effects overlay ops
