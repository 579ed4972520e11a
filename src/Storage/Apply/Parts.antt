-- ===== src/Storage/Apply/Parts.antt =====
-- crates/topodb/src/storage.rs: what several arms of `apply_op` share.
use topo_db.Prelude.{ℕ, ◌+◌, ◌*◌, ◌^◌, String}
use topo_db.Prelude.Table.{nat_key}
use topo_db.Prelude.Outcome.{Result, ok, TopoError, rejected, encoding}
use topo_db.Prelude.Outcome.{◌>>=◌ as ◌>>>◌}
use topo_db.Slots.{Slots, alloc}
use topo_db.Adj.Chunks.{AdjTable}
use topo_db.Read.Traverse.{NodeRecord}
use topo_db.Storage.Act.{Tables, Storage, Act, write}
use topo_db.Storage.Records.{ok_or}
use topo_db.Storage.Rows.{Codecs, read_node}

abbrev pub unresolved : TopoError
unresolved = encoding "apply_op only runs on resolved ops"

abbrev pub keep {ℓ} : {A : Type ℓ} → Result A → Result (Unit {0} × A)
keep r = r >>> λ a. ok (tt, a)

-- The two allocators of slots.rs.
abbrev pub node_slots_of : Tables → Result (ℕ × Slots) → Result (ℕ × Tables)
node_slots_of t r = r >>> λ p. ok (p.0, record t { node_slots = p.1 })

abbrev pub edge_slots_of : Tables → Result (ℕ × Slots) → Result (ℕ × Tables)
edge_slots_of t r = r >>> λ p. ok (p.0, record t { edge_slots = p.1 })

abbrev pub alloc_node_slot : ℕ → Act ℕ
alloc_node_slot id = write (λ t. node_slots_of t (alloc t.node_slots id))

abbrev pub alloc_edge_slot : ℕ → Act ℕ
alloc_edge_slot id = write (λ t. edge_slots_of t (alloc t.edge_slots id))

-- One of the two adjacency tables.
pub data Side : Type 0 where
  out_side in_side : Side

abbrev pub adj_of : Side → Tables → AdjTable
adj_of out_side t = t.out_adj
adj_of in_side t = t.in_adj

abbrev pub set_adj : Side → Tables → AdjTable → Tables
set_adj out_side t table = record t { out_adj = table }
set_adj in_side t table = record t { in_adj = table }

abbrev pub on_side {ℓ} : {A : Type ℓ} → Side → Tables → Result (A × AdjTable) → Result (A × Tables)
on_side side t r = r >>> λ p. ok (p.0, set_adj side t p.1)

unfoldable pub label_index_key : ℕ → ℕ → ℕ → ℕ
label_index_key label_id scope_id node_id = label_id * 2 ^ 160 + scope_id * 2 ^ 128 + node_id

module _ (codecs : Codecs) where
  abbrev pub node_or : String → ℕ → Storage → Result NodeRecord
  node_or message id s = read_node codecs id s >>> λ found. ok_or found (rejected message)
