-- ===== src/Storage/Evolves.antt =====
-- crates/topodb/src/storage.rs: how the slots, the pinned dimensions and the log may change over an op
-- and over a batch.
pub mod Steps
pub mod Batches
pub mod Record
use topo_db.Prelude.{ℕ, ◌≡◌, refl, ◌∙◌, subst, some}
use topo_db.Prelude.Table.{Table}
use topo_db.Slots.{Slots}
use topo_db.Slots.History.{SlotsEvolve, SlotsEvolve-refl, SlotsEvolve-trans}
use topo_db.Storage.Act.{Tables}
use topo_db.Storage.Moves.{IsOrder}

-- A pinned dimension stays.
abbrev pub Pins : Table ℕ ℕ → Table ℕ ℕ → Type 0
Pins dims dims' = (model dim : ℕ) → dims model ≡ some dim → dims' model ≡ some dim

pub record Evolves (t t' : Tables) : Type 0 where
  pub nodes : SlotsEvolve t.node_slots t'.node_slots
  pub edges : SlotsEvolve t.edge_slots t'.edge_slots
  pub dims : Pins t.vector_dims t'.vector_dims

-- An op leaves the log alone.
pub record Edits (t t' : Tables) : Type 0 where
  pub evolves : Evolves t t'
  pub log : t'.log ≡ t.log

pub Evolves-refl : (t : Tables) → Evolves t t
Evolves-refl t = record {
  nodes = SlotsEvolve-refl t.node_slots;
  edges = SlotsEvolve-refl t.edge_slots;
  dims = λ model dim e. e;
}

Evolves-trans : (t u v : Tables) → Evolves t u → Evolves u v → Evolves t v
Evolves-trans t u v h k = record {
  nodes = SlotsEvolve-trans _ _ _ h.nodes k.nodes;
  edges = SlotsEvolve-trans _ _ _ h.edges k.edges;
  dims = λ model dim e. k.dims model dim (h.dims model dim e);
}

pub Evolves-IsOrder : IsOrder Evolves
Evolves-IsOrder = record { rest = Evolves-refl; join = Evolves-trans }

pub Edits-IsOrder : IsOrder Edits
Edits-IsOrder = record {
  rest = λ t. record { evolves = Evolves-refl t; log = refl };
  join = λ t u v h k. record {
    evolves = Evolves-trans t u v h.evolves k.evolves;
    log = k.log ∙ h.log;
  };
}

-- Tables with the same slots and dimensions, and the same log.
pub Evolves-quiet :
    (t t' : Tables)
    → t.node_slots ≡ t'.node_slots
    → t.edge_slots ≡ t'.edge_slots
    → t.vector_dims ≡ t'.vector_dims
    → Evolves t t'
Evolves-quiet t t' n e d = record {
  nodes = subst (λ (s : Slots). SlotsEvolve t.node_slots s) n (SlotsEvolve-refl t.node_slots);
  edges = subst (λ (s : Slots). SlotsEvolve t.edge_slots s) e (SlotsEvolve-refl t.edge_slots);
  dims = subst (λ (s : Table ℕ ℕ). Pins t.vector_dims s) d (λ model dim h. h);
}

pub Edits-quiet :
    (t t' : Tables)
    → t.node_slots ≡ t'.node_slots
    → t.edge_slots ≡ t'.edge_slots
    → t.vector_dims ≡ t'.vector_dims
    → t'.log ≡ t.log
    → Edits t t'
Edits-quiet t t' n e d l = record { evolves = Evolves-quiet t t' n e d; log = l }

pub ruleset edits_rules = (Edits-IsOrder, Edits-quiet, refl)

pub ruleset evolves_rules = (Evolves-IsOrder, Evolves-quiet, refl)
