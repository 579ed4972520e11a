-- ===== src/Read/Listing/Exact.antt =====
-- crates/topodb/src/db.rs: the listing of edges, against a filter of the edge records alone.
use topo_db.Prelude.{
  ℕ, ◌≡◌, refl, sym, ap, ◌∙◌, arith, Bool, true, false, not, ◌&&◌, Bool-cases, String, Option, none,
  some, Option-cases, inl, inr, List, [], ◌∷◌, ◌==◌, if◌then◌else◌,
}
use topo_db.Prelude.Outcome.{Result, ok}
use topo_db.Ids.{ScopeSet, contains}
use topo_db.Adj.Block.{AdjEntry}
use topo_db.Adj.Chunks.{read_adj}
use topo_db.Registry.Scopes.{resolve}
use topo_db.Read.Interval.{matches}
use topo_db.Read.Traverse.{TimeAxis, EdgeRecord, Snapshot, to_i64, end_of}
use topo_db.Read.Traverse.Steps.{is_some}
use topo_db.Read.Listing.{
  EdgeDirection, from_node, to_node, EdgeGate, open_edges, interval, should_skip_entry,
  should_skip_record, is_elsewhere, sort_by_id, push_some, scan_entry, scan_entries, adj_in,
  name_filter, scan_adjacency,
}

-- What the gate asks of an edge, from its record.
abbrev pub passes : EdgeGate → EdgeRecord → Bool
passes (open_edges false axis) rec = true
passes (open_edges true TimeAxis.valid) rec = not (is_some rec.valid_to)
passes (open_edges true TimeAxis.recorded) rec = not (is_some rec.superseded_at)
passes (interval iv) rec = matches iv rec.valid_from rec.valid_to

abbrev pub other_end : EdgeDirection → EdgeRecord → ℕ
other_end from_node rec = rec.to
other_end to_node rec = rec.from

abbrev pub leads_to : EdgeDirection → Option ℕ → EdgeRecord → Bool
leads_to direction none rec = true
leads_to direction (some node) rec = other_end direction rec == node

abbrev pub is_wanted : ScopeSet → EdgeDirection → Option ℕ → EdgeGate → EdgeRecord → Bool
is_wanted scopes direction node gate rec =
    leads_to direction node rec && (passes gate rec && contains scopes rec.scope)

abbrev pub select : (EdgeRecord → Bool) → List EdgeRecord → List EdgeRecord
select p [] = []
select p (r ∷ rs) = if p r then r ∷ select p rs else select p rs

double : (b : Bool) → not (not b) ≡ b
double true = refl
double false = refl

module _ (snap : Snapshot) (direction : EdgeDirection) where
  -- The entry says of the edge what its row says.
  pub record Agrees (entry : AdjEntry) (rec : EdgeRecord) : Type 0 where
    pub row : snap.read_edge_by_slot entry.edge ≡ ok (some rec)
    pub scope : resolve snap.scope_registry entry.scope ≡ ok rec.scope
    pub valid_from : to_i64 entry.valid_from ≡ rec.valid_from
    pub valid_to : end_of entry.valid_to ≡ rec.valid_to
    pub target : snap.node_slots (other_end direction rec) ≡ some entry.target

  abbrev pub AllAgree : List (ℕ × AdjEntry) → List EdgeRecord → Type 0
  AllAgree [] [] = Unit {0}
  AllAgree ((ty, e) ∷ es) (r ∷ rs) = Agrees e r × AllAgree es rs
  AllAgree _ _ = ⊥

  is_some-end_of : (e : Option ℕ) → is_some (end_of e) ≡ is_some e
  is_some-end_of none = refl
  is_some-end_of (some t) = refl

  -- The two tests of the gate together, where the entry and the record agree.
  gates-passes :
      (gate : EdgeGate) (entry : AdjEntry) (rec : EdgeRecord)
      → Agrees entry rec
      → (not (should_skip_entry gate entry) && not (should_skip_record gate rec)) ≡ passes gate rec
  unfolding should_skip_entry should_skip_record
  gates-passes (open_edges false axis) entry rec a = refl
  gates-passes (open_edges true TimeAxis.valid) entry rec a =
      let ends : is_some entry.valid_to ≡ is_some rec.valid_to =
        sym (is_some-end_of entry.valid_to) ∙ ap (λ e. is_some e) a.valid_to in
      rw ends (ground arith)
  gates-passes (open_edges true TimeAxis.recorded) entry rec a = refl
  gates-passes (interval iv) entry rec a = rw (a.valid_from, a.valid_to) (ground arith)

  abbrev when : Bool → EdgeRecord → Option EdgeRecord
  when b rec = if b then some rec else none

  scan_entry-when :
      (scopes : ScopeSet) (filter_slot : Option ℕ) (gate : EdgeGate) (entry : AdjEntry)
      (rec : EdgeRecord)
      → Agrees entry rec
      → scan_entry snap scopes filter_slot gate entry
        ≡ ok (
            when
              (not (is_elsewhere filter_slot entry)
                && (passes gate rec && contains scopes rec.scope))
              rec)
  scan_entry-when scopes filter_slot gate entry rec a =
      let gated = gates-passes gate entry rec a in
      elim (Bool-cases (is_elsewhere filter_slot entry)) [
        | inl away ↦ rw away refl
        | inr here ↦ elim (Bool-cases (should_skip_entry gate entry)) [
          | inl skipped ↦
              let closed : passes gate rec ≡ false = sym gated ∙ rw skipped refl in
              rw (here, skipped, closed) refl
          | inr current ↦ elim (Bool-cases (contains scopes rec.scope)) [
            | inr hidden ↦ elim (Bool-cases (passes gate rec)) [
              | inl opened ↦ rw (here, current, a.scope, hidden, opened) refl
              | inr closed ↦ rw (here, current, a.scope, hidden, closed) refl
            ]
            | inl seen ↦ elim (Bool-cases (should_skip_record gate rec)) [
              | inl skipped ↦
                  let closed : passes gate rec ≡ false = sym gated ∙ rw (current, skipped) refl in
                  rw (here, current, a.scope, seen, a.row, skipped, closed) refl
              | inr kept ↦
                  let opened : passes gate rec ≡ true = sym gated ∙ rw (current, kept) refl in
                  rw (here, current, a.scope, seen, a.row, kept, opened) refl
            ]
          ]
        ]
      ]

  -- No two nodes have one slot.
  abbrev pub IsOneToOne : Type 0
  IsOneToOne =
      (i j slot : ℕ) → snap.node_slots i ≡ some slot → snap.node_slots j ≡ some slot → i ≡ j

  target-node :
      (node slot : ℕ) (entry : AdjEntry) (rec : EdgeRecord)
      → IsOneToOne
      → snap.node_slots node ≡ some slot
      → Agrees entry rec
      → (entry.target == slot) ≡ (other_end direction rec == node)
  target-node node slot entry rec one known a = elim (Bool-cases (entry.target == slot)) [
    | inl same ↦
        let here : snap.node_slots (other_end direction rec) ≡ some slot =
          a.target ∙ ap (λ (t : ℕ). let o : Option ℕ = some t in o) (ground arith) in
        let nodes : other_end direction rec ≡ node = one _ _ slot here known in ground arith
    | inr apart ↦ elim (Bool-cases (other_end direction rec == node)) [
      | inl same ↦
          let nodes : other_end direction rec ≡ node = ground arith in
          let slots : snap.node_slots node ≡ some entry.target =
            ap (λ (n : ℕ). snap.node_slots n) (sym nodes) ∙ a.target in
          let targets : entry.target ≡ slot = cc in absurd (ground arith)
      | inr other ↦ apart ∙ sym other
    ]
  ]

  -- The slot of the filter stands for its node.
  abbrev Stands : Option ℕ → Option ℕ → Type 0
  Stands none none = Unit {0}
  Stands (some node) (some slot) = snap.node_slots node ≡ some slot
  Stands _ _ = ⊥

  not_elsewhere :
      (node slot : Option ℕ) (entry : AdjEntry) (rec : EdgeRecord)
      → IsOneToOne
      → Stands node slot
      → Agrees entry rec
      → not (is_elsewhere slot entry) ≡ leads_to direction node rec
  not_elsewhere none none entry rec one known a = refl
  not_elsewhere (some n) (some k) entry rec one known a =
      double (entry.target == k) ∙ target-node n k entry rec one known a
  not_elsewhere none (some k) entry rec one known a = elim known [ ]
  not_elsewhere (some n) none entry rec one known a = elim known [ ]

  push_when :
      (b : Bool) (rec : EdgeRecord) (p : EdgeRecord → Bool) (rs : List EdgeRecord)
      → p rec ≡ b
      → push_some (when b rec) (select p rs) ≡ select p (rec ∷ rs)
  push_when true rec p rs h = rw h refl
  push_when false rec p rs h = rw h refl

  module _ (scopes : ScopeSet) (gate : EdgeGate) (node slot : Option ℕ) (one : IsOneToOne)
      (known : Stands node slot) where
    scan_entries-select :
        (entries : List (ℕ × AdjEntry)) (recs : List EdgeRecord)
        → AllAgree entries recs
        → scan_entries snap scopes slot gate entries
          ≡ ok (select (is_wanted scopes direction node gate) recs)
    unfolding scan_entries
    scan_entries-select [] [] agree = refl
    scan_entries-select ((ty, entry) ∷ entries) (rec ∷ recs) (a, agree) =
        let wanted : scan_entry snap scopes slot gate entry
            ≡ ok (when (is_wanted scopes direction node gate rec) rec) =
          rw (sym (not_elsewhere node slot entry rec one known a))
            (scan_entry-when scopes slot gate entry rec a) in
        rw (wanted, scan_entries-select entries recs agree)
          (ap (λ (l : List EdgeRecord). let r : Result (List EdgeRecord) = ok l in r)
            (push_when _ rec (is_wanted scopes direction node gate) recs refl))
    scan_entries-select [] (rec ∷ recs) agree = elim agree [ ]
    scan_entries-select ((ty, entry) ∷ entries) [] agree = elim agree [ ]

  -- A node without a slot is at no end of an edge that has an entry.
  select-unknown :
      (scopes : ScopeSet) (gate : EdgeGate) (node : ℕ) (entries : List (ℕ × AdjEntry))
      (recs : List EdgeRecord)
      → snap.node_slots node ≡ none
      → AllAgree entries recs
      → select (is_wanted scopes direction (some node) gate) recs ≡ []
  select-unknown scopes gate node [] [] unknown agree = refl
  select-unknown scopes gate node ((ty, entry) ∷ entries) (rec ∷ recs) unknown (a, agree) =
      elim (Bool-cases (other_end direction rec == node)) [
        | inl same ↦
            let nodes : other_end direction rec ≡ node = ground arith in
            absurd (cc (sym a.target, nodes, unknown))
        | inr other ↦ rw other (select-unknown scopes gate node entries recs unknown agree)
      ]
  select-unknown scopes gate node [] (rec ∷ recs) unknown agree = elim agree [ ]
  select-unknown scopes gate node ((ty, entry) ∷ entries) [] unknown agree = elim agree [ ]

  -- The listing is what a filter of the records would give. If the entries at a node say of their
  -- edges what the rows of the edges say, and no two nodes have one slot, then the listing at that
  -- node has exactly the records, sorted by id, whose scope may be read, whose other end is the node
  -- asked for, if one is, and which pass the gate: on the valid axis, on the recorded axis, or by the
  -- interval.
  pub scan_adjacency-select :
      (scopes : ScopeSet) (primary slot : ℕ) (node : Option ℕ) (ty : Option String)
      (gate : EdgeGate) (entries : List (ℕ × AdjEntry)) (recs : List EdgeRecord)
      → IsOneToOne
      → snap.node_slots primary ≡ some slot
      → read_adj snap.lz4 (adj_in snap direction) slot (name_filter snap ty) ≡ ok entries
      → AllAgree entries recs
      → scan_adjacency snap scopes primary node ty direction gate
        ≡ ok (sort_by_id (select (is_wanted scopes direction node gate) recs))
  unfolding scan_adjacency
  scan_adjacency-select scopes primary slot none ty gate entries recs one known found agree =
      rw (known, found, scan_entries-select scopes gate none none one tt entries recs agree) refl
  scan_adjacency-select scopes primary slot (some node) ty gate entries recs one known found agree =
      elim (Option-cases (snap.node_slots node)) [
        | inl unknown ↦
            rw (known, unknown, select-unknown scopes gate node entries recs unknown agree) refl
        | inr (k, there) ↦
            rw
              (
                known,
                there,
                found,
                scan_entries-select scopes gate (some node) (some k) one there entries recs agree,
              )
              refl
      ]
