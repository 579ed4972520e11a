-- ===== src/Index/Keys/Upkeep.antt =====
-- crates/topodb/src/prop_index.rs: `index_node` and `unindex_node`, which the op loop of
-- crates/topodb/src/storage.rs calls around an op, against the properties of the node.
use topo_db.Prelude.{
  ℕ, ◌^◌, ◌<◌, ◌≡◌, ◌≢◌, refl, sym, ap, ◌∙◌, inl, inr, arith, Bool, true, false, ◌&&◌, ◌||◌, not,
  Bool-cases, Option, none, some, String, List, [], ◌∷◌, All, length, length-append,
}
use topo_db.Prelude.Bytes.{Bytes, be_bytes, of_be, same_key, KeyTable, has_key}
use topo_db.Prelude.Bytes.Laws.{
  IsByte, same_key→≡, has_key-insert_key, has_key-remove_key, of_be-be_bytes, append-same_tail,
}
use topo_db.Op.{PropValue, Props}
use topo_db.Registry.Dicts.{Dicts}
use topo_db.Read.Traverse.{NodeRecord, is_member}
use topo_db.Index.{IndexSpec, IndexValue, declares}
use topo_db.Index.Keys.{
  index_prefix, index_key, lookup, entry_key, prop_entry, insert_entry, remove_entry, index_props,
  index_node, unindex_props, unindex_node,
}
use topo_db.Index.Keys.Exact.{member-lookup, length-be8}

abbrev pub is_entry : Option Bytes → Bytes → Bool
is_entry none j = false
is_entry (some k) j = same_key k j

swapped : (a b c : Bool) → (a || (b || c)) ≡ ((b || a) || c)
swapped true true c = refl
swapped true false c = refl
swapped false true c = refl
swapped false false c = refl

neither : (a b c : Bool) → (not a && (not b && c)) ≡ (not (b || a) && c)
neither true true c = refl
neither true false c = refl
neither false true c = refl
neither false false c = refl

cleared : (a b : Bool) → (a || (not b && b)) ≡ a
cleared true b = refl
cleared false true = refl
cleared false false = refl

module _ (to_lowercase : List ℕ → List ℕ) where
  -- One of the properties is declared and interned, and has this key.
  abbrev pub has_entry : IndexSpec → Dicts → NodeRecord → ℕ → Props → Bytes → Bool
  has_entry spec dicts node slot [] j = false
  has_entry spec dicts node slot ((key, value) ∷ props) j =
      is_entry (prop_entry to_lowercase spec dicts node key value slot) j
      || has_entry spec dicts node slot props j

  -- The node is to be found under this value.
  abbrev is_under : IndexSpec → Dicts → NodeRecord → ℕ → ℕ → IndexValue → Bool
  is_under spec dicts node slot prop value =
      has_entry spec dicts node slot node.props (index_key to_lowercase prop value slot)

  has_key-insert_entry :
      (table : KeyTable) (entry : Option Bytes) (j : Bytes)
      → has_key (insert_entry to_lowercase table entry) j ≡ (is_entry entry j || has_key table j)
  has_key-insert_entry table none j = refl
  has_key-insert_entry table (some k) j = has_key-insert_key table k j

  has_key-remove_entry :
      (table : KeyTable) (entry : Option Bytes) (j : Bytes)
      → has_key (remove_entry to_lowercase table entry) j
        ≡ (not (is_entry entry j) && has_key table j)
  has_key-remove_entry table none j = refl
  has_key-remove_entry table (some k) j = has_key-remove_key table k j

  module _ (spec : IndexSpec) (dicts : Dicts) (node : NodeRecord) (slot : ℕ) where
    has_key-index_props :
        (props : Props) (table : KeyTable) (j : Bytes)
        → has_key (index_props to_lowercase table spec dicts node slot props) j
          ≡ (has_entry spec dicts node slot props j || has_key table j)
    unfolding index_props
    has_key-index_props [] table j = refl
    has_key-index_props ((key, value) ∷ props) table j =
        let entry = prop_entry to_lowercase spec dicts node key value slot in
        has_key-index_props props (insert_entry to_lowercase table entry) j
        ∙ rw (has_key-insert_entry table entry j)
            (swapped (has_entry spec dicts node slot props j) (is_entry entry j) (has_key table j))

    has_key-unindex_props :
        (props : Props) (table : KeyTable) (j : Bytes)
        → has_key (unindex_props to_lowercase table spec dicts node slot props) j
          ≡ (not (has_entry spec dicts node slot props j) && has_key table j)
    unfolding unindex_props
    has_key-unindex_props [] table j = refl
    has_key-unindex_props ((key, value) ∷ props) table j =
        let entry = prop_entry to_lowercase spec dicts node key value slot in
        has_key-unindex_props props (remove_entry to_lowercase table entry) j
        ∙ rw (has_key-remove_entry table entry j)
            (neither (has_entry spec dicts node slot props j) (is_entry entry j) (has_key table j))

    -- A key with another slot at its end is none of the node's.
    same_key-index_key :
        (prop prop' : ℕ) (value value' : IndexValue) (other : ℕ)
        → slot < 2 ^ 64
        → other < 2 ^ 64
        → other ≢ slot
        → same_key
            (index_key to_lowercase prop' value' slot)
            (index_key to_lowercase prop value other)
          ≡ false
    unfolding index_key
    same_key-index_key prop prop' value value' other small fits apart =
        elim (Bool-cases (
          same_key (index_key to_lowercase prop' value' slot)
            (index_key to_lowercase prop value other))) [
              | inl same ↦
                  let whole = same_key→≡ _ _ same in
                  let tails : be_bytes 8 slot ≡ be_bytes 8 other =
                    append-same_tail (index_prefix to_lowercase prop' value')
                      (index_prefix to_lowercase prop value) (be_bytes 8 slot) (be_bytes 8 other)
                      (omega (
                        arith,
                        ap (λ (b : Bytes). length b) whole,
                        length-append (index_prefix to_lowercase prop' value') (be_bytes 8 slot),
                        length-append (index_prefix to_lowercase prop value) (be_bytes 8 other),
                        length-be8 slot,
                        length-be8 other,
                      ))
                      whole in
                  let numbers : slot ≡ other =
                    sym (of_be-be_bytes slot small)
                    ∙ ap (λ (b : Bytes). of_be 0 b) tails
                    ∙ of_be-be_bytes other fits in
                  absurd (apart (sym numbers))
              | inr differs ↦ differs
            ]

    entry_key-other :
        (found : Option ℕ) (held : Option IndexValue) (prop : ℕ) (value : IndexValue) (other : ℕ)
        → slot < 2 ^ 64
        → other < 2 ^ 64
        → other ≢ slot
        → is_entry
            (entry_key to_lowercase found held slot)
            (index_key to_lowercase prop value other)
          ≡ false
    unfolding entry_key
    entry_key-other none held prop value other small fits apart = refl
    entry_key-other (some p) none prop value other small fits apart = refl
    entry_key-other (some p) (some v) prop value other small fits apart =
        same_key-index_key prop p value v other small fits apart

    prop_entry-other :
        (key : String) (v : PropValue) (prop : ℕ) (value : IndexValue) (other : ℕ)
        → slot < 2 ^ 64
        → other < 2 ^ 64
        → other ≢ slot
        → is_entry
            (prop_entry to_lowercase spec dicts node key v slot)
            (index_key to_lowercase prop value other)
          ≡ false
    unfolding prop_entry
    prop_entry-other key v prop value other small fits apart =
        elim (Bool-cases (declares spec.equality node.label key)) [
          | inl yes_declared ↦
              rw yes_declared (entry_key-other _ _ prop value other small fits apart)
          | inr undeclared ↦ rw undeclared refl
        ]

    has_entry-other :
        (props : Props) (prop : ℕ) (value : IndexValue) (other : ℕ)
        → slot < 2 ^ 64
        → other < 2 ^ 64
        → other ≢ slot
        → has_entry spec dicts node slot props (index_key to_lowercase prop value other) ≡ false
    has_entry-other [] prop value other small fits apart = refl
    has_entry-other ((key, v) ∷ props) prop value other small fits apart =
        rw (prop_entry-other key v prop value other small fits apart)
          (has_entry-other props prop value other small fits apart)

  module _ (spec : IndexSpec) (table : KeyTable) (dicts dicts' : Dicts) (old new : NodeRecord) where
    -- The index after an op that has changed the node in this slot.
    abbrev pub reindexed_table : ℕ → KeyTable
    reindexed_table slot =
        index_node to_lowercase (unindex_node to_lowercase table spec dicts old slot) spec dicts'
          new slot

    has_key-reindexed :
        (slot : ℕ) (j : Bytes)
        → has_key (reindexed_table slot) j ≡ (
            has_entry spec dicts' new slot new.props j
            || (not (has_entry spec dicts old slot old.props j) && has_key table j))
    unfolding index_node unindex_node
    has_key-reindexed slot j =
        has_key-index_props spec dicts' new slot new.props _ j
        ∙ rw (has_key-unindex_props spec dicts old slot old.props table j) refl

    -- A lookup finds the slot where the new properties have an entry, if the old ones had the entry
    -- that the index has; no other slot is concerned.
    pub lookup-reindexed :
        (slot prop : ℕ) (value : IndexValue)
        → slot < 2 ^ 64
        → All (λ (k : Bytes). All IsByte k) table
        → All (λ (k : Bytes). All IsByte k) (reindexed_table slot)
        → has_key table (index_key to_lowercase prop value slot)
          ≡ is_under spec dicts old slot prop value
        → (is_member slot (lookup to_lowercase (reindexed_table slot) prop value)
            ≡ is_under spec dicts' new slot prop value)
          × ((other : ℕ)
              → other < 2 ^ 64
              → other ≢ slot
              → is_member other (lookup to_lowercase (reindexed_table slot) prop value)
                ≡ is_member other (lookup to_lowercase table prop value))
    lookup-reindexed slot prop value small bytes bytes' exact = (
      member-lookup to_lowercase (reindexed_table slot) prop value slot bytes' small
          ∙ has_key-reindexed slot (index_key to_lowercase prop value slot)
          ∙ rw exact (
              cleared (is_under spec dicts' new slot prop value)
                (is_under spec dicts old slot prop value)),
      λ other fits apart.
          member-lookup to_lowercase (reindexed_table slot) prop value other bytes' fits
          ∙ has_key-reindexed slot (index_key to_lowercase prop value other)
          ∙ rw
              (
                has_entry-other spec dicts' new slot new.props prop value other small fits apart,
                has_entry-other spec dicts old slot old.props prop value other small fits apart,
              )
              (sym (member-lookup to_lowercase table prop value other bytes fits)),
    )
