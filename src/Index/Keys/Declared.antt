-- ===== src/Index/Keys/Declared.antt =====
-- crates/topodb/src/prop_index.rs: the index against the properties that the spec declares.
use topo_db.Prelude.{
  ℕ, ◌^◌, ◌<◌, ◌≡◌, ◌≢◌, ◌↔◌, ◌⊎◌, refl, sym, ap, ◌∙◌, inl, inr, arith, true, Bool-cases, Option,
  none, some, String, List, [], ◌∷◌, ◌++◌, All, length, length-append,
}
use topo_db.Prelude.Bytes.{Bytes, be_bytes, of_be, same_key, KeyTable, has_key}
use topo_db.Prelude.Bytes.Laws.{IsByte, same_key_self, same_key→≡, append-same_tail}
use topo_db.Op.{PropValue, Props}
use topo_db.Registry.Dicts.{Dicts, mirror_of}
use topo_db.Read.Traverse.{NodeRecord, is_member}
use topo_db.Index.{IndexSpec, IndexValue, declares, value_of}
use topo_db.Index.Keys.{value_bytes, index_prefix, index_key, lookup, entry_key, prop_entry}
use topo_db.Index.Keys.Upkeep.{is_entry, has_entry, reindexed_table, lookup-reindexed}
use topo_db.Index.Keys.Spec.{
  Declared, IsHeld, HasSmallIds, either-true, same_truth, declares_iff, IsHeld-value_of,
  value_of-IsHeld,
}

append-same_head : (p q a b : Bytes) → length p ≡ length q → p ++ a ≡ q ++ b → p ≡ q
append-same_head [] [] a b len h = refl
append-same_head [] (y ∷ q) a b len h = absurd (omega arith)
append-same_head (x ∷ p) [] a b len h = absurd (omega arith)
append-same_head (x ∷ p) (y ∷ q) a b len h =
    let rest : p ≡ q = append-same_head p q a b (omega arith) (cc) in
    let first : x ≡ y = cc in λ i. first i ∷ rest i

of_be-be4 : (n : ℕ) → n < 2 ^ 32 → of_be 0 (be_bytes 4 n) ≡ n
unfolding of_be be_bytes
of_be-be4 n h = omega arith

length-be4 : (n : ℕ) → length (be_bytes 4 n) ≡ 4
unfolding be_bytes
length-be4 n = refl

module _ (to_lowercase : List ℕ → List ℕ) where
  -- A key of the slot holds the property and the value.
  same_key-key :
      (p prop slot : ℕ) (w value : IndexValue)
      → p < 2 ^ 32
      → prop < 2 ^ 32
      → (same_key (index_key to_lowercase p w slot) (index_key to_lowercase prop value slot) ≡ true)
        ↔ ((p ≡ prop) × (value_bytes to_lowercase w ≡ value_bytes to_lowercase value))
  unfolding index_key index_prefix
  same_key-key p prop slot w value small fits =
      let mine = value_bytes to_lowercase w in
      let yours = value_bytes to_lowercase value in
      (
        λ h.
            let whole = same_key→≡ _ _ h in
            let front : be_bytes 4 p ++ mine ≡ be_bytes 4 prop ++ yours =
              append-same_head (be_bytes 4 p ++ mine) (be_bytes 4 prop ++ yours) (be_bytes 8 slot)
                (be_bytes 8 slot)
                (omega (
                  arith,
                  ap (λ (b : Bytes). length b) whole,
                  length-append (be_bytes 4 p ++ mine) (be_bytes 8 slot),
                  length-append (be_bytes 4 prop ++ yours) (be_bytes 8 slot),
                ))
                whole in
            let lengths : length (be_bytes 4 p) ≡ length (be_bytes 4 prop) =
              length-be4 p ∙ sym (length-be4 prop) in
            let heads : be_bytes 4 p ≡ be_bytes 4 prop =
              append-same_head (be_bytes 4 p) (be_bytes 4 prop) mine yours lengths front in
            (
              sym (of_be-be4 p small) ∙ ap (λ (b : Bytes). of_be 0 b) heads ∙ of_be-be4 prop fits,
              append-same_tail (be_bytes 4 p) (be_bytes 4 prop) mine yours lengths front,
            ),
        λ (p_same, v_same).
            rw (p_same, v_same) (same_key_self ((be_bytes 4 prop ++ yours) ++ be_bytes 8 slot)),
      )

  module _ (spec : IndexSpec) (dicts : Dicts) (node : NodeRecord) (slot : ℕ) (prop : ℕ)
      (value : IndexValue) where
    -- The spec declares the key for the label of the node, the key has the id `prop`, and an index
    -- holds its value in the bytes that it holds `value` in.
    abbrev IsFor : String → PropValue → Type 0
    IsFor key v =
        Declared spec.equality node.label key
        × (dicts.props.by_key key ≡ some prop)
        × (w : IndexValue) × IsHeld v w
        × (value_bytes to_lowercase w ≡ value_bytes to_lowercase value)

    -- One of the properties is declared under this id and has this value.
    abbrev pub IsUnder : Props → Type 0
    IsUnder [] = ⊥
    IsUnder ((key, v) ∷ props) = IsFor key v ⊎ IsUnder props

    module _ (small : HasSmallIds dicts) (fits : prop < 2 ^ 32) where
      entry_key_iff :
          (key : String) (v : PropValue) (found : Option ℕ) (held : Option IndexValue)
          → dicts.props.by_key key ≡ found
          → value_of v ≡ held
          → (is_entry
                (entry_key to_lowercase found held slot)
                (index_key to_lowercase prop value slot)
              ≡ true)
            ↔ ((found ≡ some prop)
                × (w : IndexValue) × (held ≡ some w)
                × (value_bytes to_lowercase w ≡ value_bytes to_lowercase value))
      unfolding entry_key
      entry_key_iff key v none held f e = (λ h. absurd (cc), λ h. absurd (cc (h.0)))
      entry_key_iff key v (some p) none f e = (λ h. absurd (cc), λ (same, w, miss, b). absurd (cc))
      entry_key_iff key v (some p) (some w) f e =
          let keys = same_key-key p prop slot w value (small key p f) fits in
          (
            λ h. let (p_same, v_same) = keys.0 h in (ap some p_same, w, refl, v_same),
            λ (p_same, w', w_same, v_same).
                let there : w' ≡ w = cc in
                keys.1 (cc, ap (value_bytes to_lowercase) (sym there) ∙ v_same),
          )

      prop_entry_iff :
          (key : String) (v : PropValue)
          → (is_entry
                (prop_entry to_lowercase spec dicts node key v slot)
                (index_key to_lowercase prop value slot)
              ≡ true)
            ↔ IsFor key v
      unfolding prop_entry mirror_of
      prop_entry_iff key v =
          let inner = entry_key_iff key v (dicts.props.by_key key) (value_of v) refl refl in
          elim (Bool-cases (declares spec.equality node.label key)) [
            | inl declared ↦ rw declared (
              λ h.
                  let (p, w, held, b) = inner.0 h in
                  (
                    (declares_iff spec.equality node.label key).0 declared,
                    p,
                    w,
                    IsHeld-value_of v w held,
                    b,
                  ),
              λ (d, p, w, held, b). inner.1 (p, w, value_of-IsHeld v w held, b),
            )
            | inr undeclared ↦ rw undeclared (
              λ h. absurd (cc),
              λ h. absurd (
                  let here = (declares_iff spec.equality node.label key).1 h.0 in
                  cc (here, undeclared)),
            )
          ]

      has_entry_iff :
          (props : Props)
          → (has_entry to_lowercase spec dicts node slot props
                (index_key to_lowercase prop value slot)
              ≡ true)
            ↔ IsUnder props
      has_entry_iff [] = (λ h. absurd (cc), λ h. elim h [ ])
      has_entry_iff ((key, v) ∷ props) =
          let split =
            either-true
              (is_entry (prop_entry to_lowercase spec dicts node key v slot)
                (index_key to_lowercase prop value slot))
              (has_entry to_lowercase spec dicts node slot props
                (index_key to_lowercase prop value slot)) in
          let more = has_entry_iff props in
          let one = prop_entry_iff key v in
          (
            λ h. elim (split.0 h) [ inl e ↦ inl (one.0 e) | inr r ↦ inr (more.0 r) ],
            λ h. split.1 (elim h [ inl e ↦ inl (one.1 e) | inr r ↦ inr (more.1 r) ]),
          )

  module _ (spec : IndexSpec) (table : KeyTable) (dicts dicts' : Dicts) (old new : NodeRecord) where
    abbrev after : ℕ → KeyTable
    after = reindexed_table to_lowercase spec table dicts dicts' old new

    -- The index is kept exact. If it had a key with this slot, property id and value exactly where a
    -- declared property of the old node has them, then a lookup after the old properties have been
    -- taken out and the new ones put in finds the slot exactly where a declared property of the new
    -- node has that id and that value; and the lookup does not change its answer about any other slot.
    -- The keys are bytes, the slots `u64`, and the ids of the property names `u32`.
    pub lookup_declared :
        (slot prop : ℕ) (value : IndexValue)
        → slot < 2 ^ 64
        → prop < 2 ^ 32
        → HasSmallIds dicts
        → HasSmallIds dicts'
        → All (λ (k : Bytes). All IsByte k) table
        → All (λ (k : Bytes). All IsByte k) (after slot)
        → ((has_key table (index_key to_lowercase prop value slot) ≡ true)
            ↔ IsUnder spec dicts old slot prop value old.props)
        → ((is_member slot (lookup to_lowercase (after slot) prop value) ≡ true)
            ↔ IsUnder spec dicts' new slot prop value new.props)
          × ((other : ℕ)
              → other < 2 ^ 64
              → other ≢ slot
              → is_member other (lookup to_lowercase (after slot) prop value)
                ≡ is_member other (lookup to_lowercase table prop value))
    lookup_declared slot prop value slot_fits fits small small' are_bytes are_bytes' exact =
        let was = has_entry_iff spec dicts old slot prop value small fits old.props in
        let is = has_entry_iff spec dicts' new slot prop value small' fits new.props in
        let (found, others) =
          lookup-reindexed to_lowercase spec table dicts dicts' old new slot prop value slot_fits
            are_bytes are_bytes'
            (same_truth _ _ (λ h. was.1 (exact.0 h), λ h. exact.1 (was.0 h))) in
        ((λ h. is.0 (sym found ∙ h), λ h. found ∙ is.1 h), others)
