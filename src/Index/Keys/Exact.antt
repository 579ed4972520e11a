-- ===== src/Index/Keys/Exact.antt =====
-- crates/topodb/src/prop_index.rs: `lookup` as a reference to the keys of the index.
use topo_db.Prelude.{
  ℕ, zero, suc, ◌+◌, ◌-◌, ◌^◌, ◌<◌, ◌≡◌, refl, ap, sym, ◌∙◌, subst, inl, inr, arith, Bool, true,
  false, ◌&&◌, ◌||◌, not, Bool-cases, List, [], ◌∷◌, ◌++◌, length, length-append, drop, All,
  replicate, ◌==◌, if◌then◌else◌,
}
use topo_db.Prelude.Bytes.{
  Bytes, be_bytes, of_be, same_key, lt_key, starts_with, KeyTable, has_key, range_keys,
}
use topo_db.Prelude.Bytes.Laws.{
  IsByte, same_key_self, same_key→≡, same_key-append, lt_key-append, starts_with-append,
  starts_with-drop, lowest, highest, of_be-be_bytes, be_bytes-of_be,
}
use topo_db.Read.Traverse.{is_member}
use topo_db.Index.{IndexValue}
use topo_db.Index.Keys.{index_prefix, index_key, slots_of, lookup}

-- The key has the prefix, and eight bytes after it.
abbrev fits : Bytes → Bytes → Bool
fits key prefix = starts_with key prefix && length key == length prefix + 8

pub length-be8 : (n : ℕ) → length (be_bytes 8 n) ≡ 8
unfolding be_bytes
length-be8 n = refl

length-drop_prefix : (p k : Bytes) → length (drop (length p) (p ++ k)) ≡ length k
length-drop_prefix [] k = refl
length-drop_prefix (b ∷ p) k = length-drop_prefix p k

drop_prefix : (p k : Bytes) → drop (length p) (p ++ k) ≡ k
drop_prefix [] k = refl
drop_prefix (b ∷ p) k = drop_prefix p k

All-drop : (n : ℕ) (k : Bytes) → All IsByte k → All IsByte (drop n k)
All-drop zero k h = h
All-drop (suc n) [] h = tt
All-drop (suc n) (b ∷ k) h = All-drop n k h.1

-- The bytes after the prefix are those of the slot.
suffix-slot :
    (k : Bytes) (slot : ℕ)
    → length k ≡ 8
    → All IsByte k
    → slot < 2 ^ 64
    → (slot == of_be 0 k) ≡ same_key k (be_bytes 8 slot)
suffix-slot k slot len bytes small = elim (Bool-cases (slot == of_be 0 k)) [
  | inl same ↦
      let here : slot ≡ of_be 0 k = ground arith in
      let whole : be_bytes 8 slot ≡ k =
        ap (λ (n : ℕ). be_bytes 8 n) here ∙ be_bytes-of_be k len bytes in
      same ∙ sym (rw whole (same_key_self k))
  | inr apart ↦ elim (Bool-cases (same_key k (be_bytes 8 slot))) [
    | inl same ↦
        let whole : k ≡ be_bytes 8 slot = same_key→≡ k (be_bytes 8 slot) same in
        let here : of_be 0 k ≡ slot =
          ap (λ (b : Bytes). of_be 0 b) whole ∙ of_be-be_bytes slot small in
        absurd (ground arith)
    | inr other_key ↦ apart ∙ sym other_key
  ]
]

-- A key that fits lies in the range.
in_range :
    (p k : Bytes)
    → length k ≡ 8
    → All IsByte k
    → (not (lt_key (p ++ k) (p ++ be_bytes 8 0))
        && not (lt_key (p ++ be_bytes 8 (2 ^ 64 - 1)) (p ++ k)))
      ≡ true
unfolding be_bytes
in_range p k len bytes =
    let low : lt_key k (be_bytes 8 0) ≡ false =
      subst (λ (n : ℕ). lt_key k (replicate n 0) ≡ false) len (lowest k) in
    let high : lt_key (be_bytes 8 (2 ^ 64 - 1)) k ≡ false =
      subst (λ (n : ℕ). lt_key (replicate n 255) k ≡ false) len (highest k bytes) in
    rw (lt_key-append p k (be_bytes 8 0), lt_key-append p (be_bytes 8 (2 ^ 64 - 1)) k, low, high)
      refl

abbrev is_in_range : Bytes → Bytes → Bool
is_in_range p k =
    not (lt_key k (p ++ be_bytes 8 0)) && not (lt_key (p ++ be_bytes 8 (2 ^ 64 - 1)) k)

-- The key is taken by the range and by the loop, and gives this slot.
abbrev gives : Bytes → ℕ → Bytes → Bool
gives p slot k = is_in_range p k && (fits k p && slot == of_be 0 (drop (length p) k))

fits-append : (p s : Bytes) → length s ≡ 8 → fits (p ++ s) p ≡ true
fits-append p s len = ground (arith, starts_with-append p s, length-append p s)

gives-append :
    (p s : Bytes) (slot : ℕ)
    → length s ≡ 8
    → All IsByte s
    → slot < 2 ^ 64
    → gives p slot (p ++ s) ≡ same_key (p ++ s) (p ++ be_bytes 8 slot)
gives-append p s slot len bytes small =
    rw
      (
        in_range p s len bytes,
        fits-append p s len,
        drop_prefix p s,
        same_key-append p s (be_bytes 8 slot),
      )
      (suffix-slot s slot len bytes small)

fit_length : (k p : Bytes) → fits k p ≡ true → length k ≡ length p + 8
fit_length k p fit = ground arith

gives-key :
    (p k : Bytes) (slot : ℕ)
    → All IsByte k
    → slot < 2 ^ 64
    → gives p slot k ≡ same_key k (p ++ be_bytes 8 slot)
gives-key p k slot bytes small = elim (Bool-cases (fits k p)) [
  | inl fit ↦
      let whole : k ≡ p ++ drop (length p) k = starts_with-drop k p (ground arith) in
      let len : length (drop (length p) k) ≡ 8 = omega (
        arith,
        ap (λ (b : Bytes). length b) whole,
        length-append p (drop (length p) k),
        fit_length k p fit,
      ) in
      subst (λ (b : Bytes). gives p slot b ≡ same_key b (p ++ be_bytes 8 slot)) (sym whole)
        (gives-append p (drop (length p) k) slot len (All-drop (length p) k bytes) small)
  | inr unfit ↦ elim (Bool-cases (same_key k (p ++ be_bytes 8 slot))) [
    | inl same ↦
        let whole : k ≡ p ++ be_bytes 8 slot = same_key→≡ k (p ++ be_bytes 8 slot) same in
        let fit : fits k p ≡ true = rw whole (fits-append p (be_bytes 8 slot) (length-be8 slot)) in
        absurd (cc)
    | inr differs ↦ ground arith
  ]
]

member-step :
    (p k : Bytes) (ks : KeyTable) (slot : ℕ) (b : Bool)
    → is_member slot (slots_of p (if b then k ∷ ks else ks))
      ≡ ((b && (fits k p && slot == of_be 0 (drop (length p) k))) || is_member slot (slots_of p ks))
unfolding slots_of is_member
member-step p k ks slot false = refl
member-step p k ks slot true = elim (Bool-cases (fits k p)) [
  | inl fit ↦ rw fit refl
  | inr unfit ↦ rw unfit refl
]

member-range :
    (p : Bytes) (table : KeyTable) (slot : ℕ)
    → All (λ (k : Bytes). All IsByte k) table
    → slot < 2 ^ 64
    → is_member slot
        (slots_of p (range_keys (p ++ be_bytes 8 0) (p ++ be_bytes 8 (2 ^ 64 - 1)) table))
      ≡ has_key table (p ++ be_bytes 8 slot)
unfolding range_keys has_key slots_of is_member
member-range p [] slot bytes small = refl
member-range p (k ∷ ks) slot bytes small =
    member-step p k (range_keys (p ++ be_bytes 8 0) (p ++ be_bytes 8 (2 ^ 64 - 1)) ks) slot
      (is_in_range p k)
    ∙ rw (gives-key p k slot bytes.0 small, member-range p ks slot bytes.1 small) refl

-- The lookup of a value finds exactly the slots whose key is in the index: not those of a longer
-- value that starts in the same way, whatever else the index holds. The keys are bytes, the slot a
-- `u64`.
pub member-lookup :
    (to_lowercase : List ℕ → List ℕ) (table : KeyTable) (prop : ℕ) (value : IndexValue) (slot : ℕ)
    → All (λ (k : Bytes). All IsByte k) table
    → slot < 2 ^ 64
    → is_member slot (lookup to_lowercase table prop value)
      ≡ has_key table (index_key to_lowercase prop value slot)
unfolding lookup index_key
member-lookup to_lowercase table prop value slot bytes small =
    member-range (index_prefix to_lowercase prop value) table slot bytes small
