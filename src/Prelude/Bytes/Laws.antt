-- ===== src/Prelude/Bytes/Laws.antt =====
-- Byte strings: the order of keys with a common prefix, and numbers of eight bytes.
use topo_db.Prelude.{
  ℕ, ◌+◌, ◌*◌, ◌/◌, ◌%◌, ◌^◌, ◌<◌, ◌≡◌, refl, inl, inr, arith, true, false, ◌&&◌, ◌||◌, not,
  Bool-cases, [], ◌∷◌, ◌++◌, length, drop, All, replicate,
}
use topo_db.Prelude.Bytes.{
  Bytes, be_bytes, of_be, same_key, lt_key, starts_with, KeyTable, has_key, insert_key, remove_key,
}

abbrev pub IsByte : ℕ → Type 0
IsByte b = b < 256

pub same_key_self : (k : Bytes) → same_key k k ≡ true
unfolding same_key
same_key_self [] = refl
same_key_self (b ∷ k) = ground (arith, same_key_self k)

pub same_key→≡ : (j k : Bytes) → same_key j k ≡ true → j ≡ k
unfolding same_key
same_key→≡ [] [] h = refl
same_key→≡ [] (b ∷ k) h = absurd (cc)
same_key→≡ (a ∷ j) [] h = absurd (cc)
same_key→≡ (a ∷ j) (b ∷ k) h =
    let heads : a ≡ b = ground arith in
    let tails : same_key j k ≡ true = ground arith in λ i. heads i ∷ same_key→≡ j k tails i

pub same_key-append : (p j k : Bytes) → same_key (p ++ j) (p ++ k) ≡ same_key j k
unfolding same_key
same_key-append [] j k = refl
same_key-append (b ∷ p) j k = ground (arith, same_key-append p j k)

pub lt_key-append : (p j k : Bytes) → lt_key (p ++ j) (p ++ k) ≡ lt_key j k
unfolding lt_key
lt_key-append [] j k = refl
lt_key-append (b ∷ p) j k = ground (arith, lt_key-append p j k)

pub starts_with-append : (p k : Bytes) → starts_with (p ++ k) p ≡ true
unfolding starts_with
starts_with-append [] k = refl
starts_with-append (b ∷ p) k = ground (arith, starts_with-append p k)

pub starts_with-drop : (key p : Bytes) → starts_with key p ≡ true → key ≡ p ++ drop (length p) key
unfolding starts_with
starts_with-drop key [] h = refl
starts_with-drop [] (b ∷ p) h = absurd (cc)
starts_with-drop (a ∷ key) (b ∷ p) h =
    let heads : a ≡ b = ground arith in
    let tails : starts_with key p ≡ true = ground arith in
    λ i. heads i ∷ starts_with-drop key p tails i

pub lowest : (k : Bytes) → lt_key k (replicate (length k) 0) ≡ false
unfolding lt_key
lowest [] = refl
lowest (b ∷ k) = ground (arith, lowest k)

pub highest : (k : Bytes) → All IsByte k → lt_key (replicate (length k) 255) k ≡ false
unfolding lt_key
highest [] h = refl
highest (b ∷ k) h = ground (arith, highest k h.1)

-- The number of eight bytes, both ways.
pub of_be-be_bytes : (n : ℕ) → n < 2 ^ 64 → of_be 0 (be_bytes 8 n) ≡ n
unfolding of_be be_bytes
of_be-be_bytes n h = omega arith

-- Eight digits to the base 256.
abbrev horner : ℕ → ℕ → ℕ → ℕ → ℕ → ℕ → ℕ → ℕ → ℕ
horner a b c d e f g h =
    (((((((0 + a) * 256 + b) * 256 + c) * 256 + d) * 256 + e) * 256 + f) * 256 + g) * 256 + h

be_bytes-horner :
    (a b c d e f g h : ℕ)
    → a < 256
    → b < 256
    → c < 256
    → d < 256
    → e < 256
    → f < 256
    → g < 256
    → h < 256
    → be_bytes 8 (horner a b c d e f g h) ≡ a ∷ (b ∷ (c ∷ (d ∷ (e ∷ (f ∷ (g ∷ (h ∷ [])))))))
unfolding be_bytes
be_bytes-horner a b c d e f g h ha hb hc hd he hf hg hh =
    let n = horner a b c d e f g h in
    let pa : n / 256 ^ 7 % 256 ≡ a = omega arith in
    let pb : n / 256 ^ 6 % 256 ≡ b = omega arith in
    let pc : n / 256 ^ 5 % 256 ≡ c = omega arith in
    let pd : n / 256 ^ 4 % 256 ≡ d = omega arith in
    let pe : n / 256 ^ 3 % 256 ≡ e = omega arith in
    let pf : n / 256 ^ 2 % 256 ≡ f = omega arith in
    let pg : n / 256 ^ 1 % 256 ≡ g = omega arith in
    let ph : n / 256 ^ 0 % 256 ≡ h = omega arith in
    λ i. pa i ∷ (pb i ∷ (pc i ∷ (pd i ∷ (pe i ∷ (pf i ∷ (pg i ∷ (ph i ∷ [])))))))

pub be_bytes-of_be : (k : Bytes) → length k ≡ 8 → All IsByte k → be_bytes 8 (of_be 0 k) ≡ k
unfolding of_be
be_bytes-of_be (a ∷ (b ∷ (c ∷ (d ∷ (e ∷ (f ∷ (g ∷ (h ∷ [])))))))) len bytes =
    be_bytes-horner a b c d e f g h bytes.0 bytes.1.0 bytes.1.1.0 bytes.1.1.1.0 bytes.1.1.1.1.0
      bytes.1.1.1.1.1.0 bytes.1.1.1.1.1.1.0 bytes.1.1.1.1.1.1.1.0
be_bytes-of_be k len bytes = absurd (omega arith)

-- Two keys of which neither is below the other are the same.
lt_key-total : (j k : Bytes) → lt_key j k ≡ false → lt_key k j ≡ false → j ≡ k
unfolding lt_key
lt_key-total [] [] h g = refl
lt_key-total [] (b ∷ k) h g = absurd (cc)
lt_key-total (a ∷ j) [] h g = absurd (cc)
lt_key-total (a ∷ j) (b ∷ k) h g =
    let heads : a ≡ b = ground arith in
    let up : lt_key j k ≡ false = ground arith in
    let down : lt_key k j ≡ false = ground arith in λ i. heads i ∷ lt_key-total j k up down i

pub has_key-insert_key :
    (table : KeyTable) (k j : Bytes)
    → has_key (insert_key table k) j ≡ (same_key k j || has_key table j)
unfolding has_key insert_key
has_key-insert_key [] k j = refl
has_key-insert_key (i ∷ ks) k j = elim (Bool-cases (lt_key k i)) [
  | inl before ↦ rw before refl
  | inr here ↦ elim (Bool-cases (lt_key i k)) [
    | inl after ↦ rw (here, after) (ground (arith, has_key-insert_key ks k j))
    | inr same ↦
        let whole : k ≡ i = lt_key-total k i here same in rw (here, same, whole) (ground arith)
  ]
]

apart_sym : (k j i : Bytes) → i ≡ j → same_key i k ≡ false → same_key k j ≡ false
apart_sym k j i whole apart = elim (Bool-cases (same_key k j)) [
  | inl same ↦
      let other : k ≡ j = same_key→≡ k j same in
      let self : same_key i k ≡ true = rw (whole, other) (same_key_self j) in absurd (cc)
  | inr differs ↦ differs
]

pub has_key-remove_key :
    (table : KeyTable) (k j : Bytes)
    → has_key (remove_key table k) j ≡ (not (same_key k j) && has_key table j)
unfolding has_key remove_key
has_key-remove_key [] k j = ground arith
has_key-remove_key (i ∷ ks) k j = elim (Bool-cases (same_key i k)) [
  | inl same ↦
      let whole : i ≡ k = same_key→≡ i k same in
      rw same (ground (arith, has_key-remove_key ks k j, whole))
  | inr apart ↦ elim (Bool-cases (same_key i j)) [
    | inl hit ↦
        let whole : i ≡ j = same_key→≡ i j hit in
        rw apart (ground (arith, has_key-remove_key ks k j, hit, apart_sym k j i whole apart))
    | inr miss ↦ rw apart (ground (arith, has_key-remove_key ks k j, miss))
  ]
]

pub append-same_tail : (p q a b : Bytes) → length p ≡ length q → p ++ a ≡ q ++ b → a ≡ b
append-same_tail [] [] a b len h = h
append-same_tail [] (y ∷ q) a b len h = absurd (omega arith)
append-same_tail (x ∷ p) [] a b len h = absurd (omega arith)
append-same_tail (x ∷ p) (y ∷ q) a b len h = append-same_tail p q a b (omega arith) (cc)
