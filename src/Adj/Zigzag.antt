-- ===== src/Adj/Zigzag.antt =====
-- crates/topodb/src/adj.rs: `zigzag` and `unzigzag` against one another.
use topo_db.Prelude.{
  ℕ, ◌-◌, ◌*◌, ◌/◌, ◌%◌, ◌^◌, ◌≤◌, ◌<◌, ◌≡◌, ◌∙◌, arith, inl, inr, ltb, ltb→lt, ◌==◌, Bool-cases,
}
use topo_db.Prelude.Bits.{bit_xor_zeros, bit_xor_ones}
use topo_db.Adj.Codec.{IsU64, u64_mod, zigzag, unzigzag}

-- The patterns below 2 ^ 63 are the numbers from 0 on, and map to the even numbers.
pub zigzag_nonneg : (v : ℕ) → v < 2 ^ 63 → zigzag v ≡ v * 2
unfolding zigzag
zigzag_nonneg v h = ground (arith, bit_xor_zeros 64 (v * 2 % u64_mod) (omega arith))

-- The others stand for `v - 2 ^ 64`, and map to the odd numbers, -1 to 1.
pub zigzag_neg : (v : ℕ) → 2 ^ 63 ≤ v → IsU64 v → zigzag v ≡ (u64_mod - v) * 2 - 1
unfolding zigzag
zigzag_neg v h k = ground (arith, bit_xor_ones 64 (v * 2 % u64_mod) (omega arith))

unzigzag_even : (v : ℕ) → IsU64 v → v % 2 ≡ 0 → unzigzag v ≡ v / 2
unfolding unzigzag
unzigzag_even v h e = rw e (bit_xor_zeros 64 (v / 2) (omega arith))

unzigzag_odd : (v : ℕ) → IsU64 v → v % 2 ≡ 1 → unzigzag v ≡ u64_mod - 1 - v / 2
unfolding unzigzag
unzigzag_odd v h e = rw e (bit_xor_ones 64 (v / 2) (omega arith))

-- Decoding gives back every `i64`.
pub unzigzag-zigzag : (v : ℕ) → IsU64 v → unzigzag (zigzag v) ≡ v
unzigzag-zigzag v h = elim (Bool-cases (ltb v (2 ^ 63))) [
  | inl low ↦
      let e : zigzag v ≡ v * 2 = zigzag_nonneg v (ltb→lt _ _ low) in
      omega (arith, unzigzag_even (zigzag v), e, ltb→lt _ _ low)
  | inr high ↦
      let p : 2 ^ 63 ≤ v = ground arith in
      let e : zigzag v ≡ (u64_mod - v) * 2 - 1 = zigzag_neg v p h in
      omega (arith, unzigzag_odd (zigzag v), e)
]

-- Every `u64` is the code of one `i64`.
zigzag-unzigzag : (v : ℕ) → IsU64 v → zigzag (unzigzag v) ≡ v
zigzag-unzigzag v h = elim (Bool-cases (v % 2 == 0)) [
  | inl even ↦
      let r : v % 2 ≡ 0 = ground arith in
      rw (unzigzag_even v h r) (zigzag_nonneg (v / 2) (omega arith) ∙ omega arith)
  | inr odd ↦
      let r : v % 2 ≡ 1 = ground arith in
      rw (unzigzag_odd v h r)
        (zigzag_neg (u64_mod - 1 - v / 2) (omega arith) (omega arith) ∙ omega arith)
]

-- A code is a `u64` again.
pub zigzag-IsU64 : (v : ℕ) → IsU64 v → IsU64 (zigzag v)
zigzag-IsU64 v h = elim (Bool-cases (ltb v (2 ^ 63))) [
  | inl low ↦ omega (arith, zigzag_nonneg v, ltb→lt _ _ low)
  | inr high ↦ let p : 2 ^ 63 ≤ v = ground arith in omega (arith, zigzag_neg v p h)
]
