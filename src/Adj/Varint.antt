-- ===== src/Adj/Varint.antt =====
-- crates/topodb/src/adj.rs: `write_varint` and `read_varint`.
use Prim.Native.Nat.{bit_and, bit_or}
use native.Mathlib.Nat.{div-add-mod, pow-suc}
use native.Mathlib.Numerals.{towards_suc}
use mathlib.Core.List.{append_assoc}
use topo_db.Prelude.{
  ℕ, zero, suc, ◌+◌, ◌*◌, ◌/◌, ◌%◌, ◌^◌, ◌≤◌, ◌<◌, ◌≡◌, ap, arith, inl, inr, List, [], ◌∷◌, ◌++◌,
  leb, if◌then◌else◌, Bool-cases, length,
}
use topo_db.Prelude.Bits.{low_seven, top_one, set_top, bit_or_shifted}
use topo_db.Prelude.Outcome.{ok}
use topo_db.Adj.Codec.{
  IsU64, u64_mod, write_varint_loop, write_varint, read_varint_loop, read_varint,
}

-- The bytes of a number below 128 ^ (k + 1): groups of seven bits, lowest first, each but the last
-- with the top bit set.
unfoldable pub groups : ℕ → ℕ → List ℕ
groups zero v = v ∷ []
groups (suc k) v =
    let rest = groups k (v / 128) in if leb 128 v then (v % 128 + 128) ∷ rest else v ∷ []

inner_byte : (v : ℕ) → bit_or (bit_and (v % 256) 0x7f) 0x80 ≡ v % 128 + 128
inner_byte v =
    rw (low_seven (v % 256) (omega arith)) (omega (arith, set_top (v % 256 % 128) (omega arith)))

write_varint_loop-groups :
    (k : ℕ) (out : List ℕ) (v : ℕ) → v < 128 ^ suc k → write_varint_loop k out v ≡ out ++ groups k v
unfolding write_varint_loop groups
write_varint_loop-groups zero out v h = ground arith
write_varint_loop-groups (suc k) out v h = ground (
  arith,
  inner_byte v,
  pow-suc 128 (suc k),
  write_varint_loop-groups k (out ++ (v % 128 + 128) ∷ []) (v / 128)
      (omega (arith, pow-suc 128 (suc k))),
  append_assoc out ((v % 128 + 128) ∷ []) (groups k (v / 128)),
)

-- On every `u64`, `write_varint` keeps what is there and appends the groups.
pub write_varint-groups : (out : List ℕ) (v : ℕ) → IsU64 v → write_varint out v ≡ out ++ groups 9 v
unfolding write_varint
write_varint-groups out v h = write_varint_loop-groups 9 out v (omega arith)

last_round :
    (r b acc s : ℕ) (rest : List ℕ)
    → b < 128
    → acc < 2 ^ s
    → acc + b * 2 ^ s < u64_mod
    → read_varint_loop (suc r) (b ∷ rest) acc s ≡ ok (acc + b * 2 ^ s, rest)
unfolding read_varint_loop
last_round r b acc s rest hb ha fits =
    ground (arith, low_seven b, top_one b, bit_or_shifted s acc b)

inner_round :
    (r g acc s : ℕ) (rest : List ℕ)
    → g < 128
    → s < 63
    → acc < 2 ^ s
    → acc + g * 2 ^ s < u64_mod
    → read_varint_loop (suc r) ((g + 128) ∷ rest) acc s
      ≡ read_varint_loop r rest (acc + g * 2 ^ s) (s + 7)
unfolding read_varint_loop
inner_round r g acc s rest hg hs ha fits =
    ground (arith, low_seven (g + 128), top_one (g + 128), bit_or_shifted s acc g)

seven_more : (s : ℕ) → 2 ^ (s + 7) ≡ 128 * 2 ^ s
seven_more s = simp towards_suc (omega arith)

regroup : (v s : ℕ) → v * 2 ^ s ≡ v % 128 * 2 ^ s + v / 128 * 2 ^ (s + 7)
regroup v s = omega (
  arith,
  ap (λ (t : ℕ). t * 2 ^ s) (div-add-mod v 128),
  ap (λ (t : ℕ). v / 128 * t) (seven_more s),
)

group_fits : (v acc s : ℕ) → acc < 2 ^ s → acc + v % 128 * 2 ^ s < 2 ^ (s + 7)
group_fits v acc s h = grind (arith, seven_more s)

read_varint_loop-groups :
    (k r v acc s : ℕ) (rest : List ℕ)
    → v < 128 ^ suc k
    → k < r
    → s + 7 * r ≡ 70
    → acc < 2 ^ s
    → acc + v * 2 ^ s < u64_mod
    → read_varint_loop r (groups k v ++ rest) acc s ≡ ok (acc + v * 2 ^ s, rest)
unfolding groups
read_varint_loop-groups k zero v acc s rest hv hk hs ha fits = absurd (omega arith)
read_varint_loop-groups zero (suc r) v acc s rest hv hk hs ha fits =
    last_round r v acc s rest (omega arith) ha fits
read_varint_loop-groups (suc k) (suc r) v acc s rest hv hk hs ha fits =
    elim (Bool-cases (leb 128 v)) [
      | inl more ↦ ground (
        arith,
        regroup v s,
        group_fits v acc s ha,
        inner_round r (v % 128) acc s (groups k (v / 128) ++ rest),
        read_varint_loop-groups k r (v / 128) (acc + v % 128 * 2 ^ s) (s + 7) rest
            (omega (arith, pow-suc 128 (suc k))) (omega arith) (omega arith) (group_fits v acc s ha)
            (omega (arith, regroup v s)),
      )
      | inr last ↦ ground (arith, last_round r v acc s rest)
    ]

-- `read_varint` reads back every `u64` that `write_varint` wrote, and leaves what follows.
pub read_varint-write_varint :
    (v : ℕ) (rest : List ℕ) → IsU64 v → read_varint (write_varint [] v ++ rest) ≡ ok (v, rest)
unfolding read_varint
read_varint-write_varint v rest h =
    rw (write_varint-groups [] v h)
      (ground (arith, read_varint_loop-groups 9 10 v 0 0 rest (omega arith)))

pub read_groups :
    (v : ℕ) (rest : List ℕ) → IsU64 v → read_varint (groups 9 v ++ rest) ≡ ok (v, rest)
unfolding read_varint
read_groups v rest h = ground (arith, read_varint_loop-groups 9 10 v 0 0 rest (omega arith))

pub length-groups : (k v : ℕ) → (1 ≤ length (groups k v)) × (length (groups k v) ≤ k + 1)
unfolding groups
length-groups zero v = omega arith
length-groups (suc k) v = ground (arith, length-groups k (v / 128))

read_varint_loop_takes :
    (r : ℕ) (input : List ℕ) (value s v : ℕ) (rest : List ℕ)
    → read_varint_loop r input value s ≡ ok (v, rest)
    → (length rest < length input) × (length input ≤ length rest + r)
unfolding read_varint_loop
read_varint_loop_takes zero input value s v rest e = cc
read_varint_loop_takes (suc r) [] value s v rest e = cc
read_varint_loop_takes (suc r) (b ∷ bs) value s v rest e = ground (
  arith,
  read_varint_loop_takes r bs (bit_or value (bit_and b 0x7f * 2 ^ s % u64_mod)) (s + 7) v rest,
)

-- A successful read takes at least one byte of the input and at most ten.
read_varint_takes :
    (input : List ℕ) (v : ℕ) (rest : List ℕ)
    → read_varint input ≡ ok (v, rest)
    → (length rest < length input) × (length input ≤ length rest + 10)
unfolding read_varint
read_varint_takes input v rest e = read_varint_loop_takes 10 input 0 0 v rest e
