-- ===== src/Prelude/Bits.antt =====
-- Laws of the bit operations at variables: `|` of disjoint fields, and `^` with a full mask, at
-- every width. The native operations stand for a recursion on binary digits.
use Prim.Native.Nat.{
  ℕ, zero, suc, ◌+◌, ◌-◌, ◌*◌, ◌/◌, ◌%◌, ◌^◌, ◌≤◌, ◌<◌, max, bit_and, bit_or, bit_xor, digits,
  bit_or-bitwise, bit_xor-bitwise, differ,
}
use mathlib.Core.Path.{◌≡◌, refl, ap, ◌∙◌}
use mathlib.Core.Logic.{inl, inr}
use native.Mathlib.Nat.{pow-suc, one-le-pow}
use native.Mathlib.Omega.{arith}
use topo_db.Prelude.Tests.{◌==◌, ==_iff, leb, leb→le, Bool-cases}
use mathlib.Core.Bool.{Bool, true, ◌&&◌}

-- Fuel beyond the first number changes nothing.
spare_fuel :
    (z : ℕ → ℕ) (f : ℕ → ℕ → ℕ) (fuel a b : ℕ)
    → a ≤ fuel
    → digits z f (suc fuel) a b ≡ digits z f fuel a b
spare_fuel z f zero zero b h = refl
spare_fuel z f zero (suc a) b h = elim h [ ]
spare_fuel z f (suc fuel) zero b h = refl
spare_fuel z f (suc fuel) (suc a) b h =
    ap (λ (t : ℕ). t * 2 + f (suc a % 2) (b % 2))
      (spare_fuel z f fuel (suc a / 2) (b / 2) (omega arith))

exact_fuel :
    (z : ℕ → ℕ) (f : ℕ → ℕ → ℕ) (fuel a b : ℕ) → a ≤ fuel → digits z f fuel a b ≡ digits z f a a b
exact_fuel z f zero zero b h = refl
exact_fuel z f zero (suc a) b h = elim h [ ]
exact_fuel z f (suc fuel) a b h = elim (Bool-cases (leb a fuel)) [
  | inl fits ↦ spare_fuel z f fuel a b (leb→le _ _ fits) ∙ exact_fuel z f fuel a b (leb→le _ _ fits)
  | inr full ↦ let same : suc fuel ≡ a = ground arith in ap (λ (n : ℕ). digits z f n a b) same
]

bit_or_low : (c d : ℕ) → bit_or c d ≡ max (c % 2) (d % 2) + 2 * bit_or (c / 2) (d / 2)
bit_or_low zero b = omega (arith, bit_or-bitwise 0 b, bit_or-bitwise 0 (b / 2))
bit_or_low (suc a) b = omega (
  arith,
  bit_or-bitwise (suc a) b,
  bit_or-bitwise (suc a / 2) (b / 2),
  exact_fuel (λ y. y) max a (suc a / 2) (b / 2) (omega arith),
)

-- `a | (b << s)` is a sum when `a` fits the low `s` bits.
pub bit_or_shifted : (s a b : ℕ) → a < 2 ^ s → bit_or a (b * 2 ^ s) ≡ a + b * 2 ^ s
bit_or_shifted zero zero b h = ground (arith, bit_or-bitwise 0 (b * 1))
bit_or_shifted zero (suc a) b h = absurd (omega arith)
bit_or_shifted (suc s) a b h = ground (
  arith,
  pow-suc 2 s,
  ap (λ (t : ℕ). b * t) (pow-suc 2 s),
  bit_or_low a (b * 2 ^ suc s),
  bit_or_shifted s (a / 2) b (omega (arith, pow-suc 2 s)),
)

bit_xor_low : (a b : ℕ) → bit_xor a b ≡ bit_xor (a / 2) (b / 2) * 2 + differ (a % 2) (b % 2)
bit_xor_low zero b = omega (arith, bit_xor-bitwise 0 b, bit_xor-bitwise 0 (b / 2))
bit_xor_low (suc a) b = omega (
  arith,
  bit_xor-bitwise (suc a) b,
  bit_xor-bitwise (suc a / 2) (b / 2),
  exact_fuel (λ y. y) differ a (suc a / 2) (b / 2) (omega arith),
)

differ-zero : (x : ℕ) → differ x 0 ≡ x
differ-zero zero = refl
differ-zero (suc x) = refl

differ-one : (x y : ℕ) → x < 2 → y ≡ 1 → differ x y ≡ 1 - x
differ-one zero y h e = ground arith
differ-one (suc zero) (suc y) h e = ground arith
differ-one (suc zero) zero h e = absurd (omega arith)
differ-one (suc (suc x)) y h e = absurd (omega arith)

-- `^` with 0 keeps a `k`-bit number, and `^` with `k` ones takes it from `2 ^ k - 1`.
pub bit_xor_zeros : (k a : ℕ) → a < 2 ^ k → bit_xor a 0 ≡ a
bit_xor_zeros zero zero h = refl
bit_xor_zeros zero (suc a) h = absurd (omega arith)
bit_xor_zeros (suc k) a h = omega (
  arith,
  bit_xor_low a 0,
  differ-zero (a % 2),
  bit_xor_zeros k (a / 2) (omega (arith, pow-suc 2 k)),
)

half_ones : (k : ℕ) → (2 ^ suc k - 1) / 2 ≡ 2 ^ k - 1
half_ones k = omega (arith, pow-suc 2 k, one-le-pow k 2)

pub bit_xor_ones : (k a : ℕ) → a < 2 ^ k → bit_xor a (2 ^ k - 1) ≡ 2 ^ k - 1 - a
bit_xor_ones zero zero h = refl
bit_xor_ones zero (suc a) h = absurd (omega arith)
bit_xor_ones (suc k) a h = ground (
  arith,
  pow-suc 2 k,
  one-le-pow k 2,
  bit_xor_low a (2 ^ suc k - 1),
  half_ones k,
  differ-one (a % 2) ((2 ^ suc k - 1) % 2),
  bit_xor_ones k (a / 2) (omega (arith, pow-suc 2 k)),
)

-- On one byte the masks of seven bits are tables.
holds_below : (ℕ → Bool) → ℕ → Bool
holds_below p zero = true
holds_below p (suc n) = p n && holds_below p n

holds_below_at : (p : ℕ → Bool) (n : ℕ) → holds_below p n ≡ true → (x : ℕ) → x < n → p x ≡ true
unfolding holds_below
holds_below_at p zero all x h = elim h [ ]
holds_below_at p (suc n) all x h = ground (arith, holds_below_at p n (ground arith) x)

table_eq :
    (f g : ℕ → ℕ) (n : ℕ) → holds_below (λ x. f x == g x) n ≡ true → (x : ℕ) → x < n → f x ≡ g x
table_eq f g n all x h = (==_iff (f x) (g x)).0 (holds_below_at _ n all x h)

pub low_seven : (b : ℕ) → b < 256 → bit_and b 0x7f ≡ b % 128
unfolding holds_below
low_seven = table_eq (λ b. bit_and b 0x7f) (λ b. b % 128) 256 refl

pub top_one : (b : ℕ) → b < 256 → bit_and b 0x80 ≡ b / 128 * 128
unfolding holds_below
top_one = table_eq (λ b. bit_and b 0x80) (λ b. b / 128 * 128) 256 refl

pub set_top : (b : ℕ) → b < 128 → bit_or b 0x80 ≡ b + 128
unfolding holds_below
set_top = table_eq (λ b. bit_or b 0x80) (λ b. b + 128) 128 refl
