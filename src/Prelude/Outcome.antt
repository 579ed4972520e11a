-- ===== src/Prelude/Outcome.antt =====
-- error.rs: the `Result` of the engine's fallible functions, with the errors that carry a message
-- reduced to their kind and the place that raises them.
use Prim.Native.Nat.{ℕ}
use Prim.Native.String.{String}
use mathlib.Core.Path.{◌≡◌, refl, ap}

-- `Compacted` carries the oldest sequence number that the log still holds.
pub data TopoError : Type 0 where
  rejected : String → TopoError
  encoding : String → TopoError
  compacted : ℕ → TopoError

-- A fallible function's result, with errors of the type `E`.
pub data Except {ℓ} (E : Type 0) (A : Type ℓ) : Type ℓ where
  ok : A → Except E A
  err : E → Except E A

abbrev pub Result {ℓ} : Type ℓ → Type ℓ
Result A = Except TopoError A

infixl 5 ◌>>=◌ ◌>>◌
abbrev pub ◌>>=◌ {ℓ κ} :
    {E : Type 0} {A : Type ℓ} {B : Type κ} → Except E A → (A → Except E B) → Except E B
ok a >>= f = f a
err e >>= f = err e

abbrev pub ◌>>◌ {ℓ} : {E : Type 0} {B : Type ℓ} → Except E (Unit {0}) → Except E B → Except E B
m >> k = m >>= λ _. k

-- What a successful chain went through.
pub bind_ok :
    {E A B : Type 0} (m : Except E A) (f : A → Except E B) (b : B)
    → (m >>= f) ≡ ok b
    → (a : A) × (m ≡ ok a) × (f a ≡ ok b)
bind_ok (ok a) f b h = (a, refl, h)
bind_ok (err e) f b h = absurd (cc)

pub ok-injective : {A : Type 0} (d a b : A) → (let x : Result A = ok a in x ≡ ok b) → a ≡ b
ok-injective {A = A} d a b e = ap (λ (r : Result A). elim r [ ok x ↦ x | err _ ↦ d ]) e
