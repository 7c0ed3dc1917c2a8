-- ===== src/Prelude/Result.antt =====
-- A call that may raise: its value or the exception.
use mathlib.Core.Logic.{◌⊎◌, inl, inr}
use mathlib.Core.Path.{◌≡◌, refl}
use native.Mathlib.Omega.{arith}
use mathlib.Core.Bool.{Bool, true, false}

pub data Result {ℓ} (E A : Type ℓ) : Type ℓ where
  ok : A → Result E A
  err : E → Result E A

infixl 5 ◌>>=◌ ◌>>◌
abbrev pub ◌>>=◌ {ℓ} : {E A B : Type ℓ} → Result E A → (A → Result E B) → Result E B
ok a >>= f = f a
err e >>= f = err e

abbrev pub ◌>>◌ {ℓ} : {E B : Type ℓ} → Result E (Unit {ℓ}) → Result E B → Result E B
m >> k = m >>= λ _. k

-- `if not test: raise e`
abbrev pub require {ℓ} : {E : Type ℓ} → Bool → E → Result E (Unit {ℓ})
require true e = ok tt
require false e = err e

abbrev pub is_ok {ℓ} : {E A : Type ℓ} → Result E A → Bool
is_ok (ok _) = true
is_ok (err _) = false

pub Result-cases {ℓ} :
    {E A : Type ℓ} (r : Result E A) → ((a : A) × (r ≡ ok a)) ⊎ ((e : E) × (r ≡ err e))
Result-cases (ok a) = inl (a, refl)
Result-cases (err e) = inr (e, refl)

module _ {ℓ} {E A B : Type ℓ} where
  -- Inversion of a bind that returns.
  pub bind_ok :
      (m : Result E A) (f : A → Result E B) {b : B}
      → (m >>= f) ≡ ok b
      → (a : A) × (m ≡ ok a) × (f a ≡ ok b)
  bind_ok (ok a) f h = (a, refl, h)
  bind_ok (err e) f h = absurd (ground arith)

module _ {ℓ} {E A : Type ℓ} where
  pub ok_injective : {a b : A} → ◌≡◌ {A = Result E A} (ok a) (ok b) → a ≡ b
  ok_injective h = cc
