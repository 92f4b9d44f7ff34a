-- ===== src/Prelude/Fallible.antt =====
-- A result with an error, for the pair `(value, error)` of the code.
use mathlib.Core.Path.{◌≡◌, refl}
use mathlib.Core.Logic.{◌⊎◌, inl, inr}
use mathlib.Core.Bool.{Bool, true, false}

pub data Result {ℓ κ} (E : Type ℓ) (A : Type κ) : Type (ℓ ⊔ κ) where
  ok : A → Result E A
  err : E → Result E A

-- `if bad { return e }`
abbrev pub fail_if {ℓ} : {E : Type ℓ} → Bool → E → Result E (Unit {0})
fail_if true e = err e
fail_if false e = ok tt

module _ {ℓ κ} {E : Type ℓ} {A : Type κ} where
  pub Result-cases : (r : Result E A) → ((a : A) × (r ≡ ok a)) ⊎ ((e : E) × (r ≡ err e))
  Result-cases (ok a) = inl (a, refl)
  Result-cases (err e) = inr (e, refl)

  module _ {ι} {B : Type ι} where
    infixl 5 ◌>>=◌
    abbrev pub ◌>>=◌ : Result E A → (A → Result E B) → Result E B
    ok a >>= next = next a
    err e >>= next = err e

    -- A chain that succeeds passed its first step.
    pub >>=-eq-ok :
        (r : Result E A) (next : A → Result E B) {b : B}
        → (r >>= next) ≡ ok b
        → (a : A) × (r ≡ ok a) × (next a ≡ ok b)
    >>=-eq-ok (err e) next chain = cc
    >>=-eq-ok (ok a) next chain = (a, refl, chain)

infixl 5 ◌>>◌
abbrev pub ◌>>◌ {ℓ ι} : {E : Type ℓ} {B : Type ι} → Result E (Unit {0}) → Result E B → Result E B
check >> after = check >>= λ _. after
