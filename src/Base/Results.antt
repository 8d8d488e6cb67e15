-- ===== src/Base/Results.antt =====
-- Outcomes that may be errors: `Result<T, E>`, whose bind is the `?` operator.
use mathlib.Core.Path.{◌≡◌, refl}
use mathlib.Core.Logic.{◌⊎◌, inl, inr}

pub data Result {ℓ κ} (Failure : Type ℓ) (Value : Type κ) : Type (ℓ ⊔ κ) where
  err : Failure → Result Failure Value
  ok : Value → Result Failure Value

module _ {ℓ κ μ} {Failure : Type ℓ} {Value : Type κ} {Next : Type μ} where
  infixl 5 ◌>>=◌
  -- The rest of a chain runs on a value; a failure ends it.
  abbrev pub ◌>>=◌ : Result Failure Value → (Value → Result Failure Next) → Result Failure Next
  outcome >>= rest = elim outcome [ err failure ↦ err failure | ok value ↦ rest value ]

  -- A chain that succeeds succeeded at its first link.
  pub >>=-eq-ok :
      (outcome : Result Failure Value) (rest : Value → Result Failure Next) {final : Next}
      → (outcome >>= rest) ≡ ok final
      → (value : Value) × (outcome ≡ ok value) × (rest value ≡ ok final)
  >>=-eq-ok (err failure) rest h = cc
  >>=-eq-ok (ok value) rest h = (value, refl, h)

module _ {ℓ μ} {Failure : Type ℓ} {Next : Type μ} where
  infixl 5 ◌>>◌
  -- A check whose value carries nothing.
  abbrev pub ◌>>◌ : Result Failure (Unit {0}) → Result Failure Next → Result Failure Next
  check >> rest = check >>= λ done. rest

module _ {ℓ κ} {Failure : Type ℓ} {Value : Type κ} where
  -- Every outcome is one or the other.
  pub Result-cases :
      (outcome : Result Failure Value)
      → ((value : Value) × (outcome ≡ ok value)) ⊎ ((failure : Failure) × (outcome ≡ err failure))
  Result-cases (err failure) = inr (failure, refl)
  Result-cases (ok value) = inl (value, refl)
