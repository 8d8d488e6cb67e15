-- ===== src/Base/Sums.antt =====
-- Sums of signed amounts over the rows that a test selects, as SQL's `SUM … WHERE`.
use mathlib.Core.Path.{◌≡◌, refl}
use mathlib.Core.Bool.{Bool, false}
use mathlib.Core.List.{List, [], ◌∷◌, ◌++◌, map}
use naivolt.Base.Tests.{if◌then◌else◌}
use naivolt.Base.Lists.{All}
use naivolt.Base.Int.{ℤ, pos, ◌+ℤ◌, int_laws, zero-add_ℤ, +ℤ_assoc}

module _ {ℓ} {A : Type ℓ} (amount : A → ℤ) where
  unfoldable pub sum_where : (A → Bool) → List A → ℤ
  sum_where p [] = pos 0
  sum_where p (x ∷ xs) = (if p x then amount x else pos 0) +ℤ sum_where p xs

  pub sum_where-append :
      (p : A → Bool) (xs ys : List A) → sum_where p (xs ++ ys) ≡ sum_where p xs +ℤ sum_where p ys
  unfolding sum_where
  sum_where-append p [] ys = omega int_laws
  sum_where-append p (x ∷ xs) ys = rw (sum_where-append p xs ys, +ℤ_assoc)

  -- Rows that the test refuses add nothing.
  pub sum_where-none :
      (p : A → Bool) (xs : List A) → All (λ x. p x ≡ false) xs → sum_where p xs ≡ pos 0
  unfolding sum_where
  sum_where-none p [] h = refl
  sum_where-none p (x ∷ xs) h = rw (h.0, sum_where-none p xs h.1, zero-add_ℤ)

  -- Only the answers of the test count.
  pub sum_where-ext :
      (p q : A → Bool) (xs : List A) → All (λ x. p x ≡ q x) xs → sum_where p xs ≡ sum_where q xs
  unfolding sum_where
  sum_where-ext p q [] h = refl
  sum_where-ext p q (x ∷ xs) h = rw (h.0, sum_where-ext p q xs h.1)

module _ {ℓ κ} {A : Type ℓ} {B : Type κ} (amount : B → ℤ) (f : A → B) where
  pub sum_where-map :
      (p : B → Bool) (xs : List A)
      → sum_where amount p (map f xs) ≡ sum_where (λ x. amount (f x)) (λ x. p (f x)) xs
  unfolding sum_where
  sum_where-map p [] = refl
  sum_where-map p (x ∷ xs) = rw (sum_where-map p xs)
