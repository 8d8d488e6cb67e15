-- ===== src/Base/Text/Match.antt =====
-- Equality of texts, and a `match` of a text against literals.
use Prim.Native.Nat.{ℕ}
use mathlib.Core.Path.{◌≡◌, refl, sym, subst₂}
use mathlib.Core.Logic.{◌↔◌, inl, inr}
use mathlib.Core.Bool.{Bool, true, false, ◌&&◌}
use mathlib.Core.Option.{Option, none, some}
use mathlib.Core.List.{List, [], ◌∷◌}
use native.Mathlib.Omega.{arith}
use naivolt.Base.Tests.{Bool-cases, ◌==◌, if◌then◌else◌}
use naivolt.Base.Lists.{All}

abbrev pub Text : Type 0
Text = List ℕ

unfoldable pub text_eq : Text → Text → Bool
text_eq [] [] = true
text_eq [] (y ∷ ys) = false
text_eq (x ∷ xs) [] = false
text_eq (x ∷ xs) (y ∷ ys) = x == y && text_eq xs ys

pub text_eq-to : (s t : Text) → text_eq s t ≡ true → s ≡ t
unfolding text_eq
text_eq-to [] [] h = refl
text_eq-to [] (y ∷ ys) h = cc
text_eq-to (x ∷ xs) [] h = cc
text_eq-to (x ∷ xs) (y ∷ ys) h = ground (arith, text_eq-to xs ys)

pub text_eq_refl : (s : Text) → text_eq s s ≡ true
unfolding text_eq
text_eq_refl [] = refl
text_eq_refl (x ∷ xs) = ground (arith, text_eq_refl xs)

pub text_eq_iff : (s t : Text) → (text_eq s t ≡ true) ↔ (s ≡ t)
text_eq_iff s t = (text_eq-to s t, λ e. rw e (text_eq_refl t))

-- A `match` of a text against string literals: the value of the first arm that fits.
unfoldable pub match_text {ℓ} : {A : Type ℓ} → Text → List (Text × A) → Option A
match_text s [] = none
match_text s ((t, a) ∷ arms) = if text_eq s t then some a else match_text s arms

-- What holds of every arm holds of the matched text and its value.
pub match_text_All {ℓ κ} :
    {A : Type ℓ} (P : Text → A → Type κ) (s : Text) {a : A} (arms : List (Text × A))
    → All (λ arm. P arm.0 arm.1) arms
    → match_text s arms ≡ some a
    → P s a
unfolding match_text
match_text_All P s [] h e = cc
match_text_All P s {a} ((t, b) ∷ arms) h e = elim (Bool-cases (text_eq s t)) [
  | inl q ↦ let same : b ≡ a = ground arith in subst₂ P (sym (text_eq-to s t q)) same h.0
  | inr q ↦ match_text_All P s arms h.1 (ground arith)
]
