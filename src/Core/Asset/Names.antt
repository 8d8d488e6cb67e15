-- ===== src/Core/Asset/Names.antt =====
-- Asset names: `from_str` reads back what `as_str` prints, in any case of the letters.
use naivolt.Base.{◌≡◌, refl, ◌↔◌, inl, inr, some, ok, Option-cases, arith}
use naivolt.Base.Text.{Text, to_upper, text_eq, match_text, match_text_All}
use naivolt.Core.Asset.{Asset, as_str, asset_arms, from_str, asset_index}

match-as_str : (a : Asset) → match_text (as_str a) asset_arms ≡ some a
unfolding as_str match_text text_eq
match-as_str Asset.ngn = refl
match-as_str _ = refl

match-asset : (s : Text) {a : Asset} → match_text s asset_arms ≡ some a → s ≡ as_str a
unfolding as_str
match-asset s e = match_text_All (λ t b. t ≡ as_str b) s asset_arms (ground arith) e

-- A text is read as the asset `a` exactly when its upper-case form is the printed name of `a`: the
-- case of the letters does not matter, and no other text is read as `a`.
pub from_str_iff : (s : Text) (a : Asset) → (from_str s ≡ ok a) ↔ (to_upper s ≡ as_str a)
unfolding from_str
from_str_iff s a = (to, back)
  where
    to : from_str s ≡ ok a → to_upper s ≡ as_str a
    to e = elim (Option-cases (match_text (to_upper s) asset_arms)) [
      | inl q ↦ ground arith
      | inr (b, q) ↦ match-asset (to_upper s) (ground arith)
    ]

    back : to_upper s ≡ as_str a → from_str s ≡ ok a
    back e = ground (arith, match-as_str a)

pub asset_index-injective : (a b : Asset) → asset_index a ≡ asset_index b → a ≡ b
unfolding asset_index
asset_index-injective a b h = ground arith
