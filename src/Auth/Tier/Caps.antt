-- ===== src/Auth/Tier/Caps.antt =====
-- Withdrawals stay within the cap of the tier.
use naivolt.Base.{◌⊎◌, ◌≡◌, ◌↔◌, refl, false, some, List, [], ◌∷◌, inl, inr, Bool-cases, arith}
use naivolt.Base.Int.{ℤ, ◌+ℤ◌, ◌-ℤ◌, ◌≤ℤ◌, ltb_ℤ, max_zero}
use naivolt.Auth.Tier.{
  codes, next_step, KycTier, tier0, allowed, kyc_required, exceeds_daily_cap, daily_payout_cap,
  can_withdraw, check_payout, from_i16, as_i16,
}

-- A tier is read back from the number it is stored as.
pub from_i16-as_i16 : (t : KycTier) → from_i16 (as_i16 t) ≡ some t
unfolding from_i16 as_i16
from_i16-as_i16 t = ground arith

fits : (cap used amount : ℤ) → (ltb_ℤ (cap -ℤ used) amount ≡ false) ↔ (used +ℤ amount ≤ℤ cap)
unfolding ◌+ℤ◌ ◌-ℤ◌
fits cap used amount = (λ e. ground arith, λ e. ground arith)

-- Where a tier has a cap, a withdrawal is allowed if it fits under the cap together with what was
-- used, and otherwise refused with the cap, the use and what remains, never below zero.
pub check_payout-cap :
    (t : KycTier) (amount used cap : ℤ)
    → daily_payout_cap t ≡ some cap
    → ((check_payout t amount used ≡ allowed) × (used +ℤ amount ≤ℤ cap))
      ⊎ ((check_payout t amount used ≡ exceeds_daily_cap cap used (max_zero (cap -ℤ used)))
          × (¬ (used +ℤ amount ≤ℤ cap)))
unfolding check_payout
check_payout-cap t amount used cap e = elim (Bool-cases (ltb_ℤ (cap -ℤ used) amount)) [
  | inl over ↦ inr (
    rw (e, check_payout) (rw over refl),
    λ h. absurd (ground (arith, (fits cap used amount).1 h)),
  )
  | inr under ↦ inl (rw (e, check_payout) (rw under refl), (fits cap used amount).0 under)
]

-- Withdrawals asked for one after the other in a window, of which the allowed ones are used up.
abbrev pub used_after : KycTier → List ℤ → ℤ → ℤ
used_after t [] used = used
used_after t (amount ∷ amounts) used =
    used_after t amounts (elim (check_payout t amount used) [ allowed ↦ used +ℤ amount | _ ↦ used ])

-- Whatever withdrawals are asked for in a window, in whatever order, those that are allowed stay
-- within the cap of the tier.
pub used_after-within :
    (t : KycTier) (amounts : List ℤ) (used cap : ℤ)
    → daily_payout_cap t ≡ some cap
    → used ≤ℤ cap
    → used_after t amounts used ≤ℤ cap
used_after-within t [] used cap e h = h
used_after-within t (amount ∷ amounts) used cap e h = elim (check_payout-cap t amount used cap e) [
  | inl (fine, below) ↦ rw fine (used_after-within t amounts (used +ℤ amount) cap e below)
  | inr (refused, above) ↦ rw refused (used_after-within t amounts used cap e h)
]

-- Without verification every withdrawal is refused, and the user is told the next step.
pub check_payout-tier0 :
    (amount used : ℤ)
    → (can_withdraw tier0 ≡ false)
      × (check_payout tier0 amount used
          ≡ kyc_required (codes "Verify your BVN to withdraw to your bank account"))
unfolding check_payout can_withdraw daily_payout_cap next_step
check_payout-tier0 amount used = (refl, refl)
