-- ===== src/Auth/Tier.antt =====
-- crates/auth/src/tier.rs: what each tier of verification may withdraw.
pub mod Caps
use naivolt.Base.{ℕ, ◌*◌, Bool, true, false, Option, none, some, is_some, ◌==◌, if◌then◌else◌}
use naivolt.Base.Int.{ℤ, pos, negsuc, ◌-ℤ◌, ltb_ℤ, max_zero, unit}
use naivolt.Base.Text.{Text, codes}

pub data KycTier : Type 0 where
  tier0 tier1 tier2 tier3 : KycTier

unfoldable pub from_i16 : ℤ → Option KycTier
from_i16 (negsuc v) = none
from_i16 (pos v) =
    if v == 0
    then some tier0
    else if v == 1
    then some tier1
    else if v == 2
    then some tier2
    else if v == 3
    then some tier3
    else none

unfoldable pub as_i16 : KycTier → ℤ
as_i16 tier0 = pos 0
as_i16 tier1 = pos 1
as_i16 tier2 = pos 2
as_i16 tier3 = pos 3

-- Naira per rolling day; `none` where nothing may be withdrawn.
unfoldable pub daily_payout_cap : KycTier → Option ℤ
daily_payout_cap tier0 = none
daily_payout_cap tier1 = some (pos (50000 * unit))
daily_payout_cap tier2 = some (pos (500000 * unit))
daily_payout_cap tier3 = some (pos (5000000 * unit))

unfoldable pub can_withdraw : KycTier → Bool
can_withdraw t = is_some (daily_payout_cap t)

unfoldable pub next_step : KycTier → Option Text
next_step tier0 = some (codes "Verify your BVN to withdraw to your bank account")
next_step tier1 = some (codes "Add your NIN and take a selfie to raise your limit")
next_step tier2 = some (codes "Upload proof of address to raise your limit")
next_step tier3 = none

pub data PayoutCheck : Type 0 where
  allowed : PayoutCheck
  kyc_required : Text → PayoutCheck
  exceeds_daily_cap : ℤ → ℤ → ℤ → PayoutCheck

-- `next_step().unwrap_or("Verify your identity")`
abbrev prompt : Option Text → Text
prompt none = codes "Verify your identity"
prompt (some s) = s

unfoldable pub check_payout : KycTier → ℤ → ℤ → PayoutCheck
check_payout t amount used_today = elim (daily_payout_cap t) [
  | none ↦ kyc_required (prompt (next_step t))
  | some cap ↦
      let remaining = cap -ℤ used_today in
      if ltb_ℤ remaining amount
      then exceeds_daily_cap cap used_today (max_zero remaining)
      else allowed
]
