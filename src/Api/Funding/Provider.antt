-- ===== src/Api/Funding/Provider.antt =====
-- crates/api/src/funding_provider.rs: what the provider of card payments says of a charge. The HTTP
-- exchange with Paystack is a parameter: the answer, or an error.
use naivolt.Base.{
  ◌+◌, ◌*◌, ◌^◌, ◌||◌, Bool, true, false, Option, none, some, Result, ok, err, if◌then◌else◌,
}
use naivolt.Base.Int.{ℤ, pos, negsuc, neg}
use naivolt.Base.Text.{Text, codes, text_eq}
use naivolt.Api.Error.{ApiError}

pub data ChargeState : Type 0 where
  pending : ChargeState
  succeeded : ℤ → ChargeState
  failed : Text → ChargeState

-- `VerifyData`, whose amount is in kobo.
pub record VerifyData : Type 0 where
  pub status : Text
  pub amount : ℤ
  pub gateway_response : Option Text

-- `Decimal::from(amount) / Decimal::from(100)`, in units of 10^-18.
abbrev pub from_kobo : ℤ → ℤ
from_kobo (pos n) = pos (n * 10 ^ 16)
from_kobo (negsuc n) = neg (pos ((n + 1) * 10 ^ 16))

-- `verify` of Paystack on the data of a readable answer.
unfoldable pub paystack_state : Option VerifyData → ChargeState
paystack_state none = pending
paystack_state (some d) =
    if text_eq d.status (codes "success")
    then succeeded (from_kobo d.amount)
    else if text_eq d.status (codes "failed") || text_eq d.status (codes "reversed")
    then failed (elim d.gateway_response [
      | none ↦ codes "the bank declined that card"
      | some reason ↦ reason
    ])
    else pending

-- The provider, with what Paystack would answer now about each reference.
pub data AnyFundingProvider : Type 0 where
  paystack : (Text → Result ApiError (Option VerifyData)) → AnyFundingProvider
  stub : AnyFundingProvider

unfoldable pub verify : AnyFundingProvider → Text → ℤ → Result ApiError ChargeState
verify (paystack answers) reference intent_ngn = elim (answers reference) [
  | err e ↦ err e
  | ok d ↦ ok (paystack_state d)
]
verify stub reference intent_ngn = ok (succeeded intent_ngn)

unfoldable pub is_live : AnyFundingProvider → Bool
is_live (paystack answers) = true
is_live stub = false
