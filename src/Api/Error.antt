-- ===== src/Api/Error.antt =====
-- crates/api/src/error.rs: the errors of the handlers, without the prose of their messages.
use naivolt.Base.Int.{ℤ}
use naivolt.Base.Text.{Text}

pub data ApiError : Type 0 where
  otp_invalid pin_invalid : ℤ → ApiError
  otp_throttled pin_locked rate_limited : ℤ → ApiError
  otp_expired unauthorized : ApiError
  limit_exceeded price_moved : ℤ → ApiError
  kyc_required asset_paused : Text → ApiError
  insufficient_balance quote_expired quote_consumed bank_unverified : ApiError
  service_unavailable bad_request totp_locked operator_disabled refund_cap : ApiError
  recheck_unavailable claim_conflict last_provider conflict not_found internal : ApiError
