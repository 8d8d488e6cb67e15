-- ===== src/Auth/Tests.antt =====
-- Runs of the sign-in code, and instances of its theorems.
mod Pins
use naivolt.Base.{
  ℕ, ◌+◌, ◌*◌, ◌≤◌, ◌≡◌, ◌⊎◌, refl, false, none, some, List, [], ◌∷◌, ◌++◌, ok, arith,
}
use naivolt.Base.Int.{pos, ◌+ℤ◌, ◌-ℤ◌, ◌≤ℤ◌, max_zero, unit}
use naivolt.Base.Text.{text_eq_refl, Text, codes, text_eq}
use naivolt.Auth.Tier.{tier1, allowed, exceeds_daily_cap, daily_payout_cap, check_payout}
use naivolt.Auth.Tier.Caps.{check_payout-cap, used_after, used_after-within}
use naivolt.Auth.Identifier.{
  Identifier, by_phone, only_digits, starts_with, national_number, is_mobile, normalize_ng_phone,
  subject, channel,
}
use naivolt.Auth.Identifier.Phone.{
  IsNational, normalize_ng_phone-spellings, normalize_ng_phone-canonical,
}
use naivolt.Auth.Otp.{Argon2, OtpChallenge, max_attempts, hash_code, new, verify}
use naivolt.Auth.Otp.Attempts.{
  IsOpen, compared, is_compared, comparisons, successes, AcceptsOwn, verify-cases, verify-bounded,
  verify-new,
}

tier1_cap : daily_payout_cap tier1 ≡ some (pos (50000 * unit))
unfolding daily_payout_cap
tier1_cap = refl

used_after-within_example :
    used_after tier1 (pos (30000 * unit) ∷ pos (30000 * unit) ∷ pos (20000 * unit) ∷ []) (pos 0)
    ≤ℤ pos (50000 * unit)
used_after-within_example =
    used_after-within tier1 (pos (30000 * unit) ∷ pos (30000 * unit) ∷ pos (20000 * unit) ∷ [])
      (pos 0) (pos (50000 * unit)) tier1_cap (omega arith)

national : IsNational (codes "8012345678")
unfolding is_mobile
national = record {
  digits = (refl, (refl, (refl, (refl, (refl, (refl, (refl, (refl, (refl, (refl, tt))))))))));
  ten = refl;
  mobile = refl;
}

spaced : normalize_ng_phone (codes "234 801 234 5678") ≡ some (codes "+2348012345678")
unfolding normalize_ng_phone national_number starts_with only_digits text_eq is_mobile
spaced = refl

-- A hash that keeps the code.
abbrev plain : Argon2
plain = record {
  hash_password = λ salt code. ok code;
  verify_password = λ submitted h. ok (text_eq submitted h);
}

abbrev caller : Identifier
caller = by_phone (codes "+2348012345678")

abbrev challenge : OtpChallenge
challenge = record {
  destination = subject caller;
  channel = channel caller;
  code_hash = codes "042137";
  expires_at = 7 + 10 * 60 * 1000;
  attempts = 0;
  consumed_at = none;
  last_sent_at = 7;
}

issued : new plain 0 caller (codes "042137") 7 ≡ ok challenge
unfolding new hash_code
issued = refl

abbrev guesses : List (Text × ℕ)
guesses =
    (codes "000000", 8) ∷ (codes "111111", 9) ∷ (codes "042137", 10) ∷ (codes "042137", 11) ∷ []

verify-bounded_example :
    (comparisons plain guesses challenge ≤ max_attempts) × (successes plain guesses challenge ≤ 1)
verify-bounded_example =
    verify-bounded plain 0 caller (codes "042137") 7 {c = challenge} issued guesses

plain-AcceptsOwn : AcceptsOwn plain
plain-AcceptsOwn salt code h e = let same : code ≡ h = ground arith in rw (same, text_eq_refl h)
