-- ===== src/Api/Tests/Otp.antt =====
-- Instances of the theorems about one-time codes.
use mathlib.Core.Path.{subst}
use naivolt.Base.{Bool, ℕ, ◌≡◌, refl, ap, true, some, List, [], ◌∷◌, Result, ok, err, arith}
use naivolt.Base.Int.{pos}
use naivolt.Base.Text.{Text, codes, text_eq, text_eq_refl}
use naivolt.Auth.Identifier.{
  Channel, subject, channel, trim, trim_start, trim_end, contains, split_once, has_empty_part,
  normalize_email, parse_identifier,
}
use naivolt.Auth.Otp.{hash_code, new}
use naivolt.Api.Error.{ApiError}
use naivolt.Api.Tests.SignIn.{one_user}
use naivolt.Api.Otp.{ChallengeRow, OtpDb, Services, last_sent, retry_after, request_otp, verify_otp}
use naivolt.Api.Otp.Throttle.{Guess, verify_all, request_otp-throttled}
use naivolt.Api.Otp.Known.{IsLinked}
use naivolt.Api.Otp.Once.{IsAdmitted, request_otp-accepted}
use naivolt.Auth.Identifier.{by_email}
use naivolt.Auth.Identity.{from_verified_otp, resolve, by_channels}
use naivolt.Api.Sessions.{Granted, find_session}
use naivolt.Api.SignIn.{
  sign_in, follow, lookup_matches, by_channel, find_identity, create_user, is_contact_taken,
}
use naivolt.Api.Otp.{has_user}

abbrev services : Services
services = record {
  argon2 = record {
    hash_password = λ salt code. ok code;
    verify_password = λ code hash. ok (text_eq code hash);
  };
  send_code = λ destination channel code. true;
  derive_all = λ index. some [];
  hash_refresh = λ secret. secret;
}

own_hash :
    (secret hash : Text)
    → services.argon2.hash_password 0 secret ≡ ok hash
    → services.argon2.verify_password secret hash ≡ ok true
own_hash secret hash e =
    let same : secret ≡ hash = ap (λ z. elim z [ err x ↦ secret | ok x ↦ x ]) e in
    subst (λ z. services.argon2.verify_password secret z ≡ ok true) same
      (ap ok (text_eq_refl secret))

abbrev quiet : OtpDb
quiet = record {
  rows = [];
  next_id = 1;
  users = one_user;
  sessions = record { rows = []; next_id = 1 };
}

abbrev mail : Text
mail = codes "a@b.co"

abbrev code : Text
code = codes "123456"

abbrev first_request : Result ApiError Channel × OtpDb
first_request = request_otp services mail 0 code 1000 quiet

was_sent : first_request.0 ≡ ok Channel.email
unfolding request_otp parse_identifier trim trim_start trim_end contains split_once has_empty_part
    normalize_email subject channel new hash_code last_sent retry_after
was_sent = refl

abbrev wrong_code : Guess
wrong_code = record {
  raw = mail;
  submitted = codes "000000";
  secret = codes "s";
  family = 2;
  at = 5000;
}

request_otp-throttled_example :
    (let after = verify_all services (wrong_code ∷ []) first_request.1 in
      (wait : ℕ) × (request_otp services mail 1 code 20000 after
        ≡ (err (ApiError.otp_throttled (pos wait)), after)))
request_otp-throttled_example =
    request_otp-throttled services mail 0 1 code code 1000 20000 (wrong_code ∷ []) quiet
      Channel.email was_sent (ground arith)

signed_in :
    (sign_in services.derive_all (from_verified_otp (by_email mail)) 9000 one_user).0 ≡ ok (5, true)
unfolding sign_in follow resolve lookup_matches by_channel by_channels find_identity create_user
    is_contact_taken from_verified_otp text_eq
signed_in = refl

read : parse_identifier mail ≡ ok (by_email mail)
unfolding parse_identifier trim trim_start trim_end contains split_once has_empty_part
    normalize_email
read = refl

linked : IsLinked one_user
unfolding has_user
linked = (refl, tt)

abbrev verified : Result ApiError (Granted × Bool) × OtpDb
verified = verify_otp services mail code (codes "s") 2 9000 first_request.1

request_otp-accepted_example :
    (rows : List ChallengeRow) × IsAdmitted services
      (by_email mail)
      5
      true
      (codes "s")
      2
      9000
      rows
      first_request.1
      verified
    × ((again secret' : Text) (family' : ℕ) (later : ℕ)
        → (verify_otp services mail again secret' family' later verified.1).0
          ≡ err ApiError.otp_expired)
unfolding find_session
request_otp-accepted_example =
    request_otp-accepted services mail 0 code 1000 quiet Channel.email (codes "s") 2 9000
      (by_email mail) 5 true (own_hash code) linked refl read was_sent (ground arith) signed_in
