-- ===== src/Auth/Otp.antt =====
-- crates/auth/src/otp.rs: the one-time code of a sign-in. Instants are in milliseconds; Argon2, which
-- hashes the codes, is a parameter.
pub mod Attempts
use naivolt.Base.{
  ℕ, ltb, leb, ◌+◌, ◌-◌, ◌*◌, Bool, true, false, Option, none, some, is_some, Result, ok, err,
  ◌>>=◌, if◌then◌else◌,
}
use naivolt.Base.Text.{Text}
use naivolt.Auth.Identifier.{Channel, Identifier, subject, channel}

-- The hash function: a hash from a salt and a code, and whether a code is that of a stored hash,
-- which may not be readable as a hash.
pub record Argon2 : Type 0 where
  pub hash_password : ℕ → Text → Result Text Text
  pub verify_password : Text → Text → Result Text Bool

abbrev pub otp_ttl_minutes : ℕ
otp_ttl_minutes = 10

abbrev pub max_attempts : ℕ
max_attempts = 5

abbrev pub resend_cooldown_seconds : ℕ
resend_cooldown_seconds = 60

pub data OtpError : Type 0 where
  expired already_used too_many_attempts : OtpError
  incorrect : ℕ → OtpError
  hash_failed : Text → OtpError

pub record OtpChallenge : Type 0 where
  pub destination : Text
  pub channel : Channel
  pub code_hash : Text
  pub expires_at : ℕ
  pub attempts : ℕ
  pub consumed_at : Option ℕ
  pub last_sent_at : ℕ

unfoldable pub hash_code : Argon2 → ℕ → Text → Result OtpError Text
hash_code a salt code = elim (a.hash_password salt code) [
  | ok h ↦ ok h
  | err e ↦ err (hash_failed e)
]

unfoldable pub new : Argon2 → ℕ → Identifier → Text → ℕ → Result OtpError OtpChallenge
new a salt identifier code now = do
  code_hash ← hash_code a salt code
  ok record {
    destination = subject identifier;
    channel = channel identifier;
    code_hash = code_hash;
    expires_at = now + otp_ttl_minutes * 60 * 1000;
    attempts = 0;
    consumed_at = none;
    last_sent_at = now;
  }

-- A submitted code: the state is looked at first, and the attempt is counted before the comparison.
unfoldable pub verify : Argon2 → Text → ℕ → OtpChallenge → Result OtpError (Unit {0}) × OtpChallenge
verify a submitted now c =
    if is_some c.consumed_at
    then (err already_used, c)
    else if ltb c.expires_at now
    then (err expired, c)
    else if leb max_attempts c.attempts
    then (err too_many_attempts, c)
    else let c₁ : OtpChallenge = record c { attempts = c.attempts + 1 } in
      elim (a.verify_password submitted c.code_hash) [
        | err e ↦ (err (hash_failed e), c₁)
        | ok true ↦ (ok tt, record c₁ { consumed_at = some now })
        | ok false ↦ (err (incorrect (max_attempts - c₁.attempts)), c₁)
      ]

unfoldable pub can_resend : OtpChallenge → ℕ → Bool
can_resend c now = leb (c.last_sent_at + resend_cooldown_seconds * 1000) now
