-- ===== src/Api/Otp.antt =====
-- crates/api/src/auth_routes.rs: `request_otp` and `verify_otp`, on the table `otp_challenges` and the
-- tables of a sign-in. The delivery of a code, Argon2 and its salts, the codes and the secrets are
-- parameters. A row's channel fits its destination, since both are those of one parsed identifier.
pub mod Request
pub mod Throttle
pub mod Known
pub mod Once
use naivolt.Base.{
  ℕ, ◌+◌, ◌-◌, ◌*◌, ◌/◌, ltb, leb, ◌==◌, ◌&&◌, not, Bool, true, false, Option, none, some, is_some,
  List, [], ◌∷◌, ◌++◌, map, Result, ok, err, if◌then◌else◌,
}
use naivolt.Base.Int.{pos}
use naivolt.Base.Text.{Text, text_eq}
use naivolt.Ledger.Account.{Uuid}
use naivolt.Auth.Identifier.{Channel, Identifier, subject, channel, parse_identifier}
use naivolt.Auth.Identity.{from_verified_otp}
use naivolt.Auth.Otp.{
  Argon2, OtpChallenge, OtpError, expired, already_used, too_many_attempts, incorrect, hash_failed,
  resend_cooldown_seconds, new, verify,
}
use naivolt.Api.Error.{ApiError}
use naivolt.Api.Sessions.{SessionsDb, Granted, start_session}
use naivolt.Api.SignIn.{Derived, UserRow, UsersDb, sign_in}

-- A row of `otp_challenges`.
pub record ChallengeRow : Type 0 where
  pub id : Uuid
  pub challenge : OtpChallenge

pub record OtpDb : Type 0 where
  pub rows : List ChallengeRow
  pub next_id : Uuid
  pub users : UsersDb
  pub sessions : SessionsDb

-- What the handlers call.
pub record Services : Type 0 where
  pub argon2 : Argon2
  pub send_code : Text → Channel → Text → Bool
  pub derive_all : ℕ → Option (List Derived)
  pub hash_refresh : Text → Text

-- `impl From<OtpError> for ApiError`
unfoldable pub otp_error : OtpError → ApiError
otp_error expired = ApiError.otp_expired
otp_error already_used = ApiError.otp_expired
otp_error too_many_attempts = ApiError.otp_expired
otp_error (incorrect left) = ApiError.otp_invalid (pos left)
otp_error (hash_failed e) = ApiError.internal

abbrev later_of : ℕ → Option ℕ → ℕ
later_of t none = t
later_of t (some s) = if ltb t s then s else t

-- `WHERE destination = $1 ORDER BY last_sent_at DESC LIMIT 1`
unfoldable pub last_sent : Text → List ChallengeRow → Option ℕ
last_sent s [] = none
last_sent s (r ∷ rows) =
    let rest = last_sent s rows in
    if text_eq s r.challenge.destination
    then some (later_of r.challenge.last_sent_at rest)
    else rest

-- `WHERE destination = $1 AND consumed_at IS NULL`
abbrev pub is_live : Text → ChallengeRow → Bool
is_live s r = text_eq s r.challenge.destination && not (is_some r.challenge.consumed_at)

unfoldable pub delete_live : Text → List ChallengeRow → List ChallengeRow
delete_live s [] = []
delete_live s (r ∷ rows) = let rest = delete_live s rows in if is_live s r then rest else r ∷ rest

unfoldable pub find_live : Text → List ChallengeRow → Option ChallengeRow
find_live s [] = none
find_live s (r ∷ rows) = if is_live s r then some r else find_live s rows

-- How long a destination must still wait, in seconds, if it must; the seconds that have gone by are
-- negative when the clock went back.
unfoldable pub retry_after : ℕ → Option ℕ → Option ℕ
retry_after now none = none
retry_after now (some sent) =
    if ltb now sent
    then some (resend_cooldown_seconds + (sent - now) / 1000)
    else if ltb ((now - sent) / 1000) resend_cooldown_seconds
    then some (resend_cooldown_seconds - (now - sent) / 1000)
    else none

-- The code replaces the live one of its destination, and is sent before the transaction ends.
unfoldable pub request_otp :
    Services → Text → ℕ → Text → ℕ → OtpDb → Result ApiError Channel × OtpDb
request_otp services raw salt code now db = elim (parse_identifier raw) [
  | err e ↦ (err ApiError.bad_request, db)
  | ok identifier ↦ elim (retry_after now (last_sent (subject identifier) db.rows)) [
    | some wait ↦ (err (ApiError.otp_throttled (pos wait)), db)
    | none ↦ elim (new services.argon2 salt identifier code now) [
      | err e ↦ (err ApiError.internal, db)
      | ok challenge ↦
          if services.send_code (subject identifier) (channel identifier) code
          then (
            ok (channel identifier),
            record db {
              rows =
                  delete_live (subject identifier) db.rows
                  ++ record { id = db.next_id; challenge = challenge } ∷ [];
              next_id = db.next_id + 1;
            },
          )
          else (err ApiError.internal, db)
    ]
  ]
]

-- `SET attempts = $1, consumed_at = $2 WHERE id = $3`
abbrev pub counted : Uuid → OtpChallenge → ChallengeRow → ChallengeRow
counted id c r =
    if id == r.id
    then record r {
      challenge = record r.challenge { attempts = c.attempts; consumed_at = c.consumed_at };
    }
    else r

unfoldable pub has_user : Uuid → List UserRow → Bool
has_user user [] = false
has_user user (u ∷ users) = if user == u.id then true else has_user user users

-- The user of a proven identity, and a session for it. A refusal rolls back the rows.
unfoldable pub admit :
    Services
    → Identifier
    → Text
    → Uuid
    → ℕ
    → List ChallengeRow
    → OtpDb
    → Result ApiError (Granted × Bool) × OtpDb
admit services identifier secret family now rows db =
    let (who, users) = sign_in services.derive_all (from_verified_otp identifier) now db.users in
    let undone : OtpDb = record db { users = record db.users { next_index = users.next_index } } in
    elim who [
      | err e ↦ (err e, undone)
      | ok (user, is_new) ↦
          if has_user user users.users
          then (let (session, sessions) =
                start_session services.hash_refresh secret family user now db.sessions in
              elim session [
                | err e ↦ (err ApiError.internal, undone)
                | ok granted ↦ (
                  ok (granted, is_new),
                  record db { rows = rows; users = users; sessions = sessions },
                )
              ])
          else (err ApiError.internal, undone)
    ]

-- A failed attempt is counted, and the count outlives the refusal.
unfoldable pub verify_otp :
    Services → Text → Text → Text → Uuid → ℕ → OtpDb → Result ApiError (Granted × Bool) × OtpDb
verify_otp services raw submitted secret family now db = elim (parse_identifier raw) [
  | err e ↦ (err ApiError.bad_request, db)
  | ok identifier ↦ elim (find_live (subject identifier) db.rows) [
    | none ↦ (err ApiError.otp_expired, db)
    | some row ↦
        let (result, c) = verify services.argon2 submitted now row.challenge in
        let rows = map (counted row.id c) db.rows in
        elim result [
          | err e ↦ (err (otp_error e), record db { rows = rows })
          | ok proven ↦ admit services identifier secret family now rows db
        ]
  ]
]
