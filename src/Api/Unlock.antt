-- ===== src/Api/Unlock.antt =====
-- crates/api/src/auth_routes.rs: `unlock`, which opens a session again with a PIN, and the choice of the
-- presented token in session_cookie.rs. The column `pin_hash` of the joined user is a parameter.
pub mod Guarded
use naivolt.Base.{
  ℕ, ◌==◌, not, Bool, true, false, Option, none, some, is_some, [], ◌∷◌, length, Result, ok, err,
  if◌then◌else◌,
}
use naivolt.Base.Int.{pos}
use naivolt.Base.Text.{Text}
use naivolt.Ledger.Account.{Uuid}
use naivolt.Auth.Identifier.{trim}
use naivolt.Auth.Otp.{Argon2}
use naivolt.Auth.Pin.{verify_pin}
use naivolt.Api.Error.{ApiError}
use naivolt.Api.Sessions.{
  SessionRow, SessionsDb, AuthError, unauthorized, internal, Granted, find_session, refresh,
}

-- The token of the body, trimmed, or else that of the cookie.
unfoldable pub presented_refresh : Option Text → Option Text → Option Text
presented_refresh cookie none = cookie
presented_refresh cookie (some body) =
    let secret = trim body in if length secret == 0 then cookie else some secret

abbrev pub auth_error : AuthError → ApiError
auth_error unauthorized = ApiError.unauthorized
auth_error internal = ApiError.internal

-- `refresh`, from the request on.
unfoldable pub refresh_request :
    (Text → Text)
    → Option Text
    → Option Text
    → Text
    → ℕ
    → SessionsDb
    → Result ApiError Granted × SessionsDb
refresh_request hash_refresh cookie body fresh now db = elim (presented_refresh cookie body) [
  | none ↦ (err ApiError.unauthorized, db)
  | some secret ↦
      let (answer, after) = refresh hash_refresh secret fresh now db in
      (elim answer [ err e ↦ err (auth_error e) | ok g ↦ ok g ], after)
]

-- The token is looked up as it came, then the PIN is compared, and then the token is exchanged.
unfoldable pub unlock :
    Argon2
    → (Uuid → Option Text)
    → (Text → Text)
    → Option Text
    → Text
    → Text
    → Text
    → ℕ
    → SessionsDb
    → Result ApiError Granted × SessionsDb
unlock a pin_hash hash_refresh cookie token pin fresh now db =
    elim (find_session (hash_refresh token) db.rows) [
      | none ↦ (err ApiError.unauthorized, db)
      | some row ↦
          if is_some row.session.revoked_at
          then (err ApiError.unauthorized, db)
          else elim (pin_hash row.session.user_id) [
            | none ↦ (err ApiError.unauthorized, db)
            | some stored ↦ elim (verify_pin a pin stored) [
              | err e ↦ (err ApiError.internal, db)
              | ok false ↦ (err (ApiError.pin_invalid (pos 0)), db)
              | ok true ↦ refresh_request hash_refresh cookie (some token) fresh now db
            ]
          ]
    ]
