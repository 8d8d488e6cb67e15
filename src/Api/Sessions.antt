-- ===== src/Api/Sessions.antt =====
-- crates/api/src/auth_routes.rs: signing in, refreshing and signing out, on the sessions table. The
-- random secrets and the hash of a token are parameters; the access token is left out.
pub mod Lookup
pub mod Reuse
use naivolt.Base.{
  ℕ, ◌+◌, ◌&&◌, not, ◌==◌, Bool, true, false, Option, none, some, is_some, List, [], ◌∷◌, ◌++◌, map,
  Result, ok, err, if◌then◌else◌,
}
use naivolt.Base.Text.{Text, text_eq}
use naivolt.Ledger.Account.{Uuid}
use naivolt.Auth.Session.{
  RefreshToken, StoredSession, RefreshOutcome, rotate, reuse_detected, rejected, issue_refresh,
  evaluate_refresh,
}

-- A row of `sessions`.
pub record SessionRow : Type 0 where
  pub session : StoredSession
  pub refresh_token_hash : Text

pub record SessionsDb : Type 0 where
  pub rows : List SessionRow
  pub next_id : Uuid

-- `ApiError::Unauthorized`, and the error of a broken constraint of the table.
pub data AuthError : Type 0 where
  unauthorized internal : AuthError

-- What a handler hands out: the user, the family that the access token names, and the secret.
pub record Granted : Type 0 where
  pub user_id : Uuid
  pub family_id : Uuid
  pub refresh_token : Text

-- `WHERE refresh_token_hash = $1`
unfoldable pub find_session : Text → List SessionRow → Option SessionRow
find_session hash [] = none
find_session hash (r ∷ rows) =
    if text_eq hash r.refresh_token_hash then some r else find_session hash rows

-- `SET revoked_at = $1 WHERE family_id = $2 AND revoked_at IS NULL`
abbrev pub revoked_in : Uuid → ℕ → SessionRow → SessionRow
revoked_in family now r =
    if (family == r.session.family_id) && not (is_some r.session.revoked_at)
    then record r { session = record r.session { revoked_at = some now } }
    else r

-- `SET rotated_at = $1 WHERE id = $2`
abbrev pub rotated_as : Uuid → ℕ → SessionRow → SessionRow
rotated_as id now r =
    if id == r.session.id
    then record r { session = record r.session { rotated_at = some now } }
    else r

-- `INSERT INTO sessions`, which the unique hash may refuse.
unfoldable pub insert_session : Uuid → RefreshToken → SessionsDb → Option SessionsDb
insert_session user_id t db = elim (find_session t.hash db.rows) [
  | some taken ↦ none
  | none ↦ some record {
    rows =
        db.rows
        ++ record {
          session = record {
            id = db.next_id;
            user_id = user_id;
            family_id = t.family_id;
            expires_at = t.expires_at;
            rotated_at = none;
            revoked_at = none;
          };
          refresh_token_hash = t.hash;
        }
          ∷ [];
    next_id = db.next_id + 1;
  }
]

-- A login starts a family of its own.
unfoldable pub start_session :
    (Text → Text) → Text → Uuid → Uuid → ℕ → SessionsDb → Result AuthError Granted × SessionsDb
start_session hash_refresh secret fresh_family user_id now db =
    let t = issue_refresh hash_refresh secret fresh_family none now in
    elim (insert_session user_id t db) [
      | none ↦ (err internal, db)
      | some db₁ ↦
          (ok record { user_id = user_id; family_id = t.family_id; refresh_token = t.secret }, db₁)
    ]

-- Exchanges a presented secret for a fresh one; a refused insertion rolls the exchange back.
unfoldable pub refresh :
    (Text → Text) → Text → Text → ℕ → SessionsDb → Result AuthError Granted × SessionsDb
refresh hash_refresh presented fresh now db = elim (find_session (hash_refresh presented) db.rows) [
  | none ↦ (err unauthorized, db)
  | some row ↦ elim (evaluate_refresh row.session now) [
    | reuse_detected family ↦
        (err unauthorized, record db { rows = map (revoked_in family now) db.rows })
    | rejected ↦ (err unauthorized, db)
    | rotate user_id family ↦
        let rotated : SessionsDb = record db {
          rows = map (rotated_as row.session.id now) db.rows;
        } in
        let t = issue_refresh hash_refresh fresh db.next_id (some family) now in
        elim (insert_session user_id t rotated) [
          | none ↦ (err internal, db)
          | some db₁ ↦
              (ok record { user_id = user_id; family_id = family; refresh_token = t.secret }, db₁)
        ]
  ]
]

-- Signing out revokes the family of the presented secret, if there is one.
unfoldable pub logout : (Text → Text) → Option Text → ℕ → SessionsDb → SessionsDb
logout hash_refresh presented now db = elim presented [
  | none ↦ db
  | some secret ↦ elim (find_session (hash_refresh secret) db.rows) [
    | none ↦ db
    | some row ↦ record db { rows = map (revoked_in row.session.family_id now) db.rows }
  ]
]
