-- ===== src/Auth/Session.antt =====
-- crates/auth/src/session.rs: refresh tokens, which are exchanged once. Instants are in milliseconds;
-- the hash of a token and its random secret are parameters.
use naivolt.Base.{
  ℕ, ltb, leb, ◌+◌, ◌*◌, ◌||◌, Option, none, some, is_some, Result, ok, err, length, if◌then◌else◌,
}
use naivolt.Base.Text.{Text}
use naivolt.Ledger.Account.{Uuid}

abbrev pub refresh_ttl_days : ℕ
refresh_ttl_days = 30

pub data SessionError : Type 0 where
  weak_secret : ℕ → SessionError

-- The check of `SessionKeys::from_secret`; the keys are those of the JWT library.
unfoldable pub from_secret : Text → Result SessionError Text
from_secret secret = if ltb (length secret) 32 then err (weak_secret (length secret)) else ok secret

pub record RefreshToken : Type 0 where
  pub secret : Text
  pub hash : Text
  pub family_id : Uuid
  pub expires_at : ℕ

-- A token of a family, or of the new family `fresh_family`.
unfoldable pub issue_refresh : (Text → Text) → Text → Uuid → Option Uuid → ℕ → RefreshToken
issue_refresh hash_refresh secret fresh_family family_id now = record {
  secret = secret;
  hash = hash_refresh secret;
  family_id = elim family_id [ none ↦ fresh_family | some f ↦ f ];
  expires_at = now + refresh_ttl_days * 24 * 60 * 60 * 1000;
}

pub record StoredSession : Type 0 where
  pub id : Uuid
  pub user_id : Uuid
  pub family_id : Uuid
  pub expires_at : ℕ
  pub rotated_at : Option ℕ
  pub revoked_at : Option ℕ

pub data RefreshOutcome : Type 0 where
  rotate : Uuid → Uuid → RefreshOutcome
  reuse_detected : Uuid → RefreshOutcome
  rejected : RefreshOutcome

-- Reuse is looked for before anything else.
unfoldable pub evaluate_refresh : StoredSession → ℕ → RefreshOutcome
evaluate_refresh s now =
    if is_some s.rotated_at
    then reuse_detected s.family_id
    else if is_some s.revoked_at || leb s.expires_at now
    then rejected
    else rotate s.user_id s.family_id
