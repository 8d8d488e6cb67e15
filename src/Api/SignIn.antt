-- ===== src/Api/SignIn.antt =====
-- crates/api/src/auth_routes.rs: which user a proven identity signs in, on the tables `identities`,
-- `users` and `wallets`: the part that `verify_otp` and `google_sign_in` share. The derivation of a user's
-- addresses is a parameter, whose addresses are taken to be nobody else's.
pub mod Again
pub mod Own
pub mod Unproven
use naivolt.Base.{
  ℕ, ◌+◌, ◌^◌, ltb, ◌==◌, ◌&&◌, ◌||◌, not, Bool, true, false, Option, none, some, is_some, List, [],
  ◌∷◌, ◌++◌, map, Result, ok, err, if◌then◌else◌,
}
use naivolt.Base.Text.{Text, text_eq}
use naivolt.Ledger.Account.{Uuid}
use naivolt.Auth.Identity.{
  Provider, provider_index, IdentityClaim, ExistingMatches, Resolution, existing, link_to,
  create_new, conflict, resolve,
}
use naivolt.Api.Error.{ApiError}

-- A row of `identities`.
pub record IdentityRow : Type 0 where
  pub user_id : Uuid
  pub provider : Provider
  pub subject : Text
  pub email : Option Text
  pub phone : Option Text
  pub verified_at : Option ℕ

-- A row of `users`, as far as signing in writes it.
pub record UserRow : Type 0 where
  pub id : Uuid
  pub phone : Option Text
  pub email : Option Text
  pub address_index : ℕ

pub record Derived : Type 0 where
  pub chain : Text
  pub address : Text
  pub derivation_path : Text

pub record UsersDb : Type 0 where
  pub identities : List IdentityRow
  pub users : List UserRow
  pub wallets : List (Uuid × Derived)
  pub next_id : Uuid
  pub next_index : ℕ

abbrev pub option_eq : Option Text → Text → Bool
option_eq none s = false
option_eq (some t) s = text_eq t s

abbrev pub is_identity : Provider → Text → IdentityRow → Bool
is_identity provider subject r =
    (provider_index r.provider == provider_index provider) && text_eq r.subject subject

unfoldable pub find_identity : (IdentityRow → Bool) → List IdentityRow → Option Uuid
find_identity test [] = none
find_identity test (r ∷ rows) = if test r then some r.user_id else find_identity test rows

-- `WHERE email = $1 AND verified_at IS NOT NULL LIMIT 1`, and the same for the phone.
abbrev pub has_email : Text → IdentityRow → Bool
has_email s r = option_eq r.email s && is_some r.verified_at

abbrev pub has_phone : Text → IdentityRow → Bool
has_phone s r = option_eq r.phone s && is_some r.verified_at

unfoldable pub by_channel :
    (Text → IdentityRow → Bool) → Option Text → List IdentityRow → Option Uuid
by_channel test none rows = none
by_channel test (some s) rows = find_identity (test s) rows

unfoldable pub lookup_matches : IdentityClaim → List IdentityRow → ExistingMatches
lookup_matches claim rows = record {
  by_subject = find_identity (is_identity claim.provider claim.subject) rows;
  by_verified_email = by_channel has_email claim.verified_email rows;
  by_verified_phone = by_channel has_phone claim.verified_phone rows;
}

abbrev pub identity_of : Uuid → IdentityClaim → ℕ → IdentityRow
identity_of user claim now = record {
  user_id = user;
  provider = claim.provider;
  subject = claim.subject;
  email = claim.verified_email;
  phone = claim.verified_phone;
  verified_at = some now;
}

-- `ON CONFLICT (provider, subject) DO NOTHING`
unfoldable pub attach_identity : Uuid → IdentityClaim → ℕ → List IdentityRow → List IdentityRow
attach_identity user claim now rows =
    elim (find_identity (is_identity claim.provider claim.subject) rows) [
      | some other ↦ rows
      | none ↦ rows ++ identity_of user claim now ∷ []
    ]

abbrev pub same_contact : Option Text → Option Text → Bool
same_contact none b = false
same_contact (some a) none = false
same_contact (some a) (some b) = text_eq a b

-- The unique columns `phone` and `email` of `users`.
unfoldable pub is_contact_taken : IdentityClaim → List UserRow → Bool
is_contact_taken claim [] = false
is_contact_taken claim (u ∷ users) =
    (same_contact claim.verified_phone u.phone || same_contact claim.verified_email u.email)
    || is_contact_taken claim users

-- A user without a phone number and an email address is refused by the table, and one with those of
-- another user; then the addresses must be derived.
unfoldable pub create_user :
    (ℕ → Option (List Derived)) → IdentityClaim → ℕ → UsersDb → Option (Uuid × UsersDb)
create_user derive_all claim now db =
    if not (is_some claim.verified_phone || is_some claim.verified_email)
      || (is_contact_taken claim db.users || not (ltb db.next_index (2 ^ 31)))
    then none
    else elim (derive_all db.next_index) [
      | none ↦ none
      | some derived ↦ some (
        db.next_id,
        record {
          identities = attach_identity db.next_id claim now db.identities;
          users =
              db.users
              ++ record {
                id = db.next_id;
                phone = claim.verified_phone;
                email = claim.verified_email;
                address_index = db.next_index;
              }
                ∷ [];
          wallets = db.wallets ++ map (λ d. (db.next_id, d)) derived;
          next_id = db.next_id + 1;
          next_index = db.next_index + 1;
        },
      )
    ]

-- What follows from a resolution, `match resolve(..)`. A refusal rolls back all but the sequence that the
-- index of the addresses is drawn from. The result is the user that signs in, and whether the account is
-- new.
unfoldable pub follow :
    (ℕ → Option (List Derived))
    → IdentityClaim
    → ℕ
    → UsersDb
    → Resolution
    → Result ApiError (Uuid × Bool) × UsersDb
follow derive_all claim now db (existing user) = (ok (user, false), db)
follow derive_all claim now db (link_to user) =
    (ok (user, false), record db { identities = attach_identity user claim now db.identities })
follow derive_all claim now db create_new = elim (create_user derive_all claim now db) [
  | none ↦ (err ApiError.internal, record db { next_index = db.next_index + 1 })
  | some (user, after) ↦ (ok (user, true), after)
]
follow derive_all claim now db (conflict a b) = (err ApiError.bad_request, db)

unfoldable pub sign_in :
    (ℕ → Option (List Derived))
    → IdentityClaim
    → ℕ
    → UsersDb
    → Result ApiError (Uuid × Bool) × UsersDb
sign_in derive_all claim now db =
    follow derive_all claim now db (resolve claim (lookup_matches claim db.identities))
