-- ===== src/Auth/Identity.antt =====
-- crates/auth/src/identity.rs: what a proven identity means, and `claims_to_identity` of oidc.rs.
use naivolt.Base.{◌==◌, ℕ, Bool, Option, none, some, [], ◌∷◌, if◌then◌else◌}
use naivolt.Base.Text.{Text}
use naivolt.Ledger.Account.{Uuid}
use naivolt.Auth.Identifier.{Identifier, by_phone, by_email, normalize_email}

pub data Provider : Type 0 where
  phone email google : Provider

abbrev pub provider_index : Provider → ℕ
provider_index phone = 0
provider_index email = 1
provider_index google = 2

-- A sign-in whose proof has been checked.
pub record IdentityClaim : Type 0 where
  pub provider : Provider
  pub subject : Text
  pub verified_email : Option Text
  pub verified_phone : Option Text

-- A code proves the channel that it was sent to, and no other.
unfoldable pub from_verified_otp : Identifier → IdentityClaim
from_verified_otp (by_phone number) = record {
  provider = phone;
  subject = number;
  verified_email = none;
  verified_phone = some number;
}
from_verified_otp (by_email address) = record {
  provider = email;
  subject = address;
  verified_email = some address;
  verified_phone = none;
}

-- The claims of a token whose signature has been checked.
pub record OidcClaims : Type 0 where
  pub sub : Text
  pub email : Option Text
  pub email_verified : Bool

-- An address that the provider has not verified is no evidence. The only error is a missing subject.
unfoldable pub claims_to_identity : OidcClaims → Provider → Option IdentityClaim
claims_to_identity claims provider = elim claims.sub [
  | [] ↦ none
  | c ∷ cs ↦ some (record {
    provider = provider;
    subject = c ∷ cs;
    verified_email = if claims.email_verified then normal claims.email else none;
    verified_phone = none;
  })
]
  where
    normal : Option Text → Option Text
    normal none = none
    normal (some address) = normalize_email address

pub record ExistingMatches : Type 0 where
  pub by_subject : Option Uuid
  pub by_verified_email : Option Uuid
  pub by_verified_phone : Option Uuid

pub data Resolution : Type 0 where
  existing link_to : Uuid → Resolution
  create_new : Resolution
  conflict : Uuid → Uuid → Resolution

-- `Option::and`
abbrev pub and_option {ℓ κ} : {A : Type ℓ} {B : Type κ} → Option A → Option B → Option B
and_option none b = none
and_option (some a) b = b

-- The match on the channels that the claim attests to.
unfoldable pub by_channels : Option Uuid → Option Uuid → Resolution
by_channels none none = create_new
by_channels (some a) none = link_to a
by_channels none (some b) = link_to b
by_channels (some a) (some b) = if a == b then link_to a else conflict a b

unfoldable pub resolve : IdentityClaim → ExistingMatches → Resolution
resolve claim found = elim found.by_subject [
  | some user ↦ existing user
  | none ↦
      by_channels (and_option claim.verified_email found.by_verified_email)
        (and_option claim.verified_phone found.by_verified_phone)
]
