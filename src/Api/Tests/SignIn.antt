-- ===== src/Api/Tests/SignIn.antt =====
-- Instances of the theorems about signing in.
use naivolt.Base.{ℕ, ◌≡◌, refl, true, false, Option, none, some, List, [], ◌∷◌, ok, err, ◌⊎◌}
use naivolt.Base.Text.{codes, text_eq}
use naivolt.Auth.Identity.{
  google, email, IdentityClaim, OidcClaims, claims_to_identity, resolve, by_channels,
}
use naivolt.Api.Error.{ApiError}
use naivolt.Api.SignIn.{
  Derived, UsersDb, is_identity, find_identity, by_channel, lookup_matches, follow, sign_in,
}
use naivolt.Api.SignIn.Again.{sign_in-again}
use naivolt.Api.SignIn.Own.{IsOwn, sign_in-IsOwn}
use naivolt.Api.SignIn.Unproven.{sign_in-unverified}

abbrev addresses : ℕ → Option (List Derived)
addresses index =
    some (record { chain = codes "tron"; address = codes "T"; derivation_path = codes "m" } ∷ [])

-- User 4 has signed in with a code that was mailed.
abbrev pub one_user : UsersDb
one_user = record {
  identities =
      record {
        user_id = 4;
        provider = email;
        subject = codes "a@b.c";
        email = some (codes "a@b.c");
        phone = none;
        verified_at = some 5;
      }
      ∷ [];
  users = record { id = 4; phone = none; email = some (codes "a@b.c"); address_index = 1 } ∷ [];
  wallets = [];
  next_id = 5;
  next_index = 2;
}

-- The same address, as Google attests it.
abbrev by_google : IdentityClaim
by_google = record {
  provider = google;
  subject = codes "g7";
  verified_email = some (codes "a@b.c");
  verified_phone = none;
}

abbrev owner : ℕ
owner = 4

linked : (sign_in addresses by_google 9 one_user).0 ≡ ok (4, false)
unfolding sign_in follow resolve lookup_matches by_channel by_channels find_identity text_eq
linked = refl

sign_in-again_example :
    (let after = (sign_in addresses by_google 9 one_user).1 in
      sign_in addresses by_google 30 after ≡ (ok (4, false), after))
sign_in-again_example = sign_in-again addresses by_google 9 30 one_user owner false linked

sign_in-IsOwn_example :
    ((false ≡ true) × (owner ≡ one_user.next_id))
    ⊎ ((false ≡ false) × IsOwn by_google one_user.identities owner)
sign_in-IsOwn_example = sign_in-IsOwn addresses by_google 9 one_user owner false linked

abbrev unproven : OidcClaims
unproven = record { sub = codes "g7"; email = some (codes "a@b.c"); email_verified = false }

abbrev nothing_proven : IdentityClaim
nothing_proven = record {
  provider = google;
  subject = codes "g7";
  verified_email = none;
  verified_phone = none;
}

read : claims_to_identity unproven google ≡ some nothing_proven
unfolding claims_to_identity
read = refl

sign_in-unverified_example :
    ((user : ℕ) × (find_identity (is_identity google (codes "g7")) one_user.identities ≡ some user)
      × (sign_in addresses nothing_proven 9 one_user ≡ (ok (user, false), one_user)))
    ⊎ ((find_identity (is_identity google (codes "g7")) one_user.identities ≡ none)
        × ((sign_in addresses nothing_proven 9 one_user).0 ≡ err ApiError.internal))
sign_in-unverified_example =
    sign_in-unverified addresses unproven nothing_proven 9 one_user refl read
