-- ===== src/Api/SignIn/Unproven.antt =====
-- A sign-in with Google whose address is not verified.
use naivolt.Base.{
  ℕ, ◌≡◌, refl, sym, ap, ◌∙◌, ◌⊎◌, false, Option, none, some, List, [], ◌∷◌, ok, err, inl, inr,
  Option-cases, arith,
}
use naivolt.Base.Text.{Text}
use naivolt.Ledger.Account.{Uuid}
use naivolt.Auth.Identity.{
  Provider, google, IdentityClaim, OidcClaims, claims_to_identity, by_channels,
}
use naivolt.Api.Error.{ApiError}
use naivolt.Api.SignIn.{
  Derived, UsersDb, is_identity, find_identity, by_channel, create_user, follow, sign_in,
}
use naivolt.Api.SignIn.Again.{resolve-unknown, sign_in-known}

-- A claim that proves no channel makes no account.
sign_in-unproven :
    (derive_all : ℕ → Option (List Derived)) (claim : IdentityClaim) (now : ℕ) (db : UsersDb)
    → claim.verified_email ≡ none
    → claim.verified_phone ≡ none
    → find_identity (is_identity claim.provider claim.subject) db.identities ≡ none
    → (sign_in derive_all claim now db).0 ≡ err ApiError.internal
unfolding sign_in follow create_user by_channel by_channels
sign_in-unproven derive_all claim now db no_email no_phone absent =
    rw (resolve-unknown claim db.identities absent, no_email, no_phone) refl

nil_or_cons : (s : Text) → (s ≡ []) ⊎ ((c : ℕ) × (cs : Text) × (s ≡ c ∷ cs))
nil_or_cons [] = inl refl
nil_or_cons (c ∷ cs) = inr (c, cs, refl)

claims_to_identity-unproven :
    (claims : OidcClaims) (provider : Provider) (claim : IdentityClaim)
    → claims.email_verified ≡ false
    → claims_to_identity claims provider ≡ some claim
    → (is_identity claim.provider claim.subject ≡ is_identity provider claims.sub)
      × (claim.verified_email ≡ none)
      × (claim.verified_phone ≡ none)
unfolding claims_to_identity
claims_to_identity-unproven claims provider claim unproven e = elim (nil_or_cons claims.sub) [
  | inl q ↦ let k = rw q at e in absurd (ground arith)
  | inr (c, cs, q) ↦
      let k = rw (q, unproven, claims_to_identity) at e in
      let test : is_identity provider (c ∷ cs) ≡ is_identity claim.provider claim.subject =
        ap
          (λ z. elim z [
            | none ↦ is_identity provider (c ∷ cs)
            | some s ↦ is_identity s.provider s.subject
          ])
          k in
      let mail : none ≡ claim.verified_email =
        ap (λ z. elim z [ none ↦ none | some s ↦ s.verified_email ]) k in
      let phone : none ≡ claim.verified_phone =
        ap (λ z. elim z [ none ↦ none | some s ↦ s.verified_phone ]) k in
      (rw q (sym test), sym mail, sym phone)
]

-- A Google token whose address is not verified signs in only the user that has this very identity
-- already; where nobody has it, the sign-in fails with an internal error.
pub sign_in-unverified :
    (derive_all : ℕ → Option (List Derived)) (claims : OidcClaims) (claim : IdentityClaim) (now : ℕ)
    (db : UsersDb)
    → claims.email_verified ≡ false
    → claims_to_identity claims google ≡ some claim
    → ((user : Uuid) × (find_identity (is_identity google claims.sub) db.identities ≡ some user)
        × (sign_in derive_all claim now db ≡ (ok (user, false), db)))
      ⊎ ((find_identity (is_identity google claims.sub) db.identities ≡ none)
          × ((sign_in derive_all claim now db).0 ≡ err ApiError.internal))
sign_in-unverified derive_all claims claim now db unproven read =
    let (same, no_email, no_phone) =
      claims_to_identity-unproven claims google claim unproven read in
    elim (Option-cases (find_identity (is_identity claim.provider claim.subject) db.identities)) [
      | inr (user, found) ↦ inl (
        user,
        ap (λ z. find_identity z db.identities) (sym same) ∙ found,
        sign_in-known derive_all claim now db user found,
      )
      | inl absent ↦ inr (
        ap (λ z. find_identity z db.identities) (sym same) ∙ absent,
        sign_in-unproven derive_all claim now db no_email no_phone absent,
      )
    ]
