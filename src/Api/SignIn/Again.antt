-- ===== src/Api/SignIn/Again.antt =====
-- Signing in twice is signing in as one user, and never as a user who has not proven the same channel.
use naivolt.Base.{
  ◌||◌, not, ltb, ◌^◌, ℕ, ◌≡◌, refl, sym, ap, ◌∙◌, ◌==◌, Bool, true, false, Option, none, some,
  is_some, List, [], ◌∷◌, ◌++◌, Result, ok, inl, inr, Bool-cases, Option-cases, arith,
}
use naivolt.Base.Text.{Text, text_eq_refl}
use naivolt.Ledger.Account.{Uuid}
use naivolt.Auth.Identity.{
  IdentityClaim, Resolution, existing, link_to, create_new, conflict, by_channels, and_option,
  resolve,
}
use naivolt.Api.Error.{ApiError}
use naivolt.Api.SignIn.{
  is_contact_taken, follow, IdentityRow, Derived, UsersDb, is_identity, find_identity, has_email,
  has_phone, by_channel, lookup_matches, identity_of, attach_identity, create_user, sign_in,
}

find_identity-last :
    (user : Uuid) (claim : IdentityClaim) (now : ℕ) (rows : List IdentityRow)
    → find_identity (is_identity claim.provider claim.subject) rows ≡ none
    → find_identity
        (is_identity claim.provider claim.subject)
        (rows ++ identity_of user claim now ∷ [])
      ≡ some user
unfolding find_identity
find_identity-last user claim now [] e = rw (text_eq_refl claim.subject) (ground arith)
find_identity-last user claim now (r ∷ rows) e =
    elim (Bool-cases (is_identity claim.provider claim.subject r)) [
      | inl hit ↦ absurd (ground arith)
      | inr miss ↦ rw miss (find_identity-last user claim now rows (ground arith))
    ]

-- An identity that is attached is found again.
attach_identity-found :
    (user : Uuid) (claim : IdentityClaim) (now : ℕ) (rows : List IdentityRow)
    → find_identity (is_identity claim.provider claim.subject) rows ≡ none
    → find_identity (is_identity claim.provider claim.subject) (attach_identity user claim now rows)
      ≡ some user
unfolding attach_identity
attach_identity-found user claim now rows absent =
    rw (absent, attach_identity) (find_identity-last user claim now rows absent)

abbrev pub is_existing : Resolution → Bool
is_existing (existing user) = true
is_existing _ = false

pub by_channels-new : (a b : Option Uuid) → is_existing (by_channels a b) ≡ false
unfolding by_channels
by_channels-new none none = refl
by_channels-new (some a) none = refl
by_channels-new none (some b) = refl
by_channels-new (some a) (some b) = elim (Bool-cases (a == b)) [
  | inl e ↦ rw e refl
  | inr e ↦ rw e refl
]

-- A channel is only looked up when the claim attests to it.
attested :
    (test : Text → IdentityRow → Bool) (v : Option Text) (rows : List IdentityRow)
    → and_option v (by_channel test v rows) ≡ by_channel test v rows
unfolding by_channel
attested test none rows = refl
attested test (some s) rows = refl

-- An identity that is not on record is resolved by its channels.
pub resolve-unknown :
    (claim : IdentityClaim) (rows : List IdentityRow)
    → find_identity (is_identity claim.provider claim.subject) rows ≡ none
    → resolve claim (lookup_matches claim rows)
      ≡ by_channels
          (by_channel has_email claim.verified_email rows)
          (by_channel has_phone claim.verified_phone rows)
unfolding resolve lookup_matches
resolve-unknown claim rows absent =
    rw
      (
        absent,
        resolve,
        attested has_email claim.verified_email rows,
        attested has_phone claim.verified_phone rows,
      )
      refl

pub sign_in-known :
    (derive_all : ℕ → Option (List Derived)) (claim : IdentityClaim) (now : ℕ) (db : UsersDb)
    (user : Uuid)
    → find_identity (is_identity claim.provider claim.subject) db.identities ≡ some user
    → sign_in derive_all claim now db ≡ (ok (user, false), db)
unfolding sign_in resolve lookup_matches follow
sign_in-known derive_all claim now db user found = rw (found, sign_in) refl

pub create_user-recorded :
    (derive_all : ℕ → Option (List Derived)) (claim : IdentityClaim) (now : ℕ) (db : UsersDb)
    (user : Uuid) (after : UsersDb)
    → find_identity (is_identity claim.provider claim.subject) db.identities ≡ none
    → create_user derive_all claim now db ≡ some (user, after)
    → (user ≡ db.next_id)
      × (find_identity (is_identity claim.provider claim.subject) after.identities ≡ some user)
unfolding create_user
create_user-recorded derive_all claim now db user after absent e =
    elim (Bool-cases (
      not (is_some claim.verified_phone || is_some claim.verified_email)
      || (is_contact_taken claim db.users || not (ltb db.next_index (2 ^ 31))))) [
        | inl refused ↦ let k = rw refused at e in absurd (ground arith)
        | inr fine ↦ elim (Option-cases (derive_all db.next_index)) [
          | inl underived ↦ let k = rw (fine, underived, create_user) at e in absurd (ground arith)
          | inr (derived, q) ↦
              let k = rw (fine, q, create_user) at e in
              let id : db.next_id ≡ user = ap (λ z. elim z [ none ↦ 0 | some s ↦ s.0 ]) k in
              let rows : attach_identity db.next_id claim now db.identities ≡ after.identities =
                ap (λ z. elim z [ none ↦ [] | some s ↦ s.1.identities ]) k in
              (
                sym id,
                rw (← rows, ← id) (attach_identity-found db.next_id claim now db.identities absent),
              )
        ]
      ]

pub answered_once :
    (z : Result ApiError (Uuid × Bool)) (u user : Uuid) (a b : Bool)
    → z ≡ ok (u, a)
    → z ≡ ok (user, b)
    → (u ≡ user) × (a ≡ b)
answered_once z u user a b p q = (ground arith, ground arith)

follow-recorded :
    (derive_all : ℕ → Option (List Derived)) (claim : IdentityClaim) (now : ℕ) (db : UsersDb)
    (r : Resolution) (user : Uuid) (is_new : Bool)
    → find_identity (is_identity claim.provider claim.subject) db.identities ≡ none
    → is_existing r ≡ false
    → (follow derive_all claim now db r).0 ≡ ok (user, is_new)
    → find_identity
        (is_identity claim.provider claim.subject)
        (follow derive_all claim now db r).1.identities
      ≡ some user
unfolding follow
follow-recorded derive_all claim now db (existing u) user is_new absent other e =
    absurd (ground arith)
follow-recorded derive_all claim now db (link_to u) user is_new absent other e =
    attach_identity-found u claim now db.identities absent
    ∙ (let same : u ≡ user = ground arith in ap some same)
follow-recorded derive_all claim now db create_new user is_new absent other e =
    elim (Option-cases (create_user derive_all claim now db)) [
      | inl refused ↦ let k = rw (refused, follow) at e in absurd (ground arith)
      | inr ((u, after), q) ↦
          let k = rw (q, follow) at e in
          let same : u ≡ user = ground arith in
          let (id, recorded) = create_user-recorded derive_all claim now db u after absent q in
          rw (q, follow) (recorded ∙ ap some same)
    ]
follow-recorded derive_all claim now db (conflict a b) user is_new absent other e =
    absurd (ground arith)

-- Whoever is signed in has the identity on record afterwards.
sign_in-recorded :
    (derive_all : ℕ → Option (List Derived)) (claim : IdentityClaim) (now : ℕ) (db : UsersDb)
    (user : Uuid) (is_new : Bool)
    → (sign_in derive_all claim now db).0 ≡ ok (user, is_new)
    → find_identity
        (is_identity claim.provider claim.subject)
        (sign_in derive_all claim now db).1.identities
      ≡ some user
sign_in-recorded derive_all claim now db user is_new e =
    elim (Option-cases (find_identity (is_identity claim.provider claim.subject) db.identities)) [
      | inr (other, found) ↦
          let k = sign_in-known derive_all claim now db other found in
          let (same, old) = answered_once _ other user false is_new (ap (λ z. z.0) k) e in
          rw (k, found, same) refl
      | inl absent ↦
          unfold sign_in in
          follow-recorded derive_all claim now db
            (resolve claim (lookup_matches claim db.identities)) user is_new absent
            (rw (resolve-unknown claim db.identities absent) (
              by_channels-new (by_channel has_email claim.verified_email db.identities)
                (by_channel has_phone claim.verified_phone db.identities)))
            e
    ]

-- Once an identity has signed in, it signs in again, at any time, as the same user, as an account that
-- is not new, and without a change to the tables.
pub sign_in-again :
    (derive_all : ℕ → Option (List Derived)) (claim : IdentityClaim) (now later : ℕ) (db : UsersDb)
    (user : Uuid) (is_new : Bool)
    → (sign_in derive_all claim now db).0 ≡ ok (user, is_new)
    → let after = (sign_in derive_all claim now db).1 in
      sign_in derive_all claim later after ≡ (ok (user, false), after)
sign_in-again derive_all claim now later db user is_new e =
    sign_in-known derive_all claim later (sign_in derive_all claim now db).1 user
      (sign_in-recorded derive_all claim now db user is_new e)
