-- ===== src/Api/Otp/Known.antt =====
-- Whoever is signed in is on record as a user.
use naivolt.Base.{
  ℕ, ◌^◌, ltb, ◌≡◌, refl, sym, ap, ◌∙◌, ◌==◌, ◌||◌, not, Bool, true, false, Option, none, some,
  is_some, List, [], ◌∷◌, ◌++◌, All, ok, inl, inr, Bool-cases, Option-cases, arith,
}
use naivolt.Base.Text.{Text}
use naivolt.Ledger.Account.{Uuid}
use naivolt.Auth.Identity.{
  IdentityClaim, Resolution, existing, link_to, create_new, conflict, by_channels, resolve,
}
use naivolt.Api.SignIn.{
  IdentityRow, UserRow, Derived, UsersDb, is_identity, find_identity, has_email, has_phone,
  by_channel, lookup_matches, is_contact_taken, create_user, follow, sign_in,
}
use naivolt.Api.SignIn.Again.{
  answered_once, is_existing, by_channels-new, resolve-unknown, sign_in-known,
}
use naivolt.Api.SignIn.Own.{by_channels-link}
use naivolt.Api.Otp.{has_user}

-- The foreign key of `identities`.
abbrev pub IsLinked : UsersDb → Type 0
IsLinked db = All (λ r. has_user r.user_id db.users ≡ true) db.identities

find_identity-known :
    (users : List UserRow) (test : IdentityRow → Bool) (rows : List IdentityRow) (user : Uuid)
    → All (λ r. has_user r.user_id users ≡ true) rows
    → find_identity test rows ≡ some user
    → has_user user users ≡ true
unfolding find_identity
find_identity-known users test [] user h e = absurd (ground arith)
find_identity-known users test (r ∷ rows) user h e = elim (Bool-cases (test r)) [
  | inl hit ↦
      let k = rw hit at e in
      let same : r.user_id ≡ user = ap (λ z. elim z [ none ↦ 0 | some u ↦ u ]) k in
      ap (λ z. has_user z users) (sym same) ∙ h.0
  | inr miss ↦ find_identity-known users test rows user h.1 (rw miss at e)
]

by_channel-known :
    (users : List UserRow) (test : Text → IdentityRow → Bool) (v : Option Text)
    (rows : List IdentityRow) (user : Uuid)
    → All (λ r. has_user r.user_id users ≡ true) rows
    → by_channel test v rows ≡ some user
    → has_user user users ≡ true
unfolding by_channel
by_channel-known users test none rows user h e = absurd (ground arith)
by_channel-known users test (some s) rows user h e =
    find_identity-known users (test s) rows user h e

has_user-last : (u : UserRow) (users : List UserRow) → has_user u.id (users ++ u ∷ []) ≡ true
unfolding has_user
has_user-last u [] = ground arith
has_user-last u (x ∷ users) = elim (Bool-cases (u.id == x.id)) [
  | inl hit ↦ rw hit refl
  | inr miss ↦ rw miss (has_user-last u users)
]

create_user-known :
    (derive_all : ℕ → Option (List Derived)) (claim : IdentityClaim) (now : ℕ) (db : UsersDb)
    (user : Uuid) (after : UsersDb)
    → create_user derive_all claim now db ≡ some (user, after)
    → has_user user after.users ≡ true
unfolding create_user
create_user-known derive_all claim now db user after e =
    elim (Bool-cases (
      not (is_some claim.verified_phone || is_some claim.verified_email)
      || (is_contact_taken claim db.users || not (ltb db.next_index (2 ^ 31))))) [
        | inl refused ↦ let k = rw refused at e in absurd (ground arith)
        | inr fine ↦ elim (Option-cases (derive_all db.next_index)) [
          | inl underived ↦ let k = rw (fine, underived, create_user) at e in absurd (ground arith)
          | inr (derived, q) ↦
              let k = rw (fine, q, create_user) at e in
              ap (λ z. elim z [ none ↦ true | some s ↦ has_user s.0 s.1.users ]) (sym k)
              ∙ has_user-last
                  (record {
                    id = db.next_id;
                    phone = claim.verified_phone;
                    email = claim.verified_email;
                    address_index = db.next_index;
                  })
                  db.users
        ]
      ]

follow-known :
    (derive_all : ℕ → Option (List Derived)) (claim : IdentityClaim) (now : ℕ) (db : UsersDb)
    (r : Resolution) (user : Uuid) (is_new : Bool)
    → IsLinked db
    → by_channels
        (by_channel has_email claim.verified_email db.identities)
        (by_channel has_phone claim.verified_phone db.identities)
      ≡ r
    → (follow derive_all claim now db r).0 ≡ ok (user, is_new)
    → has_user user (follow derive_all claim now db r).1.users ≡ true
unfolding follow
follow-known derive_all claim now db (existing u) user is_new h r e =
    let k : false ≡ true = sym (by_channels-new _ _) ∙ ap is_existing r in absurd (ground arith)
follow-known derive_all claim now db (conflict a b) user is_new h r e = absurd (ground arith)
follow-known derive_all claim now db (link_to u) user is_new h r e =
    let same : u ≡ user = ground arith in
    elim (by_channels-link _ _ u r) [
      | inl by_email ↦
          by_channel-known db.users has_email claim.verified_email db.identities user h
            (by_email ∙ ap some same)
      | inr by_phone ↦
          by_channel-known db.users has_phone claim.verified_phone db.identities user h
            (by_phone ∙ ap some same)
    ]
follow-known derive_all claim now db create_new user is_new h r e =
    elim (Option-cases (create_user derive_all claim now db)) [
      | inl refused ↦ let k = rw (refused, follow) at e in absurd (ground arith)
      | inr ((u, after), q) ↦
          let k = rw (q, follow) at e in
          let same : u ≡ user = ground arith in
          rw (q, follow)
            (ap (λ z. has_user z after.users) (sym same)
              ∙ create_user-known derive_all claim now db u after q)
    ]

-- Whoever is signed in without an error is on record afterwards.
pub sign_in-known_user :
    (derive_all : ℕ → Option (List Derived)) (claim : IdentityClaim) (now : ℕ) (db : UsersDb)
    (user : Uuid) (is_new : Bool)
    → IsLinked db
    → (sign_in derive_all claim now db).0 ≡ ok (user, is_new)
    → has_user user (sign_in derive_all claim now db).1.users ≡ true
sign_in-known_user derive_all claim now db user is_new h e =
    elim (Option-cases (find_identity (is_identity claim.provider claim.subject) db.identities)) [
      | inr (u, found) ↦
          let k = sign_in-known derive_all claim now db u found in
          let (same, old) = answered_once _ u user false is_new (ap (λ z. z.0) k) e in
          rw k (
            find_identity-known db.users (is_identity claim.provider claim.subject) db.identities
              user h (found ∙ ap some same))
      | inl absent ↦
          unfold sign_in in
          follow-known derive_all claim now db (resolve claim (lookup_matches claim db.identities))
            user is_new h (sym (resolve-unknown claim db.identities absent)) e
    ]
