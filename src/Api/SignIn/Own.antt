-- ===== src/Api/SignIn/Own.antt =====
-- Nobody is signed in as a user whose identity or channel was not proven.
use mathlib.Core.List.{Memᴰ}
use naivolt.Base.{
  ℕ, ◌≡◌, refl, sym, ap, ◌∙◌, ◌⊎◌, ◌==◌, Bool, true, false, Option, none, some, List, [], ◌∷◌, ok,
  inl, inr, Bool-cases, Option-cases, arith,
}
use naivolt.Base.Text.{Text}
use naivolt.Ledger.Account.{Uuid}
use naivolt.Auth.Identity.{
  IdentityClaim, Resolution, existing, link_to, create_new, conflict, by_channels,
}
use naivolt.Api.SignIn.{
  IdentityRow, Derived, UsersDb, is_identity, find_identity, has_email, has_phone, by_channel,
  create_user, follow, sign_in,
}
use naivolt.Api.SignIn.Again.{
  is_existing, by_channels-new, answered_once, resolve-unknown, sign_in-known, create_user-recorded,
}

-- A stored identity of the user passes a test.
abbrev pub Stored : (IdentityRow → Bool) → List IdentityRow → Uuid → Type 0
Stored test rows user = (r : IdentityRow) × Memᴰ r rows × (r.user_id ≡ user) × (test r ≡ true)

-- The user has the identity of the claim, or a verified one with an address that the claim proves, or
-- with a number that it proves.
abbrev pub IsOwn : IdentityClaim → List IdentityRow → Uuid → Type 0
IsOwn claim rows user =
    Stored (is_identity claim.provider claim.subject) rows user
    ⊎ ((s : Text) × (claim.verified_email ≡ some s) × Stored (has_email s) rows user)
    ⊎ ((s : Text) × (claim.verified_phone ≡ some s) × Stored (has_phone s) rows user)

find_identity-Stored :
    (test : IdentityRow → Bool) (rows : List IdentityRow) (user : Uuid)
    → find_identity test rows ≡ some user
    → Stored test rows user
unfolding find_identity
find_identity-Stored test [] user e = absurd (ground arith)
find_identity-Stored test (r ∷ rows) user e = elim (Bool-cases (test r)) [
  | inl hit ↦
      let k = rw hit at e in
      let same : r.user_id ≡ user = ap (λ z. elim z [ none ↦ 0 | some u ↦ u ]) k in
      (r, Memᴰ.head refl, same, hit)
  | inr miss ↦
      let (s, member, owner, passes) = find_identity-Stored test rows user (rw miss at e) in
      (s, Memᴰ.tail member, owner, passes)
]

by_channel-Stored :
    (test : Text → IdentityRow → Bool) (v : Option Text) (rows : List IdentityRow) (user : Uuid)
    → by_channel test v rows ≡ some user
    → (s : Text) × (v ≡ some s) × Stored (test s) rows user
unfolding by_channel
by_channel-Stored test none rows user e = absurd (ground arith)
by_channel-Stored test (some s) rows user e = (s, refl, find_identity-Stored (test s) rows user e)

-- What the channels resolve to.
pub by_channels-link :
    (a b : Option Uuid) (user : Uuid)
    → by_channels a b ≡ link_to user
    → (a ≡ some user) ⊎ (b ≡ some user)
unfolding by_channels
by_channels-link none none user e = absurd (ground arith)
by_channels-link (some a) none user e = inl (ground arith)
by_channels-link none (some b) user e = inr (ground arith)
by_channels-link (some a) (some b) user e = elim (Bool-cases (a == b)) [
  | inl same ↦ let k = rw same at e in inl (ground arith)
  | inr apart ↦ let k = rw apart at e in absurd (ground arith)
]

-- What an identity that is not on record is resolved to.
unknown-IsOwn :
    (derive_all : ℕ → Option (List Derived)) (claim : IdentityClaim) (now : ℕ) (db : UsersDb)
    (r : Resolution) (user : Uuid) (is_new : Bool)
    → find_identity (is_identity claim.provider claim.subject) db.identities ≡ none
    → by_channels
        (by_channel has_email claim.verified_email db.identities)
        (by_channel has_phone claim.verified_phone db.identities)
      ≡ r
    → (follow derive_all claim now db r).0 ≡ ok (user, is_new)
    → ((is_new ≡ true) × (user ≡ db.next_id)) ⊎ ((is_new ≡ false) × IsOwn claim db.identities user)
unfolding follow
unknown-IsOwn derive_all claim now db (existing u) user is_new absent r e =
    let k : false ≡ true = sym (by_channels-new _ _) ∙ ap is_existing r in absurd (ground arith)
unknown-IsOwn derive_all claim now db (conflict a b) user is_new absent r e = absurd (ground arith)
unknown-IsOwn derive_all claim now db (link_to u) user is_new absent r e =
    let same : u ≡ user = ground arith in
    let old : is_new ≡ false = ground arith in
    inr (
      old,
      elim (by_channels-link _ _ u r) [
        | inl by_email ↦ inr (
            inl (
              by_channel-Stored has_email claim.verified_email db.identities user
                (by_email ∙ ap some same)))
        | inr by_phone ↦ inr (
            inr (
              by_channel-Stored has_phone claim.verified_phone db.identities user
                (by_phone ∙ ap some same)))
      ],
    )
unknown-IsOwn derive_all claim now db create_new user is_new absent r e =
    elim (Option-cases (create_user derive_all claim now db)) [
      | inl refused ↦ let k = rw (refused, follow) at e in absurd (ground arith)
      | inr ((u, after), q) ↦
          let k = rw (q, follow) at e in
          let same : u ≡ user = ground arith in
          let fresh : is_new ≡ true = ground arith in
          inl (fresh, sym same ∙ (create_user-recorded derive_all claim now db u after absent q).0)
    ]

-- Whoever is signed in without an error is a new user, under an id that was not drawn before, or an old
-- one who already had the very identity, or a verified identity with the address or the number that the
-- claim proves.
pub sign_in-IsOwn :
    (derive_all : ℕ → Option (List Derived)) (claim : IdentityClaim) (now : ℕ) (db : UsersDb)
    (user : Uuid) (is_new : Bool)
    → (sign_in derive_all claim now db).0 ≡ ok (user, is_new)
    → ((is_new ≡ true) × (user ≡ db.next_id)) ⊎ ((is_new ≡ false) × IsOwn claim db.identities user)
sign_in-IsOwn derive_all claim now db user is_new e =
    elim (Option-cases (find_identity (is_identity claim.provider claim.subject) db.identities)) [
      | inr (u, found) ↦
          let k = sign_in-known derive_all claim now db u found in
          let (same, old) = answered_once _ u user false is_new (ap (λ z. z.0) k) e in
          inr (
            sym old,
            inl (
                find_identity-Stored (is_identity claim.provider claim.subject) db.identities user
                  (found ∙ ap some same)),
          )
      | inl absent ↦
          unfold sign_in in
          unknown-IsOwn derive_all claim now db _ user is_new absent
            (sym (resolve-unknown claim db.identities absent)) e
    ]
