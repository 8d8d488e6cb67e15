-- ===== src/Api/Unlock/Guarded.antt =====
-- A device is unlocked for the owner of the PIN only.
use naivolt.Base.{
  ℕ, ◌==◌, ◌≡◌, sym, ap, ◌∙◌, true, false, Option, none, some, is_some, length, ok, err, inl, inr,
  Bool-cases, Option-cases, Result-cases, arith,
}
use naivolt.Base.Text.{Text}
use naivolt.Ledger.Account.{Uuid}
use naivolt.Auth.Identifier.{trim}
use naivolt.Auth.Otp.{Argon2}
use naivolt.Auth.Pin.{verify_pin}
use naivolt.Api.Sessions.{SessionRow, SessionsDb, Granted, find_session, refresh}
use naivolt.Api.Sessions.Reuse.{refresh-Exchanged}
use naivolt.Api.Unlock.{presented_refresh, refresh_request, unlock}

-- A session of the user is open, and the PIN is the user's.
pub record IsOwner (a : Argon2) (pin_hash : Uuid → Option Text) (pin hash : Text) (db : SessionsDb)
    (user : Uuid) : Type 0 where
  pub row : SessionRow
  pub found : find_session hash db.rows ≡ some row
  pub unrevoked : is_some row.session.revoked_at ≡ false
  pub owner : row.session.user_id ≡ user
  pub stored : Text
  pub has_pin : pin_hash user ≡ some stored
  pub same_pin : verify_pin a pin stored ≡ ok true

refresh-user :
    (hash_refresh : Text → Text) (secret fresh : Text) (now : ℕ) (db : SessionsDb)
    (row : SessionRow) (g : Granted)
    → find_session (hash_refresh secret) db.rows ≡ some row
    → (refresh hash_refresh secret fresh now db).0 ≡ ok g
    → row.session.user_id ≡ g.user_id
refresh-user hash_refresh secret fresh now db row g found e =
    let x = refresh-Exchanged hash_refresh secret fresh now db {g = g} e in
    let k : some row ≡ some x.row = sym found ∙ x.found in
    let same : row ≡ x.row = ap (λ z. elim z [ none ↦ row | some r ↦ r ]) k in
    ap (λ r. r.session.user_id) same ∙ x.user

refresh_request-answer :
    (hash_refresh : Text → Text) (cookie : Option Text) (token fresh : Text) (now : ℕ)
    (db : SessionsDb) (g : Granted)
    → trim token ≡ token
    → length token == 0 ≡ false
    → (refresh_request hash_refresh cookie (some token) fresh now db).0 ≡ ok g
    → (refresh hash_refresh token fresh now db).0 ≡ ok g
unfolding refresh_request presented_refresh
refresh_request-answer hash_refresh cookie token fresh now db g plain nonempty e =
    elim (Result-cases (refresh hash_refresh token fresh now db).0) [
      | inr (x, q) ↦ let k = rw (plain, nonempty, q, refresh_request) at e in absurd (ground arith)
      | inl (h, q) ↦
          let k = rw (plain, nonempty, q, refresh_request) at e in
          let same : h ≡ g = ap (λ z. elim z [ err x ↦ g | ok x ↦ x ]) k in q ∙ ap ok same
    ]

-- A token without blanks around it, as those are that are handed out, is unlocked for a user only if it is
-- that of a session of this user that is not revoked, and the PIN is the one that the user has set.
pub unlock-IsOwner :
    (a : Argon2) (pin_hash : Uuid → Option Text) (hash_refresh : Text → Text) (cookie : Option Text)
    (token pin fresh : Text) (now : ℕ) (db : SessionsDb) (g : Granted)
    → trim token ≡ token
    → length token == 0 ≡ false
    → (unlock a pin_hash hash_refresh cookie token pin fresh now db).0 ≡ ok g
    → IsOwner a pin_hash pin (hash_refresh token) db g.user_id
unfolding unlock
unlock-IsOwner a pin_hash hash_refresh cookie token pin fresh now db g plain nonempty e =
    elim (Option-cases (find_session (hash_refresh token) db.rows)) [
      | inl absent ↦ let k = rw (absent, unlock) at e in absurd (ground arith)
      | inr (row, found) ↦ elim (Bool-cases (is_some row.session.revoked_at)) [
        | inl revoked ↦ let k = rw (found, revoked, unlock) at e in absurd (ground arith)
        | inr live ↦ elim (Option-cases (pin_hash row.session.user_id)) [
          | inl no_pin ↦ let k = rw (found, live, no_pin, unlock) at e in absurd (ground arith)
          | inr (stored, has) ↦ elim (Result-cases (verify_pin a pin stored)) [
            | inr (x, q) ↦ let k = rw (found, live, has, q, unlock) at e in absurd (ground arith)
            | inl (false, q) ↦
                let k = rw (found, live, has, q, unlock) at e in absurd (ground arith)
            | inl (true, q) ↦
                let k = rw (found, live, has, q, unlock) at e in
                let user = refresh-user hash_refresh token fresh now db row g found (
                  refresh_request-answer hash_refresh cookie token fresh now db g plain nonempty
                    k) in
                record {
                  row = row;
                  found = found;
                  unrevoked = live;
                  owner = user;
                  stored = stored;
                  has_pin = ap pin_hash (sym user) ∙ has;
                  same_pin = q;
                }
          ]
        ]
      ]
    ]
