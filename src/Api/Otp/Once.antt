-- ===== src/Api/Otp/Once.antt =====
-- A code that was sent is accepted, and once.
use naivolt.Base.{
  ◌*◌, ◌∙◌, sym, ◌⊎◌, ℕ, ◌+◌, ◌≤◌, ◌≡◌, refl, ap, ◌==◌, ltb, true, false, none, some, is_some, List,
  [], ◌∷◌, ◌++◌, map, ok, inl, inr, Bool-cases, arith,
}
use naivolt.Base.Text.{Text, text_eq_refl}
use naivolt.Ledger.Account.{Uuid}
use naivolt.Auth.Identifier.{Channel, Identifier, subject, parse_identifier}
use naivolt.Auth.Otp.{Argon2, OtpChallenge, verify}
use naivolt.Auth.Identity.{from_verified_otp}
use naivolt.Auth.Session.{issue_refresh, refresh_ttl_days}
use naivolt.Api.Error.{ApiError}
use naivolt.Api.Sessions.{
  SessionRow, SessionsDb, Granted, find_session, insert_session, start_session,
}
use naivolt.Api.Sessions.Lookup.{find_session-last}
use naivolt.Api.SignIn.{sign_in}
use naivolt.Api.Otp.Known.{IsLinked, sign_in-known_user}
use naivolt.Api.Otp.{
  Result, Bool, err, has_user, ChallengeRow, OtpDb, Services, is_live, delete_live, find_live,
  request_otp, counted, admit, verify_otp,
}
use naivolt.Api.Otp.Request.{challenge_of, stored, request_otp-stored}

delete_live-dead : (s : Text) (rows : List ChallengeRow) → find_live s (delete_live s rows) ≡ none
unfolding find_live delete_live
delete_live-dead s [] = refl
delete_live-dead s (r ∷ rows) = elim (Bool-cases (is_live s r)) [
  | inl live ↦ rw live (delete_live-dead s rows)
  | inr dead ↦ rw (dead, dead) (delete_live-dead s rows)
]

find_live-last :
    (s : Text) (r : ChallengeRow) (rows : List ChallengeRow)
    → find_live s rows ≡ none
    → is_live s r ≡ true
    → find_live s (rows ++ r ∷ []) ≡ some r
unfolding find_live
find_live-last s r [] dead live = rw live refl
find_live-last s r (x ∷ rows) dead live = elim (Bool-cases (is_live s x)) [
  | inl other ↦ let k = rw other at dead in absurd (ground arith)
  | inr miss ↦ let k = rw miss at dead in rw miss (find_live-last s r rows k live)
]

-- A consumed challenge is live no more.
is_live-counted :
    (s : Text) (id : Uuid) (c : OtpChallenge) (r : ChallengeRow)
    → is_some c.consumed_at ≡ true
    → (id == r.id ≡ true) ⊎ (is_live s r ≡ false)
    → is_live s (counted id c r) ≡ false
is_live-counted s id c r spent which = elim (Bool-cases (id == r.id)) [
  | inl hit ↦ rw (hit, spent) (ground arith)
  | inr miss ↦ rw miss (ground arith)
]

find_live-counted :
    (s : Text) (r : ChallengeRow) (c : OtpChallenge) (rows : List ChallengeRow)
    → is_some c.consumed_at ≡ true
    → find_live s rows ≡ none
    → find_live s (map (counted r.id c) (rows ++ r ∷ [])) ≡ none
unfolding find_live
find_live-counted s r c [] spent dead =
    rw (is_live-counted s r.id c r spent (inl (ground arith))) refl
find_live-counted s r c (x ∷ rows) spent dead = elim (Bool-cases (is_live s x)) [
  | inl other ↦ let k = rw other at dead in absurd (ground arith)
  | inr miss ↦
      let k = rw miss at dead in
      rw (is_live-counted s r.id c x spent (inr miss)) (find_live-counted s r c rows spent k)
]

-- The right code for a fresh challenge.
verify-accepts :
    (a : Argon2) (identifier : Identifier) (code hash : Text) (now at : ℕ)
    → a.verify_password code hash ≡ ok true
    → at ≤ now + 600000
    → verify a code at (challenge_of identifier hash now)
      ≡ (ok tt, record (challenge_of identifier hash now) { attempts = 1; consumed_at = some at })
unfolding verify
verify-accepts a identifier code hash now at right early =
    let fresh : ltb (now + 600000) at ≡ false = ground arith in rw (fresh, right, verify) refl

verify_otp-admits :
    (services : Services) (raw submitted secret : Text) (family : Uuid) (now : ℕ) (db : OtpDb)
    (identifier : Identifier) (row : ChallengeRow) (c : OtpChallenge)
    → parse_identifier raw ≡ ok identifier
    → find_live (subject identifier) db.rows ≡ some row
    → verify services.argon2 submitted now row.challenge ≡ (ok tt, c)
    → verify_otp services raw submitted secret family now db
      ≡ admit services identifier secret family now (map (counted row.id c) db.rows) db
unfolding verify_otp
verify_otp-admits services raw submitted secret family now db identifier row c read live right =
    rw (read, live, ap (λ z. z.0) right, verify_otp)
      (ap (λ z. admit services identifier secret family now (map (counted row.id z) db.rows) db)
        (ap (λ z. z.1) right))

verify_otp-dead :
    (services : Services) (raw submitted secret : Text) (family : Uuid) (now : ℕ) (db : OtpDb)
    (identifier : Identifier)
    → parse_identifier raw ≡ ok identifier
    → find_live (subject identifier) db.rows ≡ none
    → (verify_otp services raw submitted secret family now db).0 ≡ err ApiError.otp_expired
unfolding verify_otp
verify_otp-dead services raw submitted secret family now db identifier read dead =
    rw (read, dead, verify_otp) refl

-- The user is let in: the answer grants a session to the user, the tables of users are those of the
-- sign-in, the session is found under its token, and the challenges are `rows`.
pub record IsAdmitted (services : Services) (identifier : Identifier) (user : Uuid) (is_new : Bool)
    (secret : Text) (family : Uuid) (now : ℕ) (rows : List ChallengeRow) (db : OtpDb)
    (result : Result ApiError (Granted × Bool) × OtpDb) : Type 0 where
  pub answer :
      result.0 ≡ ok (record { user_id = user; family_id = family; refresh_token = secret }, is_new)
  pub challenges : result.1.rows ≡ rows
  pub users :
      result.1.users ≡ (sign_in services.derive_all (from_verified_otp identifier) now db.users).1
  pub session : SessionRow
  pub found : find_session (services.hash_refresh secret) result.1.sessions.rows ≡ some session
  pub owner : session.session.user_id ≡ user

abbrev new_session : (Text → Text) → Text → Uuid → Uuid → ℕ → Uuid → SessionRow
new_session hash_refresh secret family user now id = record {
  session = record {
    id = id;
    user_id = user;
    family_id = family;
    expires_at = now + refresh_ttl_days * 24 * 60 * 60 * 1000;
    rotated_at = none;
    revoked_at = none;
  };
  refresh_token_hash = hash_refresh secret;
}

start_session-started :
    (hash_refresh : Text → Text) (secret : Text) (family user : Uuid) (now : ℕ) (db : SessionsDb)
    → find_session (hash_refresh secret) db.rows ≡ none
    → start_session hash_refresh secret family user now db ≡ (
      ok record { user_id = user; family_id = family; refresh_token = secret },
      record {
        rows = db.rows ++ new_session hash_refresh secret family user now db.next_id ∷ [];
        next_id = db.next_id + 1;
      },
    )
unfolding start_session insert_session issue_refresh
start_session-started hash_refresh secret family user now db unused =
    rw (unused, start_session) refl

admit-IsAdmitted :
    (services : Services) (identifier : Identifier) (secret : Text) (family : Uuid) (now : ℕ)
    (rows : List ChallengeRow) (db : OtpDb) (user : Uuid) (is_new : Bool)
    → let after = sign_in services.derive_all (from_verified_otp identifier) now db.users in
      after.0 ≡ ok (user, is_new)
      → has_user user after.1.users ≡ true
      → find_session (services.hash_refresh secret) db.sessions.rows ≡ none
      → IsAdmitted services identifier user is_new secret family now rows db
          (admit services identifier secret family now rows db)
unfolding admit
admit-IsAdmitted services identifier secret family now rows db user is_new e known unused =
    let started =
      start_session-started services.hash_refresh secret family user now db.sessions unused in
    rw (e, known, started, admit, started)
      (record {
        answer = refl;
        challenges = refl;
        users = refl;
        session = new_session services.hash_refresh secret family user now db.sessions.next_id;
        found =
            find_session-last (services.hash_refresh secret) db.sessions.rows
              (new_session services.hash_refresh secret family user now db.sessions.next_id) unused
              refl;
        owner = refl;
      })

module _ (services : Services) (raw : Text) (salt : ℕ) (code : Text) (now : ℕ) (db : OtpDb)
    (c : Channel) (secret : Text) (family : Uuid) (at : ℕ) (identifier : Identifier) (user : Uuid)
    (is_new : Bool)
    (agrees : (hash : Text)
      → services.argon2.hash_password salt code ≡ ok hash
      → services.argon2.verify_password code hash ≡ ok true)
    (linked : IsLinked db.users)
    (unused : find_session (services.hash_refresh secret) db.sessions.rows ≡ none)
    (read : parse_identifier raw ≡ ok identifier)
    (e : (request_otp services raw salt code now db).0 ≡ ok c) (early : at ≤ now + 600000)
    (proven : (sign_in services.derive_all (from_verified_otp identifier) at db.users).0
      ≡ ok (user, is_new)) where
  -- Let Argon2 accept a code for its own hash, every identity be of a user on record, the secret of the
  -- new session be unused, and the sign-in of the requested address or number succeed. Then the code
  -- that a request has sent, submitted within ten minutes, is answered with a session of the user, which
  -- is stored as are the changes of the sign-in, and after it whatever is submitted for the same address
  -- or number is refused as expired.
  pub request_otp-accepted :
      let sent = (request_otp services raw salt code now db).1 in
      let result = verify_otp services raw code secret family at sent in
      (rows : List ChallengeRow) × IsAdmitted services identifier user is_new secret family at rows
        sent result
      × ((again secret' : Text) (family' : Uuid) (later : ℕ)
          → (verify_otp services raw again secret' family' later result.1).0
            ≡ err ApiError.otp_expired)
  request_otp-accepted =
      let (other, read', hash, hashed, left') =
        request_otp-stored services raw salt code now db c e in
      let same : other ≡ identifier =
        ap (λ z. elim z [ err x ↦ other | ok x ↦ x ]) (sym read' ∙ read) in
      let left = rw same at left' in
      let s = subject identifier in
      let dead = delete_live-dead s db.rows in
      let r : ChallengeRow = record {
        id = db.next_id;
        challenge = challenge_of identifier hash now;
      } in
      let live = find_live-last s r (delete_live s db.rows) dead (rw (text_eq_refl s) refl) in
      let accepts =
        verify-accepts services.argon2 identifier code hash now at (agrees hash hashed) early in
      let spent : OtpChallenge = record (challenge_of identifier hash now) {
        attempts = 1;
        consumed_at = some at;
      } in
      let rows = map (counted r.id spent) (delete_live s db.rows ++ r ∷ []) in
      let gone = find_live-counted s r spent (delete_live s db.rows) refl dead in
      let admits =
        verify_otp-admits services raw code secret family at (stored identifier hash now db)
          identifier r spent read live accepts in
      let known =
        sign_in-known_user services.derive_all (from_verified_otp identifier) at db.users user
          is_new linked proven in
      let fine =
        admit-IsAdmitted services identifier secret family at rows (stored identifier hash now db)
          user is_new proven known unused in
      (
        rows,
        rw (left, admits) fine,
        λ again secret' family' later.
            rw (left, admits)
              (verify_otp-dead services raw again secret' family' later
                (admit services identifier secret family at rows (stored identifier hash now db)).1
                identifier read (ap (find_live s) fine.challenges ∙ gone)),
      )
