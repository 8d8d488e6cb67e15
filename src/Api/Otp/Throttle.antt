-- ===== src/Api/Otp/Throttle.antt =====
-- How often a code is sent to one destination.
use naivolt.Base.{
  ℕ, ◌+◌, ◌-◌, ◌/◌, ◌≤◌, ◌<◌, ltb, ◌≡◌, refl, ap, ◌∙◌, ◌==◌, true, some, List, [], ◌∷◌, ◌++◌, map,
  ok, err, inl, inr, Bool-cases, Option-cases, Result-cases, arith,
}
use naivolt.Base.Int.{pos}
use naivolt.Base.Text.{Text, text_eq, text_eq_refl}
use naivolt.Ledger.Account.{Uuid}
use naivolt.Auth.Identifier.{Channel, Identifier, subject, parse_identifier}
use naivolt.Auth.Otp.{OtpChallenge, verify}
use naivolt.Api.Error.{ApiError}
use naivolt.Api.Sessions.{start_session}
use naivolt.Auth.Identity.{from_verified_otp}
use naivolt.Api.SignIn.{sign_in}
use naivolt.Api.Otp.Request.{challenge_of, request_otp-stored}
use naivolt.Api.Otp.{
  ChallengeRow, OtpDb, Services, last_sent, delete_live, find_live, retry_after, request_otp,
  counted, has_user, admit, verify_otp,
}

-- A code has been sent to a destination at an instant or after it.
abbrev pub SentSince : Text → ℕ → List ChallengeRow → Type 0
SentSince s t rows = (m : ℕ) × (last_sent s rows ≡ some m) × (t ≤ m)

last_sent-last :
    (s : Text) (r : ChallengeRow) (rows : List ChallengeRow)
    → text_eq s r.challenge.destination ≡ true
    → SentSince s r.challenge.last_sent_at (rows ++ r ∷ [])
unfolding last_sent
last_sent-last s r [] e = (r.challenge.last_sent_at, rw e refl, ground arith)
last_sent-last s r (x ∷ rows) e =
    let (m, sent, since) = last_sent-last s r rows e in
    elim (Bool-cases (text_eq s x.challenge.destination)) [
      | inr other ↦ (m, rw other sent, since)
      | inl same ↦ elim (Bool-cases (ltb x.challenge.last_sent_at m)) [
        | inl before ↦ (m, rw (same, sent, before) refl, since)
        | inr not_before ↦
            (x.challenge.last_sent_at, rw (same, sent, not_before) refl, ground arith)
      ]
    ]

-- Counting an attempt is no sending.
last_sent-counted :
    (s : Text) (id : Uuid) (c : OtpChallenge) (rows : List ChallengeRow)
    → last_sent s (map (counted id c) rows) ≡ last_sent s rows
unfolding last_sent
last_sent-counted s id c [] = refl
last_sent-counted s id c (r ∷ rows) = elim (Bool-cases (id == r.id)) [
  | inl hit ↦ rw (hit, last_sent-counted s id c rows) refl
  | inr miss ↦ rw (miss, last_sent-counted s id c rows) refl
]

last_sent-admit :
    (s : Text) (services : Services) (identifier : Identifier) (secret : Text) (family : Uuid)
    (now : ℕ) (rows : List ChallengeRow) (db : OtpDb)
    → last_sent s rows ≡ last_sent s db.rows
    → last_sent s (admit services identifier secret family now rows db).1.rows ≡ last_sent s db.rows
unfolding admit
last_sent-admit s services identifier secret family now rows db same =
    let after = sign_in services.derive_all (from_verified_otp identifier) now db.users in
    elim (Result-cases after.0) [
      | inr (e, q) ↦ rw (q, admit) refl
      | inl ((user, is_new), q) ↦ elim (Bool-cases (has_user user after.1.users)) [
        | inr lost ↦ rw (q, lost, admit) refl
        | inl there ↦
            elim (Result-cases
              (start_session services.hash_refresh secret family user now db.sessions).0) [
                | inr (e, p) ↦ rw (q, there, p, admit) refl
                | inl (granted, p) ↦ rw (q, there, p, admit) same
              ]
      ]
    ]

last_sent-verify_otp :
    (s : Text) (services : Services) (raw submitted secret : Text) (family : Uuid) (now : ℕ)
    (db : OtpDb)
    → last_sent s (verify_otp services raw submitted secret family now db).1.rows
      ≡ last_sent s db.rows
unfolding verify_otp
last_sent-verify_otp s services raw submitted secret family now db =
    elim (Result-cases (parse_identifier raw)) [
      | inr (e, q) ↦ rw (q, verify_otp) refl
      | inl (identifier, q) ↦ elim (Option-cases (find_live (subject identifier) db.rows)) [
        | inl no_code ↦ rw (q, no_code, verify_otp) refl
        | inr (row, live) ↦
            let after = verify services.argon2 submitted now row.challenge in
            let counts = last_sent-counted s row.id after.1 db.rows in
            elim (Result-cases after.0) [
              | inr (e, p) ↦ rw (q, live, p, verify_otp) counts
              | inl (proven, p) ↦
                  rw (q, live, p, verify_otp)
                    (last_sent-admit s services identifier secret family now
                      (map (counted row.id after.1) db.rows) db counts)
            ]
      ]
    ]

-- A submitted code, with what the handler draws for it.
pub record Guess : Type 0 where
  pub raw : Text
  pub submitted : Text
  pub secret : Text
  pub family : Uuid
  pub at : ℕ

unfoldable pub verify_all : Services → List Guess → OtpDb → OtpDb
verify_all services [] db = db
verify_all services (g ∷ guesses) db =
    verify_all services guesses (verify_otp services g.raw g.submitted g.secret g.family g.at db).1

last_sent-verify_all :
    (s : Text) (services : Services) (guesses : List Guess) (db : OtpDb)
    → last_sent s (verify_all services guesses db).rows ≡ last_sent s db.rows
unfolding verify_all
last_sent-verify_all s services [] db = refl
last_sent-verify_all s services (g ∷ guesses) db =
    last_sent-verify_all s services guesses
      (verify_otp services g.raw g.submitted g.secret g.family g.at db).1
    ∙ last_sent-verify_otp s services g.raw g.submitted g.secret g.family g.at db

retry_after-waits :
    (now later m : ℕ)
    → now ≤ m
    → later < now + 60000
    → (wait : ℕ) × (retry_after later (some m) ≡ some wait)
unfolding retry_after
retry_after-waits now later m since soon = elim (Bool-cases (ltb later m)) [
  | inl back ↦ (60 + (m - later) / 1000, rw (back, retry_after) refl)
  | inr on ↦
      let short : ltb ((later - m) / 1000) 60 ≡ true = ground arith in
      (60 - (later - m) / 1000, rw (on, short, retry_after) refl)
]

request_otp-waiting :
    (services : Services) (raw : Text) (salt : ℕ) (code : Text) (now : ℕ) (db : OtpDb)
    (identifier : Identifier) (wait : ℕ)
    → parse_identifier raw ≡ ok identifier
    → retry_after now (last_sent (subject identifier) db.rows) ≡ some wait
    → request_otp services raw salt code now db ≡ (err (ApiError.otp_throttled (pos wait)), db)
unfolding request_otp
request_otp-waiting services raw salt code now db identifier wait read waits =
    rw (read, waits, request_otp) refl

request_otp-sent :
    (services : Services) (raw : Text) (salt : ℕ) (code : Text) (now : ℕ) (db : OtpDb) (c : Channel)
    → (request_otp services raw salt code now db).0 ≡ ok c
    → (identifier : Identifier) × (parse_identifier raw ≡ ok identifier)
      × SentSince (subject identifier) now (request_otp services raw salt code now db).1.rows
request_otp-sent services raw salt code now db c e =
    let (identifier, read, hash, hashed, left) =
      request_otp-stored services raw salt code now db c e in
    (
      identifier,
      read,
      rw left (
          last_sent-last (subject identifier)
            (record { id = db.next_id; challenge = challenge_of identifier hash now })
            (delete_live (subject identifier) db.rows) (text_eq_refl (subject identifier))),
    )

-- After a code is sent to a destination, and whatever codes are submitted for it or for others, rightly or
-- wrongly, another code is not sent there within a minute: the request is answered with the seconds to
-- wait, and changes nothing.
pub request_otp-throttled :
    (services : Services) (raw : Text) (salt salt₁ : ℕ) (code code₁ : Text) (now later : ℕ)
    (guesses : List Guess) (db : OtpDb) (c : Channel)
    → (request_otp services raw salt code now db).0 ≡ ok c
    → later < now + 60000
    → let after = verify_all services guesses (request_otp services raw salt code now db).1 in
      (wait : ℕ) × (request_otp services raw salt₁ code₁ later after
        ≡ (err (ApiError.otp_throttled (pos wait)), after))
request_otp-throttled services raw salt salt₁ code code₁ now later guesses db c e soon =
    let first = (request_otp services raw salt code now db).1 in
    let (identifier, read, (m, sent, since)) = request_otp-sent services raw salt code now db c e in
    let (wait, waits) = retry_after-waits now later m since soon in
    let still = last_sent-verify_all (subject identifier) services guesses first ∙ sent in
    (
      wait,
      request_otp-waiting services raw salt₁ code₁ later (verify_all services guesses first)
          identifier wait read (ap (retry_after later) still ∙ waits),
    )
