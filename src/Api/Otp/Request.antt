-- ===== src/Api/Otp/Request.antt =====
-- What a request for a code leaves when it is answered without an error.
use naivolt.Base.{
  ℕ, ◌+◌, ◌≡◌, refl, ap, ◌∙◌, none, [], ◌∷◌, ◌++◌, ok, err, inl, inr, Bool-cases, Option-cases,
  Result-cases, arith,
}
use naivolt.Base.Text.{Text}
use naivolt.Auth.Identifier.{Channel, Identifier, subject, channel, parse_identifier}
use naivolt.Auth.Otp.{Argon2, OtpChallenge, hash_code, new}
use naivolt.Api.Otp.{OtpDb, Services, last_sent, delete_live, retry_after, request_otp}

-- The challenge that `new` makes.
abbrev pub challenge_of : Identifier → Text → ℕ → OtpChallenge
challenge_of identifier hash now = record {
  destination = subject identifier;
  channel = channel identifier;
  code_hash = hash;
  expires_at = now + 600000;
  attempts = 0;
  consumed_at = none;
  last_sent_at = now;
}

-- The tables with the challenge in place of the live one.
abbrev pub stored : Identifier → Text → ℕ → OtpDb → OtpDb
stored identifier hash now db = record db {
  rows =
      delete_live (subject identifier) db.rows
      ++ record { id = db.next_id; challenge = challenge_of identifier hash now } ∷ [];
  next_id = db.next_id + 1;
}

hash_code-hashed :
    (a : Argon2) (salt : ℕ) (code hash : Text)
    → hash_code a salt code ≡ ok hash
    → a.hash_password salt code ≡ ok hash
unfolding hash_code
hash_code-hashed a salt code hash e = elim (Result-cases (a.hash_password salt code)) [
  | inr (failed, q) ↦ let k = rw (q, hash_code) at e in absurd (ground arith)
  | inl (h, q) ↦
      let k = rw (q, hash_code) at e in
      let same : h ≡ hash = ap (λ z. elim z [ err x ↦ [] | ok t ↦ t ]) k in q ∙ ap ok same
]

new-hashed :
    (a : Argon2) (salt : ℕ) (identifier : Identifier) (code : Text) (now : ℕ) (c : OtpChallenge)
    → new a salt identifier code now ≡ ok c
    → (hash : Text) × (a.hash_password salt code ≡ ok hash)
      × (new a salt identifier code now ≡ ok (challenge_of identifier hash now))
unfolding new
new-hashed a salt identifier code now c e = elim (Result-cases (hash_code a salt code)) [
  | inr (failed, q) ↦ let k = rw (q, new) at e in absurd (ground arith)
  | inl (h, q) ↦ (h, hash_code-hashed a salt code h q, rw (q, new) refl)
]

pub request_otp-stored :
    (services : Services) (raw : Text) (salt : ℕ) (code : Text) (now : ℕ) (db : OtpDb) (c : Channel)
    → (request_otp services raw salt code now db).0 ≡ ok c
    → (identifier : Identifier) × (parse_identifier raw ≡ ok identifier)
      × (hash : Text) × (services.argon2.hash_password salt code ≡ ok hash)
      × ((request_otp services raw salt code now db).1 ≡ stored identifier hash now db)
unfolding request_otp
request_otp-stored services raw salt code now db c e = elim (Result-cases (parse_identifier raw)) [
  | inr (unread, q) ↦ let k = rw (q, request_otp) at e in absurd (ground arith)
  | inl (identifier, read) ↦
      elim (Option-cases (retry_after now (last_sent (subject identifier) db.rows))) [
        | inr (wait, q) ↦ let k = rw (read, q, request_otp) at e in absurd (ground arith)
        | inl ready ↦ elim (Result-cases (new services.argon2 salt identifier code now)) [
          | inr (failed, q) ↦ let k = rw (read, ready, q, request_otp) at e in absurd (ground arith)
          | inl (challenge, q) ↦
              let (hash, hashed, made) =
                new-hashed services.argon2 salt identifier code now challenge q in
              elim (Bool-cases
                (services.send_code (subject identifier) (channel identifier) code)) [
                  | inr lost ↦
                      let k = rw (read, ready, made, lost, request_otp) at e in
                      absurd (ground arith)
                  | inl delivered ↦ (
                    identifier,
                    read,
                    hash,
                    hashed,
                    rw (read, ready, made, delivered, request_otp) refl,
                  )
                ]
        ]
      ]
]
