-- ===== src/Auth/Otp/Attempts.antt =====
-- A challenge is good for one success and for five comparisons.
use naivolt.Base.{
  ℕ, ltb, leb, ◌+◌, ◌-◌, ◌*◌, ◌≤◌, ◌<◌, ◌≡◌, ◌⊎◌, refl, Bool, true, false, none, some, is_some,
  List, [], ◌∷◌, Result, ok, err, if◌then◌else◌, inl, inr, Bool-cases, Result-cases, arith,
}
use naivolt.Base.Text.{Text}
use naivolt.Auth.Identifier.{Identifier}
use naivolt.Auth.Otp.{
  Argon2, OtpChallenge, OtpError, incorrect, hash_failed, max_attempts, hash_code, new, verify,
}

-- Open for another attempt at an instant.
pub record IsOpen (now : ℕ) (c : OtpChallenge) : Type 0 where
  pub unused : is_some c.consumed_at ≡ false
  pub fresh : c.expires_at < now → ⊥
  pub attempts_left : c.attempts < max_attempts

-- What a call of `verify` on an open challenge compares.
abbrev pub compared : Argon2 → Text → ℕ → OtpChallenge → Result OtpError (Unit {0}) × OtpChallenge
compared a submitted now c = elim (a.verify_password submitted c.code_hash) [
  | err e ↦ (err (hash_failed e), record c { attempts = c.attempts + 1 })
  | ok true ↦ (ok tt, record c { attempts = c.attempts + 1; consumed_at = some now })
  | ok false ↦
      (err (incorrect (max_attempts - (c.attempts + 1))), record c { attempts = c.attempts + 1 })
]

-- Does an answer come from a comparison with the hash?
abbrev pub is_compared : Result OtpError (Unit {0}) → Bool
is_compared (ok done) = true
is_compared (err (incorrect left)) = true
is_compared (err (hash_failed e)) = true
is_compared (err _) = false

abbrev pub is_ok : Result OtpError (Unit {0}) → Bool
is_ok (ok done) = true
is_ok (err e) = false

-- A call compares the code if the challenge is open, and otherwise refuses, with the challenge as it
-- was.
pub verify-cases :
    (a : Argon2) (submitted : Text) (now : ℕ) (c : OtpChallenge)
    → (IsOpen now c × (verify a submitted now c ≡ compared a submitted now c))
      ⊎ ((¬ IsOpen now c)
          × (is_compared (verify a submitted now c).0 ≡ false)
          × ((verify a submitted now c).1 ≡ c))
unfolding verify
verify-cases a submitted now c = elim (Bool-cases (is_some c.consumed_at)) [
  | inl used ↦ inr (λ o. absurd (ground (o.unused, arith)), rw used refl, rw used refl)
  | inr unused ↦ elim (Bool-cases (ltb c.expires_at now)) [
    | inl late ↦ inr (λ o. o.fresh (ground arith), rw (unused, late) refl, rw (unused, late) refl)
    | inr fresh ↦ elim (Bool-cases (leb max_attempts c.attempts)) [
      | inl spent ↦ inr (
        λ o. absurd (ground (o.attempts_left, arith)),
        rw (unused, fresh, spent) refl,
        rw (unused, fresh, spent) refl,
      )
      | inr left ↦ inl (
        record { unused = unused; fresh = λ h. ground arith; attempts_left = ground arith },
        rw (unused, fresh, left) refl,
      )
    ]
  ]
]

compared-counts :
    (a : Argon2) (submitted : Text) (now : ℕ) (c : OtpChallenge)
    → ((compared a submitted now c).1.attempts ≡ c.attempts + 1)
      × (is_ok (compared a submitted now c).0 ≡ true
          → is_some (compared a submitted now c).1.consumed_at ≡ true)
compared-counts a submitted now c = elim (Result-cases (a.verify_password submitted c.code_hash)) [
  | inr (e, q) ↦ rw (q, compared) (refl, λ h. ground arith)
  | inl (true, q) ↦ rw (q, compared) (refl, λ h. refl)
  | inl (false, q) ↦ rw (q, compared) (refl, λ h. ground arith)
]

-- How many of the submissions, each a code and an instant, were compared with the hash.
abbrev pub comparisons : Argon2 → List (Text × ℕ) → OtpChallenge → ℕ
comparisons a [] c = 0
comparisons a ((submitted, now) ∷ rest) c =
    let (r, c₁) = verify a submitted now c in
    (if is_compared r then 1 else 0) + comparisons a rest c₁

-- How many of the submissions were accepted.
abbrev pub successes : Argon2 → List (Text × ℕ) → OtpChallenge → ℕ
successes a [] c = 0
successes a ((submitted, now) ∷ rest) c =
    let (r, c₁) = verify a submitted now c in (if is_ok r then 1 else 0) + successes a rest c₁

one_at_most : (b : Bool) (n : ℕ) → (if b then 1 else 0) + n ≤ n + 1
one_at_most b n = ground arith

not_compared : (r : Result OtpError (Unit {0})) → is_compared r ≡ false → is_ok r ≡ false
not_compared r h = ground arith

comparisons-bounded :
    (a : Argon2) (submissions : List (Text × ℕ)) (c : OtpChallenge)
    → c.attempts ≤ max_attempts
    → comparisons a submissions c + c.attempts ≤ max_attempts
comparisons-bounded a [] c h = omega (arith, h)
comparisons-bounded a ((submitted, now) ∷ rest) c h = elim (verify-cases a submitted now c) [
  | inl (open_, e) ↦
      let counts = (compared-counts a submitted now c).0 in
      let left = open_.attempts_left in
      let more =
        comparisons-bounded a rest (compared a submitted now c).1 (omega (arith, counts, left)) in
      let one =
        one_at_most (is_compared (compared a submitted now c).0)
          (comparisons a rest (compared a submitted now c).1) in
      rw e (omega (arith, more, one, counts))
  | inr (shut, plain, same) ↦ rw (plain, same) (omega (arith, comparisons-bounded a rest c h))
]

successes-used :
    (a : Argon2) (submissions : List (Text × ℕ)) (c : OtpChallenge)
    → is_some c.consumed_at ≡ true
    → successes a submissions c ≡ 0
successes-used a [] c h = refl
successes-used a ((submitted, now) ∷ rest) c h = elim (verify-cases a submitted now c) [
  | inl (open_, e) ↦ absurd (ground (open_.unused, arith))
  | inr (shut, plain, same) ↦
      rw (not_compared (verify a submitted now c).0 plain, same)
        (omega (arith, successes-used a rest c h))
]

successes-bounded :
    (a : Argon2) (submissions : List (Text × ℕ)) (c : OtpChallenge) → successes a submissions c ≤ 1
successes-bounded a [] c = omega arith
successes-bounded a ((submitted, now) ∷ rest) c = elim (verify-cases a submitted now c) [
  | inr (shut, plain, same) ↦
      rw (not_compared (verify a submitted now c).0 plain, same)
        (omega (arith, successes-bounded a rest c))
  | inl (open_, e) ↦ elim (Bool-cases (is_ok (compared a submitted now c).0)) [
    | inl accepted ↦
        let used =
          successes-used a rest (compared a submitted now c).1
            ((compared-counts a submitted now c).1 accepted) in
        rw e (rw (accepted, used) (omega arith))
    | inr refused ↦
        rw e (rw refused (omega (arith, successes-bounded a rest (compared a submitted now c).1)))
  ]
]

-- The fields that a new challenge starts with.
new-fields :
    (a : Argon2) (salt : ℕ) (i : Identifier) (code : Text) (now : ℕ) {c : OtpChallenge}
    → new a salt i code now ≡ ok c
    → (c.attempts ≡ 0)
      × (c.consumed_at ≡ none)
      × (c.expires_at ≡ now + 10 * 60 * 1000)
      × (a.hash_password salt code ≡ ok c.code_hash)
unfolding new hash_code
new-fields a salt i code now {c} e = elim (Result-cases (a.hash_password salt code)) [
  | inl (h, q) ↦ ground (arith, q)
  | inr (x, q) ↦ absurd (ground arith)
]

-- A challenge is compared with at most five submitted codes and accepts at most one of them, whatever
-- is submitted and whenever: a code cannot be guessed at without end, nor used twice.
pub verify-bounded :
    (a : Argon2) (salt : ℕ) (i : Identifier) (code : Text) (now : ℕ) {c : OtpChallenge}
    → new a salt i code now ≡ ok c
    → (submissions : List (Text × ℕ))
    → (comparisons a submissions c ≤ max_attempts) × (successes a submissions c ≤ 1)
verify-bounded a salt i code now {c} e submissions =
    let fields = new-fields a salt i code now {c = c} e in
    let all_ = comparisons-bounded a submissions c (omega (arith, fields.0)) in
    (omega (arith, all_), successes-bounded a submissions c)

-- The hash function accepts a code against its own hash.
abbrev pub AcceptsOwn : Argon2 → Type 0
AcceptsOwn a =
    (salt : ℕ) (code h : Text)
    → a.hash_password salt code ≡ ok h
    → a.verify_password code h ≡ ok true

-- The code that a challenge was issued with is accepted until the challenge expires, and consumes it,
-- if the hash function accepts what it hashed.
pub verify-new :
    (a : Argon2) (salt : ℕ) (i : Identifier) (code : Text) (now later : ℕ) {c : OtpChallenge}
    → AcceptsOwn a
    → new a salt i code now ≡ ok c
    → later ≤ now + 10 * 60 * 1000
    → ((verify a code later c).0 ≡ ok tt) × ((verify a code later c).1.consumed_at ≡ some later)
verify-new a salt i code now later {c} honest e h =
    let (attempts, consumed, expires, hashed) = new-fields a salt i code now {c = c} e in
    let fine = honest salt code c.code_hash hashed in
    elim (verify-cases a code later c) [
      | inl (open_, q) ↦ rw q (rw (fine, compared) (refl, refl))
      | inr (shut, plain, same) ↦ absurd (
          shut (record {
            unused = rw consumed refl;
            fresh = λ late. omega (arith, expires, h, late);
            attempts_left = omega (arith, attempts);
          }))
    ]
