-- ===== src/Auth/Pin/Hashing.antt =====
-- What is kept of a PIN.
use naivolt.Base.{ℕ, ◌≡◌, refl, ap, ◌∙◌, true, ok, err, inl, inr, Result-cases, arith}
use naivolt.Base.Text.{Text}
use naivolt.Auth.Otp.{Argon2}
use naivolt.Auth.Pin.{validate_pin_strength, hash_pin, verify_pin}

-- Let Argon2 accept a PIN for its own hash. Then a PIN whose hash is kept is a strong one, and is accepted.
pub hash_pin-verify :
    (a : Argon2) (salt : ℕ) (pin stored : Text)
    → ((h : Text) → a.hash_password salt pin ≡ ok h → a.verify_password pin h ≡ ok true)
    → hash_pin a salt pin ≡ ok stored
    → (validate_pin_strength pin ≡ ok tt) × (verify_pin a pin stored ≡ ok true)
unfolding hash_pin verify_pin
hash_pin-verify a salt pin stored agrees e = elim (Result-cases (validate_pin_strength pin)) [
  | inr (weak, q) ↦ let k = rw (q, hash_pin) at e in absurd (ground arith)
  | inl (strong, q) ↦ elim (Result-cases (a.hash_password salt pin)) [
    | inr (failed, p) ↦ let k = rw (q, p, hash_pin) at e in absurd (ground arith)
    | inl (h, p) ↦
        let k = rw (q, p, hash_pin) at e in
        let same : h ≡ stored = ap (λ z. elim z [ err x ↦ h | ok x ↦ x ]) k in
        (q, rw (agrees stored (p ∙ ap ok same), verify_pin) refl)
  ]
]
