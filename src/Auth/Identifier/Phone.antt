-- ===== src/Auth/Identifier/Phone.antt =====
-- One phone number has one normal form.
use naivolt.Base.{
  ◌-◌, ℕ, zero, suc, drop, ◌-◌, ◌≡◌, refl, ap, true, some, [], ◌∷◌, ◌++◌, length, All, inl, inr,
  Bool-cases, Option-cases, arith,
}
use naivolt.Base.Text.{Text, codes, text_eq, is_digit}
use naivolt.Auth.Identifier.{
  drop, only_digits, starts_with, national_number, is_mobile, normalize_ng_phone,
}

-- Ten digits that begin as a mobile number does.
pub record IsNational (s : Text) : Type 0 where
  pub digits : All (λ c. is_digit c ≡ true) s
  pub ten : length s ≡ 10
  pub mobile : is_mobile s ≡ true

only_digits-id : (s : Text) → All (λ c. is_digit c ≡ true) s → only_digits s ≡ s
unfolding only_digits
only_digits-id [] h = refl
only_digits-id (c ∷ cs) h = rw (h.0) (ap (λ z. c ∷ z) (only_digits-id cs h.1))

-- The three spellings of one number have one normal form, the one with the country code, which is
-- its own normal form.
pub normalize_ng_phone-spellings :
    (s : Text)
    → IsNational s
    → (normalize_ng_phone s ≡ some (codes "+234" ++ s))
      × (normalize_ng_phone (b'0' ∷ s) ≡ some (codes "+234" ++ s))
      × (normalize_ng_phone (codes "234" ++ s) ≡ some (codes "+234" ++ s))
      × (normalize_ng_phone (codes "+234" ++ s) ≡ some (codes "+234" ++ s))
unfolding normalize_ng_phone national_number starts_with only_digits text_eq
normalize_ng_phone-spellings s h =
    let same = only_digits-id s h.digits in
    (
      rw (same, normalize_ng_phone, national_number) (rw h.ten (rw h.mobile refl)),
      rw (same, normalize_ng_phone, national_number) (rw h.ten (rw h.mobile refl)),
      rw (same, normalize_ng_phone, national_number) (rw h.ten (rw h.mobile refl)),
      rw (same, normalize_ng_phone, national_number) (rw h.ten (rw h.mobile refl)),
    )

only_digits-digits : (s : Text) → All (λ c. is_digit c ≡ true) (only_digits s)
unfolding only_digits
only_digits-digits [] = tt
only_digits-digits (c ∷ cs) = elim (Bool-cases (is_digit c)) [
  | inl digit ↦ rw digit (digit, only_digits-digits cs)
  | inr other ↦ rw other (only_digits-digits cs)
]

drop-All {κ} : (P : ℕ → Type κ) (k : ℕ) (s : Text) → All P s → All P (drop k s)
drop-All P zero s h = h
drop-All P (suc k) [] h = tt
drop-All P (suc k) (c ∷ cs) h = drop-All P k cs h.1

length-drop : (k : ℕ) (s : Text) → length (drop k s) ≡ length s - k
length-drop zero s = omega arith
length-drop (suc k) [] = omega arith
length-drop (suc k) (c ∷ cs) = omega (arith, length-drop k cs)

national_number-ten :
    (d : Text) {s : Text}
    → All (λ c. is_digit c ≡ true) d
    → national_number d ≡ some s
    → All (λ c. is_digit c ≡ true) s × (length s ≡ 10)
unfolding national_number
national_number-ten d {s} h e = ground (
  arith,
  drop-All (λ c. is_digit c ≡ true) 1 d h,
  drop-All (λ c. is_digit c ≡ true) 3 d h,
  length-drop 1 d,
  length-drop 3 d,
)

-- A normal form is the country code and a national number, and it is its own normal form.
pub normalize_ng_phone-canonical :
    (input : Text) {out : Text}
    → normalize_ng_phone input ≡ some out
    → (s : Text) × (out ≡ codes "+234" ++ s) × IsNational s × (normalize_ng_phone out ≡ some out)
unfolding normalize_ng_phone
normalize_ng_phone-canonical input {out} e =
    elim (Option-cases (national_number (only_digits input))) [
      | inl missing ↦ absurd (ground arith)
      | inr (s, found) ↦ elim (Bool-cases (is_mobile s)) [
        | inr landline ↦ absurd (ground arith)
        | inl mobile ↦
            let (digits, ten) =
              national_number-ten (only_digits input) {s = s} (only_digits-digits input) found in
            let same : out ≡ codes "+234" ++ s = ground arith in
            let national : IsNational s = record { digits = digits; ten = ten; mobile = mobile } in
            (s, same, national, rw same (normalize_ng_phone-spellings s national).3)
      ]
    ]
