-- ===== src/Auth/Pin/Guessable.antt =====
-- The six digits that are refused, described by position.
use mathlib.Core.Bool.{Bool}
use mathlib.Core.Path.{ap₂}
use naivolt.Base.{
  ◌∙◌, ◌==◌, all, length, ℕ, ◌+◌, ◌-◌, ◌*◌, ◌≤◌, ◌≡◌, ◌⊎◌, ◌↔◌, inl, inr, refl, sym, List, [], ◌∷◌,
  arith, true, false, ◌||◌, map, if◌then◌else◌, Result, ok, err,
}
use naivolt.Base.Text.{Text, text_eq, is_digit}
use naivolt.Auth.Pin.{
  PinError, too_common, all_same, windows_all, parse_digits, is_repeated, is_year,
  validate_pin_strength,
}

module _ (a b c d e f : ℕ) where
  abbrev pub six : List ℕ
  six = a ∷ b ∷ c ∷ d ∷ e ∷ f ∷ []

  -- One digit six times.
  abbrev pub IsConstant : Type 0
  IsConstant = (b ≡ a) × (c ≡ a) × (d ≡ a) × (e ≡ a) × (f ≡ a)

  -- A run of consecutive digits, up or down.
  abbrev pub IsRun : Type 0
  IsRun =
      ((b ≡ a + 1) × (c ≡ a + 2) × (d ≡ a + 3) × (e ≡ a + 4) × (f ≡ a + 5))
      ⊎ ((a ≡ f + 5) × (b ≡ f + 4) × (c ≡ f + 3) × (d ≡ f + 2) × (e ≡ f + 1))

  -- A pair three times, or a triple twice.
  abbrev pub IsRepeated : Type 0
  IsRepeated = ((c ≡ a) × (d ≡ b) × (e ≡ a) × (f ≡ b)) ⊎ ((d ≡ a) × (e ≡ b) × (f ≡ c))

  -- A year from 1940 to 2030, then two zeros.
  abbrev pub IsYear : Type 0
  IsYear =
      (1940 ≤ 1000 * a + 100 * b + 10 * c + d)
      × (1000 * a + 100 * b + 10 * c + d ≤ 2030)
      × (e ≡ 0)
      × (f ≡ 0)

  abbrev pub AreDigits : Type 0
  AreDigits = (a ≤ 9) × (b ≤ 9) × (c ≤ 9) × (d ≤ 9) × (e ≤ 9) × (f ≤ 9)

  all_same_iff : (all_same six ≡ true) ↔ IsConstant
  unfolding all_same
  all_same_iff = ground arith

  ascending_iff :
      (windows_all (λ x y. y == x + 1) six ≡ true)
      ↔ ((b ≡ a + 1) × (c ≡ a + 2) × (d ≡ a + 3) × (e ≡ a + 4) × (f ≡ a + 5))
  unfolding windows_all
  ascending_iff = ground arith

  descending_iff :
      (windows_all (λ x y. x == y + 1) six ≡ true)
      ↔ ((a ≡ f + 5) × (b ≡ f + 4) × (c ≡ f + 3) × (d ≡ f + 2) × (e ≡ f + 1))
  unfolding windows_all
  descending_iff = ground arith

  is_repeated_iff : (is_repeated six ≡ true) ↔ IsRepeated
  unfolding is_repeated text_eq
  is_repeated_iff = ground arith

  is_year_iff : AreDigits → (is_year (map (λ x. b'0' + x) six) six ≡ true) ↔ IsYear
  unfolding is_year text_eq parse_digits
  is_year_iff h = ground arith

  digits_all : AreDigits → all is_digit (map (λ x. b'0' + x) six) ≡ true
  digits_all h = ground arith

either_iff {ℓ} : {A B C D : Type ℓ} → A ↔ B → C ↔ D → (A ⊎ C) ↔ (B ⊎ D)
either_iff h k = (
  λ x. elim x [ inl a ↦ inl (h.0 a) | inr c ↦ inr (k.0 c) ],
  λ y. elim y [ inl b ↦ inl (h.1 b) | inr d ↦ inr (k.1 d) ],
)

map-digits : (ds : List ℕ) → map (λ x. x - b'0') (map (λ x. b'0' + x) ds) ≡ ds
map-digits [] = refl
map-digits (d ∷ ds) = ap₂ ◌∷◌ (omega arith) (map-digits ds)

-- The checks in their order, on the outcomes of the tests.
abbrev verdict : (constant rising falling repeated year : Bool) → Result PinError (Unit {0})
verdict constant rising falling repeated year =
    if constant
    then err too_common
    else if rising || falling
    then err too_common
    else if repeated
    then err too_common
    else if year
    then err too_common
    else ok tt

-- One test that holds is enough for a refusal.
verdict_iff :
    (s u w r y : Bool)
    → (verdict s u w r y ≡ err too_common)
      ↔ ((s ≡ true) ⊎ (((u ≡ true) ⊎ (w ≡ true)) ⊎ ((r ≡ true) ⊎ (y ≡ true))))
verdict_iff true u w r y = (λ h. inl refl, λ h. refl)
verdict_iff false true w r y = (λ h. inr (inl (inl refl)), λ h. refl)
verdict_iff false false true r y = (λ h. inr (inl (inr refl)), λ h. refl)
verdict_iff false false false true y = (λ h. inr (inr (inl refl)), λ h. refl)
verdict_iff false false false false true = (λ h. inr (inr (inr refl)), λ h. refl)
verdict_iff false false false false false = ground arith

validate-verdict :
    (pin digits : Text)
    → length pin ≡ 6
    → all is_digit pin ≡ true
    → map (λ x. x - b'0') pin ≡ digits
    → validate_pin_strength pin
      ≡ verdict
          (all_same digits)
          (windows_all (λ x y. y == x + 1) digits)
          (windows_all (λ x y. x == y + 1) digits)
          (is_repeated digits)
          (is_year pin digits)
unfolding validate_pin_strength
validate-verdict pin digits long h e = rw e (rw h (rw long refl))

module _ (a b c d e f : ℕ) where
  -- A PIN of six digits is refused as too common exactly when it is one digit six times, a run of
  -- consecutive digits up or down, a pair or a triple repeated, or a year from 1940 to 2030 with two
  -- zeros after it.
  pub validate_pin_strength_iff :
      AreDigits a b c d e f
      → (validate_pin_strength (map (λ x. b'0' + x) (six a b c d e f)) ≡ err too_common) ↔ (
          IsConstant a b c d e f
          ⊎ (IsRun a b c d e f ⊎ (IsRepeated a b c d e f ⊎ IsYear a b c d e f)))
  validate_pin_strength_iff h =
      let digits : Text = six a b c d e f in
      let pin : Text = map (λ x. b'0' + x) digits in
      let tests =
        verdict_iff (all_same digits) (windows_all (λ x y. y == x + 1) digits)
          (windows_all (λ x y. x == y + 1) digits) (is_repeated digits) (is_year pin digits) in
      let same = validate-verdict pin digits refl (digits_all a b c d e f h) (map-digits digits) in
      let each = either_iff (all_same_iff a b c d e f) (
        either_iff (either_iff (ascending_iff a b c d e f) (descending_iff a b c d e f))
          (either_iff (is_repeated_iff a b c d e f) (is_year_iff a b c d e f h))) in
      (λ v. each.0 (tests.0 (sym same ∙ v)), λ p. same ∙ tests.1 (each.1 p))
