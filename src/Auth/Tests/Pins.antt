-- ===== src/Auth/Tests/Pins.antt =====
-- Runs of the PIN check on the PINs of its tests, and an instance of its theorem.
use naivolt.Base.{◌+◌, ◌≡◌, ◌⊎◌, ◌↔◌, refl, map, ok, err, arith}
use naivolt.Base.Text.{codes, text_eq}
use naivolt.Auth.Pin.{
  validate_pin_strength, too_common, all_same, windows_all, is_repeated, is_year, parse_digits,
}
use naivolt.Auth.Pin.Guessable.{
  six, IsConstant, IsRun, IsRepeated, IsYear, validate_pin_strength_iff,
}

refuses_year : validate_pin_strength (codes "199000") ≡ err too_common
unfolding validate_pin_strength all_same windows_all is_repeated is_year parse_digits text_eq
refuses_year = refl

-- A year at the end is not refused.
accepts_year_suffix : validate_pin_strength (codes "571990") ≡ ok tt
unfolding validate_pin_strength all_same windows_all is_repeated is_year parse_digits text_eq
accepts_year_suffix = refl

validate_pin_strength_iff_example :
    (validate_pin_strength (map (λ x. b'0' + x) (six 4 2 8 1 9 3)) ≡ err too_common)
    ↔ (IsConstant 4 2 8 1 9 3 ⊎ (IsRun 4 2 8 1 9 3 ⊎ (IsRepeated 4 2 8 1 9 3 ⊎ IsYear 4 2 8 1 9 3)))
validate_pin_strength_iff_example = validate_pin_strength_iff 4 2 8 1 9 3 (omega arith)
