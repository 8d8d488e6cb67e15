-- ===== src/Auth/Pin.antt =====
-- crates/auth/src/pin.rs: which PINs are refused as too easy to guess, and how a PIN is kept and compared.
-- Texts are ASCII, and Argon2 and the salt are parameters.
pub mod Guessable
pub mod Hashing
use naivolt.Base.{
  ℕ, ◌+◌, ◌-◌, ◌*◌, leb, ◌==◌, ◌&&◌, ◌||◌, not, Bool, true, false, List, [], ◌∷◌, length, all, take,
  drop, map, Result, ok, err, if◌then◌else◌,
}
use naivolt.Base.Text.{Text, codes, text_eq, is_digit}
use naivolt.Auth.Otp.{Argon2}

-- The text of `Hash` is the hashing library's.
pub data PinError : Type 0 where
  wrong_format too_common : PinError
  hash : Text → PinError

abbrev pub pin_length : ℕ
pin_length = 6

-- `digits.iter().all(|&d| d == digits[0])`
unfoldable pub all_same : List ℕ → Bool
all_same [] = true
all_same (d ∷ ds) = all (λ e. e == d) (d ∷ ds)

-- `digits.windows(2).all(…)`
unfoldable pub windows_all : (ℕ → ℕ → Bool) → List ℕ → Bool
windows_all p [] = true
windows_all p (c ∷ []) = true
windows_all p (c ∷ d ∷ ds) = p c d && windows_all p (d ∷ ds)

-- `parse::<u32>()` on digits
unfoldable pub parse_digits : ℕ → List ℕ → ℕ
parse_digits acc [] = acc
parse_digits acc (d ∷ ds) = parse_digits (acc * 10 + d) ds

unfoldable pub is_repeated : List ℕ → Bool
is_repeated digits =
    let second = take 2 (drop 2 digits) in
    (text_eq (take 2 digits) second && text_eq second (drop 4 digits))
    || text_eq (take 3 digits) (drop 3 digits)

unfoldable pub is_year : Text → List ℕ → Bool
is_year pin digits =
    let prefix = take 2 pin in
    let year = parse_digits 0 (take 4 digits) in
    (text_eq prefix (codes "19") || text_eq prefix (codes "20"))
    && (all is_digit (drop 2 pin)
        && ((leb 1940 year && leb year 2030) && text_eq (drop 4 pin) (codes "00")))

unfoldable pub validate_pin_strength : Text → Result PinError (Unit {0})
validate_pin_strength pin =
    let digits = map (λ b. b - b'0') pin in
    let ascending = windows_all (λ c d. d == c + 1) digits in
    let descending = windows_all (λ c d. c == d + 1) digits in
    if not (length pin == pin_length) || not (all is_digit pin)
    then err wrong_format
    else if all_same digits
    then err too_common
    else if ascending || descending
    then err too_common
    else if is_repeated digits
    then err too_common
    else if is_year pin digits
    then err too_common
    else ok tt

unfoldable pub hash_pin : Argon2 → ℕ → Text → Result PinError Text
hash_pin a salt pin = elim (validate_pin_strength pin) [
  | err e ↦ err e
  | ok strong ↦ elim (a.hash_password salt pin) [ err e ↦ err (hash e) | ok h ↦ ok h ]
]

-- The only error is a stored hash that cannot be read.
unfoldable pub verify_pin : Argon2 → Text → Text → Result PinError Bool
verify_pin a pin stored_hash = elim (a.verify_password pin stored_hash) [
  | err e ↦ err (hash e)
  | ok same ↦ ok same
]
