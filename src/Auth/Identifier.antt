-- ===== src/Auth/Identifier.antt =====
-- crates/auth/src/identifier.rs: the sign-in field, a Nigerian phone number or an email address. Texts
-- are ASCII.
pub mod Phone
use naivolt.Base.{
  ℕ, ltb, leb, Bool, true, false, Option, none, some, List, [], ◌∷◌, ◌++◌, ◌&&◌, ◌||◌, not, ◌==◌,
  length, all, take, drop, Result, ok, err, if◌then◌else◌,
}
use naivolt.Base.Text.{Text, codes, text_eq, to_lower, is_digit}

pub data Channel : Type 0 where
  sms email : Channel

pub data Identifier : Type 0 where
  by_phone by_email : Text → Identifier

pub data IdentifierError : Type 0 where
  empty invalid_email invalid_phone : IdentifierError

unfoldable pub subject : Identifier → Text
subject (by_phone v) = v
subject (by_email v) = v

unfoldable pub channel : Identifier → Channel
channel (by_phone v) = sms
channel (by_email v) = Channel.email

-- `char::is_whitespace`, on ASCII.
abbrev pub is_whitespace : ℕ → Bool
is_whitespace c = (leb 9 c && leb c 13) || (c == 32)

unfoldable pub trim_start : Text → Text
trim_start [] = []
trim_start (c ∷ cs) = if is_whitespace c then trim_start cs else c ∷ cs

unfoldable pub trim_end : Text → Text
trim_end [] = []
trim_end (c ∷ cs) = elim (trim_end cs) [
  | [] ↦ if is_whitespace c then [] else c ∷ []
  | d ∷ ds ↦ c ∷ d ∷ ds
]

unfoldable pub trim : Text → Text
trim s = trim_end (trim_start s)

unfoldable pub contains : ℕ → Text → Bool
contains c [] = false
contains c (d ∷ ds) = (c == d) || contains c ds

-- `split_once`
unfoldable pub split_once : ℕ → Text → Option (Text × Text)
split_once c [] = none
split_once c (d ∷ ds) =
    if c == d
    then some ([], ds)
    else elim (split_once c ds) [ none ↦ none | some parts ↦ some (d ∷ parts.0, parts.1) ]

-- `input.chars().filter(|c| c.is_ascii_digit()).collect()`
unfoldable pub only_digits : Text → Text
only_digits [] = []
only_digits (c ∷ cs) = if is_digit c then c ∷ only_digits cs else only_digits cs

unfoldable pub starts_with : Text → Text → Bool
starts_with s prefix = text_eq (take (length prefix) s) prefix

-- The national number: without the trunk zero or the country code.
unfoldable pub national_number : Text → Option Text
national_number d =
    if (length d == 11) && starts_with d (codes "0")
    then some (drop 1 d)
    else if (length d == 13) && starts_with d (codes "234")
    then some (drop 3 d)
    else if length d == 10
    then some d
    else none

-- `matches!(&national[..1], "7" | "8" | "9")`
unfoldable pub is_mobile : Text → Bool
is_mobile [] = false
is_mobile (c ∷ cs) = (c == b'7') || ((c == b'8') || (c == b'9'))

unfoldable pub normalize_ng_phone : Text → Option Text
normalize_ng_phone input = elim (national_number (only_digits input)) [
  | none ↦ none
  | some national ↦ if is_mobile national then some (codes "+234" ++ national) else none
]

-- `split(c).any(str::is_empty)`: does a part between separators come out empty?
unfoldable pub has_empty_part : ℕ → Bool → Text → Bool
has_empty_part c at_start [] = at_start
has_empty_part c at_start (d ∷ ds) =
    let same = has_empty_part c true ds in
    let within = has_empty_part c false ds in if c == d then at_start || same else within

-- A trimmed value that is not empty is one word exactly when no character of it is a space.
unfoldable pub normalize_email : Text → Option Text
normalize_email input =
    let value = to_lower (trim input) in
    elim (split_once b'@' value) [
      | none ↦ none
      | some (local, domain) ↦
          if (length local == 0) || (length domain == 0)
          then none
          else if (contains b'@' domain || not (contains b'.' domain))
              || not (all (λ c. not (is_whitespace c)) value)
          then none
          else if has_empty_part b'.' true domain
          then none
          else some value
    ]

unfoldable pub parse_identifier : Text → Result IdentifierError Identifier
parse_identifier input =
    let trimmed = trim input in
    if length trimmed == 0
    then err empty
    else if contains b'@' trimmed
    then elim (normalize_email trimmed) [ none ↦ err invalid_email | some v ↦ ok (by_email v) ]
    else elim (normalize_ng_phone trimmed) [ none ↦ err invalid_phone | some v ↦ ok (by_phone v) ]
