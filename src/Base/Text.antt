-- ===== src/Base/Text.antt =====
-- Text as its bytes: `str` and `String` where the program reads or compares ASCII text.
mod Decimal
mod Match
unfoldable pub use Match.{text_eq, match_text}
pub use Match.{Text, text_eq-to, text_eq_refl, text_eq_iff, match_text_All}
unfoldable pub use Decimal.{show_from, show_nat, show_int}
pub use Decimal.{
  show_nat-injective, show_int-injective, read_nat, read-show_nat, show_nat-IsDigits, IsDigits,
}
use Prim.Native.Char.{code}
use Prim.Native.String.{String}
use Prim.Native.Nat.{ℕ, ◌-◌, ◌+◌}
use mathlib.Core.Path.{◌≡◌, refl}
use mathlib.Core.Logic.{◌↔◌}
use mathlib.Core.Bool.{Bool, true, false, ◌&&◌}
use mathlib.Core.List.{List, [], ◌∷◌, map}
use native.Mathlib.Omega.{arith}
use naivolt.Base.Tests.{leb, ◌==◌, if◌then◌else◌}

-- The bytes of an ASCII literal.
abbrev pub codes : String → Text
codes String.[] = []
codes (String.◌∷◌ c s) = code c ∷ codes s

-- `u8::to_ascii_uppercase` and `u8::to_ascii_lowercase`.
abbrev pub upper_byte : ℕ → ℕ
upper_byte c = if leb b'a' c && leb c b'z' then c - 32 else c

abbrev pub lower_byte : ℕ → ℕ
lower_byte c = if leb b'A' c && leb c b'Z' then c + 32 else c

abbrev pub to_upper : Text → Text
to_upper = map upper_byte

abbrev pub to_lower : Text → Text
to_lower = map lower_byte

abbrev pub is_digit : ℕ → Bool
is_digit c = leb b'0' c && leb c b'9'
