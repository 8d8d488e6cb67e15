-- ===== src/Base/Text/Decimal.antt =====
-- Decimal printing of a number, as `to_string` does it, and its inverse.
use Prim.Native.Nat.{ℕ, zero, suc, ◌+◌, ◌-◌, ◌*◌, ◌/◌, ◌%◌, ◌<◌, ◌≤◌}
use mathlib.Core.Path.{◌≡◌, refl, sym, ◌∙◌, ap, subst}
use mathlib.Core.List.{List, [], ◌∷◌, ◌++◌}
use native.Mathlib.Omega.{arith}
use naivolt.Base.Tests.{ltb, if◌then◌else◌}
use naivolt.Base.Int.{ℤ, pos, negsuc}
use naivolt.Base.Lists.{All, All-append}

-- The digits of `n`, most significant first; a fuel above `n` is enough.
unfoldable pub show_from : ℕ → ℕ → List ℕ
show_from zero n = []
show_from (suc f) n =
    let more = show_from f (n / 10) ++ (b'0' + n % 10) ∷ [] in
    if ltb n 10 then (b'0' + n) ∷ [] else more

unfoldable pub show_nat : ℕ → List ℕ
unfolding show_from
show_nat n = show_from (suc n) n

read_from : ℕ → List ℕ → ℕ
read_from acc [] = acc
read_from acc (c ∷ cs) = read_from (acc * 10 + (c - b'0')) cs

pub read_nat : List ℕ → ℕ
unfolding read_from
read_nat s = read_from 0 s

read_from-append : (acc : ℕ) (s t : List ℕ) → read_from acc (s ++ t) ≡ read_from (read_from acc s) t
unfolding read_from
read_from-append acc [] t = refl
read_from-append acc (c ∷ s) t = read_from-append (acc * 10 + (c - b'0')) s t

read-show_from : (f n : ℕ) → n < f → read_from 0 (show_from f n) ≡ n
unfolding show_from read_from
read-show_from zero n h = absurd (omega arith)
read-show_from (suc f) n h = ground (
  arith,
  read_from-append 0 (show_from f (n / 10)) ((b'0' + n % 10) ∷ []),
  read-show_from f (n / 10),
)

-- Reading a printed number gives it back, so printing is injective.
pub read-show_nat : (n : ℕ) → read_nat (show_nat n) ≡ n
unfolding read_nat show_nat
read-show_nat n = read-show_from (suc n) n (omega arith)

-- Printed numbers consist of the bytes '0' to '9'.
abbrev pub IsDigits : List ℕ → Type 0
IsDigits = All (λ c. (b'0' ≤ c) × (c ≤ b'9'))

show_from-IsDigits : (f n : ℕ) → IsDigits (show_from f n)
unfolding show_from
show_from-IsDigits zero n = tt
show_from-IsDigits (suc f) n = ground (
  arith,
  All-append (λ c. (b'0' ≤ c) × (c ≤ b'9')) (show_from f (n / 10)) ((b'0' + n % 10) ∷ [])
      (show_from-IsDigits f (n / 10)) (omega arith),
)

pub show_nat-IsDigits : (n : ℕ) → IsDigits (show_nat n)
unfolding show_nat
show_nat-IsDigits n = show_from-IsDigits (suc n) n

-- `to_string` of a signed number.
unfoldable pub show_int : ℤ → List ℕ
show_int (pos n) = show_nat n
show_int (negsuc n) = b'-' ∷ show_nat (n + 1)

pub show_nat-injective : (i j : ℕ) → show_nat i ≡ show_nat j → i ≡ j
show_nat-injective i j e = sym (read-show_nat i) ∙ ap read_nat e ∙ read-show_nat j

not-digit : (n : ℕ) (s : List ℕ) → ¬ (show_nat n ≡ b'-' ∷ s)
not-digit n s e = omega (arith, subst IsDigits e (show_nat-IsDigits n))

-- Signed numbers are told apart by their printed forms.
pub show_int-injective : (i j : ℤ) → show_int i ≡ show_int j → i ≡ j
unfolding show_int
show_int-injective (pos n) (pos m) e = ap pos (show_nat-injective n m e)
show_int-injective (pos n) (negsuc m) e = absurd (not-digit n _ e)
show_int-injective (negsuc n) (pos m) e = absurd (not-digit m _ (sym e))
show_int-injective (negsuc n) (negsuc m) e =
    let t : show_nat (n + 1) ≡ show_nat (m + 1) = cc in
    let q : n + 1 ≡ m + 1 = show_nat-injective (n + 1) (m + 1) t in ap negsuc (omega arith)
