-- ===== src/Watcher/Tests/Topics.antt =====
-- Instances of the theorems about the topics of a log.
use naivolt.Base.{ℕ, ◌++◌, refl, inl, inr, replicate, All-append, All-replicate, arith}
use naivolt.Base.Text.{Text}
use naivolt.Watcher.Topics.Roundtrip.{IsHex, IsBody}

-- Twenty times `letter` and twenty times the digit 7.
abbrev body_with : ℕ → Text
body_with letter = replicate 20 letter ++ replicate 20 b'7'

body_with-IsBody : (letter : ℕ) → IsHex letter → IsBody (body_with letter)
body_with-IsBody letter h = (
  refl,
  All-append IsHex (replicate 20 letter) (replicate 20 b'7') (All-replicate IsHex h 20)
      (All-replicate IsHex (inl (omega arith)) 20),
)

checksummed-IsBody : IsBody (body_with b'C')
checksummed-IsBody = body_with-IsBody b'C' (inr (inr (omega arith)))

lower-IsBody : IsBody (body_with b'c')
lower-IsBody = body_with-IsBody b'c' (inr (inl (omega arith)))
