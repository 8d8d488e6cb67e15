-- ===== src/Watcher/LogWindow/Bounds.antt =====
-- The window stays between one block and its limit, and refusals run out.
use naivolt.Base.{ℕ, ◌≤◌, ◌<◌, ◌≡◌, ◌⊎◌, inl, inr, refl, true, false, Bool-cases, leb, arith}
use naivolt.Watcher.LogWindow.{LogWindow, new, shrink, grow}

-- At least one block, and at most the limit.
pub record IsBounded (w : LogWindow) : Type 0 where
  pub low : 1 ≤ w.size
  pub high : w.size ≤ w.max_size

pub new-IsBounded : (limit : ℕ) → IsBounded (new limit)
unfolding new
new-IsBounded limit = record { low = ground arith; high = ground arith }

pub shrink-IsBounded : (w : LogWindow) → IsBounded w → IsBounded (shrink w).1
unfolding shrink
shrink-IsBounded w h = elim (Bool-cases (leb w.size 1)) [
  | inl one ↦ rw one h
  | inr more ↦ rw more (record { low = ground arith; high = ground (arith, h.low, h.high) })
]

pub grow-IsBounded : (w : LogWindow) → IsBounded w → IsBounded (grow w)
unfolding grow
grow-IsBounded w h = record { low = ground (arith, h.low, h.high); high = ground arith }

-- A refusal makes a bounded window smaller, or there is no smaller one.
pub shrink-smaller :
    (w : LogWindow)
    → IsBounded w
    → (((shrink w).0 ≡ true) × ((shrink w).1.size < w.size))
      ⊎ (((shrink w).0 ≡ false) × (w.size ≡ 1))
unfolding shrink
shrink-smaller w h = elim (Bool-cases (leb w.size 1)) [
  | inl one ↦ inr (rw one (refl, ground (arith, h.low)))
  | inr more ↦ inl (rw more (refl, ground arith))
]
