-- ===== src/Watcher/LogWindow.antt =====
-- `LogWindow` of crates/watcher/src/evm.rs: over how many blocks the logs are asked for.
pub mod Bounds
use naivolt.Base.{ℕ, ◌+◌, ◌/◌, leb, min, max, Bool, true, false, if◌then◌else◌}

pub record LogWindow : Type 0 where
  pub size : ℕ
  pub max_size : ℕ

unfoldable pub new : ℕ → LogWindow
new limit = record { size = max limit 1; max_size = max limit 1 }

-- Halves the window after a refusal, and says `false` when a single block was refused too.
unfoldable pub shrink : LogWindow → Bool × LogWindow
shrink w = if leb w.size 1 then (false, w) else (true, record w { size = max (w.size / 2) 1 })

-- Widens the window by a quarter after a success.
unfoldable pub grow : LogWindow → LogWindow
grow w = record w { size = min (w.size + max (w.size / 4) 1) w.max_size }
