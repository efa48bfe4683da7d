-- ===== src/Profile/Formats.antt =====
-- The length of a game, as the profile prints it.
use Prim.Native.Nat.{ℕ, ◌+◌, ◌*◌, ◌≤◌, ◌<◌}
use mathlib.Core.Path.{◌≡◌}
use mathlib.Core.Logic.{◌⊎◌}
use native.Mathlib.Omega.{arith}
use ai_with_mafia.Profile.{minutes}

-- The minutes that are printed are the nearest whole number, half a minute counting up, but never
-- less than one; and a longer game is never printed as a shorter one.
pub minutes_nearest :
    (sec more : ℕ)
    → (1 ≤ minutes sec)
      × (sec < 60 * minutes sec + 30)
      × ((60 * minutes sec ≤ sec + 30) ⊎ (minutes sec ≡ 1))
      × (minutes sec ≤ minutes (sec + more))
unfolding minutes
minutes_nearest sec more = ground arith
