-- ===== src/Prelude/Tables.antt =====
-- Checking a statement about small numbers at every value.
use Prim.Native.Nat.{ℕ, zero, suc, ◌<◌}
use mathlib.Core.Path.{◌≡◌}
use mathlib.Core.Bool.{Bool, true, false}
use native.Mathlib.Omega.{arith}
use circle_core.Prelude.Tests.{if◌then◌else◌}

-- The test passes at each number that is smaller than the limit.
unfoldable pub all_below : ℕ → (ℕ → Bool) → Bool
all_below zero test = true
all_below (suc limit) test =
    let smaller = all_below limit test in if test limit then smaller else false

pub all_below_sound :
    (limit : ℕ) (test : ℕ → Bool) (k : ℕ) → all_below limit test ≡ true → k < limit → test k ≡ true
unfolding all_below
all_below_sound zero test k h below = absurd (omega (arith, below))
all_below_sound (suc limit) test k h below = ground (arith, below, h, all_below_sound limit test k)
