-- ===== src/Prelude/Tables.antt =====
-- A property of all numbers below a bound, checked by evaluation.
use Prim.Native.Nat.{ℕ, zero, suc, ◌<◌}
use mathlib.Core.Bool.{Bool, true, ◌&&◌}
use mathlib.Core.Path.{◌≡◌}
use native.Mathlib.Omega.{arith}

unfoldable pub holds_below : ℕ → (ℕ → Bool) → Bool
holds_below zero test = true
holds_below (suc n) test = test n && holds_below n test

pub holds_below_at :
    (n : ℕ) (test : ℕ → Bool) (x : ℕ) → holds_below n test ≡ true → x < n → test x ≡ true
unfolding holds_below
holds_below_at zero test x all below = absurd (omega arith)
holds_below_at (suc n) test x all below = ground (arith, holds_below_at n test x)
