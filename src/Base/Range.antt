-- ===== src/Base/Range.antt =====
-- Small ranges checked by evaluation.
use Prim.Native.Nat.{ℕ, zero, suc, ◌<◌}
use mathlib.Core.Path.{◌≡◌}
use mathlib.Core.Bool.{Bool, true, ◌&&◌}
use native.Mathlib.Omega.{arith}

unfoldable pub all_below : ℕ → (ℕ → Bool) → Bool
all_below zero test = true
all_below (suc last) test = all_below last test && test last

pub all_below_sound :
    (bound : ℕ) (test : ℕ → Bool) (at : ℕ)
    → all_below bound test ≡ true
    → at < bound
    → test at ≡ true
unfolding all_below
all_below_sound (suc last) test at all under = ground (arith, all_below_sound last test at)
all_below_sound zero test at all under = absurd (omega arith)
