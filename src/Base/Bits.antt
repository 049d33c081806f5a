-- ===== src/Base/Bits.antt =====
-- A Boolean test of every number of a range, for facts that evaluation settles.
use Prim.Native.Nat.{ℕ, zero, suc, ◌<◌}
use mathlib.Core.Path.{◌≡◌}
use mathlib.Core.Bool.{Bool, true, false}
use native.Mathlib.Omega.{arith}
use implementing_os_and_syst.Base.Tests.{if◌then◌else◌}

-- The numbers from `limit - 1` down to 0 pass the test.
unfoldable pub range_passes : (ℕ → Bool) → ℕ → Bool
range_passes test zero = true
range_passes test (suc top) = let below = range_passes test top in if test top then below else false

pub range_passes_at :
    (test : ℕ → Bool) (limit value : ℕ)
    → value < limit
    → range_passes test limit ≡ true
    → test value ≡ true
unfolding range_passes
range_passes_at test zero value small passes = absurd (omega arith)
range_passes_at test (suc top) value small passes = ground (arith, range_passes_at test top value)
