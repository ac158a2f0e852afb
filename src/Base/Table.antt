-- ===== src/Base/Table.antt =====
-- Facts about bytes by evaluation at every byte.
use lunaria_os.Base.{ℕ, zero, suc, ◌<◌, ◌≡◌, Bool, true, false, arith, if◌then◌else◌}

-- whether a test succeeds on all numbers under a bound
unfoldable pub holds_under : ℕ → (ℕ → Bool) → Bool
holds_under zero test = true
holds_under (suc k) test = let below = holds_under k test in if test k then below else false

pub holds_under_lem :
    (bound : ℕ) (test : ℕ → Bool) (at : ℕ)
    → holds_under bound test ≡ true
    → at < bound
    → test at ≡ true
unfolding holds_under
holds_under_lem zero test at table under = absurd (omega arith)
holds_under_lem (suc k) test at table under = ground (arith, holds_under_lem k test at)
