-- ===== src/Utils/Checks.antt =====
-- A loop of checks that returns at the first error.
use hazelnet.Base.{ℕ, zero, suc, ◌+◌, ◌≤◌, ◌<◌, ◌≡◌, ap, arith}
use hazelnet.Err.{Err, ok, is_ok_iff, is_ok-ok}
use hazelnet.Utils.{check_from}

-- If the loop returns HZL_OK, every index passes.
pub check_from_ok :
    (check : ℕ → Err) (rounds i : ℕ)
    → check_from check rounds i ≡ ok
    → (j : ℕ) → i ≤ j
    → j < i + rounds
    → check j ≡ ok
unfolding check_from
check_from_ok check zero i h j lo hi = absurd (omega arith)
check_from_ok check (suc rounds) i h j lo hi = ground (
  arith,
  is_ok_iff (check i),
  is_ok-ok,
  λ (later : check_from check rounds (i + 1) ≡ ok). check_from_ok check rounds (i + 1) later j,
  λ (e : i ≡ j). ap check e,
)
