-- ===== src/Kernel/Propagate/Stale.antt =====
-- `propagate` without context propagation, after a call on a smaller table.
use smtstabilizer.Common.{ℕ, ◌≡◌, List, length, some}
use smtstabilizer.Common.Outcome.{Outcome, err, ok}
use smtstabilizer.Kernel.State.{Kernel}
use smtstabilizer.Kernel.Propagate.{Static}

-- If a list is returned, it has the length.
abbrev Sized : ℕ → Outcome (List ℕ) → Type 0
Sized n (err failure) = Unit
Sized n (ok xs) = length xs ≡ n

-- If a call of `propagate` returns, it leaves a static table of the length.
abbrev Leaves : ℕ → Outcome (Static × Kernel) → Type 0
Leaves n (err failure) = Unit
Leaves n (ok (static, k)) = (pre : List ℕ) × (static ≡ some pre) × (length pre ≡ n)
