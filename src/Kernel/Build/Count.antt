-- ===== src/Kernel/Build/Count.antt =====
-- Sums over the pointers below a bound, for the measure of the walk and the size of its result.
use smtstabilizer.Common.{
  ℕ, zero, suc, ◌+◌, ◌<◌, ◌≤◌, ◌≡◌, ◌≢◌, refl, arith, if◌then◌else◌, ◌==◌, Option, none, some,
  length, ap,
}
use native.Mathlib.Decide.{ℕ_discrete}
use smtstabilizer.Node.{NodeManager}
use smtstabilizer.Kernel.State.{size_max}
use smtstabilizer.Kernel.Build.{Index, index_put, successors}

pub sum_over : (ℕ → Option ℕ → ℕ) → Index → ℕ → ℕ
sum_over weight m zero = 0
sum_over weight m (suc b) = weight b (m b) + sum_over weight m b

sum_over-put_above :
    (weight : ℕ → Option ℕ → ℕ) (m : Index) (n i b : ℕ)
    → b ≤ n
    → sum_over weight (index_put m n i) b ≡ sum_over weight m b
unfolding sum_over
sum_over-put_above weight m n i zero h = refl
sum_over-put_above weight m n i (suc b) h =
    ground (arith, sum_over-put_above weight m n i b (omega arith))

-- A write at one pointer changes one term.
pub sum_over-put :
    (weight : ℕ → Option ℕ → ℕ) (m : Index) (n i b : ℕ)
    → n < b
    → sum_over weight (index_put m n i) b + weight n (m n) ≡ sum_over weight m b + weight n (some i)
unfolding sum_over
sum_over-put weight m n i zero h = absurd (omega arith)
sum_over-put weight m n i (suc b) h = elim (ℕ_discrete n b) [
  | yes e ↦ ground (arith, sum_over-put_above weight m b i b (omega arith))
  | no ne ↦ ground (arith, sum_over-put weight m n i b (omega arith))
]

-- 1 for a node that is not placed.
pub open_weight : ℕ → Option ℕ → ℕ
open_weight n none = 1
open_weight n (some i) = if i == size_max then 1 else 0

pub unplaced : Index → ℕ → ℕ
unfolding sum_over open_weight
unplaced = sum_over open_weight

-- The pushes and the pop that a node not yet met will cost.
pub fresh_weight : NodeManager → ℕ → Option ℕ → ℕ
fresh_weight nm n none = suc (length (successors nm n))
fresh_weight nm n (some i) = 0

pub fresh_work : NodeManager → Index → ℕ → ℕ
unfolding sum_over fresh_weight
fresh_work nm = sum_over (fresh_weight nm)

pub unplaced-open :
    (m : Index) (n b : ℕ) → n < b → m n ≡ none → unplaced (index_put m n size_max) b ≡ unplaced m b
unfolding unplaced
unplaced-open m n b h e =
    omega (arith, sum_over-put open_weight m n size_max b h, ap (open_weight n) e)

pub unplaced-place :
    (m : Index) (n i b : ℕ)
    → n < b
    → m n ≡ some size_max
    → i ≢ size_max
    → suc (unplaced (index_put m n i) b) ≡ unplaced m b
unfolding unplaced
unplaced-place m n i b h e ne =
    omega (arith, sum_over-put open_weight m n i b h, ap (open_weight n) e, open_weight-some n i ne)
  where
    open_weight-some : (n i : ℕ) → i ≢ size_max → open_weight n (some i) ≡ 0
    open_weight-some n i ne = ground arith

pub fresh_work-open :
    (nm : NodeManager) (m : Index) (n b : ℕ)
    → n < b
    → m n ≡ none
    → fresh_work nm (index_put m n size_max) b + suc (length (successors nm n)) ≡ fresh_work nm m b
unfolding fresh_work
fresh_work-open nm m n b h e =
    omega (arith, sum_over-put (fresh_weight nm) m n size_max b h, ap (fresh_weight nm n) e)

pub fresh_work-place :
    (nm : NodeManager) (m : Index) (n i b : ℕ)
    → n < b
    → m n ≡ some size_max
    → fresh_work nm (index_put m n i) b ≡ fresh_work nm m b
unfolding fresh_work
fresh_work-place nm m n i b h e =
    omega (arith, sum_over-put (fresh_weight nm) m n i b h, ap (fresh_weight nm n) e)

-- Nothing is placed at the start.
pub unplaced-none : (b : ℕ) → unplaced (λ n. none) b ≡ b
unfolding unplaced
unplaced-none zero = refl
unplaced-none (suc b) = omega (arith, unplaced-none b)

pub unplaced-pos : (m : Index) (n b : ℕ) → n < b → m n ≡ some size_max → 0 < unplaced m b
unplaced-pos m n b h e = omega (arith, unplaced-place m n 0 b h e (λ q. absurd (omega arith)))
