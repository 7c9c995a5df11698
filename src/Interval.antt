-- ===== src/Interval.antt =====
-- The intervals of the parser (src/parser/interval.cpp, src/parser/interval.h). A `Number` wraps
-- an `Integer` of GMP or a `Real` of MPFR; its comparisons are an interface here.
pub mod Sets
pub mod Halves
pub mod SetsSound
pub mod Difference
use smtstabilizer.Common.{Bool, true, false, not, ◌&&◌, ◌≡◌}

pub record Comparisons : Type 1 where
  pub Number : Type 0
  pub lt : Number → Number → Bool
  pub le : Number → Number → Bool
  pub equal : Number → Number → Bool
  -- `Number(1)`, `Number(-1)`
  pub one : Number
  pub minus_one : Number

-- The comparisons are those of one linear order, as on integers, or on reals other than NaN.
pub record IsOrdered (cs : Comparisons) : Type 0 where
  pub lt_asym : (a b : cs.Number) → cs.lt a b ≡ true → cs.lt b a ≡ false
  pub le_trans : (a b c : cs.Number) → cs.lt b a ≡ false → cs.lt c b ≡ false → cs.lt c a ≡ false
  pub le_lem : (a b : cs.Number) → cs.le a b ≡ not (cs.lt b a)
  pub equal_lem : (a b : cs.Number) → cs.equal a b ≡ (not (cs.lt a b) && not (cs.lt b a))
  pub minus_one_lem : cs.lt cs.minus_one cs.one ≡ true

pub record Interval (cs : Comparisons) : Type 0 where
  pub lower : cs.Number
  pub upper : cs.Number
  pub left_closed : Bool
  pub right_closed : Bool
