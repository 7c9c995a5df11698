-- ===== src/Rewrite/Comparisons.antt =====
-- What the comparisons of number constants decide.
use smtstabilizer.Common.{ℕ, Bool, true, false, not, ◌≡◌, arith}
use smtstabilizer.Rewrite.{Terms, Model, is_numeral}
use smtstabilizer.Rewrite.Order.{number_lt, number_eq}
use smtstabilizer.Rewrite.Meaning.{strictly_below}

module _ {tm : Terms} (m : Model tm) where
  open m use {same, below}

  pub below_refl : (x : ℕ) → below x x ≡ true
  below_refl x = ground (arith, m.below_total x x)

  pub strict_trans :
      (x y z : ℕ)
      → strictly_below m x y ≡ true
      → strictly_below m y z ≡ true
      → strictly_below m x z ≡ true
  strict_trans x y z h k = ground (arith, m.below_total y x, m.below_trans z x y)

  -- Both comparisons of two number constants decide their values.
  pub number_lt_lem :
      (x y : ℕ)
      → is_numeral (tm.node x) ≡ true
      → is_numeral (tm.node y) ≡ true
      → number_lt tm x y ≡ strictly_below m x y
  unfolding number_lt
  number_lt_lem x y h k = ground (arith, m.int_lt_below x y, m.real_lt_below x y)

  pub number_eq_lem :
      (x y : ℕ)
      → is_numeral (tm.node x) ≡ true
      → is_numeral (tm.node y) ≡ true
      → number_eq tm x y ≡ same x y
  unfolding number_eq
  number_eq_lem x y h k = ground (arith, m.int_eq_same x y, m.real_eq_same x y)

  pub negate_true : (b : Bool) → not b ≡ true → b ≡ false
  negate_true b h = ground arith

  pub negate_false : (b : Bool) → not b ≡ false → b ≡ true
  negate_false b h = ground arith
