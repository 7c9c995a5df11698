-- ===== src/Interval/Halves.antt =====
-- The two ends of an interval (src/parser/interval.cpp) as half-lines.
use smtstabilizer.Common.{Bool, ◌&&◌, ◌||◌, if◌then◌else◌, ◌≡◌, arith}
use smtstabilizer.Interval.{Comparisons, IsOrdered, Interval}
use smtstabilizer.Interval.Sets.{gt, max, min, is_empty, lower_ok, upper_ok, contains}

module _ {cs : Comparisons} (o : IsOrdered cs) where
  open cs use {Number, lt, le, equal}

  pub contains_lem :
      (a : Interval cs) (x : Number) → contains cs a x ≡ (lower_ok cs a x && upper_ok cs a x)
  unfolding contains is_empty lower_ok upper_ok gt
  contains_lem a x = grind (arith, o.le_lem, o.lt_asym, o.le_trans, o.equal_lem)

  -- The later of two lower ends, closed where both are if they are equal.
  pub low_meet :
      (l m x : Number) (p q : Bool)
      → (if (if lt l m then q else if gt cs l m then p else p && q)
          then le (max cs l m) x
          else lt (max cs l m) x)
        ≡ ((if p then le l x else lt l x) && (if q then le m x else lt m x))
  unfolding max gt
  low_meet l m x p q = grind (arith, o.le_lem, o.lt_asym, o.le_trans)

  -- The earlier of two upper ends.
  pub high_meet :
      (l m x : Number) (p q : Bool)
      → (if (if gt cs l m then q else if lt l m then p else p && q)
          then le x (min cs l m)
          else lt x (min cs l m))
        ≡ ((if p then le x l else lt x l) && (if q then le x m else lt x m))
  unfolding min gt
  high_meet l m x p q = grind (arith, o.le_lem, o.lt_asym, o.le_trans)

  -- The earlier of two lower ends, closed where one is if they are equal.
  pub low_join :
      (l m x : Number) (p q : Bool)
      → (if (if lt l m then p else if lt m l then q else p || q)
          then le (min cs l m) x
          else lt (min cs l m) x)
        ≡ ((if p then le l x else lt l x) || (if q then le m x else lt m x))
  unfolding min gt
  low_join l m x p q = grind (arith, o.le_lem, o.lt_asym, o.le_trans)

  -- The later of two upper ends.
  pub high_join :
      (l m x : Number) (p q : Bool)
      → (if (if gt cs l m then p else if gt cs m l then q else p || q)
          then le x (max cs l m)
          else lt x (max cs l m))
        ≡ ((if p then le x l else lt x l) || (if q then le x m else lt x m))
  unfolding max gt
  high_join l m x p q = grind (arith, o.le_lem, o.lt_asym, o.le_trans)
