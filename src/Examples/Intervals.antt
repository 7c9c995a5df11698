-- ===== src/Examples/Intervals.antt =====
-- Intervals of whole numbers from -1 on, each kept as its successor.
use smtstabilizer.Common.{ℕ, true, false, not, ltb, leb, ◌==◌, ◌&&◌, ◌||◌, ◌≡◌, refl, some, arith}
use smtstabilizer.Interval.{Comparisons, IsOrdered, Interval}
use smtstabilizer.Interval.Sets.{
  gt, is_empty, lower_ok, upper_ok, contains, is_subset_of, is_disjoint_from, is_intersecting_with,
  intersection, union_with, is_subset_eq_of, is_superset_of,
}
use smtstabilizer.Interval.SetsSound.{
  intersection_lem, union_with_lem, is_intersecting_with_lem, is_subset_of_lem,
  is_disjoint_from_lem, is_superset_of_lem,
}
use smtstabilizer.Interval.Difference.{difference, any_contains, difference_lem, difference_subset}

abbrev whole : Comparisons
whole = record { Number = ℕ; lt = ltb; le = leb; equal = ◌==◌; one = 2; minus_one = 0 }

ltb_asym : (a b : ℕ) → ltb a b ≡ true → ltb b a ≡ false
ltb_asym a b h = ground arith

ltb_trans : (a b c : ℕ) → ltb b a ≡ false → ltb c b ≡ false → ltb c a ≡ false
ltb_trans a b c h k = ground arith

leb-not : (a b : ℕ) → leb a b ≡ not (ltb b a)
leb-not a b = ground arith

==-not : (a b : ℕ) → (a == b) ≡ (not (ltb a b) && not (ltb b a))
==-not a b = ground arith

whole-IsOrdered : IsOrdered whole
whole-IsOrdered = record {
  lt_asym = λ a b h. ltb_asym a b h;
  le_trans = λ a b c h k. ltb_trans a b c h k;
  le_lem = λ a b. leb-not a b;
  equal_lem = λ a b. ==-not a b;
  minus_one_lem = refl;
}

-- [3, 6), (4, 8], [4, 5] and [7, 9]
abbrev early : Interval whole
early = record { lower = 3; upper = 6; left_closed = true; right_closed = false }

abbrev late : Interval whole
late = record { lower = 4; upper = 8; left_closed = false; right_closed = true }

abbrev inner : Interval whole
inner = record { lower = 4; upper = 5; left_closed = true; right_closed = true }

abbrev apart : Interval whole
apart = record { lower = 7; upper = 9; left_closed = true; right_closed = true }

intersection_lem_example :
    contains whole (intersection whole early late) 5
    ≡ (contains whole early 5 && contains whole late 5)
intersection_lem_example = intersection_lem whole-IsOrdered early late 5

union_with_lem_example :
    (c : Interval whole) × (union_with whole early late ≡ some c)
    × (contains whole c 7 ≡ (contains whole early 7 || contains whole late 7))
unfolding is_empty is_disjoint_from gt
union_with_lem_example = union_with_lem whole-IsOrdered early late 7 refl refl refl

is_intersecting_with_lem_example :
    is_intersecting_with whole early late ≡ not (is_empty whole (intersection whole early late))
is_intersecting_with_lem_example = is_intersecting_with_lem whole-IsOrdered early late

is_subset_of_lem_example : contains whole early 5 ≡ true
unfolding is_subset_of contains is_empty lower_ok upper_ok gt
is_subset_of_lem_example = is_subset_of_lem whole-IsOrdered inner early 5 refl refl

is_disjoint_from_lem_example : (contains whole early 7 && contains whole apart 7) ≡ false
unfolding is_disjoint_from is_empty gt
is_disjoint_from_lem_example = is_disjoint_from_lem whole-IsOrdered early apart 7 refl

is_superset_of_lem_example :
    (is_superset_of whole early inner ≡ is_subset_of whole inner early)
    × (is_subset_eq_of whole inner early ≡ is_subset_of whole inner early)
unfolding is_empty gt
is_superset_of_lem_example = is_superset_of_lem whole-IsOrdered inner early refl refl

difference_lem_example :
    any_contains whole (difference whole early late) 3
    ≡ (contains whole early 3 && not (contains whole late 3))
unfolding is_empty is_superset_of is_subset_of gt
difference_lem_example = difference_lem whole-IsOrdered early late 3 refl refl refl refl

-- [4, 6) and (3, 6)
abbrev tail : Interval whole
tail = record { lower = 4; upper = 6; left_closed = true; right_closed = false }

abbrev open_at_both : Interval whole
open_at_both = record { lower = 3; upper = 6; left_closed = false; right_closed = false }

difference_subset_example : any_contains whole (difference whole tail open_at_both) 6 ≡ true
unfolding is_empty is_superset_of is_subset_of gt
difference_subset_example =
    difference_subset whole-IsOrdered tail open_at_both 6 refl refl refl refl
