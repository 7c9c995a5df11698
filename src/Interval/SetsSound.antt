-- ===== src/Interval/SetsSound.antt =====
-- What the set operations of src/parser/interval.cpp mean for membership.
use smtstabilizer.Common.{
  true, false, not, ◌&&◌, ◌||◌, ◌≡◌, refl, arith, Bool-cases, inl, inr, some,
}
use smtstabilizer.Interval.{Comparisons, IsOrdered, Interval}
use smtstabilizer.Interval.Sets.{
  gt, ge, max, min, is_empty, lower_ok, upper_ok, contains, is_subset_of, is_disjoint_from,
  is_intersecting_with, intersection, hull, union_with, empty_interval, is_subset_eq_of,
  is_superset_of,
}
use smtstabilizer.Interval.Halves.{contains_lem, low_meet, high_meet, low_join, high_join}

module _ {cs : Comparisons} (o : IsOrdered cs) where
  open cs use {Number, lt, le, equal}

  contains-is_empty :
      (a : Interval cs) (x : Number) → is_empty cs a ≡ true → contains cs a x ≡ false
  unfolding contains
  contains-is_empty a x h = rw h refl

  contains-empty_interval : (x : Number) → contains cs (empty_interval cs) x ≡ false
  unfolding contains is_empty empty_interval gt
  contains-empty_interval x = ground (arith, o.le_lem (cs.one) (cs.minus_one), o.minus_one_lem)

  lower_ok-intersection :
      (a b : Interval cs) (x : Number)
      → is_empty cs a ≡ false
      → is_empty cs b ≡ false
      → (lower_ok cs (intersection cs a b) x ≡ (lower_ok cs a x && lower_ok cs b x))
        × (upper_ok cs (intersection cs a b) x ≡ (upper_ok cs a x && upper_ok cs b x))
  unfolding lower_ok upper_ok intersection
  lower_ok-intersection a b x h k =
      rw (h, k)
        (
          low_meet o (a.lower) (b.lower) x (a.left_closed) (b.left_closed),
          high_meet o (a.upper) (b.upper) x (a.right_closed) (b.right_closed),
        )

  contains-hull :
      (a b : Interval cs) (x : Number)
      → contains cs (hull cs a b) x
        ≡ ((lower_ok cs a x || lower_ok cs b x) && (upper_ok cs a x || upper_ok cs b x))
  unfolding lower_ok upper_ok hull
  contains-hull a b x =
      rw
        (
          contains_lem o (hull cs a b) x,
          low_join o (a.lower) (b.lower) x (a.left_closed) (b.left_closed),
          high_join o (a.upper) (b.upper) x (a.right_closed) (b.right_closed),
        )
        refl

  -- A number past the end of one interval and before the start of another one shows that the two,
  -- if not empty, are disjoint.
  pub gap :
      (a b : Interval cs) (x : Number)
      → is_empty cs a ≡ false
      → is_empty cs b ≡ false
      → is_disjoint_from cs a b ≡ false
      → ((upper_ok cs a x || lower_ok cs b x) ≡ true)
        × ((lower_ok cs a x || upper_ok cs b x) ≡ true)
  unfolding is_disjoint_from lower_ok upper_ok gt
  gap a b x h k n = grind (arith, o.le_lem, o.lt_asym, o.le_trans, o.equal_lem)

  -- For numbers in a linear order, the intersection holds exactly the numbers that both intervals
  -- hold.
  pub intersection_lem :
      (a b : Interval cs) (x : Number)
      → contains cs (intersection cs a b) x ≡ (contains cs a x && contains cs b x)
  unfolding intersection
  intersection_lem a b x = elim (Bool-cases (is_empty cs a)) [
    | inl h ↦ rw (h, contains-empty_interval x, contains-is_empty a x h) refl
    | inr h ↦ elim (Bool-cases (is_empty cs b)) [
      | inl k ↦ rw (h, k, contains-empty_interval x, contains-is_empty b x k) (ground arith)
      | inr k ↦
          let (low, high) = lower_ok-intersection a b x h k in
          ground (
            arith,
            contains_lem o (intersection cs a b) x,
            contains_lem o a x,
            contains_lem o b x,
            low,
            high,
          )
    ]
  ]

  -- For numbers in a linear order, an interval that `isSubsetOf` calls a subset of another one
  -- holds only numbers that the other one holds.
  pub is_subset_of_lem :
      (a b : Interval cs) (x : Number)
      → is_subset_of cs a b ≡ true
      → contains cs a x ≡ true
      → contains cs b x ≡ true
  unfolding is_subset_of lower_ok upper_ok gt
  is_subset_of_lem a b x h k = grind (
    arith,
    o.le_lem,
    o.lt_asym,
    o.le_trans,
    o.equal_lem,
    contains-is_empty a x,
    contains_lem o a x,
    contains_lem o b x,
  )

  -- For numbers in a linear order, intervals that `isDisjointFrom` calls disjoint have no number
  -- in common.
  pub is_disjoint_from_lem :
      (a b : Interval cs) (x : Number)
      → is_disjoint_from cs a b ≡ true
      → (contains cs a x && contains cs b x) ≡ false
  unfolding is_disjoint_from lower_ok upper_ok gt
  is_disjoint_from_lem a b x h =
      grind (
        arith,
        o.le_lem,
        o.lt_asym,
        o.le_trans,
        o.equal_lem,
        contains_lem o a x,
        contains_lem o b x,
      )

  -- For numbers in a linear order, `isIntersectingWith` is true exactly if the intersection that
  -- is computed is not empty.
  pub is_intersecting_with_lem :
      (a b : Interval cs) → is_intersecting_with cs a b ≡ not (is_empty cs (intersection cs a b))
  unfolding is_intersecting_with intersection is_disjoint_from is_empty max min empty_interval gt
  is_intersecting_with_lem a b = elim (Bool-cases (lt (a.lower) (b.lower))) [
    | inl h ↦ elim (Bool-cases (lt (b.upper) (a.upper))) [
      | inl k ↦
          rw (h, k)
            (grind (
              arith,
              o.le_lem,
              o.lt_asym,
              o.le_trans,
              o.equal_lem,
              o.minus_one_lem,
              o.le_lem (cs.one) (cs.minus_one),
            ))
      | inr k ↦
          rw (h, k)
            (grind (
              arith,
              o.le_lem,
              o.lt_asym,
              o.le_trans,
              o.equal_lem,
              o.minus_one_lem,
              o.le_lem (cs.one) (cs.minus_one),
            ))
    ]
    | inr h ↦ elim (Bool-cases (lt (b.upper) (a.upper))) [
      | inl k ↦
          rw (h, k)
            (grind (
              arith,
              o.le_lem,
              o.lt_asym,
              o.le_trans,
              o.equal_lem,
              o.minus_one_lem,
              o.le_lem (cs.one) (cs.minus_one),
            ))
      | inr k ↦
          rw (h, k)
            (grind (
              arith,
              o.le_lem,
              o.lt_asym,
              o.le_trans,
              o.equal_lem,
              o.minus_one_lem,
              o.le_lem (cs.one) (cs.minus_one),
            ))
    ]
  ]

  -- For numbers in a linear order and two intervals that are not empty and not disjoint,
  -- `unionWith` answers an interval, and a number is in it exactly if one of the two holds it.
  pub union_with_lem :
      (a b : Interval cs) (x : Number)
      → is_empty cs a ≡ false
      → is_empty cs b ≡ false
      → is_disjoint_from cs a b ≡ false
      → (c : Interval cs) × (union_with cs a b ≡ some c)
        × (contains cs c x ≡ (contains cs a x || contains cs b x))
  unfolding union_with
  union_with_lem a b x h k n =
      rw (h, k, n)
        (
          hull cs a b,
          refl,
          let (left, right) = gap a b x h k n in
              ground (arith, contains-hull a b x, contains_lem o a x, contains_lem o b x),
        )

  -- For numbers in a linear order and two intervals that are not empty, the three tests of
  -- inclusion agree.
  pub is_superset_of_lem :
      (a b : Interval cs)
      → is_empty cs a ≡ false
      → is_empty cs b ≡ false
      → (is_superset_of cs b a ≡ is_subset_of cs a b)
        × (is_subset_eq_of cs a b ≡ is_subset_of cs a b)
  unfolding is_superset_of is_subset_of is_subset_eq_of gt ge
  is_superset_of_lem a b h k = grind (arith, o.le_lem, o.lt_asym, o.le_trans, o.equal_lem)
