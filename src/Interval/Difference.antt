-- ===== src/Interval/Difference.antt =====
-- `Interval::difference` of src/parser/interval.cpp.
use smtstabilizer.Common.{
  Bool, true, false, not, ◌&&◌, ◌||◌, if◌then◌else◌, List, [], ◌∷◌, ◌≡◌, arith, Bool-cases, inl,
  inr,
}
use smtstabilizer.Interval.{Comparisons, IsOrdered, Interval}
use smtstabilizer.Interval.Sets.{
  gt, ge, is_empty, lower_ok, upper_ok, contains, is_subset_of, is_disjoint_from, is_superset_of,
}
use smtstabilizer.Interval.Halves.{contains_lem}
use smtstabilizer.Interval.SetsSound.{gap, is_disjoint_from_lem}

module _ (cs : Comparisons) where
  open cs use {Number, lt, le, equal}

  -- `p >= q` on Boolean values is `p || !q`.
  unfoldable pub covers_left : Interval cs → Interval cs → Bool
  covers_left a b =
      (le (b.lower) (a.lower)
        || (equal (b.lower) (a.lower) && (b.left_closed || not (a.left_closed))))
      && (lt (b.upper) (a.upper)
          || (equal (b.upper) (a.upper) && not (b.right_closed) && a.right_closed))

  unfoldable pub covers_right : Interval cs → Interval cs → Bool
  covers_right a b =
      (gt cs (b.lower) (a.lower)
        || (equal (b.lower) (a.lower) && not (b.left_closed) && a.left_closed))
      && (ge cs (b.upper) (a.upper)
          || (equal (b.upper) (a.upper) && (b.right_closed || not (a.right_closed))))

  -- The parts of `a` before and after `b`; the argument is `rightClosed` or `leftClosed` as the
  -- source reads it there.
  unfoldable pub left_part : Interval cs → Interval cs → Interval cs
  left_part a b = record {
    lower = a.lower;
    upper = b.lower;
    left_closed = a.left_closed;
    right_closed = not (b.left_closed);
  }

  unfoldable pub right_part : Interval cs → Interval cs → Bool → Interval cs
  right_part a b closed = record {
    lower = b.upper;
    upper = a.upper;
    left_closed = not (b.right_closed);
    right_closed = closed;
  }

  -- Where `a` is split, the local `rightClosed` of the left part is also that of the right one.
  unfoldable pub difference : Interval cs → Interval cs → List (Interval cs)
  difference a b =
      if is_disjoint_from cs a b
      then a ∷ []
      else if is_superset_of cs a b
      then []
      else if is_subset_of cs a b
      then left_part a b ∷ right_part a b (not (b.left_closed)) ∷ []
      else if covers_left a b
      then right_part a b (a.right_closed) ∷ []
      else if covers_right a b
      then left_part a b ∷ []
      else []

  unfoldable pub any_contains : List (Interval cs) → Number → Bool
  any_contains [] x = false
  any_contains (a ∷ rest) x = contains cs a x || any_contains rest x

module _ {cs : Comparisons} (o : IsOrdered cs) where
  open cs use {Number, lt, le, equal}

  contains-left_part :
      (a b : Interval cs) (x : Number)
      → contains cs (left_part cs a b) x ≡ (lower_ok cs a x && not (lower_ok cs b x))
  unfolding left_part lower_ok upper_ok
  contains-left_part a b x =
      ground
        (arith, contains_lem o (left_part cs a b) x, o.le_lem x (b.lower), o.le_lem (b.lower) x)

  contains-right_part :
      (a b : Interval cs) (x : Number)
      → contains cs (right_part cs a b (a.right_closed)) x
        ≡ (not (upper_ok cs b x) && upper_ok cs a x)
  unfolding right_part lower_ok upper_ok
  contains-right_part a b x = ground (
    arith,
    contains_lem o (right_part cs a b (a.right_closed)) x,
    o.le_lem x (b.upper),
    o.le_lem (b.upper) x,
  )

  covers_left_lem :
      (a b : Interval cs) (x : Number)
      → is_empty cs a ≡ false
      → is_superset_of cs a b ≡ false
      → covers_left cs a b ≡ true
      → lower_ok cs a x ≡ true
      → lower_ok cs b x ≡ true
  unfolding covers_left is_superset_of lower_ok gt
  covers_left_lem a b x h n c l = grind (arith, o.le_lem, o.lt_asym, o.le_trans, o.equal_lem)

  covers_right_lem :
      (a b : Interval cs) (x : Number)
      → is_empty cs a ≡ false
      → is_superset_of cs a b ≡ false
      → covers_right cs a b ≡ true
      → upper_ok cs a x ≡ true
      → upper_ok cs b x ≡ true
  unfolding covers_right is_superset_of upper_ok gt ge
  covers_right_lem a b x h n c l = grind (arith, o.le_lem, o.lt_asym, o.le_trans, o.equal_lem)

  covers_cases :
      (a b : Interval cs)
      → is_empty cs a ≡ false
      → is_empty cs b ≡ false
      → is_superset_of cs a b ≡ false
      → is_subset_of cs a b ≡ false
      → covers_left cs a b ≡ false
      → covers_right cs a b ≡ true
  unfolding covers_left covers_right is_superset_of is_subset_of gt ge
  covers_cases a b h k n m c = grind (arith, o.le_lem, o.lt_asym, o.le_trans, o.equal_lem)

  -- For numbers in a linear order and two intervals that are not empty and of which neither test of
  -- inclusion holds, the difference holds exactly the numbers of the first that the second does
  -- not hold.
  pub difference_lem :
      (a b : Interval cs) (x : Number)
      → is_empty cs a ≡ false
      → is_empty cs b ≡ false
      → is_superset_of cs a b ≡ false
      → is_subset_of cs a b ≡ false
      → any_contains cs (difference cs a b) x ≡ (contains cs a x && not (contains cs b x))
  unfolding difference any_contains
  difference_lem a b x h k n m = elim (Bool-cases (is_disjoint_from cs a b)) [
    | inl d ↦ rw d (ground (arith, is_disjoint_from_lem o a b x d))
    | inr d ↦
        let (before, after) = gap o a b x h k d in
        elim (Bool-cases (covers_left cs a b)) [
          | inl c ↦
              rw (d, n, m, c)
                (ground (
                  arith,
                  contains-right_part a b x,
                  contains_lem o a x,
                  contains_lem o b x,
                  covers_left_lem a b x h n c,
                ))
          | inr c ↦
              let r = covers_cases a b h k n m c in
              rw (d, n, m, c, r)
                (ground (
                  arith,
                  contains-left_part a b x,
                  contains_lem o a x,
                  contains_lem o b x,
                  covers_right_lem a b x h n r,
                ))
        ]
  ]

  -- No number is in the part of a subset that lies before the other interval.
  subset_left :
      (a b : Interval cs) (x : Number)
      → is_empty cs a ≡ false
      → is_empty cs b ≡ false
      → is_subset_of cs a b ≡ true
      → lower_ok cs a x ≡ true
      → lower_ok cs b x ≡ true
  unfolding is_subset_of lower_ok gt
  subset_left a b x h k s l = grind (arith, o.le_lem, o.lt_asym, o.le_trans, o.equal_lem)

  contains-right_open :
      (a b : Interval cs) (x : Number) (closed : Bool)
      → contains cs (right_part cs a b closed) x
        ≡ (not (upper_ok cs b x) && (if closed then le x (a.upper) else lt x (a.upper)))
  unfolding right_part lower_ok upper_ok
  contains-right_open a b x closed = ground (
    arith,
    contains_lem o (right_part cs a b closed) x,
    o.le_lem x (b.upper),
    o.le_lem (b.upper) x,
  )

  subset_right :
      (a b : Interval cs) (x : Number)
      → is_empty cs a ≡ false
      → is_empty cs b ≡ false
      → is_subset_of cs a b ≡ true
      → (not (upper_ok cs b x) && (if not (b.left_closed) then le x (a.upper) else lt x (a.upper)))
        ≡ (not (b.left_closed)
            && not (b.right_closed)
            && equal x (a.upper)
            && equal (a.upper) (b.upper))
  unfolding is_subset_of upper_ok gt
  subset_right a b x h k s = grind (arith, o.le_lem, o.lt_asym, o.le_trans, o.equal_lem)

  subset_meets :
      (a b : Interval cs)
      → is_empty cs a ≡ false
      → is_empty cs b ≡ false
      → is_subset_of cs a b ≡ true
      → is_disjoint_from cs a b ≡ false
  unfolding is_disjoint_from is_subset_of is_empty gt
  subset_meets a b h k s = grind (arith, o.le_lem, o.lt_asym, o.le_trans, o.equal_lem)

  -- For numbers in a linear order and two intervals that are not empty, let the first be a subset
  -- of the second and not a superset. The difference holds no number but the upper bound of the
  -- first, and that one exactly if it is the upper bound of both and the second is open at both
  -- ends.
  pub difference_subset :
      (a b : Interval cs) (x : Number)
      → is_empty cs a ≡ false
      → is_empty cs b ≡ false
      → is_superset_of cs a b ≡ false
      → is_subset_of cs a b ≡ true
      → any_contains cs (difference cs a b) x ≡ (
          not (b.left_closed)
          && not (b.right_closed)
          && equal x (a.upper)
          && equal (a.upper) (b.upper))
  unfolding difference any_contains
  difference_subset a b x h k n s =
      rw (subset_meets a b h k s, n, s)
        (ground (
          arith,
          contains-left_part a b x,
          subset_left a b x h k s,
          contains-right_open a b x (not (b.left_closed)),
          subset_right a b x h k s,
        ))
