-- ===== src/Interval/Sets.antt =====
-- The operations of src/parser/interval.cpp that read an interval as a set of numbers.
use smtstabilizer.Common.{Bool, true, false, not, ◌&&◌, ◌||◌, if◌then◌else◌, Option, none, some}
use smtstabilizer.Interval.{Comparisons, Interval}

-- `>` is `!(<=)`, `>=` is `!(<)`.
unfoldable pub gt : (cs : Comparisons) → cs.Number → cs.Number → Bool
gt cs a b = not (cs.le a b)

unfoldable pub ge : (cs : Comparisons) → cs.Number → cs.Number → Bool
ge cs a b = not (cs.lt a b)

module _ (cs : Comparisons) where
  open cs use {Number, lt, le, equal, one, minus_one}

  -- `std::max`, `std::min`
  unfoldable pub max : Number → Number → Number
  max a b = if lt a b then b else a

  unfoldable pub min : Number → Number → Number
  min a b = if lt b a then b else a

  unfoldable pub empty_interval : Interval cs
  empty_interval = record {
    lower = one;
    upper = minus_one;
    left_closed = false;
    right_closed = false;
  }

  unfoldable pub is_empty : Interval cs → Bool
  is_empty a =
      gt cs (a.lower) (a.upper)
      || (equal (a.lower) (a.upper) && (not (a.left_closed) || not (a.right_closed)))

  unfoldable pub lower_ok : Interval cs → Number → Bool
  lower_ok a x = if a.left_closed then le (a.lower) x else lt (a.lower) x

  unfoldable pub upper_ok : Interval cs → Number → Bool
  upper_ok a x = if a.right_closed then le x (a.upper) else lt x (a.upper)

  unfoldable pub contains : Interval cs → Number → Bool
  contains a x = if is_empty a then false else lower_ok a x && upper_ok a x

  unfoldable pub is_subset_of : Interval cs → Interval cs → Bool
  is_subset_of a b =
      if is_empty a
      then true
      else if is_empty b
      then false
      else (gt cs (a.lower) (b.lower)
          || (equal (a.lower) (b.lower) && (not (a.left_closed) || b.left_closed)))
        && (lt (a.upper) (b.upper)
            || (equal (a.upper) (b.upper) && (not (a.right_closed) || b.right_closed)))

  unfoldable pub is_disjoint_from : Interval cs → Interval cs → Bool
  is_disjoint_from a b =
      if is_empty a || is_empty b
      then false
      else lt (a.upper) (b.lower)
        || (equal (a.upper) (b.lower) && (not (a.right_closed) || not (b.left_closed)))
        || gt cs (a.lower) (b.upper)
        || (equal (a.lower) (b.upper) && (not (a.left_closed) || not (b.right_closed)))

  unfoldable pub is_intersecting_with : Interval cs → Interval cs → Bool
  is_intersecting_with a b = if is_empty a || is_empty b then false else not (is_disjoint_from a b)

  unfoldable pub intersection : Interval cs → Interval cs → Interval cs
  intersection a b = if is_empty a || is_empty b then empty_interval else record {
    lower = max (a.lower) (b.lower);
    upper = min (a.upper) (b.upper);
    left_closed =
        if lt (a.lower) (b.lower)
        then b.left_closed
        else if gt cs (a.lower) (b.lower)
        then a.left_closed
        else a.left_closed && b.left_closed;
    right_closed =
        if gt cs (a.upper) (b.upper)
        then b.right_closed
        else if lt (a.upper) (b.upper)
        then a.right_closed
        else a.right_closed && b.right_closed;
  }

  -- The interval of `unionWith` past its tests.
  unfoldable pub hull : Interval cs → Interval cs → Interval cs
  hull a b = record {
    lower = min (a.lower) (b.lower);
    upper = max (a.upper) (b.upper);
    left_closed =
        if lt (a.lower) (b.lower)
        then a.left_closed
        else if lt (b.lower) (a.lower)
        then b.left_closed
        else a.left_closed || b.left_closed;
    right_closed =
        if gt cs (a.upper) (b.upper)
        then a.right_closed
        else if gt cs (b.upper) (a.upper)
        then b.right_closed
        else a.right_closed || b.right_closed;
  }

  -- `none` is the exception `std::invalid_argument`.
  unfoldable pub union_with : Interval cs → Interval cs → Option (Interval cs)
  union_with a b =
      if is_empty a || is_empty b
      then some empty_interval
      else if is_disjoint_from a b
      then none
      else some (hull a b)

  unfoldable pub is_subset_eq_of : Interval cs → Interval cs → Bool
  is_subset_eq_of a b =
      if is_empty a
      then true
      else ge cs (a.lower) (b.lower)
        && le (a.upper) (b.upper)
        && (b.left_closed || gt cs (a.lower) (b.lower) || not (a.left_closed))
        && (b.right_closed || lt (a.upper) (b.upper) || not (a.right_closed))

  unfoldable pub is_superset_of : Interval cs → Interval cs → Bool
  is_superset_of a b =
      if is_empty a
      then false
      else (lt (a.lower) (b.lower)
          || (equal (a.lower) (b.lower) && (a.left_closed || not (b.left_closed))))
        && (gt cs (a.upper) (b.upper)
            || (equal (a.upper) (b.upper) && (a.right_closed || not (b.right_closed))))
