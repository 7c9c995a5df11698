-- ===== src/Kind/Negation.antt =====
-- What the comparison kinds say of two operands, and what `getNegatedKind` and `getFlipKind` do
-- to it.
use Prim.Native.Nat.{Ordering}
use smtstabilizer.Common.{Bool, true, false, not, ◌≡◌, Option, none, some}
use smtstabilizer.Kind.{
  NodeKind, nt_eq, nt_distinct, nt_eq_bool, nt_distinct_bool, nt_eq_other, nt_distinct_other, nt_le,
  nt_lt, nt_ge, nt_gt, nt_bv_ult, nt_bv_ugt, nt_bv_ule, nt_bv_uge, nt_bv_slt, nt_bv_sgt, nt_bv_sle,
  nt_bv_sge, nt_fp_le, nt_fp_lt, nt_fp_ge, nt_fp_gt, nt_str_lt, nt_str_gt, nt_str_le, nt_str_ge,
  nt_fp_eq,
}

pub data Comparison : Type 0 where
  equal distinct less at_most greater at_least : Comparison

-- Whether a comparison holds of two operands, the first of which is below, equal to or above the
-- second: for floating point, of two that are not NaN.
abbrev pub holds : Comparison → Ordering → Bool
holds equal Ordering.lt = false
holds equal Ordering.eq = true
holds equal Ordering.gt = false
holds distinct Ordering.lt = true
holds distinct Ordering.eq = false
holds distinct Ordering.gt = true
holds less Ordering.lt = true
holds less Ordering.eq = false
holds less Ordering.gt = false
holds at_most Ordering.lt = true
holds at_most Ordering.eq = true
holds at_most Ordering.gt = false
holds greater Ordering.lt = false
holds greater Ordering.eq = false
holds greater Ordering.gt = true
holds at_least Ordering.lt = false
holds at_least Ordering.eq = true
holds at_least Ordering.gt = true

-- The comparison that SMT-LIB gives a kind.
unfoldable pub comparison_of : NodeKind → Option Comparison
comparison_of nt_eq = some equal
comparison_of nt_distinct = some distinct
comparison_of nt_eq_bool = some equal
comparison_of nt_distinct_bool = some distinct
comparison_of nt_eq_other = some equal
comparison_of nt_distinct_other = some distinct
comparison_of nt_le = some at_most
comparison_of nt_lt = some less
comparison_of nt_ge = some at_least
comparison_of nt_gt = some greater
comparison_of nt_bv_ult = some less
comparison_of nt_bv_ugt = some greater
comparison_of nt_bv_ule = some at_most
comparison_of nt_bv_uge = some at_least
comparison_of nt_bv_slt = some less
comparison_of nt_bv_sgt = some greater
comparison_of nt_bv_sle = some at_most
comparison_of nt_bv_sge = some at_least
comparison_of nt_fp_le = some at_most
comparison_of nt_fp_lt = some less
comparison_of nt_fp_ge = some at_least
comparison_of nt_fp_gt = some greater
comparison_of nt_str_lt = some less
comparison_of nt_str_gt = some greater
comparison_of nt_str_le = some at_most
comparison_of nt_str_ge = some at_least
comparison_of nt_fp_eq = some equal
comparison_of _ = none

abbrev pub swapped : Ordering → Ordering
swapped Ordering.lt = Ordering.gt
swapped Ordering.eq = Ordering.eq
swapped Ordering.gt = Ordering.lt

abbrev complement : Comparison → Comparison
complement equal = distinct
complement distinct = equal
complement less = at_least
complement at_most = greater
complement greater = at_most
complement at_least = less

abbrev converse : Comparison → Comparison
converse equal = equal
converse distinct = distinct
converse less = greater
converse at_most = at_least
converse greater = less
converse at_least = at_most

-- `l` is a comparison that holds of two operands just when `k` does not.
abbrev pub AreComplementary : NodeKind → NodeKind → Type 0
AreComplementary k l =
    (c d : Comparison) × (comparison_of k ≡ some c)
    × (comparison_of l ≡ some d)
    × ((o : Ordering) → holds d o ≡ not (holds c o))

-- `l` is a comparison that holds of two operands just when `k` holds of them in the other order.
abbrev pub AreConverse : NodeKind → NodeKind → Type 0
AreConverse k l =
    (c d : Comparison) × (comparison_of k ≡ some c)
    × (comparison_of l ≡ some d)
    × ((o : Ordering) → holds d o ≡ holds c (swapped o))
