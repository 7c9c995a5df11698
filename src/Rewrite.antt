-- ===== src/Rewrite.antt =====
-- The rewriter of the parser (src/parser/rewrite_parser.cpp): what it reads of the nodes, what a
-- call answers, and the values that its answers are measured by. `Integer` and `Real` wrap GMP and
-- MPFR; the node manager that creates constants is an interface here.
pub mod Logic
pub mod LogicSound
pub mod Meaning
pub mod Equal
pub mod EqualSound
pub mod EqualLoss
pub mod Order
pub mod Chains
pub mod ScanSound
pub mod Comparisons
pub mod AtMost
pub mod AtMostSound
pub mod Less
pub mod AtMostLoss
pub mod Sums
pub mod SumsSound
pub mod SumsEnds
pub mod Arity
pub mod Dispatch
pub mod DispatchSafe
pub mod Oper
pub mod Leftover
pub mod Reorder
pub mod OperOrder
pub mod OperLeft
pub mod OperSound
use text.Mathlib.Text.{◌==◌ as str_eq}
use smtstabilizer.Common.{
  ℕ, Bool, true, false, not, ◌&&◌, ◌||◌, if◌then◌else◌, ◌==◌, List, [], ◌∷◌, get_or, ◌≡◌,
}
use smtstabilizer.Kind.{NodeKind, nt_const_true, nt_const_false, nt_not, nt_neg}
use smtstabilizer.Sort.{
  Sort, SortKind, sort_kind, sk_bool, sk_int, sk_real, sk_intoreal, sk_bv, sk_str,
}
use smtstabilizer.Node.{Node, is_const}

pub record Terms : Type 1 where
  pub Integer : Type 0
  pub Real : Type 0
  pub node : ℕ → Node
  -- `NodeManager::TRUE_NODE`, `NodeManager::FALSE_NODE`
  pub true_node : ℕ
  pub false_node : ℕ
  -- `expr->getValue()->getNumberValue()`, read as the one type or the other
  pub to_int : ℕ → Integer
  pub to_real : ℕ → Real
  -- `<` and `==` of `Integer` and of `Real`
  pub int_lt : Integer → Integer → Bool
  pub int_eq : Integer → Integer → Bool
  pub real_lt : Real → Real → Bool
  pub real_eq : Real → Real → Bool
  pub int_zero : Integer
  pub int_one : Integer
  pub real_zero : Real
  pub real_one : Real
  pub int_add : Integer → Integer → Integer
  pub int_mul : Integer → Integer → Integer
  pub int_sub : Integer → Integer → Integer
  pub real_add : Real → Real → Real
  pub real_mul : Real → Real → Real
  pub real_sub : Real → Real → Real
  -- `mkConstInt`, `mkConstReal`: the node manager returns the node that it has for a constant.
  pub mk_const_int : Integer → ℕ
  pub mk_const_real : Real → ℕ
  -- The code points of `toString()`.
  pub text : ℕ → List ℕ

-- What a call of `rewrite` leaves: a node, or the null pointer and the kind and the operands, both
-- passed by reference, from which `mkInternalOper` builds the node.
pub data Rewritten : Type 0 where
  found : ℕ → Rewritten
  null : NodeKind → List ℕ → Rewritten

abbrev is_kind_true : NodeKind → Bool
is_kind_true nt_const_true = true
is_kind_true _ = false

abbrev is_kind_false : NodeKind → Bool
is_kind_false nt_const_false = true
is_kind_false _ = false

abbrev is_sort_bool : SortKind → Bool
is_sort_bool sk_bool = true
is_sort_bool _ = false

-- The sorts of `isCInt` and of `isCReal`.
abbrev is_int_sort : SortKind → Bool
is_int_sort sk_int = true
is_int_sort sk_intoreal = true
is_int_sort _ = false

abbrev is_real_sort : SortKind → Bool
is_real_sort sk_real = true
is_real_sort sk_intoreal = true
is_real_sort _ = false

abbrev is_kind_not : NodeKind → Bool
is_kind_not nt_not = true
is_kind_not _ = false

-- `isTrue`, `isFalse`, `isNot`
unfoldable pub is_true : Node → Bool
is_true n = is_kind_true n.kind && is_sort_bool (sort_kind n.sort)

unfoldable pub is_false : Node → Bool
is_false n = is_kind_false n.kind && is_sort_bool (sort_kind n.sort)

unfoldable pub is_not : Node → Bool
is_not n = is_kind_not n.kind

-- `isCInt`, `isCReal`, `isNumeral`
unfoldable pub is_cint : Node → Bool
is_cint n = is_const n.kind && is_int_sort (sort_kind n.sort)

unfoldable pub is_creal : Node → Bool
is_creal n = is_const n.kind && is_real_sort (sort_kind n.sort)

unfoldable pub is_numeral : Node → Bool
unfolding is_cint is_creal
is_numeral n = is_cint n || is_creal n

abbrev is_sort_bv : SortKind → Bool
is_sort_bv sk_bv = true
is_sort_bv _ = false

-- `isCBV`
unfoldable pub is_cbv : Node → Bool
is_cbv n = is_const n.kind && is_sort_bv (sort_kind n.sort)

abbrev is_sort_str : SortKind → Bool
is_sort_str sk_str = true
is_sort_str _ = false

-- `isCStr`
unfoldable pub is_cstr : Node → Bool
is_cstr n = is_const n.kind && is_sort_str (sort_kind n.sort)

-- The code point of the backslash, with which an escape in a string begins.
abbrev backslash : ℕ
backslash = 92

unfoldable pub has_no_escape : List ℕ → Bool
has_no_escape [] = true
has_no_escape (c ∷ cs) = not (c == backslash) && has_no_escape cs

-- `getName() == "(fp_bit_representation)"`
unfoldable pub is_fp_bits : Node → Bool
is_fp_bits n = str_eq n.name "(fp_bit_representation)"

-- `getChild(0)`
abbrev pub first_child : Node → ℕ
first_child n = get_or n.children 0 0

-- `np.back()`, where the vector is not empty: vectors that only grow at their end are kept with
-- their last element first.
unfoldable pub is_back : ℕ → List ℕ → Bool
is_back x [] = false
is_back x (y ∷ ys) = x == y

-- Constants of which no two nodes have one value: Boolean and bit-vector constants, which have one
-- spelling for each value, and strings in which no character is escaped.
unfoldable pub is_canonical : Terms → ℕ → Bool
unfolding is_true is_false is_cbv is_cstr has_no_escape
is_canonical tm x =
    is_true (tm.node x)
    || is_false (tm.node x)
    || is_cbv (tm.node x)
    || (is_cstr (tm.node x) && has_no_escape (tm.text x))

-- A constant is a number, a floating-point value given by its bits, or has one spelling.
abbrev pub IsSpelled : Terms → ℕ → Type 0
IsSpelled tm x =
    is_const (tm.node x).kind ≡ true
    → (is_numeral (tm.node x) || is_fp_bits (tm.node x) || is_canonical tm x) ≡ true

-- One reading of all nodes: the truth of formulas, the equality of values, and their order. The
-- comparisons of number constants are exact, integer constants are hash-consed by their values, and
-- so are canonical constants, none of which is a number.
pub record Model (tm : Terms) : Type 0 where
  pub truth : ℕ → Bool
  pub same : ℕ → ℕ → Bool
  pub below : ℕ → ℕ → Bool
  pub truth_true_node : truth tm.true_node ≡ true
  pub truth_false_node : truth tm.false_node ≡ false
  pub truth_of_true : (x : ℕ) → is_true (tm.node x) ≡ true → truth x ≡ true
  pub truth_of_false : (x : ℕ) → is_false (tm.node x) ≡ true → truth x ≡ false
  pub truth_of_not :
      (x : ℕ) → is_not (tm.node x) ≡ true → truth x ≡ not (truth (first_child (tm.node x)))
  pub same_refl : (x : ℕ) → same x x ≡ true
  pub same_sym : (x y : ℕ) → same x y ≡ true → same y x ≡ true
  pub same_trans : (x y z : ℕ) → same x y ≡ true → same y z ≡ true → same x z ≡ true
  pub canonical_unique :
      (x y : ℕ) → is_canonical tm x ≡ true → is_canonical tm y ≡ true → same x y ≡ true → x ≡ y
  pub numeral_apart :
      (x y : ℕ) → is_numeral (tm.node x) ≡ true → is_canonical tm y ≡ true → same x y ≡ false
  pub cint_unique :
      (x y : ℕ) → is_cint (tm.node x) ≡ true → is_cint (tm.node y) ≡ true → same x y ≡ true → x ≡ y
  pub below_total : (x y : ℕ) → below x y ≡ false → below y x ≡ true
  pub below_trans : (x y z : ℕ) → below x y ≡ true → below y z ≡ true → below x z ≡ true
  pub below_antisym : (x y : ℕ) → (below x y && below y x) ≡ same x y
  pub int_lt_below :
      (x y : ℕ)
      → is_cint (tm.node x) ≡ true
      → is_cint (tm.node y) ≡ true
      → tm.int_lt (tm.to_int x) (tm.to_int y) ≡ not (below y x)
  pub int_eq_same :
      (x y : ℕ)
      → is_cint (tm.node x) ≡ true
      → is_cint (tm.node y) ≡ true
      → tm.int_eq (tm.to_int x) (tm.to_int y) ≡ same x y
  pub real_lt_below :
      (x y : ℕ)
      → is_numeral (tm.node x) ≡ true
      → is_numeral (tm.node y) ≡ true
      → tm.real_lt (tm.to_real x) (tm.to_real y) ≡ not (below y x)
  pub real_eq_same :
      (x y : ℕ)
      → is_numeral (tm.node x) ≡ true
      → is_numeral (tm.node y) ≡ true
      → tm.real_eq (tm.to_real x) (tm.to_real y) ≡ same x y
