-- ===== src/Rewrite/Oper.antt =====
-- `mkOper` and `mkInternalOper` of the parser (src/parser/op_parser.cpp), which call `rewrite_oper`
-- and create the node for what it leaves. `hash_code` is `DAGNode::hashCode`, and `create` is
-- `node_manager->createNode` for one sort and the name of the kind.
use smtstabilizer.Common.{
  ℕ, Bool, true, false, not, if◌then◌else◌, ◌==◌, ltb, leb, List, [], ◌∷◌, reverse, length, Option,
  none, some,
}
use smtstabilizer.Kind.{
  NodeKind, nt_add, nt_mul, nt_and, nt_iand, nt_or, nt_xor, nt_bv_add, nt_bv_mul, nt_bv_and,
  nt_bv_or, nt_bv_xor, nt_eq, nt_distinct, nt_max, nt_min, nt_bv_nand, nt_bv_nor, nt_bv_comp,
  nt_bv_saddo, nt_bv_uaddo, nt_bv_umulo, nt_bv_xnor, nt_fp_eq, nt_fp_max, nt_fp_min, nt_forall,
  nt_exists, nt_fp_add, nt_fp_mul, nt_ge, nt_le, nt_fp_ge, nt_fp_le, nt_str_ge, nt_str_le,
  nt_bv_uge, nt_bv_ule, nt_bv_sge, nt_bv_sle, nt_gt, nt_lt, nt_fp_gt, nt_fp_lt, nt_str_gt,
  nt_str_lt, nt_not, nt_implies, nt_eq_bool, nt_eq_other, nt_distinct_bool, nt_distinct_other,
  nt_bv_ugt, nt_bv_ult, nt_bv_sgt, nt_bv_slt,
}
use smtstabilizer.Node.{is_func_def}
use smtstabilizer.Rewrite.{Terms, Rewritten, found, null, first_child}
use smtstabilizer.Rewrite.Logic.{
  rewrite_not, rewrite_and, rewrite_or, rewrite_implies, rewrite_xor, rewrite_distinct,
}
use smtstabilizer.Rewrite.Equal.{sort_with, rewrite_eq}
use smtstabilizer.Rewrite.Order.{on_front, rewrite_le, rewrite_lt, rewrite_ge, rewrite_gt}
use smtstabilizer.Rewrite.Sums.{rewrite_add, rewrite_mul}
use smtstabilizer.Rewrite.Dispatch.{Overloads, Dispatched, refused, past_end, done, rewrite_oper}

-- `Parser::isCommutative`
unfoldable pub is_commutative : NodeKind → Bool
is_commutative nt_add = true
is_commutative nt_mul = true
is_commutative nt_and = true
is_commutative nt_iand = true
is_commutative nt_or = true
is_commutative nt_xor = true
is_commutative nt_bv_add = true
is_commutative nt_bv_mul = true
is_commutative nt_bv_and = true
is_commutative nt_bv_or = true
is_commutative nt_bv_xor = true
is_commutative nt_eq = true
is_commutative nt_distinct = true
is_commutative nt_max = true
is_commutative nt_min = true
is_commutative nt_bv_nand = true
is_commutative nt_bv_nor = true
is_commutative nt_bv_comp = true
is_commutative nt_bv_saddo = true
is_commutative nt_bv_uaddo = true
is_commutative nt_bv_umulo = true
is_commutative nt_bv_xnor = true
is_commutative nt_fp_eq = true
is_commutative nt_fp_max = true
is_commutative nt_fp_min = true
is_commutative nt_forall = true
is_commutative nt_exists = true
is_commutative nt_fp_add = true
is_commutative nt_fp_mul = true
is_commutative _ = false

-- The kinds of which the first operand keeps its place.
abbrev pub has_leading_operand : NodeKind → Bool
has_leading_operand nt_forall = true
has_leading_operand nt_exists = true
has_leading_operand nt_fp_add = true
has_leading_operand nt_fp_mul = true
has_leading_operand _ = false

-- The kind whose application to the operands in reverse is built instead.
unfoldable pub turned : NodeKind → Option NodeKind
turned nt_ge = some nt_le
turned nt_fp_ge = some nt_fp_le
turned nt_str_ge = some nt_str_le
turned nt_bv_uge = some nt_bv_ule
turned nt_bv_sge = some nt_bv_sle
turned nt_gt = some nt_lt
turned nt_fp_gt = some nt_fp_lt
turned nt_str_gt = some nt_str_lt
turned nt_bv_ugt = some nt_bv_ult
turned nt_bv_sgt = some nt_bv_slt
turned _ = none

-- `std::runtime_error`, a read past the end of the operands, `mkUnknown()`, and a node.
pub data Created : Type 0 where
  runtime_error out_of_range unknown : Created
  node : ℕ → Created

module _ (hash_code : ℕ → ℕ) where
  unfoldable pub hash_less : ℕ → ℕ → Bool
  hash_less a b =
      if not (hash_code a == hash_code b) then ltb (hash_code a) (hash_code b) else ltb a b

  unfoldable pub sort_params : List ℕ → List ℕ
  unfolding hash_less sort_with
  sort_params p = if leb (length p) 1 then p else sort_with hash_less p

  -- The operands of a commutative kind in the order of their hash codes.
  unfoldable pub order_params : NodeKind → List ℕ → List ℕ
  unfolding sort_params is_commutative
  order_params t [] = []
  order_params t (x ∷ p) =
      if is_commutative t
      then (if has_leading_operand t then x ∷ sort_params p else sort_params (x ∷ p))
      else x ∷ p

module _ (tm : Terms) where
  -- The operands with each defined function replaced by its body. none: `std::runtime_error`
  unfoldable pub apply_defs : List ℕ → Option (List ℕ)
  apply_defs [] = some []
  apply_defs (x ∷ p) =
      let rest = apply_defs p in
      if is_func_def (tm.node x).kind
      then (if not (length (tm.node x).children == 1)
          then none
          else elim rest [ none ↦ none | some q ↦ some (first_child (tm.node x) ∷ q) ])
      else elim rest [ none ↦ none | some q ↦ some (x ∷ q) ]

  module _ (o : Overloads) (hash_code : ℕ → ℕ) (create : NodeKind → List ℕ → ℕ) (is_on : Bool) where
    -- The kind is that of the call for the test of `isCommutative`, and that which the rewriting left
    -- for the node.
    unfoldable pub place : NodeKind → Dispatched → Created
    unfolding order_params
    place t refused = runtime_error
    place t past_end = out_of_range
    place t (done (found x)) = node x
    place t (done (null nt p)) = node (create nt (order_params hash_code t p))

    unfoldable pub mk_internal_oper : NodeKind → List ℕ → Created
    unfolding apply_defs place rewrite_oper
    mk_internal_oper t p = elim (apply_defs p) [
      | none ↦ runtime_error
      | some q ↦ place t (rewrite_oper o t is_on q)
    ]

    -- Before this, `mkOper` names the variables of a quantifier, which is not modelled.
    unfoldable pub mk_oper : NodeKind → List ℕ → Created
    unfolding mk_internal_oper turned
    mk_oper t [] = unknown
    mk_oper t (x ∷ p) = elim (turned t) [
      | none ↦ mk_internal_oper t (x ∷ p)
      | some k ↦ mk_internal_oper k (reverse (x ∷ p))
    ]

  -- The two switches, with the cases that are modelled and the others as they are given.
  module _ (others : Overloads) where
    unfoldable pub rewrite_one : NodeKind → ℕ → Rewritten
    unfolding rewrite_not
    rewrite_one nt_not x = rewrite_not tm x
    rewrite_one t x = others.rewrite_unary t x

    unfoldable pub rewrite_many : NodeKind → List ℕ → Rewritten
    rewrite_many nt_le p = on_front tm (rewrite_le tm) p
    rewrite_many nt_lt p = on_front tm (rewrite_lt tm) p
    rewrite_many nt_ge p = on_front tm (rewrite_ge tm) p
    rewrite_many nt_gt p = on_front tm (rewrite_gt tm) p
    rewrite_many nt_eq p = rewrite_eq tm nt_eq p
    rewrite_many nt_eq_bool p = rewrite_eq tm nt_eq_bool p
    rewrite_many nt_eq_other p = rewrite_eq tm nt_eq_other p
    rewrite_many nt_distinct p = rewrite_distinct tm nt_distinct p
    rewrite_many nt_distinct_bool p = rewrite_distinct tm nt_distinct_bool p
    rewrite_many nt_distinct_other p = rewrite_distinct tm nt_distinct_other p
    rewrite_many nt_and p = rewrite_and tm p
    rewrite_many nt_or p = rewrite_or tm p
    rewrite_many nt_implies p = on_front tm (rewrite_implies tm) p
    rewrite_many nt_xor p = rewrite_xor tm p
    rewrite_many nt_add p = rewrite_add tm p
    rewrite_many nt_mul p = rewrite_mul tm p
    rewrite_many t p = others.rewrite_n_ary t p

    abbrev pub overloads : Overloads
    overloads = record others { rewrite_unary = rewrite_one; rewrite_n_ary = rewrite_many }
