-- ===== src/Rewrite/Dispatch.antt =====
-- `Parser::rewrite_oper` (src/parser/rewrite_parser.cpp).
use smtstabilizer.Common.{ℕ, Bool, false, not, ◌&&◌, if◌then◌else◌, ◌==◌, ltb, List, ◌∷◌, length}
use smtstabilizer.Kind.{
  NodeKind, nt_abs, nt_acos, nt_acosh, nt_acot, nt_acoth, nt_acsc, nt_acsch, nt_add, nt_and,
  nt_asec, nt_asech, nt_asin, nt_asinh, nt_atan, nt_atan2, nt_atanh, nt_bv_add, nt_bv_and,
  nt_bv_ashr, nt_bv_comp, nt_bv_concat, nt_bv_extract, nt_bv_lshr, nt_bv_mul, nt_bv_nand, nt_bv_neg,
  nt_bv_nego, nt_bv_nor, nt_bv_not, nt_bv_or, nt_bv_repeat, nt_bv_rotate_left, nt_bv_rotate_right,
  nt_bv_saddo, nt_bv_sdiv, nt_bv_sdivo, nt_bv_sge, nt_bv_sgt, nt_bv_shl, nt_bv_sign_ext, nt_bv_sle,
  nt_bv_slt, nt_bv_smod, nt_bv_smodo, nt_bv_smulo, nt_bv_srem, nt_bv_sremo, nt_bv_sub, nt_bv_to_int,
  nt_bv_to_nat, nt_bv_uaddo, nt_bv_udiv, nt_bv_udivo, nt_bv_uge, nt_bv_ugt, nt_bv_ule, nt_bv_ult,
  nt_bv_umod, nt_bv_umodo, nt_bv_umulo, nt_bv_urem, nt_bv_uremo, nt_bv_xnor, nt_bv_xor,
  nt_bv_zero_ext, nt_ceil, nt_const, nt_const_array, nt_const_e, nt_const_false, nt_const_pi,
  nt_const_true, nt_cos, nt_cosh, nt_cot, nt_coth, nt_csc, nt_csch, nt_distinct, nt_distinct_bool,
  nt_distinct_other, nt_div_int, nt_div_real, nt_epsilon, nt_eq, nt_eq_bool, nt_eq_other, nt_exists,
  nt_exp, nt_fact, nt_floor, nt_forall, nt_fp_abs, nt_fp_add, nt_fp_div, nt_fp_eq, nt_fp_fma,
  nt_fp_ge, nt_fp_gt, nt_fp_is_inf, nt_fp_is_nan, nt_fp_is_neg, nt_fp_is_normal, nt_fp_is_pos,
  nt_fp_is_subnormal, nt_fp_is_zero, nt_fp_le, nt_fp_lt, nt_fp_max, nt_fp_min, nt_fp_mul, nt_fp_neg,
  nt_fp_rem, nt_fp_round_to_integral, nt_fp_sqrt, nt_fp_sub, nt_fp_to_fp, nt_fp_to_real,
  nt_fp_to_sbv, nt_fp_to_ubv, nt_gcd, nt_ge, nt_gt, nt_iand, nt_implies, nt_infinity, nt_int_to_bv,
  nt_is_divisible, nt_is_even, nt_is_int, nt_is_odd, nt_is_prime, nt_ite, nt_lb, nt_lcm, nt_le,
  nt_lg, nt_ln, nt_log, nt_lt, nt_max, nt_min, nt_mod, nt_mul, nt_nan, nt_nat_to_bv, nt_neg,
  nt_neg_epsilon, nt_neg_infinity, nt_not, nt_null, nt_or, nt_pos_epsilon, nt_pos_infinity, nt_pow,
  nt_pow2, nt_quant_var, nt_reg_all, nt_reg_allchar, nt_reg_complement, nt_reg_concat, nt_reg_diff,
  nt_reg_inter, nt_reg_loop, nt_reg_none, nt_reg_opt, nt_reg_plus, nt_reg_range, nt_reg_repeat,
  nt_reg_star, nt_reg_union, nt_round, nt_safesqrt, nt_sbv_to_int, nt_sec, nt_sech, nt_select,
  nt_sin, nt_sinh, nt_sqrt, nt_store, nt_str_charat, nt_str_concat, nt_str_contains,
  nt_str_from_code, nt_str_from_int, nt_str_ge, nt_str_gt, nt_str_in_reg, nt_str_indexof,
  nt_str_indexof_reg, nt_str_is_digit, nt_str_le, nt_str_len, nt_str_lt, nt_str_num_splits_re,
  nt_str_prefixof, nt_str_replace, nt_str_replace_all, nt_str_replace_reg, nt_str_replace_reg_all,
  nt_str_rev, nt_str_split, nt_str_split_at, nt_str_split_at_re, nt_str_split_rest,
  nt_str_split_rest_re, nt_str_substr, nt_str_suffixof, nt_str_to_code, nt_str_to_int,
  nt_str_to_lower, nt_str_to_reg, nt_str_to_upper, nt_str_update, nt_sub, nt_tan, nt_tanh,
  nt_temp_var, nt_to_int, nt_to_real, nt_ubv_to_int, nt_var, nt_xor,
}
use smtstabilizer.Rewrite.{Rewritten, null}
use smtstabilizer.Rewrite.Arity.{Arity, exactly, any, three_or_four, get_arity}

-- The overload of `rewrite` that the switch calls, and nothing where it returns the null pointer.
pub data Overload : Type 0 where
  nothing unary binary ternary four_ary n_ary : Overload

unfoldable pub overload_of : NodeKind → Overload
overload_of nt_null = nothing
overload_of nt_const = nothing
overload_of nt_var = nothing
overload_of nt_temp_var = nothing
overload_of nt_const_true = nothing
overload_of nt_const_false = nothing
overload_of nt_const_pi = nothing
overload_of nt_const_e = nothing
overload_of nt_infinity = nothing
overload_of nt_pos_infinity = nothing
overload_of nt_neg_infinity = nothing
overload_of nt_nan = nothing
overload_of nt_epsilon = nothing
overload_of nt_pos_epsilon = nothing
overload_of nt_neg_epsilon = nothing
overload_of nt_reg_none = nothing
overload_of nt_reg_all = nothing
overload_of nt_reg_allchar = nothing
overload_of nt_quant_var = nothing
overload_of nt_const_array = unary
overload_of nt_not = unary
overload_of nt_neg = unary
overload_of nt_abs = unary
overload_of nt_sqrt = unary
overload_of nt_safesqrt = unary
overload_of nt_ceil = unary
overload_of nt_floor = unary
overload_of nt_round = unary
overload_of nt_exp = unary
overload_of nt_ln = unary
overload_of nt_lg = unary
overload_of nt_lb = unary
overload_of nt_sin = unary
overload_of nt_cos = unary
overload_of nt_sec = unary
overload_of nt_csc = unary
overload_of nt_tan = unary
overload_of nt_cot = unary
overload_of nt_asin = unary
overload_of nt_acos = unary
overload_of nt_asec = unary
overload_of nt_acsc = unary
overload_of nt_atan = unary
overload_of nt_acot = unary
overload_of nt_sinh = unary
overload_of nt_cosh = unary
overload_of nt_tanh = unary
overload_of nt_sech = unary
overload_of nt_csch = unary
overload_of nt_coth = unary
overload_of nt_asinh = unary
overload_of nt_acosh = unary
overload_of nt_atanh = unary
overload_of nt_asech = unary
overload_of nt_acsch = unary
overload_of nt_acoth = unary
overload_of nt_to_int = unary
overload_of nt_to_real = unary
overload_of nt_is_int = unary
overload_of nt_is_prime = unary
overload_of nt_is_even = unary
overload_of nt_is_odd = unary
overload_of nt_fact = unary
overload_of nt_bv_not = unary
overload_of nt_bv_neg = unary
overload_of nt_bv_nego = unary
overload_of nt_fp_abs = unary
overload_of nt_fp_neg = unary
overload_of nt_fp_is_normal = unary
overload_of nt_fp_is_subnormal = unary
overload_of nt_fp_is_zero = unary
overload_of nt_fp_is_inf = unary
overload_of nt_fp_is_nan = unary
overload_of nt_fp_is_neg = unary
overload_of nt_fp_is_pos = unary
overload_of nt_fp_to_real = unary
overload_of nt_str_len = unary
overload_of nt_str_to_lower = unary
overload_of nt_str_to_upper = unary
overload_of nt_str_rev = unary
overload_of nt_str_is_digit = unary
overload_of nt_str_from_int = unary
overload_of nt_str_to_int = unary
overload_of nt_str_to_reg = unary
overload_of nt_str_to_code = unary
overload_of nt_str_from_code = unary
overload_of nt_reg_star = unary
overload_of nt_reg_plus = unary
overload_of nt_reg_opt = unary
overload_of nt_reg_complement = unary
overload_of nt_bv_to_nat = unary
overload_of nt_bv_to_int = unary
overload_of nt_ubv_to_int = unary
overload_of nt_sbv_to_int = unary
overload_of nt_pow2 = unary
overload_of nt_pow = binary
overload_of nt_mod = binary
overload_of nt_log = binary
overload_of nt_atan2 = binary
overload_of nt_is_divisible = binary
overload_of nt_gcd = binary
overload_of nt_lcm = binary
overload_of nt_bv_udiv = binary
overload_of nt_bv_sdiv = binary
overload_of nt_bv_urem = binary
overload_of nt_bv_srem = binary
overload_of nt_bv_umod = binary
overload_of nt_bv_smod = binary
overload_of nt_bv_sdivo = binary
overload_of nt_bv_udivo = binary
overload_of nt_bv_sremo = binary
overload_of nt_bv_uremo = binary
overload_of nt_bv_smodo = binary
overload_of nt_bv_umodo = binary
overload_of nt_bv_shl = binary
overload_of nt_bv_lshr = binary
overload_of nt_bv_ashr = binary
overload_of nt_bv_ult = binary
overload_of nt_bv_ule = binary
overload_of nt_bv_ugt = binary
overload_of nt_bv_uge = binary
overload_of nt_bv_slt = binary
overload_of nt_bv_sle = binary
overload_of nt_bv_sgt = binary
overload_of nt_bv_sge = binary
overload_of nt_nat_to_bv = binary
overload_of nt_int_to_bv = binary
overload_of nt_fp_rem = binary
overload_of nt_fp_sqrt = binary
overload_of nt_fp_round_to_integral = binary
overload_of nt_select = binary
overload_of nt_str_prefixof = binary
overload_of nt_str_suffixof = binary
overload_of nt_str_charat = binary
overload_of nt_str_split = binary
overload_of nt_str_in_reg = binary
overload_of nt_str_contains = binary
overload_of nt_str_num_splits_re = binary
overload_of nt_reg_range = binary
overload_of nt_reg_repeat = binary
overload_of nt_bv_repeat = binary
overload_of nt_bv_zero_ext = binary
overload_of nt_bv_sign_ext = binary
overload_of nt_bv_rotate_left = binary
overload_of nt_bv_rotate_right = binary
overload_of nt_fp_min = binary
overload_of nt_fp_max = binary
overload_of nt_bv_xnor = binary
overload_of nt_bv_nand = binary
overload_of nt_bv_nor = binary
overload_of nt_bv_sub = binary
overload_of nt_ite = ternary
overload_of nt_fp_add = ternary
overload_of nt_fp_sub = ternary
overload_of nt_fp_mul = ternary
overload_of nt_fp_div = ternary
overload_of nt_fp_to_ubv = ternary
overload_of nt_fp_to_sbv = ternary
overload_of nt_store = ternary
overload_of nt_str_substr = ternary
overload_of nt_str_indexof = ternary
overload_of nt_str_update = ternary
overload_of nt_str_replace = ternary
overload_of nt_str_replace_all = ternary
overload_of nt_str_split_at = ternary
overload_of nt_str_split_rest = ternary
overload_of nt_str_split_at_re = ternary
overload_of nt_str_split_rest_re = ternary
overload_of nt_str_replace_reg = ternary
overload_of nt_str_replace_reg_all = ternary
overload_of nt_str_indexof_reg = ternary
overload_of nt_reg_loop = ternary
overload_of nt_bv_extract = ternary
overload_of nt_fp_fma = four_ary
overload_of nt_le = n_ary
overload_of nt_lt = n_ary
overload_of nt_ge = n_ary
overload_of nt_gt = n_ary
overload_of nt_eq = n_ary
overload_of nt_eq_bool = n_ary
overload_of nt_eq_other = n_ary
overload_of nt_div_int = n_ary
overload_of nt_div_real = n_ary
overload_of nt_str_lt = n_ary
overload_of nt_str_le = n_ary
overload_of nt_str_gt = n_ary
overload_of nt_str_ge = n_ary
overload_of nt_distinct = n_ary
overload_of nt_distinct_bool = n_ary
overload_of nt_distinct_other = n_ary
overload_of nt_and = n_ary
overload_of nt_or = n_ary
overload_of nt_implies = n_ary
overload_of nt_xor = n_ary
overload_of nt_add = n_ary
overload_of nt_mul = n_ary
overload_of nt_iand = n_ary
overload_of nt_sub = n_ary
overload_of nt_bv_and = n_ary
overload_of nt_bv_or = n_ary
overload_of nt_bv_xor = n_ary
overload_of nt_bv_comp = n_ary
overload_of nt_bv_add = n_ary
overload_of nt_bv_mul = n_ary
overload_of nt_bv_saddo = n_ary
overload_of nt_bv_uaddo = n_ary
overload_of nt_bv_smulo = n_ary
overload_of nt_bv_umulo = n_ary
overload_of nt_bv_concat = n_ary
overload_of nt_fp_le = n_ary
overload_of nt_fp_lt = n_ary
overload_of nt_fp_ge = n_ary
overload_of nt_fp_gt = n_ary
overload_of nt_fp_eq = n_ary
overload_of nt_str_concat = n_ary
overload_of nt_reg_concat = n_ary
overload_of nt_reg_union = n_ary
overload_of nt_reg_inter = n_ary
overload_of nt_reg_diff = n_ary
overload_of nt_forall = n_ary
overload_of nt_exists = n_ary
overload_of nt_max = n_ary
overload_of nt_min = n_ary
overload_of nt_fp_to_fp = nothing
overload_of _ = nothing

-- The five overloads of `rewrite`.
pub record Overloads : Type 0 where
  pub rewrite_unary : NodeKind → ℕ → Rewritten
  pub rewrite_binary : NodeKind → ℕ → ℕ → Rewritten
  pub rewrite_ternary : NodeKind → ℕ → ℕ → ℕ → Rewritten
  pub rewrite_four_ary : NodeKind → ℕ → ℕ → ℕ → ℕ → Rewritten
  pub rewrite_n_ary : NodeKind → List ℕ → Rewritten

-- `std::runtime_error`; a read past the end of the operands; a result.
pub data Dispatched : Type 0 where
  refused past_end : Dispatched
  done : Rewritten → Dispatched

-- `getArity(t) > 0 && p.size() != getArity(t)`
unfoldable pub is_wrong_number : Arity → ℕ → Bool
is_wrong_number (exactly n) size = ltb 0 n && not (size == n)
is_wrong_number any size = false
is_wrong_number three_or_four size = false

module _ (o : Overloads) (t : NodeKind) where
  -- `p.front()`, `p.at(0)` to `p.at(3)`, and the call.
  unfoldable pub call : Overload → List ℕ → Dispatched
  call nothing p = done (null t p)
  call unary (a ∷ p) = done (o.rewrite_unary t a)
  call binary (a ∷ b ∷ p) = done (o.rewrite_binary t a b)
  call ternary (a ∷ b ∷ c ∷ p) = done (o.rewrite_ternary t a b c)
  call four_ary (a ∷ b ∷ c ∷ d ∷ p) = done (o.rewrite_four_ary t a b c d)
  call n_ary p = done (o.rewrite_n_ary t p)
  call _ p = past_end

  -- The first argument is `options->getRewrite()`.
  unfoldable pub rewrite_oper : Bool → List ℕ → Dispatched
  unfolding call is_wrong_number
  rewrite_oper is_on p =
      if not is_on
      then done (null t p)
      else if is_wrong_number (get_arity t) (length p)
      then refused
      else call (overload_of t) p
