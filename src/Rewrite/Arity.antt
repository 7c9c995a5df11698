-- ===== src/Rewrite/Arity.antt =====
-- `Parser::getArity` (src/parser/op_parser.cpp).
use smtstabilizer.Common.{ℕ}
use smtstabilizer.Kind.{
  NodeKind, nt_abs, nt_acos, nt_acosh, nt_acot, nt_acoth, nt_acsc, nt_acsch, nt_add, nt_and,
  nt_asec, nt_asech, nt_asin, nt_asinh, nt_atan, nt_atan2, nt_atanh, nt_bv_add, nt_bv_and,
  nt_bv_ashr, nt_bv_comp, nt_bv_concat, nt_bv_extract, nt_bv_lshr, nt_bv_mul, nt_bv_nand, nt_bv_neg,
  nt_bv_nego, nt_bv_nor, nt_bv_not, nt_bv_or, nt_bv_repeat, nt_bv_rotate_left, nt_bv_rotate_right,
  nt_bv_saddo, nt_bv_sdiv, nt_bv_sdivo, nt_bv_sge, nt_bv_sgt, nt_bv_shl, nt_bv_sign_ext, nt_bv_sle,
  nt_bv_slt, nt_bv_smod, nt_bv_smodo, nt_bv_smulo, nt_bv_srem, nt_bv_sremo, nt_bv_sub, nt_bv_to_int,
  nt_bv_to_nat, nt_bv_uaddo, nt_bv_udiv, nt_bv_udivo, nt_bv_uge, nt_bv_ugt, nt_bv_ule, nt_bv_ult,
  nt_bv_umod, nt_bv_umodo, nt_bv_umulo, nt_bv_urem, nt_bv_uremo, nt_bv_xnor, nt_bv_xor,
  nt_bv_zero_ext, nt_ceil, nt_const, nt_const_array, nt_const_e, nt_const_false, nt_const_pi,
  nt_const_true, nt_cos, nt_cosh, nt_cot, nt_coth, nt_csc, nt_csch, nt_distinct, nt_distinct_bool,
  nt_distinct_other, nt_div_int, nt_div_real, nt_epsilon, nt_eq, nt_eq_bool, nt_eq_other, nt_exists,
  nt_exp, nt_fact, nt_floor, nt_forall, nt_fp_abs, nt_fp_add, nt_fp_div, nt_fp_eq, nt_fp_fma,
  nt_fp_ge, nt_fp_gt, nt_fp_is_inf, nt_fp_is_nan, nt_fp_is_neg, nt_fp_is_normal, nt_fp_is_pos,
  nt_fp_is_subnormal, nt_fp_is_zero, nt_fp_le, nt_fp_lt, nt_fp_max, nt_fp_min, nt_fp_mul, nt_fp_neg,
  nt_fp_rem, nt_fp_round_to_integral, nt_fp_sqrt, nt_fp_sub, nt_fp_to_fp, nt_fp_to_real,
  nt_fp_to_sbv, nt_fp_to_ubv, nt_gcd, nt_ge, nt_gt, nt_iand, nt_implies, nt_infinity, nt_int_to_bv,
  nt_is_divisible, nt_is_even, nt_is_int, nt_is_odd, nt_is_prime, nt_ite, nt_lb, nt_lcm, nt_le,
  nt_lg, nt_ln, nt_log, nt_lt, nt_max, nt_min, nt_mod, nt_mul, nt_nan, nt_nat_to_bv, nt_neg,
  nt_neg_epsilon, nt_neg_infinity, nt_not, nt_null, nt_or, nt_pos_epsilon, nt_pos_infinity, nt_pow,
  nt_pow2, nt_quant_var, nt_reg_all, nt_reg_allchar, nt_reg_complement, nt_reg_concat, nt_reg_diff,
  nt_reg_inter, nt_reg_loop, nt_reg_none, nt_reg_opt, nt_reg_plus, nt_reg_range, nt_reg_repeat,
  nt_reg_star, nt_reg_union, nt_round, nt_safesqrt, nt_sbv_to_int, nt_sec, nt_sech, nt_select,
  nt_sin, nt_sinh, nt_sqrt, nt_store, nt_str_charat, nt_str_concat, nt_str_contains,
  nt_str_from_code, nt_str_from_int, nt_str_ge, nt_str_gt, nt_str_in_reg, nt_str_indexof,
  nt_str_indexof_reg, nt_str_is_digit, nt_str_le, nt_str_len, nt_str_lt, nt_str_num_splits_re,
  nt_str_prefixof, nt_str_replace, nt_str_replace_all, nt_str_replace_reg, nt_str_replace_reg_all,
  nt_str_rev, nt_str_split, nt_str_split_at, nt_str_split_at_re, nt_str_split_rest,
  nt_str_split_rest_re, nt_str_substr, nt_str_suffixof, nt_str_to_code, nt_str_to_int,
  nt_str_to_lower, nt_str_to_reg, nt_str_to_upper, nt_str_update, nt_sub, nt_tan, nt_tanh,
  nt_temp_var, nt_to_int, nt_to_real, nt_ubv_to_int, nt_var, nt_xor,
}

-- What `getArity` answers: a number of operands, -1, or -2.
pub data Arity : Type 0 where
  exactly : ℕ → Arity
  any three_or_four : Arity

unfoldable pub get_arity : NodeKind → Arity
get_arity nt_null = exactly 0
get_arity nt_const = exactly 0
get_arity nt_var = exactly 0
get_arity nt_temp_var = exactly 0
get_arity nt_const_true = exactly 0
get_arity nt_const_false = exactly 0
get_arity nt_const_pi = exactly 0
get_arity nt_const_e = exactly 0
get_arity nt_infinity = exactly 0
get_arity nt_pos_infinity = exactly 0
get_arity nt_neg_infinity = exactly 0
get_arity nt_nan = exactly 0
get_arity nt_epsilon = exactly 0
get_arity nt_pos_epsilon = exactly 0
get_arity nt_neg_epsilon = exactly 0
get_arity nt_reg_none = exactly 0
get_arity nt_reg_all = exactly 0
get_arity nt_reg_allchar = exactly 0
get_arity nt_quant_var = exactly 0
get_arity nt_const_array = exactly 1
get_arity nt_not = exactly 1
get_arity nt_neg = exactly 1
get_arity nt_abs = exactly 1
get_arity nt_sqrt = exactly 1
get_arity nt_safesqrt = exactly 1
get_arity nt_ceil = exactly 1
get_arity nt_floor = exactly 1
get_arity nt_round = exactly 1
get_arity nt_exp = exactly 1
get_arity nt_ln = exactly 1
get_arity nt_lg = exactly 1
get_arity nt_lb = exactly 1
get_arity nt_sin = exactly 1
get_arity nt_cos = exactly 1
get_arity nt_sec = exactly 1
get_arity nt_csc = exactly 1
get_arity nt_tan = exactly 1
get_arity nt_cot = exactly 1
get_arity nt_asin = exactly 1
get_arity nt_acos = exactly 1
get_arity nt_asec = exactly 1
get_arity nt_acsc = exactly 1
get_arity nt_atan = exactly 1
get_arity nt_acot = exactly 1
get_arity nt_sinh = exactly 1
get_arity nt_cosh = exactly 1
get_arity nt_tanh = exactly 1
get_arity nt_sech = exactly 1
get_arity nt_csch = exactly 1
get_arity nt_coth = exactly 1
get_arity nt_asinh = exactly 1
get_arity nt_acosh = exactly 1
get_arity nt_atanh = exactly 1
get_arity nt_asech = exactly 1
get_arity nt_acsch = exactly 1
get_arity nt_acoth = exactly 1
get_arity nt_to_int = exactly 1
get_arity nt_to_real = exactly 1
get_arity nt_is_int = exactly 1
get_arity nt_is_prime = exactly 1
get_arity nt_is_even = exactly 1
get_arity nt_is_odd = exactly 1
get_arity nt_fact = exactly 1
get_arity nt_bv_not = exactly 1
get_arity nt_bv_neg = exactly 1
get_arity nt_bv_nego = exactly 1
get_arity nt_fp_abs = exactly 1
get_arity nt_fp_neg = exactly 1
get_arity nt_fp_is_normal = exactly 1
get_arity nt_fp_is_subnormal = exactly 1
get_arity nt_fp_is_zero = exactly 1
get_arity nt_fp_is_inf = exactly 1
get_arity nt_fp_is_nan = exactly 1
get_arity nt_fp_is_neg = exactly 1
get_arity nt_fp_is_pos = exactly 1
get_arity nt_fp_to_real = exactly 1
get_arity nt_str_len = exactly 1
get_arity nt_str_to_lower = exactly 1
get_arity nt_str_to_upper = exactly 1
get_arity nt_str_rev = exactly 1
get_arity nt_str_is_digit = exactly 1
get_arity nt_str_from_int = exactly 1
get_arity nt_str_to_int = exactly 1
get_arity nt_str_to_reg = exactly 1
get_arity nt_str_to_code = exactly 1
get_arity nt_str_from_code = exactly 1
get_arity nt_reg_star = exactly 1
get_arity nt_reg_plus = exactly 1
get_arity nt_reg_opt = exactly 1
get_arity nt_reg_complement = exactly 1
get_arity nt_bv_to_nat = exactly 1
get_arity nt_bv_to_int = exactly 1
get_arity nt_ubv_to_int = exactly 1
get_arity nt_sbv_to_int = exactly 1
get_arity nt_pow2 = exactly 1
get_arity nt_pow = exactly 2
get_arity nt_mod = exactly 2
get_arity nt_log = exactly 2
get_arity nt_atan2 = exactly 2
get_arity nt_is_divisible = exactly 2
get_arity nt_gcd = exactly 2
get_arity nt_lcm = exactly 2
get_arity nt_bv_udiv = exactly 2
get_arity nt_bv_sdiv = exactly 2
get_arity nt_bv_urem = exactly 2
get_arity nt_bv_srem = exactly 2
get_arity nt_bv_umod = exactly 2
get_arity nt_bv_smod = exactly 2
get_arity nt_bv_sdivo = exactly 2
get_arity nt_bv_udivo = exactly 2
get_arity nt_bv_sremo = exactly 2
get_arity nt_bv_uremo = exactly 2
get_arity nt_bv_smodo = exactly 2
get_arity nt_bv_umodo = exactly 2
get_arity nt_bv_shl = exactly 2
get_arity nt_bv_lshr = exactly 2
get_arity nt_bv_ashr = exactly 2
get_arity nt_bv_ult = exactly 2
get_arity nt_bv_ule = exactly 2
get_arity nt_bv_ugt = exactly 2
get_arity nt_bv_uge = exactly 2
get_arity nt_bv_slt = exactly 2
get_arity nt_bv_sle = exactly 2
get_arity nt_bv_sgt = exactly 2
get_arity nt_bv_sge = exactly 2
get_arity nt_nat_to_bv = exactly 2
get_arity nt_int_to_bv = exactly 2
get_arity nt_fp_rem = exactly 2
get_arity nt_fp_sqrt = exactly 2
get_arity nt_fp_round_to_integral = exactly 2
get_arity nt_select = exactly 2
get_arity nt_str_prefixof = exactly 2
get_arity nt_str_suffixof = exactly 2
get_arity nt_str_charat = exactly 2
get_arity nt_str_split = exactly 2
get_arity nt_str_in_reg = exactly 2
get_arity nt_str_contains = exactly 2
get_arity nt_str_num_splits_re = exactly 2
get_arity nt_reg_range = exactly 2
get_arity nt_reg_repeat = exactly 2
get_arity nt_bv_repeat = exactly 2
get_arity nt_bv_zero_ext = exactly 2
get_arity nt_bv_sign_ext = exactly 2
get_arity nt_bv_rotate_left = exactly 2
get_arity nt_bv_rotate_right = exactly 2
get_arity nt_fp_min = exactly 2
get_arity nt_fp_max = exactly 2
get_arity nt_bv_xnor = exactly 2
get_arity nt_bv_nand = exactly 2
get_arity nt_bv_nor = exactly 2
get_arity nt_bv_sub = exactly 2
get_arity nt_ite = exactly 3
get_arity nt_fp_add = exactly 3
get_arity nt_fp_sub = exactly 3
get_arity nt_fp_mul = exactly 3
get_arity nt_fp_div = exactly 3
get_arity nt_fp_to_ubv = exactly 3
get_arity nt_fp_to_sbv = exactly 3
get_arity nt_store = exactly 3
get_arity nt_str_substr = exactly 3
get_arity nt_str_indexof = exactly 3
get_arity nt_str_update = exactly 3
get_arity nt_str_replace = exactly 3
get_arity nt_str_replace_all = exactly 3
get_arity nt_str_split_at = exactly 3
get_arity nt_str_split_rest = exactly 3
get_arity nt_str_split_at_re = exactly 3
get_arity nt_str_split_rest_re = exactly 3
get_arity nt_str_replace_reg = exactly 3
get_arity nt_str_replace_reg_all = exactly 3
get_arity nt_str_indexof_reg = exactly 3
get_arity nt_reg_loop = exactly 3
get_arity nt_bv_extract = exactly 3
get_arity nt_fp_fma = exactly 4
get_arity nt_le = any
get_arity nt_lt = any
get_arity nt_ge = any
get_arity nt_gt = any
get_arity nt_eq = any
get_arity nt_eq_bool = any
get_arity nt_eq_other = any
get_arity nt_div_int = any
get_arity nt_div_real = any
get_arity nt_str_lt = any
get_arity nt_str_le = any
get_arity nt_str_gt = any
get_arity nt_str_ge = any
get_arity nt_distinct = any
get_arity nt_distinct_bool = any
get_arity nt_distinct_other = any
get_arity nt_and = any
get_arity nt_or = any
get_arity nt_implies = any
get_arity nt_xor = any
get_arity nt_add = any
get_arity nt_mul = any
get_arity nt_iand = any
get_arity nt_sub = any
get_arity nt_bv_and = any
get_arity nt_bv_or = any
get_arity nt_bv_xor = any
get_arity nt_bv_comp = any
get_arity nt_bv_add = any
get_arity nt_bv_mul = any
get_arity nt_bv_saddo = any
get_arity nt_bv_uaddo = any
get_arity nt_bv_smulo = any
get_arity nt_bv_umulo = any
get_arity nt_bv_concat = any
get_arity nt_fp_le = any
get_arity nt_fp_lt = any
get_arity nt_fp_ge = any
get_arity nt_fp_gt = any
get_arity nt_fp_eq = any
get_arity nt_str_concat = any
get_arity nt_reg_concat = any
get_arity nt_reg_union = any
get_arity nt_reg_inter = any
get_arity nt_reg_diff = any
get_arity nt_forall = any
get_arity nt_exists = any
get_arity nt_max = any
get_arity nt_min = any
get_arity nt_fp_to_fp = three_or_four
get_arity _ = any
