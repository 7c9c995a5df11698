-- ===== src/Kind/Names.antt =====
-- `kindToString` (src/parser/kind.cpp).
use Prim.Native.String.{String}
use smtstabilizer.Kind.{
  NodeKind, nt_unknown, nt_error, nt_null, nt_const_true, nt_const_false, nt_const_array,
  nt_placeholder_var, nt_eq, nt_distinct, nt_eq_bool, nt_eq_other, nt_distinct_bool,
  nt_distinct_other, nt_const, nt_var, nt_temp_var, nt_not, nt_and, nt_or, nt_implies, nt_xor,
  nt_uf_apply, nt_dt_fun_apply, nt_add, nt_mul, nt_iand, nt_pow2, nt_pow, nt_sub, nt_neg,
  nt_div_int, nt_div_real, nt_mod, nt_abs, nt_sqrt, nt_safesqrt, nt_ceil, nt_floor, nt_round,
  nt_exp, nt_log, nt_ln, nt_lg, nt_lb, nt_sin, nt_cos, nt_sec, nt_csc, nt_tan, nt_cot, nt_asin,
  nt_acos, nt_asec, nt_acsc, nt_atan, nt_acot, nt_sinh, nt_cosh, nt_tanh, nt_sech, nt_csch, nt_coth,
  nt_asinh, nt_acosh, nt_atanh, nt_asech, nt_acsch, nt_acoth, nt_atan2, nt_le, nt_lt, nt_ge, nt_gt,
  nt_to_int, nt_to_real, nt_is_int, nt_is_divisible, nt_is_prime, nt_is_even, nt_is_odd,
  nt_const_pi, nt_const_e, nt_infinity, nt_pos_infinity, nt_neg_infinity, nt_nan, nt_epsilon,
  nt_pos_epsilon, nt_neg_epsilon, nt_gcd, nt_lcm, nt_fact, nt_bv_not, nt_bv_and, nt_bv_or,
  nt_bv_xor, nt_bv_nand, nt_bv_nor, nt_bv_xnor, nt_bv_comp, nt_bv_neg, nt_bv_add, nt_bv_sub,
  nt_bv_mul, nt_bv_udiv, nt_bv_sdiv, nt_bv_urem, nt_bv_srem, nt_bv_umod, nt_bv_smod, nt_bv_nego,
  nt_bv_saddo, nt_bv_uaddo, nt_bv_smulo, nt_bv_umulo, nt_bv_sdivo, nt_bv_udivo, nt_bv_sremo,
  nt_bv_uremo, nt_bv_smodo, nt_bv_umodo, nt_bv_shl, nt_bv_lshr, nt_bv_ashr, nt_bv_concat,
  nt_bv_extract, nt_bv_repeat, nt_bv_zero_ext, nt_bv_sign_ext, nt_bv_rotate_left,
  nt_bv_rotate_right, nt_bv_ult, nt_bv_ule, nt_bv_ugt, nt_bv_uge, nt_bv_slt, nt_bv_sle, nt_bv_sgt,
  nt_bv_sge, nt_bv_to_nat, nt_nat_to_bv, nt_ubv_to_int, nt_sbv_to_int, nt_int_to_bv, nt_bv_to_int,
  nt_fp_add, nt_fp_sub, nt_fp_mul, nt_fp_div, nt_fp_abs, nt_fp_neg, nt_fp_rem, nt_fp_fma,
  nt_fp_sqrt, nt_fp_round_to_integral, nt_fp_min, nt_fp_max, nt_fp_le, nt_fp_lt, nt_fp_ge, nt_fp_gt,
  nt_fp_eq, nt_fp_to_ubv, nt_fp_to_sbv, nt_fp_to_real, nt_fp_to_fp, nt_fp_to_fp_unsigned,
  nt_fp_is_normal, nt_fp_is_subnormal, nt_fp_is_zero, nt_fp_is_inf, nt_fp_is_nan, nt_fp_is_neg,
  nt_fp_is_pos, nt_select, nt_store, nt_dt_tester, nt_dt_updater, nt_tuple_constructor,
  nt_tuple_unit, nt_tuple_select, nt_tuple_update, nt_tuple_project, nt_str_len, nt_str_concat,
  nt_str_substr, nt_str_prefixof, nt_str_suffixof, nt_str_indexof, nt_str_charat, nt_str_update,
  nt_str_replace, nt_str_replace_all, nt_str_to_lower, nt_str_to_upper, nt_str_rev, nt_str_split,
  nt_str_split_at, nt_str_split_rest, nt_str_num_splits, nt_str_split_at_re, nt_str_split_rest_re,
  nt_str_num_splits_re, nt_str_lt, nt_str_le, nt_str_gt, nt_str_ge, nt_str_in_reg, nt_str_contains,
  nt_str_is_digit, nt_str_from_int, nt_str_to_int, nt_str_to_reg, nt_str_to_code, nt_str_from_code,
  nt_reg_none, nt_reg_all, nt_reg_allchar, nt_reg_concat, nt_reg_union, nt_reg_inter, nt_reg_diff,
  nt_reg_star, nt_reg_plus, nt_reg_opt, nt_reg_range, nt_reg_repeat, nt_reg_loop, nt_reg_complement,
  nt_str_replace_reg, nt_str_replace_reg_all, nt_str_indexof_reg, nt_max, nt_min, nt_let,
  nt_let_chain, nt_let_bind_var, nt_let_bind_var_list, nt_ite, nt_forall, nt_exists, nt_quant_var,
  nt_func_dec, nt_func_def, nt_func_param, nt_func_apply, nt_func_rec, nt_func_rec_apply,
}

-- The last cases, and the default.
unfoldable pub other_to_string : NodeKind → String
other_to_string nt_str_charat = "str.at"
other_to_string nt_str_update = "str.update"
other_to_string nt_str_replace = "str.replace"
other_to_string nt_str_replace_all = "str.replace_all"
other_to_string nt_str_to_lower = "str.to_lower"
other_to_string nt_str_to_upper = "str.to_upper"
other_to_string nt_str_rev = "str.rev"
other_to_string nt_str_split = "str.split"
other_to_string nt_str_split_at = "str.split_at"
other_to_string nt_str_split_rest = "str.split_rest"
other_to_string nt_str_num_splits = "str.num_splits"
other_to_string nt_str_split_at_re = "str.split_at_re"
other_to_string nt_str_split_rest_re = "str.split_rest_re"
other_to_string nt_str_num_splits_re = "str.num_splits_re"
other_to_string nt_str_lt = "str.<"
other_to_string nt_str_le = "str.<="
other_to_string nt_str_gt = "str.>"
other_to_string nt_str_ge = "str.>="
other_to_string nt_str_in_reg = "str.in_re"
other_to_string nt_str_contains = "str.contains"
other_to_string nt_str_is_digit = "str.is_digit"
other_to_string nt_str_from_int = "str.from_int"
other_to_string nt_str_to_int = "str.to_int"
other_to_string nt_str_to_reg = "str.to_re"
other_to_string nt_str_to_code = "str.to_code"
other_to_string nt_str_from_code = "str.from_code"
other_to_string nt_reg_none = "re.none"
other_to_string nt_reg_all = "re.all"
other_to_string nt_reg_allchar = "re.allchar"
other_to_string nt_reg_concat = "re.++"
other_to_string nt_reg_union = "re.union"
other_to_string nt_reg_inter = "re.inter"
other_to_string nt_reg_diff = "re.diff"
other_to_string nt_reg_star = "re.*"
other_to_string nt_reg_plus = "re.+"
other_to_string nt_reg_opt = "re.opt"
other_to_string nt_reg_range = "re.range"
other_to_string nt_reg_repeat = "re.^"
other_to_string nt_reg_loop = "re.loop"
other_to_string nt_reg_complement = "re.comp"
other_to_string nt_str_replace_reg = "str.replace_re"
other_to_string nt_str_replace_reg_all = "str.replace_re_all"
other_to_string nt_str_indexof_reg = "str.indexof"
other_to_string nt_max = "max"
other_to_string nt_min = "min"
other_to_string nt_let = "let"
other_to_string nt_let_chain = "let_chain"
other_to_string nt_let_bind_var = "let_bind_var"
other_to_string nt_let_bind_var_list = "let_bind_var_list"
other_to_string nt_ite = "ite"
other_to_string nt_forall = "forall"
other_to_string nt_exists = "exists"
other_to_string nt_quant_var = "quant_var"
other_to_string nt_func_dec = "func_dec"
other_to_string nt_func_def = "func_def"
other_to_string nt_func_param = "func_param"
other_to_string nt_func_apply = "func_apply"
other_to_string nt_func_rec = "func_rec"
other_to_string nt_func_rec_apply = "func_rec_apply"
other_to_string _ = "UNKNOWN_KIND"

-- The next cases.
unfoldable pub theory_to_string : NodeKind → String
unfolding other_to_string
theory_to_string nt_bv_zero_ext = "zero_extend"
theory_to_string nt_bv_sign_ext = "sign_extend"
theory_to_string nt_bv_rotate_left = "rotate_left"
theory_to_string nt_bv_rotate_right = "rotate_right"
theory_to_string nt_bv_ult = "bvult"
theory_to_string nt_bv_ule = "bvule"
theory_to_string nt_bv_ugt = "bvugt"
theory_to_string nt_bv_uge = "bvuge"
theory_to_string nt_bv_slt = "bvslt"
theory_to_string nt_bv_sle = "bvsle"
theory_to_string nt_bv_sgt = "bvsgt"
theory_to_string nt_bv_sge = "bvsge"
theory_to_string nt_bv_to_nat = "bv2nat"
theory_to_string nt_nat_to_bv = "nat2bv"
theory_to_string nt_ubv_to_int = "ubv_to_int"
theory_to_string nt_sbv_to_int = "sbv_to_int"
theory_to_string nt_int_to_bv = "int2bv"
theory_to_string nt_bv_to_int = "bv2nat"
theory_to_string nt_fp_add = "fp.add"
theory_to_string nt_fp_sub = "fp.sub"
theory_to_string nt_fp_mul = "fp.mul"
theory_to_string nt_fp_div = "fp.div"
theory_to_string nt_fp_abs = "fp.abs"
theory_to_string nt_fp_neg = "fp.neg"
theory_to_string nt_fp_rem = "fp.rem"
theory_to_string nt_fp_fma = "fp.fma"
theory_to_string nt_fp_sqrt = "fp.sqrt"
theory_to_string nt_fp_round_to_integral = "fp.roundToIntegral"
theory_to_string nt_fp_min = "fp.min"
theory_to_string nt_fp_max = "fp.max"
theory_to_string nt_fp_le = "fp.leq"
theory_to_string nt_fp_lt = "fp.lt"
theory_to_string nt_fp_ge = "fp.geq"
theory_to_string nt_fp_gt = "fp.gt"
theory_to_string nt_fp_eq = "fp.eq"
theory_to_string nt_fp_to_ubv = "fp.to_ubv"
theory_to_string nt_fp_to_sbv = "fp.to_sbv"
theory_to_string nt_fp_to_real = "fp.to_real"
theory_to_string nt_fp_to_fp = "to_fp"
theory_to_string nt_fp_to_fp_unsigned = "to_fp_unsigned"
theory_to_string nt_fp_is_normal = "fp.isNormal"
theory_to_string nt_fp_is_subnormal = "fp.isSubnormal"
theory_to_string nt_fp_is_zero = "fp.isZero"
theory_to_string nt_fp_is_inf = "fp.isInfinite"
theory_to_string nt_fp_is_nan = "fp.isNaN"
theory_to_string nt_fp_is_neg = "fp.isNegative"
theory_to_string nt_fp_is_pos = "fp.isPositive"
theory_to_string nt_select = "select"
theory_to_string nt_store = "store"
theory_to_string nt_dt_tester = "is"
theory_to_string nt_dt_updater = "update"
theory_to_string nt_tuple_constructor = "tuple"
theory_to_string nt_tuple_unit = "tuple.unit"
theory_to_string nt_tuple_select = "tuple.select"
theory_to_string nt_tuple_update = "tuple.update"
theory_to_string nt_tuple_project = "tuple.project"
theory_to_string nt_str_len = "str.len"
theory_to_string nt_str_concat = "str.++"
theory_to_string nt_str_substr = "str.substr"
theory_to_string nt_str_prefixof = "str.prefixof"
theory_to_string nt_str_suffixof = "str.suffixof"
theory_to_string nt_str_indexof = "str.indexof"
theory_to_string k = other_to_string k

-- The next cases.
unfoldable pub function_to_string : NodeKind → String
unfolding theory_to_string
function_to_string nt_acoth = "acoth"
function_to_string nt_atan2 = "atan2"
function_to_string nt_le = "<="
function_to_string nt_lt = "<"
function_to_string nt_ge = ">="
function_to_string nt_gt = ">"
function_to_string nt_to_int = "to_int"
function_to_string nt_to_real = "to_real"
function_to_string nt_is_int = "is_int"
function_to_string nt_is_divisible = "is_divisible"
function_to_string nt_is_prime = "is_prime"
function_to_string nt_is_even = "is_even"
function_to_string nt_is_odd = "is_odd"
function_to_string nt_const_pi = "pi"
function_to_string nt_const_e = "e"
function_to_string nt_infinity = "inf"
function_to_string nt_pos_infinity = "+inf"
function_to_string nt_neg_infinity = "-inf"
function_to_string nt_nan = "NaN"
function_to_string nt_epsilon = "epsilon"
function_to_string nt_pos_epsilon = "+epsilon"
function_to_string nt_neg_epsilon = "-epsilon"
function_to_string nt_gcd = "gcd"
function_to_string nt_lcm = "lcm"
function_to_string nt_fact = "factorial"
function_to_string nt_bv_not = "bvnot"
function_to_string nt_bv_and = "bvand"
function_to_string nt_bv_or = "bvor"
function_to_string nt_bv_xor = "bvxor"
function_to_string nt_bv_nand = "bvnand"
function_to_string nt_bv_nor = "bvnor"
function_to_string nt_bv_xnor = "bvxnor"
function_to_string nt_bv_comp = "bvcomp"
function_to_string nt_bv_neg = "bvneg"
function_to_string nt_bv_add = "bvadd"
function_to_string nt_bv_sub = "bvsub"
function_to_string nt_bv_mul = "bvmul"
function_to_string nt_bv_udiv = "bvudiv"
function_to_string nt_bv_sdiv = "bvsdiv"
function_to_string nt_bv_urem = "bvurem"
function_to_string nt_bv_srem = "bvsrem"
function_to_string nt_bv_umod = "bvumod"
function_to_string nt_bv_smod = "bvsmod"
function_to_string nt_bv_nego = "bvnego"
function_to_string nt_bv_saddo = "bvsaddo"
function_to_string nt_bv_uaddo = "bvuaddo"
function_to_string nt_bv_smulo = "bvsmulo"
function_to_string nt_bv_umulo = "bvumulo"
function_to_string nt_bv_sdivo = "bvsdivo"
function_to_string nt_bv_udivo = "bvudivo"
function_to_string nt_bv_sremo = "bvsremo"
function_to_string nt_bv_uremo = "bvuremo"
function_to_string nt_bv_smodo = "bvsmodo"
function_to_string nt_bv_umodo = "bvumodo"
function_to_string nt_bv_shl = "bvshl"
function_to_string nt_bv_lshr = "bvlshr"
function_to_string nt_bv_ashr = "bvashr"
function_to_string nt_bv_concat = "concat"
function_to_string nt_bv_extract = "extract"
function_to_string nt_bv_repeat = "repeat"
function_to_string k = theory_to_string k

-- The switch; the later cases stand in three functions of their own.
unfoldable pub kind_to_string : NodeKind → String
unfolding function_to_string
kind_to_string nt_unknown = "UNKNOWN_KIND"
kind_to_string nt_error = "ERROR"
kind_to_string nt_null = "NULL"
kind_to_string nt_const_true = "true"
kind_to_string nt_const_false = "false"
kind_to_string nt_const_array = "const_array"
kind_to_string nt_placeholder_var = "placeholder_var"
kind_to_string nt_eq = "="
kind_to_string nt_distinct = "distinct"
kind_to_string nt_eq_bool = "="
kind_to_string nt_eq_other = "="
kind_to_string nt_distinct_bool = "distinct"
kind_to_string nt_distinct_other = "distinct"
kind_to_string nt_const = "CONST"
kind_to_string nt_var = "VAR"
kind_to_string nt_temp_var = "TEMP_VAR"
kind_to_string nt_not = "not"
kind_to_string nt_and = "and"
kind_to_string nt_or = "or"
kind_to_string nt_implies = "=>"
kind_to_string nt_xor = "xor"
kind_to_string nt_uf_apply = "UF_APPLY"
kind_to_string nt_dt_fun_apply = "DT_FUN_APPLY"
kind_to_string nt_add = "+"
kind_to_string nt_mul = "*"
kind_to_string nt_iand = "iand"
kind_to_string nt_pow2 = "pow2"
kind_to_string nt_pow = "^"
kind_to_string nt_sub = "-"
kind_to_string nt_neg = "-"
kind_to_string nt_div_int = "div"
kind_to_string nt_div_real = "/"
kind_to_string nt_mod = "mod"
kind_to_string nt_abs = "abs"
kind_to_string nt_sqrt = "sqrt"
kind_to_string nt_safesqrt = "safesqrt"
kind_to_string nt_ceil = "ceil"
kind_to_string nt_floor = "floor"
kind_to_string nt_round = "round"
kind_to_string nt_exp = "exp"
kind_to_string nt_log = "log"
kind_to_string nt_ln = "ln"
kind_to_string nt_lg = "lg"
kind_to_string nt_lb = "lb"
kind_to_string nt_sin = "sin"
kind_to_string nt_cos = "cos"
kind_to_string nt_sec = "sec"
kind_to_string nt_csc = "csc"
kind_to_string nt_tan = "tan"
kind_to_string nt_cot = "cot"
kind_to_string nt_asin = "asin"
kind_to_string nt_acos = "acos"
kind_to_string nt_asec = "asec"
kind_to_string nt_acsc = "acsc"
kind_to_string nt_atan = "atan"
kind_to_string nt_acot = "acot"
kind_to_string nt_sinh = "sinh"
kind_to_string nt_cosh = "cosh"
kind_to_string nt_tanh = "tanh"
kind_to_string nt_sech = "sech"
kind_to_string nt_csch = "csch"
kind_to_string nt_coth = "coth"
kind_to_string nt_asinh = "asinh"
kind_to_string nt_acosh = "acosh"
kind_to_string nt_atanh = "atanh"
kind_to_string nt_asech = "asech"
kind_to_string nt_acsch = "acsch"
kind_to_string k = function_to_string k
