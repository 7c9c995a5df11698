-- ===== src/Kind.antt =====
-- `enum class NODE_KIND` (src/parser/kind.h) with its numbering.
pub mod Names
pub mod Relations
pub mod Operators
pub mod Negation
pub mod Printing
use smtstabilizer.Common.{ℕ}

pub data NodeKind : Type 0 where
  nt_unknown nt_error nt_null nt_uf_name nt_pattern nt_no_pattern : NodeKind
  nt_weight nt_attribute nt_const nt_var nt_const_true nt_const_false : NodeKind
  nt_temp_var nt_const_array nt_placeholder_var nt_and nt_or nt_not : NodeKind
  nt_implies nt_xor nt_eq nt_distinct nt_ite nt_add : NodeKind
  nt_neg nt_sub nt_mul nt_dt_fun_apply nt_iand nt_pow2 : NodeKind
  nt_pow nt_div_int nt_div_real nt_mod nt_abs nt_sqrt : NodeKind
  nt_safesqrt nt_ceil nt_floor nt_round nt_exp nt_ln : NodeKind
  nt_lg nt_lb nt_log nt_sin nt_cos nt_tan : NodeKind
  nt_cot nt_sec nt_csc nt_asin nt_acos nt_atan : NodeKind
  nt_acot nt_asec nt_acsc nt_sinh nt_cosh nt_tanh : NodeKind
  nt_asech nt_acsch nt_acoth nt_atan2 nt_asinh nt_acosh : NodeKind
  nt_atanh nt_sech nt_csch nt_coth nt_le nt_lt : NodeKind
  nt_ge nt_gt nt_to_int nt_to_real nt_is_int nt_is_divisible : NodeKind
  nt_is_prime nt_is_even nt_is_odd nt_gcd nt_lcm nt_fact : NodeKind
  nt_bv_not nt_bv_neg nt_bv_and nt_bv_or nt_bv_xor nt_bv_nand : NodeKind
  nt_bv_nor nt_bv_xnor nt_bv_comp nt_bv_add nt_bv_sub nt_bv_mul : NodeKind
  nt_bv_udiv nt_bv_sdiv nt_bv_urem nt_bv_srem nt_bv_umod nt_bv_smod : NodeKind
  nt_bv_shl nt_bv_lshr nt_bv_ashr nt_bv_ult nt_bv_ule nt_bv_ugt : NodeKind
  nt_bv_uge nt_bv_slt nt_bv_sle nt_bv_sgt nt_bv_sge nt_bv_concat : NodeKind
  nt_bv_to_nat nt_nat_to_bv nt_bv_to_int nt_int_to_bv nt_ubv_to_int nt_sbv_to_int : NodeKind
  nt_bv_extract nt_bv_repeat nt_bv_zero_ext nt_bv_sign_ext nt_bv_rotate_left nt_bv_rotate_right :
      NodeKind
  nt_fp_add nt_fp_sub nt_fp_mul nt_fp_div nt_fp_abs nt_fp_neg : NodeKind
  nt_fp_rem nt_fp_fma nt_fp_sqrt nt_fp_round_to_integral nt_fp_min nt_fp_max : NodeKind
  nt_fp_le nt_fp_lt nt_fp_ge nt_fp_gt nt_fp_eq nt_fp_to_ubv : NodeKind
  nt_fp_to_sbv nt_fp_to_real nt_fp_to_fp nt_fp_to_fp_unsigned nt_fp_is_normal nt_fp_is_subnormal :
      NodeKind
  nt_fp_is_zero nt_fp_is_inf nt_fp_is_nan nt_fp_is_neg nt_fp_is_pos nt_select : NodeKind
  nt_store nt_dt_tester nt_dt_updater nt_tuple_constructor nt_tuple_unit nt_tuple_select : NodeKind
  nt_tuple_update nt_tuple_project nt_str_len nt_str_concat nt_str_substr nt_str_indexof : NodeKind
  nt_str_charat nt_str_update nt_str_replace nt_str_replace_all nt_str_replace_reg
        nt_str_replace_reg_all :
      NodeKind
  nt_str_indexof_reg nt_str_to_lower nt_str_to_upper nt_str_rev nt_str_split nt_str_split_at :
      NodeKind
  nt_str_split_rest nt_str_num_splits nt_str_split_at_re nt_str_split_rest_re nt_str_num_splits_re
        nt_str_lt :
      NodeKind
  nt_str_le nt_str_gt nt_str_ge nt_str_in_reg nt_str_contains nt_str_is_digit : NodeKind
  nt_str_prefixof nt_str_suffixof nt_str_from_int nt_str_to_int nt_str_to_reg nt_str_to_code :
      NodeKind
  nt_str_from_code nt_reg_concat nt_reg_union nt_reg_inter nt_reg_diff nt_reg_star : NodeKind
  nt_reg_plus nt_reg_opt nt_reg_range nt_reg_repeat nt_reg_complement nt_reg_loop : NodeKind
  nt_func_apply nt_func_dec nt_func_def nt_func_rec nt_func_rec_apply nt_bv_nego : NodeKind
  nt_bv_uaddo nt_bv_saddo nt_bv_umulo nt_bv_smulo nt_bv_udivo nt_bv_sdivo : NodeKind
  nt_bv_uremo nt_bv_sremo nt_bv_umodo nt_bv_smodo nt_eq_bool nt_eq_other : NodeKind
  nt_distinct_bool nt_distinct_other nt_uf_apply nt_const_pi nt_const_e nt_infinity : NodeKind
  nt_nan nt_epsilon nt_pos_infinity nt_neg_infinity nt_pos_epsilon nt_neg_epsilon : NodeKind
  nt_reg_none nt_reg_all nt_reg_allchar nt_max nt_min nt_let : NodeKind
  nt_let_chain nt_let_bind_var nt_let_bind_var_list nt_forall nt_exists nt_quant_var : NodeKind
  nt_func_param nt_root_obj nt_root_of_with_interval : NodeKind

-- `static_cast<size_t>(kind)`
unfoldable pub kind_code : NodeKind → ℕ
kind_code nt_unknown = 0
kind_code nt_error = 1
kind_code nt_null = 2
kind_code nt_uf_name = 3
kind_code nt_pattern = 4
kind_code nt_no_pattern = 5
kind_code nt_weight = 6
kind_code nt_attribute = 7
kind_code nt_const = 8
kind_code nt_var = 9
kind_code nt_const_true = 10
kind_code nt_const_false = 11
kind_code nt_temp_var = 12
kind_code nt_const_array = 13
kind_code nt_placeholder_var = 14
kind_code nt_and = 15
kind_code nt_or = 16
kind_code nt_not = 17
kind_code nt_implies = 18
kind_code nt_xor = 19
kind_code nt_eq = 20
kind_code nt_distinct = 21
kind_code nt_ite = 22
kind_code nt_add = 23
kind_code nt_neg = 24
kind_code nt_sub = 25
kind_code nt_mul = 26
kind_code nt_dt_fun_apply = 27
kind_code nt_iand = 28
kind_code nt_pow2 = 29
kind_code nt_pow = 30
kind_code nt_div_int = 31
kind_code nt_div_real = 32
kind_code nt_mod = 33
kind_code nt_abs = 34
kind_code nt_sqrt = 35
kind_code nt_safesqrt = 36
kind_code nt_ceil = 37
kind_code nt_floor = 38
kind_code nt_round = 39
kind_code nt_exp = 40
kind_code nt_ln = 41
kind_code nt_lg = 42
kind_code nt_lb = 43
kind_code nt_log = 44
kind_code nt_sin = 45
kind_code nt_cos = 46
kind_code nt_tan = 47
kind_code nt_cot = 48
kind_code nt_sec = 49
kind_code nt_csc = 50
kind_code nt_asin = 51
kind_code nt_acos = 52
kind_code nt_atan = 53
kind_code nt_acot = 54
kind_code nt_asec = 55
kind_code nt_acsc = 56
kind_code nt_sinh = 57
kind_code nt_cosh = 58
kind_code nt_tanh = 59
kind_code nt_asech = 60
kind_code nt_acsch = 61
kind_code nt_acoth = 62
kind_code nt_atan2 = 63
kind_code nt_asinh = 64
kind_code nt_acosh = 65
kind_code nt_atanh = 66
kind_code nt_sech = 67
kind_code nt_csch = 68
kind_code nt_coth = 69
kind_code nt_le = 70
kind_code nt_lt = 71
kind_code nt_ge = 72
kind_code nt_gt = 73
kind_code nt_to_int = 74
kind_code nt_to_real = 75
kind_code nt_is_int = 76
kind_code nt_is_divisible = 77
kind_code nt_is_prime = 78
kind_code nt_is_even = 79
kind_code nt_is_odd = 80
kind_code nt_gcd = 81
kind_code nt_lcm = 82
kind_code nt_fact = 83
kind_code nt_bv_not = 84
kind_code nt_bv_neg = 85
kind_code nt_bv_and = 86
kind_code nt_bv_or = 87
kind_code nt_bv_xor = 88
kind_code nt_bv_nand = 89
kind_code nt_bv_nor = 90
kind_code nt_bv_xnor = 91
kind_code nt_bv_comp = 92
kind_code nt_bv_add = 93
kind_code nt_bv_sub = 94
kind_code nt_bv_mul = 95
kind_code nt_bv_udiv = 96
kind_code nt_bv_sdiv = 97
kind_code nt_bv_urem = 98
kind_code nt_bv_srem = 99
kind_code nt_bv_umod = 100
kind_code nt_bv_smod = 101
kind_code nt_bv_shl = 102
kind_code nt_bv_lshr = 103
kind_code nt_bv_ashr = 104
kind_code nt_bv_ult = 105
kind_code nt_bv_ule = 106
kind_code nt_bv_ugt = 107
kind_code nt_bv_uge = 108
kind_code nt_bv_slt = 109
kind_code nt_bv_sle = 110
kind_code nt_bv_sgt = 111
kind_code nt_bv_sge = 112
kind_code nt_bv_concat = 113
kind_code nt_bv_to_nat = 114
kind_code nt_nat_to_bv = 115
kind_code nt_bv_to_int = 116
kind_code nt_int_to_bv = 117
kind_code nt_ubv_to_int = 118
kind_code nt_sbv_to_int = 119
kind_code nt_bv_extract = 120
kind_code nt_bv_repeat = 121
kind_code nt_bv_zero_ext = 122
kind_code nt_bv_sign_ext = 123
kind_code nt_bv_rotate_left = 124
kind_code nt_bv_rotate_right = 125
kind_code nt_fp_add = 126
kind_code nt_fp_sub = 127
kind_code nt_fp_mul = 128
kind_code nt_fp_div = 129
kind_code nt_fp_abs = 130
kind_code nt_fp_neg = 131
kind_code nt_fp_rem = 132
kind_code nt_fp_fma = 133
kind_code nt_fp_sqrt = 134
kind_code nt_fp_round_to_integral = 135
kind_code nt_fp_min = 136
kind_code nt_fp_max = 137
kind_code nt_fp_le = 138
kind_code nt_fp_lt = 139
kind_code nt_fp_ge = 140
kind_code nt_fp_gt = 141
kind_code nt_fp_eq = 142
kind_code nt_fp_to_ubv = 143
kind_code nt_fp_to_sbv = 144
kind_code nt_fp_to_real = 145
kind_code nt_fp_to_fp = 146
kind_code nt_fp_to_fp_unsigned = 147
kind_code nt_fp_is_normal = 148
kind_code nt_fp_is_subnormal = 149
kind_code nt_fp_is_zero = 150
kind_code nt_fp_is_inf = 151
kind_code nt_fp_is_nan = 152
kind_code nt_fp_is_neg = 153
kind_code nt_fp_is_pos = 154
kind_code nt_select = 155
kind_code nt_store = 156
kind_code nt_dt_tester = 157
kind_code nt_dt_updater = 158
kind_code nt_tuple_constructor = 159
kind_code nt_tuple_unit = 160
kind_code nt_tuple_select = 161
kind_code nt_tuple_update = 162
kind_code nt_tuple_project = 163
kind_code nt_str_len = 164
kind_code nt_str_concat = 165
kind_code nt_str_substr = 166
kind_code nt_str_indexof = 167
kind_code nt_str_charat = 168
kind_code nt_str_update = 169
kind_code nt_str_replace = 170
kind_code nt_str_replace_all = 171
kind_code nt_str_replace_reg = 172
kind_code nt_str_replace_reg_all = 173
kind_code nt_str_indexof_reg = 174
kind_code nt_str_to_lower = 175
kind_code nt_str_to_upper = 176
kind_code nt_str_rev = 177
kind_code nt_str_split = 178
kind_code nt_str_split_at = 179
kind_code nt_str_split_rest = 180
kind_code nt_str_num_splits = 181
kind_code nt_str_split_at_re = 182
kind_code nt_str_split_rest_re = 183
kind_code nt_str_num_splits_re = 184
kind_code nt_str_lt = 185
kind_code nt_str_le = 186
kind_code nt_str_gt = 187
kind_code nt_str_ge = 188
kind_code nt_str_in_reg = 189
kind_code nt_str_contains = 190
kind_code nt_str_is_digit = 191
kind_code nt_str_prefixof = 192
kind_code nt_str_suffixof = 193
kind_code nt_str_from_int = 194
kind_code nt_str_to_int = 195
kind_code nt_str_to_reg = 196
kind_code nt_str_to_code = 197
kind_code nt_str_from_code = 198
kind_code nt_reg_concat = 199
kind_code nt_reg_union = 200
kind_code nt_reg_inter = 201
kind_code nt_reg_diff = 202
kind_code nt_reg_star = 203
kind_code nt_reg_plus = 204
kind_code nt_reg_opt = 205
kind_code nt_reg_range = 206
kind_code nt_reg_repeat = 207
kind_code nt_reg_complement = 208
kind_code nt_reg_loop = 209
kind_code nt_func_apply = 210
kind_code nt_func_dec = 211
kind_code nt_func_def = 212
kind_code nt_func_rec = 213
kind_code nt_func_rec_apply = 214
kind_code nt_bv_nego = 215
kind_code nt_bv_uaddo = 216
kind_code nt_bv_saddo = 217
kind_code nt_bv_umulo = 218
kind_code nt_bv_smulo = 219
kind_code nt_bv_udivo = 220
kind_code nt_bv_sdivo = 221
kind_code nt_bv_uremo = 222
kind_code nt_bv_sremo = 223
kind_code nt_bv_umodo = 224
kind_code nt_bv_smodo = 225
kind_code nt_eq_bool = 226
kind_code nt_eq_other = 227
kind_code nt_distinct_bool = 228
kind_code nt_distinct_other = 229
kind_code nt_uf_apply = 230
kind_code nt_const_pi = 231
kind_code nt_const_e = 232
kind_code nt_infinity = 233
kind_code nt_nan = 234
kind_code nt_epsilon = 235
kind_code nt_pos_infinity = 236
kind_code nt_neg_infinity = 237
kind_code nt_pos_epsilon = 238
kind_code nt_neg_epsilon = 239
kind_code nt_reg_none = 240
kind_code nt_reg_all = 241
kind_code nt_reg_allchar = 242
kind_code nt_max = 243
kind_code nt_min = 244
kind_code nt_let = 245
kind_code nt_let_chain = 246
kind_code nt_let_bind_var = 247
kind_code nt_let_bind_var_list = 248
kind_code nt_forall = 249
kind_code nt_exists = 250
kind_code nt_quant_var = 251
kind_code nt_func_param = 252
kind_code nt_root_obj = 253
kind_code nt_root_of_with_interval = 254
