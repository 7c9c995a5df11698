-- ===== src/Node.antt =====
-- What the kernel reads of a `DAGNode` (src/parser/dag.h), and the node manager that it works on
-- (src/node/node_manager.h). A `shared_ptr<DAGNode>` is a number, and `node` is the heap.
use Prim.Native.String.{String}
use smtstabilizer.Common.{ℕ, Bool, true, false, not, ◌&&◌, ◌||◌, if◌then◌else◌, List, length}
use smtstabilizer.Hash.{hash_combine}
use smtstabilizer.Kind.{
  NodeKind, kind_code, nt_const, nt_const_true, nt_const_false, nt_const_pi, nt_const_e,
  nt_infinity, nt_pos_infinity, nt_neg_infinity, nt_nan, nt_epsilon, nt_pos_epsilon, nt_neg_epsilon,
  nt_var, nt_temp_var, nt_quant_var, nt_let_bind_var, nt_placeholder_var, nt_const_array, nt_add,
  nt_mul, nt_and, nt_iand, nt_or, nt_xor, nt_bv_add, nt_bv_mul, nt_bv_and, nt_bv_or, nt_bv_xor,
  nt_eq, nt_distinct, nt_max, nt_min, nt_bv_nand, nt_bv_nor, nt_bv_comp, nt_bv_saddo, nt_bv_uaddo,
  nt_bv_umulo, nt_bv_xnor, nt_fp_eq, nt_fp_min, nt_fp_max, nt_forall, nt_exists, nt_fp_add,
  nt_fp_mul, nt_uf_name, nt_uf_apply, nt_func_def,
}
use smtstabilizer.Sort.{
  Sort, StdHash, sort_kind, is_dec_kind, is_def_kind, is_array_kind, is_value_kind,
  hash_without_name,
}

pub record Node : Type 0 where
  pub kind : NodeKind
  pub sort : Sort
  pub name : String
  pub children : List ℕ

pub record NodeManager : Type 0 where
  pub node : ℕ → Node
  pub assertions : List ℕ
  -- `mkUFVNode`: nodes are hash-consed, so a name and a sort determine the pointer.
  pub mk_ufv_node : String → Sort → ℕ

-- `isConst`
abbrev pub is_const : NodeKind → Bool
is_const nt_const = true
is_const nt_const_true = true
is_const nt_const_false = true
is_const nt_const_pi = true
is_const nt_const_e = true
is_const nt_infinity = true
is_const nt_pos_infinity = true
is_const nt_neg_infinity = true
is_const nt_nan = true
is_const nt_epsilon = true
is_const nt_pos_epsilon = true
is_const nt_neg_epsilon = true
is_const _ = false

-- The kinds that every `isV…` test of a sort accepts.
abbrev pub is_variable_kind : NodeKind → Bool
is_variable_kind nt_var = true
is_variable_kind nt_temp_var = true
is_variable_kind nt_quant_var = true
is_variable_kind nt_let_bind_var = true
is_variable_kind nt_placeholder_var = true
is_variable_kind _ = false

-- `isTempVar() || isQuantVar() || isLetBindVar() || isPlaceholderVar()`
abbrev pub is_bound_kind : NodeKind → Bool
is_bound_kind nt_temp_var = true
is_bound_kind nt_quant_var = true
is_bound_kind nt_let_bind_var = true
is_bound_kind nt_placeholder_var = true
is_bound_kind _ = false

-- The kinds of `isArray`.
abbrev pub is_array_node_kind : NodeKind → Bool
is_array_node_kind nt_var = true
is_array_node_kind nt_placeholder_var = true
is_array_node_kind nt_const_array = true
is_array_node_kind _ = false

abbrev pub is_const_array : NodeKind → Bool
is_const_array nt_const_array = true
is_const_array _ = false

abbrev pub is_plain_var : NodeKind → Bool
is_plain_var nt_var = true
is_plain_var _ = false

abbrev pub is_uf_name : NodeKind → Bool
is_uf_name nt_uf_name = true
is_uf_name _ = false

abbrev pub is_uf_application : NodeKind → Bool
is_uf_application nt_uf_apply = true
is_uf_application _ = false

abbrev pub is_func_def : NodeKind → Bool
is_func_def nt_func_def = true
is_func_def _ = false

-- `isVar`
abbrev pub is_var : Node → Bool
is_var n = is_variable_kind n.kind && is_value_kind (sort_kind n.sort) || is_bound_kind n.kind

-- `isArray`
abbrev pub is_array : Node → Bool
is_array n = is_array_node_kind n.kind && is_array_kind (sort_kind n.sort)

-- `isVUF`
abbrev pub is_vuf : Node → Bool
is_vuf n = is_plain_var n.kind && (is_dec_kind (sort_kind n.sort) || is_def_kind (sort_kind n.sort))

-- What the constructor of the kernel counts as a symbol.
unfoldable pub is_symbol : Node → Bool
is_symbol n = is_var n || is_array n && not (is_const_array n.kind) || is_vuf n || is_uf_name n.kind

-- `hash_node` (src/util/node_helper.cpp)
unfoldable pub hash_node : StdHash → Node → ℕ
hash_node std n =
    hash_combine
      (hash_combine
        (hash_combine (hash_combine 0 (hash_without_name std n.sort)) (kind_code n.kind))
        (length n.children))
      (if is_const n.kind then std.hash_string n.name else 0)

-- The switch of `Kernel::is_commutative`.
abbrev pub is_commutative_kind : NodeKind → Bool
is_commutative_kind nt_add = true
is_commutative_kind nt_mul = true
is_commutative_kind nt_and = true
is_commutative_kind nt_iand = true
is_commutative_kind nt_or = true
is_commutative_kind nt_xor = true
is_commutative_kind nt_bv_add = true
is_commutative_kind nt_bv_mul = true
is_commutative_kind nt_bv_and = true
is_commutative_kind nt_bv_or = true
is_commutative_kind nt_bv_xor = true
is_commutative_kind nt_eq = true
is_commutative_kind nt_distinct = true
is_commutative_kind nt_max = true
is_commutative_kind nt_min = true
is_commutative_kind nt_bv_nand = true
is_commutative_kind nt_bv_nor = true
is_commutative_kind nt_bv_comp = true
is_commutative_kind nt_bv_saddo = true
is_commutative_kind nt_bv_uaddo = true
is_commutative_kind nt_bv_umulo = true
is_commutative_kind nt_bv_xnor = true
is_commutative_kind nt_fp_eq = true
is_commutative_kind nt_fp_min = true
is_commutative_kind nt_fp_max = true
is_commutative_kind nt_forall = true
is_commutative_kind nt_exists = true
is_commutative_kind nt_fp_add = true
is_commutative_kind nt_fp_mul = true
is_commutative_kind _ = false

-- The kinds whose first operand stays in place.
abbrev pub keeps_first : NodeKind → Bool
keeps_first nt_fp_add = true
keeps_first nt_fp_mul = true
keeps_first nt_exists = true
keeps_first nt_forall = true
keeps_first _ = false
