-- ===== src/Sort/Printing.antt =====
-- `Sort::toString` (src/parser/sort.h). `to_string` is `std::to_string`; the result is none where a
-- child is read that is not there.
use Prim.Native.String.{String, ◌++◌}
use smtstabilizer.Common.{ℕ, zero, suc, Option, none, some}
use smtstabilizer.Sort.{
  Sort, Sorts, mk_sort, nil, cons, null_cons, sk_bool, sk_int, sk_real, sk_bv, sk_fp, sk_str,
  sk_array, sk_datatype, sk_set, sk_relation, sk_bag, sk_seq, sk_tuple, sk_uf, sk_reg, sk_ext,
  sk_nat, sk_rand, sk_intoreal, sk_algebraic, sk_transcendental, sk_dec, sk_def, sk_rounding_mode,
}
use smtstabilizer.Sort.Equality.{child_arity}

-- The text of an array sort from those of its children.
abbrev pub array_text : Option String → Option String → Option String
array_text (some index) (some elem_sort) = some ("(Array " ++ index ++ " " ++ elem_sort ++ ")")
array_text none y = none
array_text (some index) none = none

abbrev pub bv_text : Option String → Option String
bv_text none = none
bv_text (some width) = some ("(_ BitVec " ++ width ++ ")")

abbrev pub fp_text : Option String → Option String → Option String
fp_text (some e) (some s) = some ("(_ FloatingPoint " ++ e ++ " " ++ s ++ ")")
fp_text none y = none
fp_text (some e) none = none

-- A space and a text, before the rest.
abbrev pub field_text : Option String → Option String → Option String
field_text (some field) (some rest) = some (" " ++ field ++ rest)
field_text none y = none
field_text (some field) none = none

abbrev pub tuple_text : Option String → Option String
tuple_text none = none
tuple_text (some fields) = some ("(Tuple" ++ fields ++ ")")

module _ (to_string : ℕ → String) where
  abbrev pub number_text : Option ℕ → Option String
  number_text none = none
  number_text (some n) = some (to_string n)

  unfoldable mutual
    pub sort_to_string : Sort → Option String
    sort_to_string (mk_sort sk_bool n a cs) = some "Bool"
    sort_to_string (mk_sort sk_int n a cs) = some "Int"
    sort_to_string (mk_sort sk_real n a cs) = some "Real"
    sort_to_string (mk_sort sk_bv n a cs) = bv_text (number_text (child_arity cs 0))
    sort_to_string (mk_sort sk_fp n a cs) =
        fp_text (number_text (child_arity cs 0)) (number_text (child_arity cs 1))
    sort_to_string (mk_sort sk_str n a cs) = some "String"
    sort_to_string (mk_sort sk_array n a cs) = array_text (child_text cs 0) (child_text cs 1)
    sort_to_string (mk_sort sk_datatype n a cs) = some "Datatype"
    sort_to_string (mk_sort sk_set n a cs) = some "Set"
    sort_to_string (mk_sort sk_relation n a cs) = some "Relation"
    sort_to_string (mk_sort sk_bag n a cs) = some "Bag"
    sort_to_string (mk_sort sk_seq n a cs) = some "Sequence"
    sort_to_string (mk_sort sk_tuple n a nil) = some "UnitTuple"
    sort_to_string (mk_sort sk_tuple n a (cons c cs)) =
        tuple_text (field_text (sort_to_string c) (fields_text cs))
    sort_to_string (mk_sort sk_tuple n a (null_cons cs)) = none
    sort_to_string (mk_sort sk_uf n a cs) = some "UF"
    sort_to_string (mk_sort sk_reg n a cs) = some "RegLan"
    sort_to_string (mk_sort sk_ext n a cs) = some "ExtReal"
    sort_to_string (mk_sort sk_nat n a cs) = some "Natural"
    sort_to_string (mk_sort sk_rand n a cs) = some "Random"
    sort_to_string (mk_sort sk_intoreal n a cs) = some "IntOrReal"
    sort_to_string (mk_sort sk_algebraic n a cs) = some "Algebraic"
    sort_to_string (mk_sort sk_transcendental n a cs) = some "Transcendental"
    sort_to_string (mk_sort sk_dec n a cs) = some n
    sort_to_string (mk_sort sk_def n a cs) = some n
    sort_to_string (mk_sort sk_rounding_mode n a cs) = some "RoundingMode"
    sort_to_string (mk_sort _ n a cs) = some "Unknown"

    -- `children[i]->toString()`
    pub child_text : Sorts → ℕ → Option String
    child_text nil i = none
    child_text (cons c cs) zero = sort_to_string c
    child_text (cons c cs) (suc i) = child_text cs i
    child_text (null_cons cs) zero = none
    child_text (null_cons cs) (suc i) = child_text cs i

    -- The loop over the fields of a tuple.
    pub fields_text : Sorts → Option String
    fields_text nil = some ""
    fields_text (cons c cs) = field_text (sort_to_string c) (fields_text cs)
    fields_text (null_cons cs) = none
