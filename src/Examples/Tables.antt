-- ===== src/Examples/Tables.antt =====
-- Hashes, kinds and calls of the interface.
use Prim.Native.String.{String}
use mathlib.Core.List.Perm
use smtstabilizer.Common.{
  ℕ, ◌≡◌, ◌≢◌, ◌⊎◌, refl, arith, true, List, [], ◌∷◌, Option, none, some, if◌then◌else◌, ◌==◌, ◌&&◌,
}
use smtstabilizer.Hash.{hash_combine, hash_communative_children, hash_parents}
use smtstabilizer.Hash.Mix.{hash_combine_distinct_seeds, hash_combine_distinct_values}
use smtstabilizer.Hash.Commutative.{hash_communative_children-perm, hash_parents-perm}
use smtstabilizer.Kind.{kind_code}
use smtstabilizer.Kind.Names.{kind_to_string}
use smtstabilizer.Kind.Operators.{get_oper_kind}
use smtstabilizer.Kind.Printing.{get_oper_kind-kind_to_string}
use smtstabilizer.Sort.{Sort, mk_sort, nil, sk_int, sk_intoreal}
use smtstabilizer.Sort.Equality.{
  sort_equal, create_bv_sort, create_fp_sort, sort_equal-create_bv_sort, sort_equal_comm,
}
use smtstabilizer.Api.{Engine, returned, apply_file, apply_text, default_options}
use smtstabilizer.Api.Capi.{StabilizerHandle, stabilizer_apply_file, stabilizer_apply_text}
use smtstabilizer.Api.Calls.{
  Delivered, Failed, stabilizer_apply_file-contract, stabilizer_apply_text-contract,
}
use smtstabilizer.Api.CommandLine.{read_flags, flags_of, start_flags, all_options, read_flags_lem}

hash_combine_distinct_seeds_example : hash_combine 7 1 ≢ hash_combine 8 1
hash_combine_distinct_seeds_example =
    hash_combine_distinct_seeds 7 8 1 (omega arith) (omega arith) (λ e. omega arith)

hash_combine_distinct_values_example : hash_combine 5 7 ≢ hash_combine 5 8
hash_combine_distinct_values_example =
    hash_combine_distinct_values 5 7 8 (omega arith) (omega arith) (λ e. omega arith)

abbrev table : List ℕ
table = 11 ∷ 22 ∷ 33 ∷ []

hash_communative_children-perm_example :
    hash_communative_children 9 (0 ∷ 2 ∷ []) table ≡ hash_communative_children 9 (2 ∷ 0 ∷ []) table
hash_communative_children-perm_example =
    hash_communative_children-perm 9 (0 ∷ 2 ∷ []) (2 ∷ 0 ∷ []) table (omega arith)
      (omega arith, (omega arith, tt)) (omega arith, (omega arith, tt)) (Perm.swap 2 0 [])

hash_parents-perm_example :
    hash_parents 9 ((0, 1) ∷ (2, 0) ∷ []) table ≡ hash_parents 9 ((2, 0) ∷ (0, 1) ∷ []) table
hash_parents-perm_example =
    hash_parents-perm 9 ((0, 1) ∷ (2, 0) ∷ []) ((2, 0) ∷ (0, 1) ∷ []) table (omega arith)
      (omega arith, (omega arith, tt)) (omega arith, (omega arith, tt)) (Perm.swap (2, 0) (0, 1) [])

get_oper_kind-kind_to_string_example :
    kind_code (get_oper_kind (kind_to_string (get_oper_kind "bvslt")))
    ≡ kind_code (get_oper_kind "bvslt")
get_oper_kind-kind_to_string_example = get_oper_kind-kind_to_string "bvslt" refl

-- A pipeline that returns the text that it is given.
abbrev echo : Engine
echo = record {
  Parser = String;
  parse = returned;
  parse_str = returned;
  configured = λ keep_let expand rewrite p. p;
  simplified = returned;
  stabilized = λ cp sbp p. returned p;
  to_string = returned;
}

abbrev handle : Option StabilizerHandle
handle = some (record { stabilizer = default_options; last_error = "old" })

stabilizer_apply_file-contract_example :
    Delivered
      (apply_file echo)
      handle
      (some "a.smt2")
      (some none)
      (stabilizer_apply_file (λ t. true) "" echo handle (some "a.smt2") (some none))
    ⊎ Failed handle (stabilizer_apply_file (λ t. true) "" echo handle (some "a.smt2") (some none))
stabilizer_apply_file-contract_example =
    stabilizer_apply_file-contract (λ t. true) "" echo handle (some "a.smt2") (some none)

stabilizer_apply_text-contract_example :
    Delivered
      (apply_text echo)
      handle
      (some "(exit)")
      (some none)
      (stabilizer_apply_text (λ t. true) "" echo handle (some "(exit)") (some none))
    ⊎ Failed handle (stabilizer_apply_text (λ t. true) "" echo handle (some "(exit)") (some none))
stabilizer_apply_text-contract_example =
    stabilizer_apply_text-contract (λ t. true) "" echo handle (some "(exit)") (some none)

abbrev arguments : List String
arguments = "--no-sbp" ∷ "--no-cp" ∷ []

read_flags_lem_example :
    read_flags arguments start_flags
    ≡ (if all_options arguments then some (flags_of arguments start_flags) else none)
read_flags_lem_example = read_flags_lem arguments start_flags

sort_equal-create_bv_sort_example :
    (sort_equal (create_fp_sort 8 24) (create_fp_sort 11 53) ≡ some (8 == 11 && 24 == 53))
    × (sort_equal (create_bv_sort 8) (create_bv_sort 16) ≡ some true)
sort_equal-create_bv_sort_example = sort_equal-create_bv_sort 8 16 8 24 11 53

abbrev int_sort : Sort
int_sort = mk_sort sk_int "Int" 0 nil

abbrev int_or_real_sort : Sort
int_or_real_sort = mk_sort sk_intoreal "IntOrReal" 0 nil

sort_equal_comm_example :
    sort_equal int_sort int_or_real_sort ≡ sort_equal int_or_real_sort int_sort
sort_equal_comm_example = sort_equal_comm int_sort int_or_real_sort
