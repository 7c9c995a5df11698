-- ===== src/Sort.antt =====
-- `enum class SORT_KIND` and `class Sort` (src/parser/sort.h), with the hash that the kernel reads.
-- `std::hash` is not code of the repository: its three instances are the fields of `StdHash`.
pub mod Equality
pub mod Printing
use Prim.Native.Nat.{bit_xor}
use Prim.Native.String.{String}
use smtstabilizer.Common.{ℕ, ◌+◌, ◌*◌, ◌/◌, ◌%◌, ◌^◌, Bool, true, false, ◌||◌, if◌then◌else◌}

pub data SortKind : Type 0 where
  sk_null sk_unknown sk_bool sk_int sk_real sk_bv : SortKind
  sk_fp sk_str sk_array sk_datatype sk_set sk_relation : SortKind
  sk_bag sk_seq sk_tuple sk_uf sk_reg sk_ext : SortKind
  sk_rat sk_nat sk_algebraic sk_transcendental sk_rand sk_intoreal : SortKind
  sk_dec sk_def sk_rounding_mode : SortKind

unfoldable pub sort_kind_code : SortKind → ℕ
sort_kind_code sk_null = 0
sort_kind_code sk_unknown = 1
sort_kind_code sk_bool = 2
sort_kind_code sk_int = 3
sort_kind_code sk_real = 4
sort_kind_code sk_bv = 5
sort_kind_code sk_fp = 6
sort_kind_code sk_str = 7
sort_kind_code sk_array = 8
sort_kind_code sk_datatype = 9
sort_kind_code sk_set = 10
sort_kind_code sk_relation = 11
sort_kind_code sk_bag = 12
sort_kind_code sk_seq = 13
sort_kind_code sk_tuple = 14
sort_kind_code sk_uf = 15
sort_kind_code sk_reg = 16
sort_kind_code sk_ext = 17
sort_kind_code sk_rat = 18
sort_kind_code sk_nat = 19
sort_kind_code sk_algebraic = 20
sort_kind_code sk_transcendental = 21
sort_kind_code sk_rand = 22
sort_kind_code sk_intoreal = 23
sort_kind_code sk_dec = 24
sort_kind_code sk_def = 25
sort_kind_code sk_rounding_mode = 26

-- The children are shared pointers, and the hash skips a null one.
mutual
  pub data Sort : Type 0 where
    mk_sort : SortKind → String → ℕ → Sorts → Sort

  pub data Sorts : Type 0 where
    nil : Sorts
    cons : Sort → Sorts → Sorts
    null_cons : Sorts → Sorts

pub record StdHash : Type 0 where
  pub hash_int : ℕ → ℕ
  pub hash_size : ℕ → ℕ
  pub hash_string : String → ℕ

abbrev pub sort_kind : Sort → SortKind
sort_kind (mk_sort k n a cs) = k

abbrev pub is_dec_kind : SortKind → Bool
is_dec_kind sk_dec = true
is_dec_kind _ = false

abbrev pub is_def_kind : SortKind → Bool
is_def_kind sk_def = true
is_def_kind _ = false

abbrev pub is_array_kind : SortKind → Bool
is_array_kind sk_array = true
is_array_kind _ = false

-- The sorts that the `isV…` tests of a node name.
abbrev pub is_value_kind : SortKind → Bool
is_value_kind sk_bool = true
is_value_kind sk_int = true
is_value_kind sk_real = true
is_value_kind sk_bv = true
is_value_kind sk_fp = true
is_value_kind sk_rounding_mode = true
is_value_kind sk_str = true
is_value_kind sk_reg = true
is_value_kind _ = false

-- `result ^= h + 0x9e3779b9 + (result << 6) + (result >> 2)` on 64-bit words.
unfoldable pub sort_hash_step : ℕ → ℕ → ℕ
sort_hash_step result h =
    bit_xor result ((h + 0x9e3779b9 + result * 2 ^ 6 % 2 ^ 64 + result / 2 ^ 2) % 2 ^ 64)

unfoldable mutual
  pub hash_without_name : StdHash → Sort → ℕ
  hash_without_name std (mk_sort k n a cs) =
      hash_sorts std
        (sort_hash_step
          (sort_hash_step (std.hash_int (sort_kind_code k))
            (if is_dec_kind k || is_def_kind k then 0 else std.hash_string n))
          (std.hash_size a))
        cs

  -- The loop over the children.
  pub hash_sorts : StdHash → ℕ → Sorts → ℕ
  hash_sorts std result nil = result
  hash_sorts std result (cons c cs) =
      hash_sorts std (sort_hash_step result (hash_without_name std c)) cs
  hash_sorts std result (null_cons cs) = hash_sorts std result cs
