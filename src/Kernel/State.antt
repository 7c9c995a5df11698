-- ===== src/Kernel/State.antt =====
-- The state of `class Kernel` (src/kernel/kernel.h).
use smtstabilizer.Common.{ℕ, ◌^◌, ◌-◌, Bool, List, []}

pub record Kernel : Type 0 where
  pub d_graph : List (List ℕ)
  pub d_reversed_graph : List (List (ℕ × ℕ))
  pub d_hash_table : List ℕ
  pub d_context_hash : List ℕ
  pub d_nodes : List ℕ
  pub d_processing : List ℕ
  pub d_symbols : List ℕ
  pub d_unique_symbols : List ℕ
  pub d_visited : List Bool
  pub d_is_commutative : List Bool
  pub d_is_symbol : List Bool
  pub d_symbol_num : ℕ
  pub d_context_propagation : Bool
  pub d_symmetry_breaking_perturbation : Bool

abbrev pub size_max : ℕ
size_max = 2 ^ 64 - 1

-- Before the constructor's loop.
abbrev pub empty_kernel : Bool → Bool → Kernel
empty_kernel cp sbp = record {
  d_graph = [];
  d_reversed_graph = [];
  d_hash_table = [];
  d_context_hash = [];
  d_nodes = [];
  d_processing = [];
  d_symbols = [];
  d_unique_symbols = [];
  d_visited = [];
  d_is_commutative = [];
  d_is_symbol = [];
  d_symbol_num = 0;
  d_context_propagation = cp;
  d_symmetry_breaking_perturbation = sbp;
}
