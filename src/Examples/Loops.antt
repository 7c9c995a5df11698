-- ===== src/Examples/Loops.antt =====
-- The loops on the graph of a sum.
use mathlib.Core.List.{Perm}
use native.Mathlib.Nat.{le_refl}
use smtstabilizer.Common.{
  ℕ, ◌++◌, zero, suc, ◌≤◌, ◌≡◌, refl, arith, true, false, List, [], ◌∷◌, get_or, some, none,
}
use smtstabilizer.Common.Outcome.{ok}
use smtstabilizer.Common.Sorting.{sort, count_unique, insert, changes}
use smtstabilizer.Kernel.State.{Kernel}
use smtstabilizer.Kernel.State.{empty_kernel}
use smtstabilizer.Common.SortBy.{Linked}
use smtstabilizer.Kernel.Rebuild.Order.{IsBefore}
use smtstabilizer.Kind.{nt_and}
use smtstabilizer.Kernel.Context.{context_propagate}
use smtstabilizer.Kernel.Context.Ends.{state_after, count_after, context_propagate-ends}
use smtstabilizer.Kernel.Apply.{sort_operands, sort_assertions}
use smtstabilizer.Kernel.Apply.Sorted.{Arranged, IsSortOf, sort_operands_lem}
use smtstabilizer.Kernel.Rebuild.{rebuild_graph}
use smtstabilizer.Kernel.Rebuild.Pruned.{keep_if}
use smtstabilizer.Kernel.Rebuild.Progress.{
  IsReady, is_repeated, is_resolved, left_of, symbols_among, rebuild_graph-progress,
}
use smtstabilizer.Examples.Graphs.{sum_kernel, nodes, sum_kernel-FitsGraph, sum_kernel-IsSlice}

-- One node without operands.
abbrev single : Kernel
single = record (empty_kernel false true) {
  d_graph = [] ∷ [];
  d_reversed_graph = [] ∷ [];
  d_hash_table = 5 ∷ [];
  d_nodes = 0 ∷ [];
  d_is_commutative = false ∷ [];
}

sum_kernel-IsReady : (a b : ℕ) → IsReady (sum_kernel true a b) 3
sum_kernel-IsReady a b = record {
  fits = sum_kernel-FitsGraph true a b;
  table = refl;
  context = refl;
  visited = refl;
  symbol = refl;
  processing = (omega arith, (omega arith, (omega arith, tt)));
  unmarked = unmarked;
}
  where
    unmarked : (i : ℕ) → get_or (sum_kernel true a b).d_visited i false ≡ false
    unmarked zero = refl
    unmarked (suc zero) = refl
    unmarked (suc (suc zero)) = refl
    unmarked (suc (suc (suc i))) = refl

-- Both variables have the hash 5.
rebuild_graph-progress_example :
    let k = sum_kernel true 5 5 in
    (k' : Kernel) × (rebuild_graph k ≡ ok k')
    × (k'.d_processing ≡ keep_if (is_repeated k) k.d_processing)
    × (k'.d_symbols ≡ symbols_among k k'.d_processing)
    × ((us : List ℕ) × (k'.d_unique_symbols ≡ k.d_unique_symbols ++ us)
        × Perm (keep_if (is_resolved k) k.d_processing) us
        × Linked (IsBefore k.d_context_hash k.d_hash_table) us)
    × ((i : ℕ) → get_or k'.d_graph i [] ≡ left_of k (λ c. c) i (get_or k.d_graph i []))
    × ((i : ℕ)
        → get_or k'.d_reversed_graph i [] ≡ left_of k (λ e. e.0) i (get_or k.d_reversed_graph i []))
    × ((i : ℕ) → get_or k'.d_visited i false ≡ false)
rebuild_graph-progress_example =
    rebuild_graph-progress (sum_kernel true 5 5) 3 (sum_kernel-IsReady 5 5)

abbrev hashes : List ℕ
hashes = 30 ∷ 10 ∷ 20 ∷ []

sort_operands_lem_example :
    (cs handed_back : List ℕ) × (sort_operands
        (λ n. some n)
        hashes
        hashes
        (true ∷ [])
        0
        nt_and
        (0 ∷ 2 ∷ 1 ∷ [])
      ≡ ok cs)
    × Arranged (λ n. some n) hashes hashes true false (0 ∷ 2 ∷ 1 ∷ []) cs
    × (sort_assertions (λ n. some n) hashes hashes (2 ∷ 0 ∷ []) ≡ ok handed_back)
    × IsSortOf (λ n. some n) hashes hashes (2 ∷ 0 ∷ []) handed_back
sort_operands_lem_example =
    sort_operands_lem (λ n. some n) hashes hashes (true ∷ []) 0 nt_and (0 ∷ 2 ∷ 1 ∷ []) (2 ∷ 0 ∷ [])
      (omega arith)
      (
        (0, refl, (omega arith, omega arith)),
        ((2, refl, (omega arith, omega arith)), ((1, refl, (omega arith, omega arith)), tt)),
      )
      ((2, refl, (omega arith, omega arith)), ((0, refl, (omega arith, omega arith)), tt))

one_symbol :
    (j : ℕ)
    → count_after (sum_kernel true 5 6) nodes (0 ∷ []) j
      ≤ count_after (sum_kernel true 5 6) nodes (0 ∷ []) (suc j)
unfolding count_unique sort insert changes
one_symbol j = le_refl _

-- The only symbol is the first variable.
context_propagate-ends_example :
    (m : ℕ) × (context_propagate 3 nodes (0 ∷ []) none (sum_kernel true 5 6)
      ≡ ok (none, state_after (sum_kernel true 5 6) nodes (0 ∷ []) m))
context_propagate-ends_example =
    context_propagate-ends (sum_kernel true 5 6) nodes (0 ∷ []) 3
      (sum_kernel-IsSlice 5 6 (omega arith) (omega arith)) (omega arith, tt) one_symbol none
