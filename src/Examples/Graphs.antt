-- ===== src/Examples/Graphs.antt =====
-- Graphs of a few nodes.
use mathlib.Core.List.{Memᴰ, Perm}
use mathlib.Core.List.Perm
use mathlib.Core.Bool.{true≢false}
use native.Mathlib.Nat.{le_refl}
use smtstabilizer.Common.{
  ℕ, zero, suc, ◌^◌, ◌<◌, ◌≡◌, ◌↔◌, refl, arith, Bool, true, false, List, [], ◌∷◌, length, get_or,
  map, none, All,
}
use smtstabilizer.Common.Outcome.{ok}
use smtstabilizer.Kind.{nt_var, nt_add}
use smtstabilizer.Sort.{StdHash, mk_sort, sk_int, nil}
use smtstabilizer.Node.{Node, NodeManager}
use smtstabilizer.Kernel.State.{Kernel, empty_kernel}
use smtstabilizer.Kernel.Build.{build, successors, uf_node}
use smtstabilizer.Kernel.Build.Invariant.{IsAcyclic}
use smtstabilizer.Kernel.Build.Correct.{IsBuilt, build_work, build-IsBuilt}
use smtstabilizer.Kernel.Propagate.{propagate}
use smtstabilizer.Kernel.Propagate.Pass.{entry, NotIn}
use smtstabilizer.Kernel.Propagate.Total.{FitsGraph, context_table, propagate-context}
use smtstabilizer.Kernel.Propagate.Iso.{relabel, IsTopological, IsIso, IsSlice, propagate-iso}
use smtstabilizer.Kernel.Context.{context_propagate}
use smtstabilizer.Kernel.Context.Iso.{SameRuns, context_propagate-iso}

-- Node 2 is the sum of the variables 0 and 1, and the one assertion.
abbrev heap : ℕ → Node
heap (suc (suc n)) = record {
  kind = nt_add;
  sort = mk_sort sk_int "Int" 0 nil;
  name = "+";
  children = 0 ∷ 1 ∷ [];
}
heap (suc zero) = record {
  kind = nt_var;
  sort = mk_sort sk_int "Int" 0 nil;
  name = "y";
  children = [];
}
heap zero = record { kind = nt_var; sort = mk_sort sk_int "Int" 0 nil; name = "x"; children = [] }

abbrev manager : NodeManager
manager = record { node = heap; assertions = 2 ∷ []; mk_ufv_node = λ name sort. 0 }

abbrev std : StdHash
std = record { hash_int = λ n. n; hash_size = λ n. n; hash_string = λ s. 0 }

manager-below : (n : ℕ) → n < 3 → All (λ c. (c < 3) × (c < n)) (successors manager n)
unfolding successors uf_node
manager-below zero h = tt
manager-below (suc zero) h = tt
manager-below (suc (suc n)) h = ((omega arith, omega arith), ((omega arith, omega arith), tt))

manager-IsAcyclic : IsAcyclic manager 3 (λ n. n)
manager-IsAcyclic = record {
  small = omega arith;
  successors_below = manager-below;
  assertions_below = (omega arith, tt);
}

build-IsBuilt_example :
    (k : Kernel) × (build manager std (build_work manager 3 (λ n. n)) true true ≡ ok k)
    × IsBuilt manager k
build-IsBuilt_example =
    build-IsBuilt manager 3 (λ n. n) std true true (build_work manager 3 (λ n. n)) manager-IsAcyclic
      (le_refl _)

-- The graph that it builds, with hashes of the variables `a` and `b`.
abbrev pub sum_kernel : Bool → ℕ → ℕ → Kernel
sum_kernel cp a b = record (empty_kernel cp true) {
  d_graph = [] ∷ [] ∷ (0 ∷ 1 ∷ []) ∷ [];
  d_reversed_graph = ((2, 0) ∷ []) ∷ ((2, 0) ∷ []) ∷ [] ∷ [];
  d_hash_table = a ∷ b ∷ 7 ∷ [];
  d_context_hash = a ∷ b ∷ 7 ∷ [];
  d_nodes = 0 ∷ 1 ∷ 2 ∷ [];
  d_processing = 0 ∷ 1 ∷ 2 ∷ [];
  d_symbols = 0 ∷ 1 ∷ [];
  d_visited = false ∷ false ∷ false ∷ [];
  d_is_commutative = false ∷ false ∷ true ∷ [];
  d_is_symbol = true ∷ true ∷ false ∷ [];
  d_symbol_num = 2;
}

abbrev pub nodes : List ℕ
nodes = 0 ∷ 1 ∷ 2 ∷ []

pub sum_kernel-FitsGraph : (cp : Bool) (a b : ℕ) → FitsGraph (sum_kernel cp a b) 3
sum_kernel-FitsGraph cp a b = record {
  graph = refl;
  reversed = refl;
  commutative = refl;
  children = children_below;
  parents = parents_below;
}
  where
    children_below : (i : ℕ) → All (λ c. c < 3) (get_or (sum_kernel cp a b).d_graph i [])
    children_below zero = tt
    children_below (suc zero) = tt
    children_below (suc (suc zero)) = (omega arith, (omega arith, tt))
    children_below (suc (suc (suc j))) = tt

    parents_below : (i : ℕ) → All (λ e. e.0 < 3) (get_or (sum_kernel cp a b).d_reversed_graph i [])
    parents_below zero = (omega arith, tt)
    parents_below (suc zero) = (omega arith, tt)
    parents_below (suc (suc zero)) = tt
    parents_below (suc (suc (suc j))) = tt

sum_kernel-IsTopological : (cp : Bool) (a b : ℕ) → IsTopological (sum_kernel cp a b) 3
sum_kernel-IsTopological cp a b = record {
  fits = sum_kernel-FitsGraph cp a b;
  down = children_before;
  up = parents_after;
}
  where
    children_before : (i : ℕ) → All (λ c. c < i) (get_or (sum_kernel cp a b).d_graph i [])
    children_before zero = tt
    children_before (suc zero) = tt
    children_before (suc (suc zero)) = (omega arith, (omega arith, tt))
    children_before (suc (suc (suc j))) = tt

    parents_after : (i : ℕ) → All (λ e. i < e.0) (get_or (sum_kernel cp a b).d_reversed_graph i [])
    parents_after zero = (omega arith, tt)
    parents_after (suc zero) = (omega arith, tt)
    parents_after (suc (suc zero)) = tt
    parents_after (suc (suc (suc j))) = tt

propagate-context_example :
    let table = context_table (sum_kernel true 5 6) (5 ∷ 6 ∷ 7 ∷ []) nodes in
    (propagate none (sum_kernel true 5 6) nodes
      ≡ ok (none, record (sum_kernel true 5 6) { d_hash_table = table }))
    × (length table ≡ 3)
    × All (λ h. h < 2 ^ 64) table
    × ((d : ℕ) → NotIn d nodes → entry table d ≡ entry (5 ∷ 6 ∷ 7 ∷ []) d)
propagate-context_example =
    propagate-context (sum_kernel true 5 6) 3 (sum_kernel-FitsGraph true 5 6) none nodes refl refl
      (omega arith, (omega arith, (omega arith, tt)))
      (omega arith, (omega arith, (omega arith, tt)))

pub sum_kernel-IsSlice : (a b : ℕ) → a < 2 ^ 64 → b < 2 ^ 64 → IsSlice (sum_kernel true a b) 3 nodes
sum_kernel-IsSlice a b ha hb = record {
  topological = sum_kernel-IsTopological true a b;
  ascending = ((omega arith, (omega arith, tt)), ((omega arith, tt), (tt, tt)));
  below = (omega arith, (omega arith, (omega arith, tt)));
  sized = refl;
  range = (ha, (hb, (omega arith, tt)));
  context = refl;
}

-- The numbering that exchanges the two variables.
abbrev exchange : ℕ → ℕ
exchange zero = 1
exchange (suc zero) = 0
exchange (suc (suc i)) = suc (suc i)

module _ (a b : ℕ) where
  abbrev here : Kernel
  here = sum_kernel true a b

  abbrev there : Kernel
  there = sum_kernel true b a

  same_commutative :
      (i : ℕ)
      → i < 3
      → get_or there.d_is_commutative (exchange i) false ≡ get_or here.d_is_commutative i false
  same_commutative zero h = refl
  same_commutative (suc zero) h = refl
  same_commutative (suc (suc zero)) h = refl
  same_commutative (suc (suc (suc i))) h = refl

  same_operands :
      (i : ℕ)
      → i < 3
      → get_or here.d_is_commutative i false ≡ true
      → Perm (get_or there.d_graph (exchange i) []) (map exchange (get_or here.d_graph i []))
  same_operands zero h c = Perm.refl []
  same_operands (suc zero) h c = Perm.refl []
  same_operands (suc (suc zero)) h c = Perm.swap 1 0 []
  same_operands (suc (suc (suc i))) h c = Perm.refl []

  same_arguments :
      (i : ℕ)
      → i < 3
      → get_or here.d_is_commutative i false ≡ false
      → get_or there.d_graph (exchange i) [] ≡ map exchange (get_or here.d_graph i [])
  same_arguments zero h c = refl
  same_arguments (suc zero) h c = refl
  same_arguments (suc (suc zero)) h c = absurd (true≢false c)
  same_arguments (suc (suc (suc i))) h c = refl

  same_parents :
      (i : ℕ)
      → i < 3
      → Perm
          (get_or there.d_reversed_graph (exchange i) [])
          (map (relabel exchange) (get_or here.d_reversed_graph i []))
  same_parents zero h = Perm.refl ((2, 0) ∷ [])
  same_parents (suc zero) h = Perm.refl ((2, 0) ∷ [])
  same_parents (suc (suc zero)) h = Perm.refl []
  same_parents (suc (suc (suc i))) h = Perm.refl []

  same_hashes : (i : ℕ) → i < 3 → entry there.d_hash_table (exchange i) ≡ entry here.d_hash_table i
  same_hashes zero h = refl
  same_hashes (suc zero) h = refl
  same_hashes (suc (suc zero)) h = refl
  same_hashes (suc (suc (suc i))) h = refl

  sum_kernel-IsIso : IsIso exchange 3 here there
  sum_kernel-IsIso = record {
    commutative = same_commutative;
    operands = same_operands;
    arguments = same_arguments;
    parents = same_parents;
    hashes = same_hashes;
  }

mem-nodes : (i : ℕ) → i < 3 → Memᴰ i nodes
mem-nodes zero h = Memᴰ.head refl
mem-nodes (suc zero) h = Memᴰ.tail (Memᴰ.head refl)
mem-nodes (suc (suc zero)) h = Memᴰ.tail (Memᴰ.tail (Memᴰ.head refl))
mem-nodes (suc (suc (suc i))) h = absurd (omega arith)

exchange-lt : (i : ℕ) → i < 3 → exchange i < 3
exchange-lt zero h = omega arith
exchange-lt (suc zero) h = omega arith
exchange-lt (suc (suc i)) h = h

same_nodes : (i : ℕ) → i < 3 → Memᴰ i nodes ↔ Memᴰ (exchange i) nodes
same_nodes i h = ((λ _. mem-nodes (exchange i) (exchange-lt i h)), λ _. mem-nodes i h)

propagate-iso_example :
    (table table' : List ℕ) × (propagate none (here 5 6) nodes
      ≡ ok (none, record (here 5 6) { d_hash_table = table }))
    × (propagate none (there 5 6) nodes ≡ ok (none, record (there 5 6) { d_hash_table = table' }))
    × ((i : ℕ) → i < 3 → entry table' (exchange i) ≡ entry table i)
propagate-iso_example =
    propagate-iso exchange 3 3 (here 5 6) (there 5 6) nodes nodes (sum_kernel-IsIso 5 6)
      (sum_kernel-IsSlice 5 6 (omega arith) (omega arith))
      (sum_kernel-IsSlice 6 5 (omega arith) (omega arith)) same_nodes none none

abbrev variables : List ℕ
variables = 0 ∷ 1 ∷ []

context_propagate-iso_example :
    SameRuns exchange 3
      (here 5 6)
      (there 5 6)
      none
      none
      (context_propagate 4 nodes variables none (here 5 6))
      (context_propagate 4 nodes variables none (there 5 6))
context_propagate-iso_example =
    context_propagate-iso exchange 3 3 nodes nodes variables variables same_nodes
      (omega arith, (omega arith, tt)) (omega arith, (omega arith, tt)) (Perm.swap 1 0 []) 4 none
      none (here 5 6) (there 5 6) (sum_kernel-IsIso 5 6)
      (sum_kernel-IsSlice 5 6 (omega arith) (omega arith))
      (sum_kernel-IsSlice 6 5 (omega arith) (omega arith))
