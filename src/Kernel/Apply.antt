-- ===== src/Kernel/Apply.antt =====
-- How `Kernel::apply` (src/kernel/kernel.cpp) begins, with the identifiers of defined functions, and
-- how it sorts operands and assertions at the end.
pub mod Sorted
use Prim.Native.String.{String}
use text.Mathlib.Text.{◌==◌ as str_eq}
use smtstabilizer.Common.{
  ℕ, zero, suc, Bool, not, if◌then◌else◌, List, [], ◌∷◌, Option, none, some, set,
}
use smtstabilizer.Common.Outcome.{Outcome, ok, ◌>>=◌, at, from_option}
use smtstabilizer.Common.Maps.{sort_by}
use smtstabilizer.Kind.{NodeKind}
use smtstabilizer.Hash.{hash_combine}
use smtstabilizer.Node.{NodeManager, is_func_def, keeps_first}
use smtstabilizer.Kernel.Build.{Index, index_at}
use smtstabilizer.Kernel.Rebuild.{by_context}

-- A map from names, the last write first.
abbrev pub find_name {ℓ} : {V : Type ℓ} → String → List (String × V) → Option V
find_name s [] = none
find_name s ((k, v) ∷ m) = if str_eq k s then some v else find_name s m

-- The loop over `function_names`: `key_map` says of each function whether it is a definition.
unfoldable pub def_fun_ids :
    List (String × Bool) → List String → ℕ → List (String × ℕ) → Outcome (List (String × ℕ))
def_fun_ids key_map [] count ids = ok ids
def_fun_ids key_map (name ∷ names) count ids = from_option (find_name name key_map) >>= λ defined.
    if defined
    then def_fun_ids key_map names (suc count) ((name, count) ∷ ids)
    else def_fun_ids key_map names count ids

-- The loop over `d_nodes` that mixes the identifiers into the hashes: `i` is the index of the first
-- node of the list.
unfoldable pub seed_definitions :
    NodeManager → List (String × ℕ) → ℕ → List ℕ → List ℕ → Outcome (List ℕ)
seed_definitions nm ids i [] table = ok table
seed_definitions nm ids i (n ∷ ns) table =
    if is_func_def (nm.node n).kind
    then (at table i >>= λ h. from_option (find_name (nm.node n).name ids) >>= λ id.
        seed_definitions nm ids (suc i) ns (set table i (hash_combine h id)))
    else seed_definitions nm ids (suc i) ns table

module _ (node2index : Index) (context table : List ℕ) where
  -- The comparison of two nodes: by context hash, and by hash between equals.
  unfoldable pub node_less : ℕ → ℕ → Outcome Bool
  unfolding by_context
  node_less a b =
      index_at node2index a >>= λ i. index_at node2index b >>= λ j. by_context context table i j

  unfoldable pub sort_rest : List ℕ → Outcome (List ℕ)
  unfolding node_less
  sort_rest [] = ok []
  sort_rest (c ∷ cs) = sort_by node_less cs >>= λ ds. ok (c ∷ ds)

  -- Nodes that the comparison does not tell apart may come in any order from `std::sort`.
  -- The new operands of the node with the index `i`: those of a commutative node are sorted, for
  -- some kinds from the second one on. A node of such a kind has an operand.
  unfoldable pub sort_operands : List Bool → ℕ → NodeKind → List ℕ → Outcome (List ℕ)
  unfolding node_less sort_rest
  sort_operands is_commutative i kind children = at is_commutative i >>= λ commutative.
      if not commutative
      then ok children
      else if keeps_first kind
      then sort_rest children
      else sort_by node_less children

  -- The assertions that are handed back.
  unfoldable pub sort_assertions : List ℕ → Outcome (List ℕ)
  unfolding node_less
  sort_assertions assertions = sort_by node_less assertions
