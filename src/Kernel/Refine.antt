-- ===== src/Kernel/Refine.antt =====
-- The loop of `Kernel::apply` (src/kernel/kernel.cpp) that separates the symbols, in its two
-- variants, and the names that the symbols are given after it.
use Prim.Native.String.{String}
use smtstabilizer.Common.{
  ℕ, zero, suc, Bool, true, false, if◌then◌else◌, ◌==◌, ltb, List, [], ◌∷◌, ◌++◌, length, set,
}
use smtstabilizer.Common.Outcome.{Outcome, ok, err, out_of_fuel, ◌>>=◌, at}
use smtstabilizer.Common.Maps.{Counts, count_find, count_or_zero, bump}
use smtstabilizer.Hash.{hash_combine}
use smtstabilizer.Node.{NodeManager, is_uf_name}
use smtstabilizer.Kernel.State.{Kernel}
use smtstabilizer.Kernel.Propagate.{Static}
use smtstabilizer.Kernel.Rebuild.{rebuild_graph}
use smtstabilizer.Kernel.Specific.{specific_propagate}

-- `flag`: whether no hash occurs twice among the nodes. The loop stops at the first repetition.
unfoldable pub all_unique : List ℕ → List ℕ → Counts → Outcome Bool
all_unique table [] counts = ok true
all_unique table (n ∷ ns) counts = at table n >>= λ h.
    let counts' = bump h counts in
    let rest = all_unique table ns counts' in
    if ltb 1 (count_or_zero (count_find counts' h)) then ok false else rest

-- Without `d_symmetry_breaking_perturbation`.
unfoldable pub refine_nodes : ℕ → Static → Kernel → Outcome (Static × Kernel)
unfolding all_unique specific_propagate
refine_nodes zero static k = err out_of_fuel
refine_nodes (suc fuel) static k = all_unique k.d_hash_table k.d_processing [] >>= λ flag.
    if flag
    then ok (static, k)
    else (specific_propagate fuel static k >>= λ out. refine_nodes fuel out.0 out.1)

-- With it.
unfoldable pub refine_symbols : ℕ → Static → Kernel → Outcome (Static × Kernel)
unfolding rebuild_graph specific_propagate
refine_symbols zero static k = err out_of_fuel
refine_symbols (suc fuel) static k =
    if length k.d_unique_symbols == k.d_symbol_num
    then ok (static, k)
    else (rebuild_graph k >>= λ k'.
        specific_propagate fuel static k' >>= λ out. refine_symbols fuel out.0 out.1)

unfoldable pub refine : ℕ → Static → Kernel → Outcome (Static × Kernel)
unfolding refine_nodes refine_symbols
refine fuel static k =
    if k.d_symmetry_breaking_perturbation
    then refine_symbols fuel static k
    else refine_nodes fuel static k

-- A new name: "UF" or "S" with a number.
pub data SymbolName : Type 0 where
  uf s : ℕ → SymbolName

-- The state of the naming loop. `renamed` lists the nodes with the names that `setName` gives them.
pub record Naming : Type 0 where
  pub uf_count : ℕ
  pub symbol_count : ℕ
  pub d_hash_table : List ℕ
  pub renamed : List (ℕ × SymbolName)
  pub function_names_map : List (String × SymbolName)
  pub var_names_map : List (String × SymbolName)

module _ (nm : NodeManager) (d_nodes : List ℕ) where
  -- One round: `i` is an entry of `d_unique_symbols`. The maps are lists, the last write first.
  unfoldable pub name_symbol : ℕ → Naming → Outcome Naming
  name_symbol i n = at d_nodes i >>= λ node. at n.d_hash_table i >>= λ _.
      let name = (nm.node node).name in
      if is_uf_name (nm.node node).kind
      then ok (record n {
        uf_count = suc n.uf_count;
        d_hash_table = set n.d_hash_table i (hash_combine (suc n.uf_count) 0);
        renamed = n.renamed ++ (i, uf (suc n.uf_count)) ∷ [];
        function_names_map = (name, uf (suc n.uf_count)) ∷ n.function_names_map;
      })
      else ok (record n {
        symbol_count = suc n.symbol_count;
        d_hash_table = set n.d_hash_table i (suc n.symbol_count);
        renamed = n.renamed ++ (i, s (suc n.symbol_count)) ∷ [];
        var_names_map = (name, s (suc n.symbol_count)) ∷ n.var_names_map;
      })

  unfoldable pub name_symbols : List ℕ → Naming → Outcome Naming
  unfolding name_symbol
  name_symbols [] n = ok n
  name_symbols (i ∷ is) n = name_symbol i n >>= λ n'. name_symbols is n'
