-- ===== src/Kernel/Build.antt =====
-- The constructor `Kernel::Kernel` (src/kernel/kernel.cpp): a depth-first walk with an explicit
-- stack that stores the nodes in reverse topological order, then the initial hashes.
pub mod Edges
pub mod Count
pub mod Invariant
pub mod Steps
pub mod Place
pub mod Total
pub mod Correct
use smtstabilizer.Common.{
  ℕ, zero, suc, Bool, false, if◌then◌else◌, ◌==◌, List, [], ◌∷◌, ◌++◌, reverse, length, set, Option,
  none, some,
}
use smtstabilizer.Common.Outcome.{Outcome, ok, err, out_of_fuel, ◌>>=◌, at, from_option}
use smtstabilizer.Hash.{hash_combine}
use smtstabilizer.Kind.{kind_code, nt_and}
use smtstabilizer.Sort.{StdHash}
use smtstabilizer.Node.{
  NodeManager, is_uf_application, is_symbol, hash_node, is_commutative_kind, keeps_first,
}
use smtstabilizer.Kernel.State.{Kernel, size_max, empty_kernel}

-- `node2index`: absent, in progress (`SIZE_MAX`) or placed.
abbrev pub Index : Type 0
Index = ℕ → Option ℕ

abbrev pub no_index : Index
no_index n = none

abbrev pub index_put : Index → ℕ → ℕ → Index
index_put m n i k = if k == n then some i else m k

-- `node2index.at(n)`
abbrev pub index_at : Index → ℕ → Outcome ℕ
index_at m n = from_option (m n)

-- `std::iota`
unfoldable pub iota_from : ℕ → ℕ → List ℕ
iota_from start zero = []
iota_from start (suc n) = start ∷ iota_from (suc start) n

unfoldable pub all_false : ℕ → List Bool
all_false zero = []
all_false (suc n) = false ∷ all_false n

pub record Walk : Type 0 where
  pub visit : List ℕ
  pub node2index : Index
  pub kernel : Kernel

module _ (nm : NodeManager) where
  -- What the walk pushes for a node, and what its row of the graph holds.
  unfoldable pub uf_node : ℕ → List ℕ
  uf_node n =
      if is_uf_application (nm.node n).kind
      then nm.mk_ufv_node (nm.node n).name (nm.node n).sort ∷ []
      else []

  unfoldable pub successors : ℕ → List ℕ
  unfolding uf_node
  successors n = (nm.node n).children ++ uf_node n

  -- The position that the reversed edge from child `c` at place `i` carries.
  unfoldable pub oper_position : Bool → ℕ → ℕ → ℕ
  oper_position commutative c i =
      if keeps_first (nm.node c).kind then 0 else if commutative then 0 else i

  -- One edge from the node at `idx` to the child `c`: both directions.
  unfoldable pub add_edge : Index → ℕ → ℕ → ℕ → Kernel → Outcome Kernel
  add_edge index idx c oper k = index_at index c >>= λ ci. at k.d_graph idx >>= λ row.
      at k.d_reversed_graph ci >>= λ parents. ok (record k {
        d_graph = set k.d_graph idx (row ++ ci ∷ []);
        d_reversed_graph = set k.d_reversed_graph ci (parents ++ (idx, oper) ∷ []);
      })

  unfoldable pub add_children : Index → ℕ → Bool → ℕ → List ℕ → Kernel → Outcome Kernel
  unfolding add_edge oper_position
  add_children index idx commutative i [] k = ok k
  add_children index idx commutative i (c ∷ cs) k =
      add_edge index idx c (oper_position commutative c i) k >>= λ k'.
      add_children index idx commutative (suc i) cs k'

  unfoldable pub add_uf : Index → ℕ → ℕ → List ℕ → Kernel → Outcome Kernel
  unfolding add_edge
  add_uf index idx arity [] k = ok k
  add_uf index idx arity (u ∷ us) k = add_edge index idx u arity k

  -- The rows of a new node, before its edges.
  unfoldable pub push_node : StdHash → ℕ → Kernel → Kernel
  push_node std n k =
      let idx = length k.d_nodes in
      let node = nm.node n in
      let symbol = is_symbol node in
      record k {
        d_nodes = k.d_nodes ++ n ∷ [];
        d_is_commutative = k.d_is_commutative ++ is_commutative_kind node.kind ∷ [];
        d_is_symbol = k.d_is_symbol ++ symbol ∷ [];
        d_graph = k.d_graph ++ [] ∷ [];
        d_reversed_graph = k.d_reversed_graph ++ [] ∷ [];
        d_symbols = if symbol then k.d_symbols ++ idx ∷ [] else k.d_symbols;
        d_hash_table = k.d_hash_table ++ hash_node std node ∷ [];
      }

  -- The branch of the loop that places a node whose children are all placed.
  unfoldable pub place_node : StdHash → Index → ℕ → Kernel → Outcome Kernel
  unfolding push_node add_children add_uf uf_node
  place_node std index n k =
      let idx = length k.d_nodes in
      let children = (nm.node n).children in
      add_children index idx (is_commutative_kind (nm.node n).kind) 0 children (push_node std n k)
      >>= λ k'. add_uf index idx (length children) (uf_node n) k'

  -- One round of the `while`, with `n` on top of the stack and `rest` below it.
  unfoldable pub walk_step : StdHash → ℕ → List ℕ → Walk → Outcome Walk
  unfolding place_node successors
  walk_step std n rest w = elim (w.node2index n) [
    | none ↦ ok (record {
      visit = reverse (successors n) ++ n ∷ rest;
      node2index = index_put w.node2index n size_max;
      kernel = w.kernel;
    })
    | some i ↦
        if i == size_max
        then (let index = index_put w.node2index n (length w.kernel.d_nodes) in
            place_node std index n w.kernel >>= λ k.
            ok (record { visit = rest; node2index = index; kernel = k }))
        else ok (record w { visit = rest })
  ]

  unfoldable pub walk : StdHash → ℕ → Walk → Outcome Walk
  unfolding walk_step
  walk std zero w = elim w.visit [ [] ↦ ok w | _ ∷ _ ↦ err out_of_fuel ]
  walk std (suc fuel) w = elim w.visit [
    | [] ↦ ok w
    | n ∷ rest ↦ walk_step std n rest w >>= λ w'. walk std fuel w'
  ]

  -- The loop over the assertions at the end.
  unfoldable pub mark_assertions : Index → List ℕ → List ℕ → Outcome (List ℕ)
  mark_assertions index [] table = ok table
  mark_assertions index (a ∷ rest) table = index_at index a >>= λ i. at table i >>= λ h.
      mark_assertions index rest (set table i (hash_combine h (kind_code nt_and)))

  unfoldable pub finish_build : Kernel → Index → Outcome Kernel
  unfolding iota_from all_false mark_assertions
  finish_build k index =
      let size = length k.d_nodes in
      mark_assertions index nm.assertions k.d_hash_table >>= λ table. ok (record k {
        d_processing = iota_from 0 size;
        d_visited = all_false size;
        d_symbol_num = length k.d_symbols;
        d_hash_table = table;
      })

  unfoldable pub build : StdHash → ℕ → Bool → Bool → Outcome Kernel
  unfolding walk finish_build
  build std fuel cp sbp =
      walk std fuel (record {
        visit = reverse nm.assertions;
        node2index = no_index;
        kernel = empty_kernel cp sbp;
      })
      >>= λ w. finish_build w.kernel w.node2index
