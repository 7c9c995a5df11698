-- ===== src/Kernel/Build/Invariant.antt =====
-- The invariant of the walk of `Kernel::Kernel`: what is stored of each placed node, and that a node
-- in progress waits only for nodes above it on the stack.
use mathlib.Core.List.{Memᴰ}
use smtstabilizer.Common.{
  ℕ, ◌+◌, ◌^◌, ◌<◌, ◌≤◌, ◌≡◌, ◌≢◌, ◌⊎◌, List, [], ◌∷◌, ◌++◌, map, length, get_or, some, All,
}
use smtstabilizer.Node.{NodeManager}
use smtstabilizer.Kernel.State.{Kernel, size_max}
use smtstabilizer.Kernel.Build.{Index, Walk, successors}
use smtstabilizer.Kernel.Build.Edges.{PlacedBelow, place, IsReversed}
use smtstabilizer.Kernel.Build.Count.{unplaced}

abbrev pub IsPlaced : Index → ℕ → Type 0
IsPlaced m n = (i : ℕ) × (m n ≡ some i) × (i ≢ size_max)

abbrev pub node_of : Kernel → ℕ → ℕ
node_of k i = get_or k.d_nodes i 0

-- Every per-node vector has one entry for each node.
pub record IsSized (k : Kernel) (size : ℕ) : Type 0 where
  pub nodes : length k.d_nodes ≡ size
  pub graph : length k.d_graph ≡ size
  pub reversed : length k.d_reversed_graph ≡ size
  pub hash : length k.d_hash_table ≡ size
  pub commutative : length k.d_is_commutative ≡ size
  pub symbol : length k.d_is_symbol ≡ size

module _ (nm : NodeManager) where
  -- The rows of the node at index `i`.
  pub record HasRow (m : Index) (k : Kernel) (i : ℕ) : Type 0 where
    pub index : m (node_of k i) ≡ some i
    pub earlier : All (PlacedBelow m i) (successors nm (node_of k i))
    pub row : get_or k.d_graph i [] ≡ map (place m) (successors nm (node_of k i))

  pub record IsBuilding (bound : ℕ) (m : Index) (k : Kernel) : Type 0 where
    pub sized : IsSized k (length k.d_nodes)
    pub reversed : IsReversed k.d_reversed_graph (length k.d_nodes)
    pub rows : (i : ℕ) → i < length k.d_nodes → HasRow m k i
    pub placed :
        (n i : ℕ) → m n ≡ some i → i ≢ size_max → (i < length k.d_nodes) × (node_of k i ≡ n)
    pub fits : length k.d_nodes + unplaced m bound ≡ bound
    pub hashes : All (λ h. h < 2 ^ 64) k.d_hash_table

module _ (nm : NodeManager) (bound : ℕ) (rank : ℕ → ℕ) where
  -- The successors of a node in progress are placed, or above it on the stack, where only nodes
  -- of a lower rank are.
  pub record Waits (m : Index) (n : ℕ) (visit : List ℕ) : Type 0 where
    pub above : List ℕ
    pub below : List ℕ
    pub stack : visit ≡ above ++ n ∷ below
    pub lower : All (λ x. rank x < rank n) above
    pub needs : All (λ c. IsPlaced m c ⊎ Memᴰ c above) (successors nm n)

  pub record IsWalking (w : Walk) : Type 0 where
    pub building : IsBuilding nm bound w.node2index w.kernel
    pub bounded : All (λ x. x < bound) w.visit
    pub waits : (n : ℕ) → w.node2index n ≡ some size_max → Waits w.node2index n w.visit
    pub roots : All (λ a. IsPlaced w.node2index a ⊎ Memᴰ a w.visit) nm.assertions

  -- The heap is acyclic and bounded below `bound`: what the walk relies on.
  pub record IsAcyclic : Type 0 where
    pub small : bound ≤ size_max
    pub successors_below :
        (n : ℕ) → n < bound → All (λ c. (c < bound) × (rank c < rank n)) (successors nm n)
    pub assertions_below : All (λ a. a < bound) nm.assertions
