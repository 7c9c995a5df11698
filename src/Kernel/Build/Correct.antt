-- ===== src/Kernel/Build/Correct.antt =====
-- The constructor as a whole.
use mathlib.Core.Path.{subst}
use mathlib.Core.List.Memᴰ
use mathlib.Core.Logic.{⊎_elim}
use smtstabilizer.Common.{
  ℕ, zero, suc, ◌+◌, ◌^◌, ◌<◌, ◌≤◌, ◌≡◌, inr, refl, ◌∙◌, arith, Bool, List, [], ◌∷◌, reverse,
  length, get_or, set, get_elem?-get_or, some, All, All-mono, All-set, All-reverse, All-intro,
  mem-reverse, length-reverse, length-set,
}
use smtstabilizer.Common.Outcome.{ok}
use smtstabilizer.Hash.{hash_combine}
use smtstabilizer.Hash.Mix.{hash_combine-lt}
use smtstabilizer.Kind.{kind_code, nt_and}
use smtstabilizer.Node.{NodeManager}
use smtstabilizer.Sort.{StdHash}
use smtstabilizer.Kernel.State.{Kernel, empty_kernel}
use smtstabilizer.Kernel.Build.{
  Index, no_index, iota_from, all_false, mark_assertions, finish_build, build,
}
use smtstabilizer.Kernel.Build.Count.{fresh_work, unplaced-none}
use smtstabilizer.Kernel.Build.Edges.{IsReversed}
use smtstabilizer.Kernel.Build.Invariant.{IsPlaced, IsSized, HasRow, IsWalking, IsAcyclic, node_of}
use smtstabilizer.Kernel.Build.Total.{walk-returns, work}

-- The state that the constructor leaves: `index` is the place of each node.
pub record IsBuilt (nm : NodeManager) (k : Kernel) : Type 0 where
  pub index : Index
  pub sized : IsSized k (length k.d_nodes)
  pub reversed : IsReversed k.d_reversed_graph (length k.d_nodes)
  pub rows : (i : ℕ) → i < length k.d_nodes → HasRow nm index k i
  pub assertions :
      All
        (λ a. (i : ℕ) × (i < length k.d_nodes) × (index a ≡ some i) × (node_of k i ≡ a))
        nm.assertions
  pub hashes : All (λ h. h < 2 ^ 64) k.d_hash_table
  pub processing : k.d_processing ≡ iota_from 0 (length k.d_nodes)
  pub visited : length k.d_visited ≡ length k.d_nodes

length-all_false : (n : ℕ) → length (all_false n) ≡ n
unfolding all_false
length-all_false zero = refl
length-all_false (suc n) = omega (arith, length-all_false n)

-- The loop over the assertions finds each of them, and keeps the size and the range of the table.
mark_assertions-returns :
    (nm : NodeManager) (index : Index) (size : ℕ) (roots : List ℕ) (table : List ℕ)
    → All (λ a. (i : ℕ) × (index a ≡ some i) × (i < size)) roots
    → length table ≡ size
    → All (λ h. h < 2 ^ 64) table
    → (t : List ℕ) × (mark_assertions nm index roots table ≡ ok t)
      × (length t ≡ size)
      × All (λ h. h < 2 ^ 64) t
unfolding mark_assertions
mark_assertions-returns nm index size [] table found sized range = (table, refl, sized, range)
mark_assertions-returns nm index size (a ∷ roots) table ((i, e, l), found) sized range =
    let h = get_or table i 0 in
    let mixed = hash_combine h (kind_code nt_and) in
    let (t, returns, kept, in_range) =
      mark_assertions-returns nm index size roots (set table i mixed) found
        (length-set table i mixed ∙ sized) (All-set _ table i mixed range (hash_combine-lt _ _)) in
    (t, rw (e, get_elem?-get_or table i 0 (omega arith)) returns, kept, in_range)

module _ (nm : NodeManager) (bound : ℕ) (rank : ℕ → ℕ) where
  start-IsWalking :
      (cp sbp : Bool)
      → IsAcyclic nm bound rank
      → IsWalking nm bound rank (record {
        visit = reverse nm.assertions;
        node2index = no_index;
        kernel = empty_kernel cp sbp;
      })
  start-IsWalking cp sbp acyclic = record {
    building = record {
      sized = record {
        nodes = refl;
        graph = refl;
        reversed = refl;
        hash = refl;
        commutative = refl;
        symbol = refl;
      };
      reversed = λ i. tt;
      rows = λ i l. absurd (omega arith);
      placed = λ n i e ne. cc;
      fits = omega (arith, unplaced-none bound);
      hashes = tt;
    };
    bounded = All-reverse _ nm.assertions acyclic.assertions_below;
    waits = λ n e. cc;
    roots = All-intro _ nm.assertions (λ a m. inr (mem-reverse a nm.assertions m));
  }

  finish_build-IsBuilt :
      (m : Index) (k : Kernel)
      → IsWalking nm bound rank (record { visit = []; node2index = m; kernel = k })
      → (k' : Kernel) × (finish_build nm k m ≡ ok k') × IsBuilt nm k'
  unfolding finish_build
  finish_build-IsBuilt m k inv =
      let b = inv.building in
      let size = length k.d_nodes in
      let found : All (λ a. IsPlaced m a) nm.assertions =
        All-mono (λ a h. ⊎_elim (λ p. p) (λ mem. absurd (Memᴰ.not-nil mem)) h) _ inv.roots in
      let (t, returns, sized, range) =
        mark_assertions-returns nm m size nm.assertions k.d_hash_table
          (All-mono (λ a (i, e, ne). (i, e, (b.placed a i e ne).0)) _ found) b.sized.hash
          b.hashes in
      (
        record k {
          d_processing = iota_from 0 size;
          d_visited = all_false size;
          d_symbol_num = length k.d_symbols;
          d_hash_table = t;
        },
        rw returns,
        record {
          index = m;
          sized = record {
            nodes = refl;
            graph = b.sized.graph;
            reversed = b.sized.reversed;
            hash = sized;
            commutative = b.sized.commutative;
            symbol = b.sized.symbol;
          };
          reversed = b.reversed;
          rows = λ i l.
              let row = b.rows i l in
              record { index = row.index; earlier = row.earlier; row = row.row };
          assertions =
              All-mono (λ a (i, e, ne). (i, (b.placed a i e ne).0, e, (b.placed a i e ne).1)) _
                found;
          hashes = range;
          processing = refl;
          visited = length-all_false size;
        },
      )

  -- Fuel for the walk: one round for each assertion, and for each node one round and one for each
  -- of its successors.
  abbrev pub build_work : ℕ
  build_work = length nm.assertions + fresh_work nm no_index bound

  -- On an acyclic heap the constructor ends within `build_work` rounds and throws nothing. Each
  -- node then stands at one index, after all its successors; its graph row is the list of their
  -- indices, every reversed edge leads to a later node, and every assertion has been placed.
  pub build-IsBuilt :
      (std : StdHash) (cp sbp : Bool) (fuel : ℕ)
      → IsAcyclic nm bound rank
      → build_work ≤ fuel
      → (k : Kernel) × (build nm std fuel cp sbp ≡ ok k) × IsBuilt nm k
  unfolding build work
  build-IsBuilt std cp sbp fuel acyclic enough =
      let (w, returns, inv, ends) =
        walk-returns nm bound rank std acyclic fuel (reverse nm.assertions) no_index
          (empty_kernel cp sbp) (start-IsWalking cp sbp acyclic)
          (omega (arith, length-reverse nm.assertions)) in
      let (k, finished, built) = finish_build-IsBuilt w.node2index w.kernel (
        subst
          (λ v.
            IsWalking nm bound rank
              (record { visit = v; node2index = w.node2index; kernel = w.kernel }))
          ends inv) in
      (k, rw returns finished, built)
