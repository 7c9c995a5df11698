-- ===== src/Kernel/Build/Place.antt =====
-- The branch of the walk that places a node: what it stores, and that it cannot throw.
use mathlib.Core.Logic.{⊎_elim}
use native.Mathlib.Decide.{ℕ_discrete, dec_lt}
use native.Mathlib.Nat.{le_refl}
use native.Mathlib.Numerals.{add-one}
use smtstabilizer.Common.{
  ℕ, suc, ◌^◌, ◌<◌, ◌≤◌, ◌≡◌, refl, sym, ap, ◌∙◌, arith, List, [], ◌∷◌, ◌++◌, map, length, get_or,
  set, some, All, All-mono, All-append, length-append, length-set, get_or-append_left,
  get_or-append_length, get_or-ge_length, get_or-set_self, get_or-set_ne,
}
use smtstabilizer.Common.Outcome.{Outcome, ok}
use smtstabilizer.Hash.Mix.{hash_combine-lt}
use smtstabilizer.Node.{NodeManager, hash_node, is_symbol, is_commutative_kind}
use smtstabilizer.Sort.{StdHash}
use smtstabilizer.Kernel.State.{Kernel, size_max}
use smtstabilizer.Kernel.Build.{Index, index_put, successors, push_node, place_node}
use smtstabilizer.Kernel.Build.Edges.{PlacedBelow, place, IsReversed, add_successors-HasEdges}
use smtstabilizer.Kernel.Build.Count.{unplaced-place, unplaced-pos}
use smtstabilizer.Kernel.Build.Invariant.{IsPlaced, HasRow, IsBuilding}
use smtstabilizer.Kernel.Build.Steps.{put-some, put_self, put-ne, not-IsPlaced_open, HasRow-put}

IsReversed-push :
    (rows : List (List (ℕ × ℕ))) (size : ℕ)
    → length rows ≡ size
    → IsReversed rows size
    → IsReversed (rows ++ [] ∷ []) (suc size)
IsReversed-push rows size e h i = elim (dec_lt i size) [
  | yes l ↦
      rw (get_or-append_left rows ([] ∷ []) i [] (omega arith))
        (All-mono (λ edge p. (p.0, omega arith)) _ (h i))
  | no ge ↦ rw (beyond i (omega arith)) tt
]
  where
    beyond : (i : ℕ) → size ≤ i → get_or (rows ++ [] ∷ []) i [] ≡ []
    beyond i l = elim (ℕ_discrete i size) [
      | yes same ↦ get_or-append_length rows [] [] i (omega arith)
      | no other ↦
          get_or-ge_length (rows ++ [] ∷ []) i [] (omega (arith, length-append rows ([] ∷ [])))
    ]

hash_node-lt : (std : StdHash) (nm : NodeManager) (n : ℕ) → hash_node std (nm.node n) < 2 ^ 64
unfolding hash_node
hash_node-lt std nm n = hash_combine-lt _ _

module _ (nm : NodeManager) (bound : ℕ) (rank : ℕ → ℕ) (std : StdHash) where
  -- What the branch returns: one more node, its row, and the invariant.
  pub record IsPlacing (m : Index) (n : ℕ) (k : Kernel) (result : Outcome Kernel) : Type 0 where
    pub after : Kernel
    pub returns : result ≡ ok after
    pub keeps : IsBuilding nm bound (index_put m n (length k.d_nodes)) after

  -- The state after the branch: one more entry of each vector, and the row of the new node.
  placed_kernel : Index → ℕ → Kernel → List (List (ℕ × ℕ)) → Kernel
  placed_kernel m' n k reversed =
      let k1 = push_node nm std n k in
      let size = length k.d_nodes in
      record k1 {
        d_graph =
            set k1.d_graph size (get_or k1.d_graph size [] ++ map (place m') (successors nm n));
        d_reversed_graph = reversed;
      }

  HasRow-old :
      (m' : Index) (n : ℕ) (k : Kernel) (reversed : List (List (ℕ × ℕ))) (i : ℕ)
      → i < length k.d_nodes
      → length k.d_graph ≡ length k.d_nodes
      → HasRow nm m' k i
      → HasRow nm m' (placed_kernel m' n k reversed) i
  unfolding placed_kernel push_node
  HasRow-old m' n k reversed i l sized row =
      let same = get_or-append_left k.d_nodes (n ∷ []) i 0 l in
      let g1 = k.d_graph ++ [] ∷ [] in
      let size = length k.d_nodes in
      record {
        index = rw same row.index;
        earlier = rw same row.earlier;
        row =
            rw
              (
                same,
                get_or-set_ne g1 size i (get_or g1 size [] ++ map (place m') (successors nm n)) []
                    (λ q. absurd (omega arith)),
                get_or-append_left k.d_graph ([] ∷ []) i [] (omega arith),
              )
              row.row;
      }

  HasRow-new :
      (m' : Index) (n : ℕ) (k : Kernel) (reversed : List (List (ℕ × ℕ)))
      → length k.d_graph ≡ length k.d_nodes
      → m' n ≡ some (length k.d_nodes)
      → All (PlacedBelow m' (length k.d_nodes)) (successors nm n)
      → HasRow nm m' (placed_kernel m' n k reversed) (length k.d_nodes)
  unfolding placed_kernel push_node
  HasRow-new m' n k reversed sized index earlier =
      let size = length k.d_nodes in
      let g1 = k.d_graph ++ [] ∷ [] in
      let same = get_or-append_length k.d_nodes n 0 size refl in
      record {
        index = rw same index;
        earlier = rw same earlier;
        row = rw (
          same,
          get_or-set_self g1 size (get_or g1 size [] ++ map (place m') (successors nm n)) []
              (omega (arith, length-append k.d_graph ([] ∷ []))),
          get_or-append_length k.d_graph [] [] size (sym sized),
        );
      }

  placed_kernel-IsBuilding :
      (m : Index) (n : ℕ) (k : Kernel) (reversed : List (List (ℕ × ℕ)))
      → bound ≤ size_max
      → n < bound
      → m n ≡ some size_max
      → length reversed ≡ suc (length k.d_nodes)
      → IsReversed reversed (suc (length k.d_nodes))
      → length k.d_nodes < size_max
      → let m' = index_put m n (length k.d_nodes) in
        All (PlacedBelow m' (length k.d_nodes)) (successors nm n)
        → IsBuilding nm bound m k
        → IsBuilding nm bound m' (placed_kernel m' n k reversed)
  unfolding placed_kernel push_node
  placed_kernel-IsBuilding m n k reversed small below e lr rev room earlier b =
      let size = length k.d_nodes in
      let m' = index_put m n size in
      let grown = length-append k.d_nodes (n ∷ []) in
      record {
        sized = record {
          nodes = refl;
          graph = omega (
            arith,
            grown,
            length-set (k.d_graph ++ [] ∷ []) size
                (get_or (k.d_graph ++ [] ∷ []) size [] ++ map (place m') (successors nm n)),
            length-append k.d_graph ([] ∷ []),
            b.sized.graph,
          );
          reversed = omega (arith, grown, lr);
          hash = omega (
            arith,
            grown,
            length-append k.d_hash_table (hash_node std (nm.node n) ∷ []),
            b.sized.hash,
          );
          commutative = omega (
            arith,
            grown,
            length-append k.d_is_commutative (is_commutative_kind (nm.node n).kind ∷ []),
            b.sized.commutative,
          );
          symbol = omega (
            arith,
            grown,
            length-append k.d_is_symbol (is_symbol (nm.node n) ∷ []),
            b.sized.symbol,
          );
        };
        reversed = rw (grown, add-one) rev;
        rows = λ i l. elim (ℕ_discrete i size) [
          | yes same ↦
              rw same (HasRow-new m' n k reversed b.sized.graph (put_self m n size) earlier)
          | no other ↦
              let old : i < size = omega (arith, grown) in
              HasRow-old m' n k reversed i old b.sized.graph (
                HasRow-put nm bound rank m n size k i (not-IsPlaced_open m n e) (omega arith)
                  (b.rows i old))
        ];
        placed = λ x i p ne.
            ⊎_elim
              (λ (same, at_end).
                (omega (arith, grown), get_or-append_length k.d_nodes n 0 i at_end ∙ same))
              (λ (other, old).
                let (l, here) = b.placed x i old ne in
                (omega (arith, grown), get_or-append_left k.d_nodes (n ∷ []) i 0 l ∙ here))
              (put-some m n size x i p);
        fits = omega (
          arith,
          grown,
          b.fits,
          unplaced-place m n size bound below e (λ q. absurd (omega arith)),
        );
        hashes = All-append _ k.d_hash_table _ b.hashes (hash_node-lt std nm n, tt);
      }

  pub place_node-IsPlacing :
      (m : Index) (n : ℕ) (k : Kernel)
      → bound ≤ size_max
      → n < bound
      → m n ≡ some size_max
      → All (IsPlaced m) (successors nm n)
      → IsBuilding nm bound m k
      → IsPlacing m n k (place_node nm std (index_put m n (length k.d_nodes)) n k)
  unfolding place_node push_node placed_kernel
  place_node-IsPlacing m n k small below e placed b =
      let size = length k.d_nodes in
      let m' = index_put m n size in
      let unset = not-IsPlaced_open m n e in
      let room : size < size_max = omega (arith, b.fits, unplaced-pos m n bound below e) in
      let earlier : All (PlacedBelow m' size) (successors nm n) =
        All-mono
          (λ c (i, at_c, ne). (
            i,
            put-ne m n size c (λ same. unset (i, ap m same ∙ at_c, ne)) ∙ at_c,
            (b.placed c i at_c ne).0,
          ))
          (successors nm n) placed in
      let edges =
        add_successors-HasEdges nm m' size (is_commutative_kind (nm.node n).kind) n
          (push_node nm std n k) earlier
          (omega (arith, length-append k.d_graph ([] ∷ []), b.sized.graph))
          (omega (arith, length-append k.d_reversed_graph ([] ∷ []), b.sized.reversed)) in
      record {
        after = placed_kernel m' n k edges.reversed;
        returns = edges.returns;
        keeps =
            placed_kernel-IsBuilding m n k edges.reversed small below e
              (omega (
                arith,
                edges.same_length,
                length-append k.d_reversed_graph ([] ∷ []),
                b.sized.reversed,
              ))
              (edges.keeps (suc size) (le_refl _)
                (IsReversed-push k.d_reversed_graph size b.sized.reversed b.reversed))
              room earlier b;
      }
