-- ===== src/Kernel/Build/Edges.antt =====
-- What the edges of one node (`add_children`, `add_uf` of `Kernel::Kernel`) do to the two graphs.
use smtstabilizer.Common.{
  ℕ, suc, ◌<◌, ◌≤◌, ◌≡◌, refl, ap, sym, ◌∙◌, arith, Bool, List, [], ◌∷◌, ◌++◌, map, length, get_or,
  set, Option, none, some, All, All-append, All-split, length-set, get_or-set_self, get_or-set_ne,
  set-set, set-get_or, get_elem?-get_or,
}
use mathlib.Core.List.{append_assoc, append-nil, map-append}
use native.Mathlib.Decide.{ℕ_discrete}
use smtstabilizer.Common.Outcome.{Outcome, ok, ◌>>=◌}
use smtstabilizer.Node.{NodeManager}
use smtstabilizer.Kernel.State.{Kernel}
use smtstabilizer.Kernel.Build.{
  Index, add_edge, add_children, add_uf, oper_position, uf_node, successors,
}

-- Node `n` is placed, at an index below `bound`.
abbrev pub PlacedBelow : Index → ℕ → ℕ → Type 0
PlacedBelow index bound n = (i : ℕ) × (index n ≡ some i) × (i < bound)

-- The index of a placed node.
abbrev pub place_of : Option ℕ → ℕ
place_of none = 0
place_of (some i) = i

abbrev pub place : Index → ℕ → ℕ
place index n = place_of (index n)

place-eq : (index : Index) (n i : ℕ) → index n ≡ some i → place index n ≡ i
place-eq index n i e = ap place_of e

-- Two appends to one row are one.
set-append-set :
    (rows : List (List ℕ)) (idx : ℕ) (xs ys : List ℕ)
    → idx < length rows
    → let once = set rows idx (get_or rows idx [] ++ xs) in
      set once idx (get_or once idx [] ++ ys) ≡ set rows idx (get_or rows idx [] ++ (xs ++ ys))
set-append-set rows idx xs ys h =
    rw (get_or-set_self rows idx (get_or rows idx [] ++ xs) [] h, set-set, append_assoc)

-- Every reversed edge of row `i` leads to a later node, below `size`.
abbrev pub IsReversed : List (List (ℕ × ℕ)) → ℕ → Type 0
IsReversed rows size = (i : ℕ) → All (λ e. (i < e.0) × (e.0 < size)) (get_or rows i [])

-- Every edge of row `i` leads to an earlier node.
abbrev pub IsDownward : List (List ℕ) → Type 0
IsDownward rows = (i : ℕ) → All (λ c. c < i) (get_or rows i [])

IsReversed-set :
    (rows : List (List (ℕ × ℕ))) (size ci idx oper : ℕ)
    → IsReversed rows size
    → ci < length rows
    → ci < idx
    → idx < size
    → IsReversed (set rows ci (get_or rows ci [] ++ (idx, oper) ∷ [])) size
IsReversed-set rows size ci idx oper h l below fits i = elim (ℕ_discrete ci i) [
  | yes e ↦
      rw (← e, get_or-set_self rows ci (get_or rows ci [] ++ (idx, oper) ∷ []) [] l)
        (All-append _ (get_or rows ci []) ((idx, oper) ∷ []) (h ci) ((below, fits), tt))
  | no ne ↦ rw (get_or-set_ne rows ci i (get_or rows ci [] ++ (idx, oper) ∷ []) [] ne) (h i)
]

-- `k'` is `k` with the edges of row `idx` to the indices `targets` added in both graphs.
pub record HasEdges (k : Kernel) (idx : ℕ) (targets : List ℕ) (result : Outcome Kernel)
    : Type 0 where
  pub reversed : List (List (ℕ × ℕ))
  pub returns :
      result
      ≡ ok (record k {
        d_graph = set k.d_graph idx (get_or k.d_graph idx [] ++ targets);
        d_reversed_graph = reversed;
      })
  pub same_length : length reversed ≡ length k.d_reversed_graph
  pub keeps :
      (size : ℕ) → idx < size → IsReversed k.d_reversed_graph size → IsReversed reversed size

module _ (nm : NodeManager) (index : Index) (idx : ℕ) where
  add_edge-HasEdges :
      (c oper : ℕ) (k : Kernel)
      → PlacedBelow index idx c
      → idx < length k.d_graph
      → idx ≤ length k.d_reversed_graph
      → HasEdges k idx (place index c ∷ []) (add_edge nm index idx c oper k)
  unfolding add_edge
  add_edge-HasEdges c oper k (ci, at_c, below) lg lr = record {
    reversed = set k.d_reversed_graph ci (get_or k.d_reversed_graph ci [] ++ (idx, oper) ∷ []);
    returns = rw (
      place-eq index c ci at_c,
      at_c,
      get_elem?-get_or k.d_graph idx [] lg,
      get_elem?-get_or k.d_reversed_graph ci [] (omega arith),
    );
    same_length = length-set k.d_reversed_graph ci _;
    keeps = λ size fits h.
        IsReversed-set k.d_reversed_graph size ci idx oper h (omega arith) below fits;
  }

  HasEdges-nil : (k : Kernel) → HasEdges k idx [] (ok k)
  HasEdges-nil k = record {
    reversed = k.d_reversed_graph;
    returns =
        ap (λ g. ok (record k { d_graph = g }))
          (sym (rw (append-nil (get_or k.d_graph idx [])) (set-get_or k.d_graph idx [])));
    same_length = refl;
    keeps = λ size fits h. h;
  }

  -- Edges in two steps.
  HasEdges-bind :
      (first_targets targets : List ℕ) (k : Kernel) (m : Outcome Kernel)
      (f : Kernel → Outcome Kernel)
      → idx < length k.d_graph
      → idx ≤ length k.d_reversed_graph
      → HasEdges k idx first_targets m
      → ((k' : Kernel)
          → idx < length k'.d_graph
          → idx ≤ length k'.d_reversed_graph
          → HasEdges k' idx targets (f k'))
      → HasEdges k idx (first_targets ++ targets) (m >>= f)
  HasEdges-bind first_targets targets k m f lg lr first rest =
      let row = get_or k.d_graph idx [] ++ first_targets in
      let k' = record k { d_graph = set k.d_graph idx row; d_reversed_graph = first.reversed } in
      let next =
        rest k' (omega (arith, length-set k.d_graph idx row)) (omega (arith, first.same_length)) in
      record {
        reversed = next.reversed;
        returns =
            ap (λ r. r >>= f) first.returns
            ∙ next.returns
            ∙ ap (λ g. ok (record k { d_graph = g; d_reversed_graph = next.reversed }))
                (set-append-set k.d_graph idx first_targets targets lg);
        same_length = next.same_length ∙ first.same_length;
        keeps = λ size fits h. next.keeps size fits (first.keeps size fits h);
      }

  -- The loop over the children adds all their indices, in order.
  pub add_children-HasEdges :
      (commutative : Bool) (i : ℕ) (cs : List ℕ) (k : Kernel)
      → All (PlacedBelow index idx) cs
      → idx < length k.d_graph
      → idx ≤ length k.d_reversed_graph
      → HasEdges k idx (map (place index) cs) (add_children nm index idx commutative i cs k)
  unfolding add_children
  add_children-HasEdges commutative i [] k h lg lr = HasEdges-nil k
  add_children-HasEdges commutative i (c ∷ cs) k h lg lr =
      HasEdges-bind (place index c ∷ []) (map (place index) cs) k _ _ lg lr
        (add_edge-HasEdges c (oper_position nm commutative c i) k h.0 lg lr)
        λ k'. add_children-HasEdges commutative (suc i) cs k' h.1

  add_uf-HasEdges :
      (arity : ℕ) (us : List ℕ) (k : Kernel)
      → length us ≤ 1
      → All (PlacedBelow index idx) us
      → idx < length k.d_graph
      → idx ≤ length k.d_reversed_graph
      → HasEdges k idx (map (place index) us) (add_uf nm index idx arity us k)
  unfolding add_uf
  add_uf-HasEdges arity [] k one h lg lr = HasEdges-nil k
  add_uf-HasEdges arity (u ∷ []) k one h lg lr = add_edge-HasEdges u arity k h.0 lg lr
  add_uf-HasEdges arity (u ∷ v ∷ us) k one h lg lr = absurd (omega arith)

  length-uf_node : (n : ℕ) → length (uf_node nm n) ≤ 1
  unfolding uf_node
  length-uf_node n = ground arith

  -- Both loops together: the row of a node holds the indices of its successors.
  pub add_successors-HasEdges :
      (commutative : Bool) (n : ℕ) (k : Kernel)
      → All (PlacedBelow index idx) (successors nm n)
      → idx < length k.d_graph
      → idx ≤ length k.d_reversed_graph
      → HasEdges k idx (map (place index) (successors nm n)) (
          add_children nm index idx commutative 0 (nm.node n).children k >>= λ k'.
          add_uf nm index idx (length (nm.node n).children) (uf_node nm n) k')
  unfolding successors
  add_successors-HasEdges commutative n k h lg lr =
      let (here, there) = All-split _ (nm.node n).children (uf_node nm n) h in
      rw (map-append) (
        HasEdges-bind (map (place index) (nm.node n).children) (map (place index) (uf_node nm n)) k
          _ _ lg lr (add_children-HasEdges commutative 0 (nm.node n).children k here lg lr)
          λ k' lg' lr'.
            add_uf-HasEdges (length (nm.node n).children) (uf_node nm n) k' (length-uf_node n) there
              lg' lr')
