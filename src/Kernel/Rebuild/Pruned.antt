-- ===== src/Kernel/Rebuild/Pruned.antt =====
-- The third loop of `rebuild_graph`: which nodes and symbols it keeps, and that it throws nothing.
use mathlib.Core.List.{append_assoc, append-nil}
use smtstabilizer.Common.{
  ℕ, ◌<◌, ◌≡◌, refl, sym, ap, ◌∙◌, arith, Bool, true, false, not, ◌&&◌, if◌then◌else◌, List, [],
  ◌∷◌, ◌++◌, length, get_or, get_elem?-get_or, set, length-set, All, All-mono, All-set, All-get_or,
  inl, inr, Bool-cases,
}
use smtstabilizer.Common.Outcome.{ok}
use smtstabilizer.Kernel.Rebuild.Rows.{
  keep_by, pruned_row, remaining, remaining_both, remaining_one,
}
use smtstabilizer.Kernel.Rebuild.{Pruning, keep_visited, drop_node, keep_node, prune}

abbrev pub keep_if : (ℕ → Bool) → List ℕ → List ℕ
keep_if test [] = []
keep_if test (n ∷ ns) = let rest = keep_if test ns in if test n then n ∷ rest else rest

keep_visited-keep_by {ℓ} :
    {A : Type ℓ} (key : A → ℕ) (visited : List Bool) (xs : List A)
    → All (λ x. key x < length visited) xs
    → (keep_visited key visited xs ≡ ok (keep_by key (λ n. get_or visited n false) xs))
      × All (λ x. key x < length visited) (keep_by key (λ n. get_or visited n false) xs)
unfolding keep_visited
keep_visited-keep_by key visited [] below = (refl, tt)
keep_visited-keep_by key visited (x ∷ xs) below =
    let (returns, kept) = keep_visited-keep_by key visited xs below.1 in
    elim (Bool-cases (get_or visited (key x) false)) [
      | inl y ↦
          rw y
            (rw (get_elem?-get_or visited (key x) false below.0, returns, y) refl, (below.0, kept))
      | inr z ↦ rw z (rw (get_elem?-get_or visited (key x) false below.0, returns, z) refl, kept)
    ]

added_if :
    (b : Bool) (xs : List ℕ) (n : ℕ)
    → (if b then xs ++ n ∷ [] else xs) ≡ xs ++ (if b then n ∷ [] else [])
added_if true xs n = refl
added_if false xs n = sym (append-nil xs)

keep_if-cons :
    (test : ℕ → Bool) (n : ℕ) (ns : List ℕ)
    → keep_if test (n ∷ ns) ≡ keep_if test (n ∷ []) ++ keep_if test ns
keep_if-cons test n ns = elim (Bool-cases (test n)) [ inl y ↦ rw y refl | inr z ↦ rw z refl ]

-- Adding the nodes of `n ∷ ns` one part after the other.
added_both :
    (test : ℕ → Bool) (n : ℕ) (ns xs : List ℕ) {ys zs : List ℕ}
    → ys ≡ xs ++ keep_if test (n ∷ [])
    → zs ≡ ys ++ keep_if test ns
    → zs ≡ xs ++ keep_if test (n ∷ ns)
added_both test n ns xs p q =
    q
    ∙ ap (λ l. l ++ keep_if test ns) p
    ∙ append_assoc xs (keep_if test (n ∷ [])) (keep_if test ns)
    ∙ ap (λ l. xs ++ l) (sym (keep_if-cons test n ns))

-- The vectors have `size` rows, and every edge stays below `size`.
pub record IsPrunable (size : ℕ) (p : Pruning) : Type 0 where
  pub graph : length p.d_graph ≡ size
  pub reversed : length p.d_reversed_graph ≡ size
  pub children : All (λ row. All (λ c. c < size) row) p.d_graph
  pub parents : All (λ row. All (λ e. e.0 < size) row) p.d_reversed_graph

module _ (size : ℕ) (visited is_symbol : List Bool) (v_sized : length visited ≡ size)
    (s_sized : length is_symbol ≡ size) where
  abbrev pub is_kept : ℕ → Bool
  is_kept n = get_or visited n false

  abbrev pub symbol_at : ℕ → Bool
  symbol_at n = get_or is_symbol n false

  -- `p'` is `p` with the nodes and the symbols of `ns` added.
  pub record HasAdded (ns : List ℕ) (p p' : Pruning) : Type 0 where
    pub prunable : IsPrunable size p'
    pub processing : p'.new_processing ≡ p.new_processing ++ keep_if is_kept ns
    pub unique :
        p'.unique_symbols ≡ p.unique_symbols ++ keep_if (λ n. not (is_kept n) && symbol_at n) ns
    pub rows :
        (i : ℕ) → get_or p'.d_graph i [] ≡ remaining (λ c. c) is_kept ns i (get_or p.d_graph i [])
    pub parent_rows :
        (i : ℕ)
        → get_or p'.d_reversed_graph i []
          ≡ remaining (λ e. e.0) is_kept ns i (get_or p.d_reversed_graph i [])
    pub symbols : p'.d_symbols ≡ p.d_symbols ++ keep_if (λ n. is_kept n && symbol_at n) ns

  dropped {κ} :
      {A : Type κ} (key : A → ℕ) (n : ℕ) (row : List A)
      → is_kept n ≡ false
      → pruned_row key is_kept n row ≡ []
  dropped key n row out = rw out refl

  kept_row {κ} :
      {A : Type κ} (key : A → ℕ) (n : ℕ) (row : List A)
      → is_kept n ≡ true
      → pruned_row key is_kept n row ≡ keep_by key is_kept row
  kept_row key n row here = rw here refl

  drop_node-HasAdded :
      (n : ℕ) (p : Pruning)
      → n < size
      → is_kept n ≡ false
      → IsPrunable size p
      → (p' : Pruning) × (drop_node visited is_symbol n p ≡ ok p') × HasAdded (n ∷ []) p p'
  unfolding drop_node
  drop_node-HasAdded n p l out h = (
    record p {
      d_graph = set p.d_graph n [];
      d_reversed_graph = set p.d_reversed_graph n [];
      unique_symbols = if symbol_at n then p.unique_symbols ++ n ∷ [] else p.unique_symbols;
    },
    rw
        (
          get_elem?-get_or p.d_graph n [] (omega (arith, h.graph)),
          get_elem?-get_or p.d_reversed_graph n [] (omega (arith, h.reversed)),
          get_elem?-get_or is_symbol n false (omega arith),
        )
        refl,
    record {
      prunable = record {
        graph = length-set p.d_graph n [] ∙ h.graph;
        reversed = length-set p.d_reversed_graph n [] ∙ h.reversed;
        children = All-set _ p.d_graph n [] h.children tt;
        parents = All-set _ p.d_reversed_graph n [] h.parents tt;
      };
      rows = λ i.
          sym (ap (λ row. get_or (set p.d_graph n row) i []) (dropped (λ c. c) n _ out))
          ∙ remaining_one (λ c. c) is_kept p.d_graph n i (omega (arith, h.graph));
      parent_rows = λ i.
          sym (ap (λ row. get_or (set p.d_reversed_graph n row) i []) (dropped (λ e. e.0) n _ out))
          ∙ remaining_one (λ e. e.0) is_kept p.d_reversed_graph n i (omega (arith, h.reversed));
      processing = rw out (sym (append-nil p.new_processing));
      unique = rw out (added_if (symbol_at n) p.unique_symbols n);
      symbols = rw out (sym (append-nil p.d_symbols));
    },
  )

  keep_node-HasAdded :
      (n : ℕ) (p : Pruning)
      → n < size
      → is_kept n ≡ true
      → IsPrunable size p
      → (p' : Pruning) × (keep_node visited is_symbol n p ≡ ok p') × HasAdded (n ∷ []) p p'
  unfolding keep_node
  keep_node-HasAdded n p l here h =
      let row = keep_by (λ c. c) is_kept (get_or p.d_graph n []) in
      let parents = keep_by (λ e. e.0) is_kept (get_or p.d_reversed_graph n []) in
      let (row_kept, row_below) =
        keep_visited-keep_by (λ c. c) visited (get_or p.d_graph n [])
          (All-mono (λ c b. omega arith) _ (All-get_or _ p.d_graph n [] h.children tt)) in
      let (parents_kept, parents_below) =
        keep_visited-keep_by (λ e. e.0) visited (get_or p.d_reversed_graph n [])
          (All-mono (λ e b. omega arith) _ (All-get_or _ p.d_reversed_graph n [] h.parents tt)) in
      (
        record p {
          d_graph = set p.d_graph n row;
          d_reversed_graph = set p.d_reversed_graph n parents;
          new_processing = p.new_processing ++ n ∷ [];
          d_symbols = if symbol_at n then p.d_symbols ++ n ∷ [] else p.d_symbols;
        },
        rw
            (
              get_elem?-get_or p.d_graph n [] (omega (arith, h.graph)),
              row_kept,
              get_elem?-get_or p.d_reversed_graph n [] (omega (arith, h.reversed)),
              parents_kept,
              get_elem?-get_or is_symbol n false (omega arith),
            )
            refl,
        record {
          prunable = record {
            graph = length-set p.d_graph n row ∙ h.graph;
            reversed = length-set p.d_reversed_graph n parents ∙ h.reversed;
            children =
                All-set _ p.d_graph n row h.children (All-mono (λ c b. omega arith) row row_below);
            parents =
                All-set _ p.d_reversed_graph n parents h.parents
                  (All-mono (λ e b. omega arith) parents parents_below);
          };
          rows = λ i.
              sym (ap (λ r. get_or (set p.d_graph n r) i []) (kept_row (λ c. c) n _ here))
              ∙ remaining_one (λ c. c) is_kept p.d_graph n i (omega (arith, h.graph));
          parent_rows = λ i.
              sym
                (ap (λ r. get_or (set p.d_reversed_graph n r) i []) (kept_row (λ e. e.0) n _ here))
              ∙ remaining_one (λ e. e.0) is_kept p.d_reversed_graph n i (omega (arith, h.reversed));
          processing = rw here refl;
          unique = rw here (sym (append-nil p.unique_symbols));
          symbols = rw here (added_if (symbol_at n) p.d_symbols n);
        },
      )

  -- The loop as a whole.
  pub prune-HasAdded :
      (ns : List ℕ) (p : Pruning)
      → All (λ n. n < size) ns
      → IsPrunable size p
      → (p' : Pruning) × (prune visited is_symbol ns p ≡ ok p') × HasAdded ns p p'
  unfolding prune
  prune-HasAdded [] p below h = (
    p,
    refl,
    record {
      prunable = h;
      rows = λ i. refl;
      parent_rows = λ i. refl;
      processing = sym (append-nil p.new_processing);
      unique = sym (append-nil p.unique_symbols);
      symbols = sym (append-nil p.d_symbols);
    },
  )
  prune-HasAdded (n ∷ ns) p below h =
      let round : (q : Pruning) × ((if is_kept n
              then keep_node visited is_symbol n p
              else drop_node visited is_symbol n p)
            ≡ ok q)
          × HasAdded (n ∷ []) p q =
        elim (Bool-cases (is_kept n)) [
          | inl y ↦ rw y (keep_node-HasAdded n p below.0 y h)
          | inr z ↦ rw z (drop_node-HasAdded n p below.0 z h)
        ] in
      let (q, first, added) = round in
      let (r, returns, rest) = prune-HasAdded ns q below.1 added.prunable in
      (
        r,
        rw (get_elem?-get_or visited n false (omega arith), first) returns,
        record {
          prunable = rest.prunable;
          rows = λ i.
              rest.rows i
              ∙ ap (remaining (λ c. c) is_kept ns i) (added.rows i)
              ∙ remaining_both (λ c. c) is_kept n ns i (get_or p.d_graph i []);
          parent_rows = λ i.
              rest.parent_rows i
              ∙ ap (remaining (λ e. e.0) is_kept ns i) (added.parent_rows i)
              ∙ remaining_both (λ e. e.0) is_kept n ns i (get_or p.d_reversed_graph i []);
          processing = added_both is_kept n ns p.new_processing added.processing rest.processing;
          unique = added_both _ n ns p.unique_symbols added.unique rest.unique;
          symbols = added_both _ n ns p.d_symbols added.symbols rest.symbols;
        },
      )
