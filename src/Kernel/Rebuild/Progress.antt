-- ===== src/Kernel/Rebuild/Progress.antt =====
-- `rebuild_graph` as a whole.
use mathlib.Core.Path.{subst}
use mathlib.Core.Bool.{true≢false}
use smtstabilizer.Common.{
  ℕ, zero, suc, get_or-set_self, ◌<◌, ◌≡◌, refl, sym, ap, ◌∙◌, arith, Bool, false, not, ◌&&◌, ltb,
  List, [], ◌∷◌, ◌++◌, length, get_or, get_elem?-get_or, set, length-set, All, All-mono, All-and,
  inl, inr, Bool-cases,
}
use smtstabilizer.Common.Outcome.{ok}
use mathlib.Core.List.{Perm}
use smtstabilizer.Common.Maps.{Counts, count_find}
use smtstabilizer.Common.SortBy.{Linked, sort_by-Linked}
use smtstabilizer.Kernel.Rebuild.Rows.{listed, All-listed, remaining, remaining-agree}
use smtstabilizer.Kernel.Rebuild.Order.{InRange, IsBefore, by_context-Compares}
use smtstabilizer.Kernel.State.{Kernel}
use smtstabilizer.Kernel.Propagate.Total.{FitsGraph}
use smtstabilizer.Kernel.Rebuild.{
  Pruning, count_hashes, mark_ambiguous, clear_visited, rebuild_graph,
}
use smtstabilizer.Kernel.Rebuild.Counting.{
  occurrences, hashes_of, count_hashes-occurrences, mark_ambiguous-marks, present,
  occurrences-listed,
}
use smtstabilizer.Kernel.Rebuild.Pruned.{keep_if, prune-HasAdded}

stays_unmarked :
    (visited : List Bool) (n i : ℕ)
    → get_or visited i false ≡ false
    → get_or (set visited n false) i false ≡ false
stays_unmarked [] n i h = h
stays_unmarked (x ∷ xs) zero zero h = refl
stays_unmarked (x ∷ xs) zero (suc i) h = h
stays_unmarked (x ∷ xs) (suc n) zero h = h
stays_unmarked (x ∷ xs) (suc n) (suc i) h = stays_unmarked xs n i h

-- Clearing leaves no processed node marked, and marks no node.
clear_visited-clears :
    (ns : List ℕ) (visited : List Bool)
    → All (λ n. n < length visited) ns
    → (v : List Bool) × (clear_visited ns visited ≡ ok v)
      × ((i : ℕ) → get_or visited i false ≡ false → get_or v i false ≡ false)
      × All (λ n. get_or v n false ≡ false) ns
unfolding clear_visited
clear_visited-clears [] visited below = (visited, refl, (λ i h. h), tt)
clear_visited-clears (n ∷ ns) visited below =
    let (v, returns, keeps, clears) =
      clear_visited-clears ns (set visited n false)
        (All-mono (λ m l. omega (arith, length-set visited n false)) ns below.1) in
    (
      v,
      rw (get_elem?-get_or visited n false below.0) returns,
      (λ i h. keeps i (stays_unmarked visited n i h)),
      (keeps n (get_or-set_self visited n false false below.0), clears),
    )

All-keep_if : (P : ℕ → Type 0) (test : ℕ → Bool) (ns : List ℕ) → All P ns → All P (keep_if test ns)
All-keep_if P test [] h = tt
All-keep_if P test (n ∷ ns) h = elim (Bool-cases (test n)) [
  | inl y ↦ rw y (h.0, All-keep_if P test ns h.1)
  | inr z ↦ rw z (All-keep_if P test ns h.1)
]

keep_if-keep_if :
    (kept symbol : ℕ → Bool) (ns : List ℕ)
    → keep_if (λ n. kept n && symbol n) ns ≡ keep_if symbol (keep_if kept ns)
keep_if-keep_if kept symbol [] = refl
keep_if-keep_if kept symbol (n ∷ ns) =
    let ih = keep_if-keep_if kept symbol ns in
    elim (Bool-cases (kept n)) [ inl y ↦ rw (y, ih) refl | inr z ↦ rw (z, ih) refl ]

keep_if-agree :
    (s t : ℕ → Bool) (ns : List ℕ) → All (λ n. s n ≡ t n) ns → keep_if s ns ≡ keep_if t ns
keep_if-agree s t [] h = refl
keep_if-agree s t (n ∷ ns) h = rw (h.0, keep_if-agree s t ns h.1) refl

-- What `rebuild_graph` relies on: every vector has `size` entries, edges and processed nodes stay
-- below `size`, and no node is marked.
pub record IsReady (k : Kernel) (size : ℕ) : Type 0 where
  pub fits : FitsGraph k size
  pub table : length k.d_hash_table ≡ size
  pub context : length k.d_context_hash ≡ size
  pub visited : length k.d_visited ≡ size
  pub symbol : length k.d_is_symbol ≡ size
  pub processing : All (λ n. n < size) k.d_processing
  pub unmarked : (i : ℕ) → get_or k.d_visited i false ≡ false

-- Whether another processed node has the hash of the node.
abbrev pub is_repeated : Kernel → ℕ → Bool
is_repeated k n =
    ltb 1 (occurrences (get_or k.d_hash_table n 0) (hashes_of k.d_hash_table k.d_processing))

abbrev pub symbols_among : Kernel → List ℕ → List ℕ
symbols_among k ns = keep_if (λ n. get_or k.d_is_symbol n false) ns

All-rows {ℓ κ} :
    {A : Type ℓ} (P : A → Type κ) (d : A) (rows : List A)
    → ((i : ℕ) → P (get_or rows i d))
    → All P rows
All-rows P d [] h = tt
All-rows P d (r ∷ rows) h = (h 0, All-rows P d rows (λ i. h (suc i)))

-- Whether the node is processed and repeated.
abbrev pub is_marked : Kernel → ℕ → Bool
is_marked k i = listed i k.d_processing && is_repeated k i

-- What is left of a row of the graph, with the node that an entry names.
abbrev pub left_of {ℓ} : {A : Type ℓ} → Kernel → (A → ℕ) → ℕ → List A → List A
left_of k key i row = remaining key (is_marked k) k.d_processing i row

-- The first two loops: the marks say which nodes are repeated.
marking :
    (k : Kernel) (size : ℕ)
    → IsReady k size
    → (counts : Counts) × (visited : List Bool) × (count_hashes k.d_hash_table k.d_processing []
        ≡ ok counts)
      × (mark_ambiguous counts k.d_hash_table k.d_processing k.d_visited ≡ ok visited)
      × (length visited ≡ size)
      × All (λ n. get_or visited n false ≡ is_repeated k n) k.d_processing
      × ((i : ℕ) → get_or visited i false ≡ is_marked k i)
marking k size r =
    let table = k.d_hash_table in
    let ns = k.d_processing in
    let (counts, counted_returns, counted) =
      count_hashes-occurrences table ns []
        (All-mono (λ n l. omega (arith, r.table)) ns r.processing) in
    let (visited, marks_return, v_sized, sound, keeps, marks, frame) =
      mark_ambiguous-marks counts table ns k.d_visited
        (All-mono
          (λ n (l, o).
            let (c, found) =
              present (count_find counts (get_or table n 0))
                (omega (arith, counted (get_or table n 0))) in
            (omega (arith, r.table), omega (arith, r.visited), c, found))
          ns (All-and (λ n. n < size) _ ns r.processing (occurrences-listed table ns)))
        (λ i h. absurd (true≢false (sym h ∙ r.unmarked i))) in
    let agrees =
      All-mono (λ n e. e ∙ ap (λ c. ltb 1 c) (omega (arith, counted (get_or table n 0)))) ns
        marks in
    (
      counts,
      visited,
      counted_returns,
      marks_return,
      v_sized ∙ r.visited,
      agrees,
      (λ i. elim (Bool-cases (listed i ns)) [
        | inl l ↦ rw l (All-listed (λ n. get_or visited n false ≡ is_repeated k n) ns i agrees l)
        | inr out ↦ rw out (frame i out ∙ r.unmarked i)
      ]),
    )

-- Whether the node is a symbol whose hash no other processed node has.
abbrev pub is_resolved : Kernel → ℕ → Bool
is_resolved k n = not (is_repeated k n) && get_or k.d_is_symbol n false

-- On a graph that stays in range and with no node marked, `rebuild_graph` throws nothing. The nodes
-- that it keeps are those whose hash another processed node has, in their order; the symbols that
-- it keeps are the symbols among them. The resolved symbols are followed by the other processed
-- symbols, each as often as it is listed, in the order of their context hashes and, where these are
-- equal, of their hashes. The rows of a processed node that is not kept become empty, from those of
-- a kept node the nodes go that are not kept, and all other rows stay as they are, in both
-- directions. No node is left marked.
pub rebuild_graph-progress :
    (k : Kernel) (size : ℕ)
    → IsReady k size
    → (k' : Kernel) × (rebuild_graph k ≡ ok k')
      × (k'.d_processing ≡ keep_if (is_repeated k) k.d_processing)
      × (k'.d_symbols ≡ symbols_among k k'.d_processing)
      × ((us : List ℕ) × (k'.d_unique_symbols ≡ k.d_unique_symbols ++ us)
          × Perm (keep_if (is_resolved k) k.d_processing) us
          × Linked (IsBefore k.d_context_hash k.d_hash_table) us)
      × ((i : ℕ) → get_or k'.d_graph i [] ≡ left_of k (λ c. c) i (get_or k.d_graph i []))
      × ((i : ℕ)
          → get_or k'.d_reversed_graph i []
            ≡ left_of k (λ e. e.0) i (get_or k.d_reversed_graph i []))
      × ((i : ℕ) → get_or k'.d_visited i false ≡ false)
unfolding rebuild_graph
rebuild_graph-progress k size r =
    let ns = k.d_processing in
    let (counts, visited, counted, marked, sized, marks, everywhere) = marking k size r in
    let start : Pruning = record {
      d_graph = k.d_graph;
      d_reversed_graph = k.d_reversed_graph;
      unique_symbols = [];
      new_processing = [];
      d_symbols = [];
    } in
    let (p, pruned, added) =
      prune-HasAdded size visited k.d_is_symbol sized r.symbol ns start r.processing (record {
        graph = r.fits.graph;
        reversed = r.fits.reversed;
        children = All-rows _ [] k.d_graph r.fits.children;
        parents = All-rows _ [] k.d_reversed_graph r.fits.parents;
      }) in
    let kept : ℕ → Bool = λ n. get_or visited n false in
    let symbol : ℕ → Bool = λ n. get_or k.d_is_symbol n false in
    let unique_ranged = subst (All (InRange k.d_context_hash k.d_hash_table)) (sym added.unique) (
      All-keep_if _ (λ n. not (kept n) && symbol n) ns
        (All-mono (λ n l. (omega (arith, r.context), omega (arith, r.table))) ns r.processing)) in
    let (unique, sorted, same, _, linked) =
      sort_by-Linked (by_context-Compares k.d_context_hash k.d_hash_table) p.unique_symbols
        unique_ranged in
    let (cleared, returns, keeps, clears) =
      clear_visited-clears ns visited (All-mono (λ n l. omega (arith, sized)) ns r.processing) in
    (
      record k {
        d_graph = p.d_graph;
        d_reversed_graph = p.d_reversed_graph;
        d_symbols = p.d_symbols;
        d_unique_symbols = k.d_unique_symbols ++ unique;
        d_visited = cleared;
        d_processing = p.new_processing;
      },
      rw (counted, marked, pruned, sorted, returns) refl,
      added.processing ∙ keep_if-agree kept (is_repeated k) ns marks,
      added.symbols ∙ keep_if-keep_if kept symbol ns ∙ ap (keep_if symbol) (sym added.processing),
      (
        unique,
        refl,
        subst (λ l. Perm l unique)
            (added.unique
              ∙ keep_if-agree (λ n. not (kept n) && symbol n) (is_resolved k) ns
                  (All-mono (λ n e. ap (λ b. not b && symbol n) e) ns marks))
            same,
        linked,
      ),
      (λ i. added.rows i ∙ remaining-agree (λ c. c) kept (is_marked k) ns i _ everywhere),
      (λ i. added.parent_rows i ∙ remaining-agree (λ e. e.0) kept (is_marked k) ns i _ everywhere),
      (λ i. elim (Bool-cases (listed i ns)) [
        | inl l ↦ All-listed (λ n. get_or cleared n false ≡ false) ns i clears l
        | inr out ↦ keeps i (everywhere i ∙ rw out refl)
      ]),
    )
