-- ===== src/Kernel/Rebuild.antt =====
-- `Kernel::rebuild_graph` (src/kernel/kernel.cpp).
pub mod Counting
pub mod Pruned
pub mod Order
pub mod Rows
pub mod Progress
use smtstabilizer.Common.{ℕ, Bool, true, false, if◌then◌else◌, ◌==◌, ltb, List, [], ◌∷◌, ◌++◌, set}
use smtstabilizer.Common.Outcome.{Outcome, ok, ◌>>=◌, at, put_at, from_option}
use smtstabilizer.Common.Maps.{Counts, count_find, bump, sort_by}
use smtstabilizer.Kernel.State.{Kernel}

-- The loop that fills `hash_count`.
unfoldable pub count_hashes : List ℕ → List ℕ → Counts → Outcome Counts
count_hashes table [] counts = ok counts
count_hashes table (n ∷ ns) counts = at table n >>= λ h. count_hashes table ns (bump h counts)

-- The loop that marks the nodes whose hash is not unique.
unfoldable pub mark_ambiguous : Counts → List ℕ → List ℕ → List Bool → Outcome (List Bool)
mark_ambiguous counts table [] visited = ok visited
mark_ambiguous counts table (n ∷ ns) visited = at table n >>= λ h.
    from_option (count_find counts h) >>= λ c.
    (if ltb 1 c then put_at visited n true else ok visited) >>= λ visited'.
    mark_ambiguous counts table ns visited'

-- The `remove_if` of a row: what is marked stays.
unfoldable pub keep_visited {ℓ} : {A : Type ℓ} → (A → ℕ) → List Bool → List A → Outcome (List A)
keep_visited key visited [] = ok []
keep_visited key visited (x ∷ xs) = at visited (key x) >>= λ v.
    keep_visited key visited xs >>= λ rest. ok (if v then x ∷ rest else rest)

-- The locals of the third loop, with the members that it writes.
pub record Pruning : Type 0 where
  pub d_graph : List (List ℕ)
  pub d_reversed_graph : List (List (ℕ × ℕ))
  pub unique_symbols : List ℕ
  pub new_processing : List ℕ
  pub d_symbols : List ℕ

module _ (visited is_symbol : List Bool) where
  -- The branch of a node with a unique hash.
  unfoldable pub drop_node : ℕ → Pruning → Outcome Pruning
  drop_node n p = put_at p.d_graph n [] >>= λ graph. put_at p.d_reversed_graph n [] >>= λ reversed.
      at is_symbol n >>= λ s. ok (record p {
        d_graph = graph;
        d_reversed_graph = reversed;
        unique_symbols = if s then p.unique_symbols ++ n ∷ [] else p.unique_symbols;
      })

  -- The rest of the loop's body. The test of `d_visited` in the last `if` has been made.
  unfoldable pub keep_node : ℕ → Pruning → Outcome Pruning
  unfolding keep_visited
  keep_node n p = at p.d_graph n >>= λ row. keep_visited (λ c. c) visited row >>= λ row'.
      at p.d_reversed_graph n >>= λ parents. keep_visited (λ e. e.0) visited parents >>= λ parents'.
      at is_symbol n >>= λ s. ok (record p {
        d_graph = set p.d_graph n row';
        d_reversed_graph = set p.d_reversed_graph n parents';
        new_processing = p.new_processing ++ n ∷ [];
        d_symbols = if s then p.d_symbols ++ n ∷ [] else p.d_symbols;
      })

  unfoldable pub prune : List ℕ → Pruning → Outcome Pruning
  unfolding drop_node keep_node
  prune [] p = ok p
  prune (n ∷ ns) p =
      at visited n >>= λ v. (if v then keep_node n p else drop_node n p) >>= λ p'. prune ns p'

-- The comparison of the unique symbols: by context hash, and by hash between equals. Their hashes
-- are distinct, so the order that `std::sort` leaves them in is determined.
unfoldable pub by_context : List ℕ → List ℕ → ℕ → ℕ → Outcome Bool
by_context context table a b = at context a >>= λ ca. at context b >>= λ cb.
    if ca == cb then (at table a >>= λ ha. at table b >>= λ hb. ok (ltb ha hb)) else ok (ltb ca cb)

unfoldable pub clear_visited : List ℕ → List Bool → Outcome (List Bool)
clear_visited [] visited = ok visited
clear_visited (n ∷ ns) visited = put_at visited n false >>= λ v. clear_visited ns v

unfoldable pub rebuild_graph : Kernel → Outcome Kernel
unfolding count_hashes mark_ambiguous prune by_context clear_visited
rebuild_graph k = count_hashes k.d_hash_table k.d_processing [] >>= λ counts.
    mark_ambiguous counts k.d_hash_table k.d_processing k.d_visited >>= λ visited.
    prune visited k.d_is_symbol k.d_processing (record {
      d_graph = k.d_graph;
      d_reversed_graph = k.d_reversed_graph;
      unique_symbols = [];
      new_processing = [];
      d_symbols = [];
    })
    >>= λ p. sort_by (by_context k.d_context_hash k.d_hash_table) p.unique_symbols >>= λ unique.
        clear_visited k.d_processing visited >>= λ visited'. ok (record k {
          d_graph = p.d_graph;
          d_reversed_graph = p.d_reversed_graph;
          d_symbols = p.d_symbols;
          d_unique_symbols = k.d_unique_symbols ++ unique;
          d_visited = visited';
          d_processing = p.new_processing;
        })
