-- ===== src/Kernel/Specific.antt =====
-- `Kernel::specific_propagate` (src/kernel/kernel.cpp).
use smtstabilizer.Common.{
  ℕ, zero, suc, Bool, true, if◌then◌else◌, ◌==◌, List, [], ◌∷◌, ◌++◌, map, Option, none, some, set,
}
use smtstabilizer.Common.Outcome.{Outcome, ok, err, out_of_fuel, ◌>>=◌, at}
use smtstabilizer.Common.Maps.{Counts, count_find, count_or_zero, bump}
use smtstabilizer.Common.Sorting.{sort}
use smtstabilizer.Hash.{hash_combine, hash_communative_children}
use smtstabilizer.Kernel.State.{Kernel}
use smtstabilizer.Kernel.Propagate.{Static}
use smtstabilizer.Kernel.Context.{hashes_at, context_propagate}
use smtstabilizer.Kernel.Rebuild.{clear_visited}

-- The locals of the search for one region, with `d_visited`.
pub record Region : Type 0 where
  pub visited : List Bool
  pub stack : List ℕ
  pub processing : List ℕ
  pub symbols : List ℕ

-- One of the two loops over neighbours: marks and pushes those not visited yet.
unfoldable pub push_unvisited : List ℕ → List Bool → List ℕ → Outcome (List Bool × List ℕ)
push_unvisited [] visited stack = ok (visited, stack)
push_unvisited (n ∷ ns) visited stack = at visited n >>= λ v.
    if v
    then push_unvisited ns visited stack
    else push_unvisited ns (set visited n true) (n ∷ stack)

module _ (k : Kernel) where
  -- One round of the `while`, with `current` taken off the stack.
  unfoldable pub explore_step : ℕ → List ℕ → Region → Outcome Region
  unfolding push_unvisited
  explore_step current rest r = at k.d_is_symbol current >>= λ s.
      at k.d_reversed_graph current >>= λ fathers.
      push_unvisited (map (λ e. e.0) fathers) r.visited rest >>= λ p.
      at k.d_graph current >>= λ children. push_unvisited children p.0 p.1 >>= λ q. ok (record {
        visited = q.0;
        stack = q.1;
        processing = r.processing ++ current ∷ [];
        symbols = if s then r.symbols ++ current ∷ [] else r.symbols;
      })

  unfoldable pub explore : ℕ → Region → Outcome Region
  unfolding explore_step
  explore zero r = elim r.stack [ [] ↦ ok r | _ ∷ _ ↦ err out_of_fuel ]
  explore (suc fuel) r = elim r.stack [
    | [] ↦ ok r
    | current ∷ rest ↦ explore_step current rest r >>= λ r'. explore fuel r'
  ]

-- The loop that mixes the fingerprint of the region and its count into every node of it.
unfoldable pub mix_region : ℕ → ℕ → List ℕ → List ℕ → Outcome (List ℕ)
mix_region symbols_hash count [] table = ok table
mix_region symbols_hash count (n ∷ ns) table = at table n >>= λ h.
    mix_region symbols_hash count ns
      (set table n (hash_combine (hash_combine h symbols_hash) count))

-- The first hash of a sorted vector that equals its predecessor: `idx_hash`, if `is_select`.
unfoldable pub first_duplicate : List ℕ → Option ℕ
first_duplicate [] = none
first_duplicate (x ∷ []) = none
first_duplicate (x ∷ y ∷ ys) =
    let rest = first_duplicate (y ∷ ys) in if y == x then some y else rest

-- The first symbol with that hash, and 0 where there is none.
unfoldable pub select_symbol : ℕ → List ℕ → List ℕ → Outcome ℕ
select_symbol idx_hash table [] = ok 0
select_symbol idx_hash table (s ∷ symbols) =
    at table s >>= λ h. if h == idx_hash then ok s else select_symbol idx_hash table symbols

-- The branch on `is_select`.
unfoldable pub perturb :
    ℕ → List ℕ → List ℕ → Option ℕ → Static → Kernel → Outcome (Static × Kernel)
unfolding select_symbol context_propagate
perturb fuel processing symbols none static k = ok (static, k)
perturb fuel processing symbols (some idx_hash) static k =
    select_symbol idx_hash k.d_hash_table symbols >>= λ idx. at k.d_hash_table idx >>= λ h.
    context_propagate fuel (sort processing) symbols static
      (record k { d_hash_table = set k.d_hash_table idx (hash_combine h 0) })

-- The body of the loop for a symbol that has not been visited.
unfoldable pub settle_region : ℕ → ℕ → Counts → Static → Kernel → Outcome (Counts × Static × Kernel)
unfolding explore mix_region first_duplicate perturb hashes_at
settle_region fuel node counts static k =
    explore k fuel (record {
      visited = set k.d_visited node true;
      stack = node ∷ [];
      processing = [];
      symbols = [];
    })
    >>= λ r. hash_communative_children 0 r.symbols k.d_hash_table >>= λ symbols_hash.
        let counts' = bump symbols_hash counts in
        let count = count_or_zero (count_find counts' symbols_hash) in
        mix_region symbols_hash count r.processing k.d_hash_table >>= λ table.
        hashes_at table r.symbols >>= λ hs.
        perturb fuel r.processing r.symbols (first_duplicate (sort hs)) static
          (record k { d_visited = r.visited; d_hash_table = table })
        >>= λ out. ok (counts', out.0, out.1)

unfoldable pub settle_regions : ℕ → List ℕ → Counts → Static → Kernel → Outcome (Static × Kernel)
unfolding settle_region
settle_regions fuel [] counts static k = ok (static, k)
settle_regions fuel (n ∷ ns) counts static k = at k.d_visited n >>= λ v.
    if v
    then settle_regions fuel ns counts static k
    else (settle_region fuel n counts static k >>= λ out. settle_regions fuel ns out.0 out.1 out.2)

unfoldable pub specific_propagate : ℕ → Static → Kernel → Outcome (Static × Kernel)
unfolding settle_regions clear_visited
specific_propagate fuel static k = settle_regions fuel k.d_symbols [] static k >>= λ out.
    clear_visited out.1.d_processing out.1.d_visited >>= λ visited.
    ok (out.0, record out.1 { d_visited = visited })
