-- ===== src/Kernel/Propagate/Total.antt =====
-- On a graph whose edges stay in range the two loops of `Kernel::propagate` throw nothing, and each
-- is a pass with the hash of a row as its value.
use smtstabilizer.Common.{
  ℕ, ◌+◌, ◌^◌, ◌<◌, ◌≡◌, refl, sym, ap, ◌∙◌, arith, Bool, true, false, reverse, All-reverse,
  if◌then◌else◌, List, [], ◌∷◌, length, get_or, set, is_empty, All, All-mono, All-set, All-get_or,
  Bool-cases, inl, inr, length-set, get_elem?-get_or, set-get_or,
}
use smtstabilizer.Common.Outcome.{Outcome, ok, ◌>>=◌}
use smtstabilizer.Hash.{u64, hash_combine}
use smtstabilizer.Hash.Mix.{hash_combine-lt}
use smtstabilizer.Hash.Commutative.{
  read, read_parents, combine_all, sum_combined, sum_parents, hash_children-combine_all,
  hash_communative_children-sum, hash_parents-sum,
}
use smtstabilizer.Kernel.State.{Kernel}
use smtstabilizer.Kernel.Propagate.{
  Static, rehash, forward_step, backward_step, forward, backward, propagate,
}
use smtstabilizer.Kernel.Propagate.Pass.{entry, pass, NotIn, length-pass, pass-outside}

-- Every edge stays below `size`, and every vector has `size` entries.
pub record FitsGraph (k : Kernel) (size : ℕ) : Type 0 where
  pub graph : length k.d_graph ≡ size
  pub reversed : length k.d_reversed_graph ≡ size
  pub commutative : length k.d_is_commutative ≡ size
  pub children : (i : ℕ) → All (λ c. c < size) (get_or k.d_graph i [])
  pub parents : (i : ℕ) → All (λ e. e.0 < size) (get_or k.d_reversed_graph i [])

unfoldable pub rehash_value : Bool → ℕ → List ℕ → ℕ
rehash_value commutative seed hs =
    if commutative then u64 (seed + sum_combined seed hs) else combine_all seed hs

rehash-value :
    (commutative : Bool) (seed : ℕ) (cs table : List ℕ)
    → seed < 2 ^ 64
    → All (λ c. c < length table) cs
    → rehash commutative seed cs table ≡ ok (rehash_value commutative seed (read table cs))
unfolding rehash rehash_value
rehash-value Bool.true seed cs table l h = hash_communative_children-sum seed cs table l h
rehash-value Bool.false seed cs table l h = hash_children-combine_all seed cs table h

module _ (k : Kernel) where
  -- The value that the first loop gives to a node.
  unfoldable pub forward_value : ℕ → ℕ → List ℕ → ℕ
  forward_value n seed table =
      let cs = get_or k.d_graph n [] in
      if is_empty cs
      then seed
      else rehash_value (get_or k.d_is_commutative n false) seed (read table cs)

  unfoldable pub backward_value : ℕ → ℕ → List ℕ → ℕ
  backward_value n seed table =
      let ps = get_or k.d_reversed_graph n [] in
      if is_empty ps then seed else u64 (seed + sum_parents seed (read_parents table ps))

  module _ (size : ℕ) (fits : FitsGraph k size) where
    forward_step-value :
        (table : List ℕ) (n : ℕ)
        → length table ≡ size
        → All (λ h. h < 2 ^ 64) table
        → n < size
        → forward_step k table n ≡ ok (set table n (forward_value n (entry table n) table))
    unfolding forward_step forward_value
    forward_step-value table n sized range l =
        let cs = get_or k.d_graph n [] in
        rw (get_elem?-get_or k.d_graph n [] (omega (arith, fits.graph)))
          (elim (Bool-cases (is_empty cs)) [
            | inl e ↦ rw e (ap ok (sym (set-get_or table n 0)))
            | inr e ↦ rw (
              e,
              get_elem?-get_or k.d_is_commutative n false (omega (arith, fits.commutative)),
              get_elem?-get_or table n 0 (omega arith),
              rehash-value (get_or k.d_is_commutative n false) (get_or table n 0) cs table
                  (All-get_or _ table n 0 range (omega arith))
                  (All-mono (λ c h. omega arith) _ (fits.children n)),
            )
          ])

    backward_step-value :
        (table : List ℕ) (n : ℕ)
        → length table ≡ size
        → All (λ h. h < 2 ^ 64) table
        → n < size
        → backward_step k table n ≡ ok (set table n (backward_value n (entry table n) table))
    unfolding backward_step backward_value
    backward_step-value table n sized range l =
        let ps = get_or k.d_reversed_graph n [] in
        rw (get_elem?-get_or k.d_reversed_graph n [] (omega (arith, fits.reversed)))
          (elim (Bool-cases (is_empty ps)) [
            | inl e ↦ rw e (ap ok (sym (set-get_or table n 0)))
            | inr e ↦ rw (
              e,
              get_elem?-get_or table n 0 (omega arith),
              hash_parents-sum (get_or table n 0) ps table
                  (All-get_or _ table n 0 range (omega arith))
                  (All-mono (λ c h. omega arith) _ (fits.parents n)),
            )
          ])

combine_all-lt : (seed : ℕ) (hs : List ℕ) → seed < 2 ^ 64 → combine_all seed hs < 2 ^ 64
unfolding combine_all
combine_all-lt seed [] l = l
combine_all-lt seed (h ∷ hs) l = combine_all-lt (hash_combine seed h) hs (hash_combine-lt seed h)

rehash_value-lt :
    (c : Bool) (seed : ℕ) (hs : List ℕ) → seed < 2 ^ 64 → rehash_value c seed hs < 2 ^ 64
unfolding rehash_value
rehash_value-lt Bool.true seed hs l = omega arith
rehash_value-lt Bool.false seed hs l = combine_all-lt seed hs l

-- A value of a pass that keeps 64-bit words.
abbrev pub IsRanged : (ℕ → ℕ → List ℕ → ℕ) → Type 0
IsRanged F = (n seed : ℕ) (table : List ℕ) → seed < 2 ^ 64 → F n seed table < 2 ^ 64

pub forward_value-IsRanged : (k : Kernel) → IsRanged (forward_value k)
unfolding forward_value
forward_value-IsRanged k n seed table l = elim (Bool-cases (is_empty (get_or k.d_graph n []))) [
  | inl e ↦ rw e l
  | inr e ↦ rw e (rehash_value-lt (get_or k.d_is_commutative n false) seed _ l)
]

pub backward_value-IsRanged : (k : Kernel) → IsRanged (backward_value k)
unfolding backward_value
backward_value-IsRanged k n seed table l =
    elim (Bool-cases (is_empty (get_or k.d_reversed_graph n []))) [
      | inl e ↦ rw e l
      | inr e ↦ rw e (omega arith)
    ]

module _ (F : ℕ → ℕ → List ℕ → ℕ) (ranged : IsRanged F) where
  pub pass-range :
      (table ns : List ℕ) → All (λ h. h < 2 ^ 64) table → All (λ h. h < 2 ^ 64) (pass F table ns)
  unfolding pass
  pass-range table [] range = range
  pass-range table (n ∷ ns) range = pass-range (set table n (F n (entry table n) table)) ns (
      All-set _ table n _ range
        (ranged n (entry table n) table (All-get_or _ table n 0 range (omega arith))))

  -- A loop whose rounds write the values of `F` is the pass of `F`.
  loop-pass :
      (size : ℕ) (step : List ℕ → ℕ → Outcome (List ℕ)) (loop : List ℕ → List ℕ → Outcome (List ℕ))
      → ((t : List ℕ) → loop t [] ≡ ok t)
      → ((t : List ℕ) (n : ℕ) (ns : List ℕ) → loop t (n ∷ ns) ≡ (step t n >>= λ u. loop u ns))
      → ((t : List ℕ) (n : ℕ)
          → length t ≡ size
          → All (λ h. h < 2 ^ 64) t
          → n < size
          → step t n ≡ ok (set t n (F n (entry t n) t)))
      → (table ns : List ℕ) → length table ≡ size
      → All (λ h. h < 2 ^ 64) table
      → All (λ n. n < size) ns
      → loop table ns ≡ ok (pass F table ns)
  unfolding pass
  loop-pass size step loop stop go value table [] sized range below = stop table
  loop-pass size step loop stop go value table (n ∷ ns) sized range below =
      let t = set table n (F n (entry table n) table) in
      go table n ns
      ∙ ap (λ m. m >>= λ u. loop u ns) (value table n sized range below.0)
      ∙ loop-pass size step loop stop go value t ns (length-set table n _ ∙ sized)
          (All-set _ table n _ range
            (ranged n (entry table n) table (All-get_or _ table n 0 range (omega arith))))
          below.1

-- The table that `propagate` leaves when context propagation is on.
unfoldable pub context_table : Kernel → List ℕ → List ℕ → List ℕ
context_table k table ns = pass (backward_value k) (pass (forward_value k) table ns) (reverse ns)

module _ (k : Kernel) (size : ℕ) (fits : FitsGraph k size) where
  pub forward-pass :
      (table ns : List ℕ)
      → length table ≡ size
      → All (λ h. h < 2 ^ 64) table
      → All (λ n. n < size) ns
      → forward k table ns ≡ ok (pass (forward_value k) table ns)
  unfolding forward
  forward-pass =
      loop-pass (forward_value k) (forward_value-IsRanged k) size (forward_step k) (forward k)
        (λ t. refl) (λ t n ns. refl) (forward_step-value k size fits)

  pub backward-pass :
      (table ns : List ℕ)
      → length table ≡ size
      → All (λ h. h < 2 ^ 64) table
      → All (λ n. n < size) ns
      → backward k table ns ≡ ok (pass (backward_value k) table ns)
  unfolding backward
  backward-pass =
      loop-pass (backward_value k) (backward_value-IsRanged k) size (backward_step k) (backward k)
        (λ t. refl) (λ t n ns. refl) (backward_step-value k size fits)

  -- With context propagation on, edges and processed nodes in range, and a table of 64-bit words for
  -- each node, `propagate` throws nothing, changes only the table, keeps its size and its 64-bit
  -- range, and leaves alone the entries of the nodes that it is not given.
  pub propagate-context :
      (static : Static) (processing : List ℕ)
      → k.d_context_propagation ≡ true
      → length k.d_hash_table ≡ size
      → All (λ h. h < 2 ^ 64) k.d_hash_table
      → All (λ n. n < size) processing
      → let table = context_table k k.d_hash_table processing in
        (propagate static k processing ≡ ok (static, record k { d_hash_table = table }))
        × (length table ≡ size)
        × All (λ h. h < 2 ^ 64) table
        × ((d : ℕ) → NotIn d processing → entry table d ≡ entry k.d_hash_table d)
  unfolding propagate context_table
  propagate-context static processing on sized range below =
      let F = forward_value k in
      let t = pass F k.d_hash_table processing in
      let sized' = length-pass F k.d_hash_table processing ∙ sized in
      let range' = pass-range F (forward_value-IsRanged k) k.d_hash_table processing range in
      (
        simp on (
            rw (
              forward-pass k.d_hash_table processing sized range below,
              backward-pass t (reverse processing) sized' range' (All-reverse _ processing below),
            )),
        length-pass (backward_value k) t (reverse processing) ∙ sized',
        pass-range (backward_value k) (backward_value-IsRanged k) t (reverse processing) range',
        λ d out.
            pass-outside (backward_value k) t (reverse processing) d (All-reverse _ processing out)
            ∙ pass-outside F k.d_hash_table processing d out,
      )
