-- ===== src/Kernel/Context/Ends.antt =====
-- When `context_propagate` ends.
use smtstabilizer.Common.{
  ℕ, zero, suc, ◌+◌, ◌≤◌, ◌<◌, ◌≡◌, refl, ◌∙◌, arith, List, length, length-map, All, Bool-cases,
  inl, inr, ◌==◌, false, get_or,
}
use smtstabilizer.Common.Outcome.{ok}
use smtstabilizer.Common.Sorting.{sort, count_unique, count_unique_le, length-sort}
use smtstabilizer.Hash.Commutative.{read}
use smtstabilizer.Kernel.State.{Kernel}
use smtstabilizer.Kernel.Propagate.{Static}
use smtstabilizer.Kernel.Propagate.Total.{context_table}
use smtstabilizer.Kernel.Propagate.Iso.{IsSlice}
use smtstabilizer.Kernel.Context.{context_rounds, context_propagate}
use smtstabilizer.Kernel.Context.Iso.{with_table, IsSlice-with_table, context_rounds-step}

below_of_ne : (a b : ℕ) → a ≤ b → (a == b) ≡ false → a < b
below_of_ne a b h ne = ground arith

module _ (k : Kernel) (ns symbols : List ℕ) where
  -- The kernel after a number of calls of `propagate`.
  unfoldable pub state_after : ℕ → Kernel
  state_after zero = k
  state_after (suc j) = let s = state_after j in with_table s (context_table s s.d_hash_table ns)

  -- How many hashes the symbols then have.
  abbrev pub count_after : ℕ → ℕ
  count_after j = count_unique (sort (read (state_after j).d_hash_table symbols))

  count_after_le : (j : ℕ) → count_after j ≤ suc (length symbols)
  count_after_le j = omega (
    arith,
    count_unique_le (sort (read (state_after j).d_hash_table symbols)),
    length-sort (read (state_after j).d_hash_table symbols),
    length-map (λ c. get_or (state_after j).d_hash_table c 0) symbols,
  )

  module _ (size : ℕ) (slice : IsSlice k size ns) (below : All (λ s. s < size) symbols)
      (grows : (j : ℕ) → count_after j ≤ count_after (suc j)) where
    state_after-IsSlice : (j : ℕ) → IsSlice (state_after j) size ns
    unfolding state_after
    state_after-IsSlice zero = slice
    state_after-IsSlice (suc j) = IsSlice-with_table (state_after j) size ns (state_after-IsSlice j)

    context_rounds-ends :
        (fuel prev j : ℕ) (static : Static)
        → prev ≤ count_after (suc j)
        → suc (suc (length symbols)) ≤ fuel + prev
        → (m : ℕ) × (context_rounds fuel prev ns symbols static (state_after j)
            ≡ ok (static, state_after m))
    unfolding state_after
    context_rounds-ends zero prev j static low enough =
        absurd (omega (arith, count_after_le (suc j)))
    context_rounds-ends (suc fuel) prev j static low enough =
        let count = count_after (suc j) in
        let step =
          context_rounds-step (state_after j) size ns (state_after-IsSlice j) fuel prev symbols
            static below in
        elim (Bool-cases (prev == count)) [
          | inl y ↦ (suc j, step ∙ rw y refl)
          | inr z ↦
              let (m, ends) =
                context_rounds-ends fuel count (suc j) static (grows (suc j))
                  (omega (arith, below_of_ne prev count low z)) in
              (m, step ∙ rw z ends)
        ]

    -- With context propagation on, edges to earlier nodes, reversed edges to later ones, a table of
    -- 64-bit words and ascending processed nodes: if no call of `propagate` lowers the number of
    -- hashes that the symbols have, `context_propagate` ends without a throw within as many rounds
    -- as there are symbols, and two more, and what it leaves is the kernel after some number of
    -- calls of `propagate`.
    pub context_propagate-ends :
        (static : Static)
        → (m : ℕ) × (context_propagate (suc (suc (length symbols))) ns symbols static k
            ≡ ok (static, state_after m))
    unfolding context_propagate state_after
    context_propagate-ends static =
        context_rounds-ends (suc (suc (length symbols))) 0 zero static (omega arith) (omega arith)
