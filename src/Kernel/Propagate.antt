-- ===== src/Kernel/Propagate.antt =====
-- `Kernel::propagate` (src/kernel/kernel.cpp). The source hashes into the table that it reads; no
-- node is its own child or parent, so each call reads the table as it was when the call began.
pub mod Pass
pub mod Order
pub mod Total
pub mod Iso
pub mod Stale
use smtstabilizer.Common.{
  ℕ, Bool, true, false, if◌then◌else◌, List, [], ◌∷◌, reverse, set, is_empty, Option, none, some,
}
use smtstabilizer.Common.Outcome.{Outcome, ok, ◌>>=◌, at, put_at}
use smtstabilizer.Hash.{hash_children, hash_communative_children, hash_parents}
use smtstabilizer.Kernel.State.{Kernel}

-- The branch on `is_commutative`.
unfoldable pub rehash : Bool → ℕ → List ℕ → List ℕ → Outcome ℕ
rehash commutative seed children table =
    if commutative
    then hash_communative_children seed children table
    else hash_children seed children table

module _ (k : Kernel) where
  -- One round of the first loop.
  unfoldable pub forward_step : List ℕ → ℕ → Outcome (List ℕ)
  unfolding rehash
  forward_step table node = at k.d_graph node >>= λ children.
      if is_empty children
      then ok table
      else (at k.d_is_commutative node >>= λ commutative. at table node >>= λ seed.
          rehash commutative seed children table >>= λ h. ok (set table node h))

  -- One round of the second loop.
  unfoldable pub backward_step : List ℕ → ℕ → Outcome (List ℕ)
  backward_step table node = at k.d_reversed_graph node >>= λ parents.
      if is_empty parents
      then ok table
      else (at table node >>= λ seed.
          hash_parents seed parents table >>= λ h. ok (set table node h))

  unfoldable pub forward : List ℕ → List ℕ → Outcome (List ℕ)
  forward table [] = ok table
  forward table (n ∷ ns) = forward_step table n >>= λ t. forward t ns

  unfoldable pub backward : List ℕ → List ℕ → Outcome (List ℕ)
  backward table [] = ok table
  backward table (n ∷ ns) = backward_step table n >>= λ t. backward t ns

  -- One round of the loop without context propagation: `pre` is `pre_hash_table`.
  unfoldable pub local_step : List ℕ → List ℕ → ℕ → Outcome (List ℕ)
  unfolding rehash
  local_step table pre node = at k.d_graph node >>= λ children.
      if is_empty children
      then ok pre
      else (at k.d_is_commutative node >>= λ commutative. at pre node >>= λ seed.
          rehash commutative seed children table >>= λ h. at k.d_reversed_graph node >>= λ parents.
          hash_parents h parents table >>= λ h'. ok (set pre node h'))

  unfoldable pub local_pass : List ℕ → List ℕ → List ℕ → Outcome (List ℕ)
  local_pass table pre [] = ok pre
  local_pass table pre (n ∷ ns) = local_step table pre n >>= λ p. local_pass table p ns

-- `to.at(node) = from.at(node)` for each node.
unfoldable pub copy_rows : List ℕ → List ℕ → List ℕ → Outcome (List ℕ)
copy_rows to from [] = ok to
copy_rows to from (n ∷ ns) = at from n >>= λ h. put_at to n h >>= λ to'. copy_rows to' from ns

-- `pre_hash_table` is static: it is made from the table of the first call of the process, and
-- lives on in later calls and in later kernels.
abbrev pub Static : Type 0
Static = Option (List ℕ)

abbrev pub static_table : Static → List ℕ → List ℕ
static_table none table = table
static_table (some pre) table = pre

unfoldable pub propagate : Static → Kernel → List ℕ → Outcome (Static × Kernel)
unfolding forward backward forward_step backward_step copy_rows local_pass local_step
propagate static k processing =
    if k.d_context_propagation
    then (forward k k.d_hash_table processing >>= λ t.
        backward k t (reverse processing) >>= λ t'. ok (static, record k { d_hash_table = t' }))
    else (copy_rows (static_table static k.d_hash_table) k.d_hash_table processing >>= λ pre.
        local_pass k k.d_hash_table pre processing >>= λ pre'.
        copy_rows k.d_hash_table pre' processing >>= λ t.
        ok (some pre', record k { d_hash_table = t }))
