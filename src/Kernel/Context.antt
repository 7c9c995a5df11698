-- ===== src/Kernel/Context.antt =====
-- `Kernel::context_propagate` (src/kernel/kernel.cpp).
pub mod Iso
pub mod Ends
use smtstabilizer.Common.{ℕ, zero, suc, if◌then◌else◌, ◌==◌, List, [], ◌∷◌}
use smtstabilizer.Common.Outcome.{Outcome, ok, err, out_of_fuel, ◌>>=◌, at}
use smtstabilizer.Common.Sorting.{sort, count_unique}
use smtstabilizer.Kernel.State.{Kernel}
use smtstabilizer.Kernel.Propagate.{Static, propagate}

-- The `std::transform`: the hashes at the given indices.
unfoldable pub hashes_at : List ℕ → List ℕ → Outcome (List ℕ)
hashes_at table [] = ok []
hashes_at table (i ∷ is) = at table i >>= λ h. hashes_at table is >>= λ hs. ok (h ∷ hs)

-- The `do … while`: `prev` is `hash_count` as the last round left it.
unfoldable pub context_rounds :
    ℕ → ℕ → List ℕ → List ℕ → Static → Kernel → Outcome (Static × Kernel)
unfolding propagate hashes_at sort count_unique
context_rounds zero prev processing symbols static k = err out_of_fuel
context_rounds (suc fuel) prev processing symbols static k = propagate static k processing >>= λ r.
    hashes_at r.1.d_hash_table symbols >>= λ hs.
    let count = count_unique (sort hs) in
    let rest = context_rounds fuel count processing symbols r.0 r.1 in
    if prev == count then ok r else rest

unfoldable pub context_propagate : ℕ → List ℕ → List ℕ → Static → Kernel → Outcome (Static × Kernel)
unfolding context_rounds
context_propagate fuel processing symbols static k =
    context_rounds fuel 0 processing symbols static k
