-- ===== src/Kernel/Context/Iso.antt =====
-- `context_propagate` on two kernels whose graphs are the same up to the numbering of the nodes.
use mathlib.Core.List.{Memᴰ, Perm}
use mathlib.Core.List.Perm
use smtstabilizer.Common.{
  ℕ, zero, suc, ◌<◌, ◌≡◌, ◌↔◌, ◌⊎◌, inl, inr, refl, ap, ◌∙◌, arith, List, [], ◌∷◌, map, length,
  get_elem?-get_or, get_or, All, All-mono, Bool-cases, ◌==◌, none, if◌then◌else◌,
}
use smtstabilizer.Common.Outcome.{Outcome, ok, err, out_of_fuel}
use smtstabilizer.Common.Sorting.{sort, sort-perm, count_unique}
use smtstabilizer.Hash.Commutative.{read}
use smtstabilizer.Kernel.State.{Kernel}
use smtstabilizer.Kernel.Propagate.{Static}
use smtstabilizer.Kernel.Propagate.Pass.{entry}
use smtstabilizer.Kernel.Propagate.Total.{context_table, propagate-context}
use smtstabilizer.Kernel.Propagate.Iso.{IsIso, IsSlice, context_table-iso, read-map}
use smtstabilizer.Kernel.Context.{hashes_at, context_rounds, context_propagate}

pub hashes_at-read :
    (table symbols : List ℕ)
    → All (λ s. s < length table) symbols
    → hashes_at table symbols ≡ ok (read table symbols)
unfolding hashes_at
hashes_at-read table [] below = refl
hashes_at-read table (s ∷ symbols) below =
    rw (get_elem?-get_or table s 0 below.0, hashes_at-read table symbols below.1)

-- The kernel with the table that one round leaves.
abbrev pub with_table : Kernel → List ℕ → Kernel
with_table k table = record k { d_hash_table = table }

pub IsSlice-with_table :
    (k : Kernel) (size : ℕ) (ns : List ℕ)
    → IsSlice k size ns
    → IsSlice (with_table k (context_table k k.d_hash_table ns)) size ns
IsSlice-with_table k size ns s =
    let r = propagate-context k size s.topological.fits none ns s.context s.sized s.range s.below in
    record {
      topological = record {
        fits = record {
          graph = s.topological.fits.graph;
          reversed = s.topological.fits.reversed;
          commutative = s.topological.fits.commutative;
          children = s.topological.fits.children;
          parents = s.topological.fits.parents;
        };
        down = s.topological.down;
        up = s.topological.up;
      };
      ascending = s.ascending;
      below = s.below;
      sized = r.1;
      range = r.2;
      context = s.context;
    }

-- One round of the loop on a slice.
pub context_rounds-step :
    (k : Kernel) (size : ℕ) (ns : List ℕ)
    → IsSlice k size ns
    → (fuel prev : ℕ) (symbols : List ℕ) (static : Static) → All (λ s. s < size) symbols
    → let table = context_table k k.d_hash_table ns in
      let count = count_unique (sort (read table symbols)) in
      context_rounds (suc fuel) prev ns symbols static k ≡ (
        if prev == count
        then ok (static, with_table k table)
        else context_rounds fuel count ns symbols static (with_table k table))
unfolding context_rounds
context_rounds-step k size ns s fuel prev symbols static below =
    let r =
      propagate-context k size s.topological.fits static ns s.context s.sized s.range s.below in
    rw
      (
        r.0,
        hashes_at-read (context_table k k.d_hash_table ns) symbols
            (All-mono (λ n l. omega (arith, r.1)) symbols below),
      )
      refl

-- Two runs that both run out of fuel, or that both end, with the same hash at corresponding nodes.
abbrev pub SameRuns :
    (ℕ → ℕ)
    → ℕ
    → Kernel
    → Kernel
    → Static
    → Static
    → Outcome (Static × Kernel)
    → Outcome (Static × Kernel)
    → Type 0
SameRuns π size k l static static' run run' =
    ((run ≡ err out_of_fuel) × (run' ≡ err out_of_fuel))
    ⊎ ((table table' : List ℕ) × (run ≡ ok (static, with_table k table))
        × (run' ≡ ok (static', with_table l table'))
        × ((i : ℕ) → i < size → entry table' (π i) ≡ entry table i))

module _ (π : ℕ → ℕ) (size size' : ℕ) (ns ms symbols symbols' : List ℕ)
    (mem : (i : ℕ) → i < size → Memᴰ i ns ↔ Memᴰ (π i) ms) (below : All (λ s. s < size) symbols)
    (below' : All (λ s. s < size') symbols') (same : Perm symbols' (map π symbols)) where
  IsIso-with_table :
      (k l : Kernel) (table table' : List ℕ)
      → IsIso π size k l
      → ((i : ℕ) → i < size → entry table' (π i) ≡ entry table i)
      → IsIso π size (with_table k table) (with_table l table')
  IsIso-with_table k l table table' iso agree = record {
    commutative = iso.commutative;
    operands = iso.operands;
    arguments = iso.arguments;
    parents = iso.parents;
    hashes = agree;
  }

  count-iso :
      (table table' : List ℕ)
      → ((i : ℕ) → i < size → entry table' (π i) ≡ entry table i)
      → count_unique (sort (read table' symbols')) ≡ count_unique (sort (read table symbols))
  count-iso table table' agree = ap count_unique (
      sort-perm (Perm.map (λ c. get_or table' c 0) same)
      ∙ ap sort (read-map π table table' symbols (All-mono (λ s l. agree s l) symbols below)))

  context_rounds-iso :
      (fuel prev : ℕ) (static static' : Static) (k l : Kernel)
      → IsIso π size k l
      → IsSlice k size ns
      → IsSlice l size' ms
      → SameRuns π size k l static static'
          (context_rounds fuel prev ns symbols static k)
          (context_rounds fuel prev ms symbols' static' l)
  unfolding context_rounds
  context_rounds-iso zero prev static static' k l iso slice slice' = inl (refl, refl)
  context_rounds-iso (suc fuel) prev static static' k l iso slice slice' =
      let table = context_table k k.d_hash_table ns in
      let table' = context_table l l.d_hash_table ms in
      let agree = context_table-iso π size size' k l ns ms iso slice slice' mem in
      let count = count_unique (sort (read table symbols)) in
      let rest =
        context_rounds-iso fuel count static static' (with_table k table) (with_table l table')
          (IsIso-with_table k l table table' iso agree) (IsSlice-with_table k size ns slice)
          (IsSlice-with_table l size' ms slice') in
      rw
        (
          context_rounds-step k size ns slice fuel prev symbols static below,
          context_rounds-step l size' ms slice' fuel prev symbols' static' below',
          count-iso table table' agree,
        )
        (elim (Bool-cases (prev == count)) [
          | inl y ↦ rw y (inr (table, table', refl, refl, agree))
          | inr n ↦ rw n rest
        ])

  -- Under conditions on two kernels, with symbols that correspond in any order: whatever the
  -- fuel, `context_propagate` runs out of fuel on both, or ends on both without a throw and leaves
  -- the same hash at corresponding nodes. The conditions: context propagation is on, edges lead to
  -- earlier nodes and reversed edges to later ones, the tables hold 64-bit words for each node, the
  -- processed nodes ascend, and `π` carries nodes, hashes and processed nodes of one kernel to those
  -- of the other, up to the order of commutative operands and of reversed edges.
  pub context_propagate-iso :
      (fuel : ℕ) (static static' : Static) (k l : Kernel)
      → IsIso π size k l
      → IsSlice k size ns
      → IsSlice l size' ms
      → SameRuns π size k l static static'
          (context_propagate fuel ns symbols static k)
          (context_propagate fuel ms symbols' static' l)
  unfolding context_propagate
  context_propagate-iso fuel static static' k l = context_rounds-iso fuel 0 static static' k l
