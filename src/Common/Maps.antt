-- ===== src/Common/Maps.antt =====
-- `std::unordered_map<size_t, size_t>` as a table of counts, and `std::sort` with a comparison that
-- may throw.
use Prim.Native.Nat.{ℕ, suc}
use mathlib.Core.Path.{◌≡◌, refl}
use mathlib.Core.Bool.{Bool}
use mathlib.Core.List.{List, [], ◌∷◌}
use mathlib.Core.Option.{Option, none, some}
use native.Mathlib.Omega.{arith}
use smtstabilizer.Common.Tests.{if◌then◌else◌, ◌==◌}
use smtstabilizer.Common.Outcome.{Outcome, ok, ◌>>=◌}

abbrev pub Counts : Type 0
Counts = List (ℕ × ℕ)

-- `find`
abbrev pub count_find : Counts → ℕ → Option ℕ
count_find [] h = none
count_find ((k, n) ∷ m) h = if k == h then some n else count_find m h

-- `counts[h]++`
abbrev pub bump : ℕ → Counts → Counts
bump h [] = (h, 1) ∷ []
bump h ((k, n) ∷ m) = if k == h then (k, suc n) ∷ m else (k, n) ∷ bump h m

-- What the map holds, with 0 for an absent key.
abbrev pub count_or_zero : Option ℕ → ℕ
count_or_zero none = 0
count_or_zero (some n) = n

pub count_find-bump :
    (h j : ℕ) (m : Counts)
    → count_find (bump h m) j
      ≡ (if h == j then some (suc (count_or_zero (count_find m h))) else count_find m j)
count_find-bump h j [] = refl
count_find-bump h j ((k, n) ∷ m) = let ih = count_find-bump h j m in ground arith

module _ {ℓ} {A : Type ℓ} (less : A → A → Outcome Bool) where
  abbrev pub insert_by : A → List A → Outcome (List A)
  insert_by a [] = ok (a ∷ [])
  insert_by a (x ∷ xs) =
      let rest = insert_by a xs in
      less x a >>= λ b. if b then (rest >>= λ ys. ok (x ∷ ys)) else ok (a ∷ x ∷ xs)

  abbrev pub sort_by : List A → Outcome (List A)
  sort_by [] = ok []
  sort_by (x ∷ xs) = sort_by xs >>= λ ys. insert_by x ys
