-- ===== src/Common/Sorting.antt =====
-- `std::sort` on hash values, the count of distinct values that follows it, and that neither sees
-- the order of its input.
use mathlib.Core.List.{Perm, Permᴰ}
use mathlib.Core.Logic.{∥∥₁_elim, inl, inr}
use Prim.Native.Nat.{ℕ, suc, ◌≤◌}
use mathlib.Core.Path.{◌≡◌, refl, ap, ap₂, ◌∙◌}
use mathlib.Core.List.{List, [], ◌∷◌}
use native.Mathlib.Omega.{arith}
use smtstabilizer.Common.Tests.{if◌then◌else◌, ltb, ◌==◌, Bool-cases}
use smtstabilizer.Common.Lists.{length}

unfoldable pub insert : ℕ → List ℕ → List ℕ
insert a [] = a ∷ []
insert a (x ∷ xs) = let rest = insert a xs in if ltb x a then x ∷ rest else a ∷ x ∷ xs

unfoldable pub sort : List ℕ → List ℕ
unfolding insert
sort [] = []
sort (x ∷ xs) = insert x (sort xs)

-- The places at which a vector differs from its predecessor.
unfoldable pub changes : ℕ → List ℕ → ℕ
changes a [] = 0
changes a (x ∷ xs) = let rest = changes x xs in if x == a then rest else suc rest

-- `hash_count` after the loop over the sorted hashes, which starts from 1 for an empty vector too.
unfoldable pub count_unique : List ℕ → ℕ
unfolding changes
count_unique [] = 1
count_unique (x ∷ xs) = suc (changes x xs)

insert-insert : (a b : ℕ) (xs : List ℕ) → insert a (insert b xs) ≡ insert b (insert a xs)
unfolding insert
insert-insert a b [] = ground arith
insert-insert a b (x ∷ xs) = let ih = insert-insert a b xs in ground arith

sort-permᴰ : {xs ys : List ℕ} → Permᴰ xs ys → sort xs ≡ sort ys
unfolding sort
sort-permᴰ Permᴰ.nil = refl
sort-permᴰ (Permᴰ.cons e p) = ap₂ insert e (sort-permᴰ p)
sort-permᴰ (Permᴰ.swap {a = a} {b = b} {l = l} e f) =
    insert-insert a b (sort l) ∙ ap₂ (λ x y. insert y (insert x (sort l))) e f
sort-permᴰ (Permᴰ.trans p q) = sort-permᴰ p ∙ sort-permᴰ q

List-set : IsSet (List ℕ)
List-set = hlevel

pub sort-perm : {xs ys : List ℕ} → Perm xs ys → sort xs ≡ sort ys
sort-perm p = ∥∥₁_elim p (List-set _ _) sort-permᴰ

changes_le : (a : ℕ) (xs : List ℕ) → changes a xs ≤ length xs
unfolding changes
changes_le a [] = omega arith
changes_le a (x ∷ xs) = let ih = changes_le x xs in ground arith

pub count_unique_le : (xs : List ℕ) → count_unique xs ≤ suc (length xs)
unfolding count_unique
count_unique_le [] = omega arith
count_unique_le (x ∷ xs) = omega (arith, changes_le x xs)

length-insert : (a : ℕ) (xs : List ℕ) → length (insert a xs) ≡ suc (length xs)
unfolding insert
length-insert a [] = refl
length-insert a (x ∷ xs) =
    let ih = length-insert a xs in
    elim (Bool-cases (ltb x a)) [ inl y ↦ rw y (ap suc ih) | inr n ↦ rw n refl ]

pub length-sort : (xs : List ℕ) → length (sort xs) ≡ length xs
unfolding sort
length-sort [] = refl
length-sort (x ∷ xs) = length-insert x (sort xs) ∙ ap suc (length-sort xs)
