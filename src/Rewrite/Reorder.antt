-- ===== src/Rewrite/Reorder.antt =====
-- What does not see the order of the operands.
use smtstabilizer.Common.{ℕ, Bool, true, ◌&&◌, List, [], ◌∷◌, ◌≡◌, refl, ap, ◌∙◌, arith}
use smtstabilizer.Rewrite.Equal.{insert_with, sort_with}
use smtstabilizer.Rewrite.Meaning.{folded, conj, and_swap, pairwise}

module _ {V : Type 0} (op : V → V → V) (unit : V)
    (swap : (a b c : V) → op a (op b c) ≡ op b (op a c)) (test : ℕ → V) (less : ℕ → ℕ → Bool) where
  pub folded-insert_with :
      (a : ℕ) (xs : List ℕ)
      → folded op unit test (insert_with less a xs) ≡ op (test a) (folded op unit test xs)
  unfolding insert_with folded
  folded-insert_with a [] = refl
  folded-insert_with a (x ∷ xs) =
      let ih = folded-insert_with a xs in
      ground (arith, swap (test a) (test x) (folded op unit test xs))

  pub folded-sort_with :
      (xs : List ℕ) → folded op unit test (sort_with less xs) ≡ folded op unit test xs
  unfolding sort_with folded
  folded-sort_with [] = refl
  folded-sort_with (x ∷ xs) =
      folded-insert_with x (sort_with less xs) ∙ ap (op (test x)) (folded-sort_with xs)

module _ (relation : ℕ → ℕ → Bool) (relation_comm : (x y : ℕ) → relation x y ≡ relation y x)
    (less : ℕ → ℕ → Bool) where
  conj-insert_with :
      (test : ℕ → Bool) (a : ℕ) (xs : List ℕ)
      → conj test (insert_with less a xs) ≡ (test a && conj test xs)
  conj-insert_with test = folded-insert_with (λ x y. x && y) true and_swap test less

  pairwise-insert_with :
      (a : ℕ) (xs : List ℕ)
      → pairwise relation (insert_with less a xs) ≡ (conj (relation a) xs && pairwise relation xs)
  unfolding pairwise insert_with folded
  pairwise-insert_with a [] = refl
  pairwise-insert_with a (x ∷ xs) =
      ground
        (arith, pairwise-insert_with a xs, conj-insert_with (relation x) a xs, relation_comm x a)

  pub pairwise-sort_with :
      (xs : List ℕ) → pairwise relation (sort_with less xs) ≡ pairwise relation xs
  unfolding pairwise sort_with
  pairwise-sort_with [] = refl
  pairwise-sort_with (x ∷ xs) =
      pairwise-insert_with x (sort_with less xs)
      ∙ ground (
        arith,
        folded-sort_with (λ x y. x && y) true and_swap (relation x) less xs,
        pairwise-sort_with xs,
      )
