-- ===== src/Rewrite/Meaning.antt =====
-- What the n-ary applications that the rewriter builds say of their operands, in one reading of
-- the nodes, following SMT-LIB.
use smtstabilizer.Common.{
  ℕ, Bool, true, false, not, ◌&&◌, ◌||◌, List, [], ◌∷◌, ◌++◌, reverse, ◌≡◌, refl, ap, ◌∙◌, arith,
}
use smtstabilizer.Common.Sorting.{insert, sort}
use smtstabilizer.Kind.{
  NodeKind, nt_not, nt_and, nt_or, nt_implies, nt_xor, nt_distinct, nt_distinct_bool,
  nt_distinct_other, nt_le, nt_lt, nt_ge, nt_gt, nt_eq, nt_eq_bool, nt_eq_other,
}
use smtstabilizer.Rewrite.{Terms, Model, Rewritten, found, null}
use mathlib.Core.List.{reverse-cons}

-- A fold by an operation that may take its operands in any order does not see their order.
module _ {V : Type 0} (op : V → V → V) (unit : V) where
  unfoldable pub folded : (ℕ → V) → List ℕ → V
  folded test [] = unit
  folded test (x ∷ p) = op (test x) (folded test p)

module _ {V : Type 0} (op : V → V → V) (unit : V)
    (swap : (a b c : V) → op a (op b c) ≡ op b (op a c)) (test : ℕ → V) where
  pub folded-insert :
      (a : ℕ) (xs : List ℕ)
      → folded op unit test (insert a xs) ≡ op (test a) (folded op unit test xs)
  unfolding folded insert
  folded-insert a [] = refl
  folded-insert a (x ∷ xs) =
      let ih = folded-insert a xs in ground (arith, swap (test a) (test x) (folded op unit test xs))

  pub folded-sort : (xs : List ℕ) → folded op unit test (sort xs) ≡ folded op unit test xs
  unfolding folded sort
  folded-sort [] = refl
  folded-sort (x ∷ xs) = folded-insert x (sort xs) ∙ ap (op (test x)) (folded-sort xs)

  folded-append :
      (xs : List ℕ) (a : ℕ)
      → folded op unit test (xs ++ a ∷ []) ≡ op (test a) (folded op unit test xs)
  unfolding folded
  folded-append [] a = refl
  folded-append (x ∷ xs) a =
      ap (op (test x)) (folded-append xs a) ∙ swap (test x) (test a) (folded op unit test xs)

  pub folded-reverse : (xs : List ℕ) → folded op unit test (reverse xs) ≡ folded op unit test xs
  unfolding folded
  folded-reverse [] = refl
  folded-reverse (x ∷ xs) =
      rw (reverse-cons x xs) (folded-append (reverse xs) x ∙ ap (op (test x)) (folded-reverse xs))

abbrev pub differ : Bool → Bool → Bool
differ true y = not y
differ false y = y

abbrev pub conj : (ℕ → Bool) → List ℕ → Bool
conj = folded (λ x y. x && y) true

abbrev pub disj : (ℕ → Bool) → List ℕ → Bool
disj = folded (λ x y. x || y) false

abbrev pub parity : (ℕ → Bool) → List ℕ → Bool
parity = folded differ false

pub and_swap : (a b c : Bool) → (a && (b && c)) ≡ (b && (a && c))
and_swap a b c = ground arith

pub or_swap : (a b c : Bool) → (a || (b || c)) ≡ (b || (a || c))
or_swap a b c = ground arith

pub differ_swap : (a b c : Bool) → differ a (differ b c) ≡ differ b (differ a c)
differ_swap a b c = ground arith

module _ (test : ℕ → Bool) where
  pub conj-sort : (xs : List ℕ) → conj test (sort xs) ≡ conj test xs
  conj-sort = folded-sort (λ x y. x && y) true and_swap test

  pub disj-sort : (xs : List ℕ) → disj test (sort xs) ≡ disj test xs
  disj-sort = folded-sort (λ x y. x || y) false or_swap test

  pub parity-sort : (xs : List ℕ) → parity test (sort xs) ≡ parity test xs
  parity-sort = folded-sort differ false differ_swap test

  pub conj-insert : (a : ℕ) (xs : List ℕ) → conj test (insert a xs) ≡ (test a && conj test xs)
  conj-insert = folded-insert (λ x y. x && y) true and_swap test

  pub conj-append : (xs : List ℕ) (a : ℕ) → conj test (xs ++ a ∷ []) ≡ (test a && conj test xs)
  conj-append = folded-append (λ x y. x && y) true and_swap test

  pub conj-reverse : (xs : List ℕ) → conj test (reverse xs) ≡ conj test xs
  conj-reverse = folded-reverse (λ x y. x && y) true and_swap test

  pub disj-reverse : (xs : List ℕ) → disj test (reverse xs) ≡ disj test xs
  disj-reverse = folded-reverse (λ x y. x || y) false or_swap test

  pub parity-reverse : (xs : List ℕ) → parity test (reverse xs) ≡ parity test xs
  parity-reverse = folded-reverse differ false differ_swap test

  -- `=>` associates to the right.
  unfoldable pub implication : ℕ → List ℕ → Bool
  implication x [] = test x
  implication x (y ∷ p) = not (test x) || implication y p

  -- The premises together imply the last operand.
  pub implication-append :
      (x : ℕ) (p : List ℕ) (last : ℕ)
      → implication x (p ++ last ∷ []) ≡ (not (conj test (x ∷ p)) || test last)
  unfolding implication folded
  implication-append x [] last = ground arith
  implication-append x (y ∷ p) last = let ih = implication-append y p last in ground arith

module _ (relation : ℕ → ℕ → Bool) where
  -- Every two neighbours are related: a chainable operator.
  unfoldable pub chain : ℕ → List ℕ → Bool
  chain x [] = true
  chain x (y ∷ p) = relation x y && chain y p

  -- Every two operands are related: a pairwise operator.
  unfoldable pub pairwise : List ℕ → Bool
  unfolding folded
  pairwise [] = true
  pairwise (x ∷ p) = conj (relation x) p && pairwise p

abbrev pub chain_of : (ℕ → ℕ → Bool) → List ℕ → Bool
chain_of r [] = true
chain_of r (x ∷ p) = chain r x p

abbrev implication_of : (ℕ → Bool) → List ℕ → Bool
implication_of test [] = true
implication_of test (x ∷ p) = implication test x p

abbrev negation_of : (ℕ → Bool) → List ℕ → Bool
negation_of test [] = true
negation_of test (x ∷ p) = not (test x)

module _ {tm : Terms} (m : Model tm) where
  open m use {truth, same, below}

  abbrev pub strictly_below : ℕ → ℕ → Bool
  strictly_below x y = not (below y x)

  abbrev pub distinct_values : ℕ → ℕ → Bool
  distinct_values x y = not (same x y)

  -- The truth of an application of one of the kinds below.
  unfoldable pub meaning : NodeKind → List ℕ → Bool
  meaning nt_not p = negation_of truth p
  meaning nt_and p = conj truth p
  meaning nt_or p = disj truth p
  meaning nt_xor p = parity truth p
  meaning nt_implies p = implication_of truth p
  meaning nt_le p = chain_of below p
  meaning nt_lt p = chain_of strictly_below p
  meaning nt_ge p = chain_of (λ x y. below y x) p
  meaning nt_gt p = chain_of (λ x y. strictly_below y x) p
  meaning nt_eq p = chain_of same p
  meaning nt_eq_bool p = chain_of same p
  meaning nt_eq_other p = chain_of same p
  meaning nt_distinct p = pairwise distinct_values p
  meaning nt_distinct_bool p = pairwise distinct_values p
  meaning nt_distinct_other p = pairwise distinct_values p
  meaning _ p = false

  -- The truth of what a call of `rewrite` leaves.
  abbrev pub denote : Rewritten → Bool
  denote (found x) = truth x
  denote (null t p) = meaning t p
