-- ===== src/Rewrite/LogicSound.antt =====
-- The Boolean cases of the rewriter keep the truth of the application.
use smtstabilizer.Common.{
  ℕ, Bool, true, false, not, ◌&&◌, ◌||◌, if◌then◌else◌, ◌==◌, List, [], ◌∷◌, ◌++◌, reverse, ◌≡◌,
  refl, sym, ap, ◌∙◌, arith, Option, none, some, Bool-cases, Option-cases, inl, inr, ==_iff, ◌⊎◌,
}
use mathlib.Core.List.{reverse-cons}
use smtstabilizer.Common.Sorting.{sort, insert}
use smtstabilizer.Kind.{NodeKind, nt_not, nt_ite, nt_and, nt_or, nt_implies, nt_xor, nt_distinct}
use smtstabilizer.Rewrite.{Terms, Model, found, null, is_true, is_false, is_back}
use smtstabilizer.Rewrite.Logic.{
  rewrite_not, rewrite_ite, finish, and_loop, rewrite_and, or_loop, rewrite_or, implies_loop,
  last_of, but_last, rewrite_implies, toggle, xor_loop, rewrite_xor, has_repeat, rewrite_distinct,
}
use smtstabilizer.Rewrite.Meaning.{
  folded, conj, disj, parity, differ, implication, conj-sort, disj-sort, parity-sort, conj-reverse,
  disj-reverse, parity-reverse, implication-append, meaning, denote, pairwise, distinct_values,
  conj-insert,
}

module _ {tm : Terms} (m : Model tm) where
  open m use {truth}

  and_back :
      (x : ℕ) (np : List ℕ) → is_back x np ≡ true → (truth x && conj truth np) ≡ conj truth np
  unfolding is_back folded
  and_back x [] h = cc
  and_back x (y ∷ np) h = ground (arith, (==_iff x y).0 h)

  or_back : (x : ℕ) (np : List ℕ) → is_back x np ≡ true → (truth x || disj truth np) ≡ disj truth np
  unfolding is_back folded
  or_back x [] h = cc
  or_back x (y ∷ np) h = ground (arith, (==_iff x y).0 h)

  and_value : Option (List ℕ) → Bool
  and_value none = false
  and_value (some np) = conj truth np

  and_loop_lem : (p np : List ℕ) → and_value (and_loop tm p np) ≡ (conj truth p && conj truth np)
  unfolding and_loop and_value folded
  and_loop_lem [] np = refl
  and_loop_lem (pc ∷ p) np = ground (
    arith,
    and_loop_lem p np,
    and_loop_lem p (pc ∷ np),
    and_back pc np,
    m.truth_of_true pc,
    m.truth_of_false pc,
  )

  or_value : Option (List ℕ) → Bool
  or_value none = true
  or_value (some np) = disj truth np

  or_loop_lem : (p np : List ℕ) → or_value (or_loop tm p np) ≡ (disj truth p || disj truth np)
  unfolding or_loop or_value folded
  or_loop_lem [] np = refl
  or_loop_lem (pc ∷ p) np = ground (
    arith,
    or_loop_lem p np,
    or_loop_lem p (pc ∷ np),
    or_back pc np,
    m.truth_of_true pc,
    m.truth_of_false pc,
  )

  -- none: the implication holds.
  implies_value : ℕ → Option (List ℕ) → Bool
  implies_value last none = true
  implies_value last (some np) = not (conj truth np) || truth last

  implies_loop_lem :
      (p : List ℕ) (last : ℕ) (np : List ℕ)
      → implies_value last (implies_loop tm p last np)
        ≡ (not (conj truth p && conj truth np) || truth last)
  unfolding implies_loop implies_value folded
  implies_loop_lem [] last np = refl
  implies_loop_lem (pc ∷ p) last np = ground (
    arith,
    implies_loop_lem p last np,
    implies_loop_lem p last (pc ∷ np),
    and_back pc np,
    (==_iff pc last).0,
    m.truth_of_true pc,
    m.truth_of_false pc,
  )

  toggle_lem :
      (x : ℕ) (np : List ℕ) → parity truth (toggle x np) ≡ differ (truth x) (parity truth np)
  unfolding toggle folded
  toggle_lem x [] = refl
  toggle_lem x (y ∷ np) = ground (arith, (==_iff x y).0)

  xor_loop_lem :
      (p np : List ℕ) → parity truth (xor_loop tm p np) ≡ differ (parity truth p) (parity truth np)
  unfolding xor_loop folded
  xor_loop_lem [] np = refl
  xor_loop_lem (pc ∷ p) np = ground (
    arith,
    xor_loop_lem p np,
    xor_loop_lem p (toggle pc np),
    toggle_lem pc np,
    m.truth_of_false pc,
  )

  and_finish : (np : List ℕ) → denote m (finish nt_and tm.true_node np) ≡ conj truth np
  unfolding finish meaning folded
  and_finish [] = m.truth_true_node
  and_finish (x ∷ []) = ground arith
  and_finish (x ∷ y ∷ np) = conj-reverse truth (x ∷ y ∷ np)

  or_finish : (np : List ℕ) → denote m (finish nt_or tm.false_node np) ≡ disj truth np
  unfolding finish meaning folded
  or_finish [] = m.truth_false_node
  or_finish (x ∷ []) = ground arith
  or_finish (x ∷ y ∷ np) = disj-reverse truth (x ∷ y ∷ np)

  xor_finish : (np : List ℕ) → denote m (finish nt_xor tm.false_node np) ≡ parity truth np
  unfolding finish meaning folded
  xor_finish [] = m.truth_false_node
  xor_finish (x ∷ []) = ground arith
  xor_finish (x ∷ y ∷ np) = parity-reverse truth (x ∷ y ∷ np)

  rewrite_and_lem : (p : List ℕ) → denote m (rewrite_and tm p) ≡ conj truth p
  unfolding rewrite_and and_value folded
  rewrite_and_lem p =
      let v = and_loop_lem (sort p) [] in
      let s = conj-sort truth p in
      elim (Option-cases (and_loop tm (sort p) [])) [
        | inl e ↦ rw (e, denote) (ground (arith, m.truth_false_node))
        | inr (np, e) ↦ rw (e, denote) (and_finish np ∙ ground arith)
      ]

  rewrite_or_lem : (p : List ℕ) → denote m (rewrite_or tm p) ≡ disj truth p
  unfolding rewrite_or or_value folded
  rewrite_or_lem p =
      let v = or_loop_lem (sort p) [] in
      let s = disj-sort truth p in
      elim (Option-cases (or_loop tm (sort p) [])) [
        | inl e ↦ rw (e, denote) (ground (arith, m.truth_true_node))
        | inr (np, e) ↦ rw (e, denote) (or_finish np ∙ ground arith)
      ]

  rewrite_xor_lem : (p : List ℕ) → denote m (rewrite_xor tm p) ≡ parity truth p
  unfolding rewrite_xor folded
  rewrite_xor_lem p =
      xor_finish (xor_loop tm (sort p) [])
      ∙ ground (arith, xor_loop_lem (sort p) [], parity-sort truth p)

  -- The premises and the conclusion of an implication.
  implication_split :
      (front : ℕ) (p : List ℕ)
      → implication truth front p ≡ (not (conj truth (but_last front p)) || truth (last_of front p))
  unfolding implication but_last last_of folded
  implication_split front [] = refl
  implication_split front (x ∷ p) = let ih = implication_split x p in ground arith

  implication_built :
      (xs : List ℕ) (last : ℕ)
      → meaning m nt_implies (xs ++ last ∷ []) ≡ (not (conj truth xs) || truth last)
  unfolding meaning implication folded
  implication_built [] last = refl
  implication_built (x ∷ xs) last = implication-append truth x xs last

  implies_finish :
      (np : List ℕ) (last : ℕ)
      → denote m (finish nt_implies tm.true_node (last ∷ np)) ≡ (not (conj truth np) || truth last)
  unfolding finish folded
  implies_finish [] last = refl
  implies_finish (y ∷ np) last = rw (reverse-cons last (y ∷ np)) (
      implication_built (reverse (y ∷ np)) last
      ∙ ap (λ b. not b || truth last) (conj-reverse truth (y ∷ np)))

  rewrite_implies_lem :
      (front : ℕ) (p : List ℕ) → denote m (rewrite_implies tm front p) ≡ implication truth front p
  unfolding rewrite_implies implies_value folded
  rewrite_implies_lem front p =
      let last = last_of front p in
      let v = implies_loop_lem (but_last front p) last [] in
      let s = implication_split front p in
      let o = m.truth_true_node in
      elim (Bool-cases (is_true (tm.node last))) [
        | inl y ↦ rw y (ground (arith, m.truth_of_true last y))
        | inr z ↦ rw z (elim (Option-cases (implies_loop tm (but_last front p) last [])) [
          | inl e ↦ rw (e, denote) (ground arith)
          | inr (np, e) ↦ rw (e, denote) (implies_finish np last ∙ ground arith)
        ])
      ]

  rewrite_not_lem : (x : ℕ) → denote m (rewrite_not tm x) ≡ not (truth x)
  unfolding rewrite_not meaning
  rewrite_not_lem x = ground (
    arith,
    m.truth_of_true x,
    m.truth_of_false x,
    m.truth_of_not x,
    m.truth_true_node,
    m.truth_false_node,
  )

  unfoldable pub different : ℕ → ℕ → Bool
  different = distinct_values m

  pub different_comm : (x y : ℕ) → different x y ≡ different y x
  unfolding different
  different_comm x y = ground (arith, m.same_sym x y, m.same_sym y x)

  pairwise-insert :
      (a : ℕ) (xs : List ℕ)
      → pairwise different (insert a xs) ≡ (conj (different a) xs && pairwise different xs)
  unfolding pairwise insert folded
  pairwise-insert a [] = refl
  pairwise-insert a (x ∷ xs) =
      ground (arith, pairwise-insert a xs, conj-insert (different x) a xs, different_comm x a)

  pairwise-sort : (xs : List ℕ) → pairwise different (sort xs) ≡ pairwise different xs
  unfolding pairwise sort
  pairwise-sort [] = refl
  pairwise-sort (x ∷ xs) =
      pairwise-insert x (sort xs) ∙ ground (arith, conj-sort (different x) xs, pairwise-sort xs)

  pairwise-has_repeat : (xs : List ℕ) → has_repeat xs ≡ true → pairwise different xs ≡ false
  unfolding pairwise has_repeat different folded
  pairwise-has_repeat [] h = cc
  pairwise-has_repeat (x ∷ []) h = cc
  pairwise-has_repeat (x ∷ y ∷ p) h =
      ground (arith, (==_iff x y).0, m.same_refl x, pairwise-has_repeat (y ∷ p))

  pub rewrite_distinct_lem :
      (t : NodeKind) (p : List ℕ)
      → ((q : List ℕ) → meaning m t q ≡ pairwise different q)
      → denote m (rewrite_distinct tm t p) ≡ pairwise different p
  unfolding rewrite_distinct
  rewrite_distinct_lem t p e = elim (Bool-cases (has_repeat (sort p))) [
    | inl y ↦ rw y (m.truth_false_node ∙ sym (pairwise-has_repeat (sort p) y) ∙ pairwise-sort p)
    | inr z ↦ rw z (e (sort p) ∙ pairwise-sort p)
  ]

  -- The rewriting of `not`, `and`, `or`, `xor`, `=>` and `distinct` keeps the truth of the
  -- application of the operator to the given operands, in every reading of the nodes: the node that
  -- a call returns, or the application of the kind and the operands that it leaves, is true exactly
  -- when that application is.
  pub rewrite_logic_sound :
      (x : ℕ) (p : List ℕ)
      → (denote m (rewrite_not tm x) ≡ meaning m nt_not (x ∷ []))
        × (denote m (rewrite_and tm p) ≡ meaning m nt_and p)
        × (denote m (rewrite_or tm p) ≡ meaning m nt_or p)
        × (denote m (rewrite_xor tm p) ≡ meaning m nt_xor p)
        × (denote m (rewrite_implies tm x p) ≡ meaning m nt_implies (x ∷ p))
        × (denote m (rewrite_distinct tm nt_distinct p) ≡ meaning m nt_distinct p)
  unfolding meaning different
  rewrite_logic_sound x p = (
    rewrite_not_lem x,
    rewrite_and_lem p,
    rewrite_or_lem p,
    rewrite_xor_lem p,
    rewrite_implies_lem x p,
    rewrite_distinct_lem nt_distinct p (λ q. refl),
  )

  -- The rewriting of `ite` leaves the application as it is, or returns one of its branches, which
  -- has the value of the branch that the condition chooses, in every reading of the nodes.
  pub rewrite_ite_sound :
      (l a b : ℕ)
      → (rewrite_ite tm l a b ≡ null nt_ite (l ∷ a ∷ b ∷ []))
        ⊎ ((x : ℕ) × (rewrite_ite tm l a b ≡ found x)
            × (m.same x (if truth l then a else b) ≡ true))
  unfolding rewrite_ite
  rewrite_ite_sound l a b = elim (Bool-cases (is_true (tm.node l))) [
    | inl y ↦ inr (a, rw y refl, rw (m.truth_of_true l y) (m.same_refl a))
    | inr z ↦ elim (Bool-cases (is_false (tm.node l))) [
      | inl y ↦ inr (b, rw (z, y) refl, rw (m.truth_of_false l y) (m.same_refl b))
      | inr w ↦ elim (Bool-cases (a == b)) [
        | inl y ↦ inr (a, rw (z, w, y) refl, either_branch a b ((==_iff a b).0 y))
        | inr v ↦ inl (rw (z, w, v) refl)
      ]
    ]
  ]
    where
      either_branch : (a b : ℕ) → a ≡ b → m.same a (if truth l then a else b) ≡ true
      either_branch a b e = ground (arith, m.same_refl a)
