-- ===== src/Kernel/Rebuild/Order.antt =====
-- The comparison by context hash and hash, which sorts symbols, operands and assertions
-- (src/kernel/kernel.cpp).
use smtstabilizer.Common.{
  ℕ, Bool, true, false, if◌then◌else◌, ◌==◌, ltb, List, length, get_or, get_elem?-get_or, ◌<◌, ◌≤◌,
  ◌≡◌, ◌⊎◌, refl, sym, ap, ◌∙◌, arith, Bool-cases, inl, inr,
}
use smtstabilizer.Common.Outcome.{Outcome, err, ok}
use smtstabilizer.Common.SortBy.{Compares}
use smtstabilizer.Kernel.Rebuild.{by_context}

-- The pair of the first two numbers is at most that of the other two, the first number deciding.
abbrev pub PairLe : ℕ → ℕ → ℕ → ℕ → Type 0
PairLe ca ha cb hb = (ca < cb) ⊎ ((ca ≡ cb) × (ha ≤ hb))

ok_or : {A : Type 0} → A → Outcome A → A
ok_or d (err f) = d
ok_or d (ok a) = a

ok-injective : {A : Type 0} {a b : A} → ok a ≡ ok b → a ≡ b
unfolding ok_or
ok-injective {a = a} e = ap (ok_or a) e

module _ (context table : List ℕ) where
  abbrev pub InRange : ℕ → Type 0
  InRange i = (i < length context) × (i < length table)

  -- The node with the first index has the smaller context hash, or the same and no larger hash.
  abbrev pub IsBefore : ℕ → ℕ → Type 0
  IsBefore i j =
      PairLe (get_or context i 0) (get_or table i 0) (get_or context j 0) (get_or table j 0)

  abbrev compared : ℕ → ℕ → Bool
  compared i j =
      if get_or context i 0 == get_or context j 0
      then ltb (get_or table i 0) (get_or table j 0)
      else ltb (get_or context i 0) (get_or context j 0)

  pub by_context-compared :
      (i j : ℕ) → InRange i → InRange j → by_context context table i j ≡ ok (compared i j)
  unfolding by_context
  by_context-compared i j (ic, it) (jc, jt) =
      elim (Bool-cases (get_or context i 0 == get_or context j 0)) [
        | inl y ↦
            rw
              (
                get_elem?-get_or context i 0 ic,
                get_elem?-get_or context j 0 jc,
                y,
                get_elem?-get_or table i 0 it,
                get_elem?-get_or table j 0 jt,
              )
              refl
        | inr z ↦ rw (get_elem?-get_or context i 0 ic, get_elem?-get_or context j 0 jc, z) refl
      ]

  pair_below :
      (ca ha cb hb : ℕ) → (if ca == cb then ltb ha hb else ltb ca cb) ≡ true → PairLe ca ha cb hb
  pair_below ca ha cb hb h = elim (Bool-cases (ca == cb)) [
    | inl y ↦ inr (ground arith, ground arith)
    | inr z ↦ inl (ground arith)
  ]

  pair_not_below :
      (ca ha cb hb : ℕ) → (if ca == cb then ltb ha hb else ltb ca cb) ≡ false → PairLe cb hb ca ha
  pair_not_below ca ha cb hb h = elim (Bool-cases (ca == cb)) [
    | inl y ↦ inr (ground arith, ground arith)
    | inr z ↦ inl (ground arith)
  ]

  pub by_context-below :
      (i j : ℕ) → InRange i → InRange j → by_context context table i j ≡ ok true → IsBefore i j
  by_context-below i j p q e =
      pair_below _ _ _ _ (ok-injective (sym (by_context-compared i j p q) ∙ e))

  pub by_context-not_below :
      (i j : ℕ) → InRange i → InRange j → by_context context table i j ≡ ok false → IsBefore j i
  by_context-not_below i j p q e =
      pair_not_below _ _ _ _ (ok-injective (sym (by_context-compared i j p q) ∙ e))

  pub by_context-Compares : Compares (by_context context table) InRange IsBefore
  by_context-Compares = record {
    total = λ i j p q. (compared i j, by_context-compared i j p q);
    below = by_context-below;
    not_below = by_context-not_below;
  }
