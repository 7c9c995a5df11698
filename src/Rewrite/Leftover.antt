-- ===== src/Rewrite/Leftover.antt =====
-- The kinds that the rewriting of the connectives and of `<` leaves, and the order of the operands.
use smtstabilizer.Common.{ℕ, List, [], ◌∷◌, reverse, ◌≡◌, refl, Option-cases, Bool-cases, inl, inr}
use smtstabilizer.Common.Sorting.{sort}
use smtstabilizer.Kind.{NodeKind, nt_not, nt_and, nt_or, nt_implies, nt_xor, nt_lt}
use smtstabilizer.Rewrite.{Terms, Rewritten, found, null, is_true, is_false, is_not}
use smtstabilizer.Rewrite.Logic.{
  rewrite_not, finish, and_loop, rewrite_and, or_loop, rewrite_or, implies_loop, last_of, but_last,
  rewrite_implies, xor_loop, rewrite_xor, has_repeat, rewrite_distinct,
}
use smtstabilizer.Rewrite.Equal.{sort_with, unique, constants_last, eq_loop, eq_finish, rewrite_eq}
use smtstabilizer.Rewrite.Order.{scan_loop, lt_step, start_scan, between, lt_finish, rewrite_lt}

-- A null pointer leaves the kind.
abbrev pub IsOf : NodeKind → Rewritten → Type 0
IsOf t (found x) = Unit
IsOf t (null k p) = k ≡ t

finish-IsOf : (t : NodeKind) (u : ℕ) (np : List ℕ) → IsOf t (finish t u np)
unfolding finish
finish-IsOf t u [] = tt
finish-IsOf t u (x ∷ []) = tt
finish-IsOf t u (x ∷ y ∷ np) = refl

module _ (tm : Terms) where
  pub rewrite_not-IsOf : (x : ℕ) → IsOf nt_not (rewrite_not tm x)
  unfolding rewrite_not
  rewrite_not-IsOf x = elim (Bool-cases (is_true (tm.node x))) [
    | inl y ↦ rw y tt
    | inr z ↦ elim (Bool-cases (is_false (tm.node x))) [
      | inl y ↦ rw (z, y) tt
      | inr w ↦ elim (Bool-cases (is_not (tm.node x))) [
        | inl y ↦ rw (z, w, y) tt
        | inr v ↦ rw (z, w, v) refl
      ]
    ]
  ]

  pub rewrite_and-IsOf : (p : List ℕ) → IsOf nt_and (rewrite_and tm p)
  unfolding rewrite_and
  rewrite_and-IsOf p = elim (Option-cases (and_loop tm (sort p) [])) [
    | inl e ↦ rw (e, IsOf) tt
    | inr (np, e) ↦ rw (e, IsOf) (finish-IsOf nt_and tm.true_node np)
  ]

  pub rewrite_or-IsOf : (p : List ℕ) → IsOf nt_or (rewrite_or tm p)
  unfolding rewrite_or
  rewrite_or-IsOf p = elim (Option-cases (or_loop tm (sort p) [])) [
    | inl e ↦ rw (e, IsOf) tt
    | inr (np, e) ↦ rw (e, IsOf) (finish-IsOf nt_or tm.false_node np)
  ]

  pub rewrite_xor-IsOf : (p : List ℕ) → IsOf nt_xor (rewrite_xor tm p)
  unfolding rewrite_xor
  rewrite_xor-IsOf p = finish-IsOf nt_xor tm.false_node (xor_loop tm (sort p) [])

  pub rewrite_implies-IsOf : (front : ℕ) (p : List ℕ) → IsOf nt_implies (rewrite_implies tm front p)
  unfolding rewrite_implies
  rewrite_implies-IsOf front p =
      let last = last_of front p in
      elim (Bool-cases (is_true (tm.node last))) [
        | inl y ↦ rw y tt
        | inr z ↦ rw z (elim (Option-cases (implies_loop tm (but_last front p) last [])) [
          | inl e ↦ rw (e, IsOf) tt
          | inr (np, e) ↦ rw (e, IsOf) (finish-IsOf nt_implies tm.true_node (last ∷ np))
        ])
      ]

  pub rewrite_distinct-IsOf : (t : NodeKind) (p : List ℕ) → IsOf t (rewrite_distinct tm t p)
  unfolding rewrite_distinct
  rewrite_distinct-IsOf t p = elim (Bool-cases (has_repeat (sort p))) [
    | inl y ↦ rw y tt
    | inr z ↦ rw z refl
  ]

  eq_finish-IsOf : (t : NodeKind) (q : List ℕ) → IsOf t (eq_finish tm t q)
  unfolding eq_finish
  eq_finish-IsOf t [] = tt
  eq_finish-IsOf t (a ∷ []) = tt
  eq_finish-IsOf t (a ∷ b ∷ q) = refl

  pub rewrite_eq-IsOf : (t : NodeKind) (p : List ℕ) → IsOf t (rewrite_eq tm t p)
  unfolding rewrite_eq
  rewrite_eq-IsOf t p =
      elim (Option-cases (eq_loop tm (reverse (unique (sort_with (constants_last tm) p))))) [
        | inl e ↦ rw (e, IsOf) tt
        | inr (q, e) ↦ rw (e, IsOf) (eq_finish-IsOf t q)
      ]

  lt_finish-IsOf : (np : List ℕ) → IsOf nt_lt (lt_finish tm np)
  unfolding lt_finish
  lt_finish-IsOf [] = tt
  lt_finish-IsOf (x ∷ []) = tt
  lt_finish-IsOf (x ∷ y ∷ np) = refl

  pub rewrite_lt-IsOf : (front : ℕ) (p : List ℕ) → IsOf nt_lt (rewrite_lt tm front p)
  unfolding rewrite_lt
  rewrite_lt-IsOf front p = elim (Option-cases (scan_loop (lt_step tm) p (start_scan tm front))) [
    | inl e ↦ rw (e, IsOf) tt
    | inr (s, e) ↦ rw (e, IsOf) (lt_finish-IsOf (between tm s))
  ]
