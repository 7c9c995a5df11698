-- ===== src/Rewrite/Less.antt =====
-- The cases `NT_LT` and `NT_GT` of the rewriter keep the truth of the comparison.
use mathlib.Core.Path.{subst}
use smtstabilizer.Common.{
  ℕ, Bool, true, false, ◌==◌, List, [], ◌∷◌, reverse, ◌≡◌, refl, sym, ◌∙◌, arith, Option, none,
  some, Option-cases, Bool-cases, inl, inr, ==_iff, All, All-reverse,
}
use smtstabilizer.Kind.{nt_lt, nt_gt}
use smtstabilizer.Rewrite.{Terms, Model, is_numeral}
use smtstabilizer.Rewrite.Order.{
  Scan, number_lt, start_scan, scan_loop, lt_const, lt_step, between, lt_finish, rewrite_lt,
  rewrite_gt, on_front,
}
use smtstabilizer.Rewrite.Meaning.{chain, chain_of, meaning, denote, strictly_below}
use smtstabilizer.Rewrite.Chains.{chain_of-reverse}
use smtstabilizer.Rewrite.ScanSound.{
  IsTyped, Ordered, whole, Steps, Ends, keep_other-Ordered, keep_other-whole, keep_const_lem,
  scan_lem, between_lem,
}
use smtstabilizer.Rewrite.Comparisons.{below_refl, strict_trans, number_lt_lem}

module _ {tm : Terms} (m : Model tm) where
  open m use {same, below}

  strict : ℕ → ℕ → Bool
  strict = strictly_below m

  apart_trans : (x y z : ℕ) → strict x y ≡ true → strict y z ≡ true → strict x z ≡ true
  unfolding strict
  apart_trans = strict_trans m

  -- A constant that is not above the last one breaks the chain.
  broken :
      (s : Scan) (x c : ℕ) (p : List ℕ)
      → s.last_const ≡ some c
      → strict c x ≡ false
      → Ordered tm strict apart_trans s
      → whole tm strict apart_trans s (x ∷ p) ≡ false
  unfolding chain
  broken s x c p e h o = ground (arith, o.reach c x e)

  -- So does an operand that stands twice.
  repeated :
      (s : Scan) (x : ℕ) (p : List ℕ)
      → (x == s.back) ≡ true
      → whole tm strict apart_trans s (x ∷ p) ≡ false
  unfolding chain strict
  repeated s x p h = ground (arith, (==_iff x s.back).0 h, below_refl m x)

  lt_const_lem :
      (l : Option ℕ) (s : Scan) (x : ℕ) (p : List ℕ)
      → s.last_const ≡ l
      → is_numeral (tm.node x) ≡ true
      → IsTyped tm x
      → Ordered tm strict apart_trans s
      → Steps tm strict apart_trans (lt_const tm l s x) s x p
  unfolding lt_const
  lt_const_lem none s x p e n t o =
      keep_const_lem tm strict apart_trans s x p t n (λ c f. absurd (ground arith)) o
  lt_const_lem (some c) s x p e n t o =
      let lt : number_lt tm c x ≡ strict c x =
        unfold strict in number_lt_lem m c x (o.numeral c e) n in
      elim (Bool-cases (number_lt tm c x)) [
        | inl y ↦
            rw y
              (keep_const_lem tm strict apart_trans s x p t n (λ d f. ground (arith, sym lt ∙ y)) o)
        | inr z ↦ rw z (broken s x c p e (sym lt ∙ z) o)
      ]

  lt_step_lem :
      (s : Scan) (x : ℕ) (p : List ℕ)
      → IsTyped tm x
      → Ordered tm strict apart_trans s
      → Steps tm strict apart_trans (lt_step tm s x) s x p
  unfolding lt_step
  lt_step_lem s x p t o = elim (Bool-cases (x == s.back)) [
    | inl y ↦ rw y (repeated s x p y)
    | inr z ↦ rw z (elim (Bool-cases (is_numeral (tm.node x))) [
      | inl n ↦ rw n (lt_const_lem s.last_const s x p refl n t o)
      | inr n ↦ rw n (
        keep_other-Ordered tm strict apart_trans s x t n o,
        keep_other-whole tm strict apart_trans s x p,
      )
    ])
  ]

  lt_finish_lem : (np : List ℕ) → denote m (lt_finish tm np) ≡ chain_of strict np
  unfolding lt_finish meaning chain strict
  lt_finish_lem [] = m.truth_true_node
  lt_finish_lem (x ∷ []) = m.truth_true_node
  lt_finish_lem (x ∷ y ∷ np) = refl

  rewrite_lt_lem :
      (front : ℕ) (p : List ℕ)
      → All (IsTyped tm) (front ∷ p)
      → denote m (rewrite_lt tm front p) ≡ chain strict front p
  unfolding rewrite_lt
  rewrite_lt_lem front p t =
      let ends = scan_lem tm strict apart_trans (lt_step tm) lt_step_lem front p t in
      elim (Option-cases (scan_loop (lt_step tm) p (start_scan tm front))) [
        | inl e ↦
            let no_chain =
              subst (λ z. Ends tm strict apart_trans z (chain strict front p)) e ends in
            rw (e, rewrite_lt) (m.truth_false_node ∙ sym no_chain)
        | inr (s, e) ↦
            let (o, v) = subst (λ z. Ends tm strict apart_trans z (chain strict front p)) e ends in
            rw (e, rewrite_lt)
              (lt_finish_lem (between tm s) ∙ (between_lem tm strict apart_trans s o).0 ∙ v)
      ]

  on_front_lem :
      (p : List ℕ)
      → All (IsTyped tm) p
      → denote m (on_front tm (rewrite_lt tm) p) ≡ chain_of strict p
  on_front_lem [] t = m.truth_true_node
  on_front_lem (x ∷ p) t = rewrite_lt_lem x p t

  -- The rewriting of `<` and of `>` on number terms, in which every constant is a number, keeps the
  -- truth of the comparison in every reading of the nodes.
  pub rewrite_lt_sound :
      (front : ℕ) (p : List ℕ)
      → All (IsTyped tm) (front ∷ p)
      → (denote m (rewrite_lt tm front p) ≡ meaning m nt_lt (front ∷ p))
        × (denote m (rewrite_gt tm front p) ≡ meaning m nt_gt (front ∷ p))
  unfolding rewrite_gt meaning strict
  rewrite_lt_sound front p t = (
    rewrite_lt_lem front p t,
    on_front_lem (reverse (front ∷ p)) (All-reverse (IsTyped tm) (front ∷ p) t)
        ∙ chain_of-reverse strict (front ∷ p),
  )
