-- ===== src/Rewrite/AtMost.antt =====
-- One step of the scan for `NT_LE`.
use mathlib.Core.Path.{subst}
use smtstabilizer.Common.{
  ℕ, true, false, ◌&&◌, ◌==◌, List, [], ◌∷◌, ◌≡◌, refl, sym, ap, ◌∙◌, arith, Option, none, some,
  Bool-cases, inl, inr, ==_iff,
}
use smtstabilizer.Rewrite.{Terms, Model, is_numeral}
use smtstabilizer.Rewrite.Order.{Scan, number_lt, number_eq, le_const, le_step}
use smtstabilizer.Rewrite.Meaning.{chain}
use smtstabilizer.Rewrite.ScanSound.{
  IsTyped, Ordered, scanned, whole, Steps, keep_other-Ordered, keep_other-whole, keep_const_lem,
}
use smtstabilizer.Rewrite.Comparisons.{number_lt_lem, number_eq_lem, negate_true, negate_false}

module _ {tm : Terms} (m : Model tm) where
  open m use {same, below}

  -- A constant below the last one breaks the chain.
  broken :
      (s : Scan) (x c : ℕ) (p : List ℕ)
      → s.last_const ≡ some c
      → below c x ≡ false
      → Ordered tm below m.below_trans s
      → whole tm below m.below_trans s (x ∷ p) ≡ false
  unfolding chain
  broken s x c p e h o = ground (arith, o.reach c x e)

  -- Two nodes of one value have one chain.
  chain-same : (x y : ℕ) (p : List ℕ) → same x y ≡ true → chain below x p ≡ chain below y p
  unfolding chain
  chain-same x y [] h = refl
  chain-same x y (z ∷ p) h =
      ground (arith, m.below_antisym x y, m.below_trans x y z, m.below_trans y x z)

  skip_same : (b x : ℕ) (p : List ℕ) → same b x ≡ true → chain below b p ≡ chain below b (x ∷ p)
  unfolding chain
  skip_same b x p h = ground (arith, m.below_antisym b x, chain-same b x p h)

  same_back :
      (c b x : ℕ)
      → (c == b && number_eq tm c x) ≡ true
      → number_eq tm c x ≡ same c x
      → same b x ≡ true
  same_back c b x h e = ground (arith, (==_iff c b).0)

  le_const_lem :
      (l : Option ℕ) (s : Scan) (x : ℕ) (p : List ℕ)
      → s.last_const ≡ l
      → is_numeral (tm.node x) ≡ true
      → IsTyped tm x
      → Ordered tm below m.below_trans s
      → Steps tm below m.below_trans (le_const tm l s x) s x p
  unfolding le_const
  le_const_lem none s x p e n t o =
      let (o', v) =
        keep_const_lem tm below m.below_trans s x p t n (λ c f. absurd (ground arith)) o in
      (o', v)
  le_const_lem (some c) s x p e n t o =
      let lt = number_lt_lem m x c n (o.numeral c e) in
      let eq = number_eq_lem m c x (o.numeral c e) n in
      elim (Bool-cases (number_lt tm x c)) [
        | inl y ↦ rw y (broken s x c p e (negate_true m (below c x) (sym lt ∙ y)) o)
        | inr z ↦
            let cx = negate_false m (below c x) (sym lt ∙ z) in
            rw z (elim (Bool-cases (c == s.back && number_eq tm c x)) [
              | inl y ↦ rw y (
                o,
                ap (λ b. scanned tm below m.below_trans s && b)
                    (skip_same s.back x p (same_back c s.back x y eq)),
              )
              | inr w ↦
                  rw w (keep_const_lem tm below m.below_trans s x p t n (λ d f. ground arith) o)
            ])
      ]

  pub le_step_lem :
      (s : Scan) (x : ℕ) (p : List ℕ)
      → IsTyped tm x
      → Ordered tm below m.below_trans s
      → Steps tm below m.below_trans (le_step tm s x) s x p
  unfolding le_step
  le_step_lem s x p t o = elim (Bool-cases (x == s.back)) [
    | inl y ↦
        let e = (==_iff x s.back).0 y in
        rw y (
          o,
          ap (λ b. scanned tm below m.below_trans s && b)
              (skip_same s.back x p (subst (λ z. same z x ≡ true) e (m.same_refl x))),
        )
    | inr z ↦ rw z (elim (Bool-cases (is_numeral (tm.node x))) [
      | inl n ↦ rw n (le_const_lem s.last_const s x p refl n t o)
      | inr n ↦ rw n (
        keep_other-Ordered tm below m.below_trans s x t n o,
        keep_other-whole tm below m.below_trans s x p,
      )
    ])
  ]
