-- ===== src/Rewrite/Chains.antt =====
-- Chains of related neighbours, whichever way they are read.
use smtstabilizer.Common.{
  ℕ, Bool, true, not, ◌&&◌, ◌||◌, List, [], ◌∷◌, ◌++◌, reverse, ◌≡◌, refl, sym, ap, ◌∙◌, arith,
}
use mathlib.Core.List.{reverse-cons, append_assoc}
use smtstabilizer.Rewrite.{Terms}
use smtstabilizer.Rewrite.Logic.{last_of}
use smtstabilizer.Rewrite.Equal.{const_at}
use smtstabilizer.Rewrite.Order.{skip_consts}
use smtstabilizer.Rewrite.Meaning.{chain, chain_of}

module _ (r : ℕ → ℕ → Bool) where
  chain_of-append :
      (l : List ℕ) (y x : ℕ) → chain_of r (l ++ y ∷ x ∷ []) ≡ (chain_of r (l ++ y ∷ []) && r y x)
  unfolding chain
  chain_of-append [] y x = ground arith
  chain_of-append (a ∷ []) y x = ground arith
  chain_of-append (a ∷ b ∷ l) y x = ground (arith, chain_of-append (b ∷ l) y x)

  pub chain_of-reverse : (l : List ℕ) → chain_of r (reverse l) ≡ chain_of (λ x y. r y x) l
  unfolding chain
  chain_of-reverse [] = refl
  chain_of-reverse (x ∷ []) = refl
  chain_of-reverse (x ∷ y ∷ p) =
      ap (chain_of r) (
        reverse-cons x (y ∷ p)
        ∙ ap (λ l. l ++ x ∷ []) (reverse-cons y p)
        ∙ append_assoc (reverse p) (y ∷ []) (x ∷ []))
      ∙ chain_of-append (reverse p) y x
      ∙ ap (λ l. chain_of r l && r y x) (sym (reverse-cons y p))
      ∙ ground (arith, chain_of-reverse (y ∷ p))

  -- A chain relates its first element to its last.
  pub chain-last_of :
      ((x y z : ℕ) → r x y ≡ true → r y z ≡ true → r x z ≡ true)
      → (x y : ℕ) (p : List ℕ) → chain r x (y ∷ p) ≡ true
      → r x (last_of y p) ≡ true
  unfolding chain last_of
  chain-last_of trans x y [] h = ground arith
  chain-last_of trans x y (z ∷ p) h =
      let (first, rest) = split_and (r x y) (chain r y (z ∷ p)) h in
      trans x y (last_of z p) first (chain-last_of trans y z p rest)
    where
      split_and : (a b : Bool) → (a && b) ≡ true → (a ≡ true) × (b ≡ true)
      split_and a b e = ground arith

module _ (tm : Terms) (r : ℕ → ℕ → Bool) where
  -- Any two constants that stand side by side are related.
  abbrev pub on_consts : ℕ → ℕ → Bool
  on_consts x y = not (const_at tm x && const_at tm y) || r x y

  -- Stepping over constants takes nothing from a chain in which those are related.
  pub chain_of-skip_consts :
      (l : List ℕ)
      → chain_of on_consts l ≡ true
      → (chain_of r (skip_consts tm l) ≡ chain_of r l)
        × (chain_of on_consts (skip_consts tm l) ≡ true)
  unfolding chain skip_consts
  chain_of-skip_consts [] h = (refl, refl)
  chain_of-skip_consts (x ∷ []) h = (refl, refl)
  chain_of-skip_consts (x ∷ y ∷ p) h = ground (arith, chain_of-skip_consts (y ∷ p))
