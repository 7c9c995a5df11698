-- ===== src/Common/SortBy.antt =====
-- `std::sort` with a comparison that may throw (`sort_by`): it gives the elements it is given, in
-- order.
use mathlib.Core.List.{Perm}
use mathlib.Core.List.Perm
use mathlib.Core.Path.{◌≡◌, refl, ap, ◌∙◌}
use mathlib.Core.Logic.{inl, inr}
use mathlib.Core.Bool.{Bool, true, false}
use mathlib.Core.List.{List, [], ◌∷◌}
use Prim.Native.Nat.{ℕ}
use smtstabilizer.Common.Tests.{Bool-cases}
use smtstabilizer.Common.Lists.{All}
use smtstabilizer.Common.Outcome.{Outcome, ok}
use smtstabilizer.Common.Maps.{insert_by, sort_by}

-- Each element stands in the relation to the next one.
abbrev pub Linked : (ℕ → ℕ → Type 0) → List ℕ → Type 0
Linked R [] = Unit
Linked R (x ∷ []) = Unit
Linked R (x ∷ y ∷ l) = R x y × Linked R (y ∷ l)

-- For elements with `P`, the comparison throws nothing, and the relation holds of two elements of
-- which the first is below the second or the second is not below the first.
pub record Compares (less : ℕ → ℕ → Outcome Bool) (P : ℕ → Type 0) (R : ℕ → ℕ → Type 0)
    : Type 0 where
  pub total : (a b : ℕ) → P a → P b → (r : Bool) × (less a b ≡ ok r)
  pub below : (a b : ℕ) → P a → P b → less a b ≡ ok true → R a b
  pub not_below : (a b : ℕ) → P a → P b → less a b ≡ ok false → R b a

module _ {less : ℕ → ℕ → Outcome Bool} {P : ℕ → Type 0} {R : ℕ → ℕ → Type 0}
    (c : Compares less P R) where
  -- What an insertion gives: also behind an element that may stand before the new one.
  abbrev Inserted : ℕ → List ℕ → List ℕ → Type 0
  Inserted a xs ys =
      Perm (a ∷ xs) ys
      × All P ys
      × (Linked R xs → Linked R ys)
      × ((z : ℕ) → R z a → Linked R (z ∷ xs) → Linked R (z ∷ ys))

  insert_by-Inserted :
      (a : ℕ) (xs : List ℕ)
      → P a
      → All P xs
      → (ys : List ℕ) × (insert_by less a xs ≡ ok ys) × Inserted a xs ys
  insert_by-Inserted a [] p h =
      (a ∷ [], refl, (Perm.refl (a ∷ []), (p, tt), (λ l. tt), (λ z r l. (r, tt))))
  insert_by-Inserted a (x ∷ xs) p h =
      let (ys, returns, (same, all, alone, behind)) = insert_by-Inserted a xs p h.1 in
      let (r, compared) = c.total x a h.0 p in
      elim (Bool-cases r) [
        | inl y ↦
            let before = c.below x a h.0 p (compared ∙ ap ok y) in
            (
              x ∷ ys,
              rw (compared, y, returns) refl,
              (
                Perm.trans (Perm.swap x a xs) (Perm.cons x same),
                (h.0, all),
                (λ l. behind x before l),
                (λ z q l. (l.0, behind x before l.1)),
              ),
            )
        | inr z ↦
            let after = c.not_below x a h.0 p (compared ∙ ap ok z) in
            (
              a ∷ x ∷ xs,
              rw (compared, z) refl,
              (Perm.refl (a ∷ x ∷ xs), (p, h), (λ l. (after, l)), (λ w q l. (q, (after, l.1)))),
            )
      ]

  pub sort_by-Linked :
      (xs : List ℕ)
      → All P xs
      → (ys : List ℕ) × (sort_by less xs ≡ ok ys) × Perm xs ys × All P ys × Linked R ys
  sort_by-Linked [] h = ([], refl, Perm.refl [], tt, tt)
  sort_by-Linked (x ∷ xs) h =
      let (ys, returns, same, all, linked) = sort_by-Linked xs h.1 in
      let (zs, returns', (same', all', alone, _)) = insert_by-Inserted x ys h.0 all in
      (zs, rw returns returns', Perm.trans (Perm.cons x same) same', all', alone linked)
