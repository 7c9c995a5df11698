-- ===== src/Rewrite/OperOrder.antt =====
-- The order of the operands of a node does not change its truth.
use smtstabilizer.Common.{
  ℕ, Bool, true, false, ◌&&◌, ◌||◌, leb, List, [], ◌∷◌, length, ◌≡◌, refl, sym, ◌∙◌, Bool-cases,
  inl, inr,
}
use smtstabilizer.Kind.{
  NodeKind, nt_not, nt_and, nt_or, nt_implies, nt_xor, nt_eq, nt_eq_bool, nt_eq_other, nt_lt,
  nt_distinct, nt_distinct_bool, nt_distinct_other, nt_forall, nt_exists, nt_fp_add, nt_fp_mul,
}
use smtstabilizer.Rewrite.{Terms, Model}
use smtstabilizer.Rewrite.Equal.{sort_with}
use smtstabilizer.Rewrite.Meaning.{meaning, differ, and_swap, or_swap, differ_swap, chain_of}
use smtstabilizer.Rewrite.Reorder.{folded-sort_with, pairwise-sort_with}
use smtstabilizer.Rewrite.LogicSound.{different, different_comm}
use smtstabilizer.Rewrite.EqualSound.{same_comm, chain_of-pairwise}
use smtstabilizer.Rewrite.Oper.{
  is_commutative, has_leading_operand, sort_params, order_params, hash_less,
}

-- The kinds whose rewriting is shown to be sound.
unfoldable pub is_logical : NodeKind → Bool
is_logical nt_not = true
is_logical nt_and = true
is_logical nt_or = true
is_logical nt_implies = true
is_logical nt_xor = true
is_logical nt_eq = true
is_logical nt_eq_bool = true
is_logical nt_eq_other = true
is_logical nt_lt = true
is_logical nt_distinct = true
is_logical nt_distinct_bool = true
is_logical nt_distinct_other = true
is_logical _ = false

module _ {tm : Terms} (m : Model tm) (hash_code : ℕ → ℕ) where
  sorted_eq : (p : List ℕ) → chain_of m.same (sort_with (hash_less hash_code) p) ≡ chain_of m.same p
  sorted_eq p =
      chain_of-pairwise m (sort_with (hash_less hash_code) p)
      ∙ pairwise-sort_with m.same (same_comm m) (hash_less hash_code) p
      ∙ sym (chain_of-pairwise m p)

  meaning-sort_with :
      (t : NodeKind) (p : List ℕ)
      → (is_logical t && is_commutative t) ≡ true
      → meaning m t (sort_with (hash_less hash_code) p) ≡ meaning m t p
  unfolding meaning is_logical is_commutative different
  meaning-sort_with nt_and p h =
      folded-sort_with (λ x y. x && y) true and_swap m.truth (hash_less hash_code) p
  meaning-sort_with nt_or p h =
      folded-sort_with (λ x y. x || y) false or_swap m.truth (hash_less hash_code) p
  meaning-sort_with nt_xor p h =
      folded-sort_with differ false differ_swap m.truth (hash_less hash_code) p
  meaning-sort_with nt_eq p h = sorted_eq p
  meaning-sort_with nt_distinct p h =
      pairwise-sort_with (different m) (different_comm m) (hash_less hash_code) p
  meaning-sort_with _ p h = cc

  leads_not : (t : NodeKind) → is_logical t ≡ true → has_leading_operand t ≡ false
  unfolding is_logical
  leads_not nt_forall h = cc
  leads_not nt_exists h = cc
  leads_not nt_fp_add h = cc
  leads_not nt_fp_mul h = cc
  leads_not _ h = refl

  -- The order of the operands does not change the meaning.
  pub meaning-order_params :
      (t : NodeKind) (p : List ℕ)
      → is_logical t ≡ true
      → meaning m t (order_params hash_code t p) ≡ meaning m t p
  unfolding order_params sort_params
  meaning-order_params t [] h = refl
  meaning-order_params t (x ∷ p) h = elim (Bool-cases (is_commutative t)) [
    | inr z ↦ rw z refl
    | inl y ↦
        rw (y, leads_not t h)
          (elim (Bool-cases (leb (length (x ∷ p)) 1)) [
            | inl s ↦ rw s refl
            | inr s ↦ rw s (meaning-sort_with t (x ∷ p) (rw (h, y) refl))
          ])
  ]
