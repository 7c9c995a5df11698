-- ===== src/Rewrite/Equal.antt =====
-- The case `NT_EQ` of `Parser::rewrite` (src/parser/rewrite_parser.cpp).
use smtstabilizer.Common.{
  ℕ, Bool, true, false, not, ◌&&◌, ◌||◌, if◌then◌else◌, ◌==◌, ltb, List, [], ◌∷◌, reverse, Option,
  none, some,
}
use smtstabilizer.Kind.{NodeKind}
use smtstabilizer.Node.{is_const}
use smtstabilizer.Rewrite.{Terms, Rewritten, found, null, is_cint, is_numeral, is_fp_bits}

-- `std::sort` with a comparison.
module _ (less : ℕ → ℕ → Bool) where
  unfoldable pub insert_with : ℕ → List ℕ → List ℕ
  insert_with a [] = a ∷ []
  insert_with a (x ∷ xs) = let rest = insert_with a xs in if less x a then x ∷ rest else a ∷ x ∷ xs

  unfoldable pub sort_with : List ℕ → List ℕ
  unfolding insert_with
  sort_with [] = []
  sort_with (x ∷ xs) = insert_with x (sort_with xs)

-- `p.erase(std::unique(p.begin(), p.end()), p.end())`
unfoldable pub unique : List ℕ → List ℕ
unique [] = []
unique (x ∷ []) = x ∷ []
unique (x ∷ y ∷ p) = let rest = unique (y ∷ p) in if x == y then rest else x ∷ rest

module _ (tm : Terms) where
  unfoldable pub const_at : ℕ → Bool
  const_at x = is_const (tm.node x).kind

  -- The comparison of the sort: constants stand last.
  unfoldable pub constants_last : ℕ → ℕ → Bool
  constants_last a b =
      if const_at a && not (const_at b)
      then false
      else if not (const_at a) && const_at b
      then true
      else ltb a b

  -- The loop over the two last operands, with the operands from the last to the first. none:
  -- `return mkFalse()`
  unfoldable pub eq_loop : List ℕ → Option (List ℕ)
  eq_loop [] = some []
  eq_loop (a ∷ []) = some (a ∷ [])
  eq_loop (a ∷ b ∷ p) =
      let rest = eq_loop (b ∷ p) in
      if const_at a && const_at b
      then (if is_cint (tm.node a) && is_cint (tm.node b)
          then none
          else if is_numeral (tm.node a) && is_numeral (tm.node b)
          then (if not (tm.real_eq (tm.to_real a) (tm.to_real b)) then none else rest)
          else if is_fp_bits (tm.node a) || is_fp_bits (tm.node b)
          then some (a ∷ b ∷ p)
          else none)
      else some (a ∷ b ∷ p)

  unfoldable pub eq_finish : NodeKind → List ℕ → Rewritten
  eq_finish t [] = found tm.true_node
  eq_finish t (a ∷ []) = found tm.true_node
  eq_finish t (a ∷ b ∷ p) = null t (reverse (a ∷ b ∷ p))

  unfoldable pub rewrite_eq : NodeKind → List ℕ → Rewritten
  unfolding eq_loop eq_finish constants_last unique sort_with
  rewrite_eq t p = elim (eq_loop (reverse (unique (sort_with constants_last p)))) [
    | none ↦ found tm.false_node
    | some q ↦ eq_finish t q
  ]
