-- ===== src/Rewrite/Logic.antt =====
-- The Boolean cases of `Parser::rewrite` (src/parser/rewrite_parser.cpp). `std::sort` of shared
-- pointers sorts by address.
use smtstabilizer.Common.{
  ℕ, Bool, false, ◌||◌, if◌then◌else◌, ◌==◌, List, [], ◌∷◌, reverse, Option, none, some,
}
use smtstabilizer.Common.Sorting.{sort}
use smtstabilizer.Kind.{NodeKind, nt_not, nt_ite, nt_and, nt_or, nt_implies, nt_xor}
use smtstabilizer.Rewrite.{
  Terms, Rewritten, found, null, is_true, is_false, is_not, first_child, is_back,
}

-- The end of the cases: no operand is left, one is, or `p.swap(np)`.
unfoldable pub finish : NodeKind → ℕ → List ℕ → Rewritten
finish t unit [] = found unit
finish t unit (x ∷ []) = found x
finish t unit (x ∷ y ∷ np) = null t (reverse (x ∷ y ∷ np))

-- `p.back()` and the operands before it, with `front` and `p` for a vector that is not empty.
unfoldable pub last_of : ℕ → List ℕ → ℕ
last_of front [] = front
last_of front (x ∷ p) = last_of x p

unfoldable pub but_last : ℕ → List ℕ → List ℕ
but_last front [] = []
but_last front (x ∷ p) = front ∷ but_last x p

-- `np.pop_back()` where `np.back()` is the operand, otherwise `np.emplace_back(pc)`.
unfoldable pub toggle : ℕ → List ℕ → List ℕ
toggle x [] = x ∷ []
toggle x (y ∷ np) = if x == y then np else x ∷ y ∷ np

-- Whether a vector has two equal neighbours.
unfoldable pub has_repeat : List ℕ → Bool
has_repeat [] = false
has_repeat (x ∷ []) = false
has_repeat (x ∷ y ∷ p) = x == y || has_repeat (y ∷ p)

module _ (tm : Terms) where
  -- `case NT_NOT` of the unary switch.
  unfoldable pub rewrite_not : ℕ → Rewritten
  rewrite_not p =
      if is_true (tm.node p)
      then found tm.false_node
      else if is_false (tm.node p)
      then found tm.true_node
      else if is_not (tm.node p)
      then found (first_child (tm.node p))
      else null nt_not (p ∷ [])

  -- `case NT_ITE` of the ternary switch.
  unfoldable pub rewrite_ite : ℕ → ℕ → ℕ → Rewritten
  rewrite_ite l m r =
      if is_true (tm.node l)
      then found m
      else if is_false (tm.node l)
      then found r
      else if m == r
      then found m
      else null nt_ite (l ∷ m ∷ r ∷ [])

  -- none: `return mkFalse()`
  unfoldable pub and_loop : List ℕ → List ℕ → Option (List ℕ)
  unfolding is_back
  and_loop [] np = some np
  and_loop (pc ∷ p) np =
      let rest = and_loop p (if is_true (tm.node pc) || is_back pc np then np else pc ∷ np) in
      if is_false (tm.node pc) then none else rest

  unfoldable pub rewrite_and : List ℕ → Rewritten
  unfolding and_loop finish
  rewrite_and p = elim (and_loop (sort p) []) [
    | none ↦ found tm.false_node
    | some np ↦ finish nt_and tm.true_node np
  ]

  -- none: `return mkTrue()`
  unfoldable pub or_loop : List ℕ → List ℕ → Option (List ℕ)
  unfolding is_back
  or_loop [] np = some np
  or_loop (pc ∷ p) np =
      let rest = or_loop p (if is_false (tm.node pc) || is_back pc np then np else pc ∷ np) in
      if is_true (tm.node pc) then none else rest

  unfoldable pub rewrite_or : List ℕ → Rewritten
  unfolding or_loop finish
  rewrite_or p = elim (or_loop (sort p) []) [
    | none ↦ found tm.true_node
    | some np ↦ finish nt_or tm.false_node np
  ]

  -- The operands but the last, the last one, and `np`. none: `return mkTrue()`
  unfoldable pub implies_loop : List ℕ → ℕ → List ℕ → Option (List ℕ)
  unfolding is_back
  implies_loop [] last np = some np
  implies_loop (pc ∷ p) last np =
      let rest =
        implies_loop p last (if is_true (tm.node pc) || is_back pc np then np else pc ∷ np) in
      if is_false (tm.node pc)
      then none
      else if is_true (tm.node pc) || is_back pc np
      then rest
      else if pc == last
      then none
      else rest

  -- `np` holds the last operand at least: the source has no case for an empty one.
  unfoldable pub rewrite_implies : ℕ → List ℕ → Rewritten
  unfolding implies_loop finish last_of but_last
  rewrite_implies front p =
      if is_true (tm.node (last_of front p))
      then found tm.true_node
      else elim (implies_loop (but_last front p) (last_of front p) []) [
        | none ↦ found tm.true_node
        | some np ↦ finish nt_implies tm.true_node (last_of front p ∷ np)
      ]

  unfoldable pub xor_loop : List ℕ → List ℕ → List ℕ
  unfolding toggle
  xor_loop [] np = np
  xor_loop (pc ∷ p) np = xor_loop p (if is_false (tm.node pc) then np else toggle pc np)

  unfoldable pub rewrite_xor : List ℕ → Rewritten
  unfolding xor_loop finish
  rewrite_xor p = finish nt_xor tm.false_node (xor_loop (sort p) [])

  unfoldable pub rewrite_distinct : NodeKind → List ℕ → Rewritten
  unfolding has_repeat
  rewrite_distinct t p = if has_repeat (sort p) then found tm.false_node else null t (sort p)
