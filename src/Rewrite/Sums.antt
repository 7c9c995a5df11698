-- ===== src/Rewrite/Sums.antt =====
-- The cases `NT_ADD` and `NT_MUL` of `Parser::rewrite`
-- (src/parser/rewrite_parser.cpp), with `isZero` and `isOne` (src/parser/base_parser.cpp).
use smtstabilizer.Common.{
  ℕ, Bool, true, false, not, ◌&&◌, if◌then◌else◌, ◌==◌, List, [], ◌∷◌, reverse, Option, none, some,
}
use smtstabilizer.Kind.{NodeKind, nt_add, nt_mul}
use smtstabilizer.Rewrite.{Terms, Rewritten, found, null, is_cint, is_creal, is_cbv}

-- The code point of the digit 1.
abbrev digit_one : ℕ
digit_one = 49

-- Whether no character is `1`.
unfoldable pub no_ones : List ℕ → Bool
no_ones [] = true
no_ones (c ∷ cs) = not (c == digit_one) && no_ones cs

-- Whether the first `1` is the last character.
unfoldable pub ends_in_one : List ℕ → Bool
ends_in_one [] = false
ends_in_one (c ∷ []) = c == digit_one
ends_in_one (c ∷ d ∷ cs) = not (c == digit_one) && ends_in_one (d ∷ cs)

-- `np`, from the last element to the first, and `cst`, with none for the null pointer.
pub record Split : Type 0 where
  pub cst : Option ℕ
  pub np : List ℕ

module _ (tm : Terms) where
  unfoldable pub is_zero : ℕ → Bool
  unfolding no_ones
  is_zero e =
      if is_creal (tm.node e)
      then tm.real_eq (tm.to_real e) tm.real_zero
      else if is_cint (tm.node e)
      then tm.int_eq (tm.to_int e) tm.int_zero
      else is_cbv (tm.node e) && no_ones (tm.text e)

  unfoldable pub is_one : ℕ → Bool
  unfolding ends_in_one
  is_one e =
      if is_creal (tm.node e)
      then tm.real_eq (tm.to_real e) tm.real_one
      else if is_cint (tm.node e)
      then tm.int_eq (tm.to_int e) tm.int_one
      else is_cbv (tm.node e) && ends_in_one (tm.text e)

  module _ (int_op : tm.Integer → tm.Integer → tm.Integer)
      (real_op : tm.Real → tm.Real → tm.Real) where
    -- `cst` after an integer constant, and after another number constant.
    unfoldable pub fold_int : Option ℕ → ℕ → ℕ
    fold_int none pc = pc
    fold_int (some c) pc = tm.mk_const_int (int_op (tm.to_int c) (tm.to_int pc))

    unfoldable pub fold_real : Option ℕ → ℕ → ℕ
    fold_real none pc = pc
    fold_real (some c) pc = tm.mk_const_real (real_op (tm.to_real c) (tm.to_real pc))

    unfoldable pub split_step : Split → ℕ → Split
    unfolding fold_int fold_real
    split_step s pc =
        if is_cint (tm.node pc)
        then record { cst = some (fold_int s.cst pc); np = s.np }
        else if is_creal (tm.node pc)
        then record { cst = some (fold_real s.cst pc); np = s.np }
        else record { cst = s.cst; np = pc ∷ s.np }

    unfoldable pub split_loop : List ℕ → Split → Split
    unfolding split_step
    split_loop [] s = s
    split_loop (pc ∷ p) s = split_loop p (split_step s pc)

  abbrev pub start_split : Split
  start_split = record { cst = none; np = [] }

  -- The last lines of the cases, with the unit of the operator.
  unfoldable pub built : NodeKind → tm.Integer → List ℕ → Rewritten
  built t unit [] = found (tm.mk_const_int unit)
  built t unit (x ∷ []) = found x
  built t unit (x ∷ y ∷ np) = null t (reverse (x ∷ y ∷ np))

  unfoldable pub add_finish : Split → Rewritten
  unfolding built
  add_finish s = elim s.cst [
    | none ↦ built nt_add tm.int_zero s.np
    | some c ↦ built nt_add tm.int_zero (if not (is_zero c) then c ∷ s.np else s.np)
  ]

  unfoldable pub rewrite_add : List ℕ → Rewritten
  unfolding add_finish split_loop
  rewrite_add p = add_finish (split_loop tm.int_add tm.real_add p start_split)

  unfoldable pub mul_finish : Split → Rewritten
  unfolding built
  mul_finish s = elim s.cst [
    | none ↦ built nt_mul tm.int_one s.np
    | some c ↦
        if is_zero c
        then found (
            if is_cint (tm.node c)
            then tm.mk_const_int tm.int_zero
            else tm.mk_const_real tm.real_zero)
        else built nt_mul tm.int_one (if not (is_one c) then c ∷ s.np else s.np)
  ]

  unfoldable pub rewrite_mul : List ℕ → Rewritten
  unfolding mul_finish split_loop
  rewrite_mul p = mul_finish (split_loop tm.int_mul tm.real_mul p start_split)
