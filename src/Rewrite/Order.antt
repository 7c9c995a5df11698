-- ===== src/Rewrite/Order.antt =====
-- The cases `NT_LE`, `NT_LT`, `NT_GE` and `NT_GT` of `Parser::rewrite`
-- (src/parser/rewrite_parser.cpp).
use smtstabilizer.Common.{
  ℕ, suc, Bool, not, ◌&&◌, if◌then◌else◌, ◌==◌, ltb, List, [], ◌∷◌, reverse, Option, none, some,
}
use smtstabilizer.Kind.{nt_le, nt_lt, nt_eq}
use smtstabilizer.Rewrite.{Terms, Rewritten, found, null, is_cint, is_numeral}
use smtstabilizer.Rewrite.Logic.{last_of, but_last}
use smtstabilizer.Rewrite.Equal.{const_at, rewrite_eq}

-- `np`, which is never empty, as its last element and those before that from the last to the first;
-- `suf_count`; `last_const`, with none for the null pointer.
pub record Scan : Type 0 where
  pub back : ℕ
  pub before : List ℕ
  pub suf_count : ℕ
  pub last_const : Option ℕ

-- What follows `++suf_count`.
unfoldable pub keep_const : Scan → ℕ → Scan
keep_const s x =
    if ltb 2 (suc s.suf_count)
    then record { back = x; before = s.before; suf_count = 2; last_const = some x }
    else record {
      back = x;
      before = s.back ∷ s.before;
      suf_count = suc s.suf_count;
      last_const = some x;
    }

-- `suf_count = 0` and what follows.
unfoldable pub keep_other : Scan → ℕ → Scan
keep_other s x = record {
  back = x;
  before = s.back ∷ s.before;
  suf_count = 0;
  last_const = s.last_const;
}

-- The loop over the operands after the first.
unfoldable pub scan_loop : (Scan → ℕ → Option Scan) → List ℕ → Scan → Option Scan
scan_loop step [] s = some s
scan_loop step (x ∷ p) s = elim (step s x) [ none ↦ none | some s' ↦ scan_loop step p s' ]

module _ (tm : Terms) where
  -- `<` and `==` on two number constants: as integers if both are.
  unfoldable pub number_lt : ℕ → ℕ → Bool
  number_lt x y =
      if is_cint (tm.node x) && is_cint (tm.node y)
      then tm.int_lt (tm.to_int x) (tm.to_int y)
      else tm.real_lt (tm.to_real x) (tm.to_real y)

  unfoldable pub number_eq : ℕ → ℕ → Bool
  number_eq x y =
      if is_cint (tm.node x) && is_cint (tm.node y)
      then tm.int_eq (tm.to_int x) (tm.to_int y)
      else tm.real_eq (tm.to_real x) (tm.to_real y)

  unfoldable pub start_scan : ℕ → Scan
  start_scan front =
      if is_numeral (tm.node front)
      then record { back = front; before = []; suf_count = 1; last_const = some front }
      else record { back = front; before = []; suf_count = 0; last_const = none }

  -- The comparison with `last_const`, and what follows. none: `return mkFalse()`
  unfoldable pub le_const : Option ℕ → Scan → ℕ → Option Scan
  unfolding keep_const number_lt number_eq
  le_const none s x = some (keep_const s x)
  le_const (some c) s x =
      if number_lt x c
      then none
      else if c == s.back && number_eq c x
      then some s
      else some (keep_const s x)

  unfoldable pub le_step : Scan → ℕ → Option Scan
  unfolding le_const keep_other
  le_step s x =
      if x == s.back
      then some s
      else if is_numeral (tm.node x)
      then le_const s.last_const s x
      else some (keep_other s x)

  unfoldable pub lt_const : Option ℕ → Scan → ℕ → Option Scan
  unfolding keep_const number_lt
  lt_const none s x = some (keep_const s x)
  lt_const (some c) s x = if not (number_lt c x) then none else some (keep_const s x)

  unfoldable pub lt_step : Scan → ℕ → Option Scan
  unfolding lt_const keep_other
  lt_step s x =
      if x == s.back
      then none
      else if is_numeral (tm.node x)
      then lt_const s.last_const s x
      else some (keep_other s x)

  -- A vector without the constants that stand before another constant at its start: what `++lidx`
  -- steps over, and read from the end, what `--ridx` steps over.
  unfoldable pub skip_consts : List ℕ → List ℕ
  skip_consts [] = []
  skip_consts (x ∷ []) = x ∷ []
  skip_consts (x ∷ y ∷ p) =
      let rest = skip_consts (y ∷ p) in if const_at tm x && const_at tm y then rest else x ∷ y ∷ p

  -- The elements from `lidx` to `ridx`, of which one is left where the two meet or have passed.
  unfoldable pub between : Scan → List ℕ
  unfolding skip_consts
  between s = skip_consts (reverse (skip_consts (s.back ∷ s.before)))

  -- The call of `rewrite` gets the local vector: where it answers the null pointer, the kind is
  -- `NT_EQ` and `p` is as it was.
  unfoldable pub le_as_eq : List ℕ → List ℕ → Rewritten
  le_as_eq p np = elim (rewrite_eq tm nt_eq np) [ found x ↦ found x | null t q ↦ null t p ]

  unfoldable pub le_finish : List ℕ → List ℕ → Rewritten
  unfolding le_as_eq last_of but_last
  le_finish p [] = found tm.true_node
  le_finish p (x ∷ []) = found tm.true_node
  le_finish p (x ∷ y ∷ np) =
      if const_at tm x && const_at tm (last_of y np)
      then (if tm.real_eq (tm.to_real x) (tm.to_real (last_of y np))
          then le_as_eq p (x ∷ but_last y np)
          else null nt_le (x ∷ y ∷ np))
      else null nt_le (x ∷ y ∷ np)

  unfoldable pub rewrite_le : ℕ → List ℕ → Rewritten
  unfolding scan_loop le_step start_scan between le_finish
  rewrite_le front p = elim (scan_loop le_step p (start_scan front)) [
    | none ↦ found tm.false_node
    | some s ↦ le_finish (front ∷ p) (between s)
  ]

  unfoldable pub lt_finish : List ℕ → Rewritten
  lt_finish [] = found tm.true_node
  lt_finish (x ∷ []) = found tm.true_node
  lt_finish (x ∷ y ∷ np) = null nt_lt (x ∷ y ∷ np)

  unfoldable pub rewrite_lt : ℕ → List ℕ → Rewritten
  unfolding scan_loop lt_step start_scan between lt_finish
  rewrite_lt front p = elim (scan_loop lt_step p (start_scan front)) [
    | none ↦ found tm.false_node
    | some s ↦ lt_finish (between s)
  ]

  -- `std::reverse` and the call for the converse kind, for operands that are not empty.
  abbrev pub on_front : (ℕ → List ℕ → Rewritten) → List ℕ → Rewritten
  on_front rewrite [] = found tm.true_node
  on_front rewrite (x ∷ p) = rewrite x p

  unfoldable pub rewrite_ge : ℕ → List ℕ → Rewritten
  unfolding rewrite_le
  rewrite_ge front p = on_front rewrite_le (reverse (front ∷ p))

  unfoldable pub rewrite_gt : ℕ → List ℕ → Rewritten
  unfolding rewrite_lt
  rewrite_gt front p = on_front rewrite_lt (reverse (front ∷ p))
