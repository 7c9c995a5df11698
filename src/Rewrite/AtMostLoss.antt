-- ===== src/Rewrite/AtMostLoss.antt =====
-- Operands for which the case `NT_LE` of the rewriter leaves an application of another meaning.
use smtstabilizer.Common.{
  ℕ, true, false, ◌&&◌, ◌==◌, List, [], ◌∷◌, ◌≡◌, refl, sym, ap, ◌∙◌, arith, Option, some, ==_iff,
  ◌≢◌,
}
use smtstabilizer.Kind.{nt_le, nt_eq}
use smtstabilizer.Rewrite.{Terms, Model, null, is_numeral}
use smtstabilizer.Rewrite.Equal.{
  const_at, rewrite_eq, eq_loop, eq_finish, unique, sort_with, insert_with, constants_last,
}
use smtstabilizer.Rewrite.Order.{
  Scan, keep_const, keep_other, start_scan, scan_loop, le_const, le_step, between, le_as_eq,
  le_finish, rewrite_le, skip_consts,
}
use smtstabilizer.Rewrite.Meaning.{chain, meaning, denote}
use smtstabilizer.Rewrite.Comparisons.{below_refl, number_lt_lem, number_eq_lem}

apart : (x y : ℕ) → x ≢ y → (x == y) ≡ false
apart x y h = ground (arith, (==_iff x y).0)

itself : (x : ℕ) → (x == x) ≡ true
itself x = (==_iff x x).1 refl

scan_loop-cons :
    (step : Scan → ℕ → Option Scan) (x : ℕ) (p : List ℕ) {s s' : Scan}
    → step s x ≡ some s'
    → scan_loop step (x ∷ p) s ≡ scan_loop step p s'
unfolding scan_loop
scan_loop-cons step x p h = rw (h, scan_loop) refl

module _ {tm : Terms} (m : Model tm) (a b x : ℕ) (number_a : is_numeral (tm.node a) ≡ true)
    (number_b : is_numeral (tm.node b) ≡ true) (const_a : const_at tm a ≡ true)
    (const_b : const_at tm b ≡ true) (open_x : is_numeral (tm.node x) ≡ false)
    (free_x : const_at tm x ≡ false) (less : m.below b a ≡ false) where
  open m use {same, below}

  x≢a : x ≢ a
  x≢a e = ground arith

  sorted_of : sort_with (constants_last tm) (a ∷ x ∷ []) ≡ x ∷ a ∷ []
  unfolding sort_with insert_with constants_last
  sorted_of = ground arith

  unique_of : unique (x ∷ a ∷ []) ≡ x ∷ a ∷ []
  unfolding unique
  unique_of = ground (arith, apart x a x≢a)

  loop_of : eq_loop tm (a ∷ x ∷ []) ≡ some (a ∷ x ∷ [])
  unfolding eq_loop
  loop_of = ground arith

  equation_of : rewrite_eq tm nt_eq (a ∷ x ∷ []) ≡ null nt_eq (x ∷ a ∷ [])
  unfolding rewrite_eq eq_finish
  equation_of =
      rw (sorted_of, rewrite_eq) (rw (unique_of, rewrite_eq) (rw (loop_of, rewrite_eq) refl))

  abbrev first_scan : Scan
  first_scan = record { back = a; before = []; suf_count = 1; last_const = some a }

  abbrev second_scan : Scan
  second_scan = record { back = x; before = a ∷ []; suf_count = 0; last_const = some a }

  abbrev third_scan : Scan
  third_scan = record { back = a; before = x ∷ a ∷ []; suf_count = 1; last_const = some a }

  abbrev last_scan : Scan
  last_scan = record { back = b; before = a ∷ x ∷ a ∷ []; suf_count = 2; last_const = some b }

  start_of : start_scan tm a ≡ first_scan
  unfolding start_scan
  start_of = ground arith

  first_step : le_step tm first_scan x ≡ some second_scan
  unfolding le_step keep_other
  first_step = ground (arith, apart x a x≢a)

  second_step : le_step tm second_scan a ≡ some third_scan
  unfolding le_step le_const keep_const
  second_step =
      ground
        (arith, apart a x (λ e. x≢a (sym e)), number_lt_lem m a a number_a number_a, below_refl m a)

  third_step : le_step tm third_scan b ≡ some last_scan
  unfolding le_step le_const keep_const
  third_step = ground (
    arith,
    (==_iff b a).0,
    number_lt_lem m b a number_b number_a,
    number_eq_lem m a b number_a number_b,
    m.below_antisym a b,
    m.below_total b a,
    below_refl m a,
  )

  between_of : between tm last_scan ≡ a ∷ x ∷ a ∷ []
  unfolding between skip_consts
  between_of = ground arith

  scan_of : scan_loop (le_step tm) (x ∷ a ∷ b ∷ []) (start_scan tm a) ≡ some last_scan
  unfolding scan_loop
  scan_of =
      ap (scan_loop (le_step tm) (x ∷ a ∷ b ∷ [])) start_of
      ∙ scan_loop-cons (le_step tm) x (a ∷ b ∷ []) first_step
      ∙ scan_loop-cons (le_step tm) a (b ∷ []) second_step
      ∙ scan_loop-cons (le_step tm) b [] third_step

  finish_of : le_finish tm (a ∷ x ∷ a ∷ b ∷ []) (a ∷ x ∷ a ∷ []) ≡ null nt_eq (a ∷ x ∷ a ∷ b ∷ [])
  unfolding le_finish le_as_eq
  finish_of =
      rw (const_a, m.real_eq_same a a number_a number_a, m.same_refl a)
        (rw (equation_of, le_as_eq) refl)

  -- Let `a` and `b` be number constants with `a` below `b`, and let `x` be no constant. The operands
  -- `a <= x <= a <= b` are left as an application of `=` to all four, which is false in every such
  -- reading of the nodes, while the comparison is true exactly when `x` has the value of `a`.
  pub rewrite_le_unsound :
      (rewrite_le tm a (x ∷ a ∷ b ∷ []) ≡ null nt_eq (a ∷ x ∷ a ∷ b ∷ []))
      × (denote m (rewrite_le tm a (x ∷ a ∷ b ∷ [])) ≡ false)
      × (meaning m nt_le (a ∷ x ∷ a ∷ b ∷ []) ≡ same a x)
  unfolding rewrite_le meaning chain
  rewrite_le_unsound =
      let left : rewrite_le tm a (x ∷ a ∷ b ∷ []) ≡ null nt_eq (a ∷ x ∷ a ∷ b ∷ []) =
        rw (scan_of, rewrite_le) (rw (between_of, rewrite_le) finish_of) in
      (
        left,
        ap (denote m) left ∙ equation_false,
        ground (arith, m.below_total b a, m.below_antisym a x),
      )
    where
      equation_false : (same a x && (same x a && (same a b && true))) ≡ false
      equation_false = ground (arith, m.below_antisym a b)
