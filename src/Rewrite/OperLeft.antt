-- ===== src/Rewrite/OperLeft.antt =====
-- What `rewrite_oper` leaves of an application of a connective or of `<` has its truth.
use mathlib.Core.Path.{subst}
use smtstabilizer.Common.{
  ℕ, Bool, true, false, List, [], ◌∷◌, length, ◌≡◌, refl, sym, ◌∙◌, arith, All,
}
use smtstabilizer.Kind.{
  NodeKind, nt_not, nt_and, nt_or, nt_implies, nt_xor, nt_eq, nt_eq_bool, nt_eq_other, nt_lt,
  nt_distinct, nt_distinct_bool, nt_distinct_other,
}
use smtstabilizer.Rewrite.{Terms, Model, IsSpelled, Rewritten, found, null}
use smtstabilizer.Rewrite.Meaning.{meaning, denote, pairwise}
use smtstabilizer.Rewrite.LogicSound.{different}
use smtstabilizer.Rewrite.LogicSound.{rewrite_logic_sound, rewrite_distinct_lem}
use smtstabilizer.Rewrite.EqualSound.{rewrite_eq_sound}
use smtstabilizer.Rewrite.Less.{rewrite_lt_sound}
use smtstabilizer.Rewrite.ScanSound.{IsTyped}
use smtstabilizer.Rewrite.Logic.{
  rewrite_not, rewrite_and, rewrite_or, rewrite_implies, rewrite_xor, rewrite_distinct,
}
use smtstabilizer.Rewrite.Equal.{rewrite_eq}
use smtstabilizer.Rewrite.Order.{on_front, rewrite_lt}
use smtstabilizer.Rewrite.Arity.{get_arity}
use smtstabilizer.Rewrite.Dispatch.{Overloads, done, rewrite_oper, overload_of}
use smtstabilizer.Rewrite.Leftover.{
  IsOf, rewrite_not-IsOf, rewrite_and-IsOf, rewrite_or-IsOf, rewrite_xor-IsOf, rewrite_implies-IsOf,
  rewrite_distinct-IsOf, rewrite_eq-IsOf, rewrite_lt-IsOf,
}
use smtstabilizer.Rewrite.Oper.{overloads, rewrite_many, rewrite_one}
use smtstabilizer.Rewrite.OperOrder.{is_logical}

-- What the rewriting of an application is to leave: a node with its truth, or operands of its kind.
abbrev pub Left : {tm : Terms} (m : Model tm) → NodeKind → List ℕ → Rewritten → Type 0
Left m t p (found y) = m.truth y ≡ meaning m t p
Left m t p (null k q) = (k ≡ t) × (meaning m t q ≡ meaning m t p)

module _ {tm : Terms} (m : Model tm) where
  Left-intro :
      (t : NodeKind) (p : List ℕ) (r : Rewritten)
      → denote m r ≡ meaning m t p
      → IsOf t r
      → Left m t p r
  Left-intro t p (found y) e k = e
  Left-intro t p (null k q) e f = (f, subst (λ l. meaning m l q ≡ meaning m t p) f e)

  -- `not` has one operand, the constants among the operands of `<` are numbers, and those among the
  -- operands of `=` have one spelling.
  abbrev pub Fits : NodeKind → List ℕ → Type 0
  Fits nt_not p = length p ≡ 1
  Fits nt_lt p = All (IsTyped tm) p
  Fits nt_eq p = All (IsSpelled tm) p
  Fits nt_eq_bool p = All (IsSpelled tm) p
  Fits nt_eq_other p = All (IsSpelled tm) p
  Fits _ p = Unit {0}

  module _ (others : Overloads) where
    implies-Left : (p : List ℕ) → Left m nt_implies p (on_front tm (rewrite_implies tm) p)
    unfolding meaning
    implies-Left [] = m.truth_true_node
    implies-Left (x ∷ p) =
        Left-intro nt_implies (x ∷ p) (rewrite_implies tm x p) (rewrite_logic_sound m x p).4
          (rewrite_implies-IsOf tm x p)

    lt-Left : (p : List ℕ) → All (IsTyped tm) p → Left m nt_lt p (on_front tm (rewrite_lt tm) p)
    unfolding meaning
    lt-Left [] t = m.truth_true_node
    lt-Left (x ∷ p) t =
        Left-intro nt_lt (x ∷ p) (rewrite_lt tm x p) (rewrite_lt_sound m x p t).0
          (rewrite_lt-IsOf tm x p)

    distinct_left :
        (t : NodeKind) (p : List ℕ)
        → ((q : List ℕ) → meaning m t q ≡ pairwise (different m) q)
        → meaning m t p ≡ pairwise (different m) p
        → denote m (rewrite_distinct tm t p) ≡ meaning m t p
    distinct_left t p e f = rewrite_distinct_lem m t p e ∙ sym f

    no_kind : false ≡ true → ⊥
    no_kind h = ground arith

    rewrite_many-Left :
        (t : NodeKind) (p : List ℕ)
        → is_logical t ≡ true
        → Fits t p
        → (r : Rewritten) × (rewrite_oper (overloads tm others) t true p ≡ done r) × Left m t p r
    unfolding rewrite_oper rewrite_many rewrite_one get_arity overload_of is_logical meaning
        different
    rewrite_many-Left nt_and p h f = (
      rewrite_and tm p,
      refl,
      Left-intro nt_and p (rewrite_and tm p) (rewrite_logic_sound m 0 p).1 (rewrite_and-IsOf tm p),
    )
    rewrite_many-Left nt_or p h f = (
      rewrite_or tm p,
      refl,
      Left-intro nt_or p (rewrite_or tm p) (rewrite_logic_sound m 0 p).2 (rewrite_or-IsOf tm p),
    )
    rewrite_many-Left nt_xor p h f = (
      rewrite_xor tm p,
      refl,
      Left-intro nt_xor p (rewrite_xor tm p) (rewrite_logic_sound m 0 p).3 (rewrite_xor-IsOf tm p),
    )
    rewrite_many-Left nt_eq p h f = (
      rewrite_eq tm nt_eq p,
      refl,
      Left-intro nt_eq p (rewrite_eq tm nt_eq p) (rewrite_eq_sound m p f).0
          (rewrite_eq-IsOf tm nt_eq p),
    )
    rewrite_many-Left nt_eq_bool p h f = (
      rewrite_eq tm nt_eq_bool p,
      refl,
      Left-intro nt_eq_bool p (rewrite_eq tm nt_eq_bool p) (rewrite_eq_sound m p f).1
          (rewrite_eq-IsOf tm nt_eq_bool p),
    )
    rewrite_many-Left nt_eq_other p h f = (
      rewrite_eq tm nt_eq_other p,
      refl,
      Left-intro nt_eq_other p (rewrite_eq tm nt_eq_other p) (rewrite_eq_sound m p f).2
          (rewrite_eq-IsOf tm nt_eq_other p),
    )
    rewrite_many-Left nt_distinct p h f = (
      rewrite_distinct tm nt_distinct p,
      refl,
      Left-intro nt_distinct p (rewrite_distinct tm nt_distinct p)
          (distinct_left nt_distinct p (λ q. refl) refl) (rewrite_distinct-IsOf tm nt_distinct p),
    )
    rewrite_many-Left nt_distinct_bool p h f = (
      rewrite_distinct tm nt_distinct_bool p,
      refl,
      Left-intro nt_distinct_bool p (rewrite_distinct tm nt_distinct_bool p)
          (distinct_left nt_distinct_bool p (λ q. refl) refl)
          (rewrite_distinct-IsOf tm nt_distinct_bool p),
    )
    rewrite_many-Left nt_distinct_other p h f = (
      rewrite_distinct tm nt_distinct_other p,
      refl,
      Left-intro nt_distinct_other p (rewrite_distinct tm nt_distinct_other p)
          (distinct_left nt_distinct_other p (λ q. refl) refl)
          (rewrite_distinct-IsOf tm nt_distinct_other p),
    )
    rewrite_many-Left nt_implies p h f = (on_front tm (rewrite_implies tm) p, refl, implies-Left p)
    rewrite_many-Left nt_lt p h f = (on_front tm (rewrite_lt tm) p, refl, lt-Left p f)
    rewrite_many-Left nt_not [] h f = absurd (omega arith)
    rewrite_many-Left nt_not (x ∷ y ∷ p) h f = absurd (omega arith)
    rewrite_many-Left nt_not (x ∷ []) h f = (
      rewrite_not tm x,
      refl,
      Left-intro nt_not (x ∷ []) (rewrite_not tm x) (rewrite_logic_sound m x []).0
          (rewrite_not-IsOf tm x),
    )
    rewrite_many-Left _ p h f = absurd (no_kind h)

    -- Whether rewriting is on or off.
    pub rewrite-Left :
        (t : NodeKind) (p : List ℕ) (is_on : Bool)
        → is_logical t ≡ true
        → Fits t p
        → (r : Rewritten) × (rewrite_oper (overloads tm others) t is_on p ≡ done r) × Left m t p r
    unfolding rewrite_oper
    rewrite-Left t p true h f = rewrite_many-Left t p h f
    rewrite-Left t p false h f = (null t p, refl, (refl, refl))
