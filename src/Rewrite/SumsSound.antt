-- ===== src/Rewrite/SumsSound.antt =====
-- The cases `NT_ADD` and `NT_MUL` of the rewriter keep the value of the application, where the
-- number constants among the operands are all integers, or are one real constant at most: operations
-- on real constants round.
use mathlib.Core.Path.{subst}
use mathlib.Core.Option.{some-injective}
use smtstabilizer.Common.{
  ℕ, suc, ◌+◌, ◌≤◌, if◌then◌else◌, Bool, true, false, List, [], ◌∷◌, reverse, ◌≡◌, refl, sym, ap,
  ◌∙◌, arith, Option, none, some, Bool-cases, inl, inr, All, ◌⊎◌,
}
use smtstabilizer.Kind.{NodeKind}
use smtstabilizer.Rewrite.{Terms, Rewritten, found, null, is_cint, is_creal}
use smtstabilizer.Rewrite.Meaning.{folded, folded-reverse}
use smtstabilizer.Rewrite.Sums.{
  Split, fold_int, fold_real, split_step, split_loop, start_split, built,
}

-- A commutative operation with a unit on the values of the nodes, that the operations on integer
-- constants compute. Nothing is said of the operations on real constants.
pub record Operation (tm : Terms) (V : Type 0) (value : ℕ → V)
    (int_op : tm.Integer → tm.Integer → tm.Integer) : Type 0 where
  pub op : V → V → V
  pub unit : V
  pub op_comm : (a b : V) → op a b ≡ op b a
  pub op_assoc : (a b c : V) → op (op a b) c ≡ op a (op b c)
  pub op_unit : (a : V) → op unit a ≡ a
  pub value_int_op :
      (x y : ℕ)
      → is_cint (tm.node x) ≡ true
      → is_cint (tm.node y) ≡ true
      → value (tm.mk_const_int (int_op (tm.to_int x) (tm.to_int y))) ≡ op (value x) (value y)

-- The sums and the products of one reading of the nodes. The value of a real constant is the number
-- that its node stores.
pub record Numbers (tm : Terms) : Type 1 where
  pub V : Type 0
  pub value : ℕ → V
  pub sums : Operation tm V value tm.int_add
  pub products : Operation tm V value tm.int_mul
  pub zero_times : (a : V) → products.op sums.unit a ≡ sums.unit
  pub mk_const_int_is_cint : (i : tm.Integer) → is_cint (tm.node (tm.mk_const_int i)) ≡ true
  pub mk_const_real_is_creal : (r : tm.Real) → is_creal (tm.node (tm.mk_const_real r)) ≡ true
  pub value_int_zero : value (tm.mk_const_int tm.int_zero) ≡ sums.unit
  pub value_real_zero : value (tm.mk_const_real tm.real_zero) ≡ sums.unit
  pub value_int_one : value (tm.mk_const_int tm.int_one) ≡ products.unit
  pub int_zero_value :
      (x : ℕ)
      → is_cint (tm.node x) ≡ true
      → tm.int_eq (tm.to_int x) tm.int_zero ≡ true
      → value x ≡ sums.unit
  pub real_zero_value :
      (x : ℕ)
      → is_creal (tm.node x) ≡ true
      → tm.real_eq (tm.to_real x) tm.real_zero ≡ true
      → value x ≡ sums.unit
  pub int_one_value :
      (x : ℕ)
      → is_cint (tm.node x) ≡ true
      → tm.int_eq (tm.to_int x) tm.int_one ≡ true
      → value x ≡ products.unit
  pub real_one_value :
      (x : ℕ)
      → is_creal (tm.node x) ≡ true
      → tm.real_eq (tm.to_real x) tm.real_one ≡ true
      → value x ≡ products.unit

-- The number constants among the operands are integers; none of them is.
abbrev pub WithInts : Terms → ℕ → Type 0
WithInts tm x = is_creal (tm.node x) ≡ true → is_cint (tm.node x) ≡ true

abbrev pub WithoutInts : Terms → ℕ → Type 0
WithoutInts tm x = is_cint (tm.node x) ≡ false

-- How many real constants stand among the operands.
abbrev pub reals : Terms → List ℕ → ℕ
reals tm [] = 0
reals tm (x ∷ p) = let rest = reals tm p in if is_creal (tm.node x) then suc rest else rest

-- The value of what a call of `rewrite` leaves, given that of an application.
abbrev pub worth : {tm : Terms} (n : Numbers tm) → (NodeKind → List ℕ → n.V) → Rewritten → n.V
worth n apply (found x) = n.value x
worth n apply (null t p) = apply t p

module _ {tm : Terms} (n : Numbers tm) {int_op : tm.Integer → tm.Integer → tm.Integer}
    (o : Operation tm n.V n.value int_op) where
  open n use {V, value}
  open o use {op, unit}

  swap : (a b c : V) → op a (op b c) ≡ op b (op a c)
  swap a b c = sym (o.op_assoc a b c) ∙ ap (λ d. op d c) (o.op_comm a b) ∙ o.op_assoc b a c

  unfoldable pub total : List ℕ → V
  total p = folded op unit value p

  -- What the operands read so far amount to.
  unfoldable pub amount : Split → V
  unfolding total
  amount s = elim s.cst [ none ↦ total s.np | some c ↦ op (value c) (total s.np) ]

  -- Every constant that has been put together is of one type.
  abbrev Holds : (ℕ → Type 0) → Split → Type 0
  Holds C s = (c : ℕ) → s.cst ≡ some c → C c

  other_lem :
      (cst : Option ℕ) (x : ℕ) (np : List ℕ)
      → amount (record { cst = cst; np = x ∷ np })
        ≡ op (value x) (amount (record { cst = cst; np = np }))
  unfolding amount total folded
  other_lem none x np = refl
  other_lem (some c) x np = swap (value c) (value x) (total np)

  some_holds : (C : ℕ → Type 0) (d : ℕ) → C d → (c : ℕ) → some d ≡ some c → C c
  some_holds C d h c e = subst C (some-injective d c e) h

  abbrev IsInt : ℕ → Type 0
  IsInt c = is_cint (tm.node c) ≡ true

  abbrev IsReal : ℕ → Type 0
  IsReal c = is_creal (tm.node c) ≡ true

  -- The operands, the first one innermost.
  onto : List ℕ → V → V
  onto [] v = v
  onto (x ∷ p) v = onto p (op (value x) v)

  onto-op : (p : List ℕ) (a v : V) → onto p (op a v) ≡ op a (onto p v)
  unfolding onto
  onto-op [] a v = refl
  onto-op (x ∷ p) a v = ap (onto p) (swap (value x) a v) ∙ onto-op p a (op (value x) v)

  onto-total : (p : List ℕ) → onto p unit ≡ total p
  unfolding onto total folded
  onto-total [] = refl
  onto-total (x ∷ p) = onto-op p (value x) unit ∙ ap (op (value x)) (onto-total p)

  abbrev held : Option ℕ → ℕ
  held none = 0
  held (some c) = 1

  start_amount : (p : List ℕ) → onto p (amount (start_split tm)) ≡ onto p unit
  unfolding amount total folded
  start_amount p = refl

  -- Every number constant is put together with the ones before it, and the value is kept.
  abbrev pub Typed : List ℕ → Type 0
  Typed p = All (WithInts tm) p ⊎ (All (WithoutInts tm) p × (reals tm p ≤ 1))

  -- The node for what is left of the operands has their value.
  pub built_lem :
      (apply : NodeKind → List ℕ → V) (t : NodeKind) (i : tm.Integer) (np : List ℕ)
      → ((p : List ℕ) → apply t p ≡ total p)
      → value (tm.mk_const_int i) ≡ unit
      → worth n apply (built tm t i np) ≡ total np
  unfolding built total folded
  built_lem apply t i [] e u = u
  built_lem apply t i (x ∷ []) e u = sym (o.op_comm (value x) unit ∙ o.op_unit (value x))
  built_lem apply t i (x ∷ y ∷ np) e u =
      e (reverse (x ∷ y ∷ np)) ∙ folded-reverse op unit swap value (x ∷ y ∷ np)

  -- A constant of the unit's value may be left out.
  pub total-unit : (c : ℕ) (np : List ℕ) → value c ≡ unit → total np ≡ op (value c) (total np)
  total-unit c np h = sym (ap (λ v. op v (total np)) h ∙ o.op_unit (total np))

  module _ (real_op : tm.Real → tm.Real → tm.Real) where
    abbrev StepOk : (ℕ → Type 0) → (ℕ → Type 0) → Type 0
    StepOk O C =
        (s : Split) (x : ℕ)
        → O x
        → Holds C s
        → Holds C (split_step tm int_op real_op s x)
          × (amount (split_step tm int_op real_op s x) ≡ op (value x) (amount s))

    -- An integer, another constant and any other operand are added to what there is.
    int_lem :
        (cst : Option ℕ) (x : ℕ) (np : List ℕ)
        → is_cint (tm.node x) ≡ true
        → ((c : ℕ) → cst ≡ some c → is_cint (tm.node c) ≡ true)
        → (is_cint (tm.node (fold_int tm int_op real_op cst x)) ≡ true)
          × (op (value (fold_int tm int_op real_op cst x)) (total np)
              ≡ op (value x) (amount (record { cst = cst; np = np })))
    unfolding fold_int amount
    int_lem none x np h k = (h, refl)
    int_lem (some c) x np h k = (
      n.mk_const_int_is_cint (int_op (tm.to_int c) (tm.to_int x)),
      ap (λ v. op v (total np)) (o.value_int_op c x (k c refl) h)
          ∙ o.op_assoc (value c) (value x) (total np)
          ∙ swap (value c) (value x) (total np),
    )

    real_step :
        (x : ℕ) (np : List ℕ)
        → is_cint (tm.node x) ≡ false
        → is_creal (tm.node x) ≡ true
        → split_step tm int_op real_op (record { cst = none; np = np }) x
          ≡ record { cst = some x; np = np }
    unfolding split_step fold_real
    real_step x np t i = rw (t, i) refl

    other_step :
        (x : ℕ) (cst : Option ℕ) (np : List ℕ)
        → is_cint (tm.node x) ≡ false
        → is_creal (tm.node x) ≡ false
        → split_step tm int_op real_op (record { cst = cst; np = np }) x
          ≡ record { cst = cst; np = x ∷ np }
    unfolding split_step
    other_step x cst np t z = rw (t, z) refl

    -- What the loop keeps, from the state that a round leads to back to the state before it.
    abbrev Keeps : List ℕ → Split → Type 0
    Keeps p s =
        Holds IsReal (split_loop tm int_op real_op p s)
        × (amount (split_loop tm int_op real_op p s) ≡ onto p (amount s))

    onward :
        (x : ℕ) (p : List ℕ) (s s' : Split)
        → split_step tm int_op real_op s x ≡ s'
        → amount s' ≡ op (value x) (amount s)
        → Keeps p s'
        → Keeps (x ∷ p) s
    unfolding split_loop onto
    onward x p s s' e v (k, w) =
        subst
          (λ z.
            Holds IsReal (split_loop tm int_op real_op p z)
            × (amount (split_loop tm int_op real_op p z) ≡ onto p (op (value x) (amount s))))
          (sym e) (k, w ∙ ap (onto p) v)

    real_lem :
        (x : ℕ) (np : List ℕ)
        → amount (record { cst = some x; np = np })
          ≡ op (value x) (amount (record { cst = none; np = np }))
    unfolding amount
    real_lem x np = refl

    ints_step : StepOk (WithInts tm) IsInt
    unfolding split_step amount
    ints_step s x t k = elim (Bool-cases (is_cint (tm.node x))) [
      | inl i ↦
          let (held, v) = int_lem s.cst x s.np i k in
          rw i (some_holds IsInt (fold_int tm int_op real_op s.cst x) held, v)
      | inr z ↦ rw (z, not_real z t) (k, other_lem s.cst x s.np)
    ]
      where
        not_real : {b c : Bool} → b ≡ false → (c ≡ true → b ≡ true) → c ≡ false
        not_real e f = ground arith

    split_loop_lem :
        (O C : ℕ → Type 0)
        → StepOk O C
        → (p : List ℕ) (s : Split) → All O p
        → Holds C s
        → Holds C (split_loop tm int_op real_op p s)
          × (amount (split_loop tm int_op real_op p s) ≡ onto p (amount s))
    unfolding split_loop onto
    split_loop_lem O C ok [] s t k = (k, refl)
    split_loop_lem O C ok (x ∷ p) s t k =
        let (k', v) = ok s x t.0 k in
        let (k'', w) = split_loop_lem O C ok p (split_step tm int_op real_op s x) t.1 k' in
        (k'', w ∙ ap (onto p) v)

    -- A real constant is met once at most, so no two are put together.
    single_loop_lem :
        (p : List ℕ) (cst : Option ℕ) (np : List ℕ)
        → All (WithoutInts tm) p
        → reals tm p + held cst ≤ 1
        → Holds IsReal (record { cst = cst; np = np })
        → Keeps p (record { cst = cst; np = np })
    unfolding split_loop onto
    single_loop_lem [] cst np t l k = (k, refl)
    single_loop_lem (x ∷ p) (some c) np t l k = elim (Bool-cases (is_creal (tm.node x))) [
      | inl i ↦ absurd (ground (arith, i))
      | inr z ↦
          onward x p _ _ (other_step x (some c) np t.0 z) (other_lem (some c) x np)
            (single_loop_lem p (some c) (x ∷ np) t.1 (ground (arith, z)) k)
    ]
    single_loop_lem (x ∷ p) none np t l k = elim (Bool-cases (is_creal (tm.node x))) [
      | inl i ↦
          onward x p _ _ (real_step x np t.0 i) (real_lem x np)
            (single_loop_lem p (some x) np t.1 (ground (arith, i)) (some_holds IsReal x i))
      | inr z ↦
          onward x p _ _ (other_step x none np t.0 z) (other_lem none x np)
            (single_loop_lem p none (x ∷ np) t.1 (ground (arith, z)) k)
    ]

    pub split_lem :
        (p : List ℕ)
        → Typed p
        → (amount (split_loop tm int_op real_op p (start_split tm)) ≡ total p)
          × (Holds IsInt (split_loop tm int_op real_op p (start_split tm))
              ⊎ Holds IsReal (split_loop tm int_op real_op p (start_split tm)))
    split_lem p typed = elim typed [
      | inl t ↦
          let (k, v) =
            split_loop_lem (WithInts tm) IsInt ints_step p (start_split tm) t (nothing IsInt) in
          (v ∙ start ∙ onto-total p, inl k)
      | inr (t, l) ↦
          let (k, v) = single_loop_lem p none [] t (omega arith) (nothing IsReal) in
          (v ∙ start ∙ onto-total p, inr k)
    ]
      where
        nothing : (C : ℕ → Type 0) (c : ℕ) → none ≡ some c → C c
        nothing C c e = absurd (ground arith)

        start : onto p (amount (start_split tm)) ≡ onto p unit
        start = start_amount p
