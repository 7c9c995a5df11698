-- ===== src/Rewrite/SumsEnds.antt =====
-- The rewriting of sums and products keeps their value.
use smtstabilizer.Common.{
  ℕ, ◌≤◌, Bool, true, false, if◌then◌else◌, List, ◌∷◌, ◌≡◌, refl, sym, ap, ◌∙◌, arith, Option, none,
  some, Bool-cases, inl, inr, All, ◌⊎◌,
}
use smtstabilizer.Kind.{NodeKind, nt_add, nt_mul}
use smtstabilizer.Rewrite.{Terms, is_cint, is_creal}
use smtstabilizer.Rewrite.Meaning.{folded}
use smtstabilizer.Rewrite.Sums.{
  Split, is_zero, is_one, split_loop, start_split, built, add_finish, rewrite_add, mul_finish,
  rewrite_mul,
}
use smtstabilizer.Rewrite.SumsSound.{
  Numbers, WithInts, WithoutInts, reals, total, amount, split_lem, built_lem, total-unit, worth,
}

module _ {tm : Terms} (n : Numbers tm) where
  open n use {V, value, sums, products}

  sum : List ℕ → V
  sum = total n sums

  product : List ℕ → V
  product = total n products

  -- The value of an application of `+` or `*`.
  unfoldable pub applied : NodeKind → List ℕ → V
  unfolding sum product
  applied nt_add p = sum p
  applied nt_mul p = product p
  applied _ p = sums.unit

  abbrev IsNumber : ℕ → Type 0
  IsNumber c = (is_cint (tm.node c) ≡ true) ⊎ (is_creal (tm.node c) ≡ true)

  other_side : {b c : Bool} → b ≡ false → (c ≡ true) ⊎ (b ≡ true) → c ≡ true
  other_side e (inl h) = h
  other_side e (inr h) = absurd (ground arith)

  is_zero_value : (c : ℕ) → IsNumber c → is_zero tm c ≡ true → value c ≡ sums.unit
  unfolding is_zero
  is_zero_value c k h = elim (Bool-cases (is_creal (tm.node c))) [
    | inl y ↦ n.real_zero_value c y (ground arith)
    | inr z ↦ n.int_zero_value c (other_side z k) (ground (arith, other_side z k))
  ]

  is_one_value : (c : ℕ) → IsNumber c → is_one tm c ≡ true → value c ≡ products.unit
  unfolding is_one
  is_one_value c k h = elim (Bool-cases (is_creal (tm.node c))) [
    | inl y ↦ n.real_one_value c y (ground arith)
    | inr z ↦ n.int_one_value c (other_side z k) (ground (arith, other_side z k))
  ]

  add_built : (np : List ℕ) → worth n applied (built tm nt_add tm.int_zero np) ≡ sum np
  unfolding applied
  add_built np = built_lem n sums applied nt_add tm.int_zero np (λ p. refl) n.value_int_zero

  mul_built : (np : List ℕ) → worth n applied (built tm nt_mul tm.int_one np) ≡ product np
  unfolding applied
  mul_built np = built_lem n products applied nt_mul tm.int_one np (λ p. refl) n.value_int_one

  add_finish_lem :
      (cst : Option ℕ) (np : List ℕ)
      → ((c : ℕ) → cst ≡ some c → IsNumber c)
      → worth n applied (add_finish tm (record { cst = cst; np = np }))
        ≡ amount n sums (record { cst = cst; np = np })
  unfolding add_finish amount total folded sum
  add_finish_lem none np k = add_built np
  add_finish_lem (some c) np k = elim (Bool-cases (is_zero tm c)) [
    | inl y ↦ rw y (add_built np ∙ total-unit n sums c np (is_zero_value c (k c refl) y))
    | inr z ↦ rw z (add_built (c ∷ np))
  ]

  zero_found :
      (c : ℕ)
      → value (
          if is_cint (tm.node c)
          then tm.mk_const_int tm.int_zero
          else tm.mk_const_real tm.real_zero)
        ≡ sums.unit
  zero_found c = ground (arith, n.value_int_zero, n.value_real_zero)

  mul_finish_lem :
      (cst : Option ℕ) (np : List ℕ)
      → ((c : ℕ) → cst ≡ some c → IsNumber c)
      → worth n applied (mul_finish tm (record { cst = cst; np = np }))
        ≡ amount n products (record { cst = cst; np = np })
  unfolding mul_finish amount total folded product
  mul_finish_lem none np k = mul_built np
  mul_finish_lem (some c) np k = elim (Bool-cases (is_zero tm c)) [
    | inl y ↦ rw y (
        zero_found c
        ∙ sym (
            ap (λ v. products.op v (product np)) (is_zero_value c (k c refl) y)
            ∙ n.zero_times (product np)))
    | inr z ↦ rw z (elim (Bool-cases (is_one tm c)) [
      | inl y ↦ rw y (mul_built np ∙ total-unit n products c np (is_one_value c (k c refl) y))
      | inr w ↦ rw w (mul_built (c ∷ np))
    ])
  ]

  -- The rewriting of sums and of products keeps their value in every reading of the nodes in which
  -- the operations on integer constants are exact and a real constant has the value that its node
  -- stores, if the number constants among the operands are all integers, or none is an integer and
  -- one at most is real.
  pub rewrite_sums_sound :
      (p : List ℕ)
      → All (WithInts tm) p ⊎ (All (WithoutInts tm) p × (reals tm p ≤ 1))
      → (worth n applied (rewrite_add tm p) ≡ applied nt_add p)
        × (worth n applied (rewrite_mul tm p) ≡ applied nt_mul p)
  unfolding rewrite_add rewrite_mul applied
  rewrite_sums_sound p t =
      let s = split_loop tm tm.int_add tm.real_add p (start_split tm) in
      let q = split_loop tm tm.int_mul tm.real_mul p (start_split tm) in
      let (v, k) = split_lem n sums tm.real_add p t in
      let (w, l) = split_lem n products tm.real_mul p t in
      (add_finish_lem s.cst s.np (number s k) ∙ v, mul_finish_lem q.cst q.np (number q l) ∙ w)
    where
      number :
          (s : Split)
          → (((c : ℕ) → s.cst ≡ some c → is_cint (tm.node c) ≡ true)
              ⊎ ((c : ℕ) → s.cst ≡ some c → is_creal (tm.node c) ≡ true))
          → (c : ℕ) → s.cst ≡ some c
          → IsNumber c
      number s (inl k) c e = inl (k c e)
      number s (inr k) c e = inr (k c e)
