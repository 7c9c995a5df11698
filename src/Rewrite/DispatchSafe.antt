-- ===== src/Rewrite/DispatchSafe.antt =====
-- `rewrite_oper` and `getArity` agree on every kind.
use smtstabilizer.Common.{
  ℕ, Bool, true, false, ◌&&◌, ◌==◌, List, [], ◌∷◌, length, ◌≡◌, ◌≢◌, ◌↔◌, ◌≤◌, refl, arith,
  Bool-cases, inl, inr,
}
use smtstabilizer.Kind.{NodeKind, nt_null}
use smtstabilizer.Rewrite.Arity.{Arity, exactly, any, three_or_four, get_arity}
use smtstabilizer.Rewrite.Dispatch.{
  Overload, nothing, unary, binary, ternary, four_ary, n_ary, overload_of, Overloads, refused,
  past_end, is_wrong_number, call, rewrite_oper,
}

-- Whether an arity promises the operands that an overload reads.
abbrev promises : Arity → ℕ → Bool
promises (exactly n) k = n == k
promises any k = false
promises three_or_four k = false

suits : Arity → Overload → Bool
suits a nothing = true
suits a unary = promises a 1
suits a binary = promises a 2
suits a ternary = promises a 3
suits a four_ary = promises a 4
suits a n_ary = true

get_arity-overload_of : (t : NodeKind) → suits (get_arity t) (overload_of t) ≡ true
unfolding get_arity overload_of suits
get_arity-overload_of nt_null = refl
get_arity-overload_of _ = refl

length_promised :
    (a : Arity) (k size : ℕ)
    → 1 ≤ k
    → promises a k ≡ true
    → is_wrong_number a size ≡ false
    → size ≡ k
unfolding is_wrong_number
length_promised (exactly n) k size b h e = ground arith
length_promised any k size b h e = absurd (ground arith)
length_promised three_or_four k size b h e = absurd (ground arith)

call-ne-past_end :
    (o : Overloads) (t : NodeKind) (a : Arity) (v : Overload) (p : List ℕ)
    → suits a v ≡ true
    → is_wrong_number a (length p) ≡ false
    → call o t v p ≢ past_end
unfolding call suits
call-ne-past_end o t a nothing p h e = λ c. cc
call-ne-past_end o t a n_ary p h e = λ c. cc
call-ne-past_end o t a unary [] h e =
    absurd (omega (arith, length_promised a 1 0 (omega arith) h e))
call-ne-past_end o t a unary (x ∷ p) h e = λ c. cc
call-ne-past_end o t a binary (x ∷ y ∷ p) h e = λ c. cc
call-ne-past_end o t a binary (x ∷ []) h e =
    absurd (omega (arith, length_promised a 2 1 (omega arith) h e))
call-ne-past_end o t a binary [] h e =
    absurd (omega (arith, length_promised a 2 0 (omega arith) h e))
call-ne-past_end o t a ternary (x ∷ y ∷ z ∷ p) h e = λ c. cc
call-ne-past_end o t a ternary (x ∷ y ∷ []) h e =
    absurd (omega (arith, length_promised a 3 2 (omega arith) h e))
call-ne-past_end o t a ternary (x ∷ []) h e =
    absurd (omega (arith, length_promised a 3 1 (omega arith) h e))
call-ne-past_end o t a ternary [] h e =
    absurd (omega (arith, length_promised a 3 0 (omega arith) h e))
call-ne-past_end o t a four_ary (x ∷ y ∷ z ∷ w ∷ p) h e = λ c. cc
call-ne-past_end o t a four_ary (x ∷ y ∷ z ∷ []) h e =
    absurd (omega (arith, length_promised a 4 3 (omega arith) h e))
call-ne-past_end o t a four_ary (x ∷ y ∷ []) h e =
    absurd (omega (arith, length_promised a 4 2 (omega arith) h e))
call-ne-past_end o t a four_ary (x ∷ []) h e =
    absurd (omega (arith, length_promised a 4 1 (omega arith) h e))
call-ne-past_end o t a four_ary [] h e =
    absurd (omega (arith, length_promised a 4 0 (omega arith) h e))

call-ne-refused :
    (o : Overloads) (t : NodeKind) (v : Overload) (p : List ℕ) → call o t v p ≢ refused
unfolding call
call-ne-refused o t nothing p = λ c. cc
call-ne-refused o t n_ary p = λ c. cc
call-ne-refused o t unary [] = λ c. cc
call-ne-refused o t unary (x ∷ p) = λ c. cc
call-ne-refused o t binary (x ∷ y ∷ p) = λ c. cc
call-ne-refused o t binary _ = λ c. cc
call-ne-refused o t ternary (x ∷ y ∷ z ∷ p) = λ c. cc
call-ne-refused o t ternary _ = λ c. cc
call-ne-refused o t four_ary (x ∷ y ∷ z ∷ w ∷ p) = λ c. cc
call-ne-refused o t four_ary _ = λ c. cc

-- For every kind and all operands, and whatever the overloads of `rewrite` answer: `rewrite_oper`
-- reads no operand past the end, and it throws exactly when rewriting is on and the kind has a fixed
-- number of operands above 0 that is not the number given.
pub rewrite_oper_safe :
    (o : Overloads) (t : NodeKind) (is_on : Bool) (p : List ℕ)
    → (rewrite_oper o t is_on p ≢ past_end)
      × ((rewrite_oper o t is_on p ≡ refused)
          ↔ ((is_on && is_wrong_number (get_arity t) (length p)) ≡ true))
unfolding rewrite_oper
rewrite_oper_safe o t false p = (λ c. cc, (λ c. absurd (cc), λ c. cc))
rewrite_oper_safe o t true p =
    let agree = get_arity-overload_of t in
    elim (Bool-cases (is_wrong_number (get_arity t) (length p))) [
      | inl y ↦ rw y (λ c. cc, (λ c. refl, λ c. refl))
      | inr z ↦ rw z (
        call-ne-past_end o t (get_arity t) (overload_of t) p agree z,
        (λ c. absurd (call-ne-refused o t (overload_of t) p c), λ c. cc),
      )
    ]
