-- ===== src/Rewrite/AtMostSound.antt =====
-- The case `NT_LE` of the rewriter: where it keeps the truth of the comparison.
use mathlib.Core.Path.{subst}
use smtstabilizer.Common.{
  ℕ, Bool, true, false, ◌&&◌, List, [], ◌∷◌, reverse, ◌≡◌, refl, sym, ap, ◌∙◌, arith, Option-cases,
  Bool-cases, inl, inr, All, All-mono, ◌⊎◌, ◌≢◌,
}
use smtstabilizer.Kind.{nt_le, nt_eq}
use smtstabilizer.Rewrite.{Terms, Model, IsSpelled, Rewritten, found, null}
use smtstabilizer.Rewrite.Logic.{last_of, but_last}
use smtstabilizer.Rewrite.Equal.{
  const_at, rewrite_eq, eq_loop, eq_finish, unique, sort_with, constants_last,
}
use smtstabilizer.Rewrite.EqualSound.{rewrite_eq_lem}
use smtstabilizer.Rewrite.Order.{
  start_scan, scan_loop, le_step, between, le_as_eq, le_finish, rewrite_le,
}
use smtstabilizer.Rewrite.Meaning.{chain, chain_of, meaning, denote}
use smtstabilizer.Rewrite.Chains.{chain-last_of}
use smtstabilizer.Rewrite.ScanSound.{IsTyped, Ends, scan_lem, between_lem}
use smtstabilizer.Rewrite.AtMost.{le_step_lem}

module _ {tm : Terms} (m : Model tm) where
  open m use {same, below}

  -- Between two ends of one value, a chain of `<=` is a chain of `=`.
  squeeze :
      (x y : ℕ) (p : List ℕ)
      → same x (last_of y p) ≡ true
      → (chain below x (y ∷ p) ≡ chain same x (y ∷ p))
        × (chain below x (y ∷ p) ≡ chain same x (but_last y p))
  unfolding chain last_of but_last
  squeeze x y [] h = (ground (arith, m.below_antisym x y), ground (arith, m.below_antisym x y))
  squeeze x y (z ∷ p) h =
      let end = last_of z p in
      elim (Bool-cases (same x y)) [
        | inl e ↦
            let (all, some_of) = squeeze y z p (m.same_trans y x end (m.same_sym x y e) h) in
            (ground (arith, m.below_antisym x y, all), ground (arith, m.below_antisym x y, some_of))
        | inr d ↦
            let apart =
              apart_chain x y end (chain below y (z ∷ p)) h d
                (chain-last_of below m.below_trans y z p) in
            (rw d apart, rw d apart)
      ]
    where
      apart_chain :
          (x y end : ℕ) (rest : Bool)
          → same x end ≡ true
          → same x y ≡ false
          → (rest ≡ true → below y end ≡ true)
          → (below x y && rest) ≡ false
      apart_chain x y end rest h d k =
          ground (arith, m.below_antisym x y, m.below_antisym x end, m.below_trans y end x)

  eq_finish_kind :
      (q : List ℕ)
      → ((z : ℕ) × (eq_finish tm nt_eq q ≡ found z))
        ⊎ ((r : List ℕ) × (eq_finish tm nt_eq q ≡ null nt_eq r))
  unfolding eq_finish
  eq_finish_kind [] = inl (tm.true_node, refl)
  eq_finish_kind (a ∷ []) = inl (tm.true_node, refl)
  eq_finish_kind (a ∷ b ∷ p) = inr (reverse (a ∷ b ∷ p), refl)

  -- `=` stays `=`.
  rewrite_eq_kind :
      (np : List ℕ)
      → ((z : ℕ) × (rewrite_eq tm nt_eq np ≡ found z))
        ⊎ ((q : List ℕ) × (rewrite_eq tm nt_eq np ≡ null nt_eq q))
  unfolding rewrite_eq
  rewrite_eq_kind np =
      elim (Option-cases (eq_loop tm (reverse (unique (sort_with (constants_last tm) np))))) [
        | inl e ↦ inl (tm.false_node, rw (e, rewrite_eq) refl)
        | inr (q, e) ↦ elim (eq_finish_kind q) [
          | inl (z, f) ↦ inl (z, rw (e, rewrite_eq) f)
          | inr (r, f) ↦ inr (r, rw (e, rewrite_eq) f)
        ]
      ]

  equation : (q : List ℕ) → meaning m nt_eq q ≡ chain_of same q
  unfolding meaning
  equation q = refl

  equal_ends :
      (x y : ℕ)
      → (const_at tm x && const_at tm y) ≡ true
      → IsTyped tm x
      → IsTyped tm y
      → tm.real_eq (tm.to_real x) (tm.to_real y) ≡ true
      → same x y ≡ true
  equal_ends x y c t u e = ground (arith, m.real_eq_same x y)

  -- Where the operands are left as they were, a chain of `=` says what the chain of `<=` said.
  abbrev Keeps : List ℕ → Rewritten → Bool → Type 0
  Keeps p result holds =
      ((meaning m nt_eq p ≡ holds) ⊎ ((q : List ℕ) → result ≢ null nt_eq q))
      → denote m result ≡ holds

  IsTyped-IsSpelled : (x : ℕ) → IsTyped tm x → IsSpelled tm x
  unfolding const_at
  IsTyped-IsSpelled x t = λ c. ground arith

  le_as_eq_lem :
      (p np : List ℕ) (holds : Bool)
      → All (IsTyped tm) np
      → chain_of same np ≡ holds
      → Keeps p (le_as_eq tm p np) holds
  unfolding le_as_eq
  le_as_eq_lem p np holds t v either = elim (rewrite_eq_kind np) [
    | inl (z, e) ↦
        rw (e, denote)
          (ap (denote m) (sym e)
            ∙ rewrite_eq_lem m nt_eq np (All-mono IsTyped-IsSpelled np t) (λ q. equation q)
            ∙ v)
    | inr (q, e) ↦ elim either [
      | inl w ↦ rw (e, denote) w
      | inr k ↦ absurd (k p (rw (e, le_as_eq) refl))
    ]
  ]

  All-but_last : (y : ℕ) (p : List ℕ) → All (IsTyped tm) (y ∷ p) → All (IsTyped tm) (but_last y p)
  unfolding but_last
  All-but_last y [] t = tt
  All-but_last y (z ∷ p) t = (t.0, All-but_last z p t.1)

  All-last_of : (y : ℕ) (p : List ℕ) → All (IsTyped tm) (y ∷ p) → IsTyped tm (last_of y p)
  unfolding last_of
  All-last_of y [] t = t.0
  All-last_of y (z ∷ p) t = All-last_of z p t.1

  le_chain : (p : List ℕ) → meaning m nt_le p ≡ chain_of below p
  unfolding meaning
  le_chain p = refl

  le_finish_lem :
      (p np : List ℕ) (holds : Bool)
      → All (IsTyped tm) np
      → chain_of below np ≡ holds
      → Keeps p (le_finish tm p np) holds
  unfolding le_finish chain
  le_finish_lem p [] holds t v = λ either. m.truth_true_node ∙ v
  le_finish_lem p (x ∷ []) holds t v = λ either. m.truth_true_node ∙ v
  le_finish_lem p (x ∷ y ∷ np) holds t v =
      let end = last_of y np in
      elim (Bool-cases (const_at tm x && const_at tm end)) [
        | inr d ↦ rw d (λ either. le_chain (x ∷ y ∷ np) ∙ v)
        | inl c ↦ rw c (elim (Bool-cases (tm.real_eq (tm.to_real x) (tm.to_real end))) [
          | inr d ↦ rw d (λ either. le_chain (x ∷ y ∷ np) ∙ v)
          | inl e ↦
              let ends = equal_ends x end c t.0 (All-last_of y np t.1) e in
              rw e (
                le_as_eq_lem p (x ∷ but_last y np) holds (t.0, All-but_last y np t.1)
                  (sym (squeeze x y np ends).1 ∙ v))
        ])
      ]

  rewrite_le_lem :
      (front : ℕ) (p : List ℕ)
      → All (IsTyped tm) (front ∷ p)
      → Keeps (front ∷ p) (rewrite_le tm front p) (chain below front p)
  unfolding rewrite_le
  rewrite_le_lem front p t =
      let ends = scan_lem tm below m.below_trans (le_step tm) (le_step_lem m) front p t in
      elim (Option-cases (scan_loop (le_step tm) p (start_scan tm front))) [
        | inl e ↦
            let broken_chain =
              subst (λ z. Ends tm below m.below_trans z (chain below front p)) e ends in
            rw (e, rewrite_le) (λ either. m.truth_false_node ∙ sym broken_chain)
        | inr (s, e) ↦
            let (o, v) = subst (λ z. Ends tm below m.below_trans z (chain below front p)) e ends in
            let (kept, typed) = between_lem tm below m.below_trans s o in
            rw (e, rewrite_le)
              (le_finish_lem (front ∷ p) (between tm s) (chain below front p) typed (kept ∙ v))
      ]

  rewrite_le_kept :
      (front : ℕ) (p : List ℕ)
      → All (IsTyped tm) (front ∷ p)
      → (same front (last_of front p) ≡ true)
        ⊎ ((q : List ℕ) → rewrite_le tm front p ≢ null nt_eq q)
      → denote m (rewrite_le tm front p) ≡ chain below front p
  unfolding last_of chain
  rewrite_le_kept front [] t either =
      rewrite_le_lem front [] t
        (elim either [ inl e ↦ inl (equation (front ∷ [])) | inr k ↦ inr k ])
  rewrite_le_kept front (y ∷ p) t either = rewrite_le_lem front (y ∷ p) t (elim either [
    | inl e ↦ inl (equation (front ∷ y ∷ p) ∙ sym (squeeze front y p e).0)
    | inr k ↦ inr k
  ])

  -- The rewriting of `<=` on number terms, in which every constant is a number, keeps the truth of
  -- the comparison in every reading of the nodes, if the first and the last operand have one value
  -- or if the kind does not become `=`.
  pub rewrite_le_sound :
      (front : ℕ) (p : List ℕ)
      → All (IsTyped tm) (front ∷ p)
      → (same front (last_of front p) ≡ true)
        ⊎ ((q : List ℕ) → rewrite_le tm front p ≢ null nt_eq q)
      → denote m (rewrite_le tm front p) ≡ meaning m nt_le (front ∷ p)
  rewrite_le_sound front p t either = rewrite_le_kept front p t either ∙ sym (le_chain (front ∷ p))
