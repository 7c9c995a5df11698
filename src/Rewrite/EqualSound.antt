-- ===== src/Rewrite/EqualSound.antt =====
-- The case `NT_EQ` of the rewriter keeps the truth of the equation.
use smtstabilizer.Common.{
  ℕ, Bool, true, false, ◌&&◌, ◌||◌, ◌==◌, List, [], ◌∷◌, ◌++◌, reverse, ◌≡◌, refl, sym, ap, ◌∙◌,
  arith, Option, none, some, Option-cases, Bool-cases, inl, inr, ==_iff, All, All-reverse,
}
use mathlib.Core.List.{reverse-cons, append_assoc}
use smtstabilizer.Kind.{NodeKind, nt_eq, nt_eq_bool, nt_eq_other}
use smtstabilizer.Rewrite.{Terms, Model, IsSpelled, is_cint, is_numeral, is_fp_bits}
use smtstabilizer.Rewrite.Logic.{has_repeat}
use smtstabilizer.Rewrite.Equal.{
  insert_with, sort_with, unique, const_at, constants_last, eq_loop, eq_finish, rewrite_eq,
}
use smtstabilizer.Rewrite.Reorder.{pairwise-sort_with}
use smtstabilizer.Rewrite.Meaning.{
  folded, conj, chain, chain_of, pairwise, meaning, denote, conj-append, conj-reverse,
}

has_repeat-append :
    (l : List ℕ) (y x : ℕ) → has_repeat (l ++ y ∷ x ∷ []) ≡ (has_repeat (l ++ y ∷ []) || y == x)
unfolding has_repeat
has_repeat-append [] y x = ground arith
has_repeat-append (a ∷ []) y x = ground arith
has_repeat-append (a ∷ b ∷ l) y x = ground (arith, has_repeat-append (b ∷ l) y x)

number_comm : (a b : ℕ) → (a == b) ≡ (b == a)
number_comm a b = ground arith

has_repeat-reverse : (l : List ℕ) → has_repeat (reverse l) ≡ has_repeat l
unfolding has_repeat
has_repeat-reverse [] = refl
has_repeat-reverse (x ∷ []) = refl
has_repeat-reverse (x ∷ y ∷ p) =
    ap has_repeat (
      reverse-cons x (y ∷ p)
      ∙ ap (λ l. l ++ x ∷ []) (reverse-cons y p)
      ∙ append_assoc (reverse p) (y ∷ []) (x ∷ []))
    ∙ has_repeat-append (reverse p) y x
    ∙ ap (λ l. has_repeat l || y == x) (sym (reverse-cons y p))
    ∙ ground (arith, has_repeat-reverse (y ∷ p), number_comm x y)

both : (a b : Bool) → (a && b) ≡ true → (a ≡ true) × (b ≡ true)
both a b h = ground arith

absorb : (s x y r : Bool) → s ≡ true → y ≡ x → (x && r) ≡ ((s && y) && (x && r))
absorb s x y r h e = ground arith

neither : (a b : Bool) → (a || b) ≡ false → (a ≡ false) × (b ≡ false)
neither a b h = ground arith

unique-cons : (y : ℕ) (p : List ℕ) → (tail : List ℕ) × (unique (y ∷ p) ≡ y ∷ tail)
unfolding unique
unique-cons y [] = ([], refl)
unique-cons y (z ∷ p) = elim (Bool-cases (y == z)) [
  | inl e ↦
      let (tail, f) = unique-cons z p in
      (tail, rw e (f ∙ ap (λ w. w ∷ tail) (sym ((==_iff y z).0 e))))
  | inr d ↦ (unique (z ∷ p), rw d refl)
]

has_repeat-unique : (p : List ℕ) → has_repeat (unique p) ≡ false
unfolding has_repeat unique
has_repeat-unique [] = refl
has_repeat-unique (x ∷ []) = refl
has_repeat-unique (x ∷ y ∷ p) =
    let (tail, f) = unique-cons y p in
    let ih = has_repeat-unique (y ∷ p) in
    elim (Bool-cases (x == y)) [
      | inl e ↦ rw e ih
      | inr d ↦ rw d (rw f (rw d (ap has_repeat (sym f) ∙ ih)))
    ]

conj-unique : (test : ℕ → Bool) (xs : List ℕ) → conj test (unique xs) ≡ conj test xs
unfolding unique folded
conj-unique test [] = refl
conj-unique test (x ∷ []) = refl
conj-unique test (x ∷ y ∷ p) = ground (arith, conj-unique test (y ∷ p), (==_iff x y).0)

All-insert_with :
    (P : ℕ → Type 0) (less : ℕ → ℕ → Bool) (a : ℕ) (xs : List ℕ)
    → P a
    → All P xs
    → All P (insert_with less a xs)
unfolding insert_with
All-insert_with P less a [] p h = (p, tt)
All-insert_with P less a (x ∷ xs) p h = elim (Bool-cases (less x a)) [
  | inl y ↦ rw y (h.0, All-insert_with P less a xs p h.1)
  | inr z ↦ rw z (p, h)
]

All-sort_with :
    (P : ℕ → Type 0) (less : ℕ → ℕ → Bool) (xs : List ℕ) → All P xs → All P (sort_with less xs)
unfolding sort_with
All-sort_with P less [] h = tt
All-sort_with P less (x ∷ xs) h =
    All-insert_with P less x (sort_with less xs) h.0 (All-sort_with P less xs h.1)

All-unique : (P : ℕ → Type 0) (xs : List ℕ) → All P xs → All P (unique xs)
unfolding unique
All-unique P [] h = tt
All-unique P (x ∷ []) h = h
All-unique P (x ∷ y ∷ p) h = elim (Bool-cases (x == y)) [
  | inl e ↦ rw e (All-unique P (y ∷ p) h.1)
  | inr d ↦ rw d (h.0, All-unique P (y ∷ p) h.1)
]

module _ {tm : Terms} (m : Model tm) where
  open m use {same}

  pub same_comm : (x y : ℕ) → same x y ≡ same y x
  same_comm x y = ground (arith, m.same_sym x y, m.same_sym y x)

  pairwise-unique : (xs : List ℕ) → pairwise same (unique xs) ≡ pairwise same xs
  unfolding pairwise unique folded
  pairwise-unique [] = refl
  pairwise-unique (x ∷ []) = refl
  pairwise-unique (x ∷ y ∷ p) =
      ground (
        arith,
        pairwise-unique (y ∷ p),
        conj-unique (same x) (y ∷ p),
        (==_iff x y).0,
        m.same_refl x,
      )

  pairwise-append :
      (xs : List ℕ) (a : ℕ) → pairwise same (xs ++ a ∷ []) ≡ (conj (same a) xs && pairwise same xs)
  unfolding pairwise folded
  pairwise-append [] a = refl
  pairwise-append (x ∷ xs) a =
      ground (arith, pairwise-append xs a, conj-append (same x) xs a, same_comm x a)

  pairwise-reverse : (xs : List ℕ) → pairwise same (reverse xs) ≡ pairwise same xs
  unfolding pairwise
  pairwise-reverse [] = refl
  pairwise-reverse (x ∷ xs) = rw (reverse-cons x xs) (
      pairwise-append (reverse xs) x
      ∙ ground (arith, conj-reverse (same x) xs, pairwise-reverse xs))

  conj-same : (x y : ℕ) (p : List ℕ) → same x y ≡ true → conj (same x) p ≡ conj (same y) p
  unfolding folded
  conj-same x y [] h = refl
  conj-same x y (z ∷ p) h =
      ground (arith, conj-same x y p h, m.same_trans x y z h, m.same_trans y x z, m.same_sym x y h)

  chain-pairwise : (x : ℕ) (p : List ℕ) → chain same x p ≡ pairwise same (x ∷ p)
  unfolding chain pairwise folded
  chain-pairwise x [] = refl
  chain-pairwise x (y ∷ p) = ground (arith, chain-pairwise y p, conj-same x y p)

  pub chain_of-pairwise : (p : List ℕ) → chain_of same p ≡ pairwise same p
  unfolding pairwise
  chain_of-pairwise [] = refl
  chain_of-pairwise (x ∷ p) = chain-pairwise x p

  eq_value : Option (List ℕ) → Bool
  eq_value none = false
  eq_value (some q) = pairwise same q

  pairwise_apart : (a b : ℕ) (p : List ℕ) → same a b ≡ false → pairwise same (a ∷ b ∷ p) ≡ false
  unfolding pairwise folded
  pairwise_apart a b p h = rw h refl

  pairwise_drop :
      (a b : ℕ) (p : List ℕ) → same a b ≡ true → pairwise same (b ∷ p) ≡ pairwise same (a ∷ b ∷ p)
  unfolding pairwise folded
  pairwise_drop a b p h =
      absorb (same a b) (conj (same b) p) (conj (same a) p) (pairwise same p) h (conj-same a b p h)

  -- Two distinct integer constants, and two distinct constants that are not both numbers, differ.
  cint_apart :
      (a b : ℕ)
      → (a == b) ≡ false
      → (is_cint (tm.node a) && is_cint (tm.node b)) ≡ true
      → same a b ≡ false
  cint_apart a b d h = ground (arith, m.cint_unique a b, (==_iff a b).1)

  const_apart :
      (a b : ℕ)
      → (a == b) ≡ false
      → (const_at tm a && const_at tm b) ≡ true
      → (is_numeral (tm.node a) && is_numeral (tm.node b)) ≡ false
      → (is_fp_bits (tm.node a) || is_fp_bits (tm.node b)) ≡ false
      → IsSpelled tm a
      → IsSpelled tm b
      → same a b ≡ false
  unfolding const_at
  const_apart a b d c n f sa sb = elim (Bool-cases (same a b)) [
    | inl y ↦
        let (ca, cb) = both (const_at tm a) (const_at tm b) c in
        absurd (
          ground (
            arith,
            sa ca,
            sb cb,
            m.canonical_unique a b,
            m.numeral_apart a b,
            m.numeral_apart b a,
            m.same_sym a b y,
            (==_iff a b).1,
          ))
    | inr z ↦ z
  ]

  real_decides :
      (a b : ℕ)
      → (is_numeral (tm.node a) && is_numeral (tm.node b)) ≡ true
      → tm.real_eq (tm.to_real a) (tm.to_real b) ≡ same a b
  real_decides a b h =
      let (na, nb) = both (is_numeral (tm.node a)) (is_numeral (tm.node b)) h in
      m.real_eq_same a b na nb

  eq_loop_lem :
      (q : List ℕ)
      → has_repeat q ≡ false
      → All (IsSpelled tm) q
      → eq_value (eq_loop tm q) ≡ pairwise same q
  unfolding eq_loop eq_value has_repeat
  eq_loop_lem [] h t = refl
  eq_loop_lem (a ∷ []) h t = refl
  eq_loop_lem (a ∷ b ∷ p) h t =
      let (d, k) = neither (a == b) (has_repeat (b ∷ p)) h in
      let apart = pairwise_apart a b p in
      let cnst = const_at tm a && const_at tm b in
      let cint = is_cint (tm.node a) && is_cint (tm.node b) in
      let numeral = is_numeral (tm.node a) && is_numeral (tm.node b) in
      let bits = is_fp_bits (tm.node a) || is_fp_bits (tm.node b) in
      elim (Bool-cases cnst) [
        | inr c ↦ rw c refl
        | inl c ↦ rw c (elim (Bool-cases cint) [
          | inl i ↦ rw i (sym (apart (cint_apart a b d i)))
          | inr i ↦ rw i (elim (Bool-cases numeral) [
            | inl n ↦
                rw (n, real_decides a b n)
                  (elim (Bool-cases (same a b)) [
                    | inl y ↦ rw y (eq_loop_lem (b ∷ p) k t.1 ∙ pairwise_drop a b p y)
                    | inr z ↦ rw z (sym (apart z))
                  ])
            | inr n ↦ rw n (elim (Bool-cases bits) [
              | inl f ↦ rw f refl
              | inr f ↦ rw f (sym (apart (const_apart a b d c n f t.0 t.1.0)))
            ])
          ])
        ])
      ]

  eq_finish_lem :
      (t : NodeKind) (q : List ℕ)
      → ((p : List ℕ) → meaning m t p ≡ chain_of same p)
      → denote m (eq_finish tm t q) ≡ pairwise same q
  unfolding eq_finish pairwise folded
  eq_finish_lem t [] e = m.truth_true_node
  eq_finish_lem t (a ∷ []) e = m.truth_true_node
  eq_finish_lem t (a ∷ b ∷ p) e =
      e (reverse (a ∷ b ∷ p))
      ∙ chain_of-pairwise (reverse (a ∷ b ∷ p))
      ∙ pairwise-reverse (a ∷ b ∷ p)

  pub rewrite_eq_lem :
      (t : NodeKind) (p : List ℕ)
      → All (IsSpelled tm) p
      → ((q : List ℕ) → meaning m t q ≡ chain_of same q)
      → denote m (rewrite_eq tm t p) ≡ chain_of same p
  unfolding rewrite_eq eq_value
  rewrite_eq_lem t p spelled e =
      let sorted = sort_with (constants_last tm) p in
      let ends =
        eq_loop_lem (reverse (unique sorted))
          (has_repeat-reverse (unique sorted) ∙ has_repeat-unique sorted)
          (All-reverse (IsSpelled tm) (unique sorted) (
            All-unique (IsSpelled tm) sorted
              (All-sort_with (IsSpelled tm) (constants_last tm) p spelled)))
        ∙ pairwise-reverse (unique sorted)
        ∙ pairwise-unique sorted
        ∙ pairwise-sort_with same same_comm (constants_last tm) p
        ∙ sym (chain_of-pairwise p) in
      elim (Option-cases (eq_loop tm (reverse (unique sorted)))) [
        | inl f ↦ rw (f, denote) (m.truth_false_node ∙ ap eq_value (sym f) ∙ ends)
        | inr (q, f) ↦ rw (f, denote) (eq_finish_lem t q e ∙ ap eq_value (sym f) ∙ ends)
      ]

  pub rewrite_eq_sound :
      (p : List ℕ)
      → All (IsSpelled tm) p
      → (denote m (rewrite_eq tm nt_eq p) ≡ meaning m nt_eq p)
        × (denote m (rewrite_eq tm nt_eq_bool p) ≡ meaning m nt_eq_bool p)
        × (denote m (rewrite_eq tm nt_eq_other p) ≡ meaning m nt_eq_other p)
  unfolding meaning
  rewrite_eq_sound p spelled = (
    rewrite_eq_lem nt_eq p spelled (λ q. refl),
    rewrite_eq_lem nt_eq_bool p spelled (λ q. refl),
    rewrite_eq_lem nt_eq_other p spelled (λ q. refl),
  )
