-- ===== src/Rewrite/ScanSound.antt =====
-- The scan of the operands of a comparison, for any transitive relation that the comparison of
-- constants decides.
use smtstabilizer.Common.{
  ℕ, suc, Bool, true, false, ◌&&◌, ltb, List, [], ◌∷◌, reverse, ◌≡◌, refl, sym, ◌∙◌, arith, Option,
  none, some, Option-cases, Bool-cases, inl, inr, ◌≤◌, All, All-reverse,
}
use mathlib.Core.Path.{subst}
use smtstabilizer.Rewrite.{Terms, is_numeral}
use smtstabilizer.Rewrite.Equal.{const_at}
use smtstabilizer.Rewrite.Order.{
  Scan, keep_const, keep_other, start_scan, scan_loop, skip_consts, between,
}
use smtstabilizer.Rewrite.Meaning.{chain, chain_of}
use smtstabilizer.Rewrite.Chains.{on_consts, chain_of-reverse, chain_of-skip_consts}

-- A constant is a number.
abbrev pub IsTyped : Terms → ℕ → Type 0
IsTyped tm x = is_numeral (tm.node x) ≡ const_at tm x

module _ (tm : Terms) (r : ℕ → ℕ → Bool)
    (trans : (x y z : ℕ) → r x y ≡ true → r y z ≡ true → r x z ≡ true) where
  abbrev pub backwards : ℕ → ℕ → Bool
  backwards x y = r y x

  abbrev pub consts_backwards : ℕ → ℕ → Bool
  consts_backwards x y = on_consts tm r y x

  -- The chain of the elements of `np`.
  abbrev pub scanned : Scan → Bool
  scanned s = chain backwards s.back s.before

  abbrev top_related : ℕ → List ℕ → Bool
  top_related x [] = false
  top_related x (a ∷ q) = r a x

  pub record Ordered (s : Scan) : Type 0 where
    pub last_is_back : 1 ≤ s.suf_count → s.last_const ≡ some s.back
    pub const_counts : const_at tm s.back ≡ true → 1 ≤ s.suf_count
    pub top : 2 ≤ s.suf_count → top_related s.back s.before ≡ true
    pub reach :
        (c x : ℕ) → s.last_const ≡ some c → scanned s ≡ true → r s.back x ≡ true → r c x ≡ true
    pub numeral : (c : ℕ) → s.last_const ≡ some c → is_numeral (tm.node c) ≡ true
    pub consts : chain consts_backwards s.back s.before ≡ true
    pub typed : All (IsTyped tm) (s.back ∷ s.before)

  start_scan-Ordered : (front : ℕ) → IsTyped tm front → Ordered (start_scan tm front)
  unfolding start_scan chain
  start_scan-Ordered front t = elim (Bool-cases (is_numeral (tm.node front))) [
    | inl n ↦ rw n (record {
      last_is_back = λ h. refl;
      const_counts = λ h. omega arith;
      top = λ h. absurd (omega arith);
      reach = λ c x e h k. ground arith;
      numeral = λ c e. ground arith;
      consts = refl;
      typed = (t, tt);
    })
    | inr z ↦ rw z (record {
      last_is_back = λ h. absurd (omega arith);
      const_counts = λ h. absurd (ground arith);
      top = λ h. absurd (omega arith);
      reach = λ c x e h k. absurd (ground arith);
      numeral = λ c e. absurd (ground arith);
      consts = refl;
      typed = (t, tt);
    })
  ]

  pub keep_other-Ordered :
      (s : Scan) (x : ℕ)
      → IsTyped tm x
      → is_numeral (tm.node x) ≡ false
      → Ordered s
      → Ordered (keep_other s x)
  unfolding keep_other chain
  keep_other-Ordered s x t n o = record {
    last_is_back = λ h. absurd (omega arith);
    const_counts = λ h. absurd (ground arith);
    top = λ h. absurd (omega arith);
    reach = λ c z e h k. ground (arith, trans s.back x z, o.reach c z);
    numeral = o.numeral;
    consts = ground (arith, o.consts);
    typed = (t, o.typed);
  }

  -- The constant at the end is dropped: it lies between the one before it and the new one.
  drop-Ordered :
      (x b : ℕ) (q : List ℕ) (n : ℕ) (l : Option ℕ)
      → IsTyped tm x
      → is_numeral (tm.node x) ≡ true
      → r b x ≡ true
      → 2 ≤ n
      → Ordered (record { back = b; before = q; suf_count = n; last_const = l })
      → Ordered (record { back = x; before = q; suf_count = 2; last_const = some x })
        × (chain backwards x q ≡ chain backwards b q)
  unfolding chain
  drop-Ordered x b [] n l t v rel h o = absurd (ground (arith, o.top))
  drop-Ordered x b (a ∷ q) n l t v rel h o =
      let ab = o.top h in
      let ax = trans a b x ab rel in
      (
        record {
          last_is_back = λ k. refl;
          const_counts = λ k. omega arith;
          top = λ k. ax;
          reach = λ c z e k j. ground arith;
          numeral = λ c e. ground arith;
          consts = ground (arith, o.consts);
          typed = (t, o.typed.1);
        },
        rw (ab, ax) refl,
      )

  add-Ordered :
      (s : Scan) (x : ℕ)
      → IsTyped tm x
      → is_numeral (tm.node x) ≡ true
      → (const_at tm s.back ≡ true → r s.back x ≡ true)
      → (2 ≤ suc s.suf_count → r s.back x ≡ true)
      → Ordered s
      → Ordered (record {
        back = x;
        before = s.back ∷ s.before;
        suf_count = suc s.suf_count;
        last_const = some x;
      })
  unfolding chain
  add-Ordered s x t v rel two o = record {
    last_is_back = λ k. refl;
    const_counts = λ k. omega arith;
    top = two;
    reach = λ c z e k j. ground arith;
    numeral = λ c e. ground arith;
    consts = ground (arith, o.consts);
    typed = (t, o.typed);
  }

  -- The chain so far and the chain that the remaining operands add to it.
  abbrev pub whole : Scan → List ℕ → Bool
  whole s p = scanned s && chain r s.back p

  pub keep_other-whole :
      (s : Scan) (x : ℕ) (p : List ℕ) → whole (keep_other s x) p ≡ whole s (x ∷ p)
  unfolding keep_other chain
  keep_other-whole s x p = ground arith

  pub keep_const_lem :
      (s : Scan) (x : ℕ) (p : List ℕ)
      → IsTyped tm x
      → is_numeral (tm.node x) ≡ true
      → ((c : ℕ) → s.last_const ≡ some c → r c x ≡ true)
      → Ordered s
      → Ordered (keep_const s x) × (whole (keep_const s x) p ≡ whole s (x ∷ p))
  unfolding keep_const chain
  keep_const_lem s x p t v compared o =
      let rel : 1 ≤ s.suf_count → r s.back x ≡ true = λ h. compared s.back (o.last_is_back h) in
      elim (Bool-cases (ltb 2 (suc s.suf_count))) [
        | inl y ↦
            let many : 2 ≤ s.suf_count = ground arith in
            let back_rel = rel (omega arith) in
            let (o', e) =
              drop-Ordered x s.back s.before s.suf_count s.last_const t v back_rel many o in
            rw y (o', rw (e, back_rel) refl)
        | inr z ↦ rw z (
          add-Ordered s x t v (λ h. rel (o.const_counts h)) (λ h. rel (omega arith)) o,
          ground arith,
        )
      ]

  -- What a step and the loop should answer: none where the chain is broken.
  abbrev pub Steps : Option Scan → Scan → ℕ → List ℕ → Type 0
  Steps none s x p = whole s (x ∷ p) ≡ false
  Steps (some s') s x p = Ordered s' × (whole s' p ≡ whole s (x ∷ p))

  abbrev pub Ends : Option Scan → Bool → Type 0
  Ends none holds = holds ≡ false
  Ends (some s) holds = Ordered s × (scanned s ≡ holds)

  scan_loop_lem :
      (step : Scan → ℕ → Option Scan)
      → ((s : Scan) (x : ℕ) (p : List ℕ) → IsTyped tm x → Ordered s → Steps (step s x) s x p)
      → (p : List ℕ) (s : Scan) → All (IsTyped tm) p
      → Ordered s
      → Ends (scan_loop step p s) (whole s p)
  unfolding scan_loop chain
  scan_loop_lem step ok [] s t o = (o, ground arith)
  scan_loop_lem step ok (x ∷ p) s t o = elim (Option-cases (step s x)) [
    | inl e ↦ rw (e, Ends) (subst (λ z. Steps z s x p) e (ok s x p t.0 o))
    | inr (s', e) ↦
        let next : Steps (some s') s x p = subst (λ z. Steps z s x p) e (ok s x p t.0 o) in
        rw (e, Ends)
          (subst (Ends (scan_loop step p s')) next.1 (scan_loop_lem step ok p s' t.1 next.0))
  ]

  start_scan-whole : (front : ℕ) (p : List ℕ) → whole (start_scan tm front) p ≡ chain r front p
  unfolding start_scan chain
  start_scan-whole front p = ground arith

  -- The scan of all operands finds the chain broken, or leaves a vector with the same chain.
  pub scan_lem :
      (step : Scan → ℕ → Option Scan)
      → ((s : Scan) (x : ℕ) (p : List ℕ) → IsTyped tm x → Ordered s → Steps (step s x) s x p)
      → (front : ℕ) (p : List ℕ) → All (IsTyped tm) (front ∷ p)
      → Ends (scan_loop step p (start_scan tm front)) (chain r front p)
  scan_lem step ok front p t =
      subst (Ends (scan_loop step p (start_scan tm front))) (start_scan-whole front p)
        (scan_loop_lem step ok p (start_scan tm front) t.1 (start_scan-Ordered front t.0))

  -- On constants it does not matter which of the two is named first.
  on_consts_comm : (x y : ℕ) → on_consts tm r y x ≡ on_consts tm backwards x y
  on_consts_comm x y = ground arith

  turn_chain :
      (x : ℕ) (l : List ℕ) → chain consts_backwards x l ≡ chain (on_consts tm backwards) x l
  unfolding chain
  turn_chain x [] = refl
  turn_chain x (y ∷ l) = ground (arith, turn_chain y l, on_consts_comm x y)

  turn : (l : List ℕ) → chain_of consts_backwards l ≡ chain_of (on_consts tm backwards) l
  turn [] = refl
  turn (x ∷ l) = turn_chain x l

  -- The elements that are left between the constants at the two ends have the chain of them all.
  All-skip_consts : (l : List ℕ) → All (IsTyped tm) l → All (IsTyped tm) (skip_consts tm l)
  unfolding skip_consts
  All-skip_consts [] t = tt
  All-skip_consts (x ∷ []) t = t
  All-skip_consts (x ∷ y ∷ p) t = elim (Bool-cases (const_at tm x && const_at tm y)) [
    | inl e ↦ rw e (All-skip_consts (y ∷ p) t.1)
    | inr e ↦ rw e t
  ]

  pub between_lem :
      (s : Scan)
      → Ordered s
      → (chain_of r (between tm s) ≡ scanned s) × All (IsTyped tm) (between tm s)
  unfolding between
  between_lem s o =
      let np = s.back ∷ s.before in
      let tail = skip_consts tm np in
      let (kept, consts) = chain_of-skip_consts tm backwards np (sym (turn np) ∙ o.consts) in
      let turned = chain_of-reverse (on_consts tm r) tail ∙ turn tail ∙ consts in
      let (kept', consts') = chain_of-skip_consts tm r (reverse tail) turned in
      (
        kept' ∙ chain_of-reverse r tail ∙ kept,
        All-skip_consts (reverse tail) (All-reverse (IsTyped tm) tail (All-skip_consts np o.typed)),
      )
