-- ===== src/Kernel/Rebuild/Rows.antt =====
-- The rows of the graph in the third loop of `rebuild_graph` (src/kernel/kernel.cpp).
use smtstabilizer.Common.{
  ℕ, ◌<◌, ◌≡◌, refl, arith, Bool, true, false, ◌||◌, if◌then◌else◌, ◌==◌, ==_iff, List, [], ◌∷◌,
  length, get_or, set, get_or-set_self, get_or-set_ne, All, inl, inr, Bool-cases, ◌≢◌,
}

abbrev pub listed : ℕ → List ℕ → Bool
listed i [] = false
listed i (n ∷ ns) = let rest = listed i ns in i == n || rest

pub All-listed : (P : ℕ → Type 0) (ns : List ℕ) (i : ℕ) → All P ns → listed i ns ≡ true → P i
All-listed P [] i h l = absurd (ground arith)
All-listed P (n ∷ ns) i h l = elim (Bool-cases (i == n)) [
  | inl e ↦ rw ((==_iff i n).0 e) h.0
  | inr d ↦ All-listed P ns i h.1 (ground (arith, d))
]

module _ {ℓ} {A : Type ℓ} (key : A → ℕ) where
  abbrev pub keep_by : (ℕ → Bool) → List A → List A
  keep_by test [] = []
  keep_by test (x ∷ xs) = let rest = keep_by test xs in if test (key x) then x ∷ rest else rest

  pub keep_by-agree :
      (s t : ℕ → Bool) (xs : List A) → ((n : ℕ) → s n ≡ t n) → keep_by s xs ≡ keep_by t xs
  keep_by-agree s t [] h = refl
  keep_by-agree s t (x ∷ xs) h = rw (h (key x), keep_by-agree s t xs h) refl

  keep_by_idem : (test : ℕ → Bool) (xs : List A) → keep_by test (keep_by test xs) ≡ keep_by test xs
  keep_by_idem test [] = refl
  keep_by_idem test (x ∷ xs) = elim (Bool-cases (test (key x))) [
    | inl y ↦ rw (y, y, keep_by_idem test xs) refl
    | inr z ↦ rw (z, keep_by_idem test xs) refl
  ]

  -- What is left of the row of a processed node, and of any node.
  abbrev pub pruned_row : (ℕ → Bool) → ℕ → List A → List A
  pruned_row kept i row = if kept i then keep_by kept row else []

  abbrev pub remaining : (ℕ → Bool) → List ℕ → ℕ → List A → List A
  remaining kept ns i row = if listed i ns then pruned_row kept i row else row

  pub remaining-agree :
      (s t : ℕ → Bool) (ns : List ℕ) (i : ℕ) (row : List A)
      → ((n : ℕ) → s n ≡ t n)
      → remaining s ns i row ≡ remaining t ns i row
  remaining-agree s t ns i row h = rw (h i, keep_by-agree s t row h) refl

  pruned_row_idem :
      (kept : ℕ → Bool) (i : ℕ) (row : List A)
      → pruned_row kept i (pruned_row kept i row) ≡ pruned_row kept i row
  pruned_row_idem kept i row = elim (Bool-cases (kept i)) [
    | inl y ↦ rw y (keep_by_idem kept row)
    | inr z ↦ rw z refl
  ]

  -- One node after the other.
  pub remaining_both :
      (kept : ℕ → Bool) (n : ℕ) (ns : List ℕ) (i : ℕ) (row : List A)
      → remaining kept ns i (remaining kept (n ∷ []) i row) ≡ remaining kept (n ∷ ns) i row
  remaining_both kept n ns i row = elim (Bool-cases (i == n)) [
    | inr d ↦ rw d refl
    | inl e ↦ elim (Bool-cases (listed i ns)) [
      | inl l ↦ rw (e, l) (pruned_row_idem kept i row)
      | inr l ↦ rw (e, l) refl
    ]
  ]

  -- The row of one node is replaced.
  pub remaining_one :
      (kept : ℕ → Bool) (rows : List (List A)) (n i : ℕ)
      → n < length rows
      → get_or (set rows n (pruned_row kept n (get_or rows n []))) i []
        ≡ remaining kept (n ∷ []) i (get_or rows i [])
  remaining_one kept rows n i l = elim (Bool-cases (i == n)) [
    | inl e ↦
        let same = (==_iff i n).0 e in
        rw (e, same) (get_or-set_self rows n (pruned_row kept n (get_or rows n [])) [] l)
    | inr d ↦ rw d (get_or-set_ne rows n i (pruned_row kept n (get_or rows n [])) [] (apart d))
  ]
    where
      apart : (i == n) ≡ false → n ≢ i
      apart d e = ground arith
