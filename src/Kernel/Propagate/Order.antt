-- ===== src/Kernel/Propagate/Order.antt =====
-- Two passes over tables that correspond under a renumbering give corresponding tables, whatever
-- the orders, if each order visits dependencies first.
use mathlib.Core.List.{Memᴰ, reverse-cons, reverse-reverse}
use smtstabilizer.Common.{
  ℕ, zero, suc, ◌<◌, ◌≡◌, ◌↔◌, inl, inr, sym, ap, ◌∙◌, arith, List, [], ◌∷◌, ◌++◌, reverse, length,
  All, All-mono, All-append, All-reverse, mem-reverse,
}
use smtstabilizer.Kernel.Propagate.Pass.{
  entry, mem_cases, NotIn-mem, NotIn-intro, pass, pass-outside, pass-mem, IsLocal, IsOrdered,
}

abbrev pub IsAscending : List ℕ → Type 0
IsAscending [] = Unit
IsAscending (n ∷ ns) = All (λ m. n < m) ns × IsAscending ns

abbrev pub IsDescending : List ℕ → Type 0
IsDescending [] = Unit
IsDescending (n ∷ ns) = All (λ m. m < n) ns × IsDescending ns

IsDescending-snoc :
    (ns : List ℕ) (n : ℕ) → IsDescending ns → All (λ m. n < m) ns → IsDescending (ns ++ n ∷ [])
IsDescending-snoc [] n d l = (tt, tt)
IsDescending-snoc (m ∷ ns) n d l =
    (All-append _ ns (n ∷ []) d.0 (l.0, tt), IsDescending-snoc ns n d.1 l.1)

pub IsDescending-reverse : (ns : List ℕ) → IsAscending ns → IsDescending (reverse ns)
IsDescending-reverse [] a = tt
IsDescending-reverse (n ∷ ns) a =
    rw (reverse-cons n ns)
      (IsDescending-snoc (reverse ns) n (IsDescending-reverse ns a.1) (All-reverse _ ns a.0))

pub mem-reverse_iff : (n : ℕ) (ns : List ℕ) → Memᴰ n (reverse ns) ↔ Memᴰ n ns
mem-reverse_iff n ns =
    (λ m. rw (reverse-reverse ns) at (mem-reverse n (reverse ns) m), mem-reverse n ns)

module _ (deps : ℕ → List ℕ) where
  pub IsOrdered-ascending :
      (F : ℕ → ℕ → List ℕ → ℕ)
      → ((n : ℕ) → All (λ d. d < n) (deps n))
      → (ns : List ℕ) → IsAscending ns
      → IsOrdered F deps ns
  IsOrdered-ascending F below [] a = tt
  IsOrdered-ascending F below (n ∷ ns) a = (
    All-mono (λ m l. omega arith) ns a.0,
    All-mono (λ d l. (omega arith, All-mono (λ m l'. omega arith) ns a.0)) _ (below n),
    IsOrdered-ascending F below ns a.1,
  )

  pub IsOrdered-descending :
      (F : ℕ → ℕ → List ℕ → ℕ)
      → ((n : ℕ) → All (λ d. n < d) (deps n))
      → (ns : List ℕ) → IsDescending ns
      → IsOrdered F deps ns
  IsOrdered-descending F above [] a = tt
  IsOrdered-descending F above (n ∷ ns) a = (
    All-mono (λ m l. omega arith) ns a.0,
    All-mono (λ d l. (omega arith, All-mono (λ m l'. omega arith) ns a.0)) _ (above n),
    IsOrdered-descending F above ns a.1,
  )

-- A pass whose order and tables suit it.
pub record IsPass (F : ℕ → ℕ → List ℕ → ℕ) (deps : ℕ → List ℕ) (table ns : List ℕ) : Type 0 where
  pub local : IsLocal F deps
  pub ordered : IsOrdered F deps ns
  pub below : All (λ n. n < length table) ns

module _ (F G : ℕ → ℕ → List ℕ → ℕ) (deps deps' : ℕ → List ℕ) (π : ℕ → ℕ) (size : ℕ) (rank : ℕ → ℕ)
    (t u ns ms : List ℕ) (p : IsPass F deps t ns) (q : IsPass G deps' u ms)
    (mem : (i : ℕ) → i < size → Memᴰ i ns ↔ Memᴰ (π i) ms)
    (start : (i : ℕ) → i < size → entry u (π i) ≡ entry t i)
    (lower : (i : ℕ) → i < size → All (λ d. (d < size) × (rank d < rank i)) (deps i))
    (same : (i seed : ℕ) (v w : List ℕ)
      → i < size
      → All (λ d. entry w (π d) ≡ entry v d) (deps i)
      → G (π i) seed w ≡ F i seed v) where
  pass-iso_fuel :
      (fuel i : ℕ) → rank i < fuel → i < size → entry (pass G u ms) (π i) ≡ entry (pass F t ns) i
  pass-iso_fuel zero i h l = absurd (omega arith)
  pass-iso_fuel (suc fuel) i h l = elim (mem_cases i ns) [
    | inl here ↦
        pass-mem G deps' u ms (π i) q.local q.ordered q.below ((mem i l).0 here)
        ∙ ap (λ s. G (π i) s (pass G u ms)) (start i l)
        ∙ same i (entry t i) (pass F t ns) (pass G u ms) l
            (All-mono (λ d (l', r). pass-iso_fuel fuel d (omega arith) l') _ (lower i l))
        ∙ sym (pass-mem F deps t ns i p.local p.ordered p.below here)
    | inr out ↦
        pass-outside G u ms (π i) (NotIn-intro (π i) ms (λ m. NotIn-mem i ns out ((mem i l).1 m)))
        ∙ start i l
        ∙ sym (pass-outside F t ns i out)
  ]

  pub pass-iso : (i : ℕ) → i < size → entry (pass G u ms) (π i) ≡ entry (pass F t ns) i
  pass-iso i l = pass-iso_fuel (suc (rank i)) i (omega arith) l
