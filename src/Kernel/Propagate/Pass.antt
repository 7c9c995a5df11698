-- ===== src/Kernel/Propagate/Pass.antt =====
-- One pass over a table in place: each listed node is rewritten from its own entry and the entries
-- of its dependencies. In an order that visits dependencies first the final table solves the
-- recursive equations, so every such order gives the same table.
use mathlib.Core.List.{Memᴰ}
use mathlib.Core.List.Memᴰ
use native.Mathlib.Decide.{ℕ_discrete}
use smtstabilizer.Common.{
  ℕ, ◌<◌, ◌≡◌, ◌≢◌, ◌⊎◌, inl, inr, refl, sym, ap, ◌∙◌, List, [], ◌∷◌, length, get_or, set, All,
  All-mono, All-intro, All-mem, length-set, get_or-set_self, get_or-set_ne,
}

abbrev pub entry : List ℕ → ℕ → ℕ
entry table n = get_or table n 0

abbrev pub NotIn : ℕ → List ℕ → Type 0
NotIn d ns = All (λ n. d ≢ n) ns

pub mem_cases : (d : ℕ) (ns : List ℕ) → Memᴰ d ns ⊎ NotIn d ns
mem_cases d [] = inr tt
mem_cases d (n ∷ ns) = elim (ℕ_discrete d n) [
  | yes e ↦ inl (Memᴰ.head e)
  | no ne ↦ elim (mem_cases d ns) [ inl m ↦ inl (Memᴰ.tail m) | inr out ↦ inr (ne, out) ]
]

pub NotIn-mem : (d : ℕ) (ns : List ℕ) → NotIn d ns → ¬ Memᴰ d ns
NotIn-mem d ns out m = All-mem _ ns d out m refl

pub NotIn-intro : (d : ℕ) (ns : List ℕ) → ¬ Memᴰ d ns → NotIn d ns
NotIn-intro d ns out = All-intro _ ns (λ n m e. out (Memᴰ.cast e m))

module _ (F : ℕ → ℕ → List ℕ → ℕ) where
  unfoldable pub pass : List ℕ → List ℕ → List ℕ
  pass table [] = table
  pass table (n ∷ ns) = pass (set table n (F n (entry table n) table)) ns

  pub length-pass : (table ns : List ℕ) → length (pass table ns) ≡ length table
  unfolding pass
  length-pass table [] = refl
  length-pass table (n ∷ ns) =
      length-pass (set table n (F n (entry table n) table)) ns ∙ length-set table n _

  pub pass-outside :
      (table ns : List ℕ) (d : ℕ) → NotIn d ns → entry (pass table ns) d ≡ entry table d
  unfolding pass
  pass-outside table [] d out = refl
  pass-outside table (n ∷ ns) d out =
      pass-outside (set table n (F n (entry table n) table)) ns d out.1
      ∙ get_or-set_ne table n d _ 0 (λ e. out.0 (sym e))

  module _ (deps : ℕ → List ℕ) where
    -- `F` reads the entries of the dependencies only.
    abbrev pub IsLocal : Type 0
    IsLocal =
        (n seed : ℕ) (t u : List ℕ)
        → All (λ d. entry t d ≡ entry u d) (deps n)
        → F n seed t ≡ F n seed u

    -- No node occurs twice, or depends on itself or on a later one.
    abbrev pub IsOrdered : List ℕ → Type 0
    IsOrdered [] = Unit
    IsOrdered (n ∷ ns) = NotIn n ns × All (λ d. (d ≢ n) × NotIn d ns) (deps n) × IsOrdered ns

    pub pass-mem :
        (table ns : List ℕ) (i : ℕ)
        → IsLocal
        → IsOrdered ns
        → All (λ n. n < length table) ns
        → Memᴰ i ns
        → entry (pass table ns) i ≡ F i (entry table i) (pass table ns)
    unfolding pass
    pass-mem table [] i local ordered fits m = elim m [ ]
    pass-mem table (n ∷ ns) i local ordered fits (Memᴰ.head e) =
        let t = set table n (F n (entry table n) table) in
        rw e (
          pass-outside t ns n ordered.0
          ∙ get_or-set_self table n (F n (entry table n) table) 0 fits.0
          ∙ local n (entry table n) table (pass t ns) (
              All-mono
                (λ d (ne, out).
                  sym (pass-outside t ns d out ∙ get_or-set_ne table n d _ 0 (λ q. ne (sym q))))
                _ ordered.1))
    pass-mem table (n ∷ ns) i local ordered fits (Memᴰ.tail m) =
        let v = F n (entry table n) table in
        let t = set table n v in
        let ne : n ≢ i = λ e. NotIn-mem n ns ordered.0 (Memᴰ.cast e m) in
        pass-mem t ns i local ordered.2 (All-mono (λ x l. rw (length-set table n v) l) _ fits.1) m
        ∙ ap (λ seed. F i seed (pass t ns)) (get_or-set_ne table n i v 0 ne)
