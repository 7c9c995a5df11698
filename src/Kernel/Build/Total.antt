-- ===== src/Kernel/Build/Total.antt =====
-- `Kernel::Kernel` on an acyclic heap: it ends, throws nothing, and stores the graph of the nodes
-- reachable from the assertions in topological order.
use mathlib.Core.Path.{subst}
use mathlib.Core.List.{Memᴰ}
use mathlib.Core.List.Memᴰ
use mathlib.Core.Logic.{⊎_elim}
use smtstabilizer.Common.{
  ℕ, zero, suc, ◌+◌, ◌<◌, ◌≤◌, ◌≡◌, ◌≢◌, ◌⊎◌, inl, inr, refl, sym, ap, ◌∙◌, arith, false, List, [],
  ◌∷◌, ◌++◌, reverse, length, some, none, All, All-mono, length-append, length-reverse, ◌==◌,
  ==_iff, Bool-cases, Option-cases,
}
use smtstabilizer.Common.Outcome.{Outcome, ok}
use smtstabilizer.Node.{NodeManager}
use smtstabilizer.Sort.{StdHash}
use smtstabilizer.Kernel.State.{Kernel, size_max}
use smtstabilizer.Kernel.Build.{Index, index_put, Walk, successors, walk_step, walk}
use smtstabilizer.Kernel.Build.Count.{fresh_work, fresh_work-open, fresh_work-place, unplaced-pos}
use smtstabilizer.Kernel.Build.Invariant.{IsPlaced, IsBuilding, Waits, IsWalking, IsAcyclic}
use smtstabilizer.Kernel.Build.Steps.{
  IsPlaced-put, put-some, put_self, not-IsPlaced_open, IsWalking-open,
}
use smtstabilizer.Kernel.Build.Place.{place_node-IsPlacing}

module _ (nm : NodeManager) (bound : ℕ) (rank : ℕ → ℕ) where
  -- What waits below the top still waits when the top, now placed, is popped.
  Waits-pop :
      (m m' : Index) (n x : ℕ) (rest : List ℕ)
      → ((c : ℕ) → IsPlaced m c → IsPlaced m' c)
      → IsPlaced m' n
      → n ≢ x
      → Waits nm bound rank m x (n ∷ rest)
      → Waits nm bound rank m' x rest
  Waits-pop m m' n x rest keep placed ne w = go w.above w.below w.stack w.lower w.needs
    where
      go :
          (above below : List ℕ)
          → n ∷ rest ≡ above ++ x ∷ below
          → All (λ y. rank y < rank x) above
          → All (λ c. IsPlaced m c ⊎ Memᴰ c above) (successors nm x)
          → Waits nm bound rank m' x rest
      go [] below e lower needs = absurd (ne (cc))
      go (y ∷ above) below e lower needs =
          let same : y ≡ n = cc in
          record {
            above = above;
            below = below;
            stack = cc;
            lower = lower.1;
            needs =
                All-mono
                  (λ c need.
                    ⊎_elim (λ p. inl (keep c p))
                      (λ mem.
                        ⊎_elim (λ q. inl (subst (IsPlaced m') (sym (q ∙ same)) placed)) inr
                          (Memᴰ.cases_cons mem))
                      need)
                  _ needs;
          }

  -- A node in progress on top of the stack has all its successors placed.
  top-ready :
      (m : Index) (n : ℕ) (rest : List ℕ)
      → Waits nm bound rank m n (n ∷ rest)
      → All (IsPlaced m) (successors nm n)
  top-ready m n rest w = go w.above w.below w.stack w.lower w.needs
    where
      go :
          (above below : List ℕ)
          → n ∷ rest ≡ above ++ n ∷ below
          → All (λ y. rank y < rank n) above
          → All (λ c. IsPlaced m c ⊎ Memᴰ c above) (successors nm n)
          → All (IsPlaced m) (successors nm n)
      go [] below e lower needs =
          All-mono (λ c need. ⊎_elim (λ p. p) (λ mem. absurd (Memᴰ.not-nil mem)) need) _ needs
      go (y ∷ above) below e lower needs =
          let same : n ≡ y = cc in absurd (omega (arith, ap rank same))

  IsWalking-pop :
      (m m' : Index) (k k' : Kernel) (n : ℕ) (rest : List ℕ)
      → ((c : ℕ) → IsPlaced m c → IsPlaced m' c)
      → ((x : ℕ) → m' x ≡ some size_max → (n ≢ x) × (m x ≡ some size_max))
      → IsPlaced m' n
      → IsBuilding nm bound m' k'
      → IsWalking nm bound rank (record { visit = n ∷ rest; node2index = m; kernel = k })
      → IsWalking nm bound rank (record { visit = rest; node2index = m'; kernel = k' })
  IsWalking-pop m m' k k' n rest keep still placed b inv = record {
    building = b;
    bounded = inv.bounded.1;
    waits = λ x e.
        let (ne, old) = still x e in Waits-pop m m' n x rest keep placed ne (inv.waits x old);
    roots =
        All-mono
          (λ a h.
            ⊎_elim (λ p. inl (keep a p))
              (λ mem.
                ⊎_elim (λ q. inl (subst (IsPlaced m') (sym q) placed)) inr (Memᴰ.cases_cons mem))
              h)
          _ inv.roots;
  }

  unfoldable pub work : Walk → ℕ
  work w = length w.visit + fresh_work nm w.node2index bound

  -- What one round gives.
  record Advances (w : Walk) (result : Outcome Walk) : Type 0 where
    after : Walk
    returns : result ≡ ok after
    keeps : IsWalking nm bound rank after
    falls : work after < work w

  module _ (std : StdHash) (acyclic : IsAcyclic nm bound rank) where
    open_round :
        (n : ℕ) (rest : List ℕ) (m : Index) (k : Kernel)
        → let w : Walk = record { visit = n ∷ rest; node2index = m; kernel = k } in
          m n ≡ none → IsWalking nm bound rank w → Advances w (walk_step nm std n rest w)
    unfolding walk_step work
    open_round n rest m k fresh inv = record {
      after = record {
        visit = reverse (successors nm n) ++ n ∷ rest;
        node2index = index_put m n size_max;
        kernel = k;
      };
      returns = rw fresh;
      keeps = IsWalking-open nm bound rank _ n rest acyclic refl fresh inv;
      falls = omega (
        arith,
        fresh_work-open nm m n bound inv.bounded.0 fresh,
        length-append (reverse (successors nm n)) (n ∷ rest),
        length-reverse (successors nm n),
      );
    }

    place_round :
        (n : ℕ) (rest : List ℕ) (m : Index) (k : Kernel)
        → let w : Walk = record { visit = n ∷ rest; node2index = m; kernel = k } in
          m n ≡ some size_max → IsWalking nm bound rank w → Advances w (walk_step nm std n rest w)
    unfolding walk_step work
    place_round n rest m k e inv =
        let size = length k.d_nodes in
        let m' = index_put m n size in
        let unset = not-IsPlaced_open m n e in
        let room : size < size_max =
          omega (arith, inv.building.fits, acyclic.small, unplaced-pos m n bound inv.bounded.0 e) in
        let placing =
          place_node-IsPlacing nm bound rank std m n k acyclic.small inv.bounded.0 e
            (top-ready m n rest (inv.waits n e)) inv.building in
        record {
          after = record { visit = rest; node2index = m'; kernel = placing.after };
          returns = rw (e, placing.returns);
          keeps =
              IsWalking-pop m m' k placing.after n rest (λ c p. IsPlaced-put m n size c unset p)
                (λ x q.
                  ⊎_elim (λ (same, at_end). absurd (omega arith)) (λ r. r)
                    (put-some m n size x size_max q))
                (size, put_self m n size, λ q. absurd (omega arith)) placing.keeps inv;
          falls = omega (arith, fresh_work-place nm m n size bound inv.bounded.0 e);
        }

    skip_round :
        (n : ℕ) (rest : List ℕ) (m : Index) (k : Kernel) (i : ℕ)
        → let w : Walk = record { visit = n ∷ rest; node2index = m; kernel = k } in
          m n ≡ some i
          → (i == size_max) ≡ false
          → IsWalking nm bound rank w
          → Advances w (walk_step nm std n rest w)
    unfolding walk_step work
    skip_round n rest m k i e done inv =
        let placed : IsPlaced m n = (i, e, λ same. ground arith) in
        record {
          after = record { visit = rest; node2index = m; kernel = k };
          returns = rw (e, done);
          keeps =
              IsWalking-pop m m k k n rest (λ c p. p)
                (λ x q. ((λ same. not-IsPlaced_open m x q (subst (IsPlaced m) same placed)), q))
                placed inv.building inv;
          falls = omega arith;
        }

    walk_step-Advances :
        (n : ℕ) (rest : List ℕ) (m : Index) (k : Kernel)
        → let w : Walk = record { visit = n ∷ rest; node2index = m; kernel = k } in
          IsWalking nm bound rank w → Advances w (walk_step nm std n rest w)
    walk_step-Advances n rest m k inv = elim (Option-cases (m n)) [
      | inl fresh ↦ open_round n rest m k fresh inv
      | inr (i, e) ↦ elim (Bool-cases (i == size_max)) [
        | inl in_progress ↦
            place_round n rest m k (e ∙ ap some ((==_iff i size_max).0 in_progress)) inv
        | inr done ↦ skip_round n rest m k i e done inv
      ]
    ]

    -- With fuel for its work the walk returns, with nothing left on the stack.
    pub walk-returns :
        (fuel : ℕ) (visit : List ℕ) (m : Index) (k : Kernel)
        → let w : Walk = record { visit = visit; node2index = m; kernel = k } in
          IsWalking nm bound rank w
          → work w ≤ fuel
          → (w' : Walk) × (walk nm std fuel w ≡ ok w')
            × IsWalking nm bound rank w'
            × (w'.visit ≡ [])
    unfolding walk
    walk-returns zero [] m k inv h = (_, refl, inv, refl)
    walk-returns zero (n ∷ rest) m k inv h = absurd (unfold work in omega arith)
    walk-returns (suc fuel) [] m k inv h = (_, refl, inv, refl)
    walk-returns (suc fuel) (n ∷ rest) m k inv h =
        let round = walk_step-Advances n rest m k inv in
        let (w', returns, keeps, ends) =
          walk-returns fuel round.after.visit round.after.node2index round.after.kernel round.keeps
            (omega (arith, round.falls)) in
        (w', rw (round.returns) returns, keeps, ends)
