-- ===== src/Kernel/Build/Steps.antt =====
-- The three branches of a round of the walk keep its invariant.
use mathlib.Core.Path.{ap₂}
use mathlib.Core.Logic.{⊎_elim}
use mathlib.Core.List.{append_assoc}
use mathlib.Core.List.Memᴰ
use native.Mathlib.Decide.{ℕ_discrete}
use smtstabilizer.Common.{
  ℕ, ◌<◌, ◌≤◌, ◌≡◌, ◌≢◌, ◌⊎◌, inl, inr, refl, sym, ap, ◌∙◌, arith, List, [], ◌∷◌, ◌++◌, map,
  reverse, some, none, All, All-reverse, mem-reverse, All-intro, All-mono, All-append,
}
use smtstabilizer.Node.{NodeManager}
use smtstabilizer.Kernel.State.{Kernel, size_max}
use smtstabilizer.Kernel.Build.{Index, index_put, Walk, successors}
use smtstabilizer.Kernel.Build.Edges.{place, place_of}
use smtstabilizer.Kernel.Build.Count.{unplaced-open}
use smtstabilizer.Kernel.Build.Invariant.{
  IsPlaced, HasRow, IsBuilding, Waits, IsWalking, IsAcyclic, node_of,
}

-- A write at a node that is not placed leaves the placed nodes alone.
pub put-ne : (m : Index) (n i x : ℕ) → n ≢ x → index_put m n i x ≡ m x
put-ne m n i x ne = ground arith

pub put_self : (m : Index) (n i : ℕ) → index_put m n i n ≡ some i
put_self m n i = ground arith

pub put-some :
    (m : Index) (n j x i : ℕ)
    → index_put m n j x ≡ some i
    → ((n ≡ x) × (i ≡ j)) ⊎ ((n ≢ x) × (m x ≡ some i))
put-some m n j x i e = elim (ℕ_discrete n x) [
  | yes same ↦ inl (same, ground arith)
  | no other ↦ inr (other, sym (put-ne m n j x other) ∙ e)
]

pub IsPlaced-put :
    (m : Index) (n j x : ℕ) → ¬ IsPlaced m n → IsPlaced m x → IsPlaced (index_put m n j) x
IsPlaced-put m n j x unset (i, e, ne) =
    (i, put-ne m n j x (λ same. unset (i, ap m same ∙ e, ne)) ∙ e, ne)

pub not-IsPlaced-none : (m : Index) (n : ℕ) → m n ≡ none → ¬ IsPlaced m n
not-IsPlaced-none m n e (i, p, ne) = cc

pub not-IsPlaced_open : (m : Index) (n : ℕ) → m n ≡ some size_max → ¬ IsPlaced m n
not-IsPlaced_open m n e (i, p, ne) = ne (ground arith)

pub map-place-put :
    (m : Index) (n j : ℕ) (cs : List ℕ)
    → ¬ IsPlaced m n
    → All (IsPlaced m) cs
    → map (place (index_put m n j)) cs ≡ map (place m) cs
map-place-put m n j [] unset h = refl
map-place-put m n j (c ∷ cs) unset h = ap₂ ◌∷◌ (place_put c h.0) (map-place-put m n j cs unset h.1)
  where
    place_put : (c : ℕ) → IsPlaced m c → place (index_put m n j) c ≡ place m c
    place_put c p = ap place_of (put-ne m n j c (λ same. unset (p.0, ap m same ∙ p.1, p.2)))

module _ (nm : NodeManager) (bound : ℕ) (rank : ℕ → ℕ) where
  -- The stored rows survive a write at a node that is not placed.
  pub HasRow-put :
      (m : Index) (n j : ℕ) (k : Kernel) (i : ℕ)
      → ¬ IsPlaced m n
      → i < size_max
      → HasRow nm m k i
      → HasRow nm (index_put m n j) k i
  HasRow-put m n j k i unset small row =
      let here : IsPlaced m (node_of k i) = (i, row.index, λ e. absurd (omega arith)) in
      let placed : All (IsPlaced m) (successors nm (node_of k i)) =
        All-mono (λ c (ci, e, l). (ci, e, λ same. absurd (omega arith))) _ row.earlier in
      record {
        index =
            put-ne m n j (node_of k i) (λ same. unset (i, ap m same ∙ row.index, here.2))
            ∙ row.index;
        earlier =
            All-mono
              (λ c (ci, e, l). (
                ci,
                put-ne m n j c (λ same. unset (ci, ap m same ∙ e, λ q. absurd (omega arith))) ∙ e,
                l,
              ))
              _ row.earlier;
        row = row.row ∙ sym (map-place-put m n j _ unset placed);
      }

  -- Meeting a node puts it in progress, and stores nothing.
  IsBuilding-open :
      (m : Index) (n : ℕ) (k : Kernel)
      → bound ≤ size_max
      → n < bound
      → m n ≡ none
      → IsBuilding nm bound m k
      → IsBuilding nm bound (index_put m n size_max) k
  IsBuilding-open m n k small below e b = record {
    sized = b.sized;
    reversed = b.reversed;
    rows = λ i l.
        HasRow-put m n size_max k i (not-IsPlaced-none m n e) (omega (arith, b.fits)) (b.rows i l);
    placed = λ x i p ne.
        b.placed x i (⊎_elim (λ e'. absurd (ne e'.1)) (λ e'. e'.1) (put-some m n size_max x i p))
          ne;
    fits = omega (arith, unplaced-open m n bound below e, b.fits);
    hashes = b.hashes;
  }

  -- What waits below the top of the stack still waits when the successors of the top are pushed.
  Waits-push :
      (m m' : Index) (n x : ℕ) (rest : List ℕ)
      → ((c : ℕ) → IsPlaced m c → IsPlaced m' c)
      → n ≢ x
      → All (λ c. rank c < rank n) (successors nm n)
      → Waits nm bound rank m x (n ∷ rest)
      → Waits nm bound rank m' x (reverse (successors nm n) ++ n ∷ rest)
  Waits-push m m' n x rest keep ne lower w = record {
    above = reverse (successors nm n) ++ w.above;
    below = w.below;
    stack =
        ap (◌++◌ (reverse (successors nm n))) w.stack
        ∙ sym (append_assoc (reverse (successors nm n)) w.above (x ∷ w.below));
    lower =
        All-append _ (reverse (successors nm n)) w.above
          (All-reverse _ (successors nm n)
            (All-mono (λ c l. omega (arith, top w.above w.below w.stack w.lower)) _ lower))
          w.lower;
    needs =
        All-mono
          (λ c need.
            ⊎_elim (λ p. inl (keep c p))
              (λ m. inr (Memᴰ.append_right (reverse (successors nm n)) m)) need)
          _ w.needs;
  }
    where
      top :
          (above below : List ℕ)
          → n ∷ rest ≡ above ++ x ∷ below
          → All (λ y. rank y < rank x) above
          → rank n < rank x
      top [] below e h = absurd (ne (cc))
      top (y ∷ above) below e h = let same : n ≡ y = cc in rw same h.0

  -- A round that meets a new node.
  pub IsWalking-open :
      (w : Walk) (n : ℕ) (rest : List ℕ)
      → IsAcyclic nm bound rank
      → w.visit ≡ n ∷ rest
      → w.node2index n ≡ none
      → IsWalking nm bound rank w
      → IsWalking nm bound rank (record {
        visit = reverse (successors nm n) ++ n ∷ rest;
        node2index = index_put w.node2index n size_max;
        kernel = w.kernel;
      })
  IsWalking-open w n rest acyclic top fresh inv =
      let m = w.node2index in
      let m' = index_put m n size_max in
      let stack : All (λ x. x < bound) (n ∷ rest) = rw top at inv.bounded in
      let pushed = acyclic.successors_below n stack.0 in
      let keep =
        λ (c : ℕ) (p : IsPlaced m c). IsPlaced-put m n size_max c (not-IsPlaced-none m n fresh) p in
      record {
        building = IsBuilding-open m n w.kernel acyclic.small stack.0 fresh inv.building;
        bounded =
            All-append _ (reverse (successors nm n)) (n ∷ rest)
              (All-reverse _ (successors nm n) (All-mono (λ c h. h.0) _ pushed)) stack;
        waits = λ x e.
            ⊎_elim
              (λ (same, _). rw (← same) (record {
                above = reverse (successors nm n);
                below = rest;
                stack = refl;
                lower = All-reverse _ (successors nm n) (All-mono (λ c h. h.1) _ pushed);
                needs = All-intro _ (successors nm n) (λ c mem. inr (mem-reverse c _ mem));
              }))
              (λ (other, old).
                Waits-push m m' n x rest keep other (All-mono (λ c h. h.1) _ pushed)
                  (rw top at (inv.waits x old)))
              (put-some m n size_max x size_max e);
        roots =
            All-mono
              (λ a h.
                ⊎_elim (λ p. inl (keep a p))
                  (λ mem. inr (Memᴰ.append_right (reverse (successors nm n)) (rw top at mem))) h)
              _ inv.roots;
      }
