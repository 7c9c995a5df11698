-- ===== src/Kernel/Propagate/Iso.antt =====
-- `propagate` on two kernels whose graphs are the same up to the numbering of the nodes and the
-- order of commutative operands and of reversed edges.
use mathlib.Core.Path.{ap₂}
use mathlib.Core.List.{Memᴰ, Perm, Permᴰ}
use mathlib.Core.List.Perm
use mathlib.Core.Logic.{∥∥₁_elim}
use smtstabilizer.Common.{
  ℕ, ◌-◌, ◌^◌, ◌<◌, ◌≡◌, ◌↔◌, refl, ap, ◌∙◌, arith, Bool, true, false, List, [], ◌∷◌, map, reverse,
  length, get_or, is_empty, All, All-mono, All-and, All-reverse, Bool-cases, inl, inr,
}
use smtstabilizer.Common.Outcome.{ok}
use smtstabilizer.Hash.Commutative.{read, read_parents, sum_combined-perm, sum_parents-perm}
use smtstabilizer.Kernel.State.{Kernel}
use smtstabilizer.Kernel.Propagate.{Static, propagate}
use smtstabilizer.Kernel.Propagate.Pass.{entry, pass, length-pass, IsLocal}
use smtstabilizer.Kernel.Propagate.Order.{
  IsAscending, IsDescending-reverse, IsOrdered-ascending, IsOrdered-descending, mem-reverse_iff,
  IsPass, pass-iso,
}
use smtstabilizer.Kernel.Propagate.Total.{
  FitsGraph, rehash_value, forward_value, backward_value, context_table, propagate-context,
}

-- Edges lead to earlier nodes, reversed edges to later ones.
pub record IsTopological (k : Kernel) (size : ℕ) : Type 0 where
  pub fits : FitsGraph k size
  pub down : (i : ℕ) → All (λ c. c < i) (get_or k.d_graph i [])
  pub up : (i : ℕ) → All (λ e. i < e.0) (get_or k.d_reversed_graph i [])

abbrev pub relabel : (ℕ → ℕ) → ℕ × ℕ → ℕ × ℕ
relabel π e = (π e.0, e.1)

-- `π` carries the nodes of `k` below `size` to those of `l`.
pub record IsIso (π : ℕ → ℕ) (size : ℕ) (k l : Kernel) : Type 0 where
  pub commutative :
      (i : ℕ) → i < size → get_or l.d_is_commutative (π i) false ≡ get_or k.d_is_commutative i false
  pub operands :
      (i : ℕ)
      → i < size
      → get_or k.d_is_commutative i false ≡ true
      → Perm (get_or l.d_graph (π i) []) (map π (get_or k.d_graph i []))
  pub arguments :
      (i : ℕ)
      → i < size
      → get_or k.d_is_commutative i false ≡ false
      → get_or l.d_graph (π i) [] ≡ map π (get_or k.d_graph i [])
  pub parents :
      (i : ℕ)
      → i < size
      → Perm (get_or l.d_reversed_graph (π i) []) (map (relabel π) (get_or k.d_reversed_graph i []))
  pub hashes : (i : ℕ) → i < size → entry l.d_hash_table (π i) ≡ entry k.d_hash_table i

is_empty-permᴰ {ℓ} : {A : Type ℓ} {l r : List A} → Permᴰ l r → is_empty l ≡ is_empty r
is_empty-permᴰ Permᴰ.nil = refl
is_empty-permᴰ (Permᴰ.cons e p) = refl
is_empty-permᴰ (Permᴰ.swap e f) = refl
is_empty-permᴰ (Permᴰ.trans p q) = is_empty-permᴰ p ∙ is_empty-permᴰ q

Bool-set : IsSet Bool
Bool-set = hlevel

is_empty-perm {ℓ} : {A : Type ℓ} {l r : List A} → Perm l r → is_empty l ≡ is_empty r
is_empty-perm p = ∥∥₁_elim p (Bool-set _ _) is_empty-permᴰ

is_empty-map {ℓ κ} :
    {A : Type ℓ} {B : Type κ} (f : A → B) (l : List A) → is_empty (map f l) ≡ is_empty l
is_empty-map f [] = refl
is_empty-map f (x ∷ l) = refl

pub read-map :
    (π : ℕ → ℕ) (v w cs : List ℕ)
    → All (λ d. entry w (π d) ≡ entry v d) cs
    → read w (map π cs) ≡ read v cs
read-map π v w [] h = refl
read-map π v w (c ∷ cs) h = ap₂ ◌∷◌ h.0 (read-map π v w cs h.1)

read_parents-map :
    (π : ℕ → ℕ) (v w : List ℕ) (ps : List (ℕ × ℕ))
    → All (λ d. entry w (π d) ≡ entry v d) (map (λ e. e.0) ps)
    → read_parents w (map (relabel π) ps) ≡ read_parents v ps
read_parents-map π v w [] h = refl
read_parents-map π v w ((p, o) ∷ ps) h =
    ap₂ ◌∷◌ (ap (λ x. (x, o)) h.0) (read_parents-map π v w ps h.1)

module _ (π : ℕ → ℕ) (size : ℕ) (k l : Kernel) (iso : IsIso π size k l) where
  forward_value-iso :
      (i seed : ℕ) (v w : List ℕ)
      → i < size
      → All (λ d. entry w (π d) ≡ entry v d) (get_or k.d_graph i [])
      → forward_value l (π i) seed w ≡ forward_value k i seed v
  unfolding forward_value rehash_value
  forward_value-iso i seed v w h agree = elim (Bool-cases (get_or k.d_is_commutative i false)) [
    | inl yes_comm ↦
        let p = iso.operands i h yes_comm in
        let empty = is_empty-perm p ∙ is_empty-map π (get_or k.d_graph i []) in
        let hs = Perm.map (λ c. get_or w c 0) p in
        rw (
          empty,
          iso.commutative i h,
          yes_comm,
          sum_combined-perm seed hs,
          read-map π v w (get_or k.d_graph i []) agree,
        )
    | inr no_comm ↦ rw (
      iso.arguments i h no_comm,
      is_empty-map π (get_or k.d_graph i []),
      iso.commutative i h,
      no_comm,
      read-map π v w (get_or k.d_graph i []) agree,
    )
  ]

  backward_value-iso :
      (i seed : ℕ) (v w : List ℕ)
      → i < size
      → All (λ d. entry w (π d) ≡ entry v d) (map (λ e. e.0) (get_or k.d_reversed_graph i []))
      → backward_value l (π i) seed w ≡ backward_value k i seed v
  unfolding backward_value
  backward_value-iso i seed v w h agree =
      let ps = get_or k.d_reversed_graph i [] in
      let p = iso.parents i h in
      rw (
        is_empty-perm p ∙ is_empty-map (relabel π) ps,
        sum_parents-perm seed (Perm.map (λ e. (get_or w e.0 0, e.1)) p),
        read_parents-map π v w ps agree,
      )

read-agree : (v w cs : List ℕ) → All (λ d. entry v d ≡ entry w d) cs → read v cs ≡ read w cs
read-agree v w [] h = refl
read-agree v w (c ∷ cs) h = ap₂ ◌∷◌ h.0 (read-agree v w cs h.1)

read_parents-agree :
    (v w : List ℕ) (ps : List (ℕ × ℕ))
    → All (λ d. entry v d ≡ entry w d) (map (λ e. e.0) ps)
    → read_parents v ps ≡ read_parents w ps
read_parents-agree v w [] h = refl
read_parents-agree v w ((p, o) ∷ ps) h =
    ap₂ ◌∷◌ (ap (λ x. (x, o)) h.0) (read_parents-agree v w ps h.1)

All-firsts {ℓ} :
    (P : ℕ → Type ℓ) (ps : List (ℕ × ℕ)) → All (λ e. P e.0) ps → All P (map (λ e. e.0) ps)
All-firsts P [] h = tt
All-firsts P (e ∷ ps) h = (h.0, All-firsts P ps h.1)

-- What each loop reads.
abbrev pub children_of : Kernel → ℕ → List ℕ
children_of k i = get_or k.d_graph i []

abbrev pub parents_of : Kernel → ℕ → List ℕ
parents_of k i = map (λ e. e.0) (get_or k.d_reversed_graph i [])

forward_value-IsLocal : (k : Kernel) → IsLocal (forward_value k) (children_of k)
unfolding forward_value
forward_value-IsLocal k n seed t u h = rw (read-agree t u (get_or k.d_graph n []) h)

backward_value-IsLocal : (k : Kernel) → IsLocal (backward_value k) (parents_of k)
unfolding backward_value
backward_value-IsLocal k n seed t u h =
    rw (read_parents-agree t u (get_or k.d_reversed_graph n []) h)

module _ (k : Kernel) (size : ℕ) (topological : IsTopological k size) (ns : List ℕ)
    (ascending : IsAscending ns) where
  forward-IsPass :
      (table : List ℕ)
      → All (λ n. n < length table) ns
      → IsPass (forward_value k) (children_of k) table ns
  forward-IsPass table below = record {
    local = forward_value-IsLocal k;
    ordered = IsOrdered-ascending (children_of k) (forward_value k) topological.down ns ascending;
    below = below;
  }

  backward-IsPass :
      (table : List ℕ)
      → All (λ n. n < length table) ns
      → IsPass (backward_value k) (parents_of k) table (reverse ns)
  backward-IsPass table below = record {
    local = backward_value-IsLocal k;
    ordered =
        IsOrdered-descending (parents_of k) (backward_value k)
          (λ n. All-firsts (λ d. n < d) _ (topological.up n)) (reverse ns)
          (IsDescending-reverse ns ascending);
    below = All-reverse _ ns below;
  }

-- A slice of a kernel that `propagate` can be run on.
pub record IsSlice (k : Kernel) (size : ℕ) (processing : List ℕ) : Type 0 where
  pub topological : IsTopological k size
  pub ascending : IsAscending processing
  pub below : All (λ n. n < size) processing
  pub sized : length k.d_hash_table ≡ size
  pub range : All (λ h. h < 2 ^ 64) k.d_hash_table
  pub context : k.d_context_propagation ≡ true

module _ (π : ℕ → ℕ) (size size' : ℕ) (k l : Kernel) (ns ms : List ℕ) (iso : IsIso π size k l)
    (slice : IsSlice k size ns) (slice' : IsSlice l size' ms)
    (mem : (i : ℕ) → i < size → Memᴰ i ns ↔ Memᴰ (π i) ms) where
  pub context_table-iso :
      (i : ℕ)
      → i < size
      → entry (context_table l l.d_hash_table ms) (π i)
        ≡ entry (context_table k k.d_hash_table ns) i
  unfolding context_table
  context_table-iso =
      let t = k.d_hash_table in
      let u = l.d_hash_table in
      let below = All-mono (λ n h. omega (arith, slice.sized)) ns slice.below in
      let below' = All-mono (λ n h. omega (arith, slice'.sized)) ms slice'.below in
      let t1 = pass (forward_value k) t ns in
      let u1 = pass (forward_value l) u ms in
      let first =
        pass-iso (forward_value k) (forward_value l) (children_of k) (children_of l) π size (λ i. i)
          t u ns ms (forward-IsPass k size slice.topological ns slice.ascending t below)
          (forward-IsPass l size' slice'.topological ms slice'.ascending u below') mem iso.hashes
          (λ i h. All-mono (λ d c. (omega arith, c)) _ (slice.topological.down i))
          (forward_value-iso π size k l iso) in
      pass-iso (backward_value k) (backward_value l) (parents_of k) (parents_of l) π size
        (λ i. size - i) t1 u1 (reverse ns) (reverse ms)
        (backward-IsPass k size slice.topological ns slice.ascending t1
          (All-mono (λ n h. omega (arith, length-pass (forward_value k) t ns)) ns below))
        (backward-IsPass l size' slice'.topological ms slice'.ascending u1
          (All-mono (λ n h. omega (arith, length-pass (forward_value l) u ms)) ms below'))
        (λ i h. (
          (λ m. (mem-reverse_iff (π i) ms).1 ((mem i h).0 ((mem-reverse_iff i ns).0 m))),
          λ m. (mem-reverse_iff i ns).1 ((mem i h).1 ((mem-reverse_iff (π i) ms).0 m)),
        ))
        first
        (λ i h.
          All-firsts (λ d. (d < size) × (size - d < size - i)) _
            (All-mono (λ e (c, u). (c, omega arith)) _
              (All-and (λ e. e.0 < size) (λ e. i < e.0) (get_or k.d_reversed_graph i [])
                (slice.topological.fits.parents i) (slice.topological.up i))))
        (backward_value-iso π size k l iso)

  -- Two kernels with context propagation on, whose edges lead to earlier nodes and reversed edges to
  -- later ones, whose tables hold 64-bit words for each node, and whose processed nodes ascend: if
  -- `π` carries the nodes, hashes and processed nodes of one to those of the other, up to the order
  -- of commutative operands and of reversed edges, then both calls of `propagate` end without a
  -- throw and leave the same hash at corresponding nodes.
  pub propagate-iso :
      (static static' : Static)
      → (table table' : List ℕ) × (propagate static k ns
          ≡ ok (static, record k { d_hash_table = table }))
        × (propagate static' l ms ≡ ok (static', record l { d_hash_table = table' }))
        × ((i : ℕ) → i < size → entry table' (π i) ≡ entry table i)
  propagate-iso static static' = (
    context_table k k.d_hash_table ns,
    context_table l l.d_hash_table ms,
    (propagate-context k size slice.topological.fits static ns slice.context slice.sized slice.range
        slice.below).0,
    (propagate-context l size' slice'.topological.fits static' ms slice'.context slice'.sized
        slice'.range slice'.below).0,
    context_table-iso,
  )
