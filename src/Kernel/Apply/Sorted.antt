-- ===== src/Kernel/Apply/Sorted.antt =====
-- The sorts of operands and of assertions in `Kernel::apply` (src/kernel/kernel.cpp).
use mathlib.Core.List.{Perm}
use smtstabilizer.Common.{
  ℕ, Bool, true, false, List, [], ◌∷◌, length, get_or, get_elem?-get_or, some, All, if◌then◌else◌,
  ◌<◌, ◌≡◌, refl, sym, ◌∙◌, Bool-cases, inl, inr,
}
use smtstabilizer.Common.Outcome.{ok}
use smtstabilizer.Common.SortBy.{Linked, Compares, sort_by-Linked}
use smtstabilizer.Kind.{NodeKind}
use smtstabilizer.Node.{keeps_first}
use smtstabilizer.Kernel.Build.{Index}
use smtstabilizer.Kernel.Rebuild.{by_context}
use smtstabilizer.Kernel.Rebuild.Order.{InRange, IsBefore, by_context-Compares}
use smtstabilizer.Kernel.Apply.{node_less, sort_rest, sort_operands, sort_assertions}

module _ (node2index : Index) (context table : List ℕ) where
  -- The node has an index, in the range of both tables.
  abbrev pub IsIndexed : ℕ → Type 0
  IsIndexed n = (i : ℕ) × (node2index n ≡ some i) × InRange context table i

  -- The first node has the smaller context hash, or the same and no larger hash.
  abbrev pub ComesFirst : ℕ → ℕ → Type 0
  ComesFirst a b =
      (i j : ℕ) × (node2index a ≡ some i) × (node2index b ≡ some j) × IsBefore context table i j

  less_at :
      (a b i j : ℕ)
      → node2index a ≡ some i
      → node2index b ≡ some j
      → node_less node2index context table a b ≡ by_context context table i j
  unfolding node_less
  less_at a b i j e f = rw (e, f) refl

  node_less-Compares : Compares (node_less node2index context table) IsIndexed ComesFirst
  node_less-Compares =
      let order = by_context-Compares context table in
      record {
        total = λ a b (i, e, p) (j, f, q).
            let (r, c) = order.total i j p q in (r, less_at a b i j e f ∙ c);
        below = λ a b (i, e, p) (j, f, q) c.
            (i, j, e, f, order.below i j p q (sym (less_at a b i j e f) ∙ c));
        not_below = λ a b (i, e, p) (j, f, q) c.
            (j, i, f, e, order.not_below i j p q (sym (less_at a b i j e f) ∙ c));
      }

  -- `ys` is `xs` in the order of context hashes and hashes.
  abbrev pub IsSortOf : List ℕ → List ℕ → Type 0
  IsSortOf xs ys = Perm xs ys × Linked ComesFirst ys

  -- What becomes of operands: of a commutative node or not, of a kind that keeps the first or not.
  abbrev pub Arranged : Bool → Bool → List ℕ → List ℕ → Type 0
  Arranged false keeps xs ys = ys ≡ xs
  Arranged true false xs ys = IsSortOf xs ys
  Arranged true true [] ys = ys ≡ []
  Arranged true true (x ∷ xs) ys = (zs : List ℕ) × (ys ≡ x ∷ zs) × IsSortOf xs zs

  sorted_lem :
      (xs : List ℕ)
      → All IsIndexed xs
      → (ys : List ℕ) × (sort_assertions node2index context table xs ≡ ok ys) × IsSortOf xs ys
  unfolding sort_assertions
  sorted_lem xs h =
      let (ys, returns, same, _, linked) = sort_by-Linked node_less-Compares xs h in
      (ys, returns, (same, linked))

  sort_rest_lem :
      (xs : List ℕ)
      → All IsIndexed xs
      → (ys : List ℕ) × (sort_rest node2index context table xs ≡ ok ys) × Arranged true true xs ys
  unfolding sort_rest sort_assertions
  sort_rest_lem [] h = ([], refl, refl)
  sort_rest_lem (x ∷ xs) h =
      let (ys, returns, sorted) = sorted_lem xs h.1 in (x ∷ ys, rw returns refl, (ys, refl, sorted))

  operands_at :
      (kind : NodeKind) (children : List ℕ)
      → All IsIndexed children
      → (keeps : Bool)
      → (ys : List ℕ) × ((if keeps
            then sort_rest node2index context table children
            else sort_assertions node2index context table children)
          ≡ ok ys)
        × Arranged true keeps children ys
  operands_at kind children h true = sort_rest_lem children h
  operands_at kind children h false = sorted_lem children h

  operands_lem :
      (is_commutative : List Bool) (i : ℕ) (kind : NodeKind) (children : List ℕ)
      → i < length is_commutative
      → All IsIndexed children
      → (ys : List ℕ) × (sort_operands node2index context table is_commutative i kind children
          ≡ ok ys)
        × Arranged (get_or is_commutative i false) (keeps_first kind) children ys
  unfolding sort_operands sort_assertions
  operands_lem is_commutative i kind children l h =
      let found = get_elem?-get_or is_commutative i false l in
      elim (Bool-cases (get_or is_commutative i false)) [
        | inr z ↦ rw z (children, rw (found, z) refl, refl)
        | inl y ↦
            let (ys, returns, arranged) = operands_at kind children h (keeps_first kind) in
            rw y (ys, rw (found, y) returns, arranged)
      ]

  -- Let every operand and every assertion have an index in the range of both tables. The operands
  -- of a node that is not commutative stay as they are. Those of a commutative node are put in the
  -- order of their context hashes and, where these are equal, of their hashes, all of them or, for
  -- `NT_FP_ADD`, `NT_FP_MUL`, `NT_EXISTS` and `NT_FORALL`, those after the first, which stays
  -- first. The assertions are put in the same order. Nothing is thrown, lost or added.
  pub sort_operands_lem :
      (is_commutative : List Bool) (i : ℕ) (kind : NodeKind) (children assertions : List ℕ)
      → i < length is_commutative
      → All IsIndexed children
      → All IsIndexed assertions
      → (cs handed_back : List ℕ) × (sort_operands node2index context table is_commutative i kind
            children
          ≡ ok cs)
        × Arranged (get_or is_commutative i false) (keeps_first kind) children cs
        × (sort_assertions node2index context table assertions ≡ ok handed_back)
        × IsSortOf assertions handed_back
  sort_operands_lem is_commutative i kind children assertions l h k =
      let (bs, handed, sorted) = sorted_lem assertions k in
      let (cs, returns, arranged) = operands_lem is_commutative i kind children l h in
      (cs, bs, returns, arranged, handed, sorted)
