-- ===== src/Hash/Commutative.antt =====
-- The three loops of src/util/node_helper.cpp as functions of the list of hashes that they read, and
-- the two commutative ones as sums, which no order of the operands changes.
use mathlib.Core.List.{Perm, Permᴰ}
use mathlib.Core.List.Perm
use mathlib.Core.Logic.{∥∥₁_elim}
use native.Mathlib.Nat.{ℕ_set}
use smtstabilizer.Common.{
  ℕ, ◌+◌, ◌^◌, ◌<◌, ◌≡◌, refl, ap, sym, ◌∙◌, arith, List, [], ◌∷◌, map, length, get_or,
  get_elem?-get_or, All,
}
use smtstabilizer.Common.Outcome.{ok}
use smtstabilizer.Hash.{
  u64, hash_combine, hash_children, hash_communative_loop, hash_communative_children,
  hash_parents_loop, hash_parents,
}

-- The hash of each child.
abbrev pub read : List ℕ → List ℕ → List ℕ
read table = map (λ c. get_or table c 0)

-- The hash of each parent, with the operand position.
abbrev pub read_parents : List ℕ → List (ℕ × ℕ) → List (ℕ × ℕ)
read_parents table = map (λ e. (get_or table e.0 0, e.1))

unfoldable pub combine_all : ℕ → List ℕ → ℕ
combine_all seed [] = seed
combine_all seed (h ∷ hs) = combine_all (hash_combine seed h) hs

unfoldable pub sum_combined : ℕ → List ℕ → ℕ
sum_combined s2 [] = 0
sum_combined s2 (h ∷ hs) = hash_combine s2 h + sum_combined s2 hs

unfoldable pub sum_parents : ℕ → List (ℕ × ℕ) → ℕ
sum_parents s2 [] = 0
sum_parents s2 ((h, oper) ∷ ps) = hash_combine (hash_combine s2 h) oper + sum_parents s2 ps

pub hash_children-combine_all :
    (seed : ℕ) (cs table : List ℕ)
    → All (λ c. c < length table) cs
    → hash_children seed cs table ≡ ok (combine_all seed (read table cs))
unfolding hash_children combine_all
hash_children-combine_all seed [] table h = refl
hash_children-combine_all seed (c ∷ cs) table h =
    rw (get_elem?-get_or table c 0 h.0)
      (hash_children-combine_all (hash_combine seed (get_or table c 0)) cs table h.1)

hash_communative_loop-sum :
    (s2 seed : ℕ) (cs table : List ℕ)
    → seed < 2 ^ 64
    → All (λ c. c < length table) cs
    → hash_communative_loop s2 seed cs table ≡ ok (u64 (seed + sum_combined s2 (read table cs)))
unfolding hash_communative_loop sum_combined
hash_communative_loop-sum s2 seed [] table l h = ap ok (omega arith)
hash_communative_loop-sum s2 seed (c ∷ cs) table l h = rw (get_elem?-get_or table c 0 h.0) (
    hash_communative_loop-sum s2 (u64 (seed + hash_combine s2 (get_or table c 0))) cs table
      (omega arith) h.1
    ∙ ap ok (omega arith))

-- Children in range: the seed plus a sum over the children's hashes, on 64 bits.
pub hash_communative_children-sum :
    (seed : ℕ) (cs table : List ℕ)
    → seed < 2 ^ 64
    → All (λ c. c < length table) cs
    → hash_communative_children seed cs table ≡ ok (u64 (seed + sum_combined seed (read table cs)))
unfolding hash_communative_children
hash_communative_children-sum seed cs table l h = hash_communative_loop-sum seed seed cs table l h

hash_parents_loop-sum :
    (s2 seed : ℕ) (ps : List (ℕ × ℕ)) (table : List ℕ)
    → seed < 2 ^ 64
    → All (λ e. e.0 < length table) ps
    → hash_parents_loop s2 seed ps table ≡ ok (u64 (seed + sum_parents s2 (read_parents table ps)))
unfolding hash_parents_loop sum_parents
hash_parents_loop-sum s2 seed [] table l h = ap ok (omega arith)
hash_parents_loop-sum s2 seed ((p, oper) ∷ ps) table l h = rw (get_elem?-get_or table p 0 h.0) (
    hash_parents_loop-sum s2 (u64 (seed + hash_combine (hash_combine s2 (get_or table p 0)) oper))
      ps table (omega arith) h.1
    ∙ ap ok (omega arith))

pub hash_parents-sum :
    (seed : ℕ) (ps : List (ℕ × ℕ)) (table : List ℕ)
    → seed < 2 ^ 64
    → All (λ e. e.0 < length table) ps
    → hash_parents seed ps table ≡ ok (u64 (seed + sum_parents seed (read_parents table ps)))
unfolding hash_parents
hash_parents-sum seed ps table l h = hash_parents_loop-sum seed seed ps table l h

sum_combined-permᴰ : (s2 : ℕ) {l r : List ℕ} → Permᴰ l r → sum_combined s2 l ≡ sum_combined s2 r
unfolding sum_combined
sum_combined-permᴰ s2 Permᴰ.nil = refl
sum_combined-permᴰ s2 (Permᴰ.cons e p) =
    omega (arith, sum_combined-permᴰ s2 p, ap (hash_combine s2) e)
sum_combined-permᴰ s2 (Permᴰ.swap e f) =
    omega (arith, ap (hash_combine s2) e, ap (hash_combine s2) f)
sum_combined-permᴰ s2 (Permᴰ.trans p q) = sum_combined-permᴰ s2 p ∙ sum_combined-permᴰ s2 q

pub sum_combined-perm : (s2 : ℕ) {l r : List ℕ} → Perm l r → sum_combined s2 l ≡ sum_combined s2 r
sum_combined-perm s2 p = ∥∥₁_elim p (ℕ_set _ _) (sum_combined-permᴰ s2)

abbrev parent_term : ℕ → ℕ × ℕ → ℕ
parent_term s2 e = hash_combine (hash_combine s2 e.0) e.1

sum_parents-permᴰ : (s2 : ℕ) {l r : List (ℕ × ℕ)} → Permᴰ l r → sum_parents s2 l ≡ sum_parents s2 r
unfolding sum_parents
sum_parents-permᴰ s2 Permᴰ.nil = refl
sum_parents-permᴰ s2 (Permᴰ.cons e p) = omega (arith, sum_parents-permᴰ s2 p, ap (parent_term s2) e)
sum_parents-permᴰ s2 (Permᴰ.swap e f) = omega (arith, ap (parent_term s2) e, ap (parent_term s2) f)
sum_parents-permᴰ s2 (Permᴰ.trans p q) = sum_parents-permᴰ s2 p ∙ sum_parents-permᴰ s2 q

pub sum_parents-perm :
    (s2 : ℕ) {l r : List (ℕ × ℕ)} → Perm l r → sum_parents s2 l ≡ sum_parents s2 r
sum_parents-perm s2 p = ∥∥₁_elim p (ℕ_set _ _) (sum_parents-permᴰ s2)

-- Children in range, in any order: `hash_communative_children` gives one result.
pub hash_communative_children-perm :
    (seed : ℕ) (cs ds table : List ℕ)
    → seed < 2 ^ 64
    → All (λ c. c < length table) cs
    → All (λ c. c < length table) ds
    → Perm cs ds
    → hash_communative_children seed cs table ≡ hash_communative_children seed ds table
hash_communative_children-perm seed cs ds table l h k p =
    hash_communative_children-sum seed cs table l h
    ∙ ap (λ s. ok (u64 (seed + s))) (sum_combined-perm seed (Perm.map (λ c. get_or table c 0) p))
    ∙ sym (hash_communative_children-sum seed ds table l k)

-- Parents in range, each with its operand position, in any order: `hash_parents` gives one result.
pub hash_parents-perm :
    (seed : ℕ) (ps qs : List (ℕ × ℕ)) (table : List ℕ)
    → seed < 2 ^ 64
    → All (λ e. e.0 < length table) ps
    → All (λ e. e.0 < length table) qs
    → Perm ps qs
    → hash_parents seed ps table ≡ hash_parents seed qs table
hash_parents-perm seed ps qs table l h k p =
    hash_parents-sum seed ps table l h
    ∙ ap (λ s. ok (u64 (seed + s)))
        (sum_parents-perm seed (Perm.map (λ e. (get_or table e.0 0, e.1)) p))
    ∙ sym (hash_parents-sum seed qs table l k)
