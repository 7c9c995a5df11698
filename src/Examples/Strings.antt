-- ===== src/Examples/Strings.antt =====
-- A heap with the Boolean constants, in which all other nodes are spellings of one string.
use smtstabilizer.Common.{
  ℕ, zero, suc, ◌+◌, ◌*◌, ◌-◌, Bool, true, false, not, ◌&&◌, ltb, leb, ◌==◌, [], ◌∷◌, ◌≡◌, ◌<◌,
  refl, arith,
}
use smtstabilizer.Kind.{nt_const, nt_const_true, nt_const_false}
use smtstabilizer.Sort.{mk_sort, nil, sk_bool, sk_str}
use smtstabilizer.Node.{Node}
use smtstabilizer.Rewrite.{
  Terms, Model, is_true, is_false, is_not, is_cint, is_numeral, is_canonical, is_cbv, is_cstr,
  has_no_escape, first_child,
}

abbrev heap : ℕ → Node
heap zero = record {
  kind = nt_const_true;
  sort = mk_sort sk_bool "Bool" 0 nil;
  name = "true";
  children = [];
}
heap (suc zero) = record {
  kind = nt_const_false;
  sort = mk_sort sk_bool "Bool" 0 nil;
  name = "false";
  children = [];
}
heap (suc (suc n)) = record {
  kind = nt_const;
  sort = mk_sort sk_str "String" 0 nil;
  name = "";
  children = [];
}

abbrev terms : Terms
terms = record {
  Integer = ℕ;
  Real = ℕ;
  node = heap;
  true_node = 0;
  false_node = 1;
  to_int = λ x. x;
  to_real = λ x. x;
  int_lt = ltb;
  int_eq = ◌==◌;
  real_lt = ltb;
  real_eq = ◌==◌;
  int_zero = 0;
  int_one = 1;
  real_zero = 0;
  real_one = 1;
  int_add = ◌+◌;
  int_mul = ◌*◌;
  int_sub = ◌-◌;
  real_add = ◌+◌;
  real_mul = ◌*◌;
  real_sub = ◌-◌;
  mk_const_int = λ i. i;
  mk_const_real = λ r. r;
  text = λ x. 92 ∷ [];
}

-- The value of a node.
abbrev rank : ℕ → ℕ
rank zero = 0
rank (suc zero) = 1
rank (suc (suc n)) = 2

abbrev truth_of : ℕ → Bool
truth_of zero = true
truth_of (suc n) = false

true_law : (x : ℕ) → is_true (heap x) ≡ true → truth_of x ≡ true
unfolding is_true
true_law zero h = refl
true_law (suc zero) h = cc
true_law (suc (suc n)) h = cc

false_law : (x : ℕ) → is_false (heap x) ≡ true → truth_of x ≡ false
unfolding is_false
false_law zero h = cc
false_law (suc n) h = refl

not_law_of : (x : ℕ) → is_not (heap x) ≡ true → truth_of x ≡ not (truth_of (first_child (heap x)))
unfolding is_not
not_law_of zero h = cc
not_law_of (suc zero) h = cc
not_law_of (suc (suc n)) h = cc

no_numeral : (x : ℕ) → is_numeral (heap x) ≡ false
unfolding is_numeral
no_numeral zero = refl
no_numeral (suc zero) = refl
no_numeral (suc (suc n)) = refl

no_cint : (x : ℕ) → is_cint (heap x) ≡ false
unfolding is_cint
no_cint zero = refl
no_cint (suc zero) = refl
no_cint (suc (suc n)) = refl

canonical_rank : (x : ℕ) → is_canonical terms x ≡ true → (rank x ≡ x) × (x < 2)
unfolding is_canonical is_true is_false is_cbv is_cstr has_no_escape
canonical_rank zero h = (refl, omega arith)
canonical_rank (suc zero) h = (refl, omega arith)
canonical_rank (suc (suc n)) h = cc

same_rank : (x y a b : ℕ) → (a ≡ x) × (x < 2) → (b ≡ y) × (y < 2) → (a == b) ≡ true → x ≡ y
same_rank x y a b p q e = ground arith

impossible : {b : Bool} {A : Type 0} → b ≡ false → b ≡ true → A
impossible e h = absurd (ground arith)

rank_refl : (a : ℕ) → (a == a) ≡ true
rank_refl a = ground arith

rank_sym : (a b : ℕ) → (a == b) ≡ true → (b == a) ≡ true
rank_sym a b h = ground arith

rank_trans : (a b c : ℕ) → (a == b) ≡ true → (b == c) ≡ true → (a == c) ≡ true
rank_trans a b c h k = ground arith

rank_total : (a b : ℕ) → leb a b ≡ false → leb b a ≡ true
rank_total a b h = ground arith

rank_chain : (a b c : ℕ) → leb a b ≡ true → leb b c ≡ true → leb a c ≡ true
rank_chain a b c h k = ground arith

rank_antisym : (a b : ℕ) → (leb a b && leb b a) ≡ (a == b)
rank_antisym a b = ground arith

abbrev reading : Model terms
reading = record {
  truth = truth_of;
  same = λ x y. rank x == rank y;
  below = λ x y. leb (rank x) (rank y);
  truth_true_node = refl;
  truth_false_node = refl;
  truth_of_true = true_law;
  truth_of_false = false_law;
  truth_of_not = not_law_of;
  same_refl = λ x. rank_refl (rank x);
  same_sym = λ x y. rank_sym (rank x) (rank y);
  same_trans = λ x y z. rank_trans (rank x) (rank y) (rank z);
  canonical_unique =
      λ x y h k e. same_rank x y (rank x) (rank y) (canonical_rank x h) (canonical_rank y k) e;
  numeral_apart = λ x y h k. impossible (no_numeral x) h;
  cint_unique = λ x y h k e. impossible (no_cint x) h;
  below_total = λ x y. rank_total (rank x) (rank y);
  below_trans = λ x y z. rank_chain (rank x) (rank y) (rank z);
  below_antisym = λ x y. rank_antisym (rank x) (rank y);
  int_lt_below = λ x y h k. impossible (no_cint x) h;
  int_eq_same = λ x y h k. impossible (no_cint x) h;
  real_lt_below = λ x y h k. impossible (no_numeral x) h;
  real_eq_same = λ x y h k. impossible (no_numeral x) h;
}
