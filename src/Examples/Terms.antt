-- ===== src/Examples/Terms.antt =====
-- A heap with the Boolean constants, one integer variable and all natural numbers as constants, and
-- one reading of it.
use native.Mathlib.Nat.{add_comm, add_assoc, zero-add, mul_comm, mul_assoc, one-mul, zero-mul}
use smtstabilizer.Common.{
  if◌then◌else◌, List, ℕ, zero, suc, ◌+◌, ◌*◌, ◌-◌, Bool, true, false, not, ◌&&◌, ltb, leb, ◌==◌,
  ==_iff, [], ◌∷◌, ◌≡◌, ◌<◌, ◌≤◌, ◌⊎◌, refl, arith, All, inl, inr,
}
use smtstabilizer.Kind.{
  NodeKind, nt_const, nt_const_true, nt_const_false, nt_var, nt_not, nt_and, nt_or, nt_xor,
  nt_implies, nt_distinct, nt_ite, nt_eq, nt_le, nt_lt, nt_gt, nt_add, nt_mul,
}
use smtstabilizer.Sort.{Sort, mk_sort, nil, sk_bool, sk_int, sk_intoreal}
use smtstabilizer.Node.{Node, is_const}
use smtstabilizer.Rewrite.{
  Terms, Model, found, null, is_true, is_false, is_not, is_cint, is_creal, is_numeral, first_child,
  is_canonical, is_cbv, is_cstr,
}
use smtstabilizer.Rewrite.Logic.{
  rewrite_not, rewrite_and, rewrite_or, rewrite_xor, rewrite_implies, rewrite_distinct, rewrite_ite,
  last_of,
}
use smtstabilizer.Rewrite.Equal.{const_at}
use smtstabilizer.Rewrite.Order.{rewrite_le, rewrite_lt, rewrite_gt}
use smtstabilizer.Rewrite.Sums.{rewrite_add, rewrite_mul}
use smtstabilizer.Rewrite.Meaning.{meaning, denote}
use smtstabilizer.Rewrite.LogicSound.{rewrite_logic_sound, rewrite_ite_sound}
use smtstabilizer.Rewrite.ScanSound.{IsTyped}
use smtstabilizer.Rewrite.AtMostSound.{rewrite_le_sound}
use smtstabilizer.Rewrite.AtMostLoss.{rewrite_le_unsound}
use smtstabilizer.Rewrite.Less.{rewrite_lt_sound}
use smtstabilizer.Rewrite.Dispatch.{Overloads}
use smtstabilizer.Rewrite.SumsSound.{Numbers, Operation, WithInts, worth}
use smtstabilizer.Rewrite.SumsEnds.{applied, rewrite_sums_sound}

abbrev leaf : NodeKind → Sort → Node
leaf k s = record { kind = k; sort = s; name = ""; children = [] }

abbrev heap : ℕ → Node
heap zero = leaf nt_const_true (mk_sort sk_bool "Bool" 0 nil)
heap (suc zero) = leaf nt_const_false (mk_sort sk_bool "Bool" 0 nil)
heap (suc (suc zero)) = leaf nt_var (mk_sort sk_int "Int" 0 nil)
heap (suc (suc (suc n))) = leaf nt_const (mk_sort sk_intoreal "IntOrReal" 0 nil)

abbrev constant : ℕ → ℕ
constant n = suc (suc (suc n))

-- The variable has the value 3.
abbrev number : ℕ → ℕ
number zero = 0
number (suc zero) = 0
number (suc (suc zero)) = 3
number (suc (suc (suc n))) = n

-- A value for each node, in which the constants are apart.
abbrev rank : ℕ → ℕ
rank zero = 0
rank (suc zero) = 1
rank (suc (suc zero)) = 5
rank (suc (suc (suc n))) = suc (suc n)

abbrev truth_of : ℕ → Bool
truth_of zero = true
truth_of (suc n) = false

abbrev terms : Terms
terms = record {
  Integer = ℕ;
  Real = ℕ;
  node = heap;
  true_node = 0;
  false_node = 1;
  to_int = number;
  to_real = number;
  int_lt = ltb;
  int_eq = ◌==◌;
  real_lt = ltb;
  real_eq = ◌==◌;
  int_zero = 0;
  int_one = 1;
  real_zero = 0;
  real_one = 1;
  int_add = ◌+◌;
  int_mul = ◌*◌;
  int_sub = ◌-◌;
  real_add = ◌+◌;
  real_mul = ◌*◌;
  real_sub = ◌-◌;
  mk_const_int = constant;
  mk_const_real = constant;
  text = λ x. [];
}

true_law : (x : ℕ) → is_true (heap x) ≡ true → truth_of x ≡ true
unfolding is_true
true_law zero h = refl
true_law (suc zero) h = cc
true_law (suc (suc zero)) h = cc
true_law (suc (suc (suc n))) h = cc

false_law : (x : ℕ) → is_false (heap x) ≡ true → truth_of x ≡ false
unfolding is_false
false_law zero h = cc
false_law (suc n) h = refl

not_law_of : (x : ℕ) → is_not (heap x) ≡ true → truth_of x ≡ not (truth_of (first_child (heap x)))
unfolding is_not
not_law_of zero h = cc
not_law_of (suc zero) h = cc
not_law_of (suc (suc zero)) h = cc
not_law_of (suc (suc (suc n))) h = cc

-- The numbers of the constants.
const_rank :
    (x : ℕ)
    → is_const (heap x).kind ≡ true
    → ((x ≡ rank x) × (x < 2)) ⊎ ((x ≡ suc (rank x)) × (3 ≤ x))
const_rank zero h = inl (refl, omega arith)
const_rank (suc zero) h = inl (refl, omega arith)
const_rank (suc (suc zero)) h = cc
const_rank (suc (suc (suc n))) h = inr (refl, omega arith)

rank_apart :
    (x y : ℕ)
    → is_const (heap x).kind ≡ true
    → is_const (heap y).kind ≡ true
    → (rank x == rank y) ≡ true
    → x ≡ y
rank_apart x y h k e =
    let same_rank = (==_iff (rank x) (rank y)).0 e in
    from_ranks x y (rank x) (rank y) (const_rank x h) (const_rank y k) same_rank
  where
    from_ranks :
        (x y a b : ℕ)
        → ((x ≡ a) × (x < 2)) ⊎ ((x ≡ suc a) × (3 ≤ x))
        → ((y ≡ b) × (y < 2)) ⊎ ((y ≡ suc b) × (3 ≤ y))
        → a ≡ b
        → x ≡ y
    from_ranks x y a b p q e = ground arith

cint_rank : (x : ℕ) → is_cint (heap x) ≡ true → rank x ≡ number x + 2
unfolding is_cint
cint_rank zero h = cc
cint_rank (suc zero) h = cc
cint_rank (suc (suc zero)) h = cc
cint_rank (suc (suc (suc n))) h = omega arith

numeral_rank : (x : ℕ) → is_numeral (heap x) ≡ true → rank x ≡ number x + 2
unfolding is_numeral
numeral_rank zero h = cc
numeral_rank (suc zero) h = cc
numeral_rank (suc (suc zero)) h = cc
numeral_rank (suc (suc (suc n))) h = omega arith

cint_const : (x : ℕ) → is_cint (heap x) ≡ true → is_const (heap x).kind ≡ true
unfolding is_cint
cint_const zero h = refl
cint_const (suc zero) h = refl
cint_const (suc (suc zero)) h = cc
cint_const (suc (suc (suc n))) h = refl

abbrev at_most : ℕ → ℕ → Bool
at_most x y = leb (rank x) (rank y)

abbrev equal : ℕ → ℕ → Bool
equal x y = rank x == rank y

less_law : (a b x y : ℕ) → x ≡ a + 2 → y ≡ b + 2 → ltb a b ≡ not (leb y x)
less_law a b x y h k = ground arith

equal_law : (a b x y : ℕ) → x ≡ a + 2 → y ≡ b + 2 → (a == b) ≡ (x == y)
equal_law a b x y h k = ground arith

total_law : (a b : ℕ) → leb a b ≡ false → leb b a ≡ true
total_law a b h = ground arith

trans_law : (a b c : ℕ) → leb a b ≡ true → leb b c ≡ true → leb a c ≡ true
trans_law a b c h k = ground arith

antisym_law : (a b : ℕ) → (leb a b && leb b a) ≡ (a == b)
antisym_law a b = ground arith

equal_refl : (a : ℕ) → (a == a) ≡ true
equal_refl a = ground arith

equal_sym : (a b : ℕ) → (a == b) ≡ true → (b == a) ≡ true
equal_sym a b h = ground arith

equal_trans : (a b c : ℕ) → (a == b) ≡ true → (b == c) ≡ true → (a == c) ≡ true
equal_trans a b c h k = ground arith

canonical_few : (x : ℕ) → is_canonical terms x ≡ true → x < 2
unfolding is_canonical is_true is_false is_cbv is_cstr
canonical_few zero h = omega arith
canonical_few (suc zero) h = omega arith
canonical_few (suc (suc zero)) h = cc
canonical_few (suc (suc (suc n))) h = cc

canonical_const : (x : ℕ) → x < 2 → is_const (heap x).kind ≡ true
canonical_const zero h = refl
canonical_const (suc zero) h = refl
canonical_const (suc (suc n)) h = absurd (omega arith)

numeral_few : (x : ℕ) → is_numeral (heap x) ≡ true → 3 ≤ x
unfolding is_numeral
numeral_few zero h = cc
numeral_few (suc zero) h = cc
numeral_few (suc (suc zero)) h = cc
numeral_few (suc (suc (suc n))) h = omega arith

numeral_far : (x y : ℕ) → 3 ≤ x → y < 2 → equal x y ≡ false
numeral_far (suc (suc (suc n))) zero h k = ground arith
numeral_far (suc (suc (suc n))) (suc zero) h k = ground arith
numeral_far (suc (suc (suc n))) (suc (suc y)) h k = absurd (omega arith)
numeral_far zero y h k = absurd (omega arith)
numeral_far (suc zero) y h k = absurd (omega arith)
numeral_far (suc (suc zero)) y h k = absurd (omega arith)

abbrev reading : Model terms
reading = record {
  truth = truth_of;
  same = equal;
  below = at_most;
  truth_true_node = refl;
  truth_false_node = refl;
  truth_of_true = true_law;
  truth_of_false = false_law;
  truth_of_not = not_law_of;
  same_refl = λ x. equal_refl (rank x);
  same_sym = λ x y. equal_sym (rank x) (rank y);
  same_trans = λ x y z. equal_trans (rank x) (rank y) (rank z);
  canonical_unique = λ x y h k e.
      rank_apart x y (canonical_const x (canonical_few x h)) (canonical_const y (canonical_few y k))
        e;
  numeral_apart = λ x y h k. numeral_far x y (numeral_few x h) (canonical_few y k);
  cint_unique = λ x y h k e. rank_apart x y (cint_const x h) (cint_const y k) e;
  below_total = λ x y. total_law (rank x) (rank y);
  below_trans = λ x y z. trans_law (rank x) (rank y) (rank z);
  below_antisym = λ x y. antisym_law (rank x) (rank y);
  int_lt_below =
      λ x y h k. less_law (number x) (number y) (rank x) (rank y) (cint_rank x h) (cint_rank y k);
  int_eq_same =
      λ x y h k. equal_law (number x) (number y) (rank x) (rank y) (cint_rank x h) (cint_rank y k);
  real_lt_below = λ x y h k.
      less_law (number x) (number y) (rank x) (rank y) (numeral_rank x h) (numeral_rank y k);
  real_eq_same = λ x y h k.
      equal_law (number x) (number y) (rank x) (rank y) (numeral_rank x h) (numeral_rank y k);
}

zero_law : (a : ℕ) → (a == 0) ≡ true → a ≡ 0
zero_law a h = (==_iff a 0).0 h

one_law : (a : ℕ) → (a == 1) ≡ true → a ≡ 1
one_law a h = (==_iff a 1).0 h

is_cint-constant : (i : ℕ) → is_cint (heap (constant i)) ≡ true
unfolding is_cint
is_cint-constant i = refl

is_creal-constant : (i : ℕ) → is_creal (heap (constant i)) ≡ true
unfolding is_creal
is_creal-constant i = refl

abbrev additions : Operation terms ℕ number ◌+◌
additions = record {
  op = ◌+◌;
  unit = 0;
  op_comm = add_comm;
  op_assoc = add_assoc;
  op_unit = zero-add;
  value_int_op = λ x y h k. refl;
}

abbrev multiplications : Operation terms ℕ number ◌*◌
multiplications = record {
  op = ◌*◌;
  unit = 1;
  op_comm = mul_comm;
  op_assoc = mul_assoc;
  op_unit = one-mul;
  value_int_op = λ x y h k. refl;
}

abbrev naturals : Numbers terms
naturals = record {
  V = ℕ;
  value = number;
  sums = additions;
  products = multiplications;
  zero_times = zero-mul;
  mk_const_int_is_cint = is_cint-constant;
  mk_const_real_is_creal = is_creal-constant;
  value_int_zero = refl;
  value_real_zero = refl;
  value_int_one = refl;
  int_zero_value = λ x h e. zero_law (number x) e;
  real_zero_value = λ x h e. zero_law (number x) e;
  int_one_value = λ x h e. one_law (number x) e;
  real_one_value = λ x h e. one_law (number x) e;
}

rewrite_logic_sound_example :
    (denote reading (rewrite_not terms 1) ≡ meaning reading nt_not (1 ∷ []))
    × (denote reading (rewrite_and terms (2 ∷ 0 ∷ 2 ∷ []))
        ≡ meaning reading nt_and (2 ∷ 0 ∷ 2 ∷ []))
    × (denote reading (rewrite_or terms (2 ∷ 0 ∷ 2 ∷ [])) ≡ meaning reading nt_or (2 ∷ 0 ∷ 2 ∷ []))
    × (denote reading (rewrite_xor terms (2 ∷ 0 ∷ 2 ∷ []))
        ≡ meaning reading nt_xor (2 ∷ 0 ∷ 2 ∷ []))
    × (denote reading (rewrite_implies terms 1 (2 ∷ 0 ∷ 2 ∷ []))
        ≡ meaning reading nt_implies (1 ∷ 2 ∷ 0 ∷ 2 ∷ []))
    × (denote reading (rewrite_distinct terms nt_distinct (2 ∷ 0 ∷ 2 ∷ []))
        ≡ meaning reading nt_distinct (2 ∷ 0 ∷ 2 ∷ []))
rewrite_logic_sound_example = rewrite_logic_sound reading 1 (2 ∷ 0 ∷ 2 ∷ [])

rewrite_ite_sound_example :
    (rewrite_ite terms 0 2 7 ≡ null nt_ite (0 ∷ 2 ∷ 7 ∷ []))
    ⊎ ((x : ℕ) × (rewrite_ite terms 0 2 7 ≡ found x) × (equal x 2 ≡ true))
rewrite_ite_sound_example = rewrite_ite_sound reading 0 2 7

well_sorted : All (IsTyped terms) (6 ∷ 2 ∷ 6 ∷ [])
unfolding const_at is_numeral
well_sorted = (refl, (refl, (refl, tt)))

same_ends : equal 6 6 ≡ true
same_ends = refl

rewrite_le_sound_example :
    denote reading (rewrite_le terms 6 (2 ∷ 6 ∷ [])) ≡ meaning reading nt_le (6 ∷ 2 ∷ 6 ∷ [])
unfolding last_of
rewrite_le_sound_example = rewrite_le_sound reading 6 (2 ∷ 6 ∷ []) well_sorted (inl same_ends)

rewrite_lt_sound_example :
    (denote reading (rewrite_lt terms 6 (2 ∷ 6 ∷ [])) ≡ meaning reading nt_lt (6 ∷ 2 ∷ 6 ∷ []))
    × (denote reading (rewrite_gt terms 6 (2 ∷ 6 ∷ [])) ≡ meaning reading nt_gt (6 ∷ 2 ∷ 6 ∷ []))
rewrite_lt_sound_example = rewrite_lt_sound reading 6 (2 ∷ 6 ∷ []) well_sorted

-- The constants 3 and 5, and the variable.
rewrite_le_unsound_example :
    (rewrite_le terms 6 (2 ∷ 6 ∷ 8 ∷ []) ≡ null nt_eq (6 ∷ 2 ∷ 6 ∷ 8 ∷ []))
    × (denote reading (rewrite_le terms 6 (2 ∷ 6 ∷ 8 ∷ [])) ≡ false)
    × (meaning reading nt_le (6 ∷ 2 ∷ 6 ∷ 8 ∷ []) ≡ equal 6 2)
unfolding const_at is_numeral
rewrite_le_unsound_example = rewrite_le_unsound reading 6 8 2 refl refl refl refl refl refl refl

without_reals : All (WithInts terms) (6 ∷ 2 ∷ 8 ∷ [])
unfolding is_cint is_creal
without_reals = (λ h. refl, (λ h. absurd (ground arith), (λ h. refl, tt)))

rewrite_sums_sound_example :
    (worth naturals (applied naturals) (rewrite_add terms (6 ∷ 2 ∷ 8 ∷ []))
      ≡ applied naturals nt_add (6 ∷ 2 ∷ 8 ∷ []))
    × (worth naturals (applied naturals) (rewrite_mul terms (6 ∷ 2 ∷ 8 ∷ []))
        ≡ applied naturals nt_mul (6 ∷ 2 ∷ 8 ∷ []))
rewrite_sums_sound_example = rewrite_sums_sound naturals (6 ∷ 2 ∷ 8 ∷ []) (inl without_reals)

-- Overloads that leave every application as it is, and a manager that returns a Boolean constant.
abbrev idle : Overloads
idle = record {
  rewrite_unary = λ t a. null t (a ∷ []);
  rewrite_binary = λ t a b. null t (a ∷ b ∷ []);
  rewrite_ternary = λ t a b c. null t (a ∷ b ∷ c ∷ []);
  rewrite_four_ary = λ t a b c d. null t (a ∷ b ∷ c ∷ d ∷ []);
  rewrite_n_ary = λ t p. null t p;
}

abbrev evaluate : NodeKind → List ℕ → ℕ
evaluate t q = if meaning reading t q then 0 else 1
