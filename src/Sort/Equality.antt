-- ===== src/Sort/Equality.antt =====
-- `Sort::operator==` (src/parser/sort.h) and the sorts with widths of `SortManager`
-- (src/parser/sort.cpp).
use Prim.Native.String.{String}
use text.Mathlib.Text.{◌==◌ as str_eq}
use text.Mathlib.TextEquality.{eq_iff}
use smtstabilizer.Common.{
  ℕ, zero, suc, Bool, true, false, ◌&&◌, ◌||◌, if◌then◌else◌, ◌==◌, Option, none, some, ◌≡◌, refl,
  sym, ap, ◌∙◌, arith, Bool-cases, inl, inr,
}
use smtstabilizer.Sort.{
  SortKind, Sort, Sorts, mk_sort, nil, cons, null_cons, sort_kind_code, is_dec_kind, is_def_kind,
  sk_null, sk_bv, sk_fp, sk_int, sk_real, sk_intoreal,
}

-- `children[i]->arity`: none where there is no such child.
unfoldable pub child_arity : Sorts → ℕ → Option ℕ
child_arity nil i = none
child_arity (cons (mk_sort k n a cs) ds) zero = some a
child_arity (cons c ds) (suc i) = child_arity ds i
child_arity (null_cons ds) zero = none
child_arity (null_cons ds) (suc i) = child_arity ds i

-- `getExponentWidth`, `getSignificandWidth`
abbrev pub get_exponent_width : Sorts → Option ℕ
get_exponent_width cs = child_arity cs 0

abbrev pub get_significand_width : Sorts → Option ℕ
get_significand_width cs = child_arity cs 1

abbrev pub same_width : Option ℕ → Option ℕ → Option Bool
same_width none none = none
same_width none (some b) = none
same_width (some a) none = none
same_width (some a) (some b) = some (a == b)

-- `&&` of two tests that may not be defined.
abbrev pub and_then : Option Bool → Option Bool → Option Bool
and_then none y = none
and_then (some true) y = y
and_then (some false) y = some false

abbrev pub is_named : SortKind → Bool
is_named k = is_def_kind k || is_dec_kind k

-- The two tests on `IntOrReal`.
abbrev pub is_int : SortKind → Bool
is_int sk_int = true
is_int _ = false

abbrev pub is_real : SortKind → Bool
is_real sk_real = true
is_real _ = false

abbrev pub is_int_or_real : SortKind → Bool
is_int_or_real sk_intoreal = true
is_int_or_real _ = false

abbrev pub int_meets_real : SortKind → SortKind → Bool
int_meets_real k l =
    is_int k && is_int_or_real l
    || is_int_or_real k && is_int l
    || is_real k && is_int_or_real l
    || is_int_or_real k && is_real l

abbrev pub is_fp : SortKind → Bool
is_fp sk_fp = true
is_fp _ = false

unfoldable pub sort_equal : Sort → Sort → Option Bool
unfolding child_arity sort_kind_code
sort_equal (mk_sort k n a cs) (mk_sort l m b ds) =
    if is_named k && is_named l && str_eq n m && a == b
    then some true
    else if int_meets_real k l
    then some true
    else if is_fp k && is_fp l
    then and_then (same_width (get_exponent_width cs) (get_exponent_width ds))
        (same_width (get_significand_width cs) (get_significand_width ds))
    else some (sort_kind_code k == sort_kind_code l && str_eq n m && a == b)

-- `createBVSort`: the width is the arity of a child.
unfoldable pub create_bv_sort : ℕ → Sort
create_bv_sort width = mk_sort sk_bv "BV" 0 (cons (mk_sort sk_null "Width" width nil) nil)

-- `createFPSort`
unfoldable pub create_fp_sort : ℕ → ℕ → Sort
create_fp_sort exp sig =
    mk_sort sk_fp "FP" 0
      (cons (mk_sort sk_null "Exp" exp nil) (cons (mk_sort sk_null "Sig" sig nil) nil))

number_comm : (a b : ℕ) → (a == b) ≡ (b == a)
number_comm a b = ground arith

text_comm : (n m : String) → str_eq n m ≡ str_eq m n
text_comm n m = elim (Bool-cases (str_eq n m)) [
  | inl y ↦ y ∙ sym ((eq_iff m n).1 (sym ((eq_iff n m).0 y)))
  | inr z ↦ elim (Bool-cases (str_eq m n)) [
    | inl y ↦ (eq_iff n m).1 (sym ((eq_iff m n).0 y)) ∙ sym y
    | inr w ↦ z ∙ sym w
  ]
]

and_comm : (a b : Bool) → (a && b) ≡ (b && a)
and_comm true true = refl
and_comm true false = refl
and_comm false true = refl
and_comm false false = refl

named_comm : (k l : SortKind) → (is_named k && is_named l) ≡ (is_named l && is_named k)
named_comm k l = and_comm (is_named k) (is_named l)

fp_comm : (k l : SortKind) → (is_fp k && is_fp l) ≡ (is_fp l && is_fp k)
fp_comm k l = and_comm (is_fp k) (is_fp l)

cross :
    (i r m j s n : Bool)
    → (i && n || m && j || r && n || m && s) ≡ (j && m || n && i || s && m || n && r)
cross i r m j s n = ground arith

int_meets_real_comm : (k l : SortKind) → int_meets_real k l ≡ int_meets_real l k
int_meets_real_comm k l =
    cross (is_int k) (is_real k) (is_int_or_real k) (is_int l) (is_real l) (is_int_or_real l)

width_comm : (x y : Option ℕ) → same_width x y ≡ same_width y x
width_comm none none = refl
width_comm none (some b) = refl
width_comm (some a) none = refl
width_comm (some a) (some b) = ap some (number_comm a b)

-- Floating-point sorts are equal exactly if both widths are, and all bit-vector sorts are equal,
-- whatever their widths.
pub sort_equal-create_bv_sort :
    (m n e s e' s' : ℕ)
    → (sort_equal (create_fp_sort e s) (create_fp_sort e' s') ≡ some (e == e' && s == s'))
      × (sort_equal (create_bv_sort m) (create_bv_sort n) ≡ some true)
unfolding sort_equal create_fp_sort create_bv_sort child_arity sort_kind_code
sort_equal-create_bv_sort m n e s e' s' =
    (elim (Bool-cases (e == e')) [ inl y ↦ rw y refl | inr z ↦ rw z refl ], refl)

-- Equality of sorts is symmetric, also where a width is read that is not there.
pub sort_equal_comm : (s t : Sort) → sort_equal s t ≡ sort_equal t s
unfolding sort_equal
sort_equal_comm (mk_sort k n a cs) (mk_sort l m b ds) =
    rw
      (
        named_comm k l,
        text_comm n m,
        number_comm a b,
        int_meets_real_comm k l,
        fp_comm k l,
        width_comm (get_exponent_width cs) (get_exponent_width ds),
        width_comm (get_significand_width cs) (get_significand_width ds),
        number_comm (sort_kind_code k) (sort_kind_code l),
      )
      refl
