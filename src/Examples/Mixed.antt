-- ===== src/Examples/Mixed.antt =====
-- A real constant beside integer constants, and calls of `rewrite_oper`.
use smtstabilizer.Common.{
  ℕ, zero, suc, ◌+◌, ◌*◌, ◌-◌, true, ltb, ◌==◌, [], ◌∷◌, ◌≡◌, ◌≢◌, ◌↔◌, ◌&&◌, length,
}
use smtstabilizer.Kind.{nt_const, nt_ite}
use smtstabilizer.Sort.{mk_sort, nil, sk_real, sk_intoreal}
use smtstabilizer.Node.{Node}
use smtstabilizer.Rewrite.{Terms, null}
use smtstabilizer.Rewrite.Arity.{get_arity}
use smtstabilizer.Rewrite.Dispatch.{Overloads, rewrite_oper, past_end, refused, is_wrong_number}
use smtstabilizer.Rewrite.DispatchSafe.{rewrite_oper_safe}

-- Node 0 is the real constant 7.0, and node n + 1 the integer constant n.
abbrev heap : ℕ → Node
heap zero = record {
  kind = nt_const;
  sort = mk_sort sk_real "Real" 0 nil;
  name = "7.0";
  children = [];
}
heap (suc n) = record {
  kind = nt_const;
  sort = mk_sort sk_intoreal "IntOrReal" 0 nil;
  name = "";
  children = [];
}

abbrev number : ℕ → ℕ
number zero = 7
number (suc n) = n

abbrev constant : ℕ → ℕ
constant n = suc n

abbrev terms : Terms
terms = record {
  Integer = ℕ;
  Real = ℕ;
  node = heap;
  true_node = 0;
  false_node = 1;
  to_int = number;
  to_real = number;
  int_lt = ltb;
  int_eq = ◌==◌;
  real_lt = ltb;
  real_eq = ◌==◌;
  int_zero = 0;
  int_one = 1;
  real_zero = 0;
  real_one = 1;
  int_add = ◌+◌;
  int_mul = ◌*◌;
  int_sub = ◌-◌;
  real_add = ◌+◌;
  real_mul = ◌*◌;
  real_sub = ◌-◌;
  mk_const_int = constant;
  mk_const_real = constant;
  text = λ x. [];
}

-- Overloads that leave every application as it is.
abbrev idle : Overloads
idle = record {
  rewrite_unary = λ t a. null t (a ∷ []);
  rewrite_binary = λ t a b. null t (a ∷ b ∷ []);
  rewrite_ternary = λ t a b c. null t (a ∷ b ∷ c ∷ []);
  rewrite_four_ary = λ t a b c d. null t (a ∷ b ∷ c ∷ d ∷ []);
  rewrite_n_ary = λ t p. null t p;
}

rewrite_oper_safe_example :
    (rewrite_oper idle nt_ite true (1 ∷ 2 ∷ []) ≢ past_end)
    × ((rewrite_oper idle nt_ite true (1 ∷ 2 ∷ []) ≡ refused)
        ↔ ((true && is_wrong_number (get_arity nt_ite) (length {A = ℕ} (1 ∷ 2 ∷ []))) ≡ true))
rewrite_oper_safe_example = rewrite_oper_safe idle nt_ite true (1 ∷ 2 ∷ [])
