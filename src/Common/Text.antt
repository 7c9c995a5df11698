-- ===== src/Common/Text.antt =====
-- Tables keyed by text.
use Prim.Native.String.{String}
use mathlib.Core.Path.{◌≡◌, subst}
use mathlib.Core.Logic.{inl, inr}
use mathlib.Core.Bool.{Bool, true, ◌&&◌}
use mathlib.Core.List.{List, [], ◌∷◌}
use text.Mathlib.Text.{◌==◌ as str_eq}
use text.Mathlib.TextEquality.{eq_iff}
use smtstabilizer.Common.Tests.{if◌then◌else◌, Bool-cases}
use native.Mathlib.Omega.{arith}

both : (a b : Bool) → (a && b) ≡ true → (a ≡ true) × (b ≡ true)
both a b h = ground arith

module _ {ℓ} {V : Type ℓ} where
  -- The value of the first entry with the key, and `d` where there is none.
  abbrev pub find_or : String → List (String × V) → V → V
  find_or s [] d = d
  find_or s ((k, v) ∷ m) d = if str_eq k s then v else find_or s m d

  abbrev pub all_entries : (String → V → Bool) → List (String × V) → Bool
  all_entries test [] = true
  all_entries test ((k, v) ∷ m) = test k v && all_entries test m

  -- A test that every entry passes, and the default too, holds of what is found.
  pub find_or-all :
      (test : String → V → Bool) (s : String) (m : List (String × V)) (d : V)
      → all_entries test m ≡ true
      → test s d ≡ true
      → test s (find_or s m d) ≡ true
  find_or-all test s [] d all default = default
  find_or-all test s ((k, v) ∷ m) d all default =
      let (first, others) = both (test k v) (all_entries test m) all in
      elim (Bool-cases (str_eq k s)) [
        | inl e ↦ rw e (subst (λ x. test x v ≡ true) ((eq_iff k s).0 e) first)
        | inr e ↦ rw e (find_or-all test s m d others default)
      ]
