-- ===== src/Common/Members.antt =====
-- Membership, `All` and `reverse`.
use mathlib.Core.Path.{◌≡◌, refl, ◌∙◌, ap}
use mathlib.Core.List.{List, [], ◌∷◌, reverse, reverse-cons, Memᴰ}
use mathlib.Core.List.Memᴰ
use native.Mathlib.Omega.{arith}
use smtstabilizer.Common.Lists.{length, length-append, All, All-append}

module _ {ℓ} {A : Type ℓ} where
  pub All-reverse {κ} : (P : A → Type κ) (xs : List A) → All P xs → All P (reverse xs)
  All-reverse P [] h = tt
  All-reverse P (x ∷ xs) h =
      rw (reverse-cons x xs) (All-append P (reverse xs) (x ∷ []) (All-reverse P xs h.1) (h.0, tt))

  pub mem-reverse : (x : A) (xs : List A) → Memᴰ x xs → Memᴰ x (reverse xs)
  mem-reverse x [] m = elim m [ ]
  mem-reverse x (y ∷ ys) (Memᴰ.head e) =
      rw (reverse-cons y ys) (Memᴰ.append_right (reverse ys) (Memᴰ.head e))
  mem-reverse x (y ∷ ys) (Memᴰ.tail m) =
      rw (reverse-cons y ys) (Memᴰ.append_left (y ∷ []) (mem-reverse x ys m))

  pub length-reverse : (xs : List A) → length (reverse xs) ≡ length xs
  length-reverse [] = refl
  length-reverse (x ∷ xs) =
      ap length (reverse-cons x xs)
      ∙ omega (arith, length-append (reverse xs) (x ∷ []), length-reverse xs)

  pub All-intro {κ} : (P : A → Type κ) (xs : List A) → ((x : A) → Memᴰ x xs → P x) → All P xs
  All-intro P [] h = tt
  All-intro P (x ∷ xs) h = (h x (Memᴰ.head refl), All-intro P xs (λ y m. h y (Memᴰ.tail m)))

  pub All-mem {κ} : (P : A → Type κ) (xs : List A) (x : A) → All P xs → Memᴰ x xs → P x
  All-mem P [] x h m = elim m [ ]
  All-mem P (y ∷ ys) x h (Memᴰ.head e) = rw e h.0
  All-mem P (y ∷ ys) x h (Memᴰ.tail m) = All-mem P ys x h.1 m
