-- ===== src/Common/Outcome.antt =====
-- Results of code that may throw. `.at` of a vector or a map throws `std::out_of_range`; a loop
-- with no bound in the source takes fuel and says so when it runs out.
use Prim.Native.Nat.{ℕ, ◌<◌}
use mathlib.Core.Path.{◌≡◌}
use mathlib.Core.List.{List}
use mathlib.Core.Option.{Option, none, some}
use smtstabilizer.Common.Lists.{length, get_elem?, get_or, set, get_elem?-get_or}

pub data Failure : Type 0 where
  out_of_range out_of_fuel : Failure

pub data Outcome {ℓ} (A : Type ℓ) : Type ℓ where
  err : Failure → Outcome A
  ok : A → Outcome A

-- The rest of the code runs only if nothing has been thrown.
infixl 5 ◌>>=◌
abbrev pub ◌>>=◌ {ℓ κ} : {A : Type ℓ} {B : Type κ} → Outcome A → (A → Outcome B) → Outcome B
err failure >>= rest = err failure
ok result >>= rest = rest result

abbrev pub from_option {ℓ} : {A : Type ℓ} → Option A → Outcome A
from_option none = err out_of_range
from_option (some a) = ok a

-- `v.at(i)`
abbrev pub at {ℓ} : {A : Type ℓ} → List A → ℕ → Outcome A
at xs i = from_option (get_elem? xs i)

-- `v.at(i) = x`
abbrev pub put_at {ℓ} : {A : Type ℓ} → List A → ℕ → A → Outcome (List A)
put_at xs i x = at xs i >>= λ _. ok (set xs i x)

pub at-ok {ℓ} :
    {A : Type ℓ} (xs : List A) (i : ℕ) (d : A) → i < length xs → at xs i ≡ ok (get_or xs i d)
at-ok xs i d h = rw (get_elem?-get_or xs i d h)

pub put_at-ok {ℓ} :
    {A : Type ℓ} (xs : List A) (i : ℕ) (v d : A) → i < length xs → put_at xs i v ≡ ok (set xs i v)
put_at-ok xs i v d h = rw (get_elem?-get_or xs i d h)
