-- ===== src/Hash.antt =====
-- The 64-bit hashes of src/util/node_helper.cpp. A `size_t` is a number below 2 ^ 64, and every
-- operation that may wrap says so by `u64`.
pub mod Bits
pub mod Mix
pub mod Commutative
use Prim.Native.Nat.{bit_xor}
use smtstabilizer.Common.{ℕ, ◌+◌, ◌*◌, ◌/◌, ◌%◌, ◌^◌, List, [], ◌∷◌}
use smtstabilizer.Common.Outcome.{Outcome, ok, ◌>>=◌, at}

abbrev pub u64 : ℕ → ℕ
u64 n = n % 2 ^ 64

-- `x ^= x >> k`
unfoldable pub xor_shift : ℕ → ℕ → ℕ
xor_shift k x = bit_xor x (x / 2 ^ k)

abbrev pub mix_factor : ℕ
mix_factor = 0xe9846af9b1a615d

-- `x *= m`
unfoldable pub mix_mul : ℕ → ℕ
mix_mul x = u64 (x * mix_factor)

unfoldable pub hash_mix : ℕ → ℕ
unfolding xor_shift mix_mul
hash_mix x = xor_shift 28 (mix_mul (xor_shift 32 (mix_mul (xor_shift 32 x))))

-- The new value of `seed`.
unfoldable pub hash_combine : ℕ → ℕ → ℕ
unfolding hash_mix
hash_combine seed value = hash_mix (u64 (u64 (seed + 0x9e3779b9) + value))

unfoldable pub hash_children : ℕ → List ℕ → List ℕ → Outcome ℕ
hash_children seed [] table = ok seed
hash_children seed (c ∷ cs) table = at table c >>= λ h. hash_children (hash_combine seed h) cs table

-- The loop of `hash_communative_children`: `s2` is the seed at entry.
unfoldable pub hash_communative_loop : ℕ → ℕ → List ℕ → List ℕ → Outcome ℕ
hash_communative_loop s2 seed [] table = ok seed
hash_communative_loop s2 seed (c ∷ cs) table =
    at table c >>= λ h. hash_communative_loop s2 (u64 (seed + hash_combine s2 h)) cs table

unfoldable pub hash_communative_children : ℕ → List ℕ → List ℕ → Outcome ℕ
unfolding hash_communative_loop
hash_communative_children seed cs table = hash_communative_loop seed seed cs table

-- The loop of `hash_parents` over the pairs of a parent and its operand position.
unfoldable pub hash_parents_loop : ℕ → ℕ → List (ℕ × ℕ) → List ℕ → Outcome ℕ
hash_parents_loop s2 seed [] table = ok seed
hash_parents_loop s2 seed ((p, oper) ∷ ps) table = at table p >>= λ h.
    hash_parents_loop s2 (u64 (seed + hash_combine (hash_combine s2 h) oper)) ps table

unfoldable pub hash_parents : ℕ → List (ℕ × ℕ) → List ℕ → Outcome ℕ
unfolding hash_parents_loop
hash_parents seed ps table = hash_parents_loop seed seed ps table
