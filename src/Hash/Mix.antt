-- ===== src/Hash/Mix.antt =====
-- `hash_mix` and `hash_combine` (src/util/node_helper.cpp) on 64-bit words: they stay in range, and
-- each step of the mixing can be undone.
use Prim.Native.Nat.{bit_xor}
use smtstabilizer.Common.{ℕ, ◌+◌, ◌*◌, ◌/◌, ◌^◌, ◌<◌, ◌≡◌, ◌≢◌, ap, sym, ◌∙◌, arith}
use smtstabilizer.Hash.{u64, xor_shift, mix_mul, hash_mix, hash_combine}
use native.Mathlib.Nat.{div-le_self}
use smtstabilizer.Hash.Bits.{bit_xor-shift, bit_xor-lt, bit_xor-cancel, bit_xor-zero}

-- What undoes `xor_shift k` where three shifts empty the word.
undo_xor_shift : ℕ → ℕ → ℕ
undo_xor_shift k y = bit_xor y (bit_xor (y / 2 ^ k) (y / 2 ^ k / 2 ^ k))

undo_xor_shift_lem :
    (k x : ℕ) → x / 2 ^ k / 2 ^ k / 2 ^ k ≡ 0 → undo_xor_shift k (xor_shift k x) ≡ x
unfolding undo_xor_shift xor_shift
undo_xor_shift_lem k x h =
    rw
      (
        bit_xor-shift k x (x / 2 ^ k),
        bit_xor-shift k (x / 2 ^ k) (x / 2 ^ k / 2 ^ k),
        h,
        bit_xor-zero,
        bit_xor-cancel,
      )
      (bit_xor-cancel x (x / 2 ^ k))

-- The inverse of the factor modulo 2 ^ 64.
abbrev mix_inverse : ℕ
mix_inverse = 1530889947527838453

undo_mix_mul : ℕ → ℕ
undo_mix_mul y = u64 (y * mix_inverse)

undo_mix_mul_lem : (x : ℕ) → x < 2 ^ 64 → undo_mix_mul (mix_mul x) ≡ x
unfolding undo_mix_mul mix_mul
undo_mix_mul_lem x h = omega arith

mix_mul-lt : (x : ℕ) → mix_mul x < 2 ^ 64
unfolding mix_mul
mix_mul-lt x = omega arith

xor_shift-lt : (k x : ℕ) → x < 2 ^ 64 → xor_shift k x < 2 ^ 64
unfolding xor_shift
xor_shift-lt k x h = bit_xor-lt 64 x (x / 2 ^ k) h (omega (arith, div-le_self x (2 ^ k)))

undo_mix : ℕ → ℕ
undo_mix y =
    undo_xor_shift 32 (undo_mix_mul (undo_xor_shift 32 (undo_mix_mul (undo_xor_shift 28 y))))

undo_mix_lem : (x : ℕ) → x < 2 ^ 64 → undo_mix (hash_mix x) ≡ x
unfolding undo_mix hash_mix
undo_mix_lem x h =
    let a = xor_shift 32 x in
    let la = xor_shift-lt 32 x h in
    let b = mix_mul a in
    let lb = mix_mul-lt a in
    let c = xor_shift 32 b in
    let lc = xor_shift-lt 32 b lb in
    let d = mix_mul c in
    let ld = mix_mul-lt c in
    ap (λ t. undo_xor_shift 32 (undo_mix_mul (undo_xor_shift 32 (undo_mix_mul t))))
      (undo_xor_shift_lem 28 d (omega arith))
    ∙ ap (λ t. undo_xor_shift 32 (undo_mix_mul (undo_xor_shift 32 t))) (undo_mix_mul_lem c lc)
    ∙ ap (λ t. undo_xor_shift 32 (undo_mix_mul t)) (undo_xor_shift_lem 32 b (omega arith))
    ∙ ap (undo_xor_shift 32) (undo_mix_mul_lem a la)
    ∙ undo_xor_shift_lem 32 x (omega arith)

pub hash_mix-lt : (x : ℕ) → x < 2 ^ 64 → hash_mix x < 2 ^ 64
unfolding hash_mix
hash_mix-lt x h = xor_shift-lt 28 _ (mix_mul-lt _)

hash_mix_injective : (x y : ℕ) → x < 2 ^ 64 → y < 2 ^ 64 → hash_mix x ≡ hash_mix y → x ≡ y
hash_mix_injective x y hx hy e = sym (undo_mix_lem x hx) ∙ ap undo_mix e ∙ undo_mix_lem y hy

pub hash_combine-lt : (s v : ℕ) → hash_combine s v < 2 ^ 64
unfolding hash_combine
hash_combine-lt s v = hash_mix-lt _ (omega arith)

hash_combine_injective :
    (s t v : ℕ) → s < 2 ^ 64 → t < 2 ^ 64 → hash_combine s v ≡ hash_combine t v → s ≡ t
unfolding hash_combine
hash_combine_injective s t v hs ht e = omega (
  arith,
  hash_mix_injective (u64 (u64 (s + 0x9e3779b9) + v)) (u64 (u64 (t + 0x9e3779b9) + v)) (omega arith)
      (omega arith) e,
)

hash_combine_separates :
    (s v w : ℕ) → v < 2 ^ 64 → w < 2 ^ 64 → hash_combine s v ≡ hash_combine s w → v ≡ w
unfolding hash_combine
hash_combine_separates s v w hv hw e = omega (
  arith,
  hash_mix_injective (u64 (u64 (s + 0x9e3779b9) + v)) (u64 (u64 (s + 0x9e3779b9) + w)) (omega arith)
      (omega arith) e,
)

-- `hash_combine` of one value takes distinct 64-bit seeds to distinct seeds.
pub hash_combine_distinct_seeds :
    (s t v : ℕ) → s < 2 ^ 64 → t < 2 ^ 64 → s ≢ t → hash_combine s v ≢ hash_combine t v
hash_combine_distinct_seeds s t v hs ht ne e = ne (hash_combine_injective s t v hs ht e)

-- `hash_combine` into one seed takes distinct 64-bit values to distinct seeds.
pub hash_combine_distinct_values :
    (s v w : ℕ) → v < 2 ^ 64 → w < 2 ^ 64 → v ≢ w → hash_combine s v ≢ hash_combine s w
hash_combine_distinct_values s v w hv hw ne e = ne (hash_combine_separates s v w hv hw e)
