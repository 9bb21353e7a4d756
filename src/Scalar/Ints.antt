-- ===== src/Scalar/Ints.antt =====
-- numtoy-core/src/types.rs: signed integers as limbs (`encode_custom_int_limbs`,
-- `decode_custom_int_limbs`, `extend_limbs`). An i64 is its two's-complement pattern.
pub mod Value
pub mod RoundTrip
pub mod Fill
pub mod Extend
pub mod Widen
use num_toy.Prelude.{
  ℕ, zero, suc, ◌+◌, ◌-◌, ◌%◌, ◌^◌, List, [], ◌∷◌, none, some, ltb, leb, ◌&&◌, min, if◌then◌else◌,
  get_elem?, get_or, length, set, replicate,
}
use num_toy.Scalar.Limbs.{u64_mod, limb_count, is_negative, negate_limbs, mask_last}

-- `val.unsigned_abs()`
unfoldable pub unsigned_abs : ℕ → ℕ
unsigned_abs val = if ltb val (2 ^ 63) then val else u64_mod - val

unfoldable pub encode_custom_int_limbs : ℕ → ℕ → List ℕ
encode_custom_int_limbs val bits =
    let limbs = set (replicate (limb_count bits) 0) 0 (unsigned_abs val) in
    if ltb val (2 ^ 63) then mask_last limbs bits else negate_limbs limbs bits

-- `-abs_val` on i64, which wraps at i64::MIN in a release build, and panics in a debug build
unfoldable pub neg_i64 : ℕ → ℕ
neg_i64 abs_val = (u64_mod - abs_val) % u64_mod

unfoldable pub decode_custom_int_limbs : List ℕ → ℕ → ℕ
decode_custom_int_limbs [] bits = 0
decode_custom_int_limbs (x ∷ xs) bits =
    if is_negative (x ∷ xs) bits then neg_i64 (get_or (negate_limbs (x ∷ xs) bits) 0 0) else x

-- `res[i] = limbs.get(i).copied().unwrap_or(0)` for the first `count` of the `total` limbs
unfoldable pub copy_limbs : List ℕ → ℕ → ℕ → List ℕ
copy_limbs limbs count zero = []
copy_limbs limbs zero (suc total) = 0 ∷ copy_limbs limbs zero total
copy_limbs [] (suc count) (suc total) = 0 ∷ copy_limbs [] count total
copy_limbs (x ∷ xs) (suc count) (suc total) = x ∷ copy_limbs xs count total

-- `res[at] |= !((1 << kept) - 1)`
unfoldable pub fill_above : List ℕ → ℕ → ℕ → List ℕ
fill_above res at kept = elim (get_elem? res at) [
  | none ↦ res
  | some x ↦ set res at (x % 2 ^ kept + (u64_mod - 2 ^ kept))
]

-- `res[i] = u64::MAX` from limb `first` on
unfoldable pub fill_from : List ℕ → ℕ → List ℕ
fill_from [] first = []
fill_from (x ∷ xs) zero = (u64_mod - 1) ∷ fill_from xs zero
fill_from (x ∷ xs) (suc first) = x ∷ fill_from xs first

-- the sign bits above bit `from_bits`
unfoldable pub fill_sign : List ℕ → ℕ → ℕ → List ℕ
fill_sign res from_bits to_k =
    let from_k = limb_count from_bits in
    let partial = ltb 0 from_k && leb from_k to_k && ltb 0 (from_bits % 64) in
    fill_from (if partial then fill_above res (from_k - 1) (from_bits % 64) else res) from_k

unfoldable pub extend_limbs : List ℕ → ℕ → ℕ → List ℕ
extend_limbs limbs from_bits to_bits =
    let to_k = limb_count to_bits in
    let res = copy_limbs limbs (min (limb_count from_bits) to_k) to_k in
    mask_last (if is_negative limbs from_bits then fill_sign res from_bits to_k else res) to_bits
