-- ===== src/Scalar/Limbs.antt =====
-- numtoy-core/src/types.rs: wide integers as little-endian lists of 64-bit limbs.
use num_toy.Prelude.{
  ℕ, ◌+◌, ◌-◌, ◌*◌, ◌/◌, ◌%◌, ◌^◌, Bool, List, [], ◌∷◌, map, none, some, ltb, ◌==◌, if◌then◌else◌,
  length, get_elem?, set,
}
use num_toy.Scalar.Float.{FloatOps, zero_f64, two_f64}

abbrev pub u64_mod : ℕ
u64_mod = 2 ^ 64

-- `((bits + 63) / 64) as usize`
unfoldable pub limb_count : ℕ → ℕ
limb_count bits = (bits + 63) / 64

-- `bits - 1` on u32
unfoldable pub pred_u32 : ℕ → ℕ
pred_u32 bits = (bits + 2 ^ 32 - 1) % 2 ^ 32

-- `(limbs[i / 64] >> (i % 64)) & 1`, or 0 past the end
unfoldable pub limb_bit : List ℕ → ℕ → ℕ
limb_bit limbs i = elim (get_elem? limbs (i / 64)) [ none ↦ 0 | some x ↦ x / 2 ^ (i % 64) % 2 ]

-- the sign bit of a number of `bits` bits
unfoldable pub is_negative : List ℕ → ℕ → Bool
is_negative limbs bits = limb_bit limbs (pred_u32 bits) == 1

-- `limbs[i] = !limbs[i]` for every i
unfoldable pub not_limbs : List ℕ → List ℕ
not_limbs = map (λ x. u64_mod - 1 - x)

-- The loop over `overflowing_add(carry)` from carry 1, which stops at the first limb with no carry.
unfoldable pub add_one : List ℕ → List ℕ
add_one [] = []
add_one (x ∷ xs) = if ltb (x + 1) u64_mod then (x + 1) ∷ xs else (x + 1) % u64_mod ∷ add_one xs

-- `limbs[k - 1] &= (1 << last_limb_bits) - 1`, where `bits` is no multiple of 64
unfoldable pub mask_last : List ℕ → ℕ → List ℕ
mask_last limbs bits = elim (get_elem? limbs (length limbs - 1)) [
  | none ↦ limbs
  | some x ↦ if ltb 0 (bits % 64) then set limbs (length limbs - 1) (x % 2 ^ (bits % 64)) else limbs
]

-- the magnitude of a negative number
unfoldable pub negate_limbs : List ℕ → ℕ → List ℕ
negate_limbs limbs bits = mask_last (add_one (not_limbs limbs)) bits

module _ (ops : FloatOps) where
  -- `val += limb as f64 * 2.0.powi(64 * i)`, from limb i on
  unfoldable pub sum_limbs : ℕ → ℕ → List ℕ → ℕ
  sum_limbs val i [] = val
  sum_limbs val i (limb ∷ limbs) =
      sum_limbs (ops.add val (ops.mul (ops.of_u64 limb) (ops.powi two_f64 (64 * i % 2 ^ 32))))
        (i + 1) limbs

  unfoldable pub decode_custom_int_limbs_to_double : List ℕ → ℕ → ℕ
  decode_custom_int_limbs_to_double [] bits = zero_f64
  decode_custom_int_limbs_to_double (x ∷ xs) bits =
      if is_negative (x ∷ xs) bits
      then ops.neg (sum_limbs zero_f64 0 (negate_limbs (x ∷ xs) bits))
      else sum_limbs zero_f64 0 (x ∷ xs)
