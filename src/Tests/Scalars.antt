-- ===== src/Tests/Scalars.antt =====
-- Scalars, limbs and packed memory on small inputs.
use num_toy.Prelude.{
  ℕ, ◌+◌, ◌-◌, ◌*◌, ◌/◌, ◌%◌, ◌^◌, ◌≤◌, ◌<◌, ◌≡◌, ◌⊎◌, inl, inr, refl, false, ok, [], ◌∷◌, arith,
  length, sub_ℕ, ◌==◌, if◌then◌else◌,
}
use num_toy.Scalar.{Scalar}
use num_toy.Scalar.Float.{FloatOps, one_f64, two_f64}
use num_toy.Scalar.Limbs.{limb_bit, limb_count}
use num_toy.Scalar.Fields.{set_bits, get_bits}
use num_toy.Scalar.Fields.RoundTrip.{get_bits-set_bits}
use num_toy.Scalar.Ints.{encode_custom_int_limbs, decode_custom_int_limbs, extend_limbs}
use num_toy.Scalar.Ints.Value.{limbs_value, IsLimbs}
use num_toy.Scalar.Ints.RoundTrip.{widened, decode-encode_custom_int_limbs}
use num_toy.Scalar.Ints.Widen.{extend_limbs-encode}
use num_toy.Scalar.CustomFloat.{scale_float}
use num_toy.Scalar.CustomFloat.Scale.{units, scale_float_lem}
use num_toy.Scalar.Codec.ReadBack.{through_limbs, ReadBack, from_limbs-ReadBack}
use num_toy.Kernel.Packed.{Memory, helper_load_u64, helper_store_u64}
use num_toy.Kernel.Packed.Store.{limb_room, helper_load-helper_store}
use num_toy.Kernel.Matmul.{helper_dequantize_matmul, weight_bits}
use num_toy.Kernel.Matmul.Decode.{ExactIntegers}
use num_toy.Kernel.Matmul.Product.{entry, dot, dequantize_matmul-dot}
use num_toy.Tests.Inputs.{toy}

-- -5 in 100 bits
decode-encode_custom_int_limbs_example :
    (decode_custom_int_limbs (encode_custom_int_limbs (2 ^ 64 - 5) 100) 100 ≡ 2 ^ 64 - 5)
    × (limbs_value (encode_custom_int_limbs (2 ^ 64 - 5) 100) ≡ widened (2 ^ 64 - 5) 100)
    × IsLimbs (encode_custom_int_limbs (2 ^ 64 - 5) 100)
    × (length (encode_custom_int_limbs (2 ^ 64 - 5) 100) ≡ limb_count 100)
decode-encode_custom_int_limbs_example =
    decode-encode_custom_int_limbs (2 ^ 64 - 5) 100 (omega arith) (omega arith) (omega arith)

extend_limbs-encode_example :
    extend_limbs (encode_custom_int_limbs (2 ^ 64 - 5) 72) 72 200
    ≡ encode_custom_int_limbs (2 ^ 64 - 5) 200
extend_limbs-encode_example =
    extend_limbs-encode (2 ^ 64 - 5) 72 200 (omega arith) (omega arith) (omega arith) (omega arith)

-- seven bits across the border of two limbs
get_bits-set_bits_example :
    let after = set_bits (0 ∷ 0 ∷ []) (0x55 ∷ []) 60 7 in
    ((i : ℕ) → i < 7 → limb_bit (get_bits after 60 7) i ≡ limb_bit (0x55 ∷ []) i)
    × ((i : ℕ) → 7 ≤ i → limb_bit (get_bits after 60 7) i ≡ 0)
    × ((j : ℕ) → (j < 60) ⊎ (60 + 7 ≤ j) → limb_bit after j ≡ limb_bit (0 ∷ 0 ∷ []) j)
get_bits-set_bits_example = get_bits-set_bits (0 ∷ 0 ∷ []) (0x55 ∷ []) 60 7 (omega arith)

-- -3 in a hundred bits
from_limbs-ReadBack_example :
    (back : Scalar) × (through_limbs toy (Scalar.int (2 ^ 64 - 3) 100) false ≡ ok back)
    × ReadBack (Scalar.int (2 ^ 64 - 3) 100) back
from_limbs-ReadBack_example =
    from_limbs-ReadBack toy (Scalar.int (2 ^ 64 - 3) 100) false
      (inr (omega arith, omega arith, omega arith))

-- the mantissa of an f64 in exact arithmetic: the fraction in units of 2^-52, and the rounding
abbrev exact : FloatOps
exact = record toy { mul = λ a b. a * b; to_u64 = λ x. (x + 2 ^ 51) / 2 ^ 52 }

-- the third smallest positive value
scale_float_lem_example :
    let (mantissa, exponent) = scale_float 3 in
    (one_f64 ≤ mantissa)
    × (mantissa < two_f64)
    × (((2 ^ 52 ≤ 3) × (mantissa + 2 ^ 52 * 0 ≡ 3 + one_f64) × (exponent ≡ sub_ℕ 0 1023))
        ⊎ ((3 < 2 ^ 52)
            × ((rounds : ℕ) × (units mantissa ≡ 2 ^ rounds * units 3)
                × (exponent ≡ sub_ℕ 0 (1023 + rounds)))))
scale_float_lem_example = scale_float_lem 3 (omega arith) (omega arith)

abbrev blank : Memory
blank address = 0

-- elements of twelve bits
helper_load-helper_store_example :
    let mem' = helper_store_u64 blank (1 * 12) 12 0 0xABC in
    (helper_load_u64 mem' (1 * 12) 12 0 ≡ 0xABC % 2 ^ limb_room 12 0)
    × (helper_load_u64 mem' (2 * 12) 12 0 ≡ helper_load_u64 blank (2 * 12) 12 0)
helper_load-helper_store_example =
    helper_load-helper_store blank 12 1 2 0 0 0xABC (omega arith) (omega arith) (inl (omega arith))

-- four weights of three bits in two columns
abbrev packed_weights : Memory
packed_weights address = if address == 0 then 0xB5 else 0x0A

toy-ExactIntegers : ExactIntegers toy
toy-ExactIntegers = record { converted = λ v h. refl; subtracted = λ v n h k. refl }

dequantize_matmul-dot_example :
    (entry (helper_dequantize_matmul toy blank packed_weights 2 2 64 3 0 0 blank 3) (1 * 2 + 1)
      ≡ dot toy blank packed_weights 2 2 64 3 0 0 1 1 2 % 2 ^ 64)
    × (weight_bits packed_weights 3 700 ≡ 0)
dequantize_matmul-dot_example =
    dequantize_matmul-dot toy blank packed_weights 2 2 64 3 0 0 blank 3 1 1 700 toy-ExactIntegers
      (λ address. ground arith) (omega arith) (inl (omega arith)) (omega arith) (omega arith)
      (omega arith) (omega arith) (omega arith)
