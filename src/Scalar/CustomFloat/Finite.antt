-- ===== src/Scalar/CustomFloat/Finite.antt =====
-- numtoy-core/src/types.rs: what a normal f64 becomes in a custom float, in terms of its own fields.
use num_toy.Prelude.{
  ℕ, ◌+◌, ◌-◌, ◌*◌, ◌/◌, ◌%◌, ◌^◌, ◌<◌, ◌≡◌, Bool, not, ◌&&◌, ok, leb, ◌==◌, if◌then◌else◌, min,
  sub_ℕ, i32_pattern,
}
use num_toy.Scalar.Float.{FloatOps, zero_f64, one_f64, two_f64, infinity, neg_infinity, abs}
use num_toy.Scalar.CustomFloat.{encode_custom_float_with_e, decode_custom_float_with_e}

-- the exponent field and the fraction field of an f64
abbrev pub exponent_field : ℕ → ℕ
exponent_field val = abs val / 2 ^ 52

abbrev pub fraction_field : ℕ → ℕ
fraction_field val = abs val % 2 ^ 52

-- The f64 arithmetic of the mantissa is exact up to its one rounding, half away from zero.
abbrev pub RoundsExactly : FloatOps → ℕ → Type 0
RoundsExactly ops m =
    (f : ℕ)
    → f < 2 ^ 52
    → ops.to_u64 (ops.round (ops.mul (ops.sub (one_f64 + f) one_f64) (ops.of_u64 (2 ^ m))))
      ≡ (f * 2 ^ m + 2 ^ 51) / 2 ^ 52

-- the fraction in `m` bits, rounded half up, and cut at the largest
abbrev pub rounded : ℕ → ℕ → ℕ
rounded m f = min ((f * 2 ^ m + 2 ^ 51) / 2 ^ 52) (2 ^ m - 1)

module _ (ops : FloatOps) (val bits e m : ℕ) (steal_sign : Bool) where
  -- of a mantissa in `m` bits, with the exponent and the sign of `val`
  abbrev pub decoded : Bool → ℕ → ℕ
  decoded negative mantissa =
      let fraction = ops.div (ops.of_u64 mantissa) (ops.of_u64 (2 ^ m)) in
      let power = ops.powi two_f64 (i32_pattern (sub_ℕ (exponent_field val) 1023)) in
      let result = ops.mul (ops.add one_f64 fraction) power in
      if negative then ops.neg result else result

  abbrev pub is_negative : Bool
  is_negative = not steal_sign && (val / 2 ^ 63 == 1)

  -- `2 ^ (e - 1) - 1` is the bias of the format, and 1023 that of an f64.
  abbrev pub FiniteEncoded : Type 0
  FiniteEncoded =
      let exponent = exponent_field val + (2 ^ (e - 1) - 1) in
      (c : ℕ) × (encode_custom_float_with_e ops val bits e steal_sign ≡ ok c)
      × (c < 2 ^ bits)
      × (decode_custom_float_with_e ops c bits e steal_sign
          ≡ ok (
              if leb (2 ^ e - 1 + 1023) exponent
              then (if is_negative then neg_infinity else infinity)
              else if leb exponent 1023
              then zero_f64
              else decoded is_negative (rounded m (fraction_field val))))
