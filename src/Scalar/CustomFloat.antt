-- ===== src/Scalar/CustomFloat.antt =====
-- numtoy-core/src/types.rs: floats of any width up to 64 bits (`scale_float`,
-- `encode_custom_float_with_e`, `decode_custom_float_with_e`). An arithmetic overflow or a shift that
-- is too wide is a panic. The callers pass at most 64 bits.
pub mod Fields
pub mod Finite
pub mod RoundTrip
pub mod Scale
use num_toy.Prelude.{
  ℕ, zero, suc, ◌+◌, ◌-◌, ◌*◌, ◌/◌, ◌%◌, ◌^◌, Bool, true, false, not, ◌&&◌, Outcome, ok, fault,
  ◌>>=◌, ltb, leb, ◌==◌, if◌then◌else◌, min, ℤ, pos, sub_ℕ, ◌+ℤ◌, leb_ℤ, i32_pattern, pos_part,
}
use num_toy.Scalar.Float.{
  FloatOps, zero_f64, one_f64, two_f64, infinity, neg_infinity, abs, is_zero, is_nan, is_infinite,
  lt_zero,
}

-- `val * 2.0`, which is exact on a positive value below 1.0
unfoldable pub times_two : ℕ → ℕ
times_two val = if ltb val (2 ^ 52) then 2 * val else val + 2 ^ 52

-- `while normalized_val < 1.0`, with the number of rounds
unfoldable pub normalize : ℕ → ℕ → ℕ → ℕ × ℕ
normalize zero val rounds = (val, rounds)
normalize (suc fuel) val rounds =
    let rest = normalize fuel (times_two val) (rounds + 1) in
    if ltb val one_f64 then rest else (val, rounds)

-- the rounds from the smallest positive value to 1.0
abbrev pub normalize_fuel : ℕ
normalize_fuel = 1074

-- of a value that is not negative
unfoldable pub scale_float : ℕ → ℕ × ℤ
scale_float val =
    let exponent_raw = val / 2 ^ 52 % 2 ^ 11 in
    let fraction_bits = val % 2 ^ 52 in
    if exponent_raw == 0
    then (if fraction_bits == 0
        then (one_f64, sub_ℕ 0 1023)
        else (let (normalized, rounds) = normalize normalize_fuel val 0 in
            (normalized, sub_ℕ 0 (1023 + rounds))))
    else (one_f64 + fraction_bits, sub_ℕ exponent_raw 1023)

-- `(1 << (e - 1)) - 1` and `(1 << e) - 1` on i32, which do not overflow
unfoldable pub is_exponent_width : ℕ → Bool
is_exponent_width e = ltb 0 e && ltb e 31

abbrev pub bias_of : ℕ → ℕ
bias_of e = 2 ^ (e - 1) - 1

-- `bits - e` or `bits - e - 1`
unfoldable pub mantissa_bits : ℕ → ℕ → Bool → Outcome ℕ
mantissa_bits bits e steal_sign =
    let used = if steal_sign then e else e + 1 in if ltb bits used then fault else ok (bits - used)

abbrev pub sign_of : Bool → ℕ → ℕ
sign_of steal_sign val = if not steal_sign && lt_zero val then 1 else 0

module _ (ops : FloatOps) where
  -- `((fraction * (1u64 << m_bits) as f64).round() as u64).min(max_mantissa)`
  unfoldable pub encode_mantissa : ℕ → ℕ → ℕ
  encode_mantissa mantissa m_bits =
      let fraction = ops.sub mantissa one_f64 in
      min (ops.to_u64 (ops.round (ops.mul fraction (ops.of_u64 (2 ^ m_bits))))) (2 ^ m_bits - 1)

  -- The fields are apart, so that `|` is a sum.
  unfoldable pub encode_custom_float_with_e : ℕ → ℕ → ℕ → Bool → Outcome ℕ
  encode_custom_float_with_e val bits e steal_sign =
      let (mantissa, exponent_raw) = scale_float (abs val) in
      let exponent = exponent_raw +ℤ pos (bias_of e) in
      let sign = sign_of steal_sign val * 2 ^ (bits - 1) in
      if is_zero val
      then ok 0
      else if is_exponent_width e && ltb bits 65
      then (mantissa_bits bits e steal_sign >>= λ m_bits.
          if leb_ℤ (pos (2 ^ e - 1)) exponent
          then ok (sign + (2 ^ e - 1) * 2 ^ m_bits)
          else if leb_ℤ exponent (pos 0)
          then ok 0
          else ok (sign + pos_part exponent * 2 ^ m_bits + encode_mantissa mantissa m_bits))
      else fault

  unfoldable pub decode_custom_float_with_e : ℕ → ℕ → ℕ → Bool → Outcome ℕ
  decode_custom_float_with_e val bits e steal_sign =
      let exponent_bits = λ (m_bits : ℕ). val / 2 ^ m_bits % 2 ^ e in
      let sign_bit = if steal_sign then 0 else val / 2 ^ (bits - 1) % 2 in
      if val == 0
      then ok zero_f64
      else if is_exponent_width e && ltb bits 65
      then (mantissa_bits bits e steal_sign >>= λ m_bits.
          if exponent_bits m_bits == 2 ^ e - 1
          then ok (if sign_bit == 1 then neg_infinity else infinity)
          else (let exponent = sub_ℕ (exponent_bits m_bits) (bias_of e) in
              let fraction = ops.div (ops.of_u64 (val % 2 ^ m_bits)) (ops.of_u64 (2 ^ m_bits)) in
              let mantissa = ops.add one_f64 fraction in
              let result = ops.mul mantissa (ops.powi two_f64 (i32_pattern exponent)) in
              ok (if sign_bit == 1 then ops.neg result else result)))
      else fault

  unfoldable pub exponent_width : ℕ → ℕ
  exponent_width bits = if leb bits 16 then 5 else if leb bits 32 then 8 else 11

  unfoldable pub encode_custom_float : ℕ → ℕ → Bool → Outcome ℕ
  encode_custom_float val bits steal_sign =
      encode_custom_float_with_e val bits (exponent_width bits) steal_sign

  unfoldable pub decode_custom_float : ℕ → ℕ → Bool → Outcome ℕ
  decode_custom_float val bits steal_sign =
      decode_custom_float_with_e val bits (exponent_width bits) steal_sign
