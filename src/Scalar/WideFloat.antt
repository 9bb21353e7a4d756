-- ===== src/Scalar/WideFloat.antt =====
-- numtoy-core/src/types.rs: floats of any width as limbs (`encode_custom_float_limbs` and
-- `decode_custom_float_limbs`). An arithmetic overflow or a shift that is too wide is a panic.
use num_toy.Prelude.{
  ℕ, ◌+◌, ◌-◌, ◌*◌, ◌/◌, ◌%◌, ◌^◌, Bool, true, not, ◌&&◌, List, [], ◌∷◌, Outcome, ok, fault, ◌>>=◌,
  ltb, leb, ◌==◌, if◌then◌else◌, ℤ, pos, negsuc, sub_ℕ, ◌+ℤ◌, leb_ℤ, i32_pattern, pos_part, get_or,
  set, replicate,
}
use num_toy.Scalar.Float.{
  FloatOps, zero_f64, one_f64, two_f64, infinity, neg_infinity, abs, is_zero, lt_zero,
}
use num_toy.Scalar.Limbs.{u64_mod, limb_count}
use num_toy.Scalar.Fields.{set_bits, get_bits}
use num_toy.Scalar.CustomFloat.{scale_float, bias_of, mantissa_bits, encode_mantissa}

-- `(1i128 << e) - 1` does not overflow
unfoldable pub is_wide_exponent : ℕ → Bool
is_wide_exponent e = ltb 0 e && ltb e 127

abbrev pub zero_limbs : ℕ → List ℕ
zero_limbs bits = replicate (limb_count bits) 0

-- the sign bit, where there is one
unfoldable pub set_sign : List ℕ → ℕ → Bool → ℕ → List ℕ
set_sign limbs bits steal_sign val =
    if not steal_sign && lt_zero val then set_bits limbs (1 ∷ []) (bits - 1) 1 else limbs

unfoldable pub all_zero : List ℕ → Bool
all_zero [] = true
all_zero (x ∷ xs) = x == 0 && all_zero xs

module _ (ops : FloatOps) where
  -- 52 bits of the fraction, shifted to the top of the mantissa
  unfoldable pub shifted_mantissa : List ℕ → ℕ → ℕ → List ℕ
  shifted_mantissa limbs val_m52 shift =
      let low = set limbs (shift / 64) (val_m52 * 2 ^ (shift % 64) % u64_mod) in
      if ltb 0 (shift % 64) then set low (shift / 64 + 1) (val_m52 / 2 ^ (64 - shift % 64)) else low

  unfoldable pub mantissa_limbs : ℕ → ℕ → Outcome (List ℕ)
  mantissa_limbs mantissa m_bits =
      let limbs = zero_limbs m_bits in
      let fraction = ops.sub mantissa one_f64 in
      let val_m52 = ops.to_u64 (ops.round (ops.mul fraction (ops.of_u64 (2 ^ 52)))) in
      if m_bits == 0
      then fault
      else if leb m_bits 52
      then ok (set limbs 0 (encode_mantissa ops mantissa m_bits))
      else ok (shifted_mantissa limbs val_m52 (m_bits - 52))

  unfoldable pub encode_custom_float_limbs : ℕ → ℕ → ℕ → Bool → Outcome (List ℕ)
  encode_custom_float_limbs val bits e steal_sign =
      let limbs = zero_limbs bits in
      let (mantissa, exponent_raw) = scale_float (abs val) in
      let exponent = exponent_raw +ℤ pos (bias_of e) in
      let top = 2 ^ e - 1 in
      if is_zero val
      then ok limbs
      else if is_wide_exponent e
      then (mantissa_bits bits e steal_sign >>= λ m_bits.
          if leb_ℤ (pos top) exponent
          then (if leb 64 e
              then fault
              else ok (
                  set_sign (set_bits limbs (replicate (limb_count e) top) m_bits e) bits steal_sign
                    val))
          else if leb_ℤ exponent (pos 0)
          then ok limbs
          else (mantissa_limbs mantissa m_bits >>= λ fraction.
              let field = pos_part exponent in
              let exp_limbs = field % u64_mod ∷ field / u64_mod ∷ [] in
              let filled = set_bits (set_bits limbs fraction 0 m_bits) exp_limbs m_bits e in
              ok (set_sign filled bits steal_sign val)))
      else fault

  -- the fraction that the mantissa field stands for
  unfoldable pub decode_fraction : List ℕ → ℕ → ℕ
  decode_fraction limbs m_bits =
      let mantissa = get_bits limbs 0 m_bits in
      let shift = m_bits - 52 in
      let low = get_or mantissa (shift / 64) 0 / 2 ^ (shift % 64) in
      let high = get_or mantissa (shift / 64 + 1) 0 * 2 ^ (64 - shift % 64) % u64_mod in
      let val_m52 = if ltb 0 (shift % 64) then low + high else low in
      if leb m_bits 52
      then ops.div (ops.of_u64 (get_or mantissa 0 0)) (ops.of_u64 (2 ^ m_bits))
      else ops.div (ops.of_u64 (val_m52 % 2 ^ 52)) (ops.of_u64 (2 ^ 52))

  -- `2.0.powi` in two steps where the exponent is below the range of f64
  unfoldable pub scale_back : ℕ → ℤ → ℕ
  scale_back mantissa exponent =
      let least = negsuc 1021 in
      if leb_ℤ (pos 1024) exponent
      then infinity
      else if leb_ℤ least exponent
      then ops.mul mantissa (ops.powi two_f64 (i32_pattern exponent))
      else ops.mul (ops.mul mantissa (ops.powi two_f64 (i32_pattern least)))
          (ops.powi two_f64 (i32_pattern (exponent +ℤ pos 1022)))

  unfoldable pub decode_custom_float_limbs : List ℕ → ℕ → ℕ → Bool → Outcome ℕ
  decode_custom_float_limbs limbs bits e steal_sign =
      if all_zero limbs
      then ok zero_f64
      else if is_wide_exponent e
      then (mantissa_bits bits e steal_sign >>= λ m_bits.
          let exp_limbs = get_bits limbs m_bits e in
          let exponent_bits = get_or exp_limbs 0 0 + u64_mod * get_or exp_limbs 1 0 in
          let sign_bit = if steal_sign then 0 else get_or (get_bits limbs (bits - 1) 1) 0 0 % 2 in
          let mantissa = ops.add one_f64 (decode_fraction limbs m_bits) in
          let result = scale_back mantissa (sub_ℕ exponent_bits (bias_of e)) in
          if exponent_bits == 2 ^ e - 1
          then ok (if sign_bit == 1 then neg_infinity else infinity)
          else ok (if sign_bit == 1 then ops.neg result else result))
      else fault
