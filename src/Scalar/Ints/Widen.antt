-- ===== src/Scalar/Ints/Widen.antt =====
-- numtoy-core/src/types.rs: extending an encoded integer is encoding it in the wider width.
use num_toy.Prelude.{
  ℕ, ◌-◌, ◌^◌, ◌≤◌, ◌<◌, ◌≡◌, refl, sym, ap₂, ◌∙◌, List, [], ◌∷◌, Bool-cases, inl, inr, not, ltb,
  ltb→lt, arith, length,
}
use native.Mathlib.Nat.{pow-le-pow_right}
use num_toy.Scalar.Limbs.{u64_mod, is_negative}
use num_toy.Scalar.Ints.{extend_limbs, encode_custom_int_limbs}
use num_toy.Scalar.Ints.Value.{limbs_value, IsLimbs}
use num_toy.Scalar.Ints.RoundTrip.{
  widened, half_range, sign_positive, sign_negative, decode-encode_custom_int_limbs,
}
use num_toy.Scalar.Ints.Extend.{extend_limbs-value}

limbs_unique :
    (xs ys : List ℕ)
    → IsLimbs xs
    → IsLimbs ys
    → length xs ≡ length ys
    → limbs_value xs ≡ limbs_value ys
    → xs ≡ ys
limbs_unique [] [] h k len e = refl
limbs_unique [] (y ∷ ys) h k len e = absurd (omega (arith, len))
limbs_unique (x ∷ xs) [] h k len e = absurd (omega (arith, len))
limbs_unique (x ∷ xs) (y ∷ ys) h k len e =
    let first : x ≡ y = omega (arith, e, h.0, k.0) in
    let rest : limbs_value xs ≡ limbs_value ys = omega (arith, e, h.0, k.0) in
    ap₂ (λ z zs. z ∷ zs) first (limbs_unique xs ys h.1 k.1 (omega (arith, len)) rest)

module _ (val bits : ℕ) (word : val < u64_mod) (wide : 64 ≤ bits) (narrow : bits < 2 ^ 32) where
  encoded-fits : widened val bits < 2 ^ bits
  encoded-fits =
      let room : 2 ^ 64 ≤ 2 ^ bits = pow-le-pow_right (omega arith) wide in
      elim (Bool-cases (ltb val (2 ^ 63))) [
        | inl e ↦ rw e (omega (arith, room, word))
        | inr e ↦ rw e (omega (arith, room, word))
      ]

  encoded-sign : is_negative (encode_custom_int_limbs val bits) bits ≡ not (ltb val (2 ^ 63))
  encoded-sign =
      let (back, v, small, len) = decode-encode_custom_int_limbs val bits word wide narrow in
      let (half, twice) = half_range val bits word wide narrow in
      let code = encode_custom_int_limbs val bits in
      let pos : 0 < bits = omega (arith, wide) in
      elim (Bool-cases (ltb val (2 ^ 63))) [
        | inl e ↦
            let same : limbs_value code ≡ val = v ∙ rw e refl in
            rw e (
              sign_positive code bits pos narrow small
                (omega (arith, same, ltb→lt val (2 ^ 63) e, half)))
        | inr e ↦
            let big : 2 ^ 63 ≤ val = ground arith in
            let same : limbs_value code ≡ 2 ^ bits - (u64_mod - val) = v ∙ rw e refl in
            rw e (
              sign_negative code bits pos narrow small (omega (arith, same, half, twice, big))
                (omega (arith, same, half, twice, word)))
      ]

-- An i64 that was encoded in 64 bits or more and is then extended has the limbs of its encoding in the
-- wider width.
pub extend_limbs-encode :
    (val from_bits to_bits : ℕ)
    → val < u64_mod
    → 64 ≤ from_bits
    → from_bits ≤ to_bits
    → to_bits < 2 ^ 32
    → extend_limbs (encode_custom_int_limbs val from_bits) from_bits to_bits
      ≡ encode_custom_int_limbs val to_bits
extend_limbs-encode val from_bits to_bits word wide wider narrow =
    let code = encode_custom_int_limbs val from_bits in
    let narrow' : from_bits < 2 ^ 32 = omega (arith, wider, narrow) in
    let wide' : 64 ≤ to_bits = omega (arith, wide, wider) in
    let (back, v, small, len) = decode-encode_custom_int_limbs val from_bits word wide narrow' in
    let (back', v', small', len') = decode-encode_custom_int_limbs val to_bits word wide' narrow in
    let fits : limbs_value code < 2 ^ from_bits =
      rw v (encoded-fits val from_bits word wide narrow') in
    let (ext, small'', len'') =
      extend_limbs-value code from_bits to_bits small (omega (arith, wide)) wider len fits in
    let powers : 2 ^ from_bits ≤ 2 ^ to_bits = pow-le-pow_right (omega arith) wider in
    let room : 2 ^ 64 ≤ 2 ^ from_bits = pow-le-pow_right (omega arith) wide in
    let sign = encoded-sign val from_bits word wide narrow' in
    let value : limbs_value (extend_limbs code from_bits to_bits) ≡ widened val to_bits =
      ext
      ∙ rw (sign, v)
          (elim (Bool-cases (ltb val (2 ^ 63))) [
            | inl e ↦ rw e refl
            | inr e ↦ rw e (omega (arith, powers, room, word))
          ]) in
    limbs_unique (extend_limbs code from_bits to_bits) (encode_custom_int_limbs val to_bits) small''
      small' (len'' ∙ sym len') (value ∙ sym v')
