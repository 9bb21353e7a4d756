-- ===== src/Scalar/CustomFloat/RoundTrip.antt =====
-- numtoy-core/src/types.rs: the fields of an encoded float, and what they are decoded to.
use num_toy.Prelude.{
  ℕ, zero, suc, ◌+◌, ◌-◌, ◌*◌, ◌/◌, ◌%◌, ◌^◌, ◌≤◌, ◌<◌, ◌≡◌, ◌⊎◌, refl, ap, ◌∙◌, Bool, true, false,
  not, ◌&&◌, Bool-cases, inl, inr, ok, fault, ltb, ◌==◌, if◌then◌else◌, arith, ℤ, pos, negsuc,
  sub_ℕ, ◌+ℤ◌, ◌≤ℤ◌, leb_ℤ, i32_pattern, two_pow_add, two_pow_pos, two_pow_suc,
}
use native.Mathlib.Nat.{mod-eq_of_lt}
use num_toy.Scalar.Float.{
  FloatOps, zero_f64, one_f64, two_f64, infinity, neg_infinity, abs, is_zero, lt_zero,
}
use num_toy.Scalar.CustomFloat.{
  scale_float, is_exponent_width, bias_of, mantissa_bits, sign_of, encode_mantissa,
  encode_custom_float_with_e, decode_custom_float_with_e,
}
use num_toy.Scalar.CustomFloat.Fields.{
  fields, packed-low, packed-middle, packed-top, packed-lt, regroup, fields_pos,
}

positive_exponent : (x : ℤ) → leb_ℤ x (pos 0) ≡ false → (n : ℕ) × (x ≡ pos n) × (0 < n)
positive_exponent (pos n) h = (n, refl, ground arith)
positive_exponent (negsuc n) h = absurd (ground arith)

in_range : (x : ℤ) (n top : ℕ) → x ≡ pos n → leb_ℤ (pos top) x ≡ false → n < top
in_range x n top e h = let h' : leb_ℤ (pos top) (pos n) ≡ false = rw e at h in ground arith

exponent_back : (raw : ℤ) (b n : ℕ) → raw +ℤ pos b ≡ pos n → sub_ℕ n b ≡ raw
exponent_back (pos a) b n h = ground arith
exponent_back (negsuc a) b n h = ground arith

two_powers : (e : ℕ) → is_exponent_width e ≡ true → 2 ≤ 2 ^ e
unfolding is_exponent_width
two_powers zero h = cc h
two_powers (suc e) h = omega (arith, two_pow_suc e, two_pow_pos e)

module _ (ops : FloatOps) (val bits e m : ℕ) (steal_sign : Bool) where
  -- the value is not zero, and the fields fill the width
  abbrev pub HasFields : Type 0
  HasFields =
      (is_zero val ≡ false)
      × (is_exponent_width e ≡ true)
      × (ltb bits 65 ≡ true)
      × (mantissa_bits bits e steal_sign ≡ ok m)

  -- the exponent field before it is cut off
  abbrev pub exponent : ℤ
  exponent = (scale_float (abs val)).1 +ℤ pos (bias_of e)

  abbrev pub sign : ℕ
  sign = sign_of steal_sign val

  encoded_number :
      (n : ℕ)
      → HasFields
      → exponent ≡ pos n
      → 0 < n
      → n < 2 ^ e - 1
      → encode_custom_float_with_e ops val bits e steal_sign
        ≡ ok (sign * 2 ^ (bits - 1) + n * 2 ^ m + encode_mantissa ops (scale_float (abs val)).0 m)
  unfolding encode_custom_float_with_e
  encoded_number n (z, w, b, f) h lo hi =
      let large : leb_ℤ (pos (2 ^ e - 1)) (pos n) ≡ false = ground arith in
      let tiny : leb_ℤ (pos n) (pos 0) ≡ false = ground arith in
      rw (z, w, b, f, h, large, tiny) refl

  encoded_large :
      HasFields
      → pos (2 ^ e - 1) ≤ℤ exponent
      → encode_custom_float_with_e ops val bits e steal_sign
        ≡ ok (sign * 2 ^ (bits - 1) + (2 ^ e - 1) * 2 ^ m)
  unfolding encode_custom_float_with_e
  encoded_large (z, w, b, f) h =
      let large : leb_ℤ (pos (2 ^ e - 1)) exponent ≡ true = ground arith in
      rw (z, w, b, f, large) refl

  encoded_small :
      HasFields
      → 2 ≤ 2 ^ e
      → exponent ≤ℤ pos 0
      → encode_custom_float_with_e ops val bits e steal_sign ≡ ok 0
  unfolding encode_custom_float_with_e
  encoded_small (z, w, b, f) two h =
      let large : leb_ℤ (pos (2 ^ e - 1)) exponent ≡ false = ground arith in
      let tiny : leb_ℤ exponent (pos 0) ≡ true = ground arith in rw (z, w, b, f, large, tiny) refl

  -- the fields of the mantissa, the exponent and the sign
  abbrev code : ℕ → ℕ → ℕ
  code n mantissa = fields m e mantissa n sign

  -- the width is that of the fields
  width :
      mantissa_bits bits e steal_sign ≡ ok m
      → ((steal_sign ≡ true) × (bits ≡ m + e)) ⊎ ((steal_sign ≡ false) × (bits ≡ m + e + 1))
  unfolding mantissa_bits
  width h = elim (Bool-cases steal_sign) [
    | inl s ↦ inl (s, exact e (rw s at h))
    | inr s ↦ inr (s, omega (arith, exact (e + 1) (rw s at h)))
  ]
    where
      exact :
          (used : ℕ) → (if ltb bits used then fault else ok (bits - used)) ≡ ok m → bits ≡ m + used
      exact used h = ground arith

  code-sum :
      (n mantissa : ℕ)
      → mantissa_bits bits e steal_sign ≡ ok m
      → sign * 2 ^ (bits - 1) + n * 2 ^ m + mantissa ≡ code n mantissa
  unfolding fields
  code-sum n mantissa f = elim (width f) [
    | inl (s, b) ↦
        let positive : sign ≡ 0 = rw s refl in
        rw positive (regroup 0 (2 ^ (bits - 1)) n (2 ^ m) (2 ^ e) mantissa (inl refl))
    | inr (s, b) ↦
        let b' : bits - 1 ≡ m + e = omega (arith, b) in
        let p = ap (λ k. 2 ^ k) b' ∙ two_pow_add m e in
        regroup sign (2 ^ (bits - 1)) n (2 ^ m) (2 ^ e) mantissa (inr p)
  ]

  -- the value of the fields, in the arithmetic of f64
  abbrev pub field_value : ℕ → ℤ → ℕ
  field_value mantissa exp =
      let fraction = ops.div (ops.of_u64 mantissa) (ops.of_u64 (2 ^ m)) in
      let result = ops.mul (ops.add one_f64 fraction) (ops.powi two_f64 (i32_pattern exp)) in
      if sign == 1 then ops.neg result else result

  sign_small : (steal : Bool) → sign_of steal val < 2
  sign_small steal = elim (Bool-cases (not steal && lt_zero val)) [
    | inl h ↦ rw h (omega arith)
    | inr h ↦ rw h (omega arith)
  ]

  sign_bit :
      (n mantissa : ℕ)
      → mantissa_bits bits e steal_sign ≡ ok m
      → mantissa < 2 ^ m
      → n < 2 ^ e
      → (if steal_sign then 0 else code n mantissa / 2 ^ (bits - 1) % 2) ≡ sign
  sign_bit n mantissa f small below = elim (width f) [
    | inl (s, b) ↦ rw s refl
    | inr (s, b) ↦
        let b' : bits - 1 ≡ m + e = omega (arith, b) in
        rw (s, b')
          (ap (λ q. q % 2) (packed-top m e mantissa n (sign_of false val) small below)
            ∙ mod-eq_of_lt (sign_small false))
  ]

  decoded_number :
      (n mantissa : ℕ)
      → HasFields
      → 0 < n
      → n < 2 ^ e - 1
      → mantissa < 2 ^ m
      → decode_custom_float_with_e ops (code n mantissa) bits e steal_sign
        ≡ ok (field_value mantissa (sub_ℕ n (bias_of e)))
  unfolding decode_custom_float_with_e
  decoded_number n mantissa (z, w, b, f) lo hi small =
      let c = code n mantissa in
      let below : n < 2 ^ e = omega (arith, hi) in
      let nonzero = fields_pos m e mantissa n sign lo in
      let low = packed-low m e mantissa n sign small below in
      let middle = packed-middle m e mantissa n sign small below in
      let finite : (n == 2 ^ e - 1) ≡ false = ground arith in
      rw (nonzero, w, b, f) (rw (low, middle, finite, sign_bit n mantissa f small below) refl)

  encode_mantissa-lt : (mantissa : ℕ) → encode_mantissa ops mantissa m < 2 ^ m
  unfolding encode_mantissa
  encode_mantissa-lt mantissa = omega (arith, two_pow_pos m)

  decoded_zero : decode_custom_float_with_e ops 0 bits e steal_sign ≡ ok zero_f64
  unfolding decode_custom_float_with_e
  decoded_zero = refl

  -- an encoded infinity
  decoded_infinity :
      HasFields
      → 2 ≤ 2 ^ e
      → decode_custom_float_with_e ops (code (2 ^ e - 1) 0) bits e steal_sign
        ≡ ok (if sign == 1 then neg_infinity else infinity)
  unfolding decode_custom_float_with_e
  decoded_infinity (z, w, b, f) two =
      let n = 2 ^ e - 1 in
      let below : n < 2 ^ e = omega (arith, two) in
      let nonzero = fields_pos m e 0 n sign (omega (arith, two)) in
      let middle = packed-middle m e 0 n sign (two_pow_pos m) below in
      let all_ones : (n == n) ≡ true = ground arith in
      rw (nonzero, w, b, f) (rw (middle, all_ones, sign_bit n 0 f (two_pow_pos m) below) refl)

  code-lt :
      (n mantissa : ℕ)
      → mantissa_bits bits e steal_sign ≡ ok m
      → mantissa < 2 ^ m
      → n < 2 ^ e
      → code n mantissa < 2 ^ bits
  code-lt n mantissa f small below =
      let h = packed-lt m e mantissa n sign small below in
      let powers = two_pow_add m e in
      elim (width f) [
        | inl (s, b) ↦
            let positive : sign ≡ 0 = rw s refl in
            let room = ap (λ k. 2 ^ k) b ∙ powers in grind (arith, h, positive, room)
        | inr (s, b) ↦
            let b' : bits ≡ suc (m + e) = omega (arith, b) in
            let room = ap (λ k. 2 ^ k) b' ∙ two_pow_suc (m + e) in
            let top = sign_small steal_sign in
            let upper : 2 ^ e * suc sign ≤ 2 ^ e * 2 = grind (arith, top) in
            let whole : 2 ^ m * (2 ^ e * suc sign) ≤ 2 ^ m * (2 ^ e * 2) = grind (arith, upper) in
            let regrouped : 2 ^ m * (2 ^ e * 2) ≡ 2 * (2 ^ m * 2 ^ e) = grind arith in
            omega (arith, h, whole, regrouped, room, powers)
      ]

  -- what becomes of the value
  abbrev pub Encoded : Type 0
  Encoded =
      (c : ℕ) × (encode_custom_float_with_e ops val bits e steal_sign ≡ ok c)
      × (c < 2 ^ bits)
      × (decode_custom_float_with_e ops c bits e steal_sign
          ≡ ok (
              if leb_ℤ (pos (2 ^ e - 1)) exponent
              then (if sign == 1 then neg_infinity else infinity)
              else if leb_ℤ exponent (pos 0)
              then zero_f64
              else field_value (encode_mantissa ops (scale_float (abs val)).0 m)
                  (scale_float (abs val)).1))

  -- `encode_custom_float_with_e` answers on every value that is not zero, where the fields fill a width
  -- of at most 64 bits. The code fits the width. An exponent above the range is decoded to an
  -- infinity, one below it to zero, and any other value to its sign, its exponent and the mantissa that
  -- it was rounded to, in the arithmetic of f64.
  pub decode-encode_custom_float : HasFields → Encoded
  decode-encode_custom_float h =
      let (z, w, b, f) = h in
      let two = two_powers e w in
      elim (Bool-cases (leb_ℤ (pos (2 ^ e - 1)) exponent)) [
        | inl large ↦
            let n = 2 ^ e - 1 in
            (
              code n 0,
              encoded_large h (ground arith) ∙ ap ok (omega arith ∙ code-sum n 0 f),
              code-lt n 0 f (two_pow_pos m) (omega (arith, two)),
              decoded_infinity h two ∙ rw large refl,
            )
        | inr finite ↦ elim (Bool-cases (leb_ℤ exponent (pos 0))) [
          | inl tiny ↦ (
            0,
            encoded_small h two (ground arith),
            two_pow_pos bits,
            decoded_zero ∙ rw (finite, tiny) refl,
          )
          | inr normal ↦
              let (n, e₁, lo) = positive_exponent exponent normal in
              let hi : n < 2 ^ e - 1 = in_range exponent n (2 ^ e - 1) e₁ finite in
              let mantissa = encode_mantissa ops (scale_float (abs val)).0 m in
              let small = encode_mantissa-lt (scale_float (abs val)).0 in
              (
                code n mantissa,
                encoded_number n h e₁ lo hi ∙ ap ok (code-sum n mantissa f),
                code-lt n mantissa f small (omega (arith, hi)),
                decoded_number n mantissa h lo hi small
                    ∙ rw (finite, normal)
                        (ap (λ x. ok (field_value mantissa x))
                          (exponent_back (scale_float (abs val)).1 (bias_of e) n e₁)),
              )
        ]
      ]
