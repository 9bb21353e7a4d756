-- ===== src/Scalar/Ints/RoundTrip.antt =====
-- numtoy-core/src/types.rs: wide integers are decoded to the number that was encoded.
use num_toy.Prelude.{
  ℕ, zero, suc, ◌+◌, ◌-◌, ◌*◌, ◌/◌, ◌%◌, ◌^◌, ◌≤◌, ◌<◌, ◌≡◌, refl, sym, ap, ap₂, ◌∙◌, List, [], ◌∷◌,
  Bool-cases, inl, inr, true, false, ltb, ltb→lt, lt→ltb, ◌==◌, if◌then◌else◌, arith, length,
  get_elem?, get_or, set, replicate, some, none, two_pow_add, two_pow_suc, bit, bit-mod,
  bit_of_small, length-replicate, subst,
}
use native.Mathlib.Nat.{
  zero-div, div-div-eq-div-mul, mod-eq_of_lt, pow-le-pow_right, div-eq_of_lt-le,
}
use num_toy.Scalar.Limbs.{u64_mod, limb_count, limb_bit, pred_u32, is_negative, negate_limbs}
use num_toy.Scalar.Ints.{unsigned_abs, encode_custom_int_limbs, decode_custom_int_limbs, neg_i64}
use num_toy.Scalar.Ints.Value.{limbs_value, IsLimbs, mask_last-value, negate_limbs-value}

limb_bit_first : (x : ℕ) (xs : List ℕ) (i : ℕ) → i < 64 → limb_bit (x ∷ xs) i ≡ bit x i
unfolding limb_bit
limb_bit_first x xs i h =
    let first : i / 64 ≡ 0 = omega arith in
    let same : i % 64 ≡ i = omega arith in rw (first, limb_bit) (ap (bit x) same)

limb_bit_next : (x : ℕ) (xs : List ℕ) (j : ℕ) → limb_bit (x ∷ xs) (64 + j) ≡ limb_bit xs j
unfolding limb_bit
limb_bit_next x xs j =
    let next : (64 + j) / 64 ≡ suc (j / 64) = omega arith in
    let same : (64 + j) % 64 ≡ j % 64 = omega arith in
    ap₂ (λ q r. elim (get_elem? (x ∷ xs) q) [ none ↦ 0 | some y ↦ bit y r ]) next same

-- The bits of the limbs are those of the number.
pub limb_bit-value : (xs : List ℕ) (i : ℕ) → IsLimbs xs → limb_bit xs i ≡ bit (limbs_value xs) i
limb_bit-value [] i h = unfold limb_bit in (rw (zero-div (2 ^ i)) refl)
limb_bit-value (x ∷ xs) i h = elim (Bool-cases (ltb i 64)) [
  | inl e ↦
      let less = ltb→lt i 64 e in
      let low : limbs_value (x ∷ xs) % 2 ^ 64 ≡ x = omega (arith, h.0) in
      limb_bit_first x xs i less
      ∙ ap (λ y. bit y i) (sym low)
      ∙ bit-mod (limbs_value (x ∷ xs)) 64 i less
  | inr e ↦
      let j = i - 64 in
      let split : i ≡ 64 + j = ground arith in
      let high : limbs_value (x ∷ xs) / 2 ^ 64 ≡ limbs_value xs = omega (arith, h.0) in
      ap (limb_bit (x ∷ xs)) split
      ∙ limb_bit_next x xs j
      ∙ limb_bit-value xs j h.1
      ∙ ap (λ y. bit y j) (sym high)
      ∙ ap (λ q. q % 2) (div-div-eq-div-mul (limbs_value (x ∷ xs)) (2 ^ 64) (2 ^ j))
      ∙ ap (λ d. limbs_value (x ∷ xs) / d % 2) (sym (two_pow_add 64 j))
      ∙ ap (bit (limbs_value (x ∷ xs))) (sym split)
]

pub top_bit : (w n : ℕ) → 2 ^ n ≤ w → w < 2 ^ suc n → bit w n ≡ 1
top_bit w n lo hi =
    let e : w / 2 ^ n ≡ 1 =
      div-eq_of_lt-le (2 ^ n) (omega (arith, lo)) (omega (arith, hi, two_pow_suc n)) in
    rw e refl

pub pred_u32_lem : (bits : ℕ) → 0 < bits → bits < 2 ^ 32 → pred_u32 bits ≡ bits - 1
unfolding pred_u32
pred_u32_lem bits h k = omega arith

first_limb :
    (x : ℕ) (xs : List ℕ) → x < u64_mod → limbs_value (x ∷ xs) < u64_mod → x ≡ limbs_value (x ∷ xs)
first_limb x xs h k = omega arith

pub limb_count-bounds :
    (bits : ℕ) → 0 < bits → (64 * limb_count bits < bits + 64) × (bits ≤ 64 * limb_count bits)
unfolding limb_count
limb_count-bounds bits h = (omega arith, omega arith)

one_limb : ℕ → ℕ → List ℕ
one_limb k x = set (replicate k 0) 0 x

pub zeros-value : (k : ℕ) → (limbs_value (replicate k 0) ≡ 0) × IsLimbs (replicate k 0)
zeros-value zero = (refl, tt)
zeros-value (suc k) = let (v, h) = zeros-value k in (omega (arith, v), (omega arith, h))

one_limb-value :
    (k x : ℕ)
    → 0 < k
    → x < u64_mod
    → (limbs_value (one_limb k x) ≡ x) × IsLimbs (one_limb k x) × (length (one_limb k x) ≡ k)
unfolding one_limb
one_limb-value zero x h small = absurd (omega arith)
one_limb-value (suc k) x h small =
    let (v, zs) = zeros-value k in (omega (arith, v), (small, zs), ap suc (length-replicate k 0))

-- the number that a two's-complement pattern of 64 bits is in `bits` bits
abbrev pub widened : ℕ → ℕ → ℕ
widened val bits = if ltb val (2 ^ 63) then val else 2 ^ bits - (u64_mod - val)

module _ (val bits : ℕ) (word : val < u64_mod) (wide : 64 ≤ bits) where
  encoded-value :
      (limbs_value (encode_custom_int_limbs val bits) ≡ widened val bits)
      × IsLimbs (encode_custom_int_limbs val bits)
      × (length (encode_custom_int_limbs val bits) ≡ limb_count bits)
  unfolding encode_custom_int_limbs unsigned_abs one_limb
  encoded-value =
      let k = limb_count bits in
      let (lo, hi) = limb_count-bounds bits (omega (arith, wide)) in
      let room : 2 ^ 64 ≤ 2 ^ bits = pow-le-pow_right (omega arith) wide in
      elim (Bool-cases (ltb val (2 ^ 63))) [
        | inl e ↦
            let (v, small, len) = one_limb-value k val (omega (arith, hi, wide)) word in
            let (m, small', len') =
              mask_last-value (one_limb k val) bits small (rw len lo) (rw len hi) in
            rw e (
              m ∙ ap (λ n. n % 2 ^ bits) v ∙ mod-eq_of_lt (omega (arith, room, word)),
              small',
              len' ∙ len,
            )
        | inr e ↦
            let a = u64_mod - val in
            let big : 2 ^ 63 ≤ val = ground arith in
            let (v, small, len) =
              one_limb-value k a (omega (arith, hi, wide)) (omega (arith, big)) in
            let (m, small', len') =
              negate_limbs-value (one_limb k a) bits small (rw len lo) (rw len hi)
                (rw v (omega (arith, room, big))) in
            rw e (
              m ∙ ap (λ n. (2 ^ bits - n) % 2 ^ bits) v ∙ mod-eq_of_lt (omega (arith, word, room)),
              small',
              len' ∙ len,
            )
      ]

head_limb : (xs : List ℕ) → IsLimbs xs → limbs_value xs < u64_mod → get_or xs 0 0 ≡ limbs_value xs
head_limb [] h k = refl
head_limb (x ∷ xs) h k = omega (arith, h.0)

sign_of_value :
    (xs : List ℕ) (bits : ℕ)
    → 0 < bits
    → bits < 2 ^ 32
    → IsLimbs xs
    → is_negative xs bits ≡ (bit (limbs_value xs) (bits - 1) == 1)
unfolding is_negative
sign_of_value xs bits h k small =
    ap (λ i. limb_bit xs i == 1) (pred_u32_lem bits h k)
    ∙ ap (λ b. b == 1) (limb_bit-value xs (bits - 1) small)

pub sign_positive :
    (xs : List ℕ) (bits : ℕ)
    → 0 < bits
    → bits < 2 ^ 32
    → IsLimbs xs
    → limbs_value xs < 2 ^ (bits - 1)
    → is_negative xs bits ≡ false
sign_positive xs bits h k small less =
    sign_of_value xs bits h k small
    ∙ ap (λ b. b == 1) (bit_of_small (bits - 1) (limbs_value xs) (bits - 1) less (omega arith))

pub sign_negative :
    (xs : List ℕ) (bits : ℕ)
    → 0 < bits
    → bits < 2 ^ 32
    → IsLimbs xs
    → 2 ^ (bits - 1) ≤ limbs_value xs
    → limbs_value xs < 2 ^ bits
    → is_negative xs bits ≡ true
sign_negative xs bits h k small more less =
    let whole : bits ≡ suc (bits - 1) = omega arith in
    sign_of_value xs bits h k small
    ∙ ap (λ b. b == 1)
        (top_bit (limbs_value xs) (bits - 1) more (subst (λ b. limbs_value xs < 2 ^ b) whole less))

decode_cons :
    (xs : List ℕ) (bits : ℕ)
    → 0 < length xs
    → decode_custom_int_limbs xs bits
      ≡ (if is_negative xs bits then neg_i64 (get_or (negate_limbs xs bits) 0 0) else get_or xs 0 0)
unfolding decode_custom_int_limbs
decode_cons [] bits h = absurd (omega arith)
decode_cons (x ∷ xs) bits h = refl

module _ (val bits : ℕ) (word : val < u64_mod) (wide : 64 ≤ bits) (narrow : bits < 2 ^ 32) where
  code : List ℕ
  code = encode_custom_int_limbs val bits

  some_limbs : 0 < length code
  unfolding code
  some_limbs =
      let (v, small, len) = encoded-value val bits word wide in
      let (lo, hi) = limb_count-bounds bits (omega (arith, wide)) in omega (arith, len, hi, wide)

  pub half_range : (2 ^ 63 ≤ 2 ^ (bits - 1)) × (2 ^ bits ≡ 2 * 2 ^ (bits - 1))
  half_range =
      let room : 63 ≤ bits - 1 = omega (arith, wide) in
      let whole : bits ≡ suc (bits - 1) = omega (arith, wide) in
      (pow-le-pow_right (omega arith) room, ap (λ b. 2 ^ b) whole ∙ two_pow_suc (bits - 1))

  decoded_positive : val < 2 ^ 63 → decode_custom_int_limbs code bits ≡ val
  unfolding code
  decoded_positive less =
      let (v, small, len) = encoded-value val bits word wide in
      let same : limbs_value code ≡ val = v ∙ rw (lt→ltb val (2 ^ 63) less) refl in
      let fits : limbs_value code < 2 ^ (bits - 1) = omega (arith, same, less, half_range.0) in
      decode_cons code bits some_limbs
      ∙ rw (sign_positive code bits (omega (arith, wide)) narrow small fits)
          (head_limb code small (omega (arith, same, word)) ∙ same)

  decoded_negative : 2 ^ 63 ≤ val → decode_custom_int_limbs code bits ≡ val
  unfolding code neg_i64
  decoded_negative big =
      let (v, small, len) = encoded-value val bits word wide in
      let (half, twice) = half_range in
      let (lo, hi) = limb_count-bounds bits (omega (arith, wide)) in
      let test : ltb val (2 ^ 63) ≡ false = ground arith in
      let same : limbs_value code ≡ 2 ^ bits - (u64_mod - val) = v ∙ rw test refl in
      let below : limbs_value code < 2 ^ bits = omega (arith, same, word, half, twice) in
      let above : 2 ^ (bits - 1) ≤ limbs_value code = omega (arith, same, half, twice, big) in
      let (m, small', len') = negate_limbs-value code bits small (rw len lo) (rw len hi) below in
      let back : limbs_value (negate_limbs code bits) ≡ u64_mod - val =
        m
        ∙ mod-eq_of_lt (omega (arith, above, half))
        ∙ omega (arith, same, half, twice, big, word) in
      decode_cons code bits some_limbs
      ∙ rw (sign_negative code bits (omega (arith, wide)) narrow small above below) (
          ap (λ a. (u64_mod - a) % u64_mod)
            (head_limb (negate_limbs code bits) small' (omega (arith, back, big)) ∙ back)
          ∙ omega (arith, word, big))

  -- In 64 bits or more, the limbs of an i64 are as many as the width needs and spell out its two's
  -- complement in that width, and they are decoded to the same i64.
  pub decode-encode_custom_int_limbs :
      (decode_custom_int_limbs (encode_custom_int_limbs val bits) bits ≡ val)
      × (limbs_value (encode_custom_int_limbs val bits) ≡ widened val bits)
      × IsLimbs (encode_custom_int_limbs val bits)
      × (length (encode_custom_int_limbs val bits) ≡ limb_count bits)
  decode-encode_custom_int_limbs =
      let (v, small, len) = encoded-value val bits word wide in
      (
        unfold code in
            (elim (Bool-cases (ltb val (2 ^ 63))) [
              | inl e ↦ decoded_positive (ltb→lt val (2 ^ 63) e)
              | inr e ↦ decoded_negative (ground arith)
            ]),
        v,
        small,
        len,
      )
