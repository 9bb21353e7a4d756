-- ===== src/Kernel/Matmul/Decode.antt =====
-- numtoy-core/src/fuser.rs: the number that the bits of a packed weight are decoded to.
use num_toy.Prelude.{
  ◌==◌, ◌&&◌, ◌-◌, leb, bit, bit_of_small, if◌then◌else◌, two_pow_pos, true, false, ℕ, suc, ◌+◌,
  ◌%◌, ◌^◌, ◌≤◌, ◌<◌, ◌≡◌, ◌≢◌, ◌⊎◌, inl, inr, refl, Bool-cases, ltb, arith,
}
use native.Mathlib.Nat.{mod-lt, pow-le-pow_right}
use num_toy.Scalar.Ints.RoundTrip.{top_bit}
use num_toy.Scalar.Float.{FloatOps}
use num_toy.Kernel.Packed.{Memory}
use num_toy.Kernel.Matmul.{weight_bits, one_shifted, weight_value}

-- What f64 promises of integers below 2 ^ 53: they are converted exactly, and so is a difference.
pub record ExactIntegers (ops : FloatOps) : Type 0 where
  pub converted : (v : ℕ) → v < 2 ^ 53 → ops.of_u64 v ≡ ops.of_i64 v
  pub subtracted :
      (v n : ℕ)
      → v < 2 ^ 53
      → n < 2 ^ 53
      → ops.sub (ops.of_u64 v) (ops.of_i64 n) ≡ ops.of_i64 ((v + 2 ^ 64 - n) % 2 ^ 64)

-- the integer that `w` bits stand for, as an i64: two's complement, or unsigned where the sign is stolen
abbrev integer_of : ℕ → ℕ → ℕ → ℕ
integer_of w w_steal v =
    if w_steal == 0 && leb (2 ^ (w - 1)) v then (v + 2 ^ 64 - 2 ^ w) % 2 ^ 64 else v

abbrev pub weight : FloatOps → ℕ → ℕ → ℕ → ℕ → ℕ
weight ops w w_scale w_steal v =
    let number = ops.of_i64 (integer_of w w_steal v) in
    if w_scale == 0 then number else ops.div number (ops.of_u64 w_scale)

-- the widths for which the code decodes an integer: with a sign at most 30 bits, without at most 52
abbrev pub ReadsExactly : ℕ → ℕ → Type 0
ReadsExactly w w_steal = (w ≤ 30) ⊎ ((w_steal ≢ 0) × (w ≤ 52))

pub weight_bits-lt : (mem : Memory) (w idx : ℕ) → w ≤ 57 → weight_bits mem w idx < 2 ^ w
unfolding weight_bits
weight_bits-lt mem w idx h =
    let no_mask : w % 64 ≡ w = omega arith in rw no_mask (mod-lt _ (two_pow_pos w))

-- the top bit of a number of `w` bits
sign_bit :
    (w v : ℕ)
    → 0 < w
    → w ≤ 64
    → v < 2 ^ w
    → (bit v ((w + (2 ^ 32 - 1)) % 2 ^ 32 % 64) == 1) ≡ leb (2 ^ (w - 1)) v
sign_bit w v pos small below =
    let place : (w + (2 ^ 32 - 1)) % 2 ^ 32 % 64 ≡ w - 1 = omega arith in
    let whole : w ≡ suc (w - 1) = omega arith in
    rw place (elim (Bool-cases (leb (2 ^ (w - 1)) v)) [
      | inl e ↦ let set = top_bit v (w - 1) (ground arith) (rw whole at below) in rw (e, set) refl
      | inr e ↦
          let clear = bit_of_small (w - 1) v (w - 1) (ground arith) (omega arith) in
          rw (e, clear) refl
    ])

module _ (ops : FloatOps) (act_ptr w_ptr : Memory) (k n a_bits w_bits w_scale w_steal : ℕ) where
  abbrev value : ℕ → ℕ
  value = weight_value ops act_ptr w_ptr k n a_bits w_bits w_scale w_steal

  pub decoded_weight :
      (v : ℕ)
      → ExactIntegers ops
      → 0 < w_bits
      → ReadsExactly w_bits w_steal
      → v < 2 ^ w_bits
      → value v ≡ weight ops w_bits w_scale w_steal v
  unfolding weight_value one_shifted
  decoded_weight v exact pos fits below =
      let at_most : w_bits ≤ 52 = elim fits [ inl h ↦ omega (arith, h) | inr (q, h) ↦ h ] in
      let room : 2 ^ w_bits ≤ 2 ^ 52 = pow-le-pow_right (omega arith) at_most in
      let sign = sign_bit w_bits v pos (omega arith) below in
      let same = exact.converted v (omega (arith, below, room)) in
      rw sign (elim (Bool-cases (w_steal == 0 && leb (2 ^ (w_bits - 1)) v)) [
        | inr e ↦ rw (e, same) (scaled (ops.of_i64 v))
        | inl e ↦
            let small : w_bits ≤ 30 = elim fits [
              | inl h ↦ h
              | inr (q, h) ↦ absurd (ground arith)
            ] in
            let narrow : w_bits % 32 ≡ w_bits = omega arith in
            let positive : (w_bits == 31) ≡ false = ground arith in
            let less =
              exact.subtracted v (2 ^ w_bits) (omega (arith, below, room)) (omega (arith, room)) in
            rw (e, narrow, positive, less)
              (scaled (ops.of_i64 ((v + 2 ^ 64 - 2 ^ w_bits) % 2 ^ 64)))
      ])
    where
      scaled :
          (f : ℕ)
          → (if ltb 0 w_scale then ops.div f (ops.of_u64 w_scale) else f)
            ≡ (if w_scale == 0 then f else ops.div f (ops.of_u64 w_scale))
      scaled f = elim (Bool-cases (w_scale == 0)) [
        | inl e ↦ let none_set : ltb 0 w_scale ≡ false = ground arith in rw (e, none_set) refl
        | inr e ↦ let some_set : ltb 0 w_scale ≡ true = ground arith in rw (e, some_set) refl
      ]
