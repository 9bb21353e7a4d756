-- ===== src/Scalar/Scalable.antt =====
-- numtoy-core/src/types.rs: the widths that are chosen for a scalable value (`compute_scalable_int_bits`,
-- `compute_scalable_float_config`).
use num_toy.Prelude.{
  ℕ, zero, suc, ◌+◌, ◌-◌, ◌*◌, ◌/◌, ◌^◌, ◌≤◌, ◌<◌, ◌≡◌, ◌≢◌, ap, inl, inr, Bool, true, false, ◌&&◌,
  ◌||◌, Bool-cases, ltb, leb, ◌==◌, if◌then◌else◌, min, max, arith, two_pow_suc, sym, ℤ, sub_ℕ,
  leb_ℤ, pos_part, neg_part,
}
use num_toy.Scalar.Float.{abs, is_zero, is_nan, is_infinite}
use num_toy.Scalar.CustomFloat.{scale_float}
use num_toy.Scalar.Ints.{unsigned_abs}

-- `64 - v.leading_zeros()`, with 64 as the fuel
unfoldable pub bit_length : ℕ → ℕ → ℕ
bit_length zero v = 0
bit_length (suc fuel) v = let rest = bit_length fuel (v / 2) in if v == 0 then 0 else suc rest

unfoldable pub compute_scalable_int_bits : ℕ → ℕ
compute_scalable_int_bits val =
    let abs_val = unsigned_abs val in
    let mag_bits = min (max (bit_length 64 abs_val) 1) 63 in
    if abs_val == 0 then 2 else mag_bits + 1

-- `exponent_raw >= min_exp && exponent_raw <= max_exp`
unfoldable pub in_range : ℤ → ℕ → Bool
in_range exponent e =
    let bias = 2 ^ (e - 1) - 1 in
    leb_ℤ (sub_ℕ 1 bias) exponent && leb_ℤ exponent (sub_ℕ (2 ^ e - 2) bias)

-- the search for `e` from some width on, with the rounds that are left before 15
unfoldable pub exponent_bits : ℤ → ℕ → ℕ → ℕ
exponent_bits exponent e zero = e
exponent_bits exponent e (suc left) =
    let rest = exponent_bits exponent (suc e) left in if in_range exponent e then e else rest

unfoldable pub mantissa_for : ℕ → ℕ
mantissa_for mag =
    if leb mag 4
    then 8
    else if leb mag 10
    then 16
    else if leb mag 20
    then 24
    else if leb mag 40
    then 32
    else 40

unfoldable pub total_bits : ℕ → ℕ → ℕ → ℕ
total_bits e m sign_bit =
    let sum = e + m + sign_bit in
    let b = if ltb 64 sum then 64 else sum in
    let b' = if ltb b 8 then 8 else b in
    let available = if ltb (e + sign_bit) b' then b' - e - sign_bit else 0 in
    if available == 0 then e + sign_bit + 1 else b'

-- the width and the width of the exponent
unfoldable pub compute_scalable_float_config : ℕ → Bool → ℕ × ℕ
compute_scalable_float_config val steal_sign =
    let exponent = (scale_float (abs val)).1 in
    let e = exponent_bits exponent 2 13 in
    let mag = pos_part exponent + neg_part exponent in
    let sign_bit = if steal_sign then 0 else 1 in
    if is_zero val || is_nan val || is_infinite val
    then (8, 4)
    else (total_bits e (mantissa_for mag) sign_bit, e)

bit_length-bounds :
    (fuel v : ℕ)
    → v < 2 ^ fuel
    → (v < 2 ^ bit_length fuel v)
      × (2 ^ bit_length fuel v ≤ max (2 * v) 1)
      × (bit_length fuel v ≤ fuel)
unfolding bit_length
bit_length-bounds zero v h = (omega arith, omega arith, omega arith)
bit_length-bounds (suc fuel) v h =
    let half : v / 2 < 2 ^ fuel = omega (arith, h, two_pow_suc fuel) in
    let (above, below, small) = bit_length-bounds fuel (v / 2) half in
    let grown = two_pow_suc (bit_length fuel (v / 2)) in
    elim (Bool-cases (v == 0)) [
      | inl e ↦
          let none_set : v ≡ 0 = ground arith in
          rw e (omega (arith, none_set), omega arith, omega arith)
      | inr e ↦
          let some_set : 0 < v = ground arith in
          rw e (
            omega (arith, grown, above),
            omega (arith, grown, below, some_set),
            omega (arith, small),
          )
    ]

exponent_bits-in_range :
    (left e : ℕ) (exponent : ℤ)
    → in_range exponent (e + left) ≡ true
    → (in_range exponent (exponent_bits exponent e left) ≡ true)
      × (e ≤ exponent_bits exponent e left)
      × (exponent_bits exponent e left ≤ e + left)
unfolding exponent_bits
exponent_bits-in_range zero e exponent h =
    let same : e + 0 ≡ e = omega arith in (rw (sym same) h, omega arith, omega arith)
exponent_bits-in_range (suc left) e exponent h =
    let same : e + suc left ≡ suc e + left = omega arith in
    let (found, lo, hi) = exponent_bits-in_range left (suc e) exponent (rw same at h) in
    elim (Bool-cases (in_range exponent e)) [
      | inl k ↦ rw k (k, omega arith, omega arith)
      | inr k ↦ rw k (found, omega (arith, lo), omega (arith, hi))
    ]

-- Except for zero and the smallest i64, one bit of the width that is chosen is for the sign, and the
-- others are as many as the magnitude has.
pub compute_scalable_int_bits-fits :
    (val : ℕ)
    → unsigned_abs val < 2 ^ 63
    → 0 < unsigned_abs val
    → (unsigned_abs val < 2 ^ (compute_scalable_int_bits val - 1))
      × (2 ^ (compute_scalable_int_bits val - 1) ≤ 2 * unsigned_abs val)
unfolding compute_scalable_int_bits
compute_scalable_int_bits-fits val h some_set =
    let n = unsigned_abs val in
    let length = bit_length 64 n in
    let (above, below, small) = bit_length-bounds 64 n (omega (arith, h)) in
    let nonzero : (n == 0) ≡ false = ground arith in
    let lower : length ≢ 0 = λ e. omega (arith, above, ap (λ k. 2 ^ k) e, some_set) in
    let upper : length ≢ 64 = λ e. omega (arith, below, ap (λ k. 2 ^ k) e, h) in
    let chosen : min (max length 1) 63 + 1 - 1 ≡ length = omega (arith, small, lower, upper) in
    rw (nonzero, chosen) (above, omega (arith, below, some_set))

total_bits-sum :
    (e m s : ℕ) → 2 ≤ e → e ≤ 15 → 8 ≤ m → m ≤ 40 → s ≤ 1 → total_bits e m s ≡ e + m + s
unfolding total_bits
total_bits-sum e m s h₁ h₂ h₃ h₄ h₅ = ground arith

mantissa_for-bounds : (mag : ℕ) → (8 ≤ mantissa_for mag) × (mantissa_for mag ≤ 40)
unfolding mantissa_for
mantissa_for-bounds mag = (ground arith, ground arith)

-- For a finite value other than zero, whose exponent 15 bits can hold, the exponent field that is chosen
-- holds it, and the width leaves at least eight bits for the mantissa beside the exponent and the sign:
-- the clamps of the width to 8 and to 64 are never needed.
pub compute_scalable_float_config-fits :
    (val : ℕ) (steal_sign : Bool)
    → (is_zero val || is_nan val || is_infinite val) ≡ false
    → in_range (scale_float (abs val)).1 15 ≡ true
    → let (bits, e) = compute_scalable_float_config val steal_sign in
      (in_range (scale_float (abs val)).1 e ≡ true)
      × (e + (if steal_sign then 0 else 1) + 8 ≤ bits)
      × (bits ≤ 56)
unfolding compute_scalable_float_config
compute_scalable_float_config-fits val steal_sign finite h =
    let exponent = (scale_float (abs val)).1 in
    let (found, lo, hi) = exponent_bits-in_range 13 2 exponent h in
    let e = exponent_bits exponent 2 13 in
    let m = mantissa_for (pos_part exponent + neg_part exponent) in
    let s : ℕ = if steal_sign then 0 else 1 in
    let sign : s ≤ 1 = ground arith in
    let (least, most) = mantissa_for-bounds (pos_part exponent + neg_part exponent) in
    let total : total_bits e m s ≡ e + m + s =
      total_bits-sum e m s lo (omega (arith, hi)) least most sign in
    rw (finite, total) (found, omega (arith, least), omega (arith, hi, most, sign))
