-- ===== src/Scalar/CustomFloat/Scale.antt =====
-- numtoy-core/src/types.rs: `scale_float` ends, and what it gives.
use num_toy.Prelude.{
  ℕ, zero, suc, ◌+◌, ◌-◌, ◌*◌, ◌/◌, ◌%◌, ◌^◌, ◌≤◌, ◌<◌, ◌≡◌, ◌⊎◌, refl, ap, ◌∙◌, true, false,
  Bool-cases, inl, inr, ltb, ltb→lt, ◌==◌, if◌then◌else◌, arith, sub_ℕ, two_pow_suc,
}
use num_toy.Scalar.Float.{one_f64, two_f64, infinity}
use num_toy.Scalar.CustomFloat.{times_two, normalize, normalize_fuel, scale_float}

-- what a non-negative finite pattern stands for, in units of 2 ^ -1074
pub units : ℕ → ℕ
units val = if ltb val (2 ^ 52) then val else (2 ^ 52 + val % 2 ^ 52) * 2 ^ (val / 2 ^ 52 - 1)

units-times_two : (val : ℕ) → units (times_two val) ≡ 2 * units val
unfolding times_two units
units-times_two val = elim (Bool-cases (ltb val (2 ^ 52))) [
  | inl e ↦ rw e (elim (Bool-cases (ltb (2 * val) (2 ^ 52))) [
    | inl e' ↦ rw e' refl
    | inr e' ↦
        let less = ltb→lt val (2 ^ 52) e in
        let first : 2 * val / 2 ^ 52 - 1 ≡ 0 = ground arith in
        let rest : 2 ^ 52 + 2 * val % 2 ^ 52 ≡ 2 * val = ground arith in
        rw (e', first, rest) (omega arith)
  ])
  | inr e ↦
      let above : ltb (val + 2 ^ 52) (2 ^ 52) ≡ false = ground arith in
      let next : (val + 2 ^ 52) / 2 ^ 52 - 1 ≡ suc (val / 2 ^ 52 - 1) = ground arith in
      let same : (val + 2 ^ 52) % 2 ^ 52 ≡ val % 2 ^ 52 = omega arith in
      rw (e, above, next, same, two_pow_suc (val / 2 ^ 52 - 1)) (grind arith)
]

-- the result is in [1, 2), and the value doubled once a round
abbrev pub Normalized : ℕ → ℕ → ℕ × ℕ → Type 0
Normalized val rounds out =
    (one_f64 ≤ out.0) × (out.0 < two_f64) × (2 ^ rounds * units out.0 ≡ 2 ^ out.1 * units val)

double_both : (p q u v r w : ℕ) → r ≡ 2 * p → w ≡ 2 * v → r * u ≡ q * w → p * u ≡ q * v
double_both p q u v r w h k e =
    let left : r * u ≡ 2 * (p * u) = rw h (grind arith) in
    let right : q * w ≡ 2 * (q * v) = rw k (grind arith) in omega (arith, e, left, right)

next_round :
    (val rounds : ℕ) (out : ℕ × ℕ)
    → Normalized (times_two val) (rounds + 1) out
    → Normalized val rounds out
next_round val rounds out (lo, hi, e) =
    let shifted : rounds + 1 ≡ suc rounds = omega arith in
    let grown = ap (λ r. 2 ^ r) shifted ∙ two_pow_suc rounds in
    (
      lo,
      hi,
      double_both (2 ^ rounds) (2 ^ out.1) (units out.0) (units val) (2 ^ (rounds + 1))
          (units (times_two val)) grown (units-times_two val) e,
    )

module _ (fuel val rounds : ℕ) where
  normalize-stop : one_f64 ≤ val → normalize (suc fuel) val rounds ≡ (val, rounds)
  unfolding normalize
  normalize-stop h = let test : ltb val one_f64 ≡ false = ground arith in rw test refl

  normalize-next :
      val < one_f64 → normalize (suc fuel) val rounds ≡ normalize fuel (times_two val) (rounds + 1)
  unfolding normalize
  normalize-next h = let test : ltb val one_f64 ≡ true = ground arith in rw test refl

-- From 2 ^ 52 on, the exponent field grows by one in each round.
normalize-near :
    (fuel val rounds : ℕ)
    → 2 ^ 52 ≤ val
    → val < two_f64
    → one_f64 ≤ val + 2 ^ 52 * fuel
    → Normalized val rounds (normalize fuel val rounds)
normalize-near zero val rounds lo hi h = unfold normalize in (omega (arith, h), hi, refl)
normalize-near (suc fuel) val rounds lo hi h = elim (Bool-cases (ltb val one_f64)) [
  | inl e ↦
      let less = ltb→lt val one_f64 e in
      let next : times_two val ≡ val + 2 ^ 52 = unfold times_two in (ground arith) in
      rw (normalize-next fuel val rounds less) (
        next_round val rounds (normalize fuel (times_two val) (rounds + 1)) (
          normalize-near fuel (times_two val) (rounds + 1) (omega (arith, next, lo))
            (omega (arith, next, less)) (omega (arith, next, h))))
  | inr e ↦
      let above : one_f64 ≤ val = ground arith in
      rw (normalize-stop fuel val rounds above) (above, hi, refl)
]

-- Below 2 ^ 52 the pattern doubles.
normalize-far :
    (k val rounds : ℕ)
    → val < two_f64
    → 2 ^ 52 ≤ val * 2 ^ k
    → Normalized val rounds (normalize (k + 1022) val rounds)
normalize-far zero val rounds hi h =
    normalize-near 1022 val rounds (omega (arith, h)) hi (omega (arith, h))
normalize-far (suc k) val rounds hi h = elim (Bool-cases (ltb val (2 ^ 52))) [
  | inl e ↦
      let less = ltb→lt val (2 ^ 52) e in
      let next : times_two val ≡ 2 * val = unfold times_two in (ground arith) in
      let fuel : suc k + 1022 ≡ suc (k + 1022) = omega arith in
      let more : 2 ^ 52 ≤ 2 * val * 2 ^ k =
        let p : val * 2 ^ suc k ≡ 2 * val * 2 ^ k = rw (two_pow_suc k) (grind arith) in
        omega (arith, h, p) in
      rw (fuel, normalize-next (k + 1022) val rounds (omega (arith, less)))
        (next_round val rounds (normalize (k + 1022) (times_two val) (rounds + 1))
          (normalize-far k (times_two val) (rounds + 1) (omega (arith, next, less)) (rw next more)))
  | inr e ↦
      let above : 2 ^ 52 ≤ val = ground arith in
      normalize-near (suc k + 1022) val rounds above hi (omega (arith, above))
]

-- `scale_float` ends on every positive finite value, with a mantissa in [1, 2). A normal value is the
-- mantissa with the exponent that is given. A subnormal value is the mantissa halved `rounds` times,
-- but the exponent that is given is 1023 less than that.
pub scale_float_lem :
    (val : ℕ)
    → 0 < val
    → val < infinity
    → let (mantissa, exponent) = scale_float val in
      (one_f64 ≤ mantissa)
      × (mantissa < two_f64)
      × (((2 ^ 52 ≤ val)
            × (mantissa + 2 ^ 52 * (val / 2 ^ 52) ≡ val + one_f64)
            × (exponent ≡ sub_ℕ (val / 2 ^ 52) 1023))
          ⊎ ((val < 2 ^ 52)
              × ((rounds : ℕ) × (units mantissa ≡ 2 ^ rounds * units val)
                  × (exponent ≡ sub_ℕ 0 (1023 + rounds)))))
unfolding scale_float
scale_float_lem val lo hi = elim (Bool-cases (ltb val (2 ^ 52))) [
  | inl e ↦
      let less = ltb→lt val (2 ^ 52) e in
      let field : (val / 2 ^ 52 % 2 ^ 11 == 0) ≡ true = ground arith in
      let rest : (val % 2 ^ 52 == 0) ≡ false = ground arith in
      let (one, two, same) = normalize-far 52 val 0 (omega (arith, less)) (omega (arith, lo)) in
      let (mantissa, rounds) = normalize normalize_fuel val 0 in
      rw (field, rest) (one, two, inr (less, (rounds, omega (arith, same), refl)))
  | inr e ↦
      let above : 2 ^ 52 ≤ val = ground arith in
      let field : (val / 2 ^ 52 % 2 ^ 11 == 0) ≡ false = ground arith in
      let whole : val / 2 ^ 52 % 2 ^ 11 ≡ val / 2 ^ 52 = omega arith in
      rw field (omega arith, omega arith, inl (above, omega arith, ap (λ n. sub_ℕ n 1023) whole))
]
