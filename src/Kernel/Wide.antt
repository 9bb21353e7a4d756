-- ===== src/Kernel/Wide.antt =====
-- numtoy-core/src/fuser.rs: the 128-bit helpers, which are called once for each 64-bit limb of a result.
use num_toy.Prelude.{
  ℕ, ◌+◌, ◌-◌, ◌*◌, ◌/◌, ◌%◌, ◌^◌, ◌<◌, ◌≤◌, ◌≡◌, ◌⊎◌, refl, inl, inr, Bool-cases, arith, ◌==◌,
  if◌then◌else◌,
}
use native.Mathlib.Nat.{mul-div-le, lt-mul-div-succ, div-le_self}

abbrev pub join_limbs : ℕ → ℕ → ℕ
join_limbs low high = low + 2 ^ 64 * high

-- `if limb == 0 { res as u64 } else { (res >> 64) as u64 }`
abbrev pub limb_of : ℕ → ℕ → ℕ
limb_of res limb = if limb == 0 then res % 2 ^ 64 else res / 2 ^ 64 % 2 ^ 64

unfoldable pub helper_add_i128 : ℕ → ℕ → ℕ → ℕ → ℕ → ℕ
helper_add_i128 l0 l1 r0 r1 limb = limb_of ((join_limbs l0 l1 + join_limbs r0 r1) % 2 ^ 128) limb

unfoldable pub helper_sub_i128 : ℕ → ℕ → ℕ → ℕ → ℕ → ℕ
helper_sub_i128 l0 l1 r0 r1 limb =
    limb_of ((join_limbs l0 l1 + 2 ^ 128 - join_limbs r0 r1) % 2 ^ 128) limb

unfoldable pub helper_mul_i128 : ℕ → ℕ → ℕ → ℕ → ℕ → ℕ
helper_mul_i128 l0 l1 r0 r1 limb = limb_of (join_limbs l0 l1 * join_limbs r0 r1 % 2 ^ 128) limb

-- The operands are unsigned.
unfoldable pub helper_div_i128 : ℕ → ℕ → ℕ → ℕ → ℕ → ℕ
helper_div_i128 l0 l1 r0 r1 limb =
    limb_of (if join_limbs r0 r1 == 0 then 0 else join_limbs l0 l1 / join_limbs r0 r1) limb

join-limb_of : (res : ℕ) → res < 2 ^ 128 → join_limbs (limb_of res 0) (limb_of res 1) ≡ res
join-limb_of res h = omega (arith, h)

join-quotient :
    (x y : ℕ)
    → x < 2 ^ 128
    → 0 < y
    → let q = x / y in
      let joined = limb_of q 0 + 2 ^ 64 * limb_of q 1 in (joined * y ≤ x) × (x < (joined + 1) * y)
join-quotient x y h pos =
    let q = x / y in
    let low : y * q ≤ x = mul-div-le x y in
    let high : x < y * (q + 1) = lt-mul-div-succ x pos in
    let less : q ≤ x = div-le_self x y in
    let whole : limb_of q 0 + 2 ^ 64 * limb_of q 1 ≡ q = omega (arith, h, less) in
    rw whole (grind (arith, low), grind (arith, high))

-- The two limbs that each helper gives make up the 128-bit result on the numbers that the given limbs
-- make up: the sum and the product modulo 2 ^ 128, the difference, which with the subtrahend gives the
-- minuend back modulo 2 ^ 128, and the quotient of unsigned numbers, which is zero for a divisor of
-- zero. The helpers undo each other limb by limb.
pub helper_add-helper_sub :
    (l0 l1 r0 r1 : ℕ)
    → l0 < 2 ^ 64
    → l1 < 2 ^ 64
    → r0 < 2 ^ 64
    → r1 < 2 ^ 64
    → let d0 = helper_sub_i128 l0 l1 r0 r1 0 in
      let d1 = helper_sub_i128 l0 l1 r0 r1 1 in
      let x = l0 + 2 ^ 64 * l1 in
      let y = r0 + 2 ^ 64 * r1 in
      let quotient = helper_div_i128 l0 l1 r0 r1 0 + 2 ^ 64 * helper_div_i128 l0 l1 r0 r1 1 in
      (helper_add_i128 l0 l1 r0 r1 0 + 2 ^ 64 * helper_add_i128 l0 l1 r0 r1 1 ≡ (x + y) % 2 ^ 128)
      × ((d0 + 2 ^ 64 * d1 + y) % 2 ^ 128 ≡ x)
      × (helper_mul_i128 l0 l1 r0 r1 0 + 2 ^ 64 * helper_mul_i128 l0 l1 r0 r1 1 ≡ x * y % 2 ^ 128)
      × (((y ≡ 0) × (quotient ≡ 0)) ⊎ ((quotient * y ≤ x) × (x < (quotient + 1) * y)))
      × (helper_add_i128 d0 d1 r0 r1 0 ≡ l0)
      × (helper_add_i128 d0 d1 r0 r1 1 ≡ l1)
unfolding helper_add_i128 helper_sub_i128 helper_mul_i128 helper_div_i128
helper_add-helper_sub l0 l1 r0 r1 h₁ h₂ h₃ h₄ =
    let x = l0 + 2 ^ 64 * l1 in
    let y = r0 + 2 ^ 64 * r1 in
    let difference = (x + 2 ^ 128 - y) % 2 ^ 128 in
    let small : difference < 2 ^ 128 = omega arith in
    let whole = join-limb_of difference small in
    let divided =
      elim (Bool-cases (y == 0))
        as (λ _.
          let q = if y == 0 then 0 else x / y in
          let joined = limb_of q 0 + 2 ^ 64 * limb_of q 1 in
          ((y ≡ 0) × (joined ≡ 0)) ⊎ ((joined * y ≤ x) × (x < (joined + 1) * y))) [
            | inl e ↦ rw e (inl (ground arith, refl))
            | inr e ↦ rw e (inr (join-quotient x y (omega (arith, h₁, h₂)) (ground arith)))
          ] in
    (
      join-limb_of ((x + y) % 2 ^ 128) (omega arith),
      omega (arith, h₁, h₂, h₃, h₄, whole),
      join-limb_of (x * y % 2 ^ 128) (omega arith),
      divided,
      omega (arith, h₁, h₂, h₃, h₄, whole),
      omega (arith, h₁, h₂, h₃, h₄, whole),
    )
