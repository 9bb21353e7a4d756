-- ===== src/Prelude/Bits.antt =====
-- Bits of a number: bit `i` of `x` is `(x >> i) & 1`, and one bit is set or cleared by a mask.
use Prim.Native.Nat.{ℕ, zero, suc, ◌+◌, ◌-◌, ◌*◌, ◌<◌, ◌≤◌, ◌^◌, ◌%◌, ◌/◌}
use mathlib.Core.Path.{◌≡◌, refl, sym, ap, ap₂, ◌∙◌}
use mathlib.Core.Logic.{◌≢◌, inl, inr}
use native.Mathlib.Omega.{arith}
use native.Mathlib.Nat.{
  pow-succ', one-le-pow, div-div-eq-div-mul, div-add-mod, mod-lt, add-mul-mod_self_left,
  mod-eq_of_lt, zero-div, mul-add, mul_assoc,
}
use num_toy.Prelude.Tests.{◌==◌, if◌then◌else◌, Bool-cases}

abbrev pub bit : ℕ → ℕ → ℕ
bit x i = x / 2 ^ i % 2

-- `x |= 1 << i` where the value is 1, `x &= !(1 << i)` otherwise
unfoldable pub put_bit : ℕ → ℕ → ℕ → ℕ
put_bit x i value = if value == 1 then x + (1 - bit x i) * 2 ^ i else x - bit x i * 2 ^ i

pub two_pow_suc : (k : ℕ) → 2 ^ suc k ≡ 2 * 2 ^ k
two_pow_suc k = pow-succ' 2 k

pub two_pow_pos : (k : ℕ) → 0 < 2 ^ k
two_pow_pos k = omega (arith, one-le-pow k 2)

pub two_pow_add : (a b : ℕ) → 2 ^ (a + b) ≡ 2 ^ a * 2 ^ b
two_pow_add zero b = let e : 0 + b ≡ b = omega arith in rw e (omega arith)
two_pow_add (suc a) b =
    let ih = two_pow_add a b in
    let e : suc a + b ≡ suc (a + b) = omega arith in
    rw (e, two_pow_suc (a + b), ih, two_pow_suc a) (grind arith)

pub bit-suc : (x i : ℕ) → bit x (suc i) ≡ bit (x / 2) i
bit-suc x i =
    ap (λ d. x / d % 2) (two_pow_suc i) ∙ ap (λ q. q % 2) (sym (div-div-eq-div-mul x 2 (2 ^ i)))

pub bit-lt : (x i : ℕ) → bit x i < 2
bit-lt x i = omega arith

bit_part : (x i : ℕ) → bit x i * 2 ^ i ≤ x
bit_part x zero = omega arith
bit_part x (suc i) =
    let ih = bit_part (x / 2) i in rw (bit-suc x i, two_pow_suc i) (grind (arith, ih))

-- The lowest bit is apart, and the others are those of the half.
put_bit-suc : (x i value : ℕ) → put_bit x (suc i) value ≡ x % 2 + 2 * put_bit (x / 2) i value
unfolding put_bit
put_bit-suc x i value =
    let part = bit_part (x / 2) i in
    elim (Bool-cases (value == 1)) [
      | inl e ↦ rw (e, bit-suc x i, two_pow_suc i) (grind (arith, part))
      | inr e ↦ rw (e, bit-suc x i, two_pow_suc i) (grind (arith, part))
    ]

pub bit-put_bit_self : (x i value : ℕ) → value < 2 → bit (put_bit x i value) i ≡ value
unfolding put_bit
bit-put_bit_self x zero value h = ground arith
bit-put_bit_self x (suc i) value h =
    let ih = bit-put_bit_self (x / 2) i value h in
    let half : (x % 2 + 2 * put_bit (x / 2) i value) / 2 ≡ put_bit (x / 2) i value = omega arith in
    bit-suc (put_bit x (suc i) value) i
    ∙ ap (λ y. bit (y / 2) i) (put_bit-suc x i value)
    ∙ ap (λ y. bit y i) half
    ∙ ih

pub bit-put_bit_ne : (x i j value : ℕ) → i ≢ j → bit (put_bit x i value) j ≡ bit x j
unfolding put_bit
bit-put_bit_ne x zero zero value h = absurd (h refl)
bit-put_bit_ne x zero (suc j) value h =
    let half : put_bit x 0 value / 2 ≡ x / 2 = ground arith in
    bit-suc (put_bit x 0 value) j ∙ ap (λ y. bit y j) half ∙ sym (bit-suc x j)
bit-put_bit_ne x (suc i) zero value h = ap (λ y. bit y 0) (put_bit-suc x i value) ∙ omega arith
bit-put_bit_ne x (suc i) (suc j) value h =
    let half : (x % 2 + 2 * put_bit (x / 2) i value) / 2 ≡ put_bit (x / 2) i value = omega arith in
    bit-suc (put_bit x (suc i) value) j
    ∙ ap (λ y. bit (y / 2) j) (put_bit-suc x i value)
    ∙ ap (λ y. bit y j) half
    ∙ bit-put_bit_ne (x / 2) i j value (λ e. h (ap suc e))
    ∙ sym (bit-suc x j)

-- A bit that is set stays below the width.
pub put_bit-lt : (x i value w : ℕ) → i < w → x < 2 ^ w → put_bit x i value < 2 ^ w
unfolding put_bit
put_bit-lt x i value zero h k = absurd (omega arith)
put_bit-lt x zero value (suc w) h k =
    let even = two_pow_suc w in
    elim (Bool-cases (value == 1)) [
      | inl e ↦ rw e (omega (arith, k, even))
      | inr e ↦ rw e (omega (arith, k, even))
    ]
put_bit-lt x (suc i) value (suc w) h k =
    let even = two_pow_suc w in
    let ih = put_bit-lt (x / 2) i value w (omega arith) (omega (arith, k, even)) in
    omega (arith, put_bit-suc x i value, ih, even)

-- Numbers of `w` bits are equal when their bits are.
pub eq_of_bits : (w x y : ℕ) → x < 2 ^ w → y < 2 ^ w → ((i : ℕ) → i < w → bit x i ≡ bit y i) → x ≡ y
eq_of_bits zero x y h k e = omega arith
eq_of_bits (suc w) x y h k e =
    let even = two_pow_suc w in
    let low = e 0 (omega arith) in
    let high =
      eq_of_bits w (x / 2) (y / 2) (omega (arith, h, even)) (omega (arith, k, even))
        (λ i lt. sym (bit-suc x i) ∙ e (suc i) (omega arith) ∙ bit-suc y i) in
    omega (arith, low, high)

pub mod-two_pow_suc : (x w : ℕ) → x % 2 ^ suc w ≡ x % 2 + 2 * (x / 2 % 2 ^ w)
mod-two_pow_suc x w =
    let p = 2 ^ w in
    let q = x / 2 / p in
    let r = x / 2 % p in
    let small : r < p = mod-lt (x / 2) (two_pow_pos w) in
    let parts : x ≡ x % 2 + 2 * r + 2 * p * q =
      let half = div-add-mod (x / 2) p in grind (arith, half) in
    let below : x % 2 + 2 * r < 2 * p = omega (arith, small) in
    ap₂ ◌%◌ parts (two_pow_suc w)
    ∙ add-mul-mod_self_left (x % 2 + 2 * r) (2 * p) q
    ∙ mod-eq_of_lt below

-- A remainder keeps the low bits and clears the others.
pub bit-mod : (x w i : ℕ) → i < w → bit (x % 2 ^ w) i ≡ bit x i
bit-mod x zero i h = absurd (omega arith)
bit-mod x (suc w) zero h = omega (arith, mod-two_pow_suc x w)
bit-mod x (suc w) (suc i) h =
    let half : x % 2 ^ suc w / 2 ≡ x / 2 % 2 ^ w = omega (arith, mod-two_pow_suc x w) in
    bit-suc (x % 2 ^ suc w) i
    ∙ ap (λ y. bit y i) half
    ∙ bit-mod (x / 2) w i (omega arith)
    ∙ sym (bit-suc x i)

pub bit_of_small : (w x i : ℕ) → x < 2 ^ w → w ≤ i → bit x i ≡ 0
bit_of_small zero x i h k =
    let zeroed : x ≡ 0 = omega arith in rw zeroed (rw (zero-div (2 ^ i)) refl)
bit_of_small (suc w) x zero h k = absurd (omega arith)
bit_of_small (suc w) x (suc i) h k =
    let even = two_pow_suc w in
    bit-suc x i ∙ bit_of_small w (x / 2) i (omega (arith, h, even)) (omega arith)

-- (x + p * v) % (p * q)
pub mod-mul : (x p v q : ℕ) → x < p → 0 < q → (x + p * v) % (p * q) ≡ x + p * (v % q)
mod-mul x p v q h k =
    let r = v % q in
    let small : r < q = mod-lt v k in
    let parts : x + p * v ≡ x + p * r + p * q * (v / q) =
      let e : p * v ≡ p * (q * (v / q)) + p * r =
        ap (λ t. p * t) (sym (div-add-mod v q)) ∙ mul-add p (q * (v / q)) r in
      omega (arith, e, mul_assoc p q (v / q)) in
    let below : x + p * r < p * q = grind (arith, small, h) in
    ap (λ t. t % (p * q)) parts
    ∙ add-mul-mod_self_left (x + p * r) (p * q) (v / q)
    ∙ mod-eq_of_lt below
