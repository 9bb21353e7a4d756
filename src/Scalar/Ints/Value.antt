-- ===== src/Scalar/Ints/Value.antt =====
-- numtoy-core/src/types.rs: the number that little-endian limbs spell out, and what the loops over the
-- limbs do to it.
use num_toy.Prelude.{
  ℕ, zero, suc, ◌+◌, ◌-◌, ◌*◌, ◌%◌, ◌^◌, ◌≤◌, ◌<◌, ◌≡◌, refl, sym, ap, ap₂, ◌∙◌, List, [], ◌∷◌,
  Bool-cases, inl, inr, true, false, ltb, ltb→lt, if◌then◌else◌, arith, length, get_elem?, set,
  some, Bool, get_elem?-some, two_pow_add, two_pow_pos, mod-mul,
}
use native.Mathlib.Nat.{mul-add, mod-le, mod_self, zero-mod, add-mul-mod_self_left, mod-eq_of_lt}
use num_toy.Scalar.Limbs.{u64_mod, not_limbs, add_one, mask_last, negate_limbs}

abbrev pub limbs_value : List ℕ → ℕ
limbs_value [] = 0
limbs_value (x ∷ xs) = x + u64_mod * limbs_value xs

-- every limb is a u64
abbrev pub IsLimbs : List ℕ → Type 0
IsLimbs [] = Unit
IsLimbs (x ∷ xs) = (x < u64_mod) × IsLimbs xs

-- 2 ^ (64 * k)
abbrev pub limbs_mod : ℕ → ℕ
limbs_mod zero = 1
limbs_mod (suc k) = u64_mod * limbs_mod k

pub limbs_mod-pow : (k : ℕ) → limbs_mod k ≡ 2 ^ (64 * k)
limbs_mod-pow zero = refl
limbs_mod-pow (suc k) =
    let e : 64 * suc k ≡ 64 + 64 * k = omega arith in
    ap (λ t. u64_mod * t) (limbs_mod-pow k) ∙ sym (ap (λ n. 2 ^ n) e ∙ two_pow_add 64 (64 * k))

pub limbs_value-lt : (xs : List ℕ) → IsLimbs xs → limbs_value xs < limbs_mod (length xs)
limbs_value-lt [] h = omega arith
limbs_value-lt (x ∷ xs) h = omega (arith, limbs_value-lt xs h.1)

limbs_mod_pos : (k : ℕ) → 0 < limbs_mod k
limbs_mod_pos zero = omega arith
limbs_mod_pos (suc k) = omega (arith, limbs_mod_pos k)

pub not_limbs-value :
    (xs : List ℕ)
    → IsLimbs xs
    → (limbs_value (not_limbs xs) + limbs_value xs + 1 ≡ limbs_mod (length xs))
      × IsLimbs (not_limbs xs)
      × (length (not_limbs xs) ≡ length xs)
unfolding not_limbs
not_limbs-value [] h = (omega arith, tt, refl)
not_limbs-value (x ∷ xs) h =
    let (ih, small, len) = not_limbs-value xs h.1 in
    (omega (arith, ih, h.0), (omega arith, small), ap suc len)

pub add_one-value :
    (xs : List ℕ)
    → IsLimbs xs
    → (limbs_value (add_one xs) ≡ (limbs_value xs + 1) % limbs_mod (length xs))
      × IsLimbs (add_one xs)
      × (length (add_one xs) ≡ length xs)
unfolding add_one
add_one-value [] h = (omega arith, tt, refl)
add_one-value (x ∷ xs) h =
    let (ih, small, len) = add_one-value xs h.1 in
    let below = limbs_value-lt xs h.1 in
    elim (Bool-cases (ltb (x + 1) u64_mod)) [
      | inl e ↦ rw e (
        let less = ltb→lt (x + 1) u64_mod e in
            sym (
              ap (λ n. n % (u64_mod * limbs_mod (length xs))) (omega arith)
              ∙ mod-mul (x + 1) u64_mod (limbs_value xs) (limbs_mod (length xs)) less
                  (limbs_mod_pos (length xs))
              ∙ ap (λ n. x + 1 + u64_mod * n) (mod-eq_of_lt below)),
        (ltb→lt (x + 1) u64_mod e, h.1),
        refl,
      )
      | inr e ↦ rw e (
        let top : x + 1 ≡ u64_mod = ground (arith, h.0) in
            let moved : x + u64_mod * limbs_value xs + 1 ≡ 0 + u64_mod * (limbs_value xs + 1) =
              omega (arith, top) in
            sym (
              ap (λ n. n % (u64_mod * limbs_mod (length xs))) moved
              ∙ mod-mul 0 u64_mod (limbs_value xs + 1) (limbs_mod (length xs)) (omega arith)
                  (limbs_mod_pos (length xs))
              ∙ omega (arith, ih, top)),
        (omega arith, small),
        ap suc len,
      )
    ]

mask_last-one :
    (x bits : ℕ) → x < u64_mod → 0 < bits → bits ≤ 64 → mask_last (x ∷ []) bits ≡ x % 2 ^ bits ∷ []
unfolding mask_last
mask_last-one x bits h lo hi = elim (Bool-cases (ltb 0 (bits % 64))) [
  | inl e ↦ let same : bits % 64 ≡ bits = ground arith in rw e (ap (λ b. x % 2 ^ b ∷ []) same)
  | inr e ↦
      let full : bits ≡ 64 = ground arith in
      rw e (ap (λ y. y ∷ []) (sym (ap (λ b. x % 2 ^ b) full ∙ mod-eq_of_lt h)))
]

mask_last-some :
    (xs : List ℕ) (bits z : ℕ)
    → get_elem? xs (length xs - 1) ≡ some z
    → mask_last xs bits
      ≡ (if ltb 0 (bits % 64) then set xs (length xs - 1) (z % 2 ^ (bits % 64)) else xs)
unfolding mask_last
mask_last-some xs bits z e = rw (e, mask_last) refl

mask_last-cons :
    (x y : ℕ) (ys : List ℕ) (bits : ℕ)
    → mask_last (x ∷ y ∷ ys) (64 + bits) ≡ x ∷ mask_last (y ∷ ys) bits
mask_last-cons x y ys bits =
    let same : (64 + bits) % 64 ≡ bits % 64 = omega arith in
    let last = length (y ∷ ys) - 1 in
    let next : length (x ∷ y ∷ ys) - 1 ≡ suc last = omega arith in
    let (z, e) = get_elem?-some (y ∷ ys) last (omega arith) in
    let whole : get_elem? (x ∷ y ∷ ys) (length (x ∷ y ∷ ys) - 1) ≡ some z =
      ap (get_elem? (x ∷ y ∷ ys)) next ∙ e in
    mask_last-some (x ∷ y ∷ ys) (64 + bits) z whole
    ∙ ap₂ (λ r i. if ltb 0 r then set (x ∷ y ∷ ys) i (z % 2 ^ r) else (x ∷ y ∷ ys)) same next
    ∙ move (ltb 0 (bits % 64)) last (z % 2 ^ (bits % 64))
    ∙ ap (λ rest. x ∷ rest) (sym (mask_last-some (y ∷ ys) bits z e))
  where
    move :
        (b : Bool) (i v : ℕ)
        → (if b then set (x ∷ y ∷ ys) (suc i) v else (x ∷ y ∷ ys))
          ≡ x ∷ (if b then set (y ∷ ys) i v else (y ∷ ys))
    move true i v = refl
    move false i v = refl

-- Masking the last limb is the remainder by 2 ^ bits, where the limbs are as many as the bits need.
pub mask_last-value :
    (xs : List ℕ) (bits : ℕ)
    → IsLimbs xs
    → 64 * length xs < bits + 64
    → bits ≤ 64 * length xs
    → (limbs_value (mask_last xs bits) ≡ limbs_value xs % 2 ^ bits)
      × IsLimbs (mask_last xs bits)
      × (length (mask_last xs bits) ≡ length xs)
mask_last-value [] bits h lo hi =
    let e : bits ≡ 0 = omega arith in unfold mask_last in (rw e refl, tt, refl)
mask_last-value (x ∷ []) bits h lo hi =
    let less : x % 2 ^ bits < u64_mod = omega (arith, mod-le x (2 ^ bits), h.0) in
    let alone : x + u64_mod * 0 ≡ x = omega arith in
    rw (mask_last-one x bits h.0 (omega arith) (omega arith))
      (omega arith ∙ sym (ap (λ n. n % 2 ^ bits) alone), (less, tt), refl)
mask_last-value (x ∷ y ∷ ys) bits h lo hi =
    let rest = bits - 64 in
    let split : bits ≡ 64 + rest = omega arith in
    let (ih, small, len) = mask_last-value (y ∷ ys) rest h.1 (omega arith) (omega arith) in
    rw (split, mask_last-cons x y ys rest)
      (
        ap (λ n. x + u64_mod * n) ih
            ∙ sym (
                ap (λ p. limbs_value (x ∷ y ∷ ys) % p) (two_pow_add 64 rest)
                ∙ mod-mul x u64_mod (limbs_value (y ∷ ys)) (2 ^ rest) h.0 (two_pow_pos rest)),
        (h.0, small),
        ap suc len,
      )

pub whole_parts : (k bits : ℕ) → bits ≤ 64 * k → limbs_mod k ≡ 2 ^ bits * 2 ^ (64 * k - bits)
whole_parts k bits h =
    let e : 64 * k ≡ bits + (64 * k - bits) = omega arith in
    limbs_mod-pow k ∙ ap (λ n. 2 ^ n) e ∙ two_pow_add bits (64 * k - bits)

complement_mod :
    (whole b q v : ℕ) → whole ≡ b * q → v < b → 0 < q → (whole - v) % whole % b ≡ (b - v) % b
complement_mod whole b zero v e h k = absurd (omega arith)
complement_mod whole b (suc q) zero e h k =
    let self : whole % whole % b ≡ 0 = rw (mod_self whole) (zero-mod b) in
    let same : whole - 0 ≡ whole = omega arith in
    let same' : b - 0 ≡ b = omega arith in
    ap (λ n. n % whole % b) same ∙ self ∙ sym (ap (λ n. n % b) same' ∙ mod_self b)
complement_mod whole b (suc q) (suc v) e h k =
    let grown : b * suc q ≡ b + b * q = omega (arith, mul-add b q 1) in
    let below : whole - suc v < whole = omega (arith, e, grown) in
    let parts : whole - suc v ≡ b - suc v + b * q = omega (arith, e, grown) in
    ap (λ n. n % b) (mod-eq_of_lt below)
    ∙ ap (λ n. n % b) parts
    ∙ add-mul-mod_self_left (b - suc v) b q

-- The magnitude of a negative number: the two's complement within the width.
pub negate_limbs-value :
    (xs : List ℕ) (bits : ℕ)
    → IsLimbs xs
    → 64 * length xs < bits + 64
    → bits ≤ 64 * length xs
    → limbs_value xs < 2 ^ bits
    → (limbs_value (negate_limbs xs bits) ≡ (2 ^ bits - limbs_value xs) % 2 ^ bits)
      × IsLimbs (negate_limbs xs bits)
      × (length (negate_limbs xs bits) ≡ length xs)
unfolding negate_limbs
negate_limbs-value xs bits h lo hi fits =
    let v = limbs_value xs in
    let whole = limbs_mod (length xs) in
    let (flipped, small₁, len₁) = not_limbs-value xs h in
    let (added, small₂, len₂) = add_one-value (not_limbs xs) small₁ in
    let same = len₂ ∙ len₁ in
    let (masked, small₃, len₃) =
      mask_last-value (add_one (not_limbs xs)) bits small₂ (rw same lo) (rw same hi) in
    let added' : limbs_value (add_one (not_limbs xs)) ≡ (whole - v) % whole =
      added ∙ ap₂ (λ n k. n % limbs_mod k) (omega (arith, flipped)) len₁ in
    let parts = whole_parts (length xs) bits hi in
    (
      masked
          ∙ ap (λ n. n % 2 ^ bits) added'
          ∙ complement_mod whole (2 ^ bits) (2 ^ (64 * length xs - bits)) v parts fits
              (two_pow_pos (64 * length xs - bits)),
      small₃,
      len₃ ∙ same,
    )
