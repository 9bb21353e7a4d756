-- ===== src/Scalar/Ints/Extend.antt =====
-- numtoy-core/src/types.rs: `extend_limbs` extends the sign.
use num_toy.Prelude.{
  ℕ, zero, suc, ◌+◌, ◌-◌, ◌*◌, ◌%◌, ◌^◌, ◌≤◌, ◌<◌, ◌≡◌, sym, ap, ap₂, ◌∙◌, List, ◌++◌, Bool-cases,
  inl, inr, if◌then◌else◌, arith, length, two_pow_pos, min, length-replicate, length-append,
}
use native.Mathlib.Nat.{mod-eq_of_lt, pow-le-pow_right, mul-add, add-mul-mod_self_left}
use num_toy.Scalar.Limbs.{limb_count, is_negative, mask_last}
use num_toy.Scalar.Ints.{copy_limbs, fill_sign, extend_limbs}
use num_toy.Scalar.Ints.Value.{limbs_value, IsLimbs, limbs_mod, mask_last-value, whole_parts}
use num_toy.Scalar.Ints.RoundTrip.{limb_count-bounds, zeros-value}
use num_toy.Scalar.Ints.Fill.{zeros, value-append, IsLimbs-append, copied, fill_sign-value}

wrapped_once : (n b c q v : ℕ) → n + c ≡ v + b * q → v < c → c ≤ b → 0 < q → n % b ≡ v + (b - c)
wrapped_once n b c zero v e h k pos = absurd (omega arith)
wrapped_once n b c (suc q) v e h k pos =
    let grown : b * suc q ≡ b + b * q = omega (arith, mul-add b q 1) in
    let parts : n ≡ v + (b - c) + b * q = omega (arith, e, grown) in
    ap (λ t. t % b) parts
    ∙ add-mul-mod_self_left (v + (b - c)) b q
    ∙ mod-eq_of_lt (omega (arith, h, k))

module _ (xs : List ℕ) (from_bits to_bits : ℕ) (limbs : IsLimbs xs) (pos : 0 < from_bits)
    (wider : from_bits ≤ to_bits) (len : length xs ≡ limb_count from_bits)
    (fits : limbs_value xs < 2 ^ from_bits) where
  more : ℕ
  more = limb_count to_bits - length xs

  counts :
      (length xs + more ≡ limb_count to_bits)
      × (min (limb_count from_bits) (limb_count to_bits) ≡ length xs)
  unfolding more limb_count
  counts = (omega (arith, len, wider), omega (arith, len, wider))

  copied_limbs :
      copy_limbs xs (min (limb_count from_bits) (limb_count to_bits)) (limb_count to_bits)
      ≡ xs ++ zeros more
  copied_limbs = ap₂ (copy_limbs xs) counts.1 (sym counts.0) ∙ copied xs more

  powers : 2 ^ from_bits ≤ 2 ^ to_bits
  powers = pow-le-pow_right (omega arith) wider

  masked :
      (ls : List ℕ)
      → IsLimbs ls
      → length ls ≡ limb_count to_bits
      → (limbs_value (mask_last ls to_bits) ≡ limbs_value ls % 2 ^ to_bits)
        × IsLimbs (mask_last ls to_bits)
        × (length (mask_last ls to_bits) ≡ limb_count to_bits)
  masked ls small same =
      let (lo, hi) = limb_count-bounds to_bits (omega (arith, pos, wider)) in
      let (v, small', same') = mask_last-value ls to_bits small (rw same lo) (rw same hi) in
      (v, small', same' ∙ same)

  -- Where the limbs are a number of `from_bits` bits, extending them gives the number of `to_bits` bits
  -- with the same two's-complement value: the number itself if its sign bit is clear, and otherwise
  -- the number with all bits from `from_bits` to `to_bits` set.
  pub extend_limbs-value :
      (limbs_value (extend_limbs xs from_bits to_bits) ≡ (
        if is_negative xs from_bits
        then limbs_value xs + (2 ^ to_bits - 2 ^ from_bits)
        else limbs_value xs))
      × IsLimbs (extend_limbs xs from_bits to_bits)
      × (length (extend_limbs xs from_bits to_bits) ≡ limb_count to_bits)
  unfolding extend_limbs
  extend_limbs-value = elim (Bool-cases (is_negative xs from_bits)) [
    | inl e ↦
        let (total, _) = counts in
        let filled = fill_sign (xs ++ zeros more) from_bits (length xs + more) in
        let (v, small, same) = fill_sign-value xs more from_bits limbs pos len fits in
        let (m, small', same') = masked filled small (same ∙ total) in
        let (lo, hi) = limb_count-bounds to_bits (omega (arith, pos, wider)) in
        let parts = ap limbs_mod total ∙ whole_parts (limb_count to_bits) to_bits hi in
        let spare = two_pow_pos (64 * limb_count to_bits - to_bits) in
        let wrapped =
          wrapped_once (limbs_value filled) (2 ^ to_bits) (2 ^ from_bits)
            (2 ^ (64 * limb_count to_bits - to_bits)) (limbs_value xs)
            (v ∙ ap (λ n. limbs_value xs + n) parts) fits powers spare in
        rw (e, copied_limbs, ← total) (m ∙ wrapped, small', same' ∙ sym total)
    | inr e ↦
        let (zero_value, zero_limbs) = zeros-value more in
        let same : limbs_value (xs ++ zeros more) ≡ limbs_value xs =
          value-append xs (zeros more) ∙ rw zero_value (omega arith) in
        let (m, small', same') =
          masked (xs ++ zeros more) (IsLimbs-append xs (zeros more) limbs zero_limbs) (
            length-append xs (zeros more)
            ∙ ap (λ n. length xs + n) (length-replicate more 0)
            ∙ counts.0) in
        let below : limbs_value xs < 2 ^ to_bits = omega (arith, fits, powers) in
        rw (e, copied_limbs)
          (m ∙ ap (λ n. n % 2 ^ to_bits) same ∙ mod-eq_of_lt below, small', same')
  ]
