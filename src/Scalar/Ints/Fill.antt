-- ===== src/Scalar/Ints/Fill.antt =====
-- numtoy-core/src/types.rs: the loops of `extend_limbs` that copy limbs and fill in the sign.
use num_toy.Prelude.{
  ℕ, zero, suc, ◌+◌, ◌-◌, ◌*◌, ◌%◌, ◌^◌, ◌≤◌, ◌<◌, ◌≡◌, refl, sym, ap, ap₂, ◌∙◌, List, [], ◌∷◌,
  ◌++◌, Bool-cases, inl, inr, true, ltb, leb, lt→ltb, arith, length, get_elem?, set, replicate,
  some, two_pow_add, subst, length-append, get_elem?-some, get_elem?-append,
}
use native.Mathlib.Nat.{mod-eq_of_lt, pow-le-pow_right, mul-add}
use num_toy.Scalar.Limbs.{u64_mod, limb_count}
use num_toy.Scalar.Ints.{copy_limbs, fill_above, fill_from, fill_sign}
use num_toy.Scalar.Ints.Value.{limbs_value, IsLimbs, limbs_mod, limbs_mod-pow}
use num_toy.Scalar.Ints.RoundTrip.{limb_count-bounds}

abbrev pub zeros : ℕ → List ℕ
zeros n = replicate n 0

pub value-append :
    (xs ys : List ℕ)
    → limbs_value (xs ++ ys) ≡ limbs_value xs + limbs_mod (length xs) * limbs_value ys
value-append [] ys = omega arith
value-append (x ∷ xs) ys =
    let ih = value-append xs ys in
    let e = mul-add u64_mod (limbs_value xs) (limbs_mod (length xs) * limbs_value ys) in
    grind (arith, ih, e)

pub IsLimbs-append : (xs ys : List ℕ) → IsLimbs xs → IsLimbs ys → IsLimbs (xs ++ ys)
IsLimbs-append [] ys h k = k
IsLimbs-append (x ∷ xs) ys h k = (h.0, IsLimbs-append xs ys h.1 k)

copied_zeros : (m : ℕ) → copy_limbs [] 0 m ≡ zeros m
unfolding copy_limbs
copied_zeros zero = refl
copied_zeros (suc m) = ap (λ zs. 0 ∷ zs) (copied_zeros m)

pub copied : (xs : List ℕ) (m : ℕ) → copy_limbs xs (length xs) (length xs + m) ≡ xs ++ zeros m
unfolding copy_limbs
copied [] m = let e : 0 + m ≡ m = omega arith in ap (copy_limbs [] 0) e ∙ copied_zeros m
copied (x ∷ xs) m =
    let e : suc (length xs) + m ≡ suc (length xs + m) = omega arith in
    rw e (ap (λ zs. x ∷ zs) (copied xs m))

-- the limbs from `from_k` on
filled_zeros :
    (m : ℕ)
    → (limbs_value (fill_from (zeros m) 0) + 1 ≡ limbs_mod m)
      × IsLimbs (fill_from (zeros m) 0)
      × (length (fill_from (zeros m) 0) ≡ m)
unfolding fill_from
filled_zeros zero = (refl, tt, refl)
filled_zeros (suc m) =
    let (v, small, len) = filled_zeros m in (omega (arith, v), (omega arith, small), ap suc len)

fill_from-append : (xs ys : List ℕ) → fill_from (xs ++ ys) (length xs) ≡ xs ++ fill_from ys 0
unfolding fill_from
fill_from-append [] ys = refl
fill_from-append (x ∷ xs) ys = ap (λ zs. x ∷ zs) (fill_from-append xs ys)

-- the upper bits of the last limb
set-append : (xs ys : List ℕ) (i v : ℕ) → i < length xs → set (xs ++ ys) i v ≡ set xs i v ++ ys
set-append [] ys i v h = absurd (omega arith)
set-append (x ∷ xs) ys zero v h = refl
set-append (x ∷ xs) ys (suc i) v h = ap (λ zs. x ∷ zs) (set-append xs ys i v (omega arith))

ones_above : ℕ → ℕ → ℕ
ones_above x kept = x % 2 ^ kept + (u64_mod - 2 ^ kept)

fill_above-some :
    (xs : List ℕ) (i kept x : ℕ)
    → get_elem? xs i ≡ some x
    → fill_above xs i kept ≡ set xs i (ones_above x kept)
unfolding fill_above ones_above
fill_above-some xs i kept x e = rw (e, fill_above) refl

fill_above-append :
    (xs ys : List ℕ) (i kept : ℕ)
    → i < length xs
    → fill_above (xs ++ ys) i kept ≡ fill_above xs i kept ++ ys
fill_above-append xs ys i kept h =
    let (x, e) = get_elem?-some xs i h in
    fill_above-some (xs ++ ys) i kept x (get_elem?-append xs ys i x e)
    ∙ set-append xs ys i (ones_above x kept) h
    ∙ ap (λ zs. zs ++ ys) (sym (fill_above-some xs i kept x e))

fill_above-next :
    (x : ℕ) (xs : List ℕ) (i kept : ℕ)
    → i < length xs
    → fill_above (x ∷ xs) (suc i) kept ≡ x ∷ fill_above xs i kept
fill_above-next x xs i kept h =
    let (y, e) = get_elem?-some xs i h in
    fill_above-some (x ∷ xs) (suc i) kept y e
    ∙ ap (λ zs. x ∷ zs) (sym (fill_above-some xs i kept y e))

-- `last` counts the limbs before the last
fill_above-value :
    (xs : List ℕ) (last kept : ℕ)
    → IsLimbs xs
    → length xs ≡ suc last
    → kept < 64
    → limbs_value xs < 2 ^ (64 * last + kept)
    → (limbs_value (fill_above xs last kept) + 2 ^ (64 * last + kept)
        ≡ limbs_value xs + limbs_mod (length xs))
      × IsLimbs (fill_above xs last kept)
      × (length (fill_above xs last kept) ≡ length xs)
fill_above-value [] last kept h len k fits = absurd (omega (arith, len))
fill_above-value (x ∷ []) zero kept h len k fits =
    let e : 64 * 0 + kept ≡ kept = omega arith in
    let fits' : x < 2 ^ kept = subst (λ n. x < 2 ^ n) e (omega (arith, fits)) in
    let below : kept ≤ 64 = omega (arith, k) in
    let room : 2 ^ kept ≤ 2 ^ 64 = pow-le-pow_right (omega arith) below in
    let same : ones_above x kept ≡ x + (u64_mod - 2 ^ kept) =
      unfold ones_above in (ap (λ n. n + (u64_mod - 2 ^ kept)) (mod-eq_of_lt fits')) in
    rw (e, fill_above-some (x ∷ []) 0 kept x refl)
      (omega (arith, same, room), (omega (arith, same, room, fits'), tt), refl)
fill_above-value (x ∷ []) (suc last) kept h len k fits = absurd (omega (arith, len))
fill_above-value (x ∷ y ∷ ys) zero kept h len k fits = absurd (omega (arith, len))
fill_above-value (x ∷ y ∷ ys) (suc last) kept h len k fits =
    let e : 64 * suc last + kept ≡ 64 + (64 * last + kept) = omega arith in
    let grown = ap (λ n. 2 ^ n) e ∙ two_pow_add 64 (64 * last + kept) in
    let len' : length (y ∷ ys) ≡ suc last = omega (arith, len) in
    let (ih, small, same) =
      fill_above-value (y ∷ ys) last kept h.1 len' k (omega (arith, fits, grown)) in
    rw (fill_above-next x (y ∷ ys) last kept (omega (arith, len')))
      (omega (arith, ih, grown), (h.0, small), ap suc same)

limbs_mod-add : (a b : ℕ) → limbs_mod (a + b) ≡ limbs_mod a * limbs_mod b
limbs_mod-add a b =
    let e : 64 * (a + b) ≡ 64 * a + 64 * b = omega arith in
    limbs_mod-pow (a + b)
    ∙ ap (λ n. 2 ^ n) e
    ∙ two_pow_add (64 * a) (64 * b)
    ∙ sym (ap₂ ◌*◌ (limbs_mod-pow a) (limbs_mod-pow b))

-- ones in all limbs after `xs`
ones_after-value :
    (xs : List ℕ) (m : ℕ)
    → limbs_value (xs ++ fill_from (zeros m) 0) + limbs_mod (length xs)
      ≡ limbs_value xs + limbs_mod (length xs + m)
ones_after-value xs m =
    let (ones, small, len) = filled_zeros m in
    let whole = limbs_mod (length xs) in
    let product : whole * limbs_mod m ≡ whole * limbs_value (fill_from (zeros m) 0) + whole * 1 =
      ap (λ n. whole * n) (sym ones) ∙ mul-add whole (limbs_value (fill_from (zeros m) 0)) 1 in
    omega (arith, value-append xs (fill_from (zeros m) 0), product, limbs_mod-add (length xs) m)

filled_sign :
    (xs : List ℕ) (m last kept : ℕ)
    → IsLimbs xs
    → length xs ≡ suc last
    → kept < 64
    → limbs_value xs < 2 ^ (64 * last + kept)
    → let filled = fill_from (fill_above (xs ++ zeros m) last kept) (length xs) in
      (limbs_value filled + 2 ^ (64 * last + kept) ≡ limbs_value xs + limbs_mod (length xs + m))
      × IsLimbs filled
      × (length filled ≡ length xs + m)
filled_sign xs m last kept h len k fits =
    let above = fill_above xs last kept in
    let (v, small, same) = fill_above-value xs last kept h len k fits in
    let (ones, small', len') = filled_zeros m in
    let moved : fill_from (fill_above (xs ++ zeros m) last kept) (length xs)
        ≡ above ++ fill_from (zeros m) 0 =
      ap₂ fill_from (fill_above-append xs (zeros m) last kept (omega (arith, len))) (sym same)
      ∙ fill_from-append above (zeros m) in
    rw moved (
      omega
          (arith, v, ones_after-value above m, ap limbs_mod same, ap (λ k. limbs_mod (k + m)) same),
      IsLimbs-append above (fill_from (zeros m) 0) small small',
      length-append above (fill_from (zeros m) 0) ∙ ap₂ ◌+◌ same len',
    )

filled_whole :
    (xs : List ℕ) (m : ℕ)
    → IsLimbs xs
    → let filled = fill_from (xs ++ zeros m) (length xs) in
      (limbs_value filled + limbs_mod (length xs) ≡ limbs_value xs + limbs_mod (length xs + m))
      × IsLimbs filled
      × (length filled ≡ length xs + m)
filled_whole xs m h =
    let (ones, small, len) = filled_zeros m in
    rw (fill_from-append xs (zeros m)) (
      ones_after-value xs m,
      IsLimbs-append xs (fill_from (zeros m) 0) h small,
      length-append xs (fill_from (zeros m) 0) ∙ ap (λ n. length xs + n) len,
    )

-- `fill_sign` on the copied limbs of a number of `from_bits` bits
pub fill_sign-value :
    (xs : List ℕ) (m from_bits : ℕ)
    → IsLimbs xs
    → 0 < from_bits
    → length xs ≡ limb_count from_bits
    → limbs_value xs < 2 ^ from_bits
    → let filled = fill_sign (xs ++ zeros m) from_bits (length xs + m) in
      (limbs_value filled + 2 ^ from_bits ≡ limbs_value xs + limbs_mod (length xs + m))
      × IsLimbs filled
      × (length filled ≡ length xs + m)
unfolding fill_sign
fill_sign-value xs m from_bits h pos len fits =
    let (lo, hi) = limb_count-bounds from_bits pos in
    let some_limb : ltb 0 (limb_count from_bits) ≡ true =
      lt→ltb 0 (limb_count from_bits) (omega (arith, hi, pos)) in
    let within : leb (limb_count from_bits) (length xs + m) ≡ true = ground (arith, len) in
    rw (some_limb, within)
      (elim (Bool-cases (ltb 0 (from_bits % 64))) [
        | inl e ↦
            let last = length xs - 1 in
            let kept = from_bits % 64 in
            let parts : 64 * last + kept ≡ from_bits = ground (arith, len, lo, hi) in
            let (v, small, same) =
              filled_sign xs m last kept h (omega (arith, len, hi, pos)) (omega arith)
                (subst (λ b. limbs_value xs < 2 ^ b) (sym parts) fits) in
            rw (e, ← len)
              (
                ap
                      (λ b.
                        limbs_value (fill_from (fill_above (xs ++ zeros m) last kept) (length xs))
                        + 2 ^ b)
                      (sym parts)
                    ∙ v,
                small,
                same,
              )
        | inr e ↦
            let exact : 64 * length xs ≡ from_bits = ground (arith, len, lo, hi) in
            let (v, small, same) = filled_whole xs m h in
            let whole = limbs_mod-pow (length xs) ∙ ap (λ b. 2 ^ b) exact in
            rw (e, ← len) (omega (arith, v, whole), small, same)
      ])
