-- ===== src/Scalar/CustomFloat/Fields.antt =====
-- numtoy-core/src/types.rs: three bit fields of one word, as arithmetic.
use num_toy.Prelude.{
  ℕ, suc, ◌+◌, ◌*◌, ◌/◌, ◌%◌, ◌^◌, ◌<◌, ◌≡◌, ◌⊎◌, sym, ap, ◌∙◌, false, inl, inr, ◌==◌, arith,
  two_pow_add, two_pow_pos,
}
use native.Mathlib.Nat.{
  add-mul-mod_self_left, add-mul-div_left, mod-eq_of_lt, div-eq_of_lt, div-div-eq-div-mul,
}

-- the fields of `low + 2 ^ m * (middle + 2 ^ e * top)`
unfoldable pub fields : ℕ → ℕ → ℕ → ℕ → ℕ → ℕ
fields m e low middle top = low + 2 ^ m * (middle + 2 ^ e * top)

module _ (m e low middle top : ℕ) (small : low < 2 ^ m) (small' : middle < 2 ^ e) where
  abbrev pub packed : ℕ
  packed = fields m e low middle top

  pub packed-low : packed % 2 ^ m ≡ low
  unfolding fields
  packed-low = add-mul-mod_self_left low (2 ^ m) (middle + 2 ^ e * top) ∙ mod-eq_of_lt small

  pub packed-upper : packed / 2 ^ m ≡ middle + 2 ^ e * top
  unfolding fields
  packed-upper =
      add-mul-div_left low (middle + 2 ^ e * top) (two_pow_pos m)
      ∙ ap (λ q. q + (middle + 2 ^ e * top)) (div-eq_of_lt small)
      ∙ omega arith

  pub packed-middle : packed / 2 ^ m % 2 ^ e ≡ middle
  packed-middle =
      ap (λ q. q % 2 ^ e) packed-upper
      ∙ add-mul-mod_self_left middle (2 ^ e) top
      ∙ mod-eq_of_lt small'

  pub packed-top : packed / 2 ^ (m + e) ≡ top
  packed-top =
      ap (λ d. packed / d) (two_pow_add m e)
      ∙ sym (div-div-eq-div-mul packed (2 ^ m) (2 ^ e))
      ∙ ap (λ q. q / 2 ^ e) packed-upper
      ∙ add-mul-div_left middle top (two_pow_pos e)
      ∙ ap (λ q. q + top) (div-eq_of_lt small')
      ∙ omega arith

  pub packed-lt : packed < 2 ^ m * (2 ^ e * suc top)
  unfolding fields
  packed-lt =
      let upper : middle + 2 ^ e * top < 2 ^ e * suc top = grind (arith, small') in
      grind (arith, small, upper)

pub regroup :
    (s top n low middle mantissa : ℕ)
    → (s ≡ 0) ⊎ (top ≡ low * middle)
    → s * top + n * low + mantissa ≡ mantissa + low * (n + middle * s)
regroup s top n low middle mantissa (inl h) = rw h (grind arith)
regroup s top n low middle mantissa (inr h) = rw h (grind arith)

pub fields_pos : (m e low middle top : ℕ) → 0 < middle → (fields m e low middle top == 0) ≡ false
unfolding fields
fields_pos m e low middle top h =
    let p = two_pow_pos m in
    let more : 0 < low + 2 ^ m * (middle + 2 ^ e * top) = grind (arith, p, h) in ground arith
