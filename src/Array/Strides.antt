-- ===== src/Array/Strides.antt =====
-- numtoy-core/src/array.rs: row-major strides.
use num_toy.Prelude.{
  ℕ, zero, suc, ◌+◌, ◌*◌, ◌/◌, ◌%◌, ◌<◌, ◌≤◌, ◌≡◌, ◌⊎◌, inl, inr, ◌==◌, if◌then◌else◌, Bool-cases,
  sym, ◌∙◌, ap, ap₂, subst, List, [], ◌∷◌, arith, max, get_or,
}
use native.Mathlib.Nat.{mod-lt, div-lt_iff_lt-mul, mul-le-mul_right}
use num_toy.Array.{numel, strides_from, row_major_element_strides, source_index}

-- The first stride is the number of elements of the dimensions after the first.
strides_cons :
    (unit d : ℕ) (ds : List ℕ) → strides_from unit (d ∷ ds) ≡ unit * numel ds ∷ strides_from unit ds
unfolding strides_from numel
strides_cons unit d [] = let e : unit ≡ unit * 1 = omega arith in ap (λ u. u ∷ []) e
strides_cons unit d (e ∷ ds) =
    let rest = strides_cons unit e ds in
    let first : get_or (strides_from unit (e ∷ ds)) 0 unit * e ≡ unit * (e * numel ds) =
      ap (λ ss. get_or ss 0 unit * e) rest ∙ grind arith in
    ap (λ s. s ∷ strides_from unit (e ∷ ds)) first

-- `src_elem_strides[i] = 0` where `src_padded[i] == 1`
unfoldable pub zero_ones : List ℕ → List ℕ → List ℕ
zero_ones [] strides = strides
zero_ones (d ∷ ds) [] = []
zero_ones (d ∷ ds) (s ∷ ss) = let rest = zero_ones ds ss in if d == 1 then 0 ∷ rest else s ∷ rest

-- the assertion of `broadcast_to`
abbrev pub Stretches : List ℕ → List ℕ → Type 0
Stretches [] [] = Unit
Stretches (s ∷ ss) (t ∷ ts) = ((s ≡ t) ⊎ (s ≡ 1)) × Stretches ss ts
Stretches [] (t ∷ ts) = ⊥
Stretches (s ∷ ss) [] = ⊥

-- a dimension's part of the index, with the index `r` in the dimensions after it
dimension_lt :
    (s t m n flat r : ℕ)
    → (s ≡ t) ⊎ (s ≡ 1)
    → flat < t * n
    → 0 < n
    → r < m
    → flat / max n 1 * (if s == 1 then 0 else m) + r < s * m
dimension_lt s t m n flat r c h pos k =
    let stride : max n 1 ≡ n = omega (arith, pos) in
    elim (Bool-cases (s == 1)) [
      | inl e ↦ let one : s ≡ 1 = ground arith in rw (e, one) (omega (arith, k))
      | inr e ↦
          let same : s ≡ t = elim c [ inl q ↦ q | inr q ↦ absurd (ground arith) ] in
          let less : flat / n < s =
            (div-lt_iff_lt-mul pos).1 (subst (λ x. flat < x * n) (sym same) h) in
          let whole : (flat / n + 1) * m ≤ s * m = mul-le-mul_right m (omega (arith, less)) in
          rw (e, stride) (grind (arith, whole, k))
    ]

positive : (t n flat : ℕ) → flat < t * n → 0 < n
positive t zero flat h = absurd (omega (arith, h))
positive t (suc n) flat h = omega arith

abbrev pub index_in : List ℕ → List ℕ → ℕ → ℕ
index_in tgt src flat =
    source_index (row_major_element_strides tgt) (zero_ones src (row_major_element_strides src))
      flat

strides_one :
    (d : ℕ) (ds : List ℕ)
    → row_major_element_strides (d ∷ ds) ≡ numel ds ∷ row_major_element_strides ds
unfolding row_major_element_strides
strides_one d ds =
    let e : 1 * numel ds ≡ numel ds = omega arith in
    strides_cons 1 d ds ∙ ap (λ n. n ∷ strides_from 1 ds) e

index_head :
    (s n m flat : ℕ) (ss ns ms : List ℕ)
    → source_index (n ∷ ns) (zero_ones (s ∷ ss) (m ∷ ms)) flat
      ≡ flat / max n 1 * (if s == 1 then 0 else m)
        + source_index ns (zero_ones ss ms) (flat % max n 1)
unfolding source_index zero_ones
index_head s n m flat ss ns ms = elim (Bool-cases (s == 1)) [
  | inl e ↦ rw (e, source_index)
  | inr e ↦ rw (e, source_index)
]

pub index_step :
    (s t : ℕ) (ss ts : List ℕ) (flat : ℕ)
    → index_in (t ∷ ts) (s ∷ ss) flat
      ≡ flat / max (numel ts) 1 * (if s == 1 then 0 else numel ss)
        + index_in ts ss (flat % max (numel ts) 1)
index_step s t ss ts flat =
    ap₂ (λ T S. source_index T (zero_ones (s ∷ ss) S) flat) (strides_one t ts) (strides_one s ss)
    ∙ index_head s (numel ts) (numel ss) flat ss (row_major_element_strides ts)
        (row_major_element_strides ss)

-- For shapes that broadcast, every flat index of the target leads to an index within the source: the
-- clamp to the last element that the code adds is never needed.
pub source_index-lt :
    (src tgt : List ℕ) (flat : ℕ)
    → Stretches src tgt
    → flat < numel tgt
    → index_in tgt src flat < numel src
unfolding numel
source_index-lt [] [] flat c h =
    unfold source_index row_major_element_strides strides_from in omega arith
source_index-lt [] (t ∷ ts) flat c h = absurd c
source_index-lt (s ∷ ss) [] flat c h = absurd c
source_index-lt (s ∷ ss) (t ∷ ts) flat (c, cs) h =
    let pos = positive t (numel ts) flat h in
    let stride : max (numel ts) 1 ≡ numel ts = omega (arith, pos) in
    let rest : flat % max (numel ts) 1 < numel ts =
      subst (λ n. flat % n < numel ts) (sym stride) (mod-lt flat pos) in
    rw (index_step s t ss ts flat) (
      dimension_lt s t (numel ss) (numel ts) flat _ c h pos
        (source_index-lt ss ts (flat % max (numel ts) 1) cs rest))
