-- ===== src/Array/Coordinates.antt =====
-- numtoy-core/src/array.rs: the index arithmetic of a broadcast, at the coordinates of an element.
use num_toy.Prelude.{
  ℕ, ◌+◌, ◌-◌, ◌*◌, ◌/◌, ◌%◌, ◌≤◌, ◌<◌, ◌≡◌, inl, inr, refl, ap, ap₂, ◌∙◌, Bool-cases, List, [],
  ◌∷◌, arith, max, ◌==◌, if◌then◌else◌,
}
use native.Mathlib.Nat.{mul-le-mul_right, mul-add-div_right, div-eq_of_lt, mod-eq-sub-mul-div}
use num_toy.Array.{numel, strides_from, row_major_element_strides, source_index}
use num_toy.Array.Strides.{Stretches, index_in, index_step}

-- one coordinate for each dimension
abbrev pub Within : List ℕ → List ℕ → Type 0
Within [] [] = Unit
Within [] (d ∷ ds) = ⊥
Within (c ∷ cs) [] = ⊥
Within (c ∷ cs) (d ∷ ds) = (c < d) × Within cs ds

-- where the element at some coordinates stands in row-major order
abbrev pub flat_of : List ℕ → List ℕ → ℕ
flat_of [] cs = 0
flat_of (d ∷ ds) [] = 0
flat_of (d ∷ ds) (c ∷ cs) = c * numel ds + flat_of ds cs

-- The coordinates in the source: zero in a dimension of one element.
abbrev pub clip : List ℕ → List ℕ → List ℕ
clip [] cs = []
clip (d ∷ ds) [] = []
clip (d ∷ ds) (c ∷ cs) = (if d == 1 then 0 else c) ∷ clip ds cs

pub flat_of-lt : (ds cs : List ℕ) → Within cs ds → flat_of ds cs < numel ds
unfolding numel
flat_of-lt [] [] h = omega arith
flat_of-lt [] (c ∷ cs) h = absurd h
flat_of-lt (d ∷ ds) [] h = absurd h
flat_of-lt (d ∷ ds) (c ∷ cs) (h, hs) =
    let rest = flat_of-lt ds cs hs in
    let block : (c + 1) * numel ds ≤ d * numel ds = mul-le-mul_right (numel ds) (omega arith) in
    grind (arith, rest, block)

div_block : (c n r : ℕ) → r < n → ((c * n + r) / n ≡ c) × ((c * n + r) % n ≡ r)
div_block c n r h =
    let pos : 0 < n = omega arith in
    let quotient : (c * n + r) / n ≡ c =
      mul-add-div_right pos c r ∙ ap (λ q. c + q) (div-eq_of_lt h) ∙ omega arith in
    let swap : n * c ≡ c * n = grind arith in
    (
      quotient,
      mod-eq-sub-mul-div (c * n + r) n ∙ ap (λ q. c * n + r - n * q) quotient ∙ omega (arith, swap),
    )

-- The index arithmetic of the code, at the coordinates of an element.
pub index_in-flat_of :
    (src tgt cs : List ℕ)
    → Stretches src tgt
    → Within cs tgt
    → index_in tgt src (flat_of tgt cs) ≡ flat_of src (clip src cs)
index_in-flat_of [] [] [] st h = unfold source_index row_major_element_strides strides_from in refl
index_in-flat_of [] [] (c ∷ cs) st h = absurd h
index_in-flat_of [] (t ∷ ts) cs st h = absurd st
index_in-flat_of (s ∷ ss) [] cs st h = absurd st
index_in-flat_of (s ∷ ss) (t ∷ ts) [] st h = absurd h
index_in-flat_of (s ∷ ss) (t ∷ ts) (c ∷ cs) (st, sts) (h, hs) =
    let r = flat_of ts cs in
    let below = flat_of-lt ts cs hs in
    let stride : max (numel ts) 1 ≡ numel ts = omega (arith, below) in
    let (quotient, remainder) = div_block c (numel ts) r below in
    let ih = index_in-flat_of ss ts cs sts hs in
    let first : c * (if s == 1 then 0 else numel ss) ≡ (if s == 1 then 0 else c) * numel ss =
      elim (Bool-cases (s == 1)) [ inl e ↦ rw e (omega arith) | inr e ↦ rw e refl ] in
    index_step s t ss ts (c * numel ts + r)
    ∙ ap
        (λ n.
          (c * numel ts + r) / n * (if s == 1 then 0 else numel ss)
          + index_in ts ss ((c * numel ts + r) % n))
        stride
    ∙ ap₂ (λ q m. q * (if s == 1 then 0 else numel ss) + index_in ts ss m) quotient remainder
    ∙ ap₂ (λ x y. x + y) first ih
