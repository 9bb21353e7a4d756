-- ===== src/Array/Slice/Follows.antt =====
-- numtoy-core/src/lib.rs: where the elements of a slice stand.
use num_toy.Prelude.{
  ℕ, ◌+◌, ◌-◌, ◌*◌, ◌/◌, ◌≤◌, ◌<◌, ◌≡◌, refl, sym, subst, Bool-cases, inl, inr, List, [], ◌∷◌, ok,
  fault, >>=-eq-ok, ok-injective, arith, min, ltb, ◌==◌,
}
use native.Mathlib.Nat.{mul-div-le, mul-le-mul_right}
use num_toy.Ir.{Variable, variable}
use num_toy.Array.Coordinates.{Within}
use num_toy.Array.Transpose.{NumToyArray, bit_position}
use num_toy.Array.Slice.{
  Range, Dim, slice_dim, rest_dims, slice_dims, slice_variable, slice_and_dice,
}

-- the coordinates in the array of an element of the slice
abbrev pub source_of : List Range → List ℕ → List ℕ
source_of [] cs = cs
source_of (r ∷ rs) [] = []
source_of ((start, stop, step) ∷ rs) (c ∷ cs) = (start + c * step) ∷ source_of rs cs

-- an element of the slice stands at the same bit as its source, which lies in the array
abbrev pub Follows : List ℕ → List ℕ → List ℕ → List ℕ → ℕ → List ℕ → Type 0
Follows shape strides cs new_strides added src =
    Within src shape × (added + bit_position cs new_strides ≡ bit_position src strides)

abbrev Sliced : Type 0
Sliced = List ℕ × List ℕ × ℕ

-- what a proof must give for the dimensions `q` of a slice
abbrev Good : List Range → List ℕ → List ℕ → Sliced → Type 0
Good ranges shape strides q =
    (cs : List ℕ) → Within cs q.0 → Follows shape strides cs q.1 q.2 (source_of ranges cs)

Good-nil : (strides : List ℕ) → Good [] [] strides ([], [], 0)
Good-nil strides [] w = (tt, refl)
Good-nil strides (c ∷ cs) w = absurd w

Good-kept :
    (d s : ℕ) (ds ss : List ℕ) (q : Sliced)
    → Good [] ds ss q
    → Good [] (d ∷ ds) (s ∷ ss) (d ∷ q.0, s ∷ q.1, q.2)
Good-kept d s ds ss q good [] w = absurd w
Good-kept d s ds ss q good (c ∷ cs) (h, w) =
    let (inside, place) = good cs w in ((h, inside), omega (arith, place))

rest_dims-Good :
    (shape strides : List ℕ) (q : Sliced) → rest_dims shape strides ≡ ok q → Good [] shape strides q
unfolding rest_dims
rest_dims-Good [] strides q h =
    subst (Good [] [] strides) (ok-injective ([], [], 0) q h) (Good-nil strides)
rest_dims-Good (d ∷ ds) [] q h = cc
rest_dims-Good (d ∷ ds) (s ∷ ss) q h =
    let (rest, found, h₁) = >>=-eq-ok (rest_dims ds ss) _ h in
    subst (Good [] (d ∷ ds) (s ∷ ss)) (ok-injective (d ∷ rest.0, s ∷ rest.1, rest.2) q h₁)
      (Good-kept d s ds ss rest (rest_dims-Good ds ss rest found))

-- The source of a coordinate is in the dimension, and its bits are where the slice finds them.
slice_dim_lem :
    (start stop step d s c : ℕ) (dim : Dim)
    → slice_dim (start, stop, step) d s ≡ ok dim
    → c < dim.0
    → (start + c * step < d) × (dim.2 + c * dim.1 ≡ (start + c * step) * s)
unfolding slice_dim
slice_dim_lem start stop step d s c dim h less =
    let span = min stop d - start in
    let elements = (span + step - 1) / step in
    elim (Bool-cases (ltb 0 span)) [
      | inl e ↦ elim (Bool-cases (step == 0)) [
        | inl z ↦ let stuck : fault ≡ ok dim = rw (e, z) at h in cc
        | inr z ↦
            let made : (elements, s * step, start * s) ≡ dim =
              ok-injective (elements, s * step, start * s) dim (rw (e, z) at h) in
            let short : c < elements = subst (λ (x : Dim). c < x.0) (sym made) less in
            let whole : step * elements ≤ span + step - 1 = mul-div-le (span + step - 1) step in
            let block : (c + 1) * step ≤ elements * step = mul-le-mul_right step (omega arith) in
            let some_span : 0 < span = ground arith in
            let swap : step * elements ≡ elements * step = grind arith in
            let grown : (c + 1) * step ≡ c * step + step = grind arith in
            let positive : 0 < step = ground arith in
            let inside : c * step + 1 ≤ span = omega (arith, whole, block, swap, grown, positive) in
            subst (λ (x : Dim). (start + c * step < d) × (x.2 + c * x.1 ≡ (start + c * step) * s))
              made (omega (arith, inside, some_span), grind arith)
      ]
      | inr e ↦
          let made : (0, s, 0) ≡ dim = ok-injective (0, s, 0) dim (rw e at h) in
          absurd (
            let none_left = subst (λ (x : Dim). c < x.0) (sym made) less in
            omega (arith, none_left))
    ]

Good-cons :
    (start stop step d s : ℕ) (rs : List Range) (ds ss : List ℕ) (dim : Dim) (q : Sliced)
    → slice_dim (start, stop, step) d s ≡ ok dim
    → Good rs ds ss q
    → Good ((start, stop, step) ∷ rs) (d ∷ ds) (s ∷ ss) (dim.0 ∷ q.0, dim.1 ∷ q.1, dim.2 + q.2)
Good-cons start stop step d s rs ds ss dim q h good [] w = absurd w
Good-cons start stop step d s rs ds ss dim q h good (c ∷ cs) (less, w) =
    let (inside, place) = good cs w in
    let (here, bits) = slice_dim_lem start stop step d s c dim h less in
    ((here, inside), omega (arith, place, bits))

slice_dims-Good :
    (ranges : List Range) (shape strides : List ℕ) (q : Sliced)
    → slice_dims ranges shape strides ≡ ok q
    → Good ranges shape strides q
unfolding slice_dims
slice_dims-Good [] shape strides q h = rest_dims-Good shape strides q h
slice_dims-Good (r ∷ rs) [] strides q h = cc
slice_dims-Good (r ∷ rs) (d ∷ ds) [] q h = cc
slice_dims-Good ((start, stop, step) ∷ rs) (d ∷ ds) (s ∷ ss) q h =
    let (dim, found, h₁) = >>=-eq-ok (slice_dim (start, stop, step) d s) _ h in
    let (rest, more, h₂) = >>=-eq-ok (slice_dims rs ds ss) _ h₁ in
    subst (Good ((start, stop, step) ∷ rs) (d ∷ ds) (s ∷ ss))
      (ok-injective (dim.0 ∷ rest.0, dim.1 ∷ rest.1, dim.2 + rest.2) q h₂)
      (Good-cons start stop step d s rs ds ss dim rest found (slice_dims-Good rs ds ss rest more))

-- When a slice of the array of a variable succeeds, it is the array of a variable with the same packed
-- data, and its element at some coordinates within its shape is that of the array at start + c * step
-- in each dimension with a range and at the same coordinate in the others: the source lies within the
-- array's shape, and both stand at the same bit.
pub slice_and_dice-Follows :
    (v : Variable) (shape strides : List ℕ) (ranges : List Range) (b : NumToyArray) (cs : List ℕ)
    → slice_and_dice (record { expr = variable v; shape = shape; bit_strides = strides }) ranges
      ≡ ok b
    → Within cs b.shape
    → (w : Variable) × (b.expr ≡ variable w)
      × (w.packed_data ≡ v.packed_data)
      × Within (source_of ranges cs) shape
      × (w.bit_offset + bit_position cs b.bit_strides
          ≡ v.bit_offset + bit_position (source_of ranges cs) strides)
unfolding slice_and_dice slice_variable
slice_and_dice-Follows v shape strides ranges b cs h within =
    let (q, found, h₁) = >>=-eq-ok (slice_dims ranges shape strides) _ h in
    let w = slice_variable v q.0 q.1 q.2 in
    let made = ok-injective (record { expr = variable w; shape = q.0; bit_strides = q.1 }) b h₁ in
    let inside_slice : Within cs q.0 =
      subst (λ (x : NumToyArray). Within cs x.shape) (sym made) within in
    let (inside, place) = slice_dims-Good ranges shape strides q found cs inside_slice in
    subst
      (λ (x : NumToyArray).
        (u : Variable) × (x.expr ≡ variable u)
        × (u.packed_data ≡ v.packed_data)
        × Within (source_of ranges cs) shape
        × (u.bit_offset + bit_position cs x.bit_strides
            ≡ v.bit_offset + bit_position (source_of ranges cs) strides))
      made (w, refl, refl, inside, omega (arith, place))
