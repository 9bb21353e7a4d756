-- ===== src/Array/Slice.antt =====
-- numtoy-core/src/lib.rs: `slice_and_dice`, by ranges (start, stop, step) for the first dimensions.
pub mod Follows
use num_toy.Prelude.{
  ℕ, ◌+◌, ◌-◌, ◌*◌, ◌/◌, ◌≤◌, ◌<◌, ◌≡◌, ◌≢◌, refl, sym, ◌∙◌, ap, subst, Bool-cases, true, false,
  inl, inr, List, [], ◌∷◌, Outcome, ok, fault, ◌>>=◌, >>=-eq-ok, ok-injective, arith, min, ltb,
  ◌==◌, if◌then◌else◌,
}
use native.Mathlib.Nat.{mul-div-le, mul-le-mul_right}
use num_toy.Ir.{Expr, Variable, variable, constant, add, sub, mul, div, dequantize_matmul}
use num_toy.Array.{numel}
use num_toy.Array.Coordinates.{Within}
use num_toy.Array.Transpose.{NumToyArray, bit_position}

abbrev pub Range : Type 0
Range = ℕ × ℕ × ℕ

-- a dimension of the slice: its size, its stride, and what is added to the offset
abbrev pub Dim : Type 0
Dim = ℕ × ℕ × ℕ

-- A step of zero panics where a division by it is reached. The sum and the products are those of the
-- source as long as they fit in 64 bits, that is, for no step near the largest usize.
unfoldable pub slice_dim : Range → ℕ → ℕ → Outcome Dim
slice_dim (start, stop, step) dim_size stride =
    let span = min stop dim_size - start in
    let elements = (span + step - 1) / step in
    if ltb 0 span
    then (if step == 0 then fault else ok (elements, stride * step, start * stride))
    else ok (0, stride, 0)

-- the dimensions without a range
unfoldable pub rest_dims : List ℕ → List ℕ → Outcome (List ℕ × List ℕ × ℕ)
rest_dims [] strides = ok ([], [], 0)
rest_dims (d ∷ ds) [] = fault
rest_dims (d ∷ ds) (s ∷ ss) = do rest ← rest_dims ds ss; ok (d ∷ rest.0, s ∷ rest.1, rest.2)

-- the new shape, the new strides, and what is added to the offset
unfoldable pub slice_dims : List Range → List ℕ → List ℕ → Outcome (List ℕ × List ℕ × ℕ)
slice_dims [] shape strides = rest_dims shape strides
slice_dims (r ∷ rs) [] strides = fault
slice_dims (r ∷ rs) (d ∷ ds) [] = fault
slice_dims (r ∷ rs) (d ∷ ds) (s ∷ ss) = do
  dim ← slice_dim r d s
  rest ← slice_dims rs ds ss
  ok (dim.0 ∷ rest.0, dim.1 ∷ rest.1, dim.2 + rest.2)

unfoldable pub slice_variable : Variable → List ℕ → List ℕ → ℕ → Variable
slice_variable v new_shape new_strides added = record v {
  size = numel new_shape;
  shape = new_shape;
  bit_strides = new_strides;
  bit_offset = v.bit_offset + added;
}

unfoldable pub slice_and_dice : NumToyArray → List Range → Outcome NumToyArray
slice_and_dice a ranges =
    let sliced = slice_dims ranges a.shape a.bit_strides in
    elim a.expr [
      | variable v ↦ sliced >>= λ q. ok (record {
        expr = variable (slice_variable v q.0 q.1 q.2);
        shape = q.0;
        bit_strides = q.1;
      })
      | constant _ ↦ fault
      | add _ _ ↦ fault
      | sub _ _ ↦ fault
      | mul _ _ ↦ fault
      | div _ _ ↦ fault
      | dequantize_matmul _ _ _ _ _ ↦ fault
    ]
