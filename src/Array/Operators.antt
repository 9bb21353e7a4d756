-- ===== src/Array/Operators.antt =====
-- numtoy-core/src/array.rs: `reshape`, `align_broadcast` and the operators on arrays. The execution of an
-- expression is a parameter, as are `pack` and `unpack`; `id` is what the id counter holds.
use num_toy.Prelude.{
  ℕ, suc, ◌≡◌, ◌∙◌, ap, Bool, true, false, List, Outcome, ok, fault, ◌>>=◌, >>=-eq-ok, ok-injective,
  ◌==◌, if◌then◌else◌,
}
use num_toy.Scalar.{bit_width}
use num_toy.Scalar.Float.{FloatOps}
use num_toy.Ir
use num_toy.Ir.{Expr, variable, constant, add, sub, mul, div, dequantize_matmul}
use num_toy.Array.{numel, row_major_bit_strides, broadcast_shape}
use num_toy.Array.Transpose.{NumToyArray}
use num_toy.Array.Stretch.{same_shape, broadcast_to}

unfoldable pub from_expr : Expr → List ℕ → List ℕ → NumToyArray
from_expr expr shape bit_strides = record { expr = expr; shape = shape; bit_strides = bit_strides }

unfoldable pub element_bits : NumToyArray → ℕ
element_bits a = bit_width (Ir.data_type a.expr)

unfoldable pub reshape : NumToyArray → List ℕ → Outcome NumToyArray
reshape a new_shape =
    if numel a.shape == numel new_shape
    then ok (from_expr a.expr new_shape (row_major_bit_strides new_shape (element_bits a)))
    else fault

unfoldable pub is_variable : Expr → Bool
is_variable (variable _) = true
is_variable (constant _) = false
is_variable (add _ _) = false
is_variable (sub _ _) = false
is_variable (mul _ _) = false
is_variable (div _ _) = false
is_variable (dequantize_matmul _ _ _ _ _) = false

-- the gradient of an array, element by element
unfoldable pub array_grad : NumToyArray → ℕ → Outcome NumToyArray
array_grad a wrt_id = do expr ← Ir.grad a.expr wrt_id; ok (from_expr expr a.shape a.bit_strides)

module _ (ops : FloatOps) (pack : List ℕ → ℕ → List ℕ) (unpack : List ℕ → ℕ → ℕ → List ℕ)
    (execute_expr_on_device : Expr → Outcome Expr) where
  unfoldable pub execute : NumToyArray → Outcome NumToyArray
  execute a = do
    result_expr ← execute_expr_on_device a.expr
    ok (from_expr result_expr a.shape a.bit_strides)

  unfoldable pub execute_unless_variable : NumToyArray → Outcome NumToyArray
  execute_unless_variable a = let run = execute a in if is_variable a.expr then ok a else run

  -- Only a new variable takes an id.
  unfoldable pub align_broadcast :
      ℕ → NumToyArray → NumToyArray → Outcome (NumToyArray × NumToyArray × List ℕ)
  align_broadcast id self other = do
    out_shape ← broadcast_shape self.shape other.shape
    let id' = if same_shape out_shape self.shape then id else suc id
    a ← broadcast_to ops pack unpack id self out_shape
    b ← broadcast_to ops pack unpack id' other out_shape
    a' ← execute_unless_variable a
    b' ← execute_unless_variable b
    ok (a', b', out_shape)

  -- `add`, `sub`, `mul` and `div`, with the constructor of the expression
  unfoldable pub operator :
      (Expr → Expr → Expr) → ℕ → NumToyArray → NumToyArray → Outcome NumToyArray
  operator op id self other = do
    aligned ← align_broadcast id self other
    let (a, b, shape) = aligned
    ok (from_expr (op a.expr b.expr) shape (row_major_bit_strides shape (element_bits a)))

  align_broadcast-shape :
      (id : ℕ) (self other a b : NumToyArray) (shape : List ℕ)
      → align_broadcast id self other ≡ ok (a, b, shape)
      → broadcast_shape self.shape other.shape ≡ ok shape
  unfolding align_broadcast
  align_broadcast-shape id self other a b shape h =
      let (out_shape, found, h₁) = >>=-eq-ok (broadcast_shape self.shape other.shape) _ h in
      let id' = if same_shape out_shape self.shape then id else suc id in
      let (a₀, _, h₂) = >>=-eq-ok (broadcast_to ops pack unpack id self out_shape) _ h₁ in
      let (b₀, _, h₃) = >>=-eq-ok (broadcast_to ops pack unpack id' other out_shape) _ h₂ in
      let (a', _, h₄) = >>=-eq-ok (execute_unless_variable a₀) _ h₃ in
      let (b', _, h₅) = >>=-eq-ok (execute_unless_variable b₀) _ h₄ in
      let same : (a', b', out_shape) ≡ (a, b, shape) =
        ok-injective (a', b', out_shape) (a, b, shape) h₅ in
      found ∙ ap (λ (q : NumToyArray × NumToyArray × List ℕ). ok q.2) same

  -- An operator that succeeds gives an array of the shape that the two shapes broadcast to.
  pub operator-shape :
      (op : Expr → Expr → Expr) (id : ℕ) (self other result : NumToyArray)
      → operator op id self other ≡ ok result
      → broadcast_shape self.shape other.shape ≡ ok result.shape
  unfolding operator from_expr
  operator-shape op id self other result h =
      let ((a, b, shape), aligned, h₁) = >>=-eq-ok (align_broadcast id self other) _ h in
      let made = ok-injective _ result h₁ in
      align_broadcast-shape id self other a b shape aligned
      ∙ ap (λ (r : NumToyArray). ok r.shape) made
