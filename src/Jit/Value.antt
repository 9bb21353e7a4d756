-- ===== src/Jit/Value.antt =====
-- One element of an element-wise expression as the custom JIT reads it: arithmetic is in f64, and `env`
-- gives the bit pattern that the buffer of each id holds at the element, read in the root's width.
use num_toy.Prelude.{ℕ, List, [], ◌∷◌, ◌++◌, true}
use num_toy.Prelude.{◌≡◌}
use num_toy.Scalar.{to_double}
use num_toy.Scalar.Float.{FloatOps, zero_f64}
use num_toy.Ir.{Expr, variable, constant, add, sub, mul, div, dequantize_matmul}
use num_toy.Jit.Run.{widen_to, constant_of}
use num_toy.Jit.Lower.{is_ieee}

module _ (ops : FloatOps) (bits : ℕ) (env : ℕ → ℕ) where
  -- A matmul has no element-wise value; `IsSupported` leaves it out.
  unfoldable pub value : Expr → ℕ
  value (variable v) = widen_to ops bits (env v.id)
  value (constant val) = constant_of ops bits (to_double ops val)
  value (add l r) = ops.add (value l) (value r)
  value (sub l r) = ops.sub (value l) (value r)
  value (mul l r) = ops.mul (value l) (value r)
  value (div l r) = ops.div (value l) (value r)
  value (dequantize_matmul _ _ _ _ _) = zero_f64

-- the ids of the variables, left to right
unfoldable pub input_ids : Expr → List ℕ
input_ids (variable v) = v.id ∷ []
input_ids (constant _) = []
input_ids (add l r) = input_ids l ++ input_ids r
input_ids (sub l r) = input_ids l ++ input_ids r
input_ids (mul l r) = input_ids l ++ input_ids r
input_ids (div l r) = input_ids l ++ input_ids r
input_ids (dequantize_matmul a w _ _ _) = input_ids a ++ input_ids w

-- What the custom JIT handles: element-wise, with IEEE variables.
abbrev pub IsSupported : Expr → Type 0
IsSupported (variable v) = is_ieee v.dtype ≡ true
IsSupported (constant _) = Unit
IsSupported (add l r) = IsSupported l × IsSupported r
IsSupported (sub l r) = IsSupported l × IsSupported r
IsSupported (mul l r) = IsSupported l × IsSupported r
IsSupported (div l r) = IsSupported l × IsSupported r
IsSupported (dequantize_matmul _ _ _ _ _) = ⊥
