-- ===== src/Tests/Inputs.antt =====
-- Small inputs: a toy arithmetic, variables, expressions and graphs.
use num_toy.Prelude.{ℕ, ◌+◌, ◌-◌, ◌*◌, ◌/◌, ◌%◌, ◌^◌, false, none, [], ◌∷◌}
use num_toy.Scalar.{DataType, Scalar}
use num_toy.Scalar.Float.{FloatOps}
use num_toy.Ir.{memory, Variable, Expr, variable, constant, add, mul, div}

-- integers modulo 2 ^ 64 in place of f64
abbrev pub toy : FloatOps
toy = record {
  add = λ a b. (a + b) % 2 ^ 64;
  sub = λ a b. (a + 2 ^ 64 - b) % 2 ^ 64;
  mul = λ a b. a * b % 2 ^ 64;
  div = λ a b. a / b;
  neg = λ a. 2 ^ 64 - a;
  of_u64 = λ a. a;
  of_i64 = λ a. a;
  powi = λ a n. a;
  narrow = λ a. a % 2 ^ 32;
  widen = λ a. a;
  round = λ a. a;
  floor = λ a. a;
  rem = λ a b. a % b;
  to_u64 = λ a. a;
  to_i64 = λ a. a;
}

abbrev pub var : ℕ → Variable
var id = record {
  id = id;
  name = "x";
  dtype = DataType.float 64;
  size = 2;
  packed_data = memory (1 ∷ 2 ∷ []);
  shape = 2 ∷ [];
  bit_strides = 64 ∷ [];
  bit_offset = 0;
  scale = none;
  steal_sign = false;
}

-- x + (y * x) / 5
abbrev pub small : Expr
small =
    add (variable (var 3))
      (div (mul (variable (var 7)) (variable (var 3))) (constant (Scalar.float 5 64)))
