-- ===== src/Scalar/Float.antt =====
-- The arithmetic of Rust's f64 and f32, which the model takes as a parameter. A float is its IEEE
-- bit pattern; no law of the operations is assumed.
use num_toy.Prelude.{ℕ, ◌/◌, ◌%◌, ◌^◌, Bool, not, ◌&&◌, ◌||◌, ltb, ◌==◌}

pub record FloatOps : Type 0 where
  pub add : ℕ → ℕ → ℕ
  pub sub : ℕ → ℕ → ℕ
  pub mul : ℕ → ℕ → ℕ
  pub div : ℕ → ℕ → ℕ
  pub neg : ℕ → ℕ
  -- `x as f64` of a u64, and of an i64 given by its bit pattern
  pub of_u64 : ℕ → ℕ
  pub of_i64 : ℕ → ℕ
  -- `powi`, the exponent an i32 given by its bit pattern
  pub powi : ℕ → ℕ → ℕ
  -- `x as f32`, and back
  pub narrow : ℕ → ℕ
  pub widen : ℕ → ℕ
  pub round : ℕ → ℕ
  pub floor : ℕ → ℕ
  -- `a % b`
  pub rem : ℕ → ℕ → ℕ
  -- `x as u64`, and `x as i64` to its bit pattern; both saturate
  pub to_u64 : ℕ → ℕ
  pub to_i64 : ℕ → ℕ

-- the patterns of 0.0, 1.0, 2.0 and 10.0
abbrev pub zero_f64 : ℕ
zero_f64 = 0

abbrev pub one_f64 : ℕ
one_f64 = 0x3FF0_0000_0000_0000

abbrev pub two_f64 : ℕ
two_f64 = 0x4000_0000_0000_0000

abbrev pub ten : ℕ
ten = 0x4024_0000_0000_0000

abbrev pub infinity : ℕ
infinity = 0x7FF0_0000_0000_0000

abbrev pub neg_infinity : ℕ
neg_infinity = 0xFFF0_0000_0000_0000

-- What a bit pattern tells by itself: `val == 0.0`, `val.abs()`, `val.is_nan()`,
-- `val.is_infinite()`, `val < 0.0` and `val >= 0.0`.
unfoldable pub abs : ℕ → ℕ
abs val = val % 2 ^ 63

unfoldable pub is_zero : ℕ → Bool
is_zero val = abs val == 0

unfoldable pub is_nan : ℕ → Bool
is_nan val = ltb infinity (abs val)

unfoldable pub is_infinite : ℕ → Bool
is_infinite val = abs val == infinity

unfoldable pub lt_zero : ℕ → Bool
lt_zero val = val / 2 ^ 63 == 1 && not (is_zero val) && not (is_nan val)

unfoldable pub ge_zero : ℕ → Bool
ge_zero val = not (is_nan val) && (val / 2 ^ 63 == 0 || is_zero val)
