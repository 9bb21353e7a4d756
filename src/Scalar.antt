-- ===== src/Scalar.antt =====
-- numtoy-core/src/types.rs: element types and scalars, with the limb form of wide integers.
-- An f64 is its 64-bit pattern and an i64 its two's-complement pattern, both native numbers.
pub mod Float
pub mod Limbs
pub mod Fields
pub mod Ints
pub mod CustomFloat
pub mod WideFloat
pub mod Codec
pub mod Scalable
use num_toy.Prelude.{ℕ, ◌%◌, ◌^◌, List}
use Float.{FloatOps, ten}
use Limbs.{decode_custom_int_limbs_to_double}

pub data DataType : Type 0 where
  float : ℕ → DataType
  int : ℕ → DataType
  dynamic_float : DataType
  floating_int : DataType
  scalable_int : ℕ → DataType
  scalable_float : ℕ → ℕ → DataType

pub data Scalar : Type 0 where
  float : ℕ → ℕ → Scalar
  int : ℕ → ℕ → Scalar
  dynamic_float : ℕ → Scalar
  floating_int : ℕ → ℕ → Scalar
  scalable_int : ℕ → ℕ → Scalar
  scalable_float : ℕ → ℕ → ℕ → Scalar
  int_limbs : List ℕ → ℕ → Scalar
  scalable_int_limbs : List ℕ → ℕ → Scalar

-- `Scalar::data_type`
unfoldable pub scalar_type : Scalar → DataType
scalar_type (Scalar.float _ bits) = DataType.float bits
scalar_type (Scalar.int _ bits) = DataType.int bits
scalar_type (Scalar.dynamic_float _) = DataType.dynamic_float
scalar_type (Scalar.floating_int _ _) = DataType.floating_int
scalar_type (Scalar.scalable_int _ bits) = DataType.scalable_int bits
scalar_type (Scalar.scalable_float _ bits e) = DataType.scalable_float bits e
scalar_type (Scalar.int_limbs _ bits) = DataType.int bits
scalar_type (Scalar.scalable_int_limbs _ bits) = DataType.scalable_int bits

unfoldable pub bit_width : DataType → ℕ
bit_width (DataType.float b) = b
bit_width (DataType.int b) = b
bit_width (DataType.scalable_int b) = b
bit_width (DataType.scalable_float b _) = b
bit_width DataType.dynamic_float = 64
bit_width DataType.floating_int = 64

module _ (ops : FloatOps) where
  open ops use {of_i64, powi}

  unfoldable pub to_double : Scalar → ℕ
  to_double (Scalar.float val _) = val
  to_double (Scalar.int val _) = of_i64 val
  to_double (Scalar.dynamic_float val) = val
  to_double (Scalar.floating_int value scale) = ops.div (of_i64 value) (powi ten scale)
  to_double (Scalar.scalable_int val _) = of_i64 val
  to_double (Scalar.scalable_float val _ _) = val
  to_double (Scalar.int_limbs limbs bits) = decode_custom_int_limbs_to_double ops limbs bits
  to_double (Scalar.scalable_int_limbs limbs bits) =
      decode_custom_int_limbs_to_double ops limbs bits
