-- ===== src/Array/Stretch.antt =====
-- numtoy-core/src/array.rs: `to_flat_f64` and `broadcast_to`. The hardware engine's `pack` and `unpack`
-- and the value of the id counter are parameters.
pub mod Values
use num_toy.Prelude.{
  ℕ, zero, suc, ◌+◌, ◌-◌, ◌*◌, ◌/◌, Bool, true, false, ◌&&◌, ◌||◌, List, [], ◌∷◌, ◌++◌, Option,
  none, some, Outcome, ok, fault, ◌>>=◌, at_index, max, min, ◌==◌, if◌then◌else◌, length, replicate,
  take, drop, ltb,
}
use num_toy.Scalar.{DataType, Scalar, bit_width, to_double}
use num_toy.Scalar.Float.{FloatOps, ge_zero}
use num_toy.Scalar.Codec.{to_limbs, from_limbs, double_to_floating_int}
use num_toy.Ir
use num_toy.Ir.{
  Expr, Variable, memory, as_slice, variable, constant, add, sub, mul, div, dequantize_matmul,
}
use num_toy.Array.{numel, row_major_bit_strides, row_major_element_strides, source_index}
use num_toy.Array.Strides.{zero_ones}
use num_toy.Array.Transpose.{NumToyArray}

unfoldable pub src_padded : ℕ → List ℕ → List ℕ
src_padded rank src_shape = replicate (rank - length src_shape) 1 ++ src_shape

-- whether the loop with the assertion gets through; a target of fewer dimensions is out of range
unfoldable pub check_dims : List ℕ → List ℕ → Bool
check_dims [] target = true
check_dims (sd ∷ src) [] = false
check_dims (sd ∷ src) (td ∷ target) = (sd == td || sd == 1) && check_dims src target

unfoldable pub same_shape : List ℕ → List ℕ → Bool
same_shape [] [] = true
same_shape [] (y ∷ ys) = false
same_shape (x ∷ xs) [] = false
same_shape (x ∷ xs) (y ∷ ys) = x == y && same_shape xs ys

-- the elements from number `flat_out` on; in an empty source the last index does not exist
unfoldable pub fill : List ℕ → List ℕ → List ℕ → ℕ → ℕ → Outcome (List ℕ)
fill src_flat tgt_strides src_strides flat_out zero = ok []
fill src_flat tgt_strides src_strides flat_out (suc left) = do
  v ← at_index src_flat (min (source_index tgt_strides src_strides flat_out) (length src_flat - 1))
  rest ← fill src_flat tgt_strides src_strides (suc flat_out) left
  ok (v ∷ rest)

unfoldable pub stretch : List ℕ → List ℕ → List ℕ → Outcome (List ℕ)
stretch padded target_shape src_flat =
    fill src_flat (row_major_element_strides target_shape)
      (zero_ones padded (row_major_element_strides padded)) 0 (numel target_shape)

unfoldable pub all_ge_zero : List ℕ → Bool
all_ge_zero [] = true
all_ge_zero (v ∷ vs) = ge_zero v && all_ge_zero vs

unfoldable pub is_float : DataType → Bool
is_float (DataType.float b) = true
is_float (DataType.int b) = false
is_float DataType.dynamic_float = true
is_float DataType.floating_int = false
is_float (DataType.scalable_int b) = false
is_float (DataType.scalable_float b e) = true

-- `unwrap_or`
unfoldable pub scale_or : Option ℕ → ℕ → ℕ
scale_or none d = d
scale_or (some s) d = s

module _ (ops : FloatOps) where
  unfoldable pub scalar_of : DataType → Option ℕ → ℕ → Scalar
  scalar_of (DataType.float b) scale f = Scalar.float f b
  scalar_of (DataType.int b) scale f = Scalar.int (ops.to_i64 (ops.round f)) b
  scalar_of DataType.dynamic_float scale f = Scalar.dynamic_float f
  scalar_of DataType.floating_int scale f = double_to_floating_int ops f (scale_or scale 1)
  scalar_of (DataType.scalable_int b) scale f = Scalar.scalable_int (ops.to_i64 (ops.round f)) b
  scalar_of (DataType.scalable_float b e) scale f = Scalar.scalable_float f b e

  unfoldable pub encode_all : DataType → Option ℕ → Bool → List ℕ → Outcome (List ℕ)
  encode_all dtype scale steal [] = ok []
  encode_all dtype scale steal (f ∷ fs) = do
    limbs ← to_limbs ops (scalar_of dtype scale f) steal
    rest ← encode_all dtype scale steal fs
    ok (limbs ++ rest)

  -- `chunks_exact(k)` and what is made of each chunk, on the number of chunks
  unfoldable pub decode_chunks : Variable → ℕ → List ℕ → ℕ → Outcome (List ℕ)
  decode_chunks v k raw zero = ok []
  decode_chunks v k raw (suc left) = do
    s ← from_limbs ops (take k raw) v.dtype v.scale v.steal_sign
    rest ← decode_chunks v k (drop k raw) left
    ok (to_double ops s ∷ rest)

  module _ (pack : List ℕ → ℕ → List ℕ) (unpack : List ℕ → ℕ → ℕ → List ℕ) where
    -- A chunk of no limbs panics.
    unfoldable pub to_flat_f64 : Expr → Outcome (List ℕ)
    to_flat_f64 (variable v) =
        let raw = unpack (as_slice v.packed_data) v.size (bit_width v.dtype) in
        let k = (bit_width v.dtype + 63) / 64 in
        let chunks = decode_chunks v k raw (length raw / k) in if k == 0 then fault else chunks
    to_flat_f64 (constant _) = fault
    to_flat_f64 (add _ _) = fault
    to_flat_f64 (sub _ _) = fault
    to_flat_f64 (mul _ _) = fault
    to_flat_f64 (div _ _) = fault
    to_flat_f64 (dequantize_matmul _ _ _ _ _) = fault

    -- `tiled_expr`, packed from the values `out`
    unfoldable pub tiled : ℕ → Expr → List ℕ → List ℕ → Outcome NumToyArray
    tiled id expr target_shape out = do
      let dtype = Ir.data_type expr
      let scale = Ir.get_scale expr
      let steal = all_ge_zero out && is_float dtype
      u64s ← encode_all dtype scale steal out
      let strides = row_major_bit_strides target_shape (bit_width dtype)
      ok (record {
        expr = variable (record {
          id = id;
          name = "broadcast";
          dtype = dtype;
          size = numel target_shape;
          packed_data = memory (pack u64s (bit_width dtype));
          shape = target_shape;
          bit_strides = strides;
          bit_offset = 0;
          scale = scale;
          steal_sign = steal;
        });
        shape = target_shape;
        bit_strides = strides;
      })

    unfoldable pub broadcast_to : ℕ → NumToyArray → List ℕ → Outcome NumToyArray
    broadcast_to id a target_shape =
        let padded = src_padded (max (length target_shape) (length a.shape)) a.shape in
        let as_it_is : NumToyArray = record {
          expr = a.expr;
          shape = target_shape;
          bit_strides = a.bit_strides;
        } in
        let new : Outcome NumToyArray = to_flat_f64 a.expr >>= λ src_flat.
        stretch padded target_shape src_flat >>= tiled id a.expr target_shape in
        if check_dims padded target_shape
        then (if numel target_shape == numel a.shape && same_shape target_shape a.shape
            then ok as_it_is
            else new)
        else fault
