-- ===== src/Kernel/Matmul.antt =====
-- numtoy-core/src/fuser.rs: `helper_dequantize_matmul`, the product of activations with packed weights.
-- The output lies apart from the inputs. A shift takes its count modulo the width of its type, as in a
-- release build. The indices of elements that lie in memory do not wrap.
pub mod Weights
pub mod Decode
pub mod Product
use num_toy.Prelude.{
  ℕ, zero, suc, ◌+◌, ◌-◌, ◌*◌, ◌/◌, ◌%◌, ◌^◌, Bool, true, false, not, ◌&&◌, List, ◌==◌, ltb,
  if◌then◌else◌, bit, le_bytes, of_le_bytes,
}
use num_toy.Scalar.Float.{FloatOps, zero_f64}
use num_toy.Kernel.Packed.{Memory, read_bytes, write_bytes}

-- the rounds over `byte_step`; the bytes that are joined by `|` do not overlap
unfoldable pub read_raw : Memory → ℕ → ℕ → ℕ → ℕ → ℕ
read_raw w_ptr byte_idx raw_val byte_step zero = raw_val
read_raw w_ptr byte_idx raw_val byte_step (suc left) =
    read_raw w_ptr byte_idx
      (if ltb (byte_idx + byte_step) 256
        then raw_val + w_ptr (byte_idx + byte_step) * 2 ^ (byte_step * 8)
        else raw_val)
      (suc byte_step) left

unfoldable pub weight_bits : Memory → ℕ → ℕ → ℕ
weight_bits w_ptr w_bits w_idx =
    let bit_offset = w_idx * w_bits % 2 ^ 64 in
    let byte_idx = bit_offset / 8 in
    let bit_in_byte = bit_offset % 8 in
    let raw_val = read_raw w_ptr byte_idx 0 0 8 in raw_val / 2 ^ bit_in_byte % 2 ^ (w_bits % 64)

-- `1 << w_bits` as an i32, which is the type of a literal by default, in the bits of an i64
unfoldable pub one_shifted : ℕ → ℕ
one_shifted w_bits = if w_bits % 32 == 31 then 2 ^ 64 - 2 ^ 31 else 2 ^ (w_bits % 32)

module _ (ops : FloatOps) (act_ptr w_ptr : Memory) (k n a_bits w_bits w_scale w_steal : ℕ) where
  unfoldable pub act_val : ℕ → ℕ → ℕ
  act_val row i =
      if a_bits == 32
      then ops.widen (of_le_bytes (read_bytes act_ptr ((row * k + i) * 4) 4))
      else of_le_bytes (read_bytes act_ptr ((row * k + i) * 8) 8)

  -- `w_f64`, from the bits of a weight
  unfoldable pub weight_value : ℕ → ℕ
  weight_value w_val =
      let is_signed = w_steal == 0 in
      let sign = bit w_val ((w_bits + (2 ^ 32 - 1)) % 2 ^ 32 % 64) in
      let w_f64 = ops.of_u64 w_val in
      let w_f64' =
        if is_signed && sign == 1 then ops.sub w_f64 (ops.of_i64 (one_shifted w_bits)) else w_f64 in
      if ltb 0 w_scale then ops.div w_f64' (ops.of_u64 w_scale) else w_f64'

  -- the rounds over `i`
  unfoldable pub sum_from : ℕ → ℕ → ℕ → ℕ → ℕ → ℕ
  sum_from row col sum i zero = sum
  sum_from row col sum i (suc left) =
      let w_f64 = weight_value (weight_bits w_ptr w_bits (i * n + col)) in
      sum_from row col (ops.add sum (ops.mul (act_val row i) w_f64)) (suc i) left

  unfoldable pub col_loop : ℕ → Memory → ℕ → ℕ → Memory
  col_loop row out_ptr col zero = out_ptr
  col_loop row out_ptr col (suc left) =
      let sum = sum_from row col zero_f64 0 k in
      col_loop row (write_bytes out_ptr ((row * n + col) * 8) (le_bytes 8 sum)) (suc col) left

  unfoldable pub row_loop : Memory → ℕ → ℕ → Memory
  row_loop out_ptr row zero = out_ptr
  row_loop out_ptr row (suc left) = row_loop (col_loop row out_ptr 0 n) (suc row) left

  unfoldable pub helper_dequantize_matmul : Memory → ℕ → Memory
  helper_dequantize_matmul out_ptr m = row_loop out_ptr 0 m
