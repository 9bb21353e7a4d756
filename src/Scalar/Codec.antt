-- ===== src/Scalar/Codec.antt =====
-- numtoy-core/src/types.rs: scalars as limbs (`Scalar::to_limbs`, `Scalar::from_limbs` and what is
-- built on them), and fuser.rs: the helpers that decode and encode one element.
pub mod RoundTrip
pub mod ReadBack
use num_toy.Prelude.{
  ℕ, ◌+◌, ◌-◌, ◌*◌, ◌/◌, ◌%◌, ◌^◌, Bool, true, false, not, ◌||◌, List, [], ◌∷◌, Option, none, some,
  Outcome, ok, fault, ◌>>=◌, ltb, leb, ◌==◌, if◌then◌else◌, get_or, bit, zero, suc, replicate,
}
use num_toy.Scalar.{DataType, Scalar, to_double}
use num_toy.Scalar.Float.{FloatOps, ten, is_zero, is_nan, is_infinite, abs, lt_zero}
use num_toy.Scalar.Limbs.{u64_mod, limb_count, not_limbs, add_one, mask_last}
use num_toy.Scalar.Ints.{encode_custom_int_limbs, extend_limbs}
use num_toy.Scalar.CustomFloat.{
  encode_custom_float, decode_custom_float, encode_custom_float_with_e, decode_custom_float_with_e,
}
use num_toy.Scalar.WideFloat.{encode_custom_float_limbs, decode_custom_float_limbs}

abbrev pub wide_exponent : ℕ → ℕ
wide_exponent bits = if leb bits 128 then 15 else 19

-- `limbs.first().copied().unwrap_or(0)`
abbrev pub first_limb : List ℕ → ℕ
first_limb limbs = get_or limbs 0 0

-- an integer of `bits` bits, up to 64, with its sign extended
unfoldable pub sign_extended : ℕ → ℕ → Outcome ℕ
sign_extended val bits =
    let val_masked = val % 2 ^ bits in
    if leb 64 bits
    then ok val
    else if bits == 0
    then fault
    else if bit val_masked (bits - 1) == 1
    then ok (val_masked + (u64_mod - 2 ^ bits))
    else ok val_masked

unfoldable pub int_to_limbs : ℕ → ℕ → List ℕ
int_to_limbs val bits = if leb bits 64 then val ∷ [] else encode_custom_int_limbs val bits

-- the limb list of one code
abbrev pub single : Outcome ℕ → Outcome (List ℕ)
single code = code >>= λ c. ok (c ∷ [])

unfoldable pub original_bits : Scalar → ℕ
original_bits (Scalar.int _ b) = b
original_bits (Scalar.int_limbs _ b) = b
original_bits (Scalar.scalable_int _ b) = b
original_bits (Scalar.scalable_int_limbs _ b) = b
original_bits (Scalar.float _ _) = 64
original_bits (Scalar.dynamic_float _) = 64
original_bits (Scalar.floating_int _ _) = 64
original_bits (Scalar.scalable_float _ _ _) = 64

-- the match on `dtype_code` of both helpers
unfoldable pub dtype_of : ℕ → ℕ → ℕ → DataType
dtype_of dtype_code bits e =
    if dtype_code == 0
    then DataType.float bits
    else if dtype_code == 1
    then DataType.int bits
    else if dtype_code == 2
    then DataType.dynamic_float
    else if dtype_code == 3
    then DataType.floating_int
    else if dtype_code == 4
    then DataType.scalable_int bits
    else if dtype_code == 5
    then DataType.scalable_float bits e
    else DataType.dynamic_float

module _ (ops : FloatOps) where
  unfoldable pub to_limbs : Scalar → Bool → Outcome (List ℕ)
  to_limbs (Scalar.float val bits) steal_sign =
      if leb bits 64
      then single (encode_custom_float ops val bits steal_sign)
      else encode_custom_float_limbs ops val bits (wide_exponent bits) steal_sign
  to_limbs (Scalar.int val bits) steal_sign = ok (int_to_limbs val bits)
  to_limbs (Scalar.dynamic_float val) steal_sign =
      single (encode_custom_float ops val 64 steal_sign)
  to_limbs (Scalar.floating_int value _) steal_sign = ok (value ∷ [])
  to_limbs (Scalar.scalable_int val bits) steal_sign = ok (int_to_limbs val bits)
  to_limbs (Scalar.scalable_float val bits e) steal_sign =
      if leb bits 64
      then single (encode_custom_float_with_e ops val bits e steal_sign)
      else encode_custom_float_limbs ops val bits e steal_sign
  to_limbs (Scalar.int_limbs limbs _) steal_sign = ok limbs
  to_limbs (Scalar.scalable_int_limbs limbs _) steal_sign = ok limbs

  unfoldable pub to_extended_limbs : Scalar → ℕ → Outcome (List ℕ)
  to_extended_limbs s max_b =
      to_limbs s false >>= λ limbs. ok (extend_limbs limbs (original_bits s) max_b)

  unfoldable pub to_u64_packed : Scalar → Bool → Outcome ℕ
  to_u64_packed s steal_sign = to_limbs s steal_sign >>= λ limbs. ok (first_limb limbs)

  unfoldable pub from_limbs : List ℕ → DataType → Option ℕ → Bool → Outcome Scalar
  from_limbs limbs (DataType.float bits) scale steal_sign =
      (if leb bits 64
        then decode_custom_float ops (first_limb limbs) bits steal_sign
        else decode_custom_float_limbs ops limbs bits (wide_exponent bits) steal_sign)
      >>= λ decoded. ok (Scalar.float decoded bits)
  from_limbs limbs (DataType.int bits) scale steal_sign =
      if leb bits 64
      then (sign_extended (first_limb limbs) bits >>= λ val. ok (Scalar.int val bits))
      else ok (Scalar.int_limbs limbs bits)
  from_limbs limbs DataType.dynamic_float scale steal_sign =
      decode_custom_float ops (first_limb limbs) 64 steal_sign >>= λ decoded.
      ok (Scalar.dynamic_float decoded)
  from_limbs limbs DataType.floating_int scale steal_sign =
      ok (Scalar.floating_int (first_limb limbs) (elim scale [ none ↦ 1 | some s ↦ s ]))
  from_limbs limbs (DataType.scalable_int bits) scale steal_sign =
      if leb bits 64
      then (sign_extended (first_limb limbs) bits >>= λ val. ok (Scalar.scalable_int val bits))
      else ok (Scalar.scalable_int_limbs limbs bits)
  from_limbs limbs (DataType.scalable_float bits e) scale steal_sign =
      (if leb bits 64
        then decode_custom_float_with_e ops (first_limb limbs) bits e steal_sign
        else decode_custom_float_limbs ops limbs bits e steal_sign)
      >>= λ decoded. ok (Scalar.scalable_float decoded bits e)

  unfoldable pub from_u64_packed : ℕ → DataType → Option ℕ → Bool → Outcome Scalar
  from_u64_packed val dtype scale steal_sign = from_limbs (val ∷ []) dtype scale steal_sign

  -- the loop over the limbs of `encode_custom_int_limbs_from_double`; 2.0 ^ 64 as a pattern
  unfoldable pub magnitude_limbs : ℕ → ℕ → List ℕ
  magnitude_limbs zero abs_val = []
  magnitude_limbs (suc k) abs_val =
      ops.to_u64 (ops.rem abs_val 0x43F0_0000_0000_0000)
      ∷ magnitude_limbs k (ops.floor (ops.div abs_val 0x43F0_0000_0000_0000))

  unfoldable pub encode_custom_int_limbs_from_double : ℕ → ℕ → List ℕ
  encode_custom_int_limbs_from_double val bits =
      let limbs = magnitude_limbs (limb_count bits) (abs val) in
      if is_zero val || is_nan val || is_infinite val
      then replicate (limb_count bits) 0
      else mask_last (if lt_zero val then add_one (not_limbs limbs) else limbs) bits

  unfoldable pub double_to_floating_int : ℕ → ℕ → Scalar
  double_to_floating_int val scale =
      Scalar.floating_int (ops.to_i64 (ops.round (ops.mul val (ops.powi ten scale)))) scale

  unfoldable pub helper_decode_to_f64 : ℕ → ℕ → ℕ → ℕ → ℕ → ℕ → ℕ → Outcome ℕ
  helper_decode_to_f64 limb0 limb1 dtype_code bits e scale steal_sign_val =
      from_limbs (limb0 ∷ limb1 ∷ []) (dtype_of dtype_code bits e) (some scale)
        (not (steal_sign_val == 0))
      >>= λ s. ok (to_double ops s)

  -- the scalar of a value
  unfoldable pub scalar_of_f64 : ℕ → DataType → ℕ → Scalar
  scalar_of_f64 val (DataType.float b) scale = Scalar.float val b
  scalar_of_f64 val (DataType.int b) scale =
      if leb b 64
      then Scalar.int (ops.to_i64 (ops.round val)) b
      else Scalar.int_limbs (encode_custom_int_limbs_from_double val b) b
  scalar_of_f64 val DataType.dynamic_float scale = Scalar.dynamic_float val
  scalar_of_f64 val DataType.floating_int scale = double_to_floating_int val scale
  scalar_of_f64 val (DataType.scalable_int b) scale =
      if leb b 64
      then Scalar.scalable_int (ops.to_i64 (ops.round val)) b
      else Scalar.scalable_int_limbs (encode_custom_int_limbs_from_double val b) b
  scalar_of_f64 val (DataType.scalable_float b e) scale = Scalar.scalable_float val b e

  unfoldable pub helper_encode_from_f64 : ℕ → ℕ → ℕ → ℕ → ℕ → ℕ → ℕ → Outcome ℕ
  helper_encode_from_f64 val dtype_code bits e scale steal_sign_val limb_idx =
      to_limbs (scalar_of_f64 val (dtype_of dtype_code bits e) scale) (not (steal_sign_val == 0))
      >>= λ limbs. ok (get_or limbs limb_idx 0)
