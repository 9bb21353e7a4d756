-- ===== src/Scalar/Fields.antt =====
-- numtoy-core/src/types.rs: bit fields of a list of limbs (`set_bits` and `get_bits`). A field lies
-- within an element, whose width is a u32, so that the sums of offsets do not wrap.
pub mod RoundTrip
use num_toy.Prelude.{
  ℕ, zero, suc, ◌+◌, ◌/◌, ◌%◌, List, none, some, ◌==◌, if◌then◌else◌, get_elem?, set, replicate,
  put_bit,
}
use num_toy.Scalar.Limbs.{limb_bit, limb_count}

-- `if dest_limb < limbs.len()`: the bit is set or cleared
unfoldable pub set_limb_bit : List ℕ → ℕ → ℕ → List ℕ
set_limb_bit limbs i value = elim (get_elem? limbs (i / 64)) [
  | none ↦ limbs
  | some x ↦ set limbs (i / 64) (put_bit x (i % 64) value)
]

module _ (value_limbs : List ℕ) (bit_offset : ℕ) where
  -- the rounds from `i` on
  unfoldable pub set_bits_from : List ℕ → ℕ → ℕ → List ℕ
  set_bits_from limbs i zero = limbs
  set_bits_from limbs i (suc left) =
      set_bits_from (set_limb_bit limbs (bit_offset + i) (limb_bit value_limbs i)) (suc i) left

  -- the rounds of `get_bits`, where `value_limbs` is read and `res` written
  unfoldable pub get_bits_from : List ℕ → ℕ → ℕ → List ℕ
  get_bits_from res i zero = res
  get_bits_from res i (suc left) =
      get_bits_from
        (if limb_bit value_limbs (bit_offset + i) == 1 then set_limb_bit res i 1 else res) (suc i)
        left

unfoldable pub set_bits : List ℕ → List ℕ → ℕ → ℕ → List ℕ
set_bits limbs value_limbs bit_offset bit_len = set_bits_from value_limbs bit_offset limbs 0 bit_len

unfoldable pub get_bits : List ℕ → ℕ → ℕ → List ℕ
get_bits limbs bit_offset bit_len =
    get_bits_from limbs bit_offset (replicate (limb_count bit_len) 0) 0 bit_len
