-- ===== src/Kernel/Packed.antt =====
-- numtoy-core/src/fuser.rs: `helper_load_u64` and `helper_store_u64`, which read and write one limb of
-- one element in a bit-packed buffer. The memory behind a buffer is a byte for each address.
pub mod Bytes
pub mod BitLoop
pub mod Store
use num_toy.Prelude.{
  ℕ, zero, suc, ◌+◌, ◌-◌, ◌*◌, ◌/◌, ◌%◌, ◌^◌, Bool, ◌||◌, List, [], ◌∷◌, ◌==◌, if◌then◌else◌, min,
  bit, put_bit, le_bytes, of_le_bytes,
}

abbrev pub Memory : Type 0
Memory = ℕ → ℕ

unfoldable pub write : Memory → ℕ → ℕ → Memory
write mem address byte = λ k. if k == address then byte else mem k

-- `write_unaligned` and `read_unaligned` of a number of `n` bytes
unfoldable pub write_bytes : Memory → ℕ → List ℕ → Memory
write_bytes mem address [] = mem
write_bytes mem address (b ∷ bs) = write_bytes (write mem address b) (suc address) bs

unfoldable pub read_bytes : Memory → ℕ → ℕ → List ℕ
read_bytes mem address zero = []
read_bytes mem address (suc n) = mem address ∷ read_bytes mem (suc address) n

-- the rounds of both loops that do not break, 64 at most
unfoldable pub bit_rounds : ℕ → ℕ → ℕ
bit_rounds bit_width limb_idx = min 64 (bit_width - limb_idx * 64)

-- `(byte_val >> bit_in_byte) & 1`
unfoldable pub memory_bit : Memory → ℕ → ℕ
memory_bit mem i = bit (mem (i / 8)) (i % 8)

unfoldable pub write_bit : Memory → ℕ → ℕ → Memory
write_bit mem i value = write mem (i / 8) (put_bit (mem (i / 8)) (i % 8) value)

module _ (start_bit : ℕ) where
  -- the rounds from bit `i` on
  unfoldable pub load_bits : Memory → ℕ → ℕ → ℕ → ℕ
  load_bits mem val i zero = val
  load_bits mem val i (suc left) =
      load_bits mem (if memory_bit mem (start_bit + i) == 1 then put_bit val i 1 else val) (suc i)
        left

  unfoldable pub store_bits : Memory → ℕ → ℕ → ℕ → Memory
  store_bits mem val i zero = mem
  store_bits mem val i (suc left) =
      store_bits (write_bit mem (start_bit + i) (bit val i)) val (suc i) left

-- the widths that are read and written as one number of their own size
unfoldable pub is_machine_width : ℕ → Bool
is_machine_width bit_width = bit_width == 8 || bit_width == 16 || bit_width == 32 || bit_width == 64

unfoldable pub helper_load_u64 : Memory → ℕ → ℕ → ℕ → ℕ
helper_load_u64 buf bit_offset bit_width limb_idx =
    let start_bit = bit_offset + limb_idx * 64 in
    if bit_width == 0
    then 0
    else if is_machine_width bit_width
    then of_le_bytes (read_bytes buf (bit_offset / 8) (bit_width / 8))
    else if bit_width % 64 == 0
    then of_le_bytes (read_bytes buf (start_bit / 8) 8)
    else load_bits start_bit buf 0 0 (bit_rounds bit_width limb_idx)

unfoldable pub helper_store_u64 : Memory → ℕ → ℕ → ℕ → ℕ → Memory
helper_store_u64 buf bit_offset bit_width limb_idx val =
    let start_bit = bit_offset + limb_idx * 64 in
    if bit_width == 0
    then buf
    else if is_machine_width bit_width
    then write_bytes buf (bit_offset / 8) (le_bytes (bit_width / 8) val)
    else if bit_width % 64 == 0
    then write_bytes buf (start_bit / 8) (le_bytes 8 val)
    else store_bits start_bit buf val 0 (bit_rounds bit_width limb_idx)
