-- ===== src/Kernel/Matmul/Weights.antt =====
-- numtoy-core/src/fuser.rs: the weights that the matrix product reads, against `helper_load_u64`.
use num_toy.Prelude.{
  ℕ, zero, suc, ◌+◌, ◌-◌, ◌*◌, ◌/◌, ◌%◌, ◌^◌, ◌≤◌, ◌<◌, ◌≡◌, inl, inr, refl, sym, ap, ap₂, ◌∙◌,
  Bool-cases, true, false, ◌==◌, if◌then◌else◌, arith, ltb, ltb→lt, bit, eq_of_bits, bit-mod,
  bit_of_small, two_pow_pos, two_pow_add, of_le_bytes, min, bytes_bound,
}
use native.Mathlib.Nat.{
  mod-lt, div-div-eq-div-mul, pow-le-pow_right, mul-mod_left, zero-div, zero-mod,
}
use num_toy.Kernel.Packed.{
  Memory, memory_bit, read_bytes, helper_load_u64, is_machine_width, bit_rounds,
}
use num_toy.Kernel.Packed.Store.{machine_width, machine_bound}
use num_toy.Kernel.Packed.BitLoop.{loaded_low, loaded_high, load_bits-lt}
use num_toy.Kernel.Matmul.{read_raw, weight_bits}

-- every byte of a memory is one
abbrev pub AreBytes : Memory → Type 0
AreBytes mem = (address : ℕ) → mem address < 256

word_room : (w : ℕ) → w ≤ 64 → 2 ^ w ≤ 2 ^ 64
word_room w h = pow-le-pow_right (omega arith) h

bit_above : (x b k : ℕ) → bit (x / 2 ^ b) k ≡ bit x (b + k)
bit_above x b k =
    ap (λ q. q % 2) (div-div-eq-div-mul x (2 ^ b) (2 ^ k))
    ∙ ap (λ d. x / d % 2) (sym (two_pow_add b k))

module _ (mem : Memory) (bytes : AreBytes mem) where
  memory_bit-byte : (a j : ℕ) → j < 8 → memory_bit mem (8 * a + j) ≡ bit (mem a) j
  unfolding memory_bit
  memory_bit-byte a j h =
      let byte : (8 * a + j) / 8 ≡ a = omega arith in
      let place : (8 * a + j) % 8 ≡ j = omega arith in ap₂ (λ d r. bit (mem d) r) byte place

  bit-read_bytes :
      (n a j : ℕ)
      → j < 8 * n
      → bit (of_le_bytes (read_bytes mem a n)) j ≡ memory_bit mem (8 * a + j)
  unfolding read_bytes
  bit-read_bytes zero a j h = absurd (omega arith)
  bit-read_bytes (suc n) a j h =
      let rest = of_le_bytes (read_bytes mem (suc a) n) in
      let whole = mem a + 256 * rest in
      elim (Bool-cases (ltb j 8)) [
        | inl e ↦
            let less = ltb→lt j 8 e in
            let low : whole % 2 ^ 8 ≡ mem a = omega (arith, bytes a) in
            sym (bit-mod whole 8 j less) ∙ ap (λ b. bit b j) low ∙ sym (memory_bit-byte a j less)
        | inr e ↦
            let above : 8 ≤ j = ground arith in
            let j' : ℕ = j - 8 in
            let place : 8 + j' ≡ j = omega arith in
            let high : whole / 2 ^ 8 ≡ rest = omega (arith, bytes a) in
            let next : 8 * suc a + j' ≡ 8 * a + j = omega arith in
            ap (bit whole) (sym place)
            ∙ sym (bit_above whole 8 j')
            ∙ ap (λ b. bit b j') high
            ∙ bit-read_bytes n (suc a) j' (omega arith)
            ∙ ap (memory_bit mem) next
      ]

-- the memory as the loop over the bytes of a weight sees it
abbrev visible : Memory → Memory
visible mem = λ k. if ltb k 256 then mem k else 0

visible-AreBytes : (mem : Memory) → AreBytes mem → AreBytes (visible mem)
visible-AreBytes mem bytes k = elim (Bool-cases (ltb k 256)) [
  | inl e ↦ rw e (bytes k)
  | inr e ↦ rw e (omega arith)
]

read_raw_round :
    (mem : Memory) (a raw step : ℕ)
    → (if ltb (a + step) 256 then raw + mem (a + step) * 2 ^ (step * 8) else raw)
      ≡ raw + visible mem (a + step) * 2 ^ (step * 8)
read_raw_round mem a raw step = elim (Bool-cases (ltb (a + step) 256)) [
  | inl e ↦ rw e refl
  | inr e ↦ rw e (omega arith)
]

read_raw_lem :
    (mem : Memory) (left a raw step : ℕ)
    → read_raw mem a raw step left
      ≡ raw + 2 ^ (step * 8) * of_le_bytes (read_bytes (visible mem) (a + step) left)
unfolding read_raw read_bytes
read_raw_lem mem zero a raw step = omega arith
read_raw_lem mem (suc left) a raw step =
    let p = 2 ^ (step * 8) in
    let byte = visible mem (a + step) in
    let rest = of_le_bytes (read_bytes (visible mem) (suc (a + step)) left) in
    let grown : 2 ^ (suc step * 8) ≡ 256 * p =
      let e : suc step * 8 ≡ 8 + step * 8 = omega arith in
      ap (λ x. 2 ^ x) e ∙ two_pow_add 8 (step * 8) in
    let moved : a + suc step ≡ suc (a + step) = omega arith in
    ap (λ r. read_raw mem a r (suc step) left) (read_raw_round mem a raw step)
    ∙ read_raw_lem mem left a (raw + byte * p) (suc step)
    ∙ ap₂ (λ q s. raw + byte * p + q * of_le_bytes (read_bytes (visible mem) s left)) grown moved
    ∙ grind arith

read_visible-far :
    (mem : Memory) (n a : ℕ) → 256 ≤ a → of_le_bytes (read_bytes (visible mem) a n) ≡ 0
unfolding read_bytes
read_visible-far mem zero a h = refl
read_visible-far mem (suc n) a h =
    let hidden : ltb a 256 ≡ false = ground arith in
    rw (hidden, read_visible-far mem n (suc a) (omega arith)) refl

read_raw-visible :
    (mem : Memory) (a : ℕ) → read_raw mem a 0 0 8 ≡ of_le_bytes (read_bytes (visible mem) a 8)
read_raw-visible mem a =
    let start : a + 0 ≡ a = omega arith in
    read_raw_lem mem 8 a 0 0
    ∙ ap (λ s. 0 + 1 * of_le_bytes (read_bytes (visible mem) s 8)) start
    ∙ omega arith

memory_bit-visible :
    (mem : Memory) (i : ℕ) → i < 2 ^ 11 → memory_bit (visible mem) i ≡ memory_bit mem i
unfolding memory_bit
memory_bit-visible mem i h = let near : ltb (i / 8) 256 ≡ true = ground arith in rw near refl

module _ (mem : Memory) (bytes : AreBytes mem) (w off : ℕ) (pos : 0 < w) where
  -- the bits of a weight that starts at bit `off`
  raw_field :
      (k : ℕ)
      → k < 57
      → off + k < 2 ^ 11
      → bit (read_raw mem (off / 8) 0 0 8 / 2 ^ (off % 8)) k ≡ memory_bit mem (off + k)
  raw_field k h inside =
      let a = off / 8 in
      let r = off % 8 in
      let place : 8 * a + (r + k) ≡ off + k = omega arith in
      bit_above (read_raw mem a 0 0 8) r k
      ∙ ap (λ x. bit x (r + k)) (read_raw-visible mem a)
      ∙ bit-read_bytes (visible mem) (visible-AreBytes mem bytes) 8 a (r + k) (omega arith)
      ∙ ap (memory_bit (visible mem)) place
      ∙ memory_bit-visible mem (off + k) inside

  whole_bytes : off % w ≡ 0 → is_machine_width w ≡ true → (8 * (off / 8) ≡ off) × (8 * (w / 8) ≡ w)
  whole_bytes whole e = elim (machine_width w e) [
    | inl q ↦ (omega (arith, q, rw q at whole), omega (arith, q))
    | inr (inl q) ↦ (omega (arith, q, rw q at whole), omega (arith, q))
    | inr (inr (inl q)) ↦ (omega (arith, q, rw q at whole), omega (arith, q))
    | inr (inr (inr q)) ↦ (omega (arith, q, rw q at whole), omega (arith, q))
  ]

  read_bytes-lt : (n a : ℕ) → of_le_bytes (read_bytes mem a n) < bytes_bound n
  unfolding read_bytes
  read_bytes-lt zero a = omega arith
  read_bytes-lt (suc n) a = omega (arith, bytes a, read_bytes-lt n (suc a))

  -- what the packed load answers for the element that starts at this bit
  loaded :
      off % w ≡ 0
      → w < 64
      → (helper_load_u64 mem off w 0 < 2 ^ 64)
        × ((k : ℕ) → k < w → bit (helper_load_u64 mem off w 0) k ≡ memory_bit mem (off + k))
        × ((k : ℕ) → w ≤ k → bit (helper_load_u64 mem off w 0) k ≡ 0)
  unfolding helper_load_u64 bit_rounds
  loaded whole small =
      let nonzero : (w == 0) ≡ false = ground arith in
      let odd_width : (w % 64 == 0) ≡ false = ground arith in
      let start : off + 0 * 64 ≡ off = omega arith in
      let rounds : min 64 (w - 0 * 64) ≡ w = omega arith in
      elim (Bool-cases (is_machine_width w)) [
        | inl e ↦
            let (at_byte, in_bytes) = whole_bytes whole e in
            let value = of_le_bytes (read_bytes mem (off / 8) (w / 8)) in
            let below : value < 2 ^ w =
              rw (sym (machine_bound w e)) (read_bytes-lt (w / 8) (off / 8)) in
            let room : 2 ^ w ≤ 2 ^ 64 = word_room w (omega arith) in
            rw (nonzero, e)
              (
                omega (arith, below, room),
                λ k h.
                    bit-read_bytes mem bytes (w / 8) (off / 8) k (omega (arith, in_bytes))
                    ∙ ap (λ x. memory_bit mem (x + k)) at_byte,
                λ k h. bit_of_small w value k below h,
              )
        | inr e ↦
            rw (nonzero, e, odd_width, start, rounds)
              (
                load_bits-lt off w 0 0 mem (omega arith) (omega arith),
                λ k h. loaded_low off w k mem h,
                λ k h. loaded_high off w k mem h,
              )
      ]

module _ (mem : Memory) (bytes : AreBytes mem) (w idx : ℕ) (pos : 0 < w) (narrow : w ≤ 57) where
  pub weight_bits-load :
      idx * w + w ≤ 2 ^ 11 → weight_bits mem w idx ≡ helper_load_u64 mem (idx * w) w 0
  unfolding weight_bits
  weight_bits-load inside =
      let off = idx * w in
      let raw = read_raw mem (off / 8) 0 0 8 / 2 ^ (off % 8) in
      let no_wrap : off % 2 ^ 64 ≡ off = omega (arith, inside) in
      let no_mask : w % 64 ≡ w = omega arith in
      let whole : off % w ≡ 0 = mul-mod_left idx w in
      let (fits, low, high) = loaded mem bytes w off pos whole (omega arith) in
      let below : raw % 2 ^ w < 2 ^ w = mod-lt raw (two_pow_pos w) in
      let room : 2 ^ w ≤ 2 ^ 64 = word_room w (omega arith) in
      rw (no_wrap, no_mask)
        (eq_of_bits 64 (raw % 2 ^ w) (helper_load_u64 mem off w 0) (omega (arith, below, room)) fits
          λ k h. elim (Bool-cases (ltb k w)) [
            | inl e ↦
                let less = ltb→lt k w e in
                bit-mod raw w k less
                ∙ raw_field mem bytes w off pos k (omega (arith, less))
                    (omega (arith, less, inside))
                ∙ sym (low k less)
            | inr e ↦
                let above : w ≤ k = ground arith in
                bit_of_small w (raw % 2 ^ w) k below above ∙ sym (high k above)
          ])

  -- The loop reads no byte at the address 256 or above.
  pub weight_bits-far : 2 ^ 11 ≤ idx * w → idx * w < 2 ^ 64 → weight_bits mem w idx ≡ 0
  unfolding weight_bits
  weight_bits-far far less =
      let off = idx * w in
      let no_wrap : off % 2 ^ 64 ≡ off = omega (arith, less) in
      let empty : read_raw mem (off / 8) 0 0 8 ≡ 0 =
        read_raw-visible mem (off / 8) ∙ read_visible-far mem 8 (off / 8) (omega (arith, far)) in
      rw (no_wrap, empty)
        (ap (λ q. q % 2 ^ (w % 64)) (zero-div (2 ^ (off % 8))) ∙ zero-mod (2 ^ (w % 64)))
