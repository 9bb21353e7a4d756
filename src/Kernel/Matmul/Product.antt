-- ===== src/Kernel/Matmul/Product.antt =====
-- numtoy-core/src/fuser.rs: the entries that the matrix product writes.
use num_toy.Prelude.{
  ◌==◌, if◌then◌else◌, ℕ, zero, suc, ◌+◌, ◌*◌, ◌%◌, ◌^◌, ◌≤◌, ◌<◌, ◌≡◌, ◌≢◌, ◌⊎◌, inl, inr, refl,
  ap, ◌∙◌, Bool-cases, ltb, ltb→lt, arith, le_bytes, length-le_bytes, of_le_bytes,
}
use native.Mathlib.Nat.{mul-le-mul_right}
use num_toy.Scalar.Float.{FloatOps, zero_f64}
use num_toy.Kernel.Packed.{Memory, read_bytes, write_bytes, helper_load_u64}
use num_toy.Kernel.Packed.Bytes.{write_bytes-other, read_bytes-ext, read_number}
use num_toy.Kernel.Matmul.{
  weight_bits, act_val, sum_from, col_loop, row_loop, helper_dequantize_matmul,
}
use num_toy.Kernel.Matmul.Decode.{
  ExactIntegers, weight, ReadsExactly, weight_bits-lt, decoded_weight,
}
use num_toy.Kernel.Matmul.Weights.{AreBytes, weight_bits-load, weight_bits-far}

-- the f64 number `e` of an output buffer
abbrev pub entry : Memory → ℕ → ℕ
entry mem e = of_le_bytes (read_bytes mem (e * 8) 8)

entry-write_self :
    (mem : Memory) (e v : ℕ) → entry (write_bytes mem (e * 8) (le_bytes 8 v)) e ≡ v % 2 ^ 64
entry-write_self mem e v = read_number 8 v mem (e * 8)

entry-write_ne :
    (mem : Memory) (e v d : ℕ)
    → e ≢ d
    → entry (write_bytes mem (e * 8) (le_bytes 8 v)) d ≡ entry mem d
entry-write_ne mem e v d ne = ap of_le_bytes (
    read_bytes-ext 8 (write_bytes mem (e * 8) (le_bytes 8 v)) mem (d * 8) (λ k lo hi.
      write_bytes-other (le_bytes 8 v) mem (e * 8) k (
        let apart : (e < d) ⊎ (d < e) = omega (arith, ne) in
        omega (arith, apart, lo, hi, length-le_bytes 8 v))))

-- Row `i` of the weights lies in what all the weights take.
weights_fit :
    (k n i col w : ℕ) → i < k → col < n → k * n * w ≤ 2 ^ 11 → (i * n + col) * w + w ≤ 2 ^ 11
weights_fit k n i col w hi hc all =
    let rows : (i + 1) * n ≤ k * n = mul-le-mul_right n (omega arith) in
    let place : i * n + col + 1 ≤ k * n =
      let grown : (i + 1) * n ≡ i * n + n = grind arith in omega (arith, rows, grown, hc) in
    let bits : (i * n + col + 1) * w ≤ k * n * w = mul-le-mul_right w place in
    let split : (i * n + col + 1) * w ≡ (i * n + col) * w + w = grind arith in
    omega (arith, bits, split, all)

abbrev pub activation : FloatOps → ℕ → Memory → ℕ → ℕ
activation ops a_bits act_ptr e =
    if a_bits == 32 then ops.widen (of_le_bytes (read_bytes act_ptr (e * 4) 4)) else entry act_ptr e

module _ (ops : FloatOps) (act_ptr w_ptr : Memory) (k n a_bits w_bits w_scale w_steal : ℕ) where
  abbrev act : ℕ → ℕ → ℕ
  act = act_val ops act_ptr w_ptr k n a_bits w_bits w_scale w_steal

  -- The first `j` terms of the product of a row of activations, each an f32 or an f64 number of its
  -- buffer, and a column of weights, each the integer in an element of the packed buffer.
  abbrev pub dot : ℕ → ℕ → ℕ → ℕ
  dot row col zero = zero_f64
  dot row col (suc j) = ops.add (dot row col j) (
      ops.mul (activation ops a_bits act_ptr (row * k + j)) (
        weight ops w_bits w_scale w_steal
          (helper_load_u64 w_ptr ((j * n + col) * w_bits) w_bits 0)))

  abbrev sums : ℕ → ℕ → ℕ → ℕ → ℕ → ℕ
  sums = sum_from ops act_ptr w_ptr k n a_bits w_bits w_scale w_steal

  abbrev cols : ℕ → Memory → ℕ → ℕ → Memory
  cols = col_loop ops act_ptr w_ptr k n a_bits w_bits w_scale w_steal

  abbrev rows : Memory → ℕ → ℕ → Memory
  rows = row_loop ops act_ptr w_ptr k n a_bits w_bits w_scale w_steal

  cols-other :
      (left row col e : ℕ) (out : Memory)
      → (e < row * n + col) ⊎ (row * n + col + left ≤ e)
      → entry (cols row out col left) e ≡ entry out e
  unfolding col_loop
  cols-other zero row col e out h = refl
  cols-other (suc left) row col e out h =
      let sum = sums row col zero_f64 0 k in
      let out' = write_bytes out ((row * n + col) * 8) (le_bytes 8 sum) in
      cols-other left row (suc col) e out' (omega (arith, h))
      ∙ entry-write_ne out (row * n + col) sum e (λ q. omega (arith, q, h))

  cols-entry :
      (left row col c : ℕ) (out : Memory)
      → col ≤ c
      → c < col + left
      → entry (cols row out col left) (row * n + c) ≡ sums row c zero_f64 0 k % 2 ^ 64
  unfolding col_loop
  cols-entry zero row col c out lo hi = absurd (omega arith)
  cols-entry (suc left) row col c out lo hi =
      let sum = sums row col zero_f64 0 k in
      let out' = write_bytes out ((row * n + col) * 8) (le_bytes 8 sum) in
      elim (Bool-cases (ltb col c)) [
        | inl later ↦
            cols-entry left row (suc col) c out' (omega (arith, ltb→lt col c later)) (omega arith)
        | inr now ↦
            let e : c ≡ col = ground arith in
            rw e (
              cols-other left row (suc col) (row * n + col) out' (inl (omega arith))
              ∙ entry-write_self out (row * n + col) sum)
      ]

  rows-other :
      (left row e : ℕ) (out : Memory) → e < row * n → entry (rows out row left) e ≡ entry out e
  unfolding row_loop
  rows-other zero row e out h = refl
  rows-other (suc left) row e out h =
      let next : suc row * n ≡ row * n + n = grind arith in
      rows-other left (suc row) e (cols row out 0 n) (omega (arith, next, h))
      ∙ cols-other n row 0 e out (inl (omega (arith, h)))

  rows-entry :
      (left row r c : ℕ) (out : Memory)
      → row ≤ r
      → r < row + left
      → c < n
      → entry (rows out row left) (r * n + c) ≡ sums r c zero_f64 0 k % 2 ^ 64
  unfolding row_loop
  rows-entry zero row r c out lo hi h = absurd (omega arith)
  rows-entry (suc left) row r c out lo hi h = elim (Bool-cases (ltb row r)) [
    | inl later ↦
        rows-entry left (suc row) r c (cols row out 0 n) (omega (arith, ltb→lt row r later))
          (omega arith) h
    | inr now ↦
        let e : r ≡ row = ground arith in
        let next : suc row * n ≡ row * n + n = grind arith in
        rw e (
          rows-other left (suc row) (row * n + c) (cols row out 0 n) (omega (arith, next, h))
          ∙ cols-entry n row 0 c out (omega arith) (omega (arith, h)))
  ]

  module _ (exact : ExactIntegers ops) (bytes : AreBytes w_ptr) (pos : 0 < w_bits)
      (fits : ReadsExactly w_bits w_steal) (all : k * n * w_bits ≤ 2 ^ 11) where
    sums-dot :
        (left row col i : ℕ)
        → i + left ≤ k
        → col < n
        → sums row col (dot row col i) i left ≡ dot row col (i + left)
    unfolding sum_from act_val
    sums-dot zero row col i h hc = ap (dot row col) (omega arith)
    sums-dot (suc left) row col i h hc =
        let narrow : w_bits ≤ 57 = elim fits [
          | inl q ↦ omega (arith, q)
          | inr (q, r) ↦ omega (arith, r)
        ] in
        let idx = i * n + col in
        let loaded : weight_bits w_ptr w_bits idx ≡ helper_load_u64 w_ptr (idx * w_bits) w_bits 0 =
          weight_bits-load w_ptr bytes w_bits idx pos narrow
            (weights_fit k n i col w_bits (omega arith) hc all) in
        let below = weight_bits-lt w_ptr w_bits idx narrow in
        let decoded =
          decoded_weight ops act_ptr w_ptr k n a_bits w_bits w_scale w_steal
            (weight_bits w_ptr w_bits idx) exact pos fits below
          ∙ ap (weight ops w_bits w_scale w_steal) loaded in
        let next : suc i + left ≡ i + suc left = omega arith in
        ap (λ f. sums row col (ops.add (dot row col i) (ops.mul (act row i) f)) (suc i) left)
          decoded
        ∙ sums-dot left row col (suc i) (omega arith) hc
        ∙ ap (dot row col) next

-- Where integers below 2 ^ 53 are exact, and the weights take up no more than 256 bytes and have at most
-- 30 bits, or at most 52 where the sign is stolen, each entry of the output is the product of a row of
-- activations and a column of weights, summed from the first term on: an activation is an f32 or f64
-- number of its buffer, and a weight the integer, in two's complement or unsigned, in its element of the
-- packed buffer, divided by the scale if there is one. A weight that starts 256 bytes or more into the
-- buffer is read as zero, whatever its bits are.
pub dequantize_matmul-dot :
    (ops : FloatOps) (act_ptr w_ptr : Memory) (k n a_bits w_bits w_scale w_steal : ℕ)
    (out_ptr : Memory) (m row col far : ℕ)
    → ExactIntegers ops
    → AreBytes w_ptr
    → 0 < w_bits
    → ReadsExactly w_bits w_steal
    → k * n * w_bits ≤ 2 ^ 11
    → row < m
    → col < n
    → 2 ^ 11 ≤ far * w_bits
    → far * w_bits < 2 ^ 64
    → (entry
          (helper_dequantize_matmul ops act_ptr w_ptr k n a_bits w_bits w_scale w_steal out_ptr m)
          (row * n + col)
        ≡ dot ops act_ptr w_ptr k n a_bits w_bits w_scale w_steal row col k % 2 ^ 64)
      × (weight_bits w_ptr w_bits far ≡ 0)
unfolding helper_dequantize_matmul
dequantize_matmul-dot ops act_ptr w_ptr k n a_bits w_bits w_scale w_steal out_ptr m row col far
      exact bytes pos fits all hr hc lo hi =
    let narrow : w_bits ≤ 57 = elim fits [
      | inl q ↦ omega (arith, q)
      | inr (q, r) ↦ omega (arith, r)
    ] in
    let from_zero : 0 + k ≡ k = omega arith in
    (
      rows-entry ops act_ptr w_ptr k n a_bits w_bits w_scale w_steal m 0 row col out_ptr
            (omega arith) (omega (arith, hr)) hc
          ∙ ap (λ s. s % 2 ^ 64)
              (sums-dot ops act_ptr w_ptr k n a_bits w_bits w_scale w_steal exact bytes pos fits all
                k row col 0 (omega arith) hc)
          ∙ ap (λ j. dot ops act_ptr w_ptr k n a_bits w_bits w_scale w_steal row col j % 2 ^ 64)
              from_zero,
      weight_bits-far w_ptr bytes w_bits far pos narrow lo hi,
    )
