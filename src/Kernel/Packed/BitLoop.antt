-- ===== src/Kernel/Packed/BitLoop.antt =====
-- numtoy-core/src/fuser.rs: the bit-by-bit loops of the packed load and store.
use num_toy.Prelude.{
  ℕ, zero, suc, ◌+◌, ◌/◌, ◌%◌, ◌^◌, ◌≤◌, ◌<◌, ◌≡◌, ◌≢◌, ◌⊎◌, inl, inr, refl, sym, ap, ◌∙◌,
  Bool-cases, ◌==◌, if◌then◌else◌, arith, ltb, ltb→lt, bit, bit-lt, put_bit, bit-put_bit_self,
  bit-put_bit_ne, put_bit-lt, eq_of_bits, bit-mod, bit_of_small, two_pow_pos,
}
use native.Mathlib.Nat.{mod-lt, zero-div, pow-le-pow_right}
use num_toy.Kernel.Packed.{Memory, memory_bit, write_bit, load_bits, store_bits}
use num_toy.Kernel.Packed.Bytes.{write_self, write_ne}

module _ (mem : Memory) (i value : ℕ) where
  memory_bit-write_self : value < 2 → memory_bit (write_bit mem i value) i ≡ value
  unfolding memory_bit write_bit
  memory_bit-write_self h =
      let new = put_bit (mem (i / 8)) (i % 8) value in
      ap (λ b. bit b (i % 8)) (write_self mem (i / 8) new)
      ∙ bit-put_bit_self (mem (i / 8)) (i % 8) value h

  memory_bit-write_ne : (j : ℕ) → i ≢ j → memory_bit (write_bit mem i value) j ≡ memory_bit mem j
  unfolding memory_bit write_bit
  memory_bit-write_ne j ne =
      let new = put_bit (mem (i / 8)) (i % 8) value in
      elim (Bool-cases (i / 8 == j / 8)) [
        | inl same ↦
            let byte : j / 8 ≡ i / 8 = ground arith in
            let apart : i % 8 ≢ j % 8 = λ k. ne (omega (arith, k, byte)) in
            rw byte (
              ap (λ b. bit b (j % 8)) (write_self mem (i / 8) new)
              ∙ bit-put_bit_ne (mem (i / 8)) (i % 8) (j % 8) value apart)
        | inr other ↦
            let apart : j / 8 ≢ i / 8 = ground arith in
            ap (λ b. bit b (j % 8)) (write_ne mem (i / 8) new (j / 8) apart)
      ]

module _ (start_bit : ℕ) where
  pub store_bits-other :
      (left i val j : ℕ) (mem : Memory)
      → (j < start_bit + i) ⊎ (start_bit + i + left ≤ j)
      → memory_bit (store_bits start_bit mem val i left) j ≡ memory_bit mem j
  unfolding store_bits
  store_bits-other zero i val j mem h = refl
  store_bits-other (suc left) i val j mem h =
      store_bits-other left (suc i) val j (write_bit mem (start_bit + i) (bit val i))
        (omega (arith, h))
      ∙ memory_bit-write_ne mem (start_bit + i) (bit val i) j (λ e. omega (arith, h, e))

  store_bits-field :
      (left i val k : ℕ) (mem : Memory)
      → i ≤ k
      → k < i + left
      → memory_bit (store_bits start_bit mem val i left) (start_bit + k) ≡ bit val k
  unfolding store_bits
  store_bits-field zero i val k mem h₁ h₂ = absurd (omega arith)
  store_bits-field (suc left) i val k mem h₁ h₂ =
      let mem' = write_bit mem (start_bit + i) (bit val i) in
      elim (Bool-cases (ltb i k)) [
        | inl later ↦
            store_bits-field left (suc i) val k mem' (omega (arith, ltb→lt i k later)) (omega arith)
        | inr now ↦
            let e : k ≡ i = ground arith in
            rw e (
              store_bits-other left (suc i) val (start_bit + i) mem' (inl (omega arith))
              ∙ memory_bit-write_self mem (start_bit + i) (bit val i) (bit-lt val i))
      ]

  load_round : Memory → ℕ → ℕ → ℕ
  load_round mem val i = if memory_bit mem (start_bit + i) == 1 then put_bit val i 1 else val

  load_round-ne : (mem : Memory) (val i j : ℕ) → i ≢ j → bit (load_round mem val i) j ≡ bit val j
  unfolding load_round
  load_round-ne mem val i j ne = elim (Bool-cases (memory_bit mem (start_bit + i) == 1)) [
    | inl e ↦ rw e (bit-put_bit_ne val i j 1 ne)
    | inr e ↦ rw e refl
  ]

  memory_bit-lt : (mem : Memory) (j : ℕ) → memory_bit mem j < 2
  unfolding memory_bit
  memory_bit-lt mem j = bit-lt (mem (j / 8)) (j % 8)

  load_round_self :
      (mem : Memory) (val i : ℕ)
      → bit val i ≡ 0
      → bit (load_round mem val i) i ≡ memory_bit mem (start_bit + i)
  unfolding load_round
  load_round_self mem val i clear =
      let small = memory_bit-lt mem (start_bit + i) in
      elim (Bool-cases (memory_bit mem (start_bit + i) == 1)) [
        | inl e ↦
            let one : memory_bit mem (start_bit + i) ≡ 1 = ground arith in
            rw e (bit-put_bit_self val i 1 (omega arith) ∙ sym one)
        | inr e ↦
            let none_set : memory_bit mem (start_bit + i) ≡ 0 = ground arith in
            rw e (clear ∙ sym none_set)
      ]

  load_round-lt : (mem : Memory) (val i : ℕ) → i < 64 → val < 2 ^ 64 → load_round mem val i < 2 ^ 64
  unfolding load_round
  load_round-lt mem val i h k = elim (Bool-cases (memory_bit mem (start_bit + i) == 1)) [
    | inl e ↦ rw e (put_bit-lt val i 1 64 h k)
    | inr e ↦ rw e k
  ]

  pub load_bits-lt :
      (left i val : ℕ) (mem : Memory)
      → i + left ≤ 64
      → val < 2 ^ 64
      → load_bits start_bit mem val i left < 2 ^ 64
  unfolding load_bits load_round
  load_bits-lt zero i val mem h k = k
  load_bits-lt (suc left) i val mem h k =
      load_bits-lt left (suc i) (load_round mem val i) mem (omega arith)
        (load_round-lt mem val i (omega arith) k)

  load_bits-other :
      (left i val j : ℕ) (mem : Memory)
      → (j < i) ⊎ (i + left ≤ j)
      → bit (load_bits start_bit mem val i left) j ≡ bit val j
  unfolding load_bits load_round
  load_bits-other zero i val j mem h = refl
  load_bits-other (suc left) i val j mem h =
      load_bits-other left (suc i) (load_round mem val i) j mem (omega (arith, h))
      ∙ load_round-ne mem val i j (λ e. omega (arith, h, e))

  load_bits-field :
      (left i val k : ℕ) (mem : Memory)
      → i ≤ k
      → k < i + left
      → bit val k ≡ 0
      → bit (load_bits start_bit mem val i left) k ≡ memory_bit mem (start_bit + k)
  unfolding load_bits load_round
  load_bits-field zero i val k mem h₁ h₂ clear = absurd (omega arith)
  load_bits-field (suc left) i val k mem h₁ h₂ clear = elim (Bool-cases (ltb i k)) [
    | inl later ↦
        let less = ltb→lt i k later in
        load_bits-field left (suc i) (load_round mem val i) k mem (omega (arith, less))
          (omega arith) (load_round-ne mem val i k (λ e. omega (arith, e, less)) ∙ clear)
    | inr now ↦
        let e : k ≡ i = ground arith in
        let still : bit val i ≡ 0 = rw (sym e) clear in
        rw e (
          load_bits-other left (suc i) (load_round mem val i) i mem (inl (omega arith))
          ∙ load_round_self mem val i still)
  ]

  bit_zero : (k : ℕ) → bit 0 k ≡ 0
  bit_zero k = rw (zero-div (2 ^ k)) refl

  pub loaded_low :
      (n k : ℕ) (mem : Memory)
      → k < n
      → bit (load_bits start_bit mem 0 0 n) k ≡ memory_bit mem (start_bit + k)
  loaded_low n k mem h = load_bits-field n 0 0 k mem (omega arith) (omega arith) (bit_zero k)

  pub loaded_high : (n k : ℕ) (mem : Memory) → n ≤ k → bit (load_bits start_bit mem 0 0 n) k ≡ 0
  loaded_high n k mem h = load_bits-other n 0 0 k mem (inr (omega arith)) ∙ bit_zero k

  -- what is loaded depends on the bits of the field alone
  pub load_bits-ext :
      (n : ℕ) (m₁ m₂ : Memory)
      → n ≤ 64
      → ((k : ℕ) → k < n → memory_bit m₁ (start_bit + k) ≡ memory_bit m₂ (start_bit + k))
      → load_bits start_bit m₁ 0 0 n ≡ load_bits start_bit m₂ 0 0 n
  load_bits-ext n m₁ m₂ h same =
      eq_of_bits 64 (load_bits start_bit m₁ 0 0 n) (load_bits start_bit m₂ 0 0 n)
        (load_bits-lt n 0 0 m₁ (omega arith) (omega arith))
        (load_bits-lt n 0 0 m₂ (omega arith) (omega arith))
        λ k h'. elim (Bool-cases (ltb k n)) [
          | inl e ↦
              let less = ltb→lt k n e in
              loaded_low n k m₁ less ∙ same k less ∙ sym (loaded_low n k m₂ less)
          | inr e ↦
              let above : n ≤ k = ground arith in
              loaded_high n k m₁ above ∙ sym (loaded_high n k m₂ above)
        ]

  pub load_bits-store_bits :
      (n val : ℕ) (mem : Memory)
      → n ≤ 64
      → load_bits start_bit (store_bits start_bit mem val 0 n) 0 0 n ≡ val % 2 ^ n
  load_bits-store_bits n val mem h =
      let mem' = store_bits start_bit mem val 0 n in
      let below = mod-lt val (two_pow_pos n) in
      let room : 2 ^ n ≤ 2 ^ 64 = pow-le-pow_right (omega arith) h in
      eq_of_bits 64 (load_bits start_bit mem' 0 0 n) (val % 2 ^ n)
        (load_bits-lt n 0 0 mem' (omega arith) (omega arith)) (omega (arith, below, room))
        λ k h'. elim (Bool-cases (ltb k n)) [
          | inl e ↦
              let less = ltb→lt k n e in
              loaded_low n k mem' less
              ∙ store_bits-field n 0 val k mem (omega arith) (omega arith)
              ∙ sym (bit-mod val n k less)
          | inr e ↦
              let above : n ≤ k = ground arith in
              loaded_high n k mem' above ∙ sym (bit_of_small n (val % 2 ^ n) k below above)
        ]
