-- ===== src/Kernel/Packed/Bytes.antt =====
-- numtoy-core/src/fuser.rs: numbers of whole bytes in memory.
use num_toy.Prelude.{
  ℕ, zero, suc, ◌+◌, ◌*◌, ◌/◌, ◌%◌, ◌≤◌, ◌<◌, ◌≡◌, ◌≢◌, ◌⊎◌, inl, refl, sym, ap, ap₂, ◌∙◌, List, [],
  ◌∷◌, ◌==◌, arith, length, length-le_bytes, le_bytes, of_le_bytes, bytes_bound, true, false,
  mod-mul,
}
use num_toy.Kernel.Packed.{Memory, write, write_bytes, read_bytes}

pub write_self : (mem : Memory) (a byte : ℕ) → write mem a byte a ≡ byte
unfolding write
write_self mem a byte = let e : (a == a) ≡ true = ground arith in rw e refl

pub write_ne : (mem : Memory) (a byte k : ℕ) → k ≢ a → write mem a byte k ≡ mem k
unfolding write
write_ne mem a byte k h = let e : (k == a) ≡ false = ground arith in rw e refl

pub write_bytes-other :
    (bs : List ℕ) (mem : Memory) (a k : ℕ)
    → (k < a) ⊎ (a + length bs ≤ k)
    → write_bytes mem a bs k ≡ mem k
unfolding write_bytes
write_bytes-other [] mem a k h = refl
write_bytes-other (b ∷ bs) mem a k h =
    write_bytes-other bs (write mem a b) (suc a) k (omega (arith, h))
    ∙ write_ne mem a b k (λ e. omega (arith, h, e))

pub read_bytes-ext :
    (n : ℕ) (m₁ m₂ : Memory) (a : ℕ)
    → ((k : ℕ) → a ≤ k → k < a + n → m₁ k ≡ m₂ k)
    → read_bytes m₁ a n ≡ read_bytes m₂ a n
unfolding read_bytes
read_bytes-ext zero m₁ m₂ a h = refl
read_bytes-ext (suc n) m₁ m₂ a h =
    ap₂ (λ x xs. x ∷ xs) (h a (omega arith) (omega arith))
      (read_bytes-ext n m₁ m₂ (suc a) (λ k lo hi. h k (omega arith) (omega arith)))

read_bytes-write_bytes :
    (bs : List ℕ) (mem : Memory) (a : ℕ) → read_bytes (write_bytes mem a bs) a (length bs) ≡ bs
unfolding read_bytes write_bytes
read_bytes-write_bytes [] mem a = refl
read_bytes-write_bytes (b ∷ bs) mem a =
    ap₂ (λ x xs. x ∷ xs)
      (write_bytes-other bs (write mem a b) (suc a) a (inl (omega arith)) ∙ write_self mem a b)
      (read_bytes-write_bytes bs (write mem a b) (suc a))

bytes_bound_pos : (n : ℕ) → 0 < bytes_bound n
bytes_bound_pos zero = omega arith
bytes_bound_pos (suc n) = omega (arith, bytes_bound_pos n)

of_le_bytes_low : (n v : ℕ) → of_le_bytes (le_bytes n v) ≡ v % bytes_bound n
of_le_bytes_low zero v = omega arith
of_le_bytes_low (suc n) v =
    let parts : v ≡ v % 256 + 256 * (v / 256) = omega arith in
    ap (λ k. v % 256 + 256 * k) (of_le_bytes_low n (v / 256))
    ∙ sym (
        ap (λ k. k % (256 * bytes_bound n)) parts
        ∙ mod-mul (v % 256) 256 (v / 256) (bytes_bound n) (omega arith) (bytes_bound_pos n))

-- a number is read back from the bytes that it was written to
pub read_number :
    (n v : ℕ) (mem : Memory) (a : ℕ)
    → of_le_bytes (read_bytes (write_bytes mem a (le_bytes n v)) a n) ≡ v % bytes_bound n
read_number n v mem a =
    ap (λ k. of_le_bytes (read_bytes (write_bytes mem a (le_bytes n v)) a k))
      (sym (length-le_bytes n v))
    ∙ ap of_le_bytes (read_bytes-write_bytes (le_bytes n v) mem a)
    ∙ of_le_bytes_low n v
