-- ===== src/Prelude/Bytes.antt =====
-- Little-endian bytes (Rust's `to_le_bytes` and `from_le_bytes`) and 32-bit wrapping subtraction.
use Prim.Native.Nat.{ℕ, zero, suc, ◌+◌, ◌-◌, ◌*◌, ◌<◌, ◌^◌, ◌%◌, ◌/◌}
use mathlib.Core.Path.{◌≡◌, refl, ap}
use mathlib.Core.List.{List, [], ◌∷◌}
use native.Mathlib.Omega.{arith}
use num_toy.Prelude.Lists.{length}

-- the `n` low bytes of `v`
abbrev pub le_bytes : ℕ → ℕ → List ℕ
le_bytes zero v = []
le_bytes (suc n) v = v % 256 ∷ le_bytes n (v / 256)

abbrev pub of_le_bytes : List ℕ → ℕ
of_le_bytes [] = 0
of_le_bytes (b ∷ bs) = b + 256 * of_le_bytes bs

-- the bound below which `n` bytes hold a number
abbrev pub bytes_bound : ℕ → ℕ
bytes_bound zero = 1
bytes_bound (suc n) = 256 * bytes_bound n

pub of_le_bytes-le_bytes : (n v : ℕ) → v < bytes_bound n → of_le_bytes (le_bytes n v) ≡ v
of_le_bytes-le_bytes zero v h = omega arith
of_le_bytes-le_bytes (suc n) v h = omega (arith, of_le_bytes-le_bytes n (v / 256) (omega arith))

pub length-le_bytes : (n v : ℕ) → length (le_bytes n v) ≡ n
length-le_bytes zero v = refl
length-le_bytes (suc n) v = ap suc (length-le_bytes n (v / 256))

-- `a.wrapping_sub(b)` on i32, the result as its bit pattern
abbrev pub sub_i32 : ℕ → ℕ → ℕ
sub_i32 a b = (a % 2 ^ 32 + 2 ^ 32 - b % 2 ^ 32) % 2 ^ 32
