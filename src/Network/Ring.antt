-- ===== src/Network/Ring.antt =====
-- numtoy-core/src/network.rs: `RingBuffer`, as its one producer and one consumer see it. The two
-- counters are u64 and wrap; the capacity is a power of two, so `& (RING_CAP - 1)` is `% ring_cap`.
pub mod Cells
pub mod Fifo
use num_toy.Prelude.{
  ℕ, zero, suc, ◌+◌, ◌-◌, ◌*◌, ◌%◌, ◌^◌, Bool, true, false, List, [], ◌∷◌, ◌++◌, min, leb, ltb,
  ◌==◌, if◌then◌else◌, length, set, replicate, take, drop,
}

abbrev pub ring_cap : ℕ
ring_cap = 4 * 1024 * 1024

pub record RingBuffer : Type 0 where
  pub cells : List ℕ
  pub head : ℕ
  pub tail : ℕ

-- `RingBuffer::new`, for a given capacity
unfoldable pub empty_ring : ℕ → RingBuffer
empty_ring n = record { cells = replicate n 0; head = 0; tail = 0 }

unfoldable pub new : RingBuffer
new = empty_ring ring_cap

-- `copy_nonoverlapping` of bytes into the buffer from the index `start` on
unfoldable pub copy : List ℕ → ℕ → List ℕ → List ℕ
copy cells start [] = cells
copy cells start (b ∷ bs) = copy (set cells start b) (suc start) bs

-- `wrapping_sub` and `wrapping_add` of u64
abbrev pub wrapping_sub : ℕ → ℕ → ℕ
wrapping_sub a b = (a + 2 ^ 64 - b) % 2 ^ 64

abbrev pub wrapping_add : ℕ → ℕ → ℕ
wrapping_add a b = (a + b) % 2 ^ 64

-- the copy or the two copies that a push makes
unfoldable pub store_bytes : List ℕ → ℕ → List ℕ → List ℕ
store_bytes cells start bytes =
    let first = ring_cap - start in
    if leb (start + length bytes) ring_cap
    then copy cells start bytes
    else copy (copy cells start (take first bytes)) 0 (drop first bytes)

unfoldable pub push : RingBuffer → List ℕ → Bool × RingBuffer
push r bytes =
    let used = wrapping_sub r.head r.tail in
    if ltb ring_cap (used + length bytes) then (false, r) else (
      true,
      record r {
        cells = store_bytes r.cells (r.head % ring_cap) bytes;
        head = wrapping_add r.head (length bytes);
      },
    )

-- the slice or the two slices that a drain reads
unfoldable pub load_bytes : List ℕ → ℕ → ℕ → List ℕ
load_bytes cells start n =
    let first = ring_cap - start in
    if leb (start + n) ring_cap
    then take n (drop start cells)
    else take first (drop start cells) ++ take (n - first) cells

-- `out` is the vector that the source extends.
unfoldable pub drain : RingBuffer → List ℕ → ℕ → ℕ × List ℕ × RingBuffer
drain r out max =
    let available = wrapping_sub r.head r.tail in
    let to_read = min available max in
    if to_read == 0 then (0, out, r) else (
      to_read,
      out ++ load_bytes r.cells (r.tail % ring_cap) to_read,
      record r { tail = wrapping_add r.tail to_read },
    )
