-- ===== src/Network/Ring/Fifo.antt =====
-- numtoy-core/src/network.rs: the ring buffer is a bounded FIFO queue of bytes.
use num_toy.Prelude.{
  ℕ, zero, suc, ◌+◌, ◌-◌, ◌%◌, ◌^◌, ◌≤◌, ◌<◌, ◌≡◌, refl, sym, ◌∙◌, ap, ap₂, Bool, true, false, List,
  [], ◌∷◌, ◌++◌, arith, min, ltb, ltb→lt, ◌==◌, length, set, get_or, take, drop, length-set,
  get_or-set_self, get_or-set_ne, append_assoc, append-nil, length-replicate, take-append,
  drop-append, Bool-cases, inl, inr,
}
use num_toy.Network.Ring.{
  ring_cap, RingBuffer, empty_ring, new, push, drain, store_bytes, wrapping_sub, wrapping_add,
}
use num_toy.Network.Ring.Cells.{
  read, ring_write, read-add, length-read, length-ring_write, store_bytes-ring_write,
  load_bytes-read,
}

pub record IsRing (r : RingBuffer) : Type 0 where
  pub sized : length r.cells ≡ ring_cap
  pub head_small : r.head < 2 ^ 64
  pub tail_small : r.tail < 2 ^ 64
  pub fits : wrapping_sub r.head r.tail ≤ ring_cap

-- the bytes waiting, the oldest first
abbrev pub contents : RingBuffer → List ℕ
contents r = read r.cells r.tail (wrapping_sub r.head r.tail)

read-mod :
    (n : ℕ) (cells : List ℕ) (a b : ℕ)
    → a % ring_cap ≡ b % ring_cap
    → read cells a n ≡ read cells b n
read-mod zero cells a b e = refl
read-mod (suc n) cells a b e =
    ap₂ (λ k ys. get_or cells k 0 ∷ ys) e (read-mod n cells (suc a) (suc b) (omega (arith, e)))

-- A write ahead of the cells read, and less than a round ahead of them, does not touch them.
read-set :
    (n : ℕ) (cells : List ℕ) (i j b : ℕ)
    → i + n ≤ j
    → j < i + ring_cap
    → read (set cells (j % ring_cap) b) i n ≡ read cells i n
read-set zero cells i j b h k = refl
read-set (suc n) cells i j b h k =
    ap₂ (λ y ys. y ∷ ys)
      (get_or-set_ne cells (j % ring_cap) (i % ring_cap) b 0 (λ e. omega (arith, e)))
      (read-set n cells (suc i) j b (omega (arith, h)) (omega (arith, k)))

read-ring_write :
    (bs cells : List ℕ) (t n : ℕ)
    → length cells ≡ ring_cap
    → n + length bs ≤ ring_cap
    → read (ring_write cells (t + n) bs) t (n + length bs) ≡ read cells t n ++ bs
unfolding ring_write
read-ring_write [] cells t n c h =
    let e : n + 0 ≡ n = omega arith in ap (read cells t) e ∙ sym (append-nil (read cells t n))
read-ring_write (b ∷ bs) cells t n c h =
    let i = (t + n) % ring_cap in
    let cells' = set cells i b in
    let len : n + suc (length bs) ≡ suc n + length bs = omega arith in
    let pos : suc (t + n) ≡ t + suc n = omega arith in
    let one : n + 1 ≡ suc n = omega arith in
    let inside : i < length cells = omega (arith, c) in
    let last : read cells' t (suc n) ≡ read cells t n ++ b ∷ [] =
      ap (read cells' t) (sym one)
      ∙ read-add cells' t n 1
      ∙ ap₂ (λ xs y. xs ++ y ∷ []) (read-set n cells t (t + n) b (omega arith) (omega (arith, h)))
          (get_or-set_self cells i b 0 inside) in
    ap₂ (λ k p. read (ring_write cells' p bs) t k) len pos
    ∙ read-ring_write bs cells' t (suc n) (length-set cells i b ∙ c) (omega (arith, h))
    ∙ ap (λ xs. xs ++ bs) last
    ∙ append_assoc (read cells t n) (b ∷ []) bs

empty_ring-IsRing : (n : ℕ) → n ≡ ring_cap → IsRing (empty_ring n)
unfolding empty_ring
empty_ring-IsRing n e = record {
  sized = length-replicate n zero ∙ e;
  head_small = omega arith;
  tail_small = omega arith;
  fits = omega arith;
}

pub new-IsRing : IsRing new
unfolding new
new-IsRing = empty_ring-IsRing ring_cap refl

-- what a push promises of its answer and of the buffer it leaves
pub record Pushed (r : RingBuffer) (bytes : List ℕ) (out : Bool × RingBuffer) : Type 0 where
  pub valid : IsRing out.1
  -- Either the bytes are queued last,
  pub queued :
      out.0 ≡ true
      → (length (contents r) + length bytes ≤ ring_cap) × (contents out.1 ≡ contents r ++ bytes)
  -- or they do not fit, and nothing changes.
  pub refused : out.0 ≡ false → (ring_cap < length (contents r) + length bytes) × (out.1 ≡ r)

accepted :
    (r : RingBuffer) (bytes : List ℕ)
    → IsRing r
    → wrapping_sub r.head r.tail + length bytes ≤ ring_cap
    → let r' = record r {
      cells = store_bytes r.cells (r.head % ring_cap) bytes;
      head = wrapping_add r.head (length bytes);
    } in
      IsRing r' × (contents r' ≡ contents r ++ bytes)
accepted r bytes v room =
    let used = wrapping_sub r.head r.tail in
    let place : r.head % ring_cap ≡ (r.tail + used) % ring_cap =
      omega (arith, v.head_small, v.tail_small) in
    let small : length bytes ≤ ring_cap = omega (arith, room) in
    let stored : store_bytes r.cells (r.head % ring_cap) bytes
        ≡ ring_write r.cells (r.tail + used) bytes =
      ap (λ k. store_bytes r.cells k bytes) place
      ∙ store_bytes-ring_write bytes r.cells (r.tail + used) small in
    let grown : wrapping_sub (wrapping_add r.head (length bytes)) r.tail ≡ used + length bytes =
      omega (arith, room, v.head_small, v.tail_small) in
    (
      record {
        sized = ap length stored ∙ length-ring_write bytes r.cells (r.tail + used) ∙ v.sized;
        head_small = omega arith;
        tail_small = v.tail_small;
        fits = omega (arith, grown, room);
      },
      ap₂ (λ c n. read c r.tail n) stored grown
          ∙ read-ring_write bytes r.cells r.tail used v.sized room,
    )

-- A push into a valid ring either appends all its bytes to the queue, and does so exactly when they
-- fit into what is free, or it answers false and leaves the buffer as it is. The counters may wrap.
pub push-Pushed : (r : RingBuffer) (bytes : List ℕ) → IsRing r → Pushed r bytes (push r bytes)
unfolding push
push-Pushed r bytes v =
    let used = wrapping_sub r.head r.tail in
    let size = length-read r.cells r.tail used in
    elim (Bool-cases (ltb ring_cap (used + length bytes))) [
      | inl e ↦ rw e (record {
        valid = v;
        queued = λ t. cc;
        refused = λ f. (omega (arith, ltb→lt ring_cap (used + length bytes) e, size), refl);
      })
      | inr e ↦
          let room : used + length bytes ≤ ring_cap = ground arith in
          let (valid, queued) = accepted r bytes v room in
          rw e (record {
            valid = valid;
            queued = λ t. (omega (arith, room, size), queued);
            refused = λ f. cc;
          })
    ]

-- what a drain promises
pub record Drained (r : RingBuffer) (out : List ℕ) (max : ℕ) (result : ℕ × List ℕ × RingBuffer)
    : Type 0 where
  pub valid : IsRing result.2
  -- as many bytes as are waiting, and no more than `max`
  pub count : result.0 ≡ min (length (contents r)) max
  -- The oldest bytes go to the end of `out`, in order, and the others stay.
  pub moved : result.1 ≡ out ++ take result.0 (contents r)
  pub kept : contents result.2 ≡ drop result.0 (contents r)

take-read_lem : (cells : List ℕ) (i k m : ℕ) → k ≤ m → take k (read cells i m) ≡ read cells i k
take-read_lem cells i k m h =
    let e : m ≡ k + (m - k) = omega (arith, h) in
    ap (λ n. take k (read cells i n)) e
    ∙ ap (take k) (read-add cells i k (m - k))
    ∙ ap (λ n. take n (read cells i k ++ read cells (i + k) (m - k))) (sym (length-read cells i k))
    ∙ take-append (read cells i k) (read cells (i + k) (m - k))

drop-read_lem :
    (cells : List ℕ) (i k m : ℕ) → k ≤ m → drop k (read cells i m) ≡ read cells (i + k) (m - k)
drop-read_lem cells i k m h =
    let e : m ≡ k + (m - k) = omega (arith, h) in
    ap (λ n. drop k (read cells i n)) e
    ∙ ap (drop k) (read-add cells i k (m - k))
    ∙ ap (λ n. drop n (read cells i k ++ read cells (i + k) (m - k))) (sym (length-read cells i k))
    ∙ drop-append (read cells i k) (read cells (i + k) (m - k))

-- A drain of a valid ring takes the oldest bytes, as many as there are up to `max`, appends them to
-- `out` in order, and leaves the rest queued. The counters may wrap.
pub drain-Drained :
    (r : RingBuffer) (out : List ℕ) (max : ℕ) → IsRing r → Drained r out max (drain r out max)
unfolding drain
drain-Drained r out max v =
    let used = wrapping_sub r.head r.tail in
    let n = min used max in
    let size : length (contents r) ≡ used = length-read r.cells r.tail used in
    let le : n ≤ used = omega arith in
    elim (Bool-cases (n == 0)) [
      | inl e ↦
          let empty : n ≡ 0 = ground arith in
          rw e (record {
            valid = v;
            count = omega (arith, empty, size);
            moved = sym (append-nil out);
            kept = refl;
          })
      | inr e ↦
          let left : wrapping_sub r.head (wrapping_add r.tail n) ≡ used - n =
            omega (arith, v.head_small, v.tail_small, v.fits, le) in
          let place : wrapping_add r.tail n % ring_cap ≡ (r.tail + n) % ring_cap = omega arith in
          rw e (record {
            valid = record {
              sized = v.sized;
              head_small = v.head_small;
              tail_small = omega arith;
              fits = omega (arith, left, v.fits);
            };
            count = omega (arith, size);
            moved =
                ap (λ xs. out ++ xs)
                  (load_bytes-read r.cells r.tail n v.sized (omega (arith, le, v.fits))
                    ∙ sym (take-read_lem r.cells r.tail n used le));
            kept =
                ap (read r.cells (wrapping_add r.tail n)) left
                ∙ read-mod (used - n) r.cells (wrapping_add r.tail n) (r.tail + n) place
                ∙ sym (drop-read_lem r.cells r.tail n used le);
          })
    ]
