-- ===== src/Network/Ring/Cells.antt =====
-- The cells of the ring, read and written one at a time at a position that counts on without wrapping.
use num_toy.Prelude.{
  ℕ, zero, suc, ◌+◌, ◌-◌, ◌%◌, ◌≤◌, ◌<◌, ◌≡◌, refl, sym, ◌∙◌, ap, ap₂, List, [], ◌∷◌, ◌++◌, arith,
  leb, leb→le, length, set, get_or, get_elem?, get_elem?-some, get_or-of-get_elem?, some, take,
  drop, length-set, length-take, length-drop, take-append-drop, Bool-cases, inl, inr,
}
use num_toy.Network.Ring.{ring_cap, copy, store_bytes, load_bytes}

-- the `n` bytes from position `i` on
abbrev pub read : List ℕ → ℕ → ℕ → List ℕ
read cells i zero = []
read cells i (suc n) = get_or cells (i % ring_cap) 0 ∷ read cells (suc i) n

unfoldable pub ring_write : List ℕ → ℕ → List ℕ → List ℕ
ring_write cells i [] = cells
ring_write cells i (b ∷ bs) = ring_write (set cells (i % ring_cap) b) (suc i) bs

pub length-read : (cells : List ℕ) (i n : ℕ) → length (read cells i n) ≡ n
length-read cells i zero = refl
length-read cells i (suc n) = ap suc (length-read cells (suc i) n)

pub length-ring_write : (bs cells : List ℕ) (i : ℕ) → length (ring_write cells i bs) ≡ length cells
unfolding ring_write
length-ring_write [] cells i = refl
length-ring_write (b ∷ bs) cells i =
    length-ring_write bs (set cells (i % ring_cap) b) (suc i) ∙ length-set cells (i % ring_cap) b

-- One copy that does not pass the end writes the same cells.
copy-ring_write :
    (bs cells : List ℕ) (start i : ℕ)
    → start < ring_cap
    → i % ring_cap ≡ start
    → start + length bs ≤ ring_cap
    → copy cells start bs ≡ ring_write cells i bs
unfolding copy ring_write
copy-ring_write [] cells start i s e h = refl
copy-ring_write (b ∷ []) cells start i s e h = ap (λ k. set cells k b) (sym e)
copy-ring_write (b ∷ c ∷ bs) cells start i s e h =
    copy-ring_write (c ∷ bs) (set cells start b) (suc start) (suc i) (omega arith)
      (omega (arith, e)) (omega arith)
    ∙ ap (λ k. ring_write (set cells k b) (suc i) (c ∷ bs)) (sym e)

ring_write-append :
    (xs ys cells : List ℕ) (i : ℕ)
    → ring_write cells i (xs ++ ys) ≡ ring_write (ring_write cells i xs) (i + length xs) ys
unfolding ring_write
ring_write-append [] ys cells i = ap (λ k. ring_write cells k ys) (omega arith)
ring_write-append (x ∷ xs) ys cells i =
    ring_write-append xs ys (set cells (i % ring_cap) x) (suc i)
    ∙ ap (λ k. ring_write (ring_write (set cells (i % ring_cap) x) (suc i) xs) k ys) (omega arith)

-- The one or two copies of a push write the cells from its position on.
pub store_bytes-ring_write :
    (bs cells : List ℕ) (i : ℕ)
    → length bs ≤ ring_cap
    → store_bytes cells (i % ring_cap) bs ≡ ring_write cells i bs
unfolding store_bytes
store_bytes-ring_write bs cells i h =
    let start = i % ring_cap in
    elim (Bool-cases (leb (start + length bs) ring_cap)) [
      | inl e ↦ rw e (copy-ring_write bs cells start i (omega arith) refl (ground arith))
      | inr e ↦
          let over : ring_cap < start + length bs = ground arith in
          let first = ring_cap - start in
          let low = take first bs in
          let high = drop first bs in
          let size : length low ≡ first = length-take first bs ∙ omega (arith, over) in
          rw e (
            ap (λ c. copy c 0 high)
              (copy-ring_write low cells start i (omega arith) refl (omega (arith, size)))
            ∙ copy-ring_write high (ring_write cells i low) 0 (i + length low) (omega arith)
                (omega (arith, size)) (omega (arith, length-drop first bs, h))
            ∙ sym (ring_write-append low high cells i)
            ∙ ap (ring_write cells i) (take-append-drop first bs))
    ]

drop-get_elem? : (xs : List ℕ) (i x : ℕ) → get_elem? xs i ≡ some x → drop i xs ≡ x ∷ drop (suc i) xs
drop-get_elem? [] i x h = absurd (cc)
drop-get_elem? (y ∷ xs) zero x h = cc
drop-get_elem? (y ∷ xs) (suc i) x h = drop-get_elem? xs i x h

pub read-add :
    (cells : List ℕ) (i n m : ℕ) → read cells i (n + m) ≡ read cells i n ++ read cells (i + n) m
read-add cells i zero m =
    let e : 0 + m ≡ m = omega arith in
    let f : i ≡ i + 0 = omega arith in ap₂ (λ j k. read cells j k) f e
read-add cells i (suc n) m =
    let e : suc n + m ≡ suc (n + m) = omega arith in
    let f : suc i + n ≡ i + suc n = omega arith in
    ap (read cells i) e
    ∙ ap (λ ys. get_or cells (i % ring_cap) 0 ∷ ys)
        (read-add cells (suc i) n m ∙ ap (λ k. read cells (suc i) n ++ read cells k m) f)

take-read_step :
    (n : ℕ) (cells : List ℕ) (start i : ℕ)
    → i % ring_cap ≡ start
    → start < length cells
    → take n (drop (suc start) cells) ≡ read cells (suc i) n
    → take (suc n) (drop start cells) ≡ read cells i (suc n)
take-read_step n cells start i e h rest =
    let (x, at) = get_elem?-some cells start h in
    ap (take (suc n)) (drop-get_elem? cells start x at)
    ∙ ap₂ (λ y ys. y ∷ ys)
        (sym (get_or-of-get_elem? cells start x 0 at) ∙ ap (λ k. get_or cells k 0) (sym e)) rest

take-read :
    (n : ℕ) (cells : List ℕ) (start i : ℕ)
    → i % ring_cap ≡ start
    → start + n ≤ length cells
    → length cells ≡ ring_cap
    → take n (drop start cells) ≡ read cells i n
take-read zero cells start i e h c = refl
take-read (suc zero) cells start i e h c = take-read_step 0 cells start i e (omega (arith, h)) refl
take-read (suc (suc n)) cells start i e h c =
    take-read_step (suc n) cells start i e (omega (arith, h))
      (take-read (suc n) cells (suc start) (suc i) (omega (arith, e, h, c)) (omega (arith, h)) c)

-- The one or two slices of a drain are the cells from its position on.
pub load_bytes-read :
    (cells : List ℕ) (i n : ℕ)
    → length cells ≡ ring_cap
    → n ≤ ring_cap
    → load_bytes cells (i % ring_cap) n ≡ read cells i n
unfolding load_bytes
load_bytes-read cells i n c h =
    let start = i % ring_cap in
    elim (Bool-cases (leb (start + n) ring_cap)) [
      | inl e ↦
          rw e (take-read n cells start i refl (omega (arith, leb→le (start + n) ring_cap e, c)) c)
      | inr e ↦
          let over : ring_cap < start + n = ground arith in
          let first = ring_cap - start in
          rw e (
            ap₂ (λ xs ys. xs ++ ys) (take-read first cells start i refl (omega (arith, c)) c)
              (take-read (n - first) cells 0 (i + first) (omega arith) (omega (arith, c, h)) c)
            ∙ sym (read-add cells i first (n - first))
            ∙ ap (read cells i) (omega (arith, over)))
    ]
