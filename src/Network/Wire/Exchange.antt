-- ===== src/Network/Wire/Exchange.antt =====
-- numtoy-core/src/network.rs: a tile goes to a worker and its result comes back.
use num_toy.Prelude.{
  ℕ, zero, suc, ◌-◌, ◌*◌, ◌^◌, ◌<◌, ◌≡◌, refl, ◌∙◌, ap, true, List, [], ◌∷◌, ◌++◌, arith, ok, ◌>>=◌,
  min, leb, length, take, drop, le_bytes, of_le_bytes, of_le_bytes-le_bytes, length-append,
  length-take, length-replicate, take-append, drop-append, append_assoc, bind-ok,
}
use num_toy.Network.Tiles.{Tile, TileResult, bytes_of}
use num_toy.Network.Wire.{
  read_exact, read_u32, read_u64, encode_bufs, encode_tile_req, decode_tile_resp, read_bufs,
  tile_output, encode_tile_resp, process_tile_request,
}

read_exact-append : (xs ys : List ℕ) → read_exact (length xs) (xs ++ ys) ≡ ok (xs, ys)
unfolding read_exact
read_exact-append xs ys =
    let fits : leb (length xs) (length (xs ++ ys)) ≡ true = ground (arith, length-append xs ys) in
    rw (fits, take-append xs ys, drop-append xs ys)

read_u32-write : (v : ℕ) (s : List ℕ) → v < 2 ^ 32 → read_u32 (le_bytes 4 v ++ s) ≡ ok (v, s)
unfolding read_u32
read_u32-write v s h =
    ap (λ m. m >>= λ (b, rest). ok (of_le_bytes b, rest)) (read_exact-append (le_bytes 4 v) s)
    ∙ ap (λ n. ok (n, s)) (of_le_bytes-le_bytes 4 v h)

read_u64-write : (v : ℕ) (s : List ℕ) → v < 2 ^ 64 → read_u64 (le_bytes 8 v ++ s) ≡ ok (v, s)
unfolding read_u64
read_u64-write v s h =
    ap (λ m. m >>= λ (b, rest). ok (of_le_bytes b, rest)) (read_exact-append (le_bytes 8 v) s)
    ∙ ap (λ n. ok (n, s)) (of_le_bytes-le_bytes 8 v h)

-- A buffer's length goes over the wire as a u32.
abbrev pub AllSmall : List (List ℕ) → Type 0
AllSmall [] = Unit
AllSmall (b ∷ bs) = (length b < 2 ^ 32) × AllSmall bs

read_bufs-write :
    (bufs : List (List ℕ)) (rest : List ℕ)
    → AllSmall bufs
    → read_bufs (length bufs) (encode_bufs bufs ++ rest) ≡ ok (bufs, rest)
unfolding read_bufs encode_bufs
read_bufs-write [] rest h = refl
read_bufs-write (b ∷ bs) rest (h, hs) =
    let flat : encode_bufs (b ∷ bs) ++ rest
        ≡ le_bytes 4 (length b) ++ (b ++ (encode_bufs bs ++ rest)) =
      append_assoc (le_bytes 4 (length b)) (b ++ encode_bufs bs) rest
      ∙ ap (λ s. le_bytes 4 (length b) ++ s) (append_assoc b (encode_bufs bs) rest) in
    ap (read_bufs (suc (length bs))) flat
    ∙ bind-ok _ (read_u32-write (length b) (b ++ (encode_bufs bs ++ rest)) h) (
        bind-ok _ (read_exact-append b (encode_bufs bs ++ rest))
          (bind-ok _ (read_bufs-write bs rest hs) refl))

pub length-tile_output : (size : ℕ) (bufs : List (List ℕ)) → length (tile_output size bufs) ≡ size
unfolding tile_output
length-tile_output size [] = length-replicate size zero
length-tile_output size (first ∷ bufs) =
    length-append (take (min size (length first)) first) _
    ∙ omega (
      arith,
      length-take (min size (length first)) first,
      length-replicate (size - min size (length first)) zero,
    )

pub decode_tile_resp-encode :
    (id count bits : ℕ) (output rest : List ℕ)
    → id < 2 ^ 64
    → count < 2 ^ 32
    → bits < 2 ^ 32
    → length output < 2 ^ 32
    → decode_tile_resp (drop 1 (encode_tile_resp id count bits output) ++ rest)
      ≡ ok (record { id = id; elem_count = count; bits = bits; output = output }, rest)
unfolding decode_tile_resp encode_tile_resp
decode_tile_resp-encode id count bits output rest hi hc hb hl =
    let size = le_bytes 4 (length output) in
    let flat : drop 1 (encode_tile_resp id count bits output) ++ rest
        ≡ le_bytes 8 id ++ (le_bytes 4 count ++ (le_bytes 4 bits ++ (size ++ (output ++ rest)))) =
      simp append_assoc in
    ap decode_tile_resp flat
    ∙ bind-ok _ (read_u64-write id _ hi) (
        bind-ok _ (read_u32-write count _ hc) (
          bind-ok _ (read_u32-write bits _ hb) (
            bind-ok _ (read_u32-write (length output) _ hl)
              (bind-ok _ (read_exact-append output rest) refl))))

-- The numbers of a tile fit the fields of its messages.
pub record IsSendable (t : Tile) : Type 0 where
  pub id_small : t.id < 2 ^ 64
  pub count_small : t.elem_count < 2 ^ 32
  pub bits_small : t.bits < 2 ^ 32
  pub few_bufs : length t.input_bufs < 2 ^ 32
  pub small_bufs : AllSmall t.input_bufs
  pub small_output : t.elem_count * bytes_of t.bits < 2 ^ 32

abbrev pub output_of : Tile → List ℕ
output_of t = tile_output (t.elem_count * bytes_of t.bits) t.input_bufs

pub process-encode :
    (t : Tile) (rest : List ℕ)
    → IsSendable t
    → process_tile_request (drop 1 (encode_tile_req t) ++ rest)
      ≡ ok (encode_tile_resp t.id t.elem_count t.bits (output_of t), rest)
unfolding process_tile_request encode_tile_req
process-encode t rest s =
    let n = le_bytes 4 (length t.input_bufs) in
    let flat : drop 1 (encode_tile_req t) ++ rest
        ≡ le_bytes 8 t.id
          ++ (le_bytes 4 t.elem_count
              ++ (le_bytes 4 t.bits ++ (n ++ (encode_bufs t.input_bufs ++ rest)))) =
      simp append_assoc in
    ap process_tile_request flat
    ∙ bind-ok _ (read_u64-write t.id _ s.id_small) (
        bind-ok _ (read_u32-write t.elem_count _ s.count_small) (
          bind-ok _ (read_u32-write t.bits _ s.bits_small) (
            bind-ok _ (read_u32-write (length t.input_bufs) _ s.few_bufs)
              (bind-ok _ (read_bufs-write t.input_bufs rest s.small_bufs) refl))))

-- the result that the coordinator must get back
abbrev pub result_of : Tile → TileResult
result_of t = record { id = t.id; elem_count = t.elem_count; bits = t.bits; output = output_of t }

-- A worker that reads the request of a tile whose numbers fit their fields reads exactly that
-- request, whatever follows it, and the coordinator that reads the worker's response gets the tile's
-- id, element count and width back, with the tile's first input cut or filled with zeros to exactly
-- `elem_count` elements.
pub exchange :
    (t : Tile) (more_requests more_responses : List ℕ)
    → IsSendable t
    → (response : List ℕ) × (process_tile_request (drop 1 (encode_tile_req t) ++ more_requests)
        ≡ ok (response, more_requests))
      × (decode_tile_resp (drop 1 response ++ more_responses) ≡ ok (result_of t, more_responses))
      × (length (output_of t) ≡ t.elem_count * bytes_of t.bits)
exchange t more_requests more_responses s =
    let size = length-tile_output (t.elem_count * bytes_of t.bits) t.input_bufs in
    (
      encode_tile_resp t.id t.elem_count t.bits (output_of t),
      process-encode t more_requests s,
      decode_tile_resp-encode t.id t.elem_count t.bits (output_of t) more_responses s.id_small
          s.count_small s.bits_small (omega (arith, size, s.small_output)),
      size,
    )
