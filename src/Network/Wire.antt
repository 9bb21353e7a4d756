-- ===== src/Network/Wire.antt =====
-- numtoy-core/src/network.rs: the messages between coordinator and worker. A stream is the list of
-- its bytes; `refused` is the I/O error of a stream that ends too early.
pub mod Exchange
use num_toy.Prelude.{
  ℕ, zero, suc, ◌+◌, ◌-◌, ◌*◌, ◌/◌, Bool, true, false, List, [], ◌∷◌, ◌++◌, Outcome, ok, refused,
  ◌>>=◌, min, leb, if◌then◌else◌, length, replicate, take, drop, le_bytes, of_le_bytes,
}
use num_toy.Network.Tiles.{Tile, TileResult, bytes_of}

abbrev pub tag_tile_req : ℕ
tag_tile_req = 0x01

abbrev pub tag_tile_resp : ℕ
tag_tile_resp = 0x02

abbrev pub Read : Type 0 → Type 0
Read A = Outcome (A × List ℕ)

unfoldable pub read_exact : ℕ → List ℕ → Read (List ℕ)
read_exact n stream = if leb n (length stream) then ok (take n stream, drop n stream) else refused

unfoldable pub read_u32 : List ℕ → Read ℕ
read_u32 stream = do (b, rest) ← read_exact 4 stream; ok (of_le_bytes b, rest)

unfoldable pub read_u64 : List ℕ → Read ℕ
read_u64 stream = do (b, rest) ← read_exact 8 stream; ok (of_le_bytes b, rest)

unfoldable pub encode_bufs : List (List ℕ) → List ℕ
encode_bufs [] = []
encode_bufs (buf ∷ bufs) = le_bytes 4 (length buf) ++ (buf ++ encode_bufs bufs)

unfoldable pub encode_tile_req : Tile → List ℕ
encode_tile_req tile =
    tag_tile_req ∷ le_bytes 8 tile.id
    ++ (le_bytes 4 tile.elem_count
        ++ (le_bytes 4 tile.bits
            ++ (le_bytes 4 (length tile.input_bufs) ++ encode_bufs tile.input_bufs)))

-- the stream after the tag
unfoldable pub decode_tile_resp : List ℕ → Read TileResult
decode_tile_resp stream = do
  (tile_id, s₁) ← read_u64 stream
  (elem_count, s₂) ← read_u32 s₁
  (bits, s₃) ← read_u32 s₂
  (data_len, s₄) ← read_u32 s₃
  (output, s₅) ← read_exact data_len s₄
  ok (record { id = tile_id; elem_count = elem_count; bits = bits; output = output }, s₅)

unfoldable pub read_bufs : ℕ → List ℕ → Read (List (List ℕ))
read_bufs zero stream = ok ([], stream)
read_bufs (suc n) stream = do
  (len, s₁) ← read_u32 stream
  (buf, s₂) ← read_exact len s₁
  (bufs, s₃) ← read_bufs n s₂
  ok (buf ∷ bufs, s₃)

-- the first input, cut or filled with zeros to the size of the tile
unfoldable pub tile_output : ℕ → List (List ℕ) → List ℕ
tile_output size [] = replicate size 0
tile_output size (first ∷ bufs) =
    take (min size (length first)) first ++ replicate (size - min size (length first)) 0

unfoldable pub encode_tile_resp : ℕ → ℕ → ℕ → List ℕ → List ℕ
encode_tile_resp tile_id elem_count bits output =
    tag_tile_resp ∷ le_bytes 8 tile_id
    ++ (le_bytes 4 elem_count ++ (le_bytes 4 bits ++ (le_bytes 4 (length output) ++ output)))

-- the stream after the tag; the answer is the response's bytes
unfoldable pub process_tile_request : List ℕ → Read (List ℕ)
process_tile_request stream = do
  (tile_id, s₁) ← read_u64 stream
  (elem_count, s₂) ← read_u32 s₁
  (bits, s₃) ← read_u32 s₂
  (num_inputs, s₄) ← read_u32 s₃
  (input_bufs, s₅) ← read_bufs num_inputs s₄
  let output = tile_output (elem_count * bytes_of bits) input_bufs
  ok (encode_tile_resp tile_id elem_count bits output, s₅)
