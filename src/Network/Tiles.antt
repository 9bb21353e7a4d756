-- ===== src/Network/Tiles.antt =====
-- numtoy-core/src/network.rs: cutting an array operation into tiles, and putting results together.
pub mod Cover
pub mod Join
pub mod Elementwise
use num_toy.Prelude.{
  ℕ, zero, suc, ◌+◌, ◌-◌, ◌*◌, ◌/◌, ◌%◌, ◌^◌, Bool, true, false, ◌||◌, Option, none, some, List, [],
  ◌∷◌, ◌++◌, Outcome, ok, refused, fault, ◌>>=◌, min, leb, ltb, ◌==◌, if◌then◌else◌, length,
  get_elem?, replicate, take, drop,
}
use num_toy.Scalar.{DataType}
use num_toy.Ir.{Variable, as_slice}
use num_toy.Graph
use num_toy.Graph.{Node, ArenaGraph}

abbrev pub local_tile_threshold : ℕ
local_tile_threshold = 2 ^ 20

pub record Tile : Type 0 where
  pub id : ℕ
  pub elem_start : ℕ
  pub elem_count : ℕ
  pub bits : ℕ
  pub input_bufs : List (List ℕ)

pub record TileResult : Type 0 where
  pub id : ℕ
  pub elem_count : ℕ
  pub bits : ℕ
  pub output : List ℕ

-- `input_nodes.iter().any(|&(_, vid)| vid == *id)`
unfoldable pub has_var : List (ℕ × ℕ) → ℕ → Bool
has_var [] id = false
has_var ((nid, vid) ∷ rest) id = vid == id || has_var rest id

unfoldable pub note_input : ℕ → Node → List (ℕ × ℕ) → List (ℕ × ℕ)
note_input nid (Node.variable v) seen = if has_var seen v.id then seen else seen ++ (nid, v.id) ∷ []
note_input nid (Node.constant _) seen = seen
note_input nid _ seen = seen

-- the input nodes with the ids of their variables, from node `nid` on
unfoldable pub input_nodes : ℕ → List Node → List (ℕ × ℕ) → List (ℕ × ℕ)
input_nodes nid [] seen = seen
input_nodes nid (n ∷ ns) seen = input_nodes (suc nid) ns (note_input nid n seen)

-- the part of one buffer that a tile needs
unfoldable pub tile_slice : ℕ → ℕ → ℕ → List ℕ → List ℕ
tile_slice offset count bytes_per_elem src =
    let start_byte = offset * bytes_per_elem in
    let end_byte = min ((offset + count) * bytes_per_elem) (length src) in
    if ltb start_byte (length src)
    then take (end_byte - start_byte) (drop start_byte src)
    else replicate (count * bytes_per_elem) 0

unfoldable pub node_slice : ℕ → ℕ → ℕ → Option Node → List (List ℕ)
node_slice offset count bytes_per_elem (some (Node.variable v)) =
    tile_slice offset count bytes_per_elem (as_slice v.packed_data) ∷ []
node_slice offset count bytes_per_elem (some (Node.constant _)) = []
node_slice offset count bytes_per_elem (some _) = []
node_slice offset count bytes_per_elem none = []

unfoldable pub tile_bufs : List Node → List (ℕ × ℕ) → ℕ → ℕ → ℕ → List (List ℕ)
tile_bufs nodes [] offset count bytes_per_elem = []
tile_bufs nodes ((nid, vid) ∷ rest) offset count bytes_per_elem =
    node_slice offset count bytes_per_elem (get_elem? nodes nid)
    ++ tile_bufs nodes rest offset count bytes_per_elem

unfoldable pub tile_bits : DataType → ℕ
tile_bits (DataType.float b) = b
tile_bits (DataType.int b) = b
tile_bits _ = 64

unfoldable pub bytes_of : ℕ → ℕ
bytes_of bits = (bits + 7) / 8

-- `base_size + if part_idx < remainder { 1 } else { 0 }`
unfoldable pub part_size : ℕ → ℕ → ℕ → ℕ
part_size base_size remainder part_idx = base_size + (if ltb part_idx remainder then 1 else 0)

-- The loop over the parts that are left, from `part_idx` on; `ctr` is `TILE_ID_CTR`, a u64.
module _ (nodes : List Node) (inputs : List (ℕ × ℕ)) (bits base_size remainder : ℕ) where
  unfoldable pub cut : ℕ → ℕ → ℕ → ℕ → List Tile
  cut zero part_idx offset ctr = []
  cut (suc left) part_idx offset ctr =
      let count = part_size base_size remainder part_idx in
      elim (count == 0) [
        | true ↦ cut left (suc part_idx) offset ctr
        | false ↦
            record {
              id = ctr;
              elem_start = offset;
              elem_count = count;
              bits = bits;
              input_bufs = tile_bufs nodes inputs offset count (bytes_of bits);
            }
            ∷ cut left (suc part_idx) (offset + count) ((ctr + 1) % 2 ^ 64)
      ]

-- `refused` is `None`. The panics of the size and type queries are faults.
unfoldable pub decompose : ArenaGraph → ℕ → ℕ → Outcome (List Tile)
decompose graph num_nodes ctr =
    if num_nodes == 0
    then refused
    else Graph.size graph graph.root >>= λ size.
        if leb size local_tile_threshold
        then refused
        else Graph.data_type graph graph.root >>= λ dtype.
            let total_parts = min (num_nodes + 1) size in
            ok (
              cut graph.nodes (input_nodes 0 graph.nodes []) (tile_bits dtype) (size / total_parts)
                (size % total_parts) total_parts 0 0 ctr)

-- `remote_results.get(&tile.id)`, on the results as an association list
unfoldable pub find_result : List TileResult → ℕ → Option TileResult
find_result [] id = none
find_result (r ∷ rs) id = if r.id == id then some r else find_result rs id

abbrev pub result_bytes : Option TileResult → List ℕ
result_bytes none = []
result_bytes (some r) = r.output

unfoldable pub remote_outputs : List TileResult → List Tile → List ℕ
remote_outputs results [] = []
remote_outputs results (t ∷ ts) =
    result_bytes (find_result results t.id) ++ remote_outputs results ts

-- `tile_order[1..]` panics on an empty slice.
unfoldable pub reassemble : List ℕ → List TileResult → List Tile → Outcome (List ℕ)
reassemble local_output remote_results [] = fault
reassemble local_output remote_results (local ∷ tiles) =
    ok (local_output ++ remote_outputs remote_results tiles)
