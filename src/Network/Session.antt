-- ===== src/Network/Session.antt =====
-- numtoy-core/src/network.rs: the two loops that read a stream, `handle_worker_connection` on the worker
-- and the receive thread on the coordinator. A stream is all the bytes that come before it ends.
pub mod Whole
use num_toy.Prelude.{
  ℕ, zero, suc, ◌+◌, List, [], ◌∷◌, ◌++◌, Outcome, ok, refused, fault, ◌==◌, ◌&&◌, Bool, true,
  false, if◌then◌else◌, length,
}
use num_toy.Network.Tiles.{Tile, TileResult}
use num_toy.Network.Wire.{tag_tile_req, tag_tile_resp, decode_tile_resp, process_tile_request, Read}
use num_toy.Network.Coordinator.{WorkerConn, insert_result}

-- The responses written so far grow. A tag other than a request, and an error, end the loop. Each
-- round reads at least the tag, so that the length of the stream is fuel enough.
unfoldable pub worker_rounds : ℕ → List ℕ → List ℕ → List ℕ
worker_rounds zero stream out = out
worker_rounds (suc fuel) [] out = out
worker_rounds (suc fuel) (tag ∷ stream) out =
    let next : List ℕ = elim (process_tile_request stream) [
      | ok (resp, rest) ↦ worker_rounds fuel rest (out ++ resp)
      | refused ↦ out
      | fault ↦ out
    ] in
    if tag == tag_tile_req then next else out

unfoldable pub handle_worker_connection : List ℕ → List ℕ
handle_worker_connection stream = worker_rounds (length stream) stream []

-- `alive` is what each round loads from the flag, which `shutdown` clears in another thread. The loop
-- goes on after a response that ends too early, and finds the stream at its end.
unfoldable pub receive_rounds : (ℕ → Bool) → ℕ → ℕ → List ℕ → List TileResult → List TileResult
receive_rounds alive round zero stream results = results
receive_rounds alive round (suc fuel) [] results = results
receive_rounds alive round (suc fuel) (tag ∷ stream) results =
    let next : List TileResult = elim (decode_tile_resp stream) [
      | ok (res, rest) ↦ receive_rounds alive (suc round) fuel rest (insert_result res results)
      | refused ↦ results
      | fault ↦ results
    ] in
    if alive round && tag == tag_tile_resp then next else results

-- the receive thread, which clears the flag at its end
unfoldable pub receive : (ℕ → Bool) → List ℕ → WorkerConn → WorkerConn
receive alive stream conn = record conn {
  alive = false;
  results = receive_rounds alive 0 (length stream) stream conn.results;
}
