-- ===== src/Tests/Connections.antt =====
-- The connections of the network on small inputs.
use num_toy.Prelude.{ℕ, ◌*◌, ◌<◌, ◌≡◌, refl, true, some, ok, [], ◌∷◌, arith, inl, inr}
use num_toy.Network.Ring.{new}
use num_toy.Network.Tiles.{Tile, TileResult, bytes_of, find_result, reassemble}
use num_toy.Network.Tiles.Join.{all_bytes}
use num_toy.Network.Wire.Exchange.{IsSendable, output_of}
use num_toy.Network.Coordinator.{WorkerConn, collect}
use num_toy.Network.Coordinator.Live.{collect-arrived}
use num_toy.Network.Session.{handle_worker_connection, receive}
use num_toy.Network.Session.Whole.{requests, reassemble-receive}

abbrev sent_tile : ℕ → Tile
sent_tile id = record {
  id = id;
  elem_start = 2 * id;
  elem_count = 2;
  bits = 8;
  input_bufs = (7 ∷ 9 ∷ []) ∷ [];
}

abbrev result_five : TileResult
result_five = record { id = 5; elem_count = 1; bits = 8; output = 3 ∷ [] }

abbrev connected : WorkerConn
connected = record { ring = new; alive = true; results = [] }

collect-arrived_example :
    (r : TileResult) × (find_result
        (collect (connected ∷ []) (4 ∷ 5 ∷ []) ([] ∷ ((0, result_five) ∷ []) ∷ []))
        5
      ≡ some r)
collect-arrived_example =
    collect-arrived (connected ∷ []) (4 ∷ 5 ∷ []) ([] ∷ []) [] ((0, result_five) ∷ []) 0 result_five
      (inr (inl refl)) (omega arith) (inl refl)

sent_tile-IsSendable : (id : ℕ) → id < 256 → IsSendable (sent_tile id)
unfolding bytes_of
sent_tile-IsSendable id h = record {
  id_small = omega arith;
  count_small = omega arith;
  bits_small = omega arith;
  few_bufs = omega arith;
  small_bufs = (omega arith, tt);
  small_output = omega arith;
}

reassemble-receive_example :
    reassemble
      (output_of (sent_tile 0))
      (receive
        (λ round. true)
        (handle_worker_connection (requests (sent_tile 1 ∷ sent_tile 2 ∷ []) (0xFF ∷ [])))
        connected).results
      (sent_tile 0 ∷ sent_tile 1 ∷ sent_tile 2 ∷ [])
    ≡ ok (all_bytes output_of (sent_tile 0 ∷ sent_tile 1 ∷ sent_tile 2 ∷ []))
reassemble-receive_example =
    reassemble-receive (sent_tile 0) (sent_tile 1 ∷ sent_tile 2 ∷ []) (0xFF ∷ []) (λ round. true)
      connected (sent_tile-IsSendable 1 (omega arith), (sent_tile-IsSendable 2 (omega arith), tt))
      ((omega arith, tt), (tt, tt)) (omega arith) (λ round h. refl)
