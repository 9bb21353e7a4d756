-- ===== src/Network/Session/Whole.antt =====
-- numtoy-core/src/network.rs: from the tiles of the coordinator through a worker and back to the output.
use num_toy.Prelude.{
  ℕ, zero, suc, ◌+◌, ◌*◌, ◌≤◌, ◌<◌, ◌≡◌, ◌≢◌, refl, sym, ap, ◌∙◌, List, [], ◌∷◌, ◌++◌, arith, ok,
  length, some, drop, ◌==◌, length-append, append_assoc, append-nil, true, false, Bool,
}
use num_toy.Network.Tiles.{Tile, TileResult, bytes_of, find_result, result_bytes, reassemble}
use num_toy.Network.Tiles.Join.{AllAnswered, all_bytes, reassemble-all}
use num_toy.Network.Wire.{tag_tile_req, tag_tile_resp, encode_tile_req, encode_tile_resp}
use num_toy.Network.Wire.Exchange.{
  IsSendable, result_of, output_of, length-tile_output, process-encode, decode_tile_resp-encode,
}
use num_toy.Network.Coordinator.{WorkerConn, insert_result}
use num_toy.Network.Coordinator.Live.{find_result-remove_ne}
use num_toy.Network.Session.{worker_rounds, handle_worker_connection, receive_rounds, receive}

-- the requests of the tiles, and what comes after them
abbrev pub requests : List Tile → List ℕ → List ℕ
requests [] ending = ending
requests (t ∷ ts) ending = encode_tile_req t ++ requests ts ending

-- The stream ends there, or goes on with something else than a request.
abbrev pub IsEnding : List ℕ → Type 0
IsEnding [] = Unit
IsEnding (tag ∷ rest) = tag ≢ tag_tile_req

-- The flag is set in the first `n` rounds.
abbrev pub AliveFor : ℕ → (ℕ → Bool) → Type 0
AliveFor n alive = (round : ℕ) → round < n → alive round ≡ true

abbrev pub AllSendable : List Tile → Type 0
AllSendable [] = Unit
AllSendable (t ∷ ts) = IsSendable t × AllSendable ts

request-cons : (t : Tile) → encode_tile_req t ≡ tag_tile_req ∷ drop 1 (encode_tile_req t)
unfolding encode_tile_req
request-cons t = refl

response : Tile → List ℕ
response t = encode_tile_resp t.id t.elem_count t.bits (output_of t)

response-cons : (t : Tile) → response t ≡ tag_tile_resp ∷ drop 1 (response t)
unfolding encode_tile_resp response
response-cons t = refl

responses : List Tile → List ℕ → List ℕ
responses [] rest = rest
responses (t ∷ ts) rest = response t ++ responses ts rest

-- A round reads one request and writes its response.
worker_round :
    (t : Tile) (fuel : ℕ) (more out : List ℕ)
    → IsSendable t
    → worker_rounds (suc fuel) (encode_tile_req t ++ more) out
      ≡ worker_rounds fuel more (out ++ response t)
unfolding worker_rounds response
worker_round t fuel more out h =
    ap (λ s. worker_rounds (suc fuel) (s ++ more) out) (request-cons t)
    ∙ rw (process-encode t more h, worker_rounds) refl

receive_round :
    (alive : ℕ → Bool) (round : ℕ) (t : Tile) (fuel : ℕ) (more : List ℕ) (results : List TileResult)
    → alive round ≡ true
    → IsSendable t
    → receive_rounds alive round (suc fuel) (response t ++ more) results
      ≡ receive_rounds alive (suc round) fuel more (insert_result (result_of t) results)
unfolding receive_rounds response
receive_round alive round t fuel more results on h =
    let size = length-tile_output (t.elem_count * bytes_of t.bits) t.input_bufs in
    let read =
      decode_tile_resp-encode t.id t.elem_count t.bits (output_of t) more h.id_small h.count_small
        h.bits_small (omega (arith, size, h.small_output)) in
    ap (λ s. receive_rounds alive round (suc fuel) (s ++ more) results) (response-cons t)
    ∙ rw (on, read, receive_rounds) refl

unfold_responses :
    (t : Tile) (ts : List Tile) (out : List ℕ)
    → (out ++ response t) ++ responses ts [] ≡ out ++ responses (t ∷ ts) []
unfolding responses
unfold_responses t ts out = append_assoc out (response t) (responses ts [])

-- the map after the results of the tiles, in the order of the responses
received : List Tile → List TileResult → List TileResult
received [] results = results
received (t ∷ ts) results = received ts (insert_result (result_of t) results)

worker_rounds-ending :
    (fuel : ℕ) (ending out : List ℕ) → IsEnding ending → worker_rounds fuel ending out ≡ out
unfolding worker_rounds
worker_rounds-ending zero ending out h = refl
worker_rounds-ending (suc fuel) [] out h = refl
worker_rounds-ending (suc fuel) (tag ∷ rest) out h =
    let other : (tag == tag_tile_req) ≡ false = ground arith in rw other refl

worker_rounds-requests :
    (ending : List ℕ)
    → IsEnding ending
    → (ts : List Tile) (fuel : ℕ) (out : List ℕ) → AllSendable ts
    → length ts ≤ fuel
    → worker_rounds fuel (requests ts ending) out ≡ out ++ responses ts []
worker_rounds-requests ending q (t ∷ ts) zero out h k = absurd (omega arith)
worker_rounds-requests ending q [] fuel out h k =
    worker_rounds-ending fuel ending out q ∙ unfold responses in (sym (append-nil out))
worker_rounds-requests ending q (t ∷ ts) (suc fuel) out (h, hs) k =
    let rest = worker_rounds-requests ending q ts fuel (out ++ response t) hs (omega arith) in
    worker_round t fuel (requests ts ending) out h ∙ rest ∙ unfold_responses t ts out

receive_rounds-responses :
    (alive : ℕ → Bool) (ts : List Tile) (round fuel : ℕ) (results : List TileResult)
    → AliveFor (round + length ts) alive
    → AllSendable ts
    → length ts ≤ fuel
    → receive_rounds alive round fuel (responses ts []) results ≡ received ts results
unfolding received responses
receive_rounds-responses alive [] round zero results on h k = unfold receive_rounds in refl
receive_rounds-responses alive [] round (suc fuel) results on h k = unfold receive_rounds in refl
receive_rounds-responses alive (t ∷ ts) round zero results on h k = absurd (omega arith)
receive_rounds-responses alive (t ∷ ts) round (suc fuel) results on (h, hs) k =
    receive_round alive round t fuel (responses ts []) results (on round (omega arith)) h
    ∙ receive_rounds-responses alive ts (suc round) fuel (insert_result (result_of t) results)
        (λ r less. on r (omega arith)) hs (omega arith)

enough_requests :
    (ending : List ℕ) (ts : List Tile) → length ts + length ending ≤ length (requests ts ending)
enough_requests ending [] = omega arith
enough_requests ending (t ∷ ts) =
    let more = requests ts ending in
    let whole : requests (t ∷ ts) ending ≡ tag_tile_req ∷ (drop 1 (encode_tile_req t) ++ more) =
      ap (λ s. s ++ more) (request-cons t) in
    omega (
      arith,
      ap length whole,
      length-append (drop 1 (encode_tile_req t)) more,
      enough_requests ending ts,
    )

enough_responses : (ts : List Tile) → length ts ≤ length (responses ts [])
unfolding responses
enough_responses [] = omega arith
enough_responses (t ∷ ts) =
    let rest = responses ts [] in
    let whole : response t ++ rest ≡ tag_tile_resp ∷ (drop 1 (response t) ++ rest) =
      ap (λ s. s ++ rest) (response-cons t) in
    omega (arith, ap length whole, length-append (drop 1 (response t)) rest, enough_responses ts)

abbrev pub IsFresh : ℕ → List Tile → Type 0
IsFresh id [] = Unit
IsFresh id (t ∷ ts) = (t.id ≢ id) × IsFresh id ts

abbrev pub DistinctIds : List Tile → Type 0
DistinctIds [] = Unit
DistinctIds (t ∷ ts) = IsFresh t.id ts × DistinctIds ts

module _ (id : ℕ) where
  find_result-insert_ne :
      (r : TileResult) (rs : List TileResult)
      → r.id ≢ id
      → find_result (insert_result r rs) id ≡ find_result rs id
  unfolding insert_result find_result
  find_result-insert_ne r rs ne =
      let test : (r.id == id) ≡ false = ground arith in
      rw test (find_result-remove_ne id rs r.id ne)

  received-other :
      (ts : List Tile) (rs : List TileResult)
      → IsFresh id ts
      → find_result (received ts rs) id ≡ find_result rs id
  unfolding received
  received-other [] rs h = refl
  received-other (t ∷ ts) rs (ne, h) =
      received-other ts (insert_result (result_of t) rs) h
      ∙ find_result-insert_ne (result_of t) rs ne

find_result-insert_self :
    (r : TileResult) (rs : List TileResult) → find_result (insert_result r rs) r.id ≡ some r
unfolding insert_result find_result
find_result-insert_self r rs = let test : (r.id == r.id) ≡ true = ground arith in rw test refl

received-AllAnswered :
    (ts : List Tile) (rs : List TileResult)
    → DistinctIds ts
    → AllAnswered output_of (received ts rs) ts
unfolding received
received-AllAnswered [] rs h = tt
received-AllAnswered (t ∷ ts) rs (fresh, h) =
    let rs' = insert_result (result_of t) rs in
    let found : find_result (received ts rs') t.id ≡ some (result_of t) =
      received-other t.id ts rs' fresh ∙ find_result-insert_self (result_of t) rs in
    (ap result_bytes found, received-AllAnswered ts rs' h)

-- The length of the stream is fuel enough for all the requests.
handled :
    (ending : List ℕ) (ts : List Tile)
    → IsEnding ending
    → AllSendable ts
    → handle_worker_connection (requests ts ending) ≡ responses ts []
unfolding handle_worker_connection
handled ending ts q h =
    worker_rounds-requests ending q ts (length (requests ts ending)) [] h
      (omega (arith, enough_requests ending ts))

-- The requests of tiles with different ids are answered by a worker with a stream from which the
-- coordinator's receive thread gets the result of every tile, if the connection is alive for as many
-- rounds as there are tiles, that is, if it is shut down only after them: the reassembled output is the
-- bytes of the local tile and of every remote tile, in order. It does not matter what follows the
-- requests, a shutdown message or the end of the stream, nor what the thread's map holds at first.
pub reassemble-receive :
    (local : Tile) (tiles : List Tile) (ending : List ℕ) (alive : ℕ → Bool) (conn : WorkerConn)
    → AllSendable tiles
    → DistinctIds tiles
    → IsEnding ending
    → AliveFor (length tiles) alive
    → reassemble
        (output_of local)
        (receive alive (handle_worker_connection (requests tiles ending)) conn).results
        (local ∷ tiles)
      ≡ ok (all_bytes output_of (local ∷ tiles))
unfolding receive
reassemble-receive local tiles ending alive conn h distinct q on =
    let rs = conn.results in
    let got : receive_rounds alive 0 (length (responses tiles [])) (responses tiles []) rs
        ≡ received tiles rs =
      receive_rounds-responses alive tiles 0 (length (responses tiles [])) rs
        (λ r less. on r (omega arith)) h (enough_responses tiles) in
    ap (λ s. reassemble (output_of local) (receive_rounds alive 0 (length s) s rs) (local ∷ tiles))
      (handled ending tiles q h)
    ∙ ap (λ found. reassemble (output_of local) found (local ∷ tiles)) got
    ∙ reassemble-all output_of (received tiles rs) local tiles
        (received-AllAnswered tiles rs distinct)
