-- ===== src/Network/Coordinator.antt =====
-- numtoy-core/src/network.rs: the coordinator's connections (`WorkerConn`, `NetworkLayer`). A connection
-- holds its ring buffer, whether it is alive, and the results that its receive thread put into the map.
-- The clock enters as the list of the rounds that `collect` begins before its deadline, each with what
-- the receive threads insert before it.
pub mod Live
use num_toy.Prelude.{
  ℕ, zero, suc, ◌+◌, ◌%◌, Bool, true, false, not, ◌&&◌, ◌||◌, List, [], ◌∷◌, ◌++◌, Option, none,
  some, Outcome, ok, fault, ◌>>=◌, ◌==◌, if◌then◌else◌, length, get_elem?, set,
}
use num_toy.Network.Ring.{RingBuffer, push, drain}
use num_toy.Network.Tiles.{Tile, TileResult, find_result}
use num_toy.Network.Wire.{encode_tile_req}

abbrev pub tag_shutdown : ℕ
tag_shutdown = 0xFF

pub record WorkerConn : Type 0 where
  pub ring : RingBuffer
  pub alive : Bool
  pub results : List TileResult

-- `HashMap::remove` and `HashMap::insert`, by id
unfoldable pub remove_result : List TileResult → ℕ → List TileResult
remove_result [] id = []
remove_result (r ∷ rs) id = let rest = remove_result rs id in if r.id == id then rest else r ∷ rest

unfoldable pub insert_result : TileResult → List TileResult → List TileResult
insert_result r rs = r ∷ remove_result rs r.id

unfoldable pub send_tile : WorkerConn → Tile → Bool × WorkerConn
send_tile w tile =
    let (sent, ring') = push w.ring (encode_tile_req tile) in (sent, record w { ring = ring' })

unfoldable pub poll_result : WorkerConn → ℕ → Option TileResult × WorkerConn
poll_result w tile_id =
    (find_result w.results tile_id, record w { results = remove_result w.results tile_id })

unfoldable pub shutdown : WorkerConn → WorkerConn
shutdown w = record w { alive = false; ring = (push w.ring (tag_shutdown ∷ [])).1 }

-- one round of the send thread: at most 65536 bytes go to the stream, while the connection is alive
unfoldable pub send_round : WorkerConn → List ℕ → List ℕ × WorkerConn
send_round w stream =
    let (n, out, ring') = drain w.ring [] 65536 in
    if w.alive then (stream ++ out, record w { ring = ring' }) else (stream, w)

unfoldable pub any_alive : List WorkerConn → Bool
any_alive [] = false
any_alive (w ∷ ws) = w.alive || any_alive ws

-- `!self.workers.is_empty() && any(...)`, where the first test follows from the second
unfoldable pub is_available : List WorkerConn → Bool
is_available workers = any_alive workers

-- the ids that were sent, with the workers after it
abbrev pub Dispatched : Type 0
Dispatched = List ℕ × List WorkerConn

-- `worker.alive && worker.send_tile(tile)` for one tile
unfoldable pub dispatch_one : ℕ → WorkerConn → Tile → Dispatched → Dispatched
dispatch_one at worker tile (ids, workers) =
    let (sent, worker') = send_tile worker tile in
    if worker.alive
    then (if sent
        then (ids ++ tile.id ∷ [], set workers at worker')
        else (ids, set workers at worker'))
    else (ids, workers)

-- the tiles from number `i` on, in turn to the workers
unfoldable pub dispatch_from : ℕ → List Tile → Dispatched → Dispatched
dispatch_from i [] state = state
dispatch_from i (tile ∷ tiles) (ids, workers) =
    let at = i % length workers in
    let state : Dispatched = elim (get_elem? workers at) [
      | none ↦ (ids, workers)
      | some worker ↦ dispatch_one at worker tile (ids, workers)
    ] in
    dispatch_from (suc i) tiles state

-- `tiles[1..]` panics on an empty slice.
unfoldable pub dispatch : List WorkerConn → List Tile → Outcome Dispatched
dispatch [] tiles = ok ([], [])
dispatch (w ∷ ws) [] = fault
dispatch (w ∷ ws) (local ∷ tiles) = ok (dispatch_from 0 tiles ([], w ∷ ws))

-- `HashSet::remove`, and the set of the ids
unfoldable pub remove_id : ℕ → List ℕ → List ℕ
remove_id id [] = []
remove_id id (x ∷ xs) = let rest = remove_id id xs in if x == id then rest else x ∷ rest

unfoldable pub set_of : List ℕ → List ℕ
set_of [] = []
set_of (x ∷ xs) = x ∷ remove_id x (set_of xs)

-- the ids still wanted, and the results so far
abbrev pub Collected : Type 0
Collected = List ℕ × List TileResult

unfoldable pub take_result : Option TileResult → ℕ → Collected → Collected
take_result none id state = state
take_result (some res) id (remaining, results) = (remove_id id remaining, insert_result res results)

-- the loop over the ids for one worker
unfoldable pub poll_ids : List ℕ → WorkerConn → Collected → WorkerConn × Collected
poll_ids [] worker state = (worker, state)
poll_ids (id ∷ ids) worker state =
    let (found, worker') = poll_result worker id in
    poll_ids ids worker' (take_result found id state)

-- the loop over the workers, each with the ids that are wanted then
unfoldable pub poll_workers : List WorkerConn → Collected → List WorkerConn × Collected
poll_workers [] state = ([], state)
poll_workers (w ∷ ws) state =
    let (w', state') = poll_ids state.0 w state in
    let (ws', state'') = poll_workers ws state' in (w' ∷ ws', state'')

-- what a receive thread inserts: the number of its worker, and the result
abbrev pub Arrival : Type 0
Arrival = ℕ × TileResult

unfoldable pub arrive_one : ℕ → TileResult → List WorkerConn → List WorkerConn
arrive_one at res workers = elim (get_elem? workers at) [
  | none ↦ workers
  | some w ↦ set workers at (record w { results = insert_result res w.results })
]

unfoldable pub arrive : List Arrival → List WorkerConn → List WorkerConn
arrive [] workers = workers
arrive ((at, res) ∷ more) workers = arrive more (arrive_one at res workers)

unfoldable pub is_done : List ℕ → Bool
is_done [] = true
is_done (x ∷ xs) = false

unfoldable pub collect_rounds : List (List Arrival) → List WorkerConn → Collected → List TileResult
collect_rounds [] workers state = state.1
collect_rounds (arrivals ∷ rounds) workers state =
    let (workers', state') = poll_workers (arrive arrivals workers) state in
    let rest = collect_rounds rounds workers' state' in if is_done state.0 then state.1 else rest

unfoldable pub collect : List WorkerConn → List ℕ → List (List Arrival) → List TileResult
collect workers tile_ids rounds = collect_rounds rounds workers (set_of tile_ids, [])
