-- ===== src/Tests/Others.antt =====
-- The arena, the cache, the pool and the network on small inputs.
use num_toy.Prelude.{
  ◌<◌, ◌+◌, ◌-◌, ◌/◌, ◌%◌, ◌⊎◌, ℕ, ◌*◌, ◌^◌, ◌≤◌, ◌≡◌, ◌≢◌, refl, ◌∙◌, true, false, none, some,
  Option, ok, List, [], ◌∷◌, ◌++◌, arith, length, drop, bind-ok,
}
use num_toy.Scalar.{DataType, Scalar, to_double}
use num_toy.Ir
use num_toy.Ir.{Expr, Variable, memory, variable, constant, add, dequantize_matmul}
use num_toy.Ir.Grad.{Arithmetic, value_in, dual, seed, grad-dual}
use num_toy.Ir.{grad}
use num_toy.Network.Tiles.Elementwise.{decompose-elementwise}
use num_toy.Graph
use num_toy.Graph.{Node, ArenaGraph, from_expr}
use num_toy.Graph.Represents.{from_expr-Represents}
use num_toy.Graph.Queries.{IsElementwise, from_expr_queries, size-from_expr, size-from_expr_matmul}
use num_toy.Cache.{hash_graph, hash_node, node_key}
use num_toy.Cache.Key.{expr_key, hash_graph-Represents, hash_graph-constant_width}
use num_toy.Kernel.Wide.{
  helper_mul_i128, helper_div_i128, helper_add_i128, helper_sub_i128, helper_add-helper_sub,
}
use num_toy.Pool.{
  tile, assemble, ThreadPool, submit, contains_key, begin_assemble, lookup, xtreme_run_inline,
}
use num_toy.Pool.Steps.{
  Threads, begun_inline, Step, Reaches, here, and_then, switched, submitted, inline, inserted,
}
use num_toy.Pool.Steps.Sound.{IsThreads, Keeps, IsPool-runs}
use num_toy.Pool.Inline.{work_off, work_off-inline}
use num_toy.Pool.Backoff.{idle_backoff, away, idle_backoff-away}
use num_toy.Network.Ring.{new, push, drain}
use num_toy.Network.Ring.Fifo.{Pushed, Drained, new-IsRing, push-Pushed, drain-Drained}
use num_toy.Network.Tiles.{
  Tile, TileResult, cut, decompose, input_nodes, tile_bits, bytes_of, find_result, reassemble,
}
use num_toy.Network.Tiles.Cover.{Tiled}
use num_toy.Network.Tiles.Join.{reassemble-missing}
use num_toy.Network.Wire.{encode_tile_req, process_tile_request, decode_tile_resp}
use num_toy.Network.Wire.Exchange.{IsSendable, output_of, result_of, exchange}
use num_toy.Tests.Inputs.{toy, var, small}

from_expr_queries_example :
    (Graph.data_type (from_expr small) (from_expr small).root ≡ ok (Ir.data_type small))
    × (Graph.get_scale (from_expr small) (from_expr small).root ≡ ok (Ir.get_scale small))
    × (Graph.steal_sign (from_expr small) (from_expr small).root ≡ ok (Ir.steal_sign small))
from_expr_queries_example = from_expr_queries small

size-from_expr_example : Graph.size (from_expr small) (from_expr small).root ≡ ok (Ir.size small)
size-from_expr_example = size-from_expr small (tt, ((tt, tt), tt))

abbrev product : Expr
product = dequantize_matmul (variable (var 0)) (variable (var 1)) 1 2 3

size-from_expr_matmul_example :
    (Graph.size (from_expr product) (from_expr product).root ≡ ok (1 * 2))
    × (Ir.size product ≡ 1 * 3)
size-from_expr_matmul_example =
    size-from_expr_matmul (variable (var 0)) (variable (var 1)) 1 2 3 tt (unfold Ir.size in refl)

hash_graph-Represents_example : hash_graph toy (from_expr small) ≡ ok (expr_key toy small)
hash_graph-Represents_example =
    hash_graph-Represents toy (from_expr small) small (from_expr-Represents small).0
      (from_expr-Represents small).1

hash_graph-constant_width_example :
    (hash_graph toy (from_expr (add (constant (Scalar.float 5 32)) (variable (var 3))))
      ≡ hash_graph toy (from_expr (add (constant (Scalar.float 5 64)) (variable (var 3)))))
    × (Ir.data_type (add (constant (Scalar.float 5 32)) (variable (var 3)))
        ≢ Ir.data_type (add (constant (Scalar.float 5 64)) (variable (var 3))))
hash_graph-constant_width_example = hash_graph-constant_width toy 5 (variable (var 3))

-- one constant
abbrev lone : ArenaGraph
lone = record { nodes = Node.constant (Scalar.float 5 64) ∷ []; root = 0; is_stabilized = false }

abbrev count_nodes : ArenaGraph → Option ℕ
count_nodes g = some (length g.nodes)

abbrev digest : List ℕ → ℕ
digest bytes = length bytes

abbrev idle : ThreadPool ℕ
idle = record {
  injector = [];
  xtreme_injector = [];
  locals = [] ∷ [];
  xtreme_active = false;
  cache = [];
}

abbrev idle_threads : Threads ℕ
idle_threads = record { pool = idle; compiled = [] }

abbrev hyper : Threads ℕ
hyper = record { pool = record idle { xtreme_active = true }; compiled = [] }

abbrev waiting : Threads ℕ
waiting = record hyper { pool = record hyper.pool { xtreme_injector = assemble lone 13 ∷ [] } }

-- The kernel is compiled but not in the cache.
abbrev compiled_lone : Threads ℕ
compiled_lone = record hyper { compiled = (13, 1) ∷ [] }

abbrev served_lone : Threads ℕ
served_lone = record hyper { pool = record hyper.pool { cache = (13, 1) ∷ [] } }

lone_submitted : submit toy digest lone hyper.pool ≡ ok (13, waiting.pool)
unfolding submit hash_graph hash_node node_key to_double contains_key lookup
lone_submitted = refl

idle-IsThreads : IsThreads toy digest count_nodes idle_threads
unfolding lookup
idle-IsThreads = record {
  pool = record { injected = tt; xtreme = tt; queued = (tt, tt); served = λ h k e. absurd (cc) };
  compiled = tt;
}

lone_inline : Step toy digest count_nodes waiting compiled_lone
unfolding begun_inline begin_assemble contains_key lookup
lone_inline = inline waiting (assemble lone 13) [] refl

lone_run : Reaches toy digest count_nodes idle_threads served_lone
lone_run =
    and_then idle_threads compiled_lone served_lone
      (and_then idle_threads waiting compiled_lone
        (and_then idle_threads hyper waiting
          (and_then idle_threads idle_threads hyper (here idle_threads)
            (switched idle_threads true))
          (submitted hyper lone (13, waiting.pool) lone_submitted))
        lone_inline)
      (inserted compiled_lone [] [] 13 1 refl)

IsPool-runs_example :
    IsThreads toy digest count_nodes served_lone
    × Keeps toy digest count_nodes [] served_lone.pool.cache
IsPool-runs_example =
    IsPool-runs toy digest count_nodes idle_threads served_lone lone_run idle-IsThreads

work_off-inline_example :
    work_off count_nodes 4 false (tile lone 13 ∷ []) []
    ≡ ([], xtreme_run_inline count_nodes (tile lone 13) [])
work_off-inline_example = work_off-inline count_nodes (tile lone 13) false [] (λ g. refl)

idle_backoff-away_example :
    (away (idle_backoff 401 false false) ≤ 16)
    × (away (idle_backoff 401 false false) ≤ away (idle_backoff 500 false false))
    × (away (idle_backoff 401 true false) ≡ 0)
idle_backoff-away_example = idle_backoff-away 401 500 false false (omega arith)

push-Pushed_example : Pushed new (1 ∷ 2 ∷ []) (push new (1 ∷ 2 ∷ []))
push-Pushed_example = push-Pushed new (1 ∷ 2 ∷ []) new-IsRing

drain-Drained_example :
    Drained (push new (1 ∷ 2 ∷ [])).1 [] 1 (drain (push new (1 ∷ 2 ∷ [])).1 [] 1)
drain-Drained_example =
    drain-Drained (push new (1 ∷ 2 ∷ [])).1 [] 1 (push-Pushed new (1 ∷ 2 ∷ []) new-IsRing).valid

abbrev tile_of : ℕ → Tile
tile_of id = record {
  id = id;
  elem_start = 2 * id;
  elem_count = 2;
  bits = 8;
  input_bufs = (id ∷ 9 ∷ []) ∷ [];
}

tile_of-IsSendable : IsSendable (tile_of 5)
unfolding bytes_of
tile_of-IsSendable = record {
  id_small = omega arith;
  count_small = omega arith;
  bits_small = omega arith;
  few_bufs = omega arith;
  small_bufs = (omega arith, tt);
  small_output = omega arith;
}

exchange_example :
    (response : List ℕ) × (process_tile_request (drop 1 (encode_tile_req (tile_of 5)) ++ (1 ∷ []))
      ≡ ok (response, 1 ∷ []))
    × (decode_tile_resp (drop 1 response ++ []) ≡ ok (result_of (tile_of 5), []))
    × (length (output_of (tile_of 5)) ≡ 2 * bytes_of 8)
exchange_example = exchange (tile_of 5) (1 ∷ []) [] tile_of-IsSendable

-- a result with one byte, the id
abbrev answer : ℕ → TileResult
answer id = record { id = id; elem_count = 1; bits = 8; output = id ∷ [] }

not_answered : find_result (answer 2 ∷ []) 1 ≡ none
unfolding find_result
not_answered = refl

reassemble-missing_example :
    reassemble (0 ∷ []) (answer 2 ∷ []) (tile_of 0 ∷ tile_of 1 ∷ tile_of 2 ∷ [])
    ≡ reassemble (0 ∷ []) (answer 2 ∷ []) (tile_of 0 ∷ tile_of 2 ∷ [])
reassemble-missing_example =
    reassemble-missing (0 ∷ []) (answer 2 ∷ []) (tile_of 0) (tile_of 1) [] (tile_of 2 ∷ [])
      not_answered

-- a variable of two million elements
abbrev big : Expr
big = variable (record (var 3) { size = 2 ^ 21 })

abbrev big_tiles : List Tile
big_tiles = cut (from_expr big).nodes (input_nodes 0 (from_expr big).nodes []) 64 (2 ^ 20) 0 2 0 0 0

big_size : Graph.size (from_expr big) (from_expr big).root ≡ ok (2 ^ 21)
big_size = size-from_expr big tt ∙ (unfold Ir.size in refl)

big_type : Graph.data_type (from_expr big) (from_expr big).root ≡ ok (DataType.float 64)
big_type = (from_expr_queries big).0 ∙ (unfold Ir.data_type in refl)

big_decomposed : decompose (from_expr big) 1 0 ≡ ok big_tiles
unfolding decompose
big_decomposed = bind-ok _ big_size (bind-ok _ big_type (unfold tile_bits in refl))

-- an arithmetic of natural numbers
abbrev natural : Arithmetic ℕ
natural = record {
  plus = λ a b. a + b;
  minus = λ a b. a - b;
  times = λ a b. a * b;
  over = λ a b. a / b;
  of_scalar = λ s. to_double toy s;
}

decompose-elementwise_example : Tiled (Ir.size big) 1 big_tiles
decompose-elementwise_example = decompose-elementwise big 1 0 big_tiles tt big_decomposed

grad-dual_example :
    (d : Expr) × (grad small 3 ≡ ok d)
    × IsElementwise d
    × (value_in natural (λ id. id) d
        ≡ (value_in (dual natural) (seed natural (λ id. id) 3) small).1)
grad-dual_example = grad-dual natural (λ id. id) small 3 (tt, ((tt, tt), tt))

-- a difference that wraps around
helper_add-helper_sub_example :
    let d0 = helper_sub_i128 5 0 7 0 0 in
    let d1 = helper_sub_i128 5 0 7 0 1 in
    let x = 5 + 2 ^ 64 * 0 in
    let y = 7 + 2 ^ 64 * 0 in
    let quotient = helper_div_i128 5 0 7 0 0 + 2 ^ 64 * helper_div_i128 5 0 7 0 1 in
    (helper_add_i128 5 0 7 0 0 + 2 ^ 64 * helper_add_i128 5 0 7 0 1 ≡ (x + y) % 2 ^ 128)
    × ((d0 + 2 ^ 64 * d1 + y) % 2 ^ 128 ≡ x)
    × (helper_mul_i128 5 0 7 0 0 + 2 ^ 64 * helper_mul_i128 5 0 7 0 1 ≡ x * y % 2 ^ 128)
    × (((y ≡ 0) × (quotient ≡ 0)) ⊎ ((quotient * y ≤ x) × (x < (quotient + 1) * y)))
    × (helper_add_i128 d0 d1 7 0 0 ≡ 5)
    × (helper_add_i128 d0 d1 7 0 1 ≡ 0)
helper_add-helper_sub_example =
    helper_add-helper_sub 5 0 7 0 (omega arith) (omega arith) (omega arith) (omega arith)
