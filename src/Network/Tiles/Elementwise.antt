-- ===== src/Network/Tiles/Elementwise.antt =====
-- numtoy-core/src/network.rs: the tiles of an element-wise expression, and of a matmul.
use num_toy.Prelude.{ℕ, ◌≡◌, ok, List}
use num_toy.Ir
use num_toy.Ir.{Expr, dequantize_matmul}
use num_toy.Graph.{from_expr}
use num_toy.Graph.Queries.{IsElementwise, size-from_expr}
use num_toy.Network.Tiles.{Tile, decompose}
use num_toy.Network.Tiles.Cover.{Tiled, decompose-Tiled}

-- Where the arena of an expression without a matmul is decomposed, the expression has more than a
-- million elements and there is a node to send to; there is one tile for each node and one for the
-- coordinator, and the tiles cut the elements of the expression into consecutive, non-empty parts
-- whose sizes differ by one at most.
pub decompose-elementwise :
    (e : Expr) (num_nodes ctr : ℕ) (tiles : List Tile)
    → IsElementwise e
    → decompose (from_expr e) num_nodes ctr ≡ ok tiles
    → Tiled (Ir.size e) num_nodes tiles
decompose-elementwise e num_nodes ctr tiles h found =
    decompose-Tiled (from_expr e) num_nodes ctr (Ir.size e) tiles (size-from_expr e h) found
