-- ===== src/Cache/Key.antt =====
-- numtoy-core/src/cache.rs: what the key says of the expression, and what it leaves out.
use num_toy.Prelude.{
  ℕ, zero, suc, ◌≤◌, ◌≡◌, ◌≢◌, sym, ◌∙◌, ap₂, List, ◌++◌, arith, ok, at_index-bind, length,
  le_bytes,
}
use num_toy.Scalar.{DataType, Scalar, scalar_type, to_double}
use num_toy.Scalar.Float.{FloatOps}
use num_toy.Ir
use num_toy.Ir.{Expr, Variable, variable, constant, add, sub, mul, div, dequantize_matmul}
use num_toy.Graph.{Node, ArenaGraph, from_expr}
use num_toy.Graph.Represents.{Represents, depth, from_expr-Represents}
use num_toy.Cache.{
  both_keys, variable_key, tag_const, tag_add, tag_sub, tag_mul, tag_div, tag_matmul, node_key,
  hash_node, hash_graph,
}

module _ (ops : FloatOps) where
  -- The key, read off the expression itself.
  unfoldable pub expr_key : Expr → List ℕ
  expr_key (variable v) = variable_key v
  expr_key (constant val) = tag_const ++ le_bytes 8 (to_double ops val)
  expr_key (add l r) = tag_add ++ (expr_key l ++ expr_key r)
  expr_key (sub l r) = tag_sub ++ (expr_key l ++ expr_key r)
  expr_key (mul l r) = tag_mul ++ (expr_key l ++ expr_key r)
  expr_key (div l r) = tag_div ++ (expr_key l ++ expr_key r)
  expr_key (dequantize_matmul a w _ _ _) = tag_matmul ++ (expr_key a ++ expr_key w)

  hash_node-Represents :
      (g : List Node) (e : Expr) (f n : ℕ)
      → Represents g n e
      → depth e ≤ f
      → hash_node ops g f n ≡ ok (expr_key e)
  unfolding hash_node node_key expr_key
  hash_node-Represents g (variable v) zero n r d = absurd (omega arith)
  hash_node-Represents g (variable v) (suc f) n r d = at_index-bind g n _ r
  hash_node-Represents g (constant c) zero n r d = absurd (omega arith)
  hash_node-Represents g (constant c) (suc f) n r d = at_index-bind g n _ r
  hash_node-Represents g (add a b) zero n r d = absurd (omega arith)
  hash_node-Represents g (add a b) (suc f) n (i, j, p, x, y) d =
      at_index-bind g n _ p
      ∙ ap₂ (both_keys tag_add) (hash_node-Represents g a f i x (omega arith))
          (hash_node-Represents g b f j y (omega arith))
  hash_node-Represents g (sub a b) zero n r d = absurd (omega arith)
  hash_node-Represents g (sub a b) (suc f) n (i, j, p, x, y) d =
      at_index-bind g n _ p
      ∙ ap₂ (both_keys tag_sub) (hash_node-Represents g a f i x (omega arith))
          (hash_node-Represents g b f j y (omega arith))
  hash_node-Represents g (mul a b) zero n r d = absurd (omega arith)
  hash_node-Represents g (mul a b) (suc f) n (i, j, p, x, y) d =
      at_index-bind g n _ p
      ∙ ap₂ (both_keys tag_mul) (hash_node-Represents g a f i x (omega arith))
          (hash_node-Represents g b f j y (omega arith))
  hash_node-Represents g (div a b) zero n r d = absurd (omega arith)
  hash_node-Represents g (div a b) (suc f) n (i, j, p, x, y) d =
      at_index-bind g n _ p
      ∙ ap₂ (both_keys tag_div) (hash_node-Represents g a f i x (omega arith))
          (hash_node-Represents g b f j y (omega arith))
  hash_node-Represents g (dequantize_matmul a b _ _ _) zero n r d = absurd (omega arith)
  hash_node-Represents g (dequantize_matmul a b _ _ _) (suc f) n (i, j, p, x, y) d =
      at_index-bind g n _ p
      ∙ ap₂ (both_keys tag_matmul) (hash_node-Represents g a f i x (omega arith))
          (hash_node-Represents g b f j y (omega arith))

-- The key of any arena whose root spells out `e`, in paths no longer than the arena, is a function of
-- `e` alone: how the arena shares its nodes, or whether it is stabilized, does not matter.
pub hash_graph-Represents :
    (ops : FloatOps) (graph : ArenaGraph) (e : Expr)
    → Represents graph.nodes graph.root e
    → depth e ≤ length graph.nodes
    → hash_graph ops graph ≡ ok (expr_key ops e)
unfolding hash_graph
hash_graph-Represents ops graph e r d =
    hash_node-Represents ops graph.nodes e (length graph.nodes) graph.root r d

pub hash_graph-from_expr :
    (ops : FloatOps) (e : Expr) → hash_graph ops (from_expr e) ≡ ok (expr_key ops e)
hash_graph-from_expr ops e =
    let (r, d) = from_expr-Represents e in hash_graph-Represents ops (from_expr e) e r d

float_ne : DataType.float 32 ≢ DataType.float 64
float_ne e = cc

-- The key leaves out the type of a constant: a sum of a constant and `r` has one key for the
-- constant as a 32-bit and as a 64-bit float, though its element type, which fixes the width of the
-- compiled kernel, is that of the constant and so differs.
pub hash_graph-constant_width :
    (ops : FloatOps) (val : ℕ) (r : Expr)
    → let narrow = add (constant (Scalar.float val 32)) r in
      let wide = add (constant (Scalar.float val 64)) r in
      (hash_graph ops (from_expr narrow) ≡ hash_graph ops (from_expr wide))
      × (Ir.data_type narrow ≢ Ir.data_type wide)
unfolding expr_key to_double Ir.data_type scalar_type
hash_graph-constant_width ops val r = (
  hash_graph-from_expr ops (add (constant (Scalar.float val 32)) r)
      ∙ sym (hash_graph-from_expr ops (add (constant (Scalar.float val 64)) r)),
  float_ne,
)
