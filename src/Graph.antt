-- ===== src/Graph.antt =====
-- numtoy-core/src/graph.rs: the arena form of an expression.
pub mod Represents
pub mod Queries
use num_toy.Prelude.{
  ℕ, zero, suc, Bool, false, Option, none, some, List, [], ◌∷◌, ◌++◌, Outcome, ok, fault, ◌>>=◌,
  at_index, length,
}
use num_toy.Scalar.{DataType, Scalar, scalar_type}
use num_toy.Ir.{Expr, Variable, or_else, larger, scalar_scale}

-- `NodeId` is an index into the arena.
pub data Node : Type 0 where
  variable : Variable → Node
  constant : Scalar → Node
  add : ℕ → ℕ → Node
  sub : ℕ → ℕ → Node
  mul : ℕ → ℕ → Node
  div : ℕ → ℕ → Node
  dequantize_matmul : ℕ → ℕ → ℕ → ℕ → ℕ → Node

pub record ArenaGraph : Type 0 where
  pub nodes : List Node
  pub root : ℕ
  pub is_stabilized : Bool

-- `ArenaGraph::push`
abbrev pub push : List Node → Node → ℕ × List Node
push nodes n = (length nodes, nodes ++ n ∷ [])

unfoldable pub traverse : Expr → List Node → ℕ × List Node
traverse (Expr.variable v) g = push g (variable v)
traverse (Expr.constant c) g = push g (constant c)
traverse (Expr.add l r) g =
    let (i, g₁) = traverse l g in let (j, g₂) = traverse r g₁ in push g₂ (add i j)
traverse (Expr.sub l r) g =
    let (i, g₁) = traverse l g in let (j, g₂) = traverse r g₁ in push g₂ (sub i j)
traverse (Expr.mul l r) g =
    let (i, g₁) = traverse l g in let (j, g₂) = traverse r g₁ in push g₂ (mul i j)
traverse (Expr.div l r) g =
    let (i, g₁) = traverse l g in let (j, g₂) = traverse r g₁ in push g₂ (div i j)
traverse (Expr.dequantize_matmul a w m k n) g =
    let (i, g₁) = traverse a g in
    let (j, g₂) = traverse w g₁ in push g₂ (dequantize_matmul i j m k n)

unfoldable pub from_expr : Expr → ArenaGraph
from_expr e =
    let (root, nodes) = traverse e [] in
    record { nodes = nodes; root = root; is_stabilized = false }

-- The queries recur through node ids. An id out of range panics; a chain of ids longer than the
-- fuel, which a cycle makes, is a fault too.
unfoldable pub node_type : (ℕ → Outcome DataType) → Node → Outcome DataType
node_type rec (variable v) = ok v.dtype
node_type rec (constant val) = ok (scalar_type val)
node_type rec (add l _) = rec l
node_type rec (sub l _) = rec l
node_type rec (mul l _) = rec l
node_type rec (div l _) = rec l
node_type rec (dequantize_matmul _ _ _ _ _) = ok (DataType.float 32)

unfoldable pub data_type_at : List Node → ℕ → ℕ → Outcome DataType
data_type_at g zero id = fault
data_type_at g (suc f) id = at_index g id >>= node_type (data_type_at g f)

abbrev pub both_sizes : Outcome ℕ → Outcome ℕ → Outcome ℕ
both_sizes l r = do ls ← l; rs ← r; ok (larger ls rs)

unfoldable pub node_size : (ℕ → Outcome ℕ) → Node → Outcome ℕ
node_size rec (variable v) = ok v.size
node_size rec (constant _) = ok 1
node_size rec (add l r) = both_sizes (rec l) (rec r)
node_size rec (sub l r) = both_sizes (rec l) (rec r)
node_size rec (mul l r) = both_sizes (rec l) (rec r)
node_size rec (div l r) = both_sizes (rec l) (rec r)
node_size rec (dequantize_matmul a _ _ _ _) = rec a

unfoldable pub size_at : List Node → ℕ → ℕ → Outcome ℕ
size_at g zero id = fault
size_at g (suc f) id = at_index g id >>= node_size (size_at g f)

-- `self.get_scale(l).or_else(|| self.get_scale(r))`: the right side is asked only after a `None`
abbrev pub first_scale : Outcome (Option ℕ) → Outcome (Option ℕ) → Outcome (Option ℕ)
first_scale l r = l >>= λ a. elim a [ none ↦ r | some s ↦ ok (some s) ]

unfoldable pub node_scale : (ℕ → Outcome (Option ℕ)) → Node → Outcome (Option ℕ)
node_scale rec (variable v) = ok v.scale
node_scale rec (constant val) = ok (scalar_scale val)
node_scale rec (add l r) = first_scale (rec l) (rec r)
node_scale rec (sub l r) = first_scale (rec l) (rec r)
node_scale rec (mul l r) = first_scale (rec l) (rec r)
node_scale rec (div l r) = first_scale (rec l) (rec r)
node_scale rec (dequantize_matmul _ _ _ _ _) = ok none

unfoldable pub scale_at : List Node → ℕ → ℕ → Outcome (Option ℕ)
scale_at g zero id = fault
scale_at g (suc f) id = at_index g id >>= node_scale (scale_at g f)

unfoldable pub node_steal : (ℕ → Outcome Bool) → Node → Outcome Bool
node_steal rec (variable v) = ok v.steal_sign
node_steal rec (constant _) = ok false
node_steal rec (add l _) = rec l
node_steal rec (sub l _) = rec l
node_steal rec (mul l _) = rec l
node_steal rec (div l _) = rec l
node_steal rec (dequantize_matmul _ _ _ _ _) = ok false

unfoldable pub steal_at : List Node → ℕ → ℕ → Outcome Bool
steal_at g zero id = fault
steal_at g (suc f) id = at_index g id >>= node_steal (steal_at g f)

-- A path of distinct ids is no longer than the arena.
unfoldable pub data_type : ArenaGraph → ℕ → Outcome DataType
data_type g id = data_type_at g.nodes (length g.nodes) id

unfoldable pub size : ArenaGraph → ℕ → Outcome ℕ
size g id = size_at g.nodes (length g.nodes) id

unfoldable pub get_scale : ArenaGraph → ℕ → Outcome (Option ℕ)
get_scale g id = scale_at g.nodes (length g.nodes) id

unfoldable pub steal_sign : ArenaGraph → ℕ → Outcome Bool
steal_sign g id = steal_at g.nodes (length g.nodes) id
