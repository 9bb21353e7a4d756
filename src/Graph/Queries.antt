-- ===== src/Graph/Queries.antt =====
-- numtoy-core/src/graph.rs: the arena's queries against those of the expression.
use num_toy.Prelude.{
  ℕ, zero, suc, ◌≤◌, ◌≡◌, refl, List, Option, none, some, ok, arith, ap, ap₂, ◌*◌, ◌∙◌,
  at_index-bind,
}
use num_toy.Ir
use num_toy.Ir.{Expr, variable, constant, add, sub, mul, div, dequantize_matmul, or_else, larger}
use num_toy.Graph.{
  Node, ArenaGraph, from_expr, node_type, data_type_at, node_size, size_at, node_scale, scale_at,
  node_steal, steal_at, both_sizes, first_scale,
}
use num_toy.Graph
use num_toy.Graph.Represents.{Represents, depth, from_expr-Represents}

first_scale-ok : (a b : Option ℕ) → first_scale (ok a) (ok b) ≡ ok (or_else a b)
first_scale-ok none b = refl
first_scale-ok (some s) b = refl

-- an expression with no matmul below it
abbrev pub IsElementwise : Expr → Type 0
IsElementwise (variable _) = Unit
IsElementwise (constant _) = Unit
IsElementwise (add l r) = IsElementwise l × IsElementwise r
IsElementwise (sub l r) = IsElementwise l × IsElementwise r
IsElementwise (mul l r) = IsElementwise l × IsElementwise r
IsElementwise (div l r) = IsElementwise l × IsElementwise r
IsElementwise (dequantize_matmul _ _ _ _ _) = ⊥

module _ (g : List Node) where
  pub data_type_at-Represents :
      (e : Expr) (f n : ℕ)
      → Represents g n e
      → depth e ≤ f
      → data_type_at g f n ≡ ok (Ir.data_type e)
  unfolding data_type_at node_type Ir.data_type
  data_type_at-Represents (variable v) zero n r d = absurd (omega arith)
  data_type_at-Represents (variable v) (suc f) n r d = at_index-bind g n _ r
  data_type_at-Represents (constant c) zero n r d = absurd (omega arith)
  data_type_at-Represents (constant c) (suc f) n r d = at_index-bind g n _ r
  data_type_at-Represents (add a b) zero n r d = absurd (omega arith)
  data_type_at-Represents (add a b) (suc f) n (i, j, p, x, y) d =
      at_index-bind g n _ p ∙ data_type_at-Represents a f i x (omega arith)
  data_type_at-Represents (sub a b) zero n r d = absurd (omega arith)
  data_type_at-Represents (sub a b) (suc f) n (i, j, p, x, y) d =
      at_index-bind g n _ p ∙ data_type_at-Represents a f i x (omega arith)
  data_type_at-Represents (mul a b) zero n r d = absurd (omega arith)
  data_type_at-Represents (mul a b) (suc f) n (i, j, p, x, y) d =
      at_index-bind g n _ p ∙ data_type_at-Represents a f i x (omega arith)
  data_type_at-Represents (div a b) zero n r d = absurd (omega arith)
  data_type_at-Represents (div a b) (suc f) n (i, j, p, x, y) d =
      at_index-bind g n _ p ∙ data_type_at-Represents a f i x (omega arith)
  data_type_at-Represents (dequantize_matmul a b _ _ _) zero n r d = absurd (omega arith)
  data_type_at-Represents (dequantize_matmul a b _ _ _) (suc f) n (i, j, p, x, y) d =
      at_index-bind g n _ p

  pub scale_at-Represents :
      (e : Expr) (f n : ℕ) → Represents g n e → depth e ≤ f → scale_at g f n ≡ ok (Ir.get_scale e)
  unfolding scale_at node_scale Ir.get_scale
  scale_at-Represents (variable v) zero n r d = absurd (omega arith)
  scale_at-Represents (variable v) (suc f) n r d = at_index-bind g n _ r
  scale_at-Represents (constant c) zero n r d = absurd (omega arith)
  scale_at-Represents (constant c) (suc f) n r d = at_index-bind g n _ r
  scale_at-Represents (add a b) zero n r d = absurd (omega arith)
  scale_at-Represents (add a b) (suc f) n (i, j, p, x, y) d =
      at_index-bind g n _ p
      ∙ ap₂ first_scale (scale_at-Represents a f i x (omega arith))
          (scale_at-Represents b f j y (omega arith))
      ∙ first_scale-ok _ _
  scale_at-Represents (sub a b) zero n r d = absurd (omega arith)
  scale_at-Represents (sub a b) (suc f) n (i, j, p, x, y) d =
      at_index-bind g n _ p
      ∙ ap₂ first_scale (scale_at-Represents a f i x (omega arith))
          (scale_at-Represents b f j y (omega arith))
      ∙ first_scale-ok _ _
  scale_at-Represents (mul a b) zero n r d = absurd (omega arith)
  scale_at-Represents (mul a b) (suc f) n (i, j, p, x, y) d =
      at_index-bind g n _ p
      ∙ ap₂ first_scale (scale_at-Represents a f i x (omega arith))
          (scale_at-Represents b f j y (omega arith))
      ∙ first_scale-ok _ _
  scale_at-Represents (div a b) zero n r d = absurd (omega arith)
  scale_at-Represents (div a b) (suc f) n (i, j, p, x, y) d =
      at_index-bind g n _ p
      ∙ ap₂ first_scale (scale_at-Represents a f i x (omega arith))
          (scale_at-Represents b f j y (omega arith))
      ∙ first_scale-ok _ _
  scale_at-Represents (dequantize_matmul a b _ _ _) zero n r d = absurd (omega arith)
  scale_at-Represents (dequantize_matmul a b _ _ _) (suc f) n (i, j, p, x, y) d =
      at_index-bind g n _ p

  pub steal_at-Represents :
      (e : Expr) (f n : ℕ) → Represents g n e → depth e ≤ f → steal_at g f n ≡ ok (Ir.steal_sign e)
  unfolding steal_at node_steal Ir.steal_sign
  steal_at-Represents (variable v) zero n r d = absurd (omega arith)
  steal_at-Represents (variable v) (suc f) n r d = at_index-bind g n _ r
  steal_at-Represents (constant c) zero n r d = absurd (omega arith)
  steal_at-Represents (constant c) (suc f) n r d = at_index-bind g n _ r
  steal_at-Represents (add a b) zero n r d = absurd (omega arith)
  steal_at-Represents (add a b) (suc f) n (i, j, p, x, y) d =
      at_index-bind g n _ p ∙ steal_at-Represents a f i x (omega arith)
  steal_at-Represents (sub a b) zero n r d = absurd (omega arith)
  steal_at-Represents (sub a b) (suc f) n (i, j, p, x, y) d =
      at_index-bind g n _ p ∙ steal_at-Represents a f i x (omega arith)
  steal_at-Represents (mul a b) zero n r d = absurd (omega arith)
  steal_at-Represents (mul a b) (suc f) n (i, j, p, x, y) d =
      at_index-bind g n _ p ∙ steal_at-Represents a f i x (omega arith)
  steal_at-Represents (div a b) zero n r d = absurd (omega arith)
  steal_at-Represents (div a b) (suc f) n (i, j, p, x, y) d =
      at_index-bind g n _ p ∙ steal_at-Represents a f i x (omega arith)
  steal_at-Represents (dequantize_matmul a b _ _ _) zero n r d = absurd (omega arith)
  steal_at-Represents (dequantize_matmul a b _ _ _) (suc f) n (i, j, p, x, y) d =
      at_index-bind g n _ p

  pub size_at-Represents :
      (e : Expr) (f n : ℕ)
      → Represents g n e
      → IsElementwise e
      → depth e ≤ f
      → size_at g f n ≡ ok (Ir.size e)
  unfolding size_at node_size Ir.size
  size_at-Represents (variable v) zero n r s d = absurd (omega arith)
  size_at-Represents (variable v) (suc f) n r s d = at_index-bind g n _ r
  size_at-Represents (constant c) zero n r s d = absurd (omega arith)
  size_at-Represents (constant c) (suc f) n r s d = at_index-bind g n _ r
  size_at-Represents (add a b) zero n r s d = absurd (omega arith)
  size_at-Represents (add a b) (suc f) n (i, j, p, x, y) s d =
      at_index-bind g n _ p
      ∙ ap₂ both_sizes (size_at-Represents a f i x s.0 (omega arith))
          (size_at-Represents b f j y s.1 (omega arith))
  size_at-Represents (sub a b) zero n r s d = absurd (omega arith)
  size_at-Represents (sub a b) (suc f) n (i, j, p, x, y) s d =
      at_index-bind g n _ p
      ∙ ap₂ both_sizes (size_at-Represents a f i x s.0 (omega arith))
          (size_at-Represents b f j y s.1 (omega arith))
  size_at-Represents (mul a b) zero n r s d = absurd (omega arith)
  size_at-Represents (mul a b) (suc f) n (i, j, p, x, y) s d =
      at_index-bind g n _ p
      ∙ ap₂ both_sizes (size_at-Represents a f i x s.0 (omega arith))
          (size_at-Represents b f j y s.1 (omega arith))
  size_at-Represents (div a b) zero n r s d = absurd (omega arith)
  size_at-Represents (div a b) (suc f) n (i, j, p, x, y) s d =
      at_index-bind g n _ p
      ∙ ap₂ both_sizes (size_at-Represents a f i x s.0 (omega arith))
          (size_at-Represents b f j y s.1 (omega arith))
  size_at-Represents (dequantize_matmul a b _ _ _) f n r s d = absurd s

  size_at_matmul :
      (a w : Expr) (m k p f n : ℕ)
      → Represents g n (dequantize_matmul a w m k p)
      → IsElementwise a
      → depth (dequantize_matmul a w m k p) ≤ f
      → size_at g f n ≡ ok (Ir.size a)
  unfolding size_at node_size
  size_at_matmul a w m k p zero n r s d = absurd (omega arith)
  size_at_matmul a w m k p (suc f) n (i, j, e, x, y) s d =
      at_index-bind g n _ e ∙ size_at-Represents a f i x s (omega arith)

-- The arena that `from_expr` builds answers the type, scale and sign-stealing queries at its root as
-- the expression itself does.
pub from_expr_queries :
    (e : Expr)
    → let g = from_expr e in
      (Graph.data_type g g.root ≡ ok (Ir.data_type e))
      × (Graph.get_scale g g.root ≡ ok (Ir.get_scale e))
      × (Graph.steal_sign g g.root ≡ ok (Ir.steal_sign e))
unfolding Graph.data_type Graph.get_scale Graph.steal_sign
from_expr_queries e =
    let (r, d) = from_expr-Represents e in
    (
      data_type_at-Represents _ e _ _ r d,
      scale_at-Represents _ e _ _ r d,
      steal_at-Represents _ e _ _ r d,
    )

-- On an expression with no matmul the arena's size query at the root gives the expression's size.
pub size-from_expr :
    (e : Expr) → IsElementwise e → Graph.size (from_expr e) (from_expr e).root ≡ ok (Ir.size e)
unfolding Graph.size
size-from_expr e s = let (r, d) = from_expr-Represents e in size_at-Represents _ e _ _ r s d

-- On a matmul the two size queries are different functions: the arena answers the size of the
-- activations `m * k`, and the expression `m * n`.
pub size-from_expr_matmul :
    (a w : Expr) (m k n : ℕ)
    → IsElementwise a
    → Ir.size a ≡ m * k
    → (Graph.size
          (from_expr (dequantize_matmul a w m k n))
          (from_expr (dequantize_matmul a w m k n)).root
        ≡ ok (m * k))
      × (Ir.size (dequantize_matmul a w m k n) ≡ m * n)
unfolding Graph.size Ir.size
size-from_expr_matmul a w m k n s e =
    let (r, d) = from_expr-Represents (dequantize_matmul a w m k n) in
    (size_at_matmul _ a w m k n _ _ r s d ∙ ap ok e, refl)
