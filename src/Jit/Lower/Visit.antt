-- ===== src/Jit/Lower/Visit.antt =====
-- `lower_node` on every node that spells out an expression.
use num_toy.Prelude.{
  ℕ, zero, suc, ◌≤◌, ◌≡◌, refl, sym, subst, Bool, true, false, some, List, arith, ok, ◌>>=◌,
  at_index, at_index-bind, get_elem?, get_elem?-lt, get_elem?-some, ◌==◌,
}
use num_toy.Scalar.{to_double}
use num_toy.Scalar.Float.{FloatOps}
use num_toy.Ir.{Expr, variable, constant, add, sub, mul, div, dequantize_matmul}
use num_toy.Graph.{Node}
use num_toy.Graph.Represents.{Represents, depth}
use num_toy.Jit.Program.{BinOp, usize_max}
use num_toy.Jit.Run.{Regs, apply}
use num_toy.Jit.Value.{value, input_ids}
use num_toy.Jit.Lower.{LowerCtx, Step, remember, lower_kind, lower_node}
use num_toy.Jit.Lower.Inputs.{add_all_known}
use num_toy.Jit.Lower.Sound
use num_toy.Jit.Lower.Correct
use num_toy.Jit.Lower.Correct.{IsBinary}

module _ (ops : FloatOps) (bits : ℕ) (g : List Node) (loads : ℕ → ℕ) (env : ℕ → ℕ)
    (regs : Regs) where
  abbrev Inv : LowerCtx → Type 0
  Inv = Sound.Inv ops bits g loads env regs

  abbrev Lowers : Expr → (LowerCtx → Step) → Type 0
  Lowers = Correct.Lowers ops bits g loads env regs

  abbrev Binary : Expr → Expr → Expr → BinOp → Type 0
  Binary = Correct.IsBinary ops bits g loads env regs

  -- The memo table is asked first; a node that is not in it is lowered and remembered.
  visit_lem :
      (e : Expr) (f n : ℕ) (node : Node)
      → Represents g n e
      → get_elem? g n ≡ some node
      → Lowers e (lower_kind ops bits (lower_node ops bits g f) node)
      → Lowers e (lower_node ops bits g (suc f) n)
  unfolding lower_node
  visit_lem e f n node r at kind ctx inv agrees =
      let (v, found) =
        get_elem?-some ctx.node_vreg n (omega (arith, inv.sized, get_elem?-lt g n node at)) in
      subst (Correct.IsSound ops bits g loads env regs e ctx)
        (sym (at_index-bind ctx.node_vreg n _ found)) (go v (v == usize_max) found refl)
    where
      go :
          (v : ℕ) (b : Bool)
          → get_elem? ctx.node_vreg n ≡ some v
          → (v == usize_max) ≡ b
          → Correct.IsSound ops bits g loads env regs e ctx (elim b [
            | false ↦ ok (v, ctx)
            | true ↦
                (at_index g n >>= λ node. lower_kind ops bits (lower_node ops bits g f) node ctx)
                >>= remember n
          ])
      go v false found test =
          let known = inv.memo n v e found (λ same. ground arith) r in
          record {
            inv = inv;
            known = known;
            inputs = sym (add_all_known (input_ids e) ctx.input_map known.slots);
            keeps = λ u d k. k;
          }
      go v true found test =
          Correct.remember_lem ops bits g loads env regs n e ctx _ r (get_elem?-lt g n node at) (
            subst (Correct.IsSound ops bits g loads env regs e ctx) (sym (at_index-bind g n _ at))
              (kind ctx inv agrees))

  add-Binary : (l r : Expr) → Binary (add l r) l r BinOp.add
  unfolding input_ids value apply
  add-Binary l r = record { ids = refl; valued = refl; left = λ s. s.0; right = λ s. s.1 }

  sub-Binary : (l r : Expr) → Binary (sub l r) l r BinOp.sub
  unfolding input_ids value apply
  sub-Binary l r = record { ids = refl; valued = refl; left = λ s. s.0; right = λ s. s.1 }

  mul-Binary : (l r : Expr) → Binary (mul l r) l r BinOp.mul
  unfolding input_ids value apply
  mul-Binary l r = record { ids = refl; valued = refl; left = λ s. s.0; right = λ s. s.1 }

  div-Binary : (l r : Expr) → Binary (div l r) l r BinOp.div
  unfolding input_ids value apply
  div-Binary l r = record { ids = refl; valued = refl; left = λ s. s.0; right = λ s. s.1 }

  -- Lowering a node that spells out an expression answers with a register that holds the expression's
  -- value, or refuses an unsupported expression.
  pub lower_node-Lowers :
      (e : Expr) (f n : ℕ) → Represents g n e → depth e ≤ f → Lowers e (lower_node ops bits g f n)
  unfolding lower_kind input_ids
  lower_node-Lowers (variable v) zero n r d = absurd (omega arith)
  lower_node-Lowers (variable v) (suc f) n r d =
      visit_lem (variable v) f n _ r r
        (λ ctx inv agrees. Correct.variable_lem ops bits g loads env regs ctx v inv agrees)
  lower_node-Lowers (constant c) zero n r d = absurd (omega arith)
  lower_node-Lowers (constant c) (suc f) n r d = visit_lem (constant c) f n _ r r (λ ctx inv agrees.
      Correct.constant_lem ops bits g loads env regs ctx (to_double ops c) (constant c) inv
        (unfold value in refl) (unfold input_ids in refl))
  lower_node-Lowers (add a b) zero n r d = absurd (omega arith)
  lower_node-Lowers (add a b) (suc f) n (i, j, p, x, y) d =
      visit_lem (add a b) f n _ (i, j, p, x, y) p
        (Correct.binop_lem ops bits g loads env regs BinOp.add (add a b) a b
          (lower_node ops bits g f) i j (add-Binary a b) (lower_node-Lowers a f i x (omega arith))
          (lower_node-Lowers b f j y (omega arith)))
  lower_node-Lowers (sub a b) zero n r d = absurd (omega arith)
  lower_node-Lowers (sub a b) (suc f) n (i, j, p, x, y) d =
      visit_lem (sub a b) f n _ (i, j, p, x, y) p
        (Correct.binop_lem ops bits g loads env regs BinOp.sub (sub a b) a b
          (lower_node ops bits g f) i j (sub-Binary a b) (lower_node-Lowers a f i x (omega arith))
          (lower_node-Lowers b f j y (omega arith)))
  lower_node-Lowers (mul a b) zero n r d = absurd (omega arith)
  lower_node-Lowers (mul a b) (suc f) n (i, j, p, x, y) d =
      visit_lem (mul a b) f n _ (i, j, p, x, y) p
        (Correct.binop_lem ops bits g loads env regs BinOp.mul (mul a b) a b
          (lower_node ops bits g f) i j (mul-Binary a b) (lower_node-Lowers a f i x (omega arith))
          (lower_node-Lowers b f j y (omega arith)))
  lower_node-Lowers (div a b) zero n r d = absurd (omega arith)
  lower_node-Lowers (div a b) (suc f) n (i, j, p, x, y) d =
      visit_lem (div a b) f n _ (i, j, p, x, y) p
        (Correct.binop_lem ops bits g loads env regs BinOp.div (div a b) a b
          (lower_node ops bits g f) i j (div-Binary a b) (lower_node-Lowers a f i x (omega arith))
          (lower_node-Lowers b f j y (omega arith)))
  lower_node-Lowers (dequantize_matmul a b m k q) zero n r d = absurd (omega arith)
  lower_node-Lowers (dequantize_matmul a b m k q) (suc f) n (i, j, p, x, y) d =
      visit_lem (dequantize_matmul a b m k q) f n _ (i, j, p, x, y) p (λ ctx inv agrees s. s)
