-- ===== src/Jit/Lower.antt =====
-- numtoy-core/src/jit/ir.rs: lowering an arena to SSA instructions, with its memo table.
pub mod Inputs
pub mod Sound
pub mod Correct
pub mod Visit
use num_toy.Prelude.{
  ℕ, zero, suc, ◌+◌, Bool, true, false, ◌||◌, Option, none, some, List, [], ◌∷◌, ◌++◌, Outcome, ok,
  refused, fault, ◌>>=◌, at_index, ◌==◌, if◌then◌else◌, length, set,
}
use num_toy.Scalar.{DataType, to_double}
use num_toy.Scalar.Float.{FloatOps}
use num_toy.Ir.{Variable}
use num_toy.Graph.{Node}
use num_toy.Jit.Program.{BinOp, Inst, load, const, binop, usize_max}
use Inputs.{input_slot}

pub record LowerCtx : Type 0 where
  pub insts : List Inst
  pub vreg_ctr : ℕ
  pub node_vreg : List ℕ
  pub input_map : List ℕ

-- `fresh_vreg`, and the push of the instruction that defines it
unfoldable pub define : (ℕ → Inst) → LowerCtx → ℕ × LowerCtx
define inst ctx = (
  ctx.vreg_ctr,
  record ctx { insts = ctx.insts ++ inst ctx.vreg_ctr ∷ []; vreg_ctr = ctx.vreg_ctr + 1 },
)

-- `DataType::Float(32) | DataType::Float(64)`
unfoldable pub is_ieee : DataType → Bool
is_ieee (DataType.float b) = b == 32 || b == 64
is_ieee (DataType.int _) = false
is_ieee _ = false

abbrev pub Step : Type 0
Step = Outcome (ℕ × LowerCtx)

unfoldable pub lower_variable : ℕ → Variable → LowerCtx → Step
lower_variable bits v ctx =
    let (slot, inputs) = input_slot ctx.input_map v.id in
    if is_ieee v.dtype
    then ok (define (λ dst. load dst slot bits) (record ctx { input_map = inputs }))
    else refused

-- `rec` lowers an operand.
unfoldable pub lower_binop : (ℕ → LowerCtx → Step) → ℕ → ℕ → BinOp → LowerCtx → Step
lower_binop rec l r op ctx = do
  (lhs, c₁) ← rec l ctx
  (rhs, c₂) ← rec r c₁
  ok (define (λ dst. binop dst op lhs rhs) c₂)

-- `self.node_vreg[node_id] = vreg`
unfoldable pub remember : ℕ → ℕ × LowerCtx → Step
remember n (v, ctx) = ok (v, record ctx { node_vreg = set ctx.node_vreg n v })

module _ (ops : FloatOps) (bits : ℕ) where
  unfoldable pub lower_kind : (ℕ → LowerCtx → Step) → Node → LowerCtx → Step
  lower_kind rec (Node.variable v) ctx = lower_variable bits v ctx
  lower_kind rec (Node.constant val) ctx =
      ok (define (λ dst. const dst (to_double ops val) bits) ctx)
  lower_kind rec (Node.add l r) ctx = lower_binop rec l r BinOp.add ctx
  lower_kind rec (Node.sub l r) ctx = lower_binop rec l r BinOp.sub ctx
  lower_kind rec (Node.mul l r) ctx = lower_binop rec l r BinOp.mul ctx
  lower_kind rec (Node.div l r) ctx = lower_binop rec l r BinOp.div ctx
  lower_kind rec (Node.dequantize_matmul _ _ _ _ _) ctx = refused

  -- The fuel bounds the depth of the recursion. An id out of range panics.
  unfoldable pub lower_node : List Node → ℕ → ℕ → LowerCtx → Step
  lower_node g zero n ctx = fault
  lower_node g (suc f) n ctx = at_index ctx.node_vreg n >>= λ v. elim (v == usize_max) [
    | false ↦ ok (v, ctx)
    | true ↦ (at_index g n >>= λ node. lower_kind (lower_node g f) node ctx) >>= remember n
  ]
