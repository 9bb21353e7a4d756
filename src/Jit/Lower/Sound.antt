-- ===== src/Jit/Lower/Sound.antt =====
-- Lowering a node that spells out an expression: the register computes the expression's value, the
-- input slots are those of its variables in order, and no memo entry is ever wrong.
use num_toy.Prelude.{
  ℕ, ◌<◌, ◌≡◌, ◌≢◌, ◌∙◌, some, List, [], ◌∷◌, arith, length, get_elem?, length-append,
}
use num_toy.Scalar.Float.{FloatOps}
use num_toy.Ir.{Expr}
use num_toy.Graph.{Node}
use num_toy.Graph.Represents.{Represents}
use num_toy.Jit.Program.{Inst, usize_max}
use num_toy.Jit.Run.{Regs, exec, run}
use num_toy.Jit.Shape.{Places, IsSsa, IsSsa-append, run-append, exec_ne}
use num_toy.Jit.Value.{value, input_ids}
use num_toy.Jit.Lower.{LowerCtx, define}
use num_toy.Jit.Lower.Inputs.{add_all, AllIn, AllIn-grows}

module _ (ops : FloatOps) (bits : ℕ) (g : List Node) (loads : ℕ → ℕ) (env : ℕ → ℕ)
    (regs : Regs) where
  -- The slots of a table load the variables that they stand for.
  abbrev pub Agrees : List ℕ → Type 0
  Agrees inputs = (i x : ℕ) → get_elem? inputs i ≡ some x → loads i ≡ env x

  -- Register `v` holds the value of `e`, whose variables have their slots.
  pub record Known (ctx : LowerCtx) (v : ℕ) (e : Expr) : Type 0 where
    pub defined : v < ctx.vreg_ctr
    pub holds : run ops loads ctx.insts regs v ≡ value ops bits env e
    pub slots : AllIn (input_ids e) ctx.input_map

  pub record Inv (ctx : LowerCtx) : Type 0 where
    pub counted : length ctx.insts ≡ ctx.vreg_ctr
    pub ssa : IsSsa 0 ctx.insts
    pub sized : length ctx.node_vreg ≡ length g
    pub memo :
        (n v : ℕ) (e : Expr)
        → get_elem? ctx.node_vreg n ≡ some v
        → v ≢ usize_max
        → Represents g n e
        → Known ctx v e

  pub record Lowered (e : Expr) (ctx : LowerCtx) (v : ℕ) (ctx' : LowerCtx) : Type 0 where
    pub inv : Inv ctx'
    pub known : Known ctx' v e
    pub inputs : ctx'.input_map ≡ add_all ctx.input_map (input_ids e)
    -- what was known before is still known
    pub keeps : (u : ℕ) (d : Expr) → Known ctx u d → Known ctx' u d

  -- Pushing an instruction that defines the next register keeps all that is known.
  pub define_keeps :
      (ctx : LowerCtx) (inst : ℕ → Inst) (more : List ℕ) (u : ℕ) (d : Expr)
      → Inv ctx
      → Places ctx.vreg_ctr (inst ctx.vreg_ctr)
      → Known ctx u d
      → Known (define inst (record ctx { input_map = add_all ctx.input_map more })).1 u d
  unfolding define run
  define_keeps ctx inst more u d inv p k = record {
    defined = omega (arith, k.defined);
    holds = rw (run-append ops loads ctx.insts (inst ctx.vreg_ctr ∷ []) regs) (
        exec_ne ops loads ctx.vreg_ctr (inst ctx.vreg_ctr) (run ops loads ctx.insts regs) u p
          (λ e. omega (arith, k.defined, e))
        ∙ k.holds);
    slots = AllIn-grows (input_ids d) ctx.input_map more k.slots;
  }

  -- The new register, with what it computes.
  pub define_lem :
      (ctx : LowerCtx) (inst : ℕ → Inst) (e : Expr) (more : List ℕ)
      → Inv ctx
      → Places ctx.vreg_ctr (inst ctx.vreg_ctr)
      → exec ops loads (inst ctx.vreg_ctr) (run ops loads ctx.insts regs) ctx.vreg_ctr
        ≡ value ops bits env e
      → AllIn (input_ids e) (add_all ctx.input_map more)
      → let (v, ctx') = define inst (record ctx { input_map = add_all ctx.input_map more }) in
        Inv ctx' × Known ctx' v e
  unfolding define run
  define_lem ctx inst e more inv p h slots = (
    record {
      counted = length-append ctx.insts (inst ctx.vreg_ctr ∷ []) ∙ omega (arith, inv.counted);
      ssa =
          IsSsa-append 0 ctx.vreg_ctr ctx.insts (inst ctx.vreg_ctr) (omega (arith, inv.counted))
            inv.ssa p;
      sized = inv.sized;
      memo = λ n v d at ne r. define_keeps ctx inst more v d inv p (inv.memo n v d at ne r);
    },
    record {
      defined = omega arith;
      holds = rw (run-append ops loads ctx.insts (inst ctx.vreg_ctr ∷ []) regs) h;
      slots = slots;
    },
  )
