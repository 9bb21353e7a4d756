-- ===== src/Jit/Compile.antt =====
-- numtoy-core/src/jit/ir.rs: `try_lower`, from an arena to a checked program.
use num_toy.Prelude.{
  ℕ, Bool, false, ◌||◌, List, [], ◌∷◌, ◌++◌, Outcome, ok, refused, ◌>>=◌, ◌==◌, if◌then◌else◌,
  length, replicate,
}
use num_toy.Scalar.{DataType}
use num_toy.Scalar.Float.{FloatOps}
use num_toy.Graph
use num_toy.Graph.{Node, ArenaGraph}
use num_toy.Jit.Program.{store, NtProgram, usize_max}
use num_toy.Jit.Bounds.{default_report, check_program}
use num_toy.Jit.Lower.{LowerCtx, lower_node}
use num_toy.Jit.Intervals.{compute_intervals}
use num_toy.Jit.Alloc.{linear_scan_alloc}

-- the width of the root, 32 or 64
unfoldable pub root_bits : DataType → Outcome ℕ
root_bits (DataType.float b) = if b == 32 then ok 32 else if b == 64 then ok 64 else refused
root_bits (DataType.int _) = refused
root_bits _ = refused

unfoldable pub steals : Node → Bool
steals (Node.variable v) = v.steal_sign
steals (Node.constant _) = false
steals _ = false

unfoldable pub any_steals : List Node → Bool
any_steals [] = false
any_steals (n ∷ ns) = steals n || any_steals ns

unfoldable pub empty_ctx : ℕ → LowerCtx
empty_ctx n = record { insts = []; vreg_ctr = 0; node_vreg = replicate n usize_max; input_map = [] }

-- Liveness, allocation and the checks, for a lowered root.
unfoldable pub finish : ℕ → ℕ → LowerCtx → Outcome NtProgram
finish bits out_vreg ctx = do
  let insts = ctx.insts ++ store out_vreg bits ∷ []
  intervals ← compute_intervals insts ctx.vreg_ctr
  alloc ← linear_scan_alloc intervals ctx.vreg_ctr
  let prog : NtProgram = record {
    insts = insts;
    num_vregs = ctx.vreg_ctr;
    num_inputs = length ctx.input_map;
    output_vreg = out_vreg;
    bits = bits;
    alloc = alloc;
    intervals = intervals;
    bounds = default_report;
  }
  let report = check_program prog
  if report.structurally_valid then ok (record prog { bounds = report }) else refused

unfoldable pub try_lower : FloatOps → ArenaGraph → Outcome NtProgram
try_lower ops graph = do
  dtype ← Graph.data_type graph graph.root
  bits ← root_bits dtype
  if any_steals graph.nodes
      then refused
      else (lower_node ops bits graph.nodes (length graph.nodes) graph.root
            (empty_ctx (length graph.nodes))
          >>= λ (out_vreg, ctx). finish bits out_vreg ctx)
