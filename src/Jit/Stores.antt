-- ===== src/Jit/Stores.antt =====
-- numtoy-core/src/jit/ir.rs with jit/emit.rs and array.rs: what a compiled kernel stores, against the
-- value of the expression where each variable is read in its own width.
use num_toy.Prelude.{
  ℕ, ◌≤◌, ◌≡◌, refl, sym, ◌∙◌, ap, ap₂, List, [], ok, none, some, Option, length, get_or,
}
use num_toy.Scalar.{DataType, bit_width, to_double}
use num_toy.Scalar.Float.{FloatOps, zero_f64}
use num_toy.Ir.{Expr, Variable, variable, constant, add, sub, mul, div, dequantize_matmul}
use num_toy.Graph.{ArenaGraph, from_expr}
use num_toy.Graph.Represents.{Represents, depth, from_expr-Represents}
use num_toy.Jit.Program.{NtProgram}
use num_toy.Jit.Run.{Regs, widen_to, constant_of, narrow_to, run_phys}
use num_toy.Jit.Value.{value, input_ids}
use num_toy.Jit.Lower.Inputs.{add_all}
use num_toy.Jit.Compile.{try_lower}
use num_toy.Jit.Correct.{slot_loads, try_lower-Compiles}
use num_toy.Kernel.{kernel_inputs}
use num_toy.Kernel.Order.{ids_of, kernel_inputs-ids, kernel_inputs-slots}

module _ (ops : FloatOps) (bits : ℕ) (env : Variable → ℕ) where
  -- One element of an expression, where `env` is the bit pattern that each variable has there: a
  -- variable of 32 bits is widened, a constant is rounded to the width of the result, and
  -- arithmetic is in f64. A matmul has no element-wise value.
  abbrev pub element : Expr → ℕ
  element (variable v) = widen_to ops (bit_width v.dtype) (env v)
  element (constant val) = constant_of ops bits (to_double ops val)
  element (add l r) = ops.add (element l) (element r)
  element (sub l r) = ops.sub (element l) (element r)
  element (mul l r) = ops.mul (element l) (element r)
  element (div l r) = ops.div (element l) (element r)
  element (dequantize_matmul _ _ _ _ _) = zero_f64

-- Every variable is a float of `bits` bits.
abbrev pub IsUniform : ℕ → Expr → Type 0
IsUniform bits (variable v) = v.dtype ≡ DataType.float bits
IsUniform bits (constant _) = Unit
IsUniform bits (add l r) = IsUniform bits l × IsUniform bits r
IsUniform bits (sub l r) = IsUniform bits l × IsUniform bits r
IsUniform bits (mul l r) = IsUniform bits l × IsUniform bits r
IsUniform bits (div l r) = IsUniform bits l × IsUniform bits r
IsUniform bits (dequantize_matmul _ _ _ _ _) = ⊥

-- `mem` is the bit pattern in the one buffer that each id has, and every variable reads it: two
-- variables with the same id, such as two slices of an array, must have the same value.
abbrev pub ReadsById : (ℕ → ℕ) → (Variable → ℕ) → Expr → Type 0
ReadsById mem env (variable v) = mem v.id ≡ env v
ReadsById mem env (constant _) = Unit
ReadsById mem env (add l r) = ReadsById mem env l × ReadsById mem env r
ReadsById mem env (sub l r) = ReadsById mem env l × ReadsById mem env r
ReadsById mem env (mul l r) = ReadsById mem env l × ReadsById mem env r
ReadsById mem env (div l r) = ReadsById mem env l × ReadsById mem env r
ReadsById mem env (dequantize_matmul _ _ _ _ _) = Unit

value-element :
    (ops : FloatOps) (bits : ℕ) (mem : ℕ → ℕ) (env : Variable → ℕ) (e : Expr)
    → IsUniform bits e
    → ReadsById mem env e
    → value ops bits mem e ≡ element ops bits env e
unfolding value
value-element ops bits mem env (variable v) u h =
    ap (widen_to ops bits) h
    ∙ ap (λ b. widen_to ops b (env v)) (sym (ap bit_width u ∙ unfold bit_width in refl))
value-element ops bits mem env (constant val) u h = refl
value-element ops bits mem env (add l r) (u, v) (h, k) =
    ap₂ ops.add (value-element ops bits mem env l u h) (value-element ops bits mem env r v k)
value-element ops bits mem env (sub l r) (u, v) (h, k) =
    ap₂ ops.sub (value-element ops bits mem env l u h) (value-element ops bits mem env r v k)
value-element ops bits mem env (mul l r) (u, v) (h, k) =
    ap₂ ops.mul (value-element ops bits mem env l u h) (value-element ops bits mem env r v k)
value-element ops bits mem env (div l r) (u, v) (h, k) =
    ap₂ ops.div (value-element ops bits mem env l u h) (value-element ops bits mem env r v k)
value-element ops bits mem env (dequantize_matmul _ _ _ _ _) u h = absurd u

-- What a program, run on its allocated physical registers with a buffer for each input slot, writes.
abbrev pub stored : FloatOps → (ℕ → ℕ) → NtProgram → Regs → Option ℕ
stored ops loads prog regs = (run_phys ops loads prog.alloc prog.insts (regs, none)).1

-- A program that `try_lower` accepts, for an arena whose root spells out `e` in paths no longer
-- than the arena, has one input for each distinct id of a variable. If every variable has the width
-- of the result and reads the one buffer of its id, then the program, run on the allocated physical
-- registers, whatever they hold at first, stores the value of `e`.
pub try_lower-element :
    (ops : FloatOps) (g : ArenaGraph) (e : Expr) (prog : NtProgram) (mem : ℕ → ℕ)
    (env : Variable → ℕ) (regs : Regs)
    → Represents g.nodes g.root e
    → depth e ≤ length g.nodes
    → try_lower ops g ≡ ok prog
    → IsUniform prog.bits e
    → ReadsById mem env e
    → (prog.num_inputs ≡ length (add_all [] (input_ids e)))
      × (stored ops (slot_loads mem e) prog regs
          ≡ some (narrow_to ops prog.bits (element ops prog.bits env e)))
try_lower-element ops g e prog mem env regs r d h uniform reads =
    let c = try_lower-Compiles ops g e prog r d h in
    (
      c.inputs,
      c.stores mem regs
          ∙ ap (λ v. some (narrow_to ops prog.bits v))
              (value-element ops prog.bits mem env e uniform reads),
    )

-- the buffers behind the pointers that a kernel is called with, in their order
abbrev pub pointer_loads : (ℕ → ℕ) → List Variable → ℕ → ℕ
pointer_loads mem vars slot = mem (get_or (ids_of vars) slot 0)

-- `execute_expr_on_device` passes as many pointers as an accepted program has inputs, and in the
-- order of the program's slots: called with the buffers in that order the program stores the value
-- of the expression, if every variable has the width of the result and reads the one buffer of its
-- id.
pub kernel_inputs-element :
    (ops : FloatOps) (e : Expr) (prog : NtProgram) (mem : ℕ → ℕ) (env : Variable → ℕ) (regs : Regs)
    → try_lower ops (from_expr e) ≡ ok prog
    → IsUniform prog.bits e
    → ReadsById mem env e
    → (length (kernel_inputs e) ≡ prog.num_inputs)
      × (stored ops (pointer_loads mem (kernel_inputs e)) prog regs
          ≡ some (narrow_to ops prog.bits (element ops prog.bits env e)))
kernel_inputs-element ops e prog mem env regs h uniform reads =
    let (r, d) = from_expr-Represents e in
    (
      (kernel_inputs-slots ops e prog h).1,
      ap (λ ids. stored ops (λ slot. mem (get_or ids slot 0)) prog regs) (kernel_inputs-ids e)
          ∙ (try_lower-element ops (from_expr e) e prog mem env regs r d h uniform reads).1,
    )
