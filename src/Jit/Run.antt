-- ===== src/Jit/Run.antt =====
-- What one round of the kernel's loop computes: on the virtual registers of the SSA program, and on
-- the physical registers as the x86-64 code of jit/emit.rs moves them. `loads` gives the bit pattern
-- that each input buffer holds at the loop's index.
use num_toy.Prelude.{ℕ, Option, some, List, [], ◌∷◌, ◌==◌, if◌then◌else◌, get_or}
use num_toy.Scalar.Float.{FloatOps}
use num_toy.Jit.Program.{BinOp, Inst, load, const, binop, store}

abbrev pub Regs : Type 0
Regs = ℕ → ℕ

unfoldable pub write : Regs → ℕ → ℕ → Regs
write regs d v r = if r == d then v else regs r

module _ (ops : FloatOps) where
  unfoldable pub apply : BinOp → ℕ → ℕ → ℕ
  apply BinOp.add a b = ops.add a b
  apply BinOp.sub a b = ops.sub a b
  apply BinOp.mul a b = ops.mul a b
  apply BinOp.div a b = ops.div a b

  -- Arithmetic is in f64: an f32 is widened when it is loaded and narrowed when it is stored.
  unfoldable pub widen_to : ℕ → ℕ → ℕ
  widen_to bits raw = if bits == 64 then raw else ops.widen raw

  unfoldable pub constant_of : ℕ → ℕ → ℕ
  constant_of bits val = if bits == 64 then val else ops.widen (ops.narrow val)

  unfoldable pub narrow_to : ℕ → ℕ → ℕ
  narrow_to bits v = if bits == 64 then v else ops.narrow v

  -- the registers, and what has been written to the output
  abbrev pub State : Type 0
  State = Regs × Option ℕ

  module _ (loads : ℕ → ℕ) where
    unfoldable pub exec : Inst → Regs → Regs
    exec (load dst slot bits) regs = write regs dst (widen_to bits (loads slot))
    exec (const dst val bits) regs = write regs dst (constant_of bits val)
    exec (binop dst op lhs rhs) regs = write regs dst (apply op (regs lhs) (regs rhs))
    exec (store src bits) regs = regs

    unfoldable pub run : List Inst → Regs → Regs
    run [] regs = regs
    run (i ∷ is) regs = run is (exec i regs)

    module _ (alloc : List ℕ) where
      abbrev pub phys : ℕ → ℕ
      phys v = get_or alloc v 0

      -- `if xd != xl { movsd(xd, xl) }`
      unfoldable pub move : ℕ → ℕ → Regs → Regs
      move xd xl regs = if xd == xl then regs else write regs xd (regs xl)

      unfoldable pub exec_phys : Inst → State → State
      exec_phys (load dst slot bits) (regs, out) =
          (write regs (phys dst) (widen_to bits (loads slot)), out)
      exec_phys (const dst val bits) (regs, out) =
          (write regs (phys dst) (constant_of bits val), out)
      exec_phys (binop dst op lhs rhs) (regs, out) =
          let moved = move (phys dst) (phys lhs) regs in
          (write moved (phys dst) (apply op (moved (phys dst)) (moved (phys rhs))), out)
      exec_phys (store src bits) (regs, out) =
          let v = narrow_to bits (regs (phys src)) in (write regs (phys src) v, some v)

      unfoldable pub run_phys : List Inst → State → State
      run_phys [] s = s
      run_phys (i ∷ is) s = run_phys is (exec_phys i s)
