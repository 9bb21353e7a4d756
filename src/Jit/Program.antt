-- ===== src/Jit/Program.antt =====
-- numtoy-core/src/jit/ir.rs: the SSA program, with the report of bounds.rs that it carries.
use num_toy.Prelude.{ℕ, ◌-◌, ◌^◌, Bool, Option, List}

pub data BinOp : Type 0 where
  add sub mul div : BinOp

pub data Inst : Type 0 where
  -- dst, input_idx, bits
  load : ℕ → ℕ → ℕ → Inst
  -- dst, val, bits
  const : ℕ → ℕ → ℕ → Inst
  -- dst, op, lhs, rhs
  binop : ℕ → BinOp → ℕ → ℕ → Inst
  -- src, bits
  store : ℕ → ℕ → Inst

pub record LiveInterval : Type 0 where
  pub vreg : ℕ
  pub start : ℕ
  pub end : ℕ

-- The violations that `check_program` describes in words, with the numbers that its texts hold.
pub data Violation : Type 0 where
  zero_instructions : Violation
  too_many_insts : ℕ → Violation
  too_many_inputs : ℕ → Violation
  alloc_length : ℕ → ℕ → Violation
  vreg_out_of_range : ℕ → ℕ → Violation
  unsupported_width : ℕ → Violation

pub record BoundsReport : Type 0 where
  pub nan_vregs : List ℕ
  pub overflow_sites : List ℕ
  pub structurally_valid : Bool
  pub first_violation : Option Violation

pub record NtProgram : Type 0 where
  pub insts : List Inst
  pub num_vregs : ℕ
  pub num_inputs : ℕ
  pub output_vreg : ℕ
  pub bits : ℕ
  pub alloc : List ℕ
  pub intervals : List LiveInterval
  pub bounds : BoundsReport

abbrev pub usize_max : ℕ
usize_max = 2 ^ 64 - 1

-- xmm0–xmm13
abbrev pub num_phys_regs : ℕ
num_phys_regs = 14
