-- ===== src/Tests/Arm.antt =====
-- The AArch64 code of a small program.
use num_toy.Prelude.{ℕ, ◌≡◌, refl, true, none, ok, List, [], ◌∷◌, arith}
use num_toy.Jit.Program.{BinOp, Inst, load, const, binop, store, NtProgram}
use num_toy.Jit.Emit.A64.{
  emit_kernel_aarch64, emit_kernel, emit_body, emit_inst, emit_u32, wrap_body, patch_bcond,
  branch_back, bge_placeholder, insns_between, cmp_loop, inc_loop_ctr, three_regs, two_regs,
  load_input_ptr, ldr_f64, str_f64, mov_part, movk_unless_zero, fmov_imm64, fadd, arithmetic,
}
use num_toy.Jit.Emit.A64.Branches.{Loops, emit_kernel_aarch64-Loops}
use num_toy.Tests.Inputs.{toy}

abbrev add_one : List Inst
add_one = load 0 0 64 ∷ const 1 0x3FF0000000000000 64 ∷ binop 2 BinOp.add 0 1 ∷ store 2 64 ∷ []

abbrev add_one_program : NtProgram
add_one_program = record {
  insts = add_one;
  num_vregs = 3;
  num_inputs = 1;
  output_vreg = 2;
  bits = 64;
  alloc = 0 ∷ 1 ∷ 0 ∷ [];
  intervals = [];
  bounds = record {
    nan_vregs = [];
    overflow_sites = 2 ∷ [];
    structurally_valid = true;
    first_violation = none;
  };
}

abbrev add_one_code : List ℕ
add_one_code =
    253 ∷ 123 ∷ 187 ∷ 169 ∷ 253 ∷ 3 ∷ 0 ∷ 145 ∷ 19 ∷ 80 ∷ 1 ∷ 169 ∷ 21 ∷ 84 ∷ 2 ∷ 169 ∷ 8 ∷ 36 ∷ 3
    ∷ 109 ∷ 243 ∷ 3 ∷ 0 ∷ 170 ∷ 244 ∷ 3 ∷ 1 ∷ 170 ∷ 245 ∷ 3 ∷ 2 ∷ 170 ∷ 246 ∷ 3 ∷ 31 ∷ 170 ∷ 31 ∷ 3
    ∷ 21 ∷ 235 ∷ 138 ∷ 1 ∷ 0 ∷ 84 ∷ 96 ∷ 2 ∷ 64 ∷ 249 ∷ 0 ∷ 104 ∷ 118 ∷ 252 ∷ 9 ∷ 0 ∷ 128 ∷ 210 ∷ 9
    ∷ 0 ∷ 160 ∷ 242 ∷ 9 ∷ 0 ∷ 192 ∷ 242 ∷ 9 ∷ 254 ∷ 231 ∷ 242 ∷ 33 ∷ 1 ∷ 103 ∷ 158 ∷ 0 ∷ 40 ∷ 97
    ∷ 30 ∷ 128 ∷ 106 ∷ 54 ∷ 252 ∷ 214 ∷ 6 ∷ 0 ∷ 145 ∷ 244 ∷ 255 ∷ 255 ∷ 23 ∷ 8 ∷ 36 ∷ 67 ∷ 109 ∷ 21
    ∷ 84 ∷ 66 ∷ 169 ∷ 19 ∷ 80 ∷ 65 ∷ 169 ∷ 253 ∷ 123 ∷ 197 ∷ 168 ∷ 192 ∷ 3 ∷ 95 ∷ 214 ∷ []

add_one_emitted : emit_kernel_aarch64 toy true add_one_program ≡ ok add_one_code
unfolding emit_kernel_aarch64 emit_kernel emit_body emit_inst emit_u32 wrap_body patch_bcond
    branch_back bge_placeholder insns_between cmp_loop inc_loop_ctr three_regs two_regs
    load_input_ptr ldr_f64 str_f64 mov_part movk_unless_zero fmov_imm64 fadd arithmetic
add_one_emitted = refl

emit_kernel_aarch64-Loops_example : Loops add_one_code
emit_kernel_aarch64-Loops_example =
    emit_kernel_aarch64-Loops toy true add_one_program add_one_code add_one_emitted (omega arith)
