-- ===== src/Jit/Emit/A64.antt =====
-- numtoy-core/src/jit/emit_aarch64.rs: the AArch64 assembler. A method is the list of the words that it
-- emits; the buffer holds their bytes, and a label is an offset in bytes.
pub mod Frame
pub mod Branches
use num_toy.Prelude.{
  ℕ, zero, suc, ◌+◌, ◌-◌, ◌*◌, ◌/◌, ◌%◌, ◌^◌, Bool, true, false, List, [], ◌∷◌, ◌++◌, Outcome, ok,
  refused, fault, ◌>>=◌, at_index, ◌==◌, leb, if◌then◌else◌, length, take, drop, le_bytes,
}
use Prim.Native.Nat.{bit_or}
use num_toy.Scalar.Float.{FloatOps}
use num_toy.Jit.Program.{BinOp, Inst, load, const, binop, store, NtProgram}

abbrev x0 : ℕ
x0 = 0

abbrev x9 : ℕ
x9 = 9

abbrev x19 : ℕ
x19 = 19

abbrev x20 : ℕ
x20 = 20

abbrev x22 : ℕ
x22 = 22

-- `emit_u32` for each word
unfoldable pub emit_u32 : List ℕ → List ℕ
emit_u32 [] = []
emit_u32 (insn ∷ insns) = le_bytes 4 insn ++ emit_u32 insns

abbrev pub prologue : List ℕ
prologue =
    0xA9BB7BFD ∷ 0x910003FD ∷ 0xA9015013 ∷ 0xA9025415 ∷ 0x6D032408 ∷ 0xAA0003F3 ∷ 0xAA0103F4
    ∷ 0xAA0203F5 ∷ 0xAA1F03F6 ∷ []

abbrev pub epilogue : List ℕ
epilogue = 0x6D432408 ∷ 0xA9425415 ∷ 0xA9415013 ∷ 0xA8C57BFD ∷ 0xD65F03C0 ∷ []

-- Control flow

unfoldable pub cmp_loop : List ℕ
cmp_loop = 0xEB15031F ∷ []

unfoldable pub bge_placeholder : List ℕ → ℕ × List ℕ
bge_placeholder buf = (length buf, buf ++ emit_u32 (0x5400000A ∷ []))

-- `((tgt - src) / 4) as i32 as u32`, where the division of an i64 rounds to zero
unfoldable pub insns_between : ℕ → ℕ → ℕ
insns_between src tgt =
    if leb src tgt then (tgt - src) / 4 % 2 ^ 32 else (2 ^ 32 - (src - tgt) / 4 % 2 ^ 32) % 2 ^ 32

-- The masked distance does not overlap the other bits of the two branches, so it is added.
unfoldable pub patch_bcond : ℕ → List ℕ → List ℕ
patch_bcond site buf =
    let patched = 0x5400000A + insns_between site (length buf) % 2 ^ 19 * 2 ^ 5 in
    take site buf ++ (le_bytes 4 patched ++ drop (site + 4) buf)

unfoldable pub inc_loop_ctr : List ℕ
inc_loop_ctr = 0x910006D6 ∷ []

unfoldable pub branch_back : ℕ → List ℕ → List ℕ
branch_back loop_top buf =
    buf ++ le_bytes 4 (0x14000000 + insns_between (length buf) loop_top % 2 ^ 26)

-- Words with register fields

-- `base | (m << 16) | (n << 5) | d`
unfoldable pub three_regs : ℕ → ℕ → ℕ → ℕ → ℕ
three_regs base m n d = bit_or (bit_or (bit_or base (m * 2 ^ 16)) (n * 2 ^ 5)) d

-- `base | (n << 5) | d`
unfoldable pub two_regs : ℕ → ℕ → ℕ → ℕ
two_regs base n d = bit_or (bit_or base (n * 2 ^ 5)) d

unfoldable pub load_input_ptr : ℕ → List ℕ
load_input_ptr slot =
    let imm12 = slot * 8 % 2 ^ 64 / 8 % 2 ^ 32 in
    two_regs (bit_or 0xF9400000 (imm12 * 2 ^ 10 % 2 ^ 32)) x19 x0 ∷ []

unfoldable pub ldr_f64 : ℕ → List ℕ
ldr_f64 dreg = three_regs 0xFC606800 x22 x0 dreg ∷ []

unfoldable pub ldr_f32_to_f64 : ℕ → List ℕ
ldr_f32_to_f64 dreg = three_regs 0xBC606800 x22 x0 dreg ∷ two_regs 0x1E22C000 dreg dreg ∷ []

unfoldable pub str_f64 : ℕ → List ℕ
str_f64 dreg = three_regs 0xFC206800 x22 x20 dreg ∷ []

unfoldable pub str_f32 : ℕ → List ℕ
str_f32 dreg = two_regs 0x1E624000 dreg dreg ∷ three_regs 0xBC206800 x22 x20 dreg ∷ []

-- `base | ((part & 0xFFFF) << 5) | X9`, left out by MOVK when no bit from this part on is set
unfoldable pub mov_part : ℕ → ℕ → ℕ
mov_part base part = two_regs base (part % 2 ^ 16) x9

unfoldable pub movk_unless_zero : ℕ → ℕ → List ℕ
movk_unless_zero base part = if part == 0 then [] else mov_part base part ∷ []

unfoldable pub fmov_imm64 : ℕ → ℕ → List ℕ
fmov_imm64 dreg bits =
    (mov_part 0xD2800000 bits ∷ movk_unless_zero 0xF2A00000 (bits / 2 ^ 16))
    ++ (movk_unless_zero 0xF2C00000 (bits / 2 ^ 32)
        ++ (movk_unless_zero 0xF2E00000 (bits / 2 ^ 48) ++ two_regs 0x9E670120 x9 dreg ∷ []))

unfoldable pub fmov_imm32 : ℕ → ℕ → List ℕ
fmov_imm32 dreg f32_bits =
    (mov_part 0x52800000 f32_bits ∷ movk_unless_zero 0x72A00000 (f32_bits / 2 ^ 16))
    ++ two_regs 0x1E270120 x9 dreg ∷ two_regs 0x1E22C000 dreg dreg ∷ []

unfoldable pub fmov_dd : ℕ → ℕ → List ℕ
fmov_dd dst src = two_regs 0x1E604000 src dst ∷ []

unfoldable pub fadd : ℕ → ℕ → ℕ → List ℕ
fadd dst lhs rhs = three_regs 0x1E602800 rhs lhs dst ∷ []

unfoldable pub fsub : ℕ → ℕ → ℕ → List ℕ
fsub dst lhs rhs = three_regs 0x1E603800 rhs lhs dst ∷ []

unfoldable pub fmul : ℕ → ℕ → ℕ → List ℕ
fmul dst lhs rhs = three_regs 0x1E600800 rhs lhs dst ∷ []

unfoldable pub fdiv : ℕ → ℕ → ℕ → List ℕ
fdiv dst lhs rhs = three_regs 0x1E601800 rhs lhs dst ∷ []

unfoldable pub fmadd : ℕ → ℕ → ℕ → ℕ → List ℕ
fmadd dst n m a =
    bit_or (bit_or (bit_or (bit_or 0x1F400000 (m * 2 ^ 16)) (a * 2 ^ 10)) (n * 2 ^ 5)) dst ∷ []

unfoldable pub arithmetic : BinOp → ℕ → ℕ → ℕ → List ℕ
arithmetic BinOp.add = fadd
arithmetic BinOp.sub = fsub
arithmetic BinOp.mul = fmul
arithmetic BinOp.div = fdiv

module _ (ops : FloatOps) (alloc : List ℕ) where
  -- A register out of range of `alloc` panics.
  unfoldable pub emit_inst : Inst → Outcome (List ℕ)
  emit_inst (load dst input_idx bits) = do
    dreg ← at_index alloc dst
    ok (load_input_ptr input_idx ++ (if bits == 64 then ldr_f64 dreg else ldr_f32_to_f64 dreg))
  emit_inst (const dst val bits) = do
    dreg ← at_index alloc dst
    ok (if bits == 64 then fmov_imm64 dreg val else fmov_imm32 dreg (ops.narrow val))
  emit_inst (binop dst op lhs rhs) = do
    xd ← at_index alloc dst
    xl ← at_index alloc lhs
    xr ← at_index alloc rhs
    ok (arithmetic op xd xl xr)
  emit_inst (store src bits) = do
    dreg ← at_index alloc src
    ok (if bits == 64 then str_f64 dreg else str_f32 dreg)

  unfoldable pub emit_body : List Inst → Outcome (List ℕ)
  emit_body [] = ok []
  emit_body (i ∷ is) = do code ← emit_inst i; rest ← emit_body is; ok (code ++ rest)

-- the buffer, step by step as the source pushes to it
unfoldable pub wrap_body : List ℕ → List ℕ
wrap_body body =
    let start = emit_u32 prologue in
    let loop_top = length start in
    let (bge_site, head) = bge_placeholder (start ++ emit_u32 cmp_loop) in
    let looped = branch_back loop_top ((head ++ emit_u32 body) ++ emit_u32 inc_loop_ctr) in
    patch_bcond bge_site looped ++ emit_u32 epilogue

unfoldable pub emit_kernel : FloatOps → NtProgram → Outcome (List ℕ)
emit_kernel ops prog = do
  body ← emit_body ops prog.alloc prog.insts
  let buf = wrap_body body
  if length buf == 0 then refused else ok buf

-- Compiled for another processor, the function answers `None`.
unfoldable pub emit_kernel_aarch64 : FloatOps → Bool → NtProgram → Outcome (List ℕ)
emit_kernel_aarch64 ops on_aarch64 prog = if on_aarch64 then emit_kernel ops prog else refused
