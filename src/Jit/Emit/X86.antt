-- ===== src/Jit/Emit/X86.antt =====
-- numtoy-core/src/jit/emit.rs: the x86-64 assembler, whose methods push bytes, and the kernel.
pub mod Jumps
pub mod Decode
use num_toy.Prelude.{
  ℕ, zero, suc, ◌+◌, ◌*◌, ◌%◌, ◌^◌, Bool, true, false, ◌||◌, List, [], ◌∷◌, ◌++◌, Outcome, ok,
  refused, fault, ◌>>=◌, at_index, ◌==◌, leb, if◌then◌else◌, length, take, drop, le_bytes, sub_i32,
}
use num_toy.Scalar.Float.{FloatOps}
use num_toy.Jit.Program.{BinOp, Inst, load, const, binop, store, NtProgram}

abbrev pub rax : ℕ
rax = 0

abbrev pub rbx : ℕ
rbx = 3

abbrev pub r10 : ℕ
r10 = 10

abbrev pub r14 : ℕ
r14 = 14

abbrev pub r15 : ℕ
r15 = 15

-- The bits that the source joins by `|` do not overlap, so they are added.
unfoldable pub bit_if : Bool → ℕ → ℕ
bit_if b v = if b then v else 0

unfoldable pub rex : Bool → Bool → Bool → Bool → ℕ
rex w r_ext x_ext b_ext = 0x40 + bit_if w 8 + bit_if r_ext 4 + bit_if x_ext 2 + bit_if b_ext 1

abbrev pub rex_w : ℕ
rex_w = 0x48

unfoldable pub modrm_rr : ℕ → ℕ → ℕ
modrm_rr r rm = 0xC0 + r % 8 * 8 + rm % 8

-- `xmm >= 8`, the bit that the prefix extends
abbrev pub high : ℕ → Bool
high r = leb 8 r

abbrev pub prologue : Bool → List ℕ
prologue windows =
    0x55
      ∷ 0x48
      ∷ 0x89
      ∷ 0xE5
      ∷ 0x53
      ∷ 0x41
      ∷ 0x56
      ∷ 0x41
      ∷ 0x57
      ∷ 0x48
      ∷ 0x83
      ∷ 0xEC
      ∷ 0x08
      ∷ (if windows
          then 0x48 ∷ 0x89 ∷ 0xCB ∷ 0x49 ∷ 0x89 ∷ 0xD6 ∷ 0x4D ∷ 0x89 ∷ 0xC7 ∷ []
          else 0x48 ∷ 0x89 ∷ 0xFB ∷ 0x49 ∷ 0x89 ∷ 0xF6 ∷ 0x49 ∷ 0x89 ∷ 0xD7 ∷ [])
    ++ 0x4D ∷ 0x31 ∷ 0xD2 ∷ []

abbrev pub epilogue : List ℕ
epilogue = 0x48 ∷ 0x83 ∷ 0xC4 ∷ 0x08 ∷ 0x41 ∷ 0x5F ∷ 0x41 ∷ 0x5E ∷ 0x5B ∷ 0x5D ∷ 0xC3 ∷ []

-- Control flow

unfoldable pub cmp_r64_r64 : ℕ → ℕ → List ℕ
cmp_r64_r64 l r = rex true (high l) false (high r) ∷ 0x3B ∷ modrm_rr l r ∷ []

unfoldable pub jge_rel32_placeholder : List ℕ → ℕ × List ℕ
jge_rel32_placeholder buf = let site = length buf + 2 in (site, buf ++ 0x0F ∷ 0x8D ∷ le_bytes 4 0)

unfoldable pub patch_jge : ℕ → List ℕ → List ℕ
patch_jge site buf =
    take site buf ++ (le_bytes 4 (sub_i32 (length buf) (site + 4)) ++ drop (site + 4) buf)

unfoldable pub jmp_rel32_back : ℕ → List ℕ → List ℕ
jmp_rel32_back loop_top buf = buf ++ 0xE9 ∷ le_bytes 4 (sub_i32 loop_top (length buf + 1 + 4))

unfoldable pub inc_r64 : ℕ → List ℕ
inc_r64 r = rex true false false (high r) ∷ 0xFF ∷ (0xC0 + r % 8) ∷ []

-- Memory

-- the ModRM byte of [base + disp32], that of a memory operand with a SIB byte, and the SIB bytes of
-- [base + r10 * 8] and [base + r10 * 4]
unfoldable pub modrm_disp32 : ℕ → ℕ → ℕ
modrm_disp32 r base = 0x80 + r % 8 * 8 + base % 8

unfoldable pub modrm_sib : ℕ → ℕ
modrm_sib r = r % 8 * 8 + 4

unfoldable pub sib_r10x8 : ℕ → ℕ
sib_r10x8 base = 3 * 64 + 2 * 8 + base % 8

unfoldable pub sib_r10x4 : ℕ → ℕ
sib_r10x4 base = 2 * 64 + 2 * 8 + base % 8

unfoldable pub load_input_ptr : ℕ → ℕ → ℕ → List ℕ
load_input_ptr dst base input_idx =
    rex true (high dst) false (high base)
    ∷ 0x8B
    ∷ modrm_disp32 dst base
    ∷ le_bytes 4 (input_idx * 8 % 2 ^ 32)

unfoldable pub movsd_xmm_mem_r10x8 : ℕ → ℕ → List ℕ
movsd_xmm_mem_r10x8 xmm_dst base =
    0xF2
    ∷ rex false (high xmm_dst) true (high base)
    ∷ 0x0F
    ∷ 0x10
    ∷ modrm_sib xmm_dst
    ∷ sib_r10x8 base
    ∷ []

unfoldable pub movsd_mem_r10x8_xmm : ℕ → ℕ → List ℕ
movsd_mem_r10x8_xmm base xmm_src =
    0xF2
    ∷ rex false (high xmm_src) true (high base)
    ∷ 0x0F
    ∷ 0x11
    ∷ modrm_sib xmm_src
    ∷ sib_r10x8 base
    ∷ []

-- `if dst >= 8 || src >= 8 { rex }`
unfoldable pub rex_rr : ℕ → ℕ → List ℕ
rex_rr dst src = if high dst || high src then rex false (high dst) false (high src) ∷ [] else []

unfoldable pub cvtss2sd : ℕ → ℕ → List ℕ
cvtss2sd dst src = 0xF3 ∷ rex_rr dst src ++ 0x0F ∷ 0x5A ∷ modrm_rr dst src ∷ []

unfoldable pub cvtsd2ss : ℕ → ℕ → List ℕ
cvtsd2ss dst src = 0xF2 ∷ rex_rr dst src ++ 0x0F ∷ 0x5A ∷ modrm_rr dst src ∷ []

-- `if xmm >= 8 { 0x44 }`
unfoldable pub rex_r : ℕ → List ℕ
rex_r xmm = if high xmm then 0x44 ∷ [] else []

unfoldable pub load_f32_to_xmm : ℕ → ℕ → List ℕ
load_f32_to_xmm xmm_dst base =
    rex false false true (high base) ∷ 0x8B ∷ 4 ∷ sib_r10x4 base ∷ 0x66 ∷ rex_r xmm_dst
    ++ 0x0F ∷ 0x6E ∷ modrm_rr xmm_dst rax ∷ cvtss2sd xmm_dst xmm_dst

unfoldable pub store_xmm_f32 : ℕ → ℕ → List ℕ
store_xmm_f32 base xmm_src =
    cvtsd2ss xmm_src xmm_src
    ++ 0x66 ∷ rex_r xmm_src
    ++ 0x0F
      ∷ 0x7E
      ∷ modrm_rr xmm_src rax
      ∷ rex false false true (high base)
      ∷ 0x89
      ∷ 4
      ∷ sib_r10x4 base
      ∷ []

unfoldable pub movsd_xmm_xmm : ℕ → ℕ → List ℕ
movsd_xmm_xmm xmm_dst xmm_src =
    0xF2
    ∷ rex false (high xmm_dst) false (high xmm_src)
    ∷ 0x0F
    ∷ 0x10
    ∷ modrm_rr xmm_dst xmm_src
    ∷ []

unfoldable pub movq_xmm_imm64 : ℕ → ℕ → List ℕ
movq_xmm_imm64 xmm_dst bits =
    rex_w ∷ 0xB8 ∷ le_bytes 8 bits
    ++ 0x66 ∷ rex true (high xmm_dst) false false ∷ 0x0F ∷ 0x6E ∷ modrm_rr xmm_dst rax ∷ []

unfoldable pub movd_xmm_imm32 : ℕ → ℕ → List ℕ
movd_xmm_imm32 xmm_dst bits =
    0xB8 ∷ le_bytes 4 (bits % 2 ^ 32)
    ++ 0x66 ∷ rex_r xmm_dst
    ++ 0x0F ∷ 0x6E ∷ modrm_rr xmm_dst rax ∷ []

-- SSE2 scalar double

unfoldable pub sse2_op_rr : ℕ → ℕ → ℕ → List ℕ
sse2_op_rr opcode dst src = 0xF2 ∷ rex_rr dst src ++ 0x0F ∷ opcode ∷ modrm_rr dst src ∷ []

-- `addsd`, `subsd`, `mulsd`, `divsd`
unfoldable pub opcode_of : BinOp → ℕ
opcode_of BinOp.add = 0x58
opcode_of BinOp.sub = 0x5C
opcode_of BinOp.mul = 0x59
opcode_of BinOp.div = 0x5E

module _ (ops : FloatOps) (alloc : List ℕ) where
  -- A register out of range of `alloc` panics.
  unfoldable pub emit_inst : Inst → Outcome (List ℕ)
  emit_inst (load dst input_idx bits) = do
    xmm_dst ← at_index alloc dst
    ok (
        load_input_ptr rax rbx input_idx
        ++ (if bits == 64 then movsd_xmm_mem_r10x8 xmm_dst rax else load_f32_to_xmm xmm_dst rax))
  emit_inst (const dst val bits) = do
    xmm_dst ← at_index alloc dst
    ok (
        if bits == 64
        then movq_xmm_imm64 xmm_dst val
        else movd_xmm_imm32 xmm_dst (ops.narrow val) ++ cvtss2sd xmm_dst xmm_dst)
  emit_inst (binop dst op lhs rhs) = do
    xd ← at_index alloc dst
    xl ← at_index alloc lhs
    xr ← at_index alloc rhs
    ok ((if xd == xl then [] else movsd_xmm_xmm xd xl) ++ sse2_op_rr (opcode_of op) xd xr)
  emit_inst (store src bits) = do
    xmm_src ← at_index alloc src
    ok (if bits == 64 then movsd_mem_r10x8_xmm r14 xmm_src else store_xmm_f32 r14 xmm_src)

  unfoldable pub emit_body : List Inst → Outcome (List ℕ)
  emit_body [] = ok []
  emit_body (i ∷ is) = do code ← emit_inst i; rest ← emit_body is; ok (code ++ rest)

-- the buffer, step by step as the source pushes to it
unfoldable pub wrap_body : Bool → List ℕ → List ℕ
wrap_body windows body =
    let start = prologue windows in
    let loop_top = length start in
    let (site, head) = jge_rel32_placeholder (start ++ cmp_r64_r64 r10 r15) in
    let looped = jmp_rel32_back loop_top ((head ++ body) ++ inc_r64 r10) in
    patch_jge site looped ++ epilogue

-- The buffer is never empty, so the last test of the source always answers `Some`.
unfoldable pub emit_kernel_x86_64 : FloatOps → Bool → NtProgram → Outcome (List ℕ)
emit_kernel_x86_64 ops windows prog = do
  body ← emit_body ops prog.alloc prog.insts
  let buf = wrap_body windows body
  if length buf == 0 then refused else ok buf
