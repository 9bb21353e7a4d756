-- ===== src/Tests/Jit.antt =====
-- The custom JIT on small inputs.
use num_toy.Prelude.{
  some, ◌<◌, get_elem?, ℕ, ◌≡◌, ◌≢◌, ◌↔◌, refl, true, false, none, ok, fault, List, [], ◌∷◌, ◌++◌,
  arith, length, replicate,
}
use num_toy.Scalar.{to_double}
use num_toy.Graph
use num_toy.Graph.{from_expr, traverse, data_type_at, node_type}
use num_toy.Graph.Represents.{from_expr-Represents}
use num_toy.Jit.Program.{NtProgram, BinOp, Inst, load, const, binop, store, LiveInterval}
use num_toy.Jit.Compile.{try_lower, root_bits, any_steals, steals, empty_ctx, finish}
use num_toy.Jit.Lower.{
  LowerCtx, lower_node, lower_kind, lower_variable, lower_binop, remember, define, is_ieee,
}
use num_toy.Jit.Lower.Inputs.{input_slot, position, add_all}
use num_toy.Jit.Shape.{IsSsa}
use num_toy.Jit.Value.{IsSupported, input_ids}
use num_toy.Jit.Intervals.{
  compute_intervals, def_pass, use_pass, def_step, use_step, note_def, note_use, collect,
}
use num_toy.Jit.Intervals.Sort.{sort_by_start, insert_by_start}
use num_toy.Jit.Intervals.Exact.{own_intervals, own_intervals-IsSorted, own_intervals-OneEach}
use num_toy.Jit.Alloc.{linear_scan_alloc, scan, expire, free_reg}
use num_toy.Jit.Alloc.Scan.{linear_scan_alloc_lem, Allocated}
use num_toy.Jit.Bounds.{
  check_program, first_bad, is_bad, nan_report, nan_pass, nan_step, overflow_pass, flagged,
  check_width, alloc_guarded_buffer, verify_guard_zone,
}
use num_toy.Jit.Bounds.Valid.{IsWellFormed, check_program-IsWellFormed}
use num_toy.Jit.Bounds.Guard.{IsIntact, verify_guard_zone-IsIntact}
use num_toy.Jit.Emit.X86.{
  emit_kernel_x86_64, emit_body, emit_inst, wrap_body, patch_jge, jmp_rel32_back,
  jge_rel32_placeholder, cmp_r64_r64, inc_r64, rex, bit_if, modrm_rr, modrm_disp32, modrm_sib,
  sib_r10x8, load_input_ptr, movsd_xmm_mem_r10x8, movsd_mem_r10x8_xmm, rex_rr, movsd_xmm_xmm,
  movq_xmm_imm64, sse2_op_rr, opcode_of,
}
use num_toy.Jit.Emit.X86.Jumps.{Loops, emit_kernel_x86_64-Loops}
use num_toy.Jit.Emit.X86.Decode.{ReadsBack, decode_reg_reg-emit}
use num_toy.Jit.Correct.{slot_loads, lower_node-total}
use num_toy.Jit.Run.{narrow_to}
use num_toy.Jit.Stores.{element, stored, pointer_loads, try_lower-element, kernel_inputs-element}
use num_toy.Jit.Intervals.LastUse.{IsLastUse, compute_intervals-IsLastUse}
use num_toy.Kernel.{kernel_inputs}
use num_toy.Tests.Inputs.{toy, small}

abbrev small_insts : List Inst
small_insts =
    load 0 0 64
    ∷ load 1 1 64
    ∷ load 2 0 64
    ∷ binop 3 BinOp.mul 1 2
    ∷ const 4 5 64
    ∷ binop 5 BinOp.div 3 4
    ∷ binop 6 BinOp.add 0 5
    ∷ []

abbrev small_intervals : List LiveInterval
small_intervals = own_intervals 0 7 (6 ∷ 3 ∷ 3 ∷ 5 ∷ 5 ∷ 6 ∷ 7 ∷ [])

abbrev small_alloc : List ℕ
small_alloc = 0 ∷ 1 ∷ 2 ∷ 3 ∷ 1 ∷ 2 ∷ 1 ∷ []

abbrev small_program : NtProgram
small_program = record {
  insts = small_insts ++ store 6 64 ∷ [];
  num_vregs = 7;
  num_inputs = 2;
  output_vreg = 6;
  bits = 64;
  alloc = small_alloc;
  intervals = small_intervals;
  bounds = record {
    nan_vregs = 5 ∷ 6 ∷ [];
    overflow_sites = 5 ∷ [];
    structurally_valid = true;
    first_violation = none;
  };
}

small_lowered : try_lower toy (from_expr small) ≡ ok small_program
unfolding try_lower root_bits any_steals steals empty_ctx finish lower_node lower_kind
    lower_variable lower_binop remember define is_ieee input_slot position traverse from_expr
    Graph.data_type data_type_at node_type to_double compute_intervals def_pass use_pass def_step
    use_step note_def note_use collect sort_by_start insert_by_start linear_scan_alloc scan expire
    free_reg check_program first_bad is_bad nan_report nan_pass nan_step overflow_pass flagged
    check_width
small_lowered = refl

try_lower-element_example :
    (small_program.num_inputs ≡ length (add_all [] (input_ids small)))
    × (stored toy (slot_loads (λ id. id) small) small_program (λ r. 0)
        ≡ some (narrow_to toy 64 (element toy 64 (λ v. v.id) small)))
try_lower-element_example =
    try_lower-element toy (from_expr small) small small_program (λ id. id) (λ v. v.id) (λ r. 0)
      (from_expr-Represents small).0 (from_expr-Represents small).1 small_lowered
      (refl, ((refl, refl), tt)) (refl, ((refl, refl), tt))

small-IsSupported : IsSupported small
unfolding is_ieee
small-IsSupported = (refl, ((refl, refl), tt))

lower_node-total_example :
    let g = (from_expr small).nodes in
    let out = lower_node toy 64 g (length g) (from_expr small).root (empty_ctx (length g)) in
    (out ≢ fault) × (IsSupported small → (v : ℕ) × (ctx : LowerCtx) × (out ≡ ok (v, ctx)))
lower_node-total_example = lower_node-total toy 64 small

small_allocated : linear_scan_alloc small_intervals 7 ≡ ok small_alloc
unfolding linear_scan_alloc scan expire free_reg
small_allocated = refl

linear_scan_alloc_lem_example : Allocated small_intervals 7 small_alloc
linear_scan_alloc_lem_example =
    linear_scan_alloc_lem small_intervals 7 small_alloc
      (own_intervals-IsSorted 7 0 (6 ∷ 3 ∷ 3 ∷ 5 ∷ 5 ∷ 6 ∷ 7 ∷ []))
      (own_intervals-OneEach 7 0 (6 ∷ 3 ∷ 3 ∷ 5 ∷ 5 ∷ 6 ∷ 7 ∷ [])) small_allocated

small-IsSsa : IsSsa 0 small_insts
small-IsSsa = (
  refl,
  (
    refl,
    (
      refl,
      (
        (refl, omega arith, omega arith),
        (refl, ((refl, omega arith, omega arith), ((refl, omega arith, omega arith), tt))),
      ),
    ),
  ),
)

compute_intervals-IsLastUse_example :
    (ivs : List LiveInterval) × (compute_intervals
        (small_insts ++ store 6 64 ∷ [])
        (length small_insts)
      ≡ ok ivs)
    × (length ivs ≡ length small_insts)
    × ((v : ℕ)
        → v < length small_insts
        → (end : ℕ) × (get_elem? ivs v ≡ some (record { vreg = v; start = v; end = end }))
          × IsLastUse (small_insts ++ store 6 64 ∷ []) v end)
compute_intervals-IsLastUse_example =
    compute_intervals-IsLastUse small_insts 6 64 small-IsSsa (omega arith) (omega arith)

check_program-IsWellFormed_example :
    ((check_program small_program).structurally_valid ≡ true) ↔ IsWellFormed small_program
check_program-IsWellFormed_example = check_program-IsWellFormed small_program

verify_guard_zone-IsIntact_example :
    ((verify_guard_zone (replicate 64 0xAB ++ (7 ∷ []) ++ (0xAB ∷ [])) 1 ≡ true)
      ↔ (IsIntact (replicate 64 0xAB) × IsIntact (0xAB ∷ [])))
    × ((n : ℕ)
        → (verify_guard_zone (alloc_guarded_buffer n).0 n ≡ true)
          × ((alloc_guarded_buffer n).1 ≡ 64))
verify_guard_zone-IsIntact_example =
    verify_guard_zone-IsIntact (replicate 64 0xAB) (7 ∷ []) (0xAB ∷ []) refl

-- the machine code of the small program
abbrev small_code : List ℕ
small_code =
    85 ∷ 72 ∷ 137 ∷ 229 ∷ 83 ∷ 65 ∷ 86 ∷ 65 ∷ 87 ∷ 72 ∷ 131 ∷ 236 ∷ 8 ∷ 72 ∷ 137 ∷ 251 ∷ 73 ∷ 137
    ∷ 246 ∷ 73 ∷ 137 ∷ 215 ∷ 77 ∷ 49 ∷ 210 ∷ 77 ∷ 59 ∷ 215 ∷ 15 ∷ 141 ∷ 95 ∷ 0 ∷ 0 ∷ 0 ∷ 72 ∷ 139
    ∷ 131 ∷ 0 ∷ 0 ∷ 0 ∷ 0 ∷ 242 ∷ 66 ∷ 15 ∷ 16 ∷ 4 ∷ 208 ∷ 72 ∷ 139 ∷ 131 ∷ 8 ∷ 0 ∷ 0 ∷ 0 ∷ 242 ∷ 66
    ∷ 15 ∷ 16 ∷ 12 ∷ 208 ∷ 72 ∷ 139 ∷ 131 ∷ 0 ∷ 0 ∷ 0 ∷ 0 ∷ 242 ∷ 66 ∷ 15 ∷ 16 ∷ 20 ∷ 208 ∷ 242 ∷ 64
    ∷ 15 ∷ 16 ∷ 217 ∷ 242 ∷ 15 ∷ 89 ∷ 218 ∷ 72 ∷ 184 ∷ 5 ∷ 0 ∷ 0 ∷ 0 ∷ 0 ∷ 0 ∷ 0 ∷ 0 ∷ 102 ∷ 72 ∷ 15
    ∷ 110 ∷ 200 ∷ 242 ∷ 64 ∷ 15 ∷ 16 ∷ 211 ∷ 242 ∷ 15 ∷ 94 ∷ 209 ∷ 242 ∷ 64 ∷ 15 ∷ 16 ∷ 200 ∷ 242
    ∷ 15 ∷ 88 ∷ 202 ∷ 242 ∷ 67 ∷ 15 ∷ 17 ∷ 12 ∷ 214 ∷ 73 ∷ 255 ∷ 194 ∷ 233 ∷ 152 ∷ 255 ∷ 255 ∷ 255
    ∷ 72 ∷ 131 ∷ 196 ∷ 8 ∷ 65 ∷ 95 ∷ 65 ∷ 94 ∷ 91 ∷ 93 ∷ 195 ∷ []

small_emitted : emit_kernel_x86_64 toy false small_program ≡ ok small_code
unfolding emit_kernel_x86_64 emit_body emit_inst wrap_body patch_jge jmp_rel32_back
    jge_rel32_placeholder cmp_r64_r64 inc_r64 rex bit_if modrm_rr modrm_disp32 modrm_sib sib_r10x8
    load_input_ptr movsd_xmm_mem_r10x8 movsd_mem_r10x8_xmm rex_rr movsd_xmm_xmm movq_xmm_imm64
    sse2_op_rr opcode_of
small_emitted = refl

emit_kernel_x86_64-Loops_example : Loops false small_code
emit_kernel_x86_64-Loops_example =
    emit_kernel_x86_64-Loops toy false small_program small_code small_emitted (omega arith)

decode_reg_reg-emit_example : ReadsBack 9 3 (0xC3 ∷ [])
decode_reg_reg-emit_example = decode_reg_reg-emit 9 3 (0xC3 ∷ []) (omega arith) (omega arith)

kernel_inputs-element_example :
    (length (kernel_inputs small) ≡ small_program.num_inputs)
    × (stored toy (pointer_loads (λ id. id) (kernel_inputs small)) small_program (λ r. 0)
        ≡ some (narrow_to toy 64 (element toy 64 (λ v. v.id) small)))
kernel_inputs-element_example =
    kernel_inputs-element toy small small_program (λ id. id) (λ v. v.id) (λ r. 0) small_lowered
      (refl, ((refl, refl), tt)) (refl, ((refl, refl), tt))
