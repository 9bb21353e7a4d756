-- ===== src/Jit/Bounds.antt =====
-- numtoy-core/src/jit/bounds.rs: the static checks, and the guard zone round an output buffer.
pub mod Valid
pub mod Guard
use num_toy.Prelude.{
  ℕ, ◌+◌, Bool, true, false, not, ◌&&◌, ◌||◌, Option, none, some, List, [], ◌∷◌, ◌++◌, ltb, leb,
  ◌==◌, if◌then◌else◌, length, get_or, set, replicate, take, drop,
}
use num_toy.Jit.Program.{
  BinOp, Inst, load, const, binop, store, BoundsReport, NtProgram, Violation, zero_instructions,
  too_many_insts, too_many_inputs, alloc_length, vreg_out_of_range, unsupported_width,
}

abbrev pub guard_bytes : ℕ
guard_bytes = 64

abbrev pub guard_canary : ℕ
guard_canary = 0xAB

abbrev pub max_insts : ℕ
max_insts = 4096

abbrev pub max_inputs : ℕ
max_inputs = 256

-- `BoundsReport::default()`
abbrev pub default_report : BoundsReport
default_report = record {
  nan_vregs = [];
  overflow_sites = [];
  structurally_valid = false;
  first_violation = none;
}

-- `BoundsReport { structurally_valid: true, ..Default::default() }`
abbrev pub clean_report : BoundsReport
clean_report = record {
  nan_vregs = [];
  overflow_sites = [];
  structurally_valid = true;
  first_violation = none;
}

abbrev pub reject : Violation → BoundsReport
reject v = record clean_report { structurally_valid = false; first_violation = some v }

unfoldable pub is_bad : ℕ → Inst → Bool
is_bad n (load dst _ _) = leb n dst
is_bad n (const dst _ _) = leb n dst
is_bad n (binop dst _ lhs rhs) = leb n dst || leb n lhs || leb n rhs
is_bad n (store src _) = leb n src

-- the index of the first instruction with a register out of range
unfoldable pub first_bad : ℕ → ℕ → List Inst → Option ℕ
first_bad n idx [] = none
first_bad n idx (i ∷ is) = if is_bad n i then some idx else first_bad n (idx + 1) is

abbrev pub is_div : BinOp → Bool
is_div BinOp.div = true
is_div BinOp.add = false
is_div _ = false

-- one round of the dataflow: the flags `may_nan`
unfoldable pub nan_step : Inst → List Bool → List Bool
nan_step (binop dst op lhs rhs) may_nan =
    if is_div op || get_or may_nan lhs false || get_or may_nan rhs false
    then set may_nan dst true
    else may_nan
nan_step (load _ _ _) may_nan = may_nan
nan_step _ may_nan = may_nan

unfoldable pub nan_pass : List Inst → List Bool → List Bool
nan_pass [] may_nan = may_nan
nan_pass (i ∷ is) may_nan = nan_pass is (nan_step i may_nan)

abbrev pub is_div_inst : Inst → Bool
is_div_inst (binop _ op _ _) = is_div op
is_div_inst (load _ _ _) = false
is_div_inst _ = false

unfoldable pub overflow_pass : ℕ → List Inst → List ℕ
overflow_pass idx [] = []
overflow_pass idx (i ∷ is) =
    let rest = overflow_pass (idx + 1) is in if is_div_inst i then idx ∷ rest else rest

-- `(0..n).filter(|&v| may_nan[v])`, from index v on
unfoldable pub flagged : ℕ → List Bool → List ℕ
flagged v [] = []
flagged v (b ∷ bs) = let rest = flagged (v + 1) bs in if b then v ∷ rest else rest

unfoldable pub nan_report : NtProgram → BoundsReport
nan_report prog = record clean_report {
  nan_vregs = flagged 0 (nan_pass prog.insts (replicate prog.num_vregs false));
  overflow_sites = overflow_pass 0 prog.insts;
}

-- the last check, on a report that is otherwise finished
unfoldable pub check_width : NtProgram → BoundsReport → BoundsReport
check_width prog report =
    if not (prog.bits == 32) && not (prog.bits == 64)
    then record report {
      structurally_valid = false;
      first_violation = some (unsupported_width prog.bits);
    }
    else report

unfoldable pub check_program : NtProgram → BoundsReport
unfolding first_bad is_bad nan_report check_width
check_program prog =
    if length prog.insts == 0
    then reject zero_instructions
    else if ltb max_insts (length prog.insts)
    then reject (too_many_insts (length prog.insts))
    else if ltb max_inputs prog.num_inputs
    then reject (too_many_inputs prog.num_inputs)
    else if not (length prog.alloc == prog.num_vregs)
    then reject (alloc_length (length prog.alloc) prog.num_vregs)
    else elim (first_bad prog.num_vregs 0 prog.insts) [
      | some idx ↦ reject (vreg_out_of_range idx prog.num_vregs)
      | none ↦ check_width prog (nan_report prog)
    ]

-- the buffer, and where its data starts
unfoldable pub alloc_guarded_buffer : ℕ → List ℕ × ℕ
alloc_guarded_buffer data_bytes = (
  replicate guard_bytes guard_canary
      ++ (replicate data_bytes 0 ++ replicate guard_bytes guard_canary),
  guard_bytes,
)

unfoldable pub all_canary : List ℕ → Bool
all_canary [] = true
all_canary (b ∷ bs) = b == guard_canary && all_canary bs

-- `false` is the panic on a byte that was overwritten. The buffer holds at least the leading guard
-- and the data.
unfoldable pub verify_guard_zone : List ℕ → ℕ → Bool
verify_guard_zone buf data_bytes =
    all_canary (take guard_bytes buf) && all_canary (drop (guard_bytes + data_bytes) buf)
