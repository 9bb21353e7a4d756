-- ===== src/Jit/Intervals.antt =====
-- numtoy-core/src/jit/ir.rs: live intervals.
pub mod Sort
pub mod Ssa
pub mod Exact
pub mod LastUse
use num_toy.Prelude.{
  ℕ, suc, ◌+◌, Bool, Option, none, some, List, [], ◌∷◌, Outcome, ok, fault, ◌==◌, if◌then◌else◌,
  get_or, set, replicate, max,
}
use num_toy.Jit.Program.{Inst, load, const, binop, store, LiveInterval, usize_max}
use num_toy.Jit.Bounds.{first_bad}
use Sort.{sort_by_start}

-- `if first_def[dst] == usize::MAX { first_def[dst] = idx; }`
unfoldable pub note_def : ℕ → ℕ → List ℕ → List ℕ
note_def idx dst first_def =
    if get_or first_def dst usize_max == usize_max then set first_def dst idx else first_def

-- `last_use[v] = last_use[v].max(idx)`
unfoldable pub note_use : ℕ → ℕ → List ℕ → List ℕ
note_use idx v last_use = set last_use v (max (get_or last_use v 0) idx)

unfoldable pub def_step : ℕ → Inst → List ℕ → List ℕ
def_step idx (load dst _ _) first_def = note_def idx dst first_def
def_step idx (const dst _ _) first_def = note_def idx dst first_def
def_step idx (binop dst _ _ _) first_def = note_def idx dst first_def
def_step idx (store _ _) first_def = first_def

unfoldable pub use_step : ℕ → Inst → List ℕ → List ℕ
use_step idx (load dst _ _) last_use = note_use idx dst last_use
use_step idx (const dst _ _) last_use = note_use idx dst last_use
use_step idx (binop dst _ lhs rhs) last_use =
    note_use idx rhs (note_use idx lhs (note_use idx dst last_use))
use_step idx (store src _) last_use = note_use idx src last_use

-- The loop over the instructions, which fills both tables, from instruction `idx` on.
unfoldable pub def_pass : ℕ → List Inst → List ℕ → List ℕ
def_pass idx [] first_def = first_def
def_pass idx (i ∷ is) first_def = def_pass (suc idx) is (def_step idx i first_def)

unfoldable pub use_pass : ℕ → List Inst → List ℕ → List ℕ
use_pass idx [] last_use = last_use
use_pass idx (i ∷ is) last_use = use_pass (suc idx) is (use_step idx i last_use)

-- the interval of each register that is defined, from register `v` on
unfoldable pub collect : ℕ → List ℕ → List ℕ → List LiveInterval
collect v [] last_use = []
collect v (d ∷ ds) last_use =
    let rest = collect (suc v) ds last_use in
    if d == usize_max
    then rest
    else record { vreg = v; start = d; end = get_or last_use v 0 } ∷ rest

-- An index out of range panics, that is, where an instruction names a register that is not below
-- `num_vregs`.
unfoldable pub compute_intervals : List Inst → ℕ → Outcome (List LiveInterval)
compute_intervals insts num_vregs = elim (first_bad num_vregs 0 insts) [
  | some _ ↦ fault
  | none ↦ ok (
      sort_by_start (
        collect 0 (def_pass 0 insts (replicate num_vregs usize_max))
          (use_pass 0 insts (replicate num_vregs 0))))
]
