-- ===== src/Jit/Alloc.antt =====
-- numtoy-core/src/jit/ir.rs: the linear-scan register allocator.
pub mod Expire
pub mod Scan
use mathlib.Core.Option
use num_toy.Prelude.{
  ℕ, suc, Bool, true, false, Option, none, some, List, [], ◌∷◌, ◌++◌, Outcome, ok, fault, ◌>>=◌,
  of_option, ltb, if◌then◌else◌, length, set, replicate,
}
use num_toy.Jit.Program.{LiveInterval, num_phys_regs}

-- an interval that holds a physical register
pub record Active : Type 0 where
  pub end : ℕ
  pub vreg : ℕ
  pub preg : ℕ

-- `active.retain(…)`: an interval that ends before `start` gives its register back.
unfoldable pub expire : ℕ → List Active → List Bool → List Active × List Bool
expire start [] free = ([], free)
expire start (a ∷ rest) free =
    let gone = ltb a.end start in
    let (kept, free') = expire start rest (if gone then set free a.preg true else free) in
    (if gone then kept else a ∷ kept, free')

-- `free.iter().position(|&f| f)`
unfoldable pub free_reg : List Bool → Option ℕ
free_reg [] = none
free_reg (f ∷ fs) = if f then some 0 else Option.map suc (free_reg fs)

-- `refused` is the spill that falls back to Cranelift.
unfoldable pub scan : List LiveInterval → List ℕ → List Bool → List Active → Outcome (List ℕ)
scan [] alloc free active = ok alloc
scan (iv ∷ ivs) alloc free active =
    let (kept, free') = expire iv.start active free in
    of_option (free_reg free') >>= λ preg.
    if ltb iv.vreg (length alloc)
    then scan ivs (set alloc iv.vreg preg) (set free' preg false)
        (kept ++ record { end = iv.end; vreg = iv.vreg; preg = preg } ∷ [])
    else fault

unfoldable pub linear_scan_alloc : List LiveInterval → ℕ → Outcome (List ℕ)
linear_scan_alloc intervals num_vregs =
    scan intervals (replicate num_vregs 0) (replicate num_phys_regs true) []
