-- ===== src/Jit/Bounds/Valid.antt =====
-- numtoy-core/src/jit/bounds.rs: which programs `check_program` accepts.
use num_toy.Prelude.{
  ℕ, ◌+◌, refl, List, [], ◌∷◌, false, some, Bool-cases, inl, inr, ◌≤◌, ◌<◌, ◌≡◌, ◌⊎◌, ◌↔◌, true,
  none, arith, length,
}
use num_toy.Jit.Program.{Inst, load, const, binop, store, NtProgram}
use num_toy.Jit.Bounds.{check_program, nan_report, first_bad, is_bad, max_insts, max_inputs}

-- the registers of an instruction are below `n`
abbrev pub InRange : ℕ → Inst → Type 0
InRange n (load dst _ _) = dst < n
InRange n (const dst _ _) = dst < n
InRange n (binop dst _ lhs rhs) = (dst < n) × (lhs < n) × (rhs < n)
InRange n (store src _) = src < n

abbrev pub AllInRange : ℕ → List Inst → Type 0
AllInRange n [] = Unit
AllInRange n (i ∷ is) = InRange n i × AllInRange n is

is_bad-InRange : (n : ℕ) (i : Inst) → (is_bad n i ≡ false) ↔ InRange n i
unfolding is_bad
is_bad-InRange n (load d s b) = (λ h. ground arith, λ h. ground arith)
is_bad-InRange n (const d s b) = (λ h. ground arith, λ h. ground arith)
is_bad-InRange n (binop d o l r) =
    (λ h. (ground arith, ground arith, ground arith), λ h. ground arith)
is_bad-InRange n (store s b) = (λ h. ground arith, λ h. ground arith)

first_bad-AllInRange : (n idx : ℕ) (is : List Inst) → (first_bad n idx is ≡ none) ↔ AllInRange n is
unfolding first_bad
first_bad-AllInRange n idx [] = (λ h. tt, λ h. refl)
first_bad-AllInRange n idx (i ∷ is) =
    let (good, all) = is_bad-InRange n i in
    let (ahead, back) = first_bad-AllInRange n (idx + 1) is in
    (
      λ h. elim (Bool-cases (is_bad n i)) [
        | inl e ↦ let found : some idx ≡ none = rw e at h in cc
        | inr e ↦ (good e, ahead (rw e at h))
      ],
      λ (h, hs). rw (all h) (back hs),
    )

-- the limits and ranges that the report promises
pub record IsWellFormed (prog : NtProgram) : Type 0 where
  pub nonempty : 0 < length prog.insts
  pub short : length prog.insts ≤ max_insts
  pub few_inputs : prog.num_inputs ≤ max_inputs
  pub allocated : length prog.alloc ≡ prog.num_vregs
  -- every register that an instruction writes or reads is one of the program's
  pub in_range : AllInRange prog.num_vregs prog.insts
  pub width : (prog.bits ≡ 32) ⊎ (prog.bits ≡ 64)

-- `check_program` calls a program valid exactly when it is well formed.
pub check_program-IsWellFormed :
    (prog : NtProgram) → ((check_program prog).structurally_valid ≡ true) ↔ IsWellFormed prog
unfolding check_program nan_report
check_program-IsWellFormed prog =
    let (ahead, back) = first_bad-AllInRange prog.num_vregs 0 prog.insts in
    (
      λ h.
          let found : first_bad prog.num_vregs 0 prog.insts ≡ none = ground arith in
          record {
            nonempty = ground arith;
            short = ground arith;
            few_inputs = ground arith;
            allocated = ground arith;
            in_range = ahead found;
            width = ground arith;
          },
      λ w. let found = back w.in_range in ground (arith, found),
    )
