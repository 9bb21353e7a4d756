-- ===== src/Jit/Finish.antt =====
-- The second half of `try_lower`: what an accepted program is made of.
use num_toy.Prelude.{
  ℕ, ◌≡◌, refl, true, List, [], ◌∷◌, ◌++◌, ok, >>=-eq-ok, length, Bool-cases, inl, inr, subst,
  ok-injective, refused-ne-ok,
}
use num_toy.Jit.Program.{store, NtProgram, LiveInterval}
use num_toy.Jit.Bounds.{check_program, default_report}
use num_toy.Jit.Bounds.Valid.{IsWellFormed, check_program-IsWellFormed}
use num_toy.Jit.Lower.{LowerCtx}
use num_toy.Jit.Intervals.{compute_intervals}
use num_toy.Jit.Alloc.{linear_scan_alloc}
use num_toy.Jit.Compile.{finish}

-- An accepted program holds the lowered instructions and the store, with liveness and allocation as
-- computed, and is well formed.
pub record Finished (bits out_vreg : ℕ) (ctx : LowerCtx) (prog : NtProgram) : Type 0 where
  pub insts : prog.insts ≡ ctx.insts ++ store out_vreg bits ∷ []
  pub vregs : prog.num_vregs ≡ ctx.vreg_ctr
  pub inputs : prog.num_inputs ≡ length ctx.input_map
  pub output : prog.output_vreg ≡ out_vreg
  pub width : prog.bits ≡ bits
  pub live :
      compute_intervals (ctx.insts ++ store out_vreg bits ∷ []) ctx.vreg_ctr ≡ ok prog.intervals
  pub allocated : linear_scan_alloc prog.intervals ctx.vreg_ctr ≡ ok prog.alloc
  pub valid : IsWellFormed prog

module _ (bits out_vreg : ℕ) (ctx : LowerCtx) (intervals : List LiveInterval) (alloc : List ℕ) where
  abbrev made : NtProgram
  made = record {
    insts = ctx.insts ++ store out_vreg bits ∷ [];
    num_vregs = ctx.vreg_ctr;
    num_inputs = length ctx.input_map;
    output_vreg = out_vreg;
    bits = bits;
    alloc = alloc;
    intervals = intervals;
    bounds = default_report;
  }

  made-Finished :
      (prog : NtProgram)
      → compute_intervals (ctx.insts ++ store out_vreg bits ∷ []) ctx.vreg_ctr ≡ ok intervals
      → linear_scan_alloc intervals ctx.vreg_ctr ≡ ok alloc
      → (check_program made).structurally_valid ≡ true
      → record made { bounds = check_program made } ≡ prog
      → Finished bits out_vreg ctx prog
  made-Finished prog live allocated valid e =
      let w = (check_program-IsWellFormed made).0 valid in
      subst (Finished bits out_vreg ctx) e (record {
        insts = refl;
        vregs = refl;
        inputs = refl;
        output = refl;
        width = refl;
        live = live;
        allocated = allocated;
        valid = record {
          nonempty = w.nonempty;
          short = w.short;
          few_inputs = w.few_inputs;
          allocated = w.allocated;
          in_range = w.in_range;
          width = w.width;
        };
      })

pub finish-Finished :
    (bits out_vreg : ℕ) (ctx : LowerCtx) (prog : NtProgram)
    → finish bits out_vreg ctx ≡ ok prog
    → Finished bits out_vreg ctx prog
unfolding finish check_program
finish-Finished bits out_vreg ctx prog h =
    let (intervals, live, h₁) =
      >>=-eq-ok (compute_intervals (ctx.insts ++ store out_vreg bits ∷ []) ctx.vreg_ctr) _ h in
    let (alloc, allocated, h₂) = >>=-eq-ok (linear_scan_alloc intervals ctx.vreg_ctr) _ h₁ in
    let prog₀ = made bits out_vreg ctx intervals alloc in
    elim (Bool-cases (check_program prog₀).structurally_valid) [
      | inl valid ↦
          made-Finished bits out_vreg ctx intervals alloc prog live allocated valid
            (ok-injective _ prog (rw valid at h₂))
      | inr invalid ↦ absurd (refused-ne-ok prog (rw invalid at h₂))
    ]
