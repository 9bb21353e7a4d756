-- ===== src/Jit/Correct.antt =====
-- numtoy-core/src/jit/ir.rs with jit/emit.rs: what a compiled kernel computes, against the meaning
-- of the expression.
use num_toy.Prelude.{
  ok-injective, refused-ne-ok, ℕ, zero, suc, ◌<◌, ◌≤◌, ◌≡◌, ◌≢◌, refl, sym, ◌∙◌, ap, subst, none,
  some, List, [], ◌∷◌, ◌++◌, arith, Outcome, ok, refused, fault, >>=-eq-ok, length, get_elem?,
  get_or, get_or-of-get_elem?, get_elem?-append, replicate, length-replicate, length-append,
  Bool-cases, inl, inr, get_elem?-lt, get_elem?-append_end,
}
use num_toy.Scalar.Float.{FloatOps}
use num_toy.Ir.{Expr}
use num_toy.Graph
use num_toy.Graph.{Node, ArenaGraph, from_expr}
use num_toy.Graph.Represents.{Represents, depth, from_expr-Represents}
use num_toy.Jit.Program.{Inst, load, const, binop, store, NtProgram, usize_max}
use num_toy.Jit.Run.{Regs, narrow_to, run, run_phys}
use num_toy.Jit.Shape.{Places, IsSsa, IsSsa-at}
use num_toy.Jit.Value.{value, input_ids, IsSupported}
use num_toy.Jit.Lower.{LowerCtx, lower_node}
use num_toy.Jit.Lower.Inputs.{add_all}
use num_toy.Jit.Lower.Sound
use num_toy.Jit.Lower.Correct
use num_toy.Jit.Lower.Visit.{lower_node-Lowers}
use num_toy.Jit.Alloc.{linear_scan_alloc}
use num_toy.Jit.Alloc.Scan.{linear_scan_alloc_lem}
use num_toy.Jit.Intervals.{use_pass, compute_intervals}
use num_toy.Jit.Intervals.Ssa.{Reads, use_pass-Reads, use_pass_defines}
use num_toy.Jit.Intervals.Exact.{
  own_intervals, own_intervals-IsSorted, own_intervals-OneEach, In-own_intervals,
  compute_intervals_ssa,
}
use num_toy.Jit.Compile.{root_bits, any_steals, empty_ctx, try_lower}
use num_toy.Jit.Finish.{Finished, finish-Finished}
use num_toy.Jit.Exec.{NoClash, run_phys-run}

length-zeros : (n : ℕ) → length (replicate n zero) ≡ n
length-zeros n = length-replicate n zero

module _ (xs : List Inst) (src bits : ℕ) (ssa : IsSsa 0 xs) (defined : src < length xs) where
  abbrev uses : List ℕ
  uses = use_pass 0 (xs ++ store src bits ∷ []) (replicate (length xs) 0)

  defines : (v : ℕ) → v < length xs → v ≤ get_or uses v 0
  defines v h =
      let (inst, at, p) = IsSsa-at xs v ssa h in
      omega (
        arith,
        use_pass_defines (xs ++ store src bits ∷ []) 0 v v inst (replicate (length xs) 0)
            (get_elem?-append xs _ v inst at) p (omega (arith, length-zeros (length xs))),
      )

  -- Two registers that are live together have two physical registers.
  allocated-NoClash :
      (ops : FloatOps) (loads : ℕ → ℕ) (alloc : List ℕ)
      → linear_scan_alloc (own_intervals 0 (length xs) uses) (length xs) ≡ ok alloc
      → NoClash ops loads alloc (length xs) (λ v. get_or uses v 0)
  allocated-NoClash ops loads alloc h u v less lt live =
      let a =
        linear_scan_alloc_lem (own_intervals 0 (length xs) uses) (length xs) alloc
          (own_intervals-IsSorted (length xs) 0 uses) (own_intervals-OneEach (length xs) 0 uses)
          h in
      let iu = In-own_intervals (length xs) 0 u uses (omega arith) (omega arith) in
      let iv = In-own_intervals (length xs) 0 v uses (omega arith) (omega arith) in
      let (p, at_u, bp) = a.assigned _ iu in
      let (q, at_v, bq) = a.assigned _ iv in
      let ne = a.apart _ _ p q iu iv (omega arith) (omega (arith, defines v lt)) live at_u at_v in
      λ e.
        ne (sym (get_or-of-get_elem? alloc u p 0 at_u) ∙ e ∙ get_or-of-get_elem? alloc v q 0 at_v)

  Reads-uses :
      (i v : ℕ) (inst : Inst)
      → get_elem? (xs ++ store src bits ∷ []) i ≡ some inst
      → Reads inst v
      → v < length xs
      → i ≤ get_or uses v 0
  Reads-uses i v inst at r h = omega (
    arith,
    use_pass-Reads (xs ++ store src bits ∷ []) 0 i v inst (replicate (length xs) 0) at r
        (omega (arith, length-zeros (length xs))),
  )

  Places-Reads : (k v : ℕ) (inst : Inst) → Places k inst → Reads inst v → v < k
  Places-Reads k v (load d s b) p r = absurd r
  Places-Reads k v (const d x b) p r = absurd r
  Places-Reads k v (binop d o l m) p (inl e) = omega (arith, e, p)
  Places-Reads k v (binop d o l m) p (inr e) = omega (arith, e, p)
  Places-Reads k v (store s b) p r = absurd p

  -- The allocated code stores what the SSA code leaves in the register `src`.
  run_phys_ssa :
      (ops : FloatOps) (loads : ℕ → ℕ) (alloc : List ℕ) (regs regs' : Regs)
      → linear_scan_alloc (own_intervals 0 (length xs) uses) (length xs) ≡ ok alloc
      → (run_phys ops loads alloc (xs ++ store src bits ∷ []) (regs', none)).1
        ≡ some (narrow_to ops bits (run ops loads xs regs src))
  run_phys_ssa ops loads alloc regs regs' h =
      run_phys-run ops loads alloc (length xs) (λ v. get_or uses v 0) xs src bits regs regs'
        (allocated-NoClash ops loads alloc h) ssa refl defined
        (Reads-uses (length xs) src (store src bits) (get_elem?-append_end xs [] (store src bits))
          refl defined)
        (λ i v inst at r.
          let (inst', at', p) = IsSsa-at xs i ssa (get_elem?-lt xs i inst at) in
          let same : inst' ≡ inst = cc in
          Reads-uses i v inst (get_elem?-append xs _ i inst at) r (
            omega (
              arith,
              Places-Reads i v inst (subst (λ w. Places i w) same p) r,
              get_elem?-lt xs i inst at,
            )))

Finished-run :
    (ops : FloatOps) (loads : ℕ → ℕ) (bits out : ℕ) (ctx : LowerCtx) (prog : NtProgram)
    (regs regs' : Regs)
    → Finished bits out ctx prog
    → length ctx.insts ≡ ctx.vreg_ctr
    → IsSsa 0 ctx.insts
    → out < ctx.vreg_ctr
    → (run_phys ops loads prog.alloc prog.insts (regs', none)).1
      ≡ some (narrow_to ops bits (run ops loads ctx.insts regs out))
Finished-run ops loads bits out ctx prog regs regs' f counted ssa lt =
    let xs = ctx.insts in
    let inside : out < length xs = omega (arith, counted) in
    let short : length xs ≤ usize_max =
      omega (arith, f.valid.short, ap length f.insts, length-append xs (store out bits ∷ [])) in
    let live : compute_intervals (xs ++ store out bits ∷ []) (length xs) ≡ ok prog.intervals =
      subst (λ n. compute_intervals (xs ++ store out bits ∷ []) n ≡ ok prog.intervals) (sym counted)
        f.live in
    let own : own_intervals 0 (length xs) (uses xs out bits ssa inside) ≡ prog.intervals =
      ok-injective _ _ (sym (compute_intervals_ssa xs out bits ssa inside short) ∙ live) in
    let allocated : linear_scan_alloc (own_intervals 0 (length xs) (uses xs out bits ssa inside))
          (length xs)
        ≡ ok prog.alloc =
      ap (λ ivs. linear_scan_alloc ivs (length xs)) own
      ∙ ap (linear_scan_alloc prog.intervals) counted
      ∙ f.allocated in
    subst
      (λ is.
        (run_phys ops loads prog.alloc is (regs', none)).1
        ≡ some (narrow_to ops bits (run ops loads xs regs out)))
      (sym f.insts) (run_phys_ssa xs out bits ssa inside ops loads prog.alloc regs regs' allocated)

-- The buffer of each slot, at one index: the slot's variable, in the order of first appearance.
abbrev pub slot_loads : (ℕ → ℕ) → Expr → ℕ → ℕ
slot_loads env e slot = env (get_or (add_all [] (input_ids e)) slot 0)

module _ (ops : FloatOps) (bits : ℕ) (g : List Node) (env : ℕ → ℕ) (regs : Regs) (e : Expr) where
  -- Nothing is known at the start, so all that is known is right.
  empty_ctx-Inv : (loads : ℕ → ℕ) → Sound.Inv ops bits g loads env regs (empty_ctx (length g))
  unfolding empty_ctx
  empty_ctx-Inv loads = record {
    counted = refl;
    ssa = tt;
    sized = length-replicate (length g) usize_max;
    memo = λ n v d at ne r. absurd (ne (unset (length g) n v at));
  }
    where
      unset : (k n v : ℕ) → get_elem? (replicate k usize_max) n ≡ some v → v ≡ usize_max
      unset zero n v h = absurd (cc)
      unset (suc k) zero v h = cc
      unset (suc k) (suc n) v h = unset k n v h

  lowered-Sound :
      (n : ℕ)
      → Represents g n e
      → depth e ≤ length g
      → Correct.IsSound ops bits g
          (slot_loads env e)
          env
          regs
          e
          (empty_ctx (length g))
          (lower_node ops bits g (length g) n (empty_ctx (length g)))
  unfolding empty_ctx
  lowered-Sound n r d =
      lower_node-Lowers ops bits g (slot_loads env e) env regs e (length g) n r d _
        (empty_ctx-Inv (slot_loads env e))
        (λ i x h. ap env (get_or-of-get_elem? (add_all [] (input_ids e)) i x 0 h))

-- What compiling promises of an accepted program.
pub record Compiles (ops : FloatOps) (e : Expr) (prog : NtProgram) : Type 0 where
  -- one pointer for each distinct id
  pub inputs : prog.num_inputs ≡ length (add_all [] (input_ids e))
  -- One round of the loop stores the value, with every buffer read in the program's width.
  pub stores :
      (env : ℕ → ℕ) (regs : Regs)
      → (run_phys ops (slot_loads env e) prog.alloc prog.insts (regs, none)).1
        ≡ some (narrow_to ops prog.bits (value ops prog.bits env e))

lowered-Compiles :
    (ops : FloatOps) (bits : ℕ) (g : List Node) (e : Expr) (n out : ℕ) (ctx : LowerCtx)
    (prog : NtProgram)
    → Represents g n e
    → depth e ≤ length g
    → lower_node ops bits g (length g) n (empty_ctx (length g)) ≡ ok (out, ctx)
    → Finished bits out ctx prog
    → Compiles ops e prog
lowered-Compiles ops bits g e n out ctx prog r d low f =
    let lowered = λ (env : ℕ → ℕ) (regs : Regs).
      subst (Correct.IsSound ops bits g (slot_loads env e) env regs e (empty_ctx (length g))) low
        (lowered-Sound ops bits g env regs e n r d) in
    record {
      inputs = f.inputs ∙ ap length (unfold empty_ctx in (lowered (λ _. 0) (λ _. 0)).inputs);
      stores = λ env regs.
          let l = lowered env (λ _. 0) in
          Finished-run ops (slot_loads env e) bits out ctx prog (λ _. 0) regs f l.inv.counted
            l.inv.ssa l.known.defined
          ∙ ap (λ v. some (narrow_to ops bits v)) l.known.holds
          ∙ ap (λ b. some (narrow_to ops b (value ops b env e))) (sym f.width);
    }

-- Every program that `try_lower` accepts, for an arena whose root spells out `e` in paths no longer
-- than the arena, has one input for each distinct id of a variable of `e`, and run on the allocated
-- physical registers, whatever they hold at first, stores what `value` says: each variable is read from
-- the buffer of its id, in the width of the root.
pub try_lower-Compiles :
    (ops : FloatOps) (g : ArenaGraph) (e : Expr) (prog : NtProgram)
    → Represents g.nodes g.root e
    → depth e ≤ length g.nodes
    → try_lower ops g ≡ ok prog
    → Compiles ops e prog
unfolding try_lower
try_lower-Compiles ops g e prog r d h =
    let (dtype, typed, h₁) = >>=-eq-ok (Graph.data_type g g.root) _ h in
    let (bits, wide, h₂) = >>=-eq-ok (root_bits dtype) _ h₁ in
    elim (Bool-cases (any_steals g.nodes)) [
      | inl s ↦ absurd (refused-ne-ok prog (rw s at h₂))
      | inr s ↦
          let ((out, ctx), low, fin) =
            >>=-eq-ok
              (lower_node ops bits g.nodes (length g.nodes) g.root (empty_ctx (length g.nodes))) _
              (rw s at h₂) in
          lowered-Compiles ops bits g.nodes e g.root out ctx prog r d low
            (finish-Finished bits out ctx prog fin)
    ]

-- The same for the arena that `from_expr` builds.
pub from_expr-Compiles :
    (ops : FloatOps) (e : Expr) (prog : NtProgram)
    → try_lower ops (from_expr e) ≡ ok prog
    → Compiles ops e prog
from_expr-Compiles ops e prog h =
    let (r, d) = from_expr-Represents e in try_lower-Compiles ops (from_expr e) e prog r d h

settled :
    (ops : FloatOps) (bits : ℕ) (g : List Node) (e : Expr) (ctx : LowerCtx)
    (out : Outcome (ℕ × LowerCtx))
    → Correct.IsSound ops bits g (slot_loads (λ _. 0) e) (λ _. 0) (λ _. 0) e ctx out
    → (out ≢ fault) × (IsSupported e → (v : ℕ) × (ctx : LowerCtx) × (out ≡ ok (v, ctx)))
settled ops bits g e ctx (ok (v, c)) s = (λ q. cc, λ h. (v, c, refl))
settled ops bits g e ctx refused s = (λ q. cc, λ h. absurd (s h))
settled ops bits g e ctx fault s = absurd s

-- Lowering the arena that `from_expr` builds never panics and always ends within its fuel, the number
-- of nodes; and it succeeds on every expression without a matmul whose variables are 32- or 64-bit
-- floats.
pub lower_node-total :
    (ops : FloatOps) (bits : ℕ) (e : Expr)
    → let g = (from_expr e).nodes in
      let out = lower_node ops bits g (length g) (from_expr e).root (empty_ctx (length g)) in
      (out ≢ fault) × (IsSupported e → (v : ℕ) × (ctx : LowerCtx) × (out ≡ ok (v, ctx)))
lower_node-total ops bits e =
    let (r, d) = from_expr-Represents e in
    let g = (from_expr e).nodes in
    settled ops bits g e (empty_ctx (length g)) _
      (lowered-Sound ops bits g (λ _. 0) (λ _. 0) e (from_expr e).root r d)
