-- ===== src/Jit/Exec.antt =====
-- Running an SSA program on physical registers gives what it gives on virtual ones, where no two
-- registers that are live together share a physical one. The two-address form of the x86-64 code
-- (copy the left operand, then combine with the right) is what is run.
use num_toy.Prelude.{
  ℕ, suc, ◌+◌, ◌≤◌, ◌<◌, ◌≡◌, ◌≢◌, refl, sym, ◌∙◌, ap, ap₂, inl, inr, Option, none, some, List, [],
  ◌∷◌, ◌++◌, arith, length, get_elem?, ℕ_discrete, subst,
}
use num_toy.Scalar.Float.{FloatOps}
use num_toy.Jit.Program.{BinOp, Inst, load, const, binop, store}
use num_toy.Jit.Run.{
  Regs, write, apply, widen_to, constant_of, narrow_to, exec, run, phys, move, exec_phys, run_phys,
}
use num_toy.Jit.Shape.{Places, IsSsa, write_self, write_ne, exec_ne}
use num_toy.Jit.Intervals.Ssa.{Reads}

module _ (ops : FloatOps) (loads : ℕ → ℕ) (alloc : List ℕ) (n : ℕ) (last_use : ℕ → ℕ) where
  abbrev at : ℕ → ℕ
  at = phys ops loads alloc

  -- Where register `v` is defined, every register still in use has another physical register.
  abbrev pub NoClash : Type 0
  NoClash = (u v : ℕ) → u < v → v < n → v ≤ last_use u → at u ≢ at v

  -- Before instruction `k` each register that is still in use has its value.
  abbrev Matches : ℕ → Regs → Regs → Type 0
  Matches k virtual physical = (v : ℕ) → v < k → k ≤ last_use v → physical (at v) ≡ virtual v

  write-Matches :
      (k x : ℕ) (virtual virtual' physical : Regs)
      → NoClash
      → k < n
      → virtual' k ≡ x
      → ((v : ℕ) → v < k → virtual' v ≡ virtual v)
      → Matches k virtual physical
      → Matches (suc k) virtual' (write physical (at k) x)
  write-Matches k x virtual virtual' physical apart lt here below m v hv live =
      elim (ℕ_discrete v k) [
        | yes e ↦
            subst (λ u. write physical (at k) x (at u) ≡ virtual' u) (sym e)
              (write_self physical (at k) x ∙ sym here)
        | no ne ↦
            let less : v < k = omega (arith, ne) in
            write_ne physical (at k) x (at v) (apart v k less lt (omega (arith, live)))
            ∙ m v less (omega (arith, live))
            ∙ sym (below v less)
      ]

  moved_left : (xd xl : ℕ) (physical : Regs) → move ops loads alloc xd xl physical xd ≡ physical xl
  unfolding move write
  moved_left xd xl physical = ground arith

  moved_other :
      (xd xl r : ℕ) (physical : Regs) → r ≢ xd → move ops loads alloc xd xl physical r ≡ physical r
  unfolding move write
  moved_other xd xl r physical ne = ground arith

  move_Matches :
      (k l : ℕ) (virtual physical : Regs)
      → NoClash
      → k < n
      → Matches k virtual physical
      → Matches k virtual (move ops loads alloc (at k) (at l) physical)
  move_Matches k l virtual physical apart lt m v h live =
      moved_other (at k) (at l) (at v) physical (apart v k h lt live) ∙ m v h live

  binop_Matches :
      (k : ℕ) (op : BinOp) (l r : ℕ) (virtual physical : Regs) (out : Option ℕ)
      → NoClash
      → k < n
      → l < k
      → r < k
      → k ≤ last_use l
      → k ≤ last_use r
      → Matches k virtual physical
      → Matches
          (suc k)
          (exec ops loads (binop k op l r) virtual)
          (exec_phys ops loads alloc (binop k op l r) (physical, out)).0
  unfolding exec exec_phys
  binop_Matches k op l r virtual physical out apart lt hl hr ul ur m =
      let moved = move ops loads alloc (at k) (at l) physical in
      let left : moved (at k) ≡ virtual l = moved_left (at k) (at l) physical ∙ m l hl ul in
      let right : moved (at r) ≡ virtual r =
        moved_other (at k) (at l) (at r) physical (apart r k hr lt ur) ∙ m r hr ur in
      write-Matches k (apply ops op (moved (at k)) (moved (at r))) virtual _ moved apart lt
        (write_self virtual k _ ∙ sym (ap₂ (apply ops op) left right))
        (λ v h. write_ne virtual k _ v (omega (arith, h)))
        (move_Matches k l virtual physical apart lt m)

  step_Matches :
      (k : ℕ) (i : Inst) (virtual physical : Regs) (out : Option ℕ)
      → NoClash
      → k < n
      → Places k i
      → ((v : ℕ) → Reads i v → k ≤ last_use v)
      → Matches k virtual physical
      → Matches (suc k) (exec ops loads i virtual) (exec_phys ops loads alloc i (physical, out)).0
  unfolding exec exec_phys
  step_Matches k (load d s b) virtual physical out apart lt p reads m =
      subst
        (λ r.
          Matches (suc k) (exec ops loads (load d s b) virtual)
            (write physical (at r) (widen_to ops b (loads s))))
        (sym p)
        (write-Matches k (widen_to ops b (loads s)) virtual (exec ops loads (load d s b) virtual)
          physical apart lt
          (ap (λ r. write virtual r (widen_to ops b (loads s)) k) p
            ∙ write_self virtual k (widen_to ops b (loads s)))
          (λ v h. exec_ne ops loads k (load d s b) virtual v p (omega (arith, h))) m)
  step_Matches k (const d x b) virtual physical out apart lt p reads m =
      subst
        (λ r.
          Matches (suc k) (exec ops loads (const d x b) virtual)
            (write physical (at r) (constant_of ops b x)))
        (sym p)
        (write-Matches k (constant_of ops b x) virtual (exec ops loads (const d x b) virtual)
          physical apart lt
          (ap (λ r. write virtual r (constant_of ops b x) k) p
            ∙ write_self virtual k (constant_of ops b x))
          (λ v h. exec_ne ops loads k (const d x b) virtual v p (omega (arith, h))) m)
  step_Matches k (store s b) virtual physical out apart lt p reads m = absurd p
  step_Matches k (binop d op l r) virtual physical out apart lt p reads m =
      subst
        (λ d.
          Matches (suc k) (exec ops loads (binop d op l r) virtual)
            (exec_phys ops loads alloc (binop d op l r) (physical, out)).0)
        (sym p.0)
        (binop_Matches k op l r virtual physical out apart lt p.1 p.2 (reads l (inl refl))
          (reads r (inr refl)) m)

  run_phys_from :
      (xs : List Inst) (k src bits : ℕ) (virtual : Regs) (state : Regs × Option ℕ)
      → NoClash
      → IsSsa k xs
      → k + length xs ≡ n
      → src < n
      → n ≤ last_use src
      → ((i v : ℕ) (inst : Inst) → get_elem? xs i ≡ some inst → Reads inst v → k + i ≤ last_use v)
      → Matches k virtual state.0
      → (run_phys ops loads alloc (xs ++ store src bits ∷ []) state).1
        ≡ some (narrow_to ops bits (run ops loads xs virtual src))
  unfolding run_phys run
  run_phys_from [] k src bits virtual state apart ssa e lt live reads m =
      unfold exec_phys in ap (λ v. some (narrow_to ops bits v)) (m src (omega arith) (omega arith))
  run_phys_from (x ∷ xs) k src bits virtual (physical, out) apart (p, ssa) e lt live reads m =
      run_phys_from xs (suc k) src bits (exec ops loads x virtual)
        (exec_phys ops loads alloc x (physical, out)) apart ssa (omega arith) lt live
        (λ i v inst h r. omega (arith, reads (suc i) v inst h r))
        (step_Matches k x virtual physical out apart (omega arith) p
          (λ v r. omega (arith, reads 0 v x refl r)) m)

  -- The output of the physical run is the value of the stored register in the virtual run.
  pub run_phys-run :
      (xs : List Inst) (src bits : ℕ) (regs regs' : Regs)
      → NoClash
      → IsSsa 0 xs
      → length xs ≡ n
      → src < n
      → n ≤ last_use src
      → ((i v : ℕ) (inst : Inst) → get_elem? xs i ≡ some inst → Reads inst v → i ≤ last_use v)
      → (run_phys ops loads alloc (xs ++ store src bits ∷ []) (regs', none)).1
        ≡ some (narrow_to ops bits (run ops loads xs regs src))
  run_phys-run xs src bits regs regs' apart ssa e lt live reads =
      run_phys_from xs 0 src bits regs (regs', none) apart ssa (omega arith) lt live
        (λ i v inst h r. omega (arith, reads i v inst h r)) (λ v h. absurd (omega arith))
