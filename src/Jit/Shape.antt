-- ===== src/Jit/Shape.antt =====
-- Instruction lists in which the k-th instruction defines register k from earlier ones, and what
-- running them leaves in the registers.
use num_toy.Prelude.{
  ℕ, zero, suc, ◌+◌, ◌<◌, ◌≡◌, ◌≢◌, refl, ◌∙◌, subst, List, [], ◌∷◌, ◌++◌, arith, length, get_elem?,
  some,
}
use num_toy.Scalar.Float.{FloatOps}
use num_toy.Jit.Program.{Inst, load, const, binop, store}
use num_toy.Jit.Run.{Regs, write, exec, run}

-- Instruction `k` defines register `k`, and reads registers below `k`.
abbrev pub Places : ℕ → Inst → Type 0
Places k (load dst _ _) = dst ≡ k
Places k (const dst _ _) = dst ≡ k
Places k (binop dst _ lhs rhs) = (dst ≡ k) × (lhs < k) × (rhs < k)
Places k (store _ _) = ⊥

abbrev pub IsSsa : ℕ → List Inst → Type 0
IsSsa k [] = Unit
IsSsa k (i ∷ is) = Places k i × IsSsa (suc k) is

pub IsSsa-append :
    (k n : ℕ) (xs : List Inst) (i : Inst)
    → k + length xs ≡ n
    → IsSsa k xs
    → Places n i
    → IsSsa k (xs ++ i ∷ [])
IsSsa-append k n [] i e h p = (subst (λ m. Places m i) (omega arith) p, tt)
IsSsa-append k n (x ∷ xs) i e (h, hs) p = (h, IsSsa-append (suc k) n xs i (omega arith) hs p)

pub write_self : (regs : Regs) (d v : ℕ) → write regs d v d ≡ v
unfolding write
write_self regs d v = ground arith

pub write_ne : (regs : Regs) (d v r : ℕ) → r ≢ d → write regs d v r ≡ regs r
unfolding write
write_ne regs d v r h = ground arith

module _ (ops : FloatOps) (loads : ℕ → ℕ) where
  pub run-append :
      (xs ys : List Inst) (regs : Regs)
      → run ops loads (xs ++ ys) regs ≡ run ops loads ys (run ops loads xs regs)
  unfolding run
  run-append [] ys regs = refl
  run-append (x ∷ xs) ys regs = run-append xs ys (exec ops loads x regs)

  -- An instruction that defines register `k` leaves the others alone.
  pub exec_ne :
      (k : ℕ) (i : Inst) (regs : Regs) (r : ℕ)
      → Places k i
      → r ≢ k
      → exec ops loads i regs r ≡ regs r
  unfolding exec
  exec_ne k (load dst s b) regs r p h = write_ne regs dst _ r (λ e. h (e ∙ p))
  exec_ne k (const dst v b) regs r p h = write_ne regs dst _ r (λ e. h (e ∙ p))
  exec_ne k (binop dst op x y) regs r p h = write_ne regs dst _ r (λ e. h (e ∙ p.0))
  exec_ne k (store s b) regs r p h = absurd p

IsSsa-get_elem? :
    (xs : List Inst) (k i : ℕ)
    → IsSsa k xs
    → i < length xs
    → (inst : Inst) × (get_elem? xs i ≡ some inst) × Places (k + i) inst
IsSsa-get_elem? [] k i s h = absurd (omega arith)
IsSsa-get_elem? (x ∷ xs) k zero s h = (x, refl, subst (λ m. Places m x) (omega arith) s.0)
IsSsa-get_elem? (x ∷ xs) k (suc i) s h =
    let (inst, at, p) = IsSsa-get_elem? xs (suc k) i s.1 (omega arith) in
    (inst, at, subst (λ m. Places m inst) (omega arith) p)

-- Instruction `i` of an SSA program defines register `i`.
pub IsSsa-at :
    (xs : List Inst) (i : ℕ)
    → IsSsa 0 xs
    → i < length xs
    → (inst : Inst) × (get_elem? xs i ≡ some inst) × Places i inst
IsSsa-at xs i s h =
    let (inst, at, p) = IsSsa-get_elem? xs 0 i s h in
    (inst, at, subst (λ m. Places m inst) (omega arith) p)
