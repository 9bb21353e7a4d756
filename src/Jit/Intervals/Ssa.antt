-- ===== src/Jit/Intervals/Ssa.antt =====
-- The live intervals of an SSA program: register v starts at instruction v, and ends at or after
-- each instruction that reads it.
use num_toy.Prelude.{
  ℕ, zero, suc, ◌+◌, ◌≤◌, ◌<◌, ◌≡◌, refl, sym, ◌∙◌, ap, inl, inr, ◌⊎◌, List, [], ◌∷◌, ◌++◌, arith,
  some, length, get_elem?, get_or, set, replicate, length-set, max, get_or-set_self, range_from,
  append_assoc, length-append, get_or-append_at, set-append_at, subst,
}
use num_toy.Jit.Program.{Inst, load, const, binop, store, usize_max}
use num_toy.Jit.Shape.{Places, IsSsa}
use num_toy.Jit.Intervals.{note_def, note_use, def_step, use_step, def_pass, use_pass}

-- the instructions that read a register
abbrev pub Reads : Inst → ℕ → Type 0
Reads (load _ _ _) v = ⊥
Reads (const _ _ _) v = ⊥
Reads (binop _ _ lhs rhs) v = (v ≡ lhs) ⊎ (v ≡ rhs)
Reads (store src _) v = v ≡ src

-- Definitions

note_def_at :
    (k : ℕ) (ds rest : List ℕ)
    → length ds ≡ k
    → note_def k k (ds ++ usize_max ∷ rest) ≡ ds ++ k ∷ rest
unfolding note_def
note_def_at k ds rest e =
    subst (λ j. note_def j j (ds ++ usize_max ∷ rest) ≡ ds ++ j ∷ rest) e
      (rw (get_or-append_at ds rest usize_max usize_max)
        (set-append_at ds rest usize_max (length ds)))

def_step_at :
    (k : ℕ) (i : Inst) (ds rest : List ℕ)
    → length ds ≡ k
    → Places k i
    → def_step k i (ds ++ usize_max ∷ rest) ≡ ds ++ k ∷ rest
unfolding def_step
def_step_at k (load d s b) ds rest e p =
    ap (λ j. note_def k j (ds ++ usize_max ∷ rest)) p ∙ note_def_at k ds rest e
def_step_at k (const d s b) ds rest e p =
    ap (λ j. note_def k j (ds ++ usize_max ∷ rest)) p ∙ note_def_at k ds rest e
def_step_at k (binop d o l r) ds rest e p =
    ap (λ j. note_def k j (ds ++ usize_max ∷ rest)) p.0 ∙ note_def_at k ds rest e
def_step_at k (store s b) ds rest e p = absurd p

pub def_pass_ssa :
    (xs : List Inst) (k src bits : ℕ) (ds : List ℕ)
    → length ds ≡ k
    → IsSsa k xs
    → def_pass k (xs ++ store src bits ∷ []) (ds ++ replicate (length xs) usize_max)
      ≡ ds ++ range_from k (length xs)
unfolding def_pass
def_pass_ssa [] k src bits ds e h = unfold def_step in refl
def_pass_ssa (x ∷ xs) k src bits ds e h =
    ap (def_pass (suc k) (xs ++ store src bits ∷ [])) (
      def_step_at k x ds (replicate (length xs) usize_max) e h.0
      ∙ sym (append_assoc ds (k ∷ []) (replicate (length xs) usize_max)))
    ∙ def_pass_ssa xs (suc k) src bits (ds ++ k ∷ []) (length-append ds (k ∷ []) ∙ omega arith) h.1
    ∙ append_assoc ds (k ∷ []) (range_from (suc k) (length xs))

-- Uses

raise-le : (xs : List ℕ) (w m v : ℕ) → get_or xs v 0 ≤ get_or (set xs w (max (get_or xs w 0) m)) v 0
raise-le [] w m v = omega arith
raise-le (x ∷ xs) zero m zero = omega arith
raise-le (x ∷ xs) zero m (suc v) = omega arith
raise-le (x ∷ xs) (suc w) m zero = omega arith
raise-le (x ∷ xs) (suc w) m (suc v) = raise-le xs w m v

note_use-le : (idx w v : ℕ) (xs : List ℕ) → get_or xs v 0 ≤ get_or (note_use idx w xs) v 0
unfolding note_use
note_use-le idx w v xs = raise-le xs w idx v

note_use_self : (idx w : ℕ) (xs : List ℕ) → w < length xs → idx ≤ get_or (note_use idx w xs) w 0
unfolding note_use
note_use_self idx w xs h = omega (arith, get_or-set_self xs w (max (get_or xs w 0) idx) 0 h)

length-note_use : (idx w : ℕ) (xs : List ℕ) → length (note_use idx w xs) ≡ length xs
unfolding note_use
length-note_use idx w xs = length-set xs w (max (get_or xs w 0) idx)

use_step-le :
    (idx : ℕ) (i : Inst) (v : ℕ) (xs : List ℕ) → get_or xs v 0 ≤ get_or (use_step idx i xs) v 0
unfolding use_step
use_step-le idx (load d s b) v xs = note_use-le idx d v xs
use_step-le idx (const d s b) v xs = note_use-le idx d v xs
use_step-le idx (binop d o l r) v xs = omega (
  arith,
  note_use-le idx d v xs,
  note_use-le idx l v (note_use idx d xs),
  note_use-le idx r v (note_use idx l (note_use idx d xs)),
)
use_step-le idx (store s b) v xs = note_use-le idx s v xs

length-use_step : (idx : ℕ) (i : Inst) (xs : List ℕ) → length (use_step idx i xs) ≡ length xs
unfolding use_step
length-use_step idx (load d s b) xs = length-note_use idx d xs
length-use_step idx (const d s b) xs = length-note_use idx d xs
length-use_step idx (binop d o l r) xs =
    length-note_use idx r _ ∙ length-note_use idx l _ ∙ length-note_use idx d xs
length-use_step idx (store s b) xs = length-note_use idx s xs

use_step-Reads :
    (idx : ℕ) (i : Inst) (v : ℕ) (xs : List ℕ)
    → Reads i v
    → v < length xs
    → idx ≤ get_or (use_step idx i xs) v 0
unfolding use_step
use_step-Reads idx (load d s b) v xs r h = absurd r
use_step-Reads idx (const d s b) v xs r h = absurd r
use_step-Reads idx (binop d o l r) v xs (inl e) h =
    let u = note_use idx d xs in
    let first = note_use_self idx l u (omega (arith, length-note_use idx d xs, e)) in
    subst (λ w. idx ≤ get_or (note_use idx r (note_use idx l u)) w 0) (sym e)
      (omega (arith, first, note_use-le idx r l (note_use idx l u)))
use_step-Reads idx (binop d o l r) v xs (inr e) h =
    let u = note_use idx l (note_use idx d xs) in
    subst (λ w. idx ≤ get_or (note_use idx r u) w 0) (sym e)
      (note_use_self idx r u
        (omega (arith, length-note_use idx l (note_use idx d xs), length-note_use idx d xs, e)))
use_step-Reads idx (store s b) v xs e h =
    subst (λ w. idx ≤ get_or (note_use idx s xs) w 0) (sym e)
      (note_use_self idx s xs (omega (arith, e)))

use_pass-le :
    (is : List Inst) (idx v : ℕ) (xs : List ℕ) → get_or xs v 0 ≤ get_or (use_pass idx is xs) v 0
unfolding use_pass
use_pass-le [] idx v xs = omega arith
use_pass-le (i ∷ is) idx v xs =
    omega (arith, use_step-le idx i v xs, use_pass-le is (suc idx) v (use_step idx i xs))

-- A register's interval ends no earlier than an instruction that reads the register.
pub use_pass-Reads :
    (is : List Inst) (idx k v : ℕ) (i : Inst) (xs : List ℕ)
    → get_elem? is k ≡ some i
    → Reads i v
    → v < length xs
    → idx + k ≤ get_or (use_pass idx is xs) v 0
unfolding use_pass
use_pass-Reads [] idx k v i xs at r h = absurd (cc)
use_pass-Reads (j ∷ is) idx zero v i xs at r h =
    let e : j ≡ i = cc in
    omega (
      arith,
      use_step-Reads idx j v xs (subst (λ x. Reads x v) (sym e) r) h,
      use_pass-le is (suc idx) v (use_step idx j xs),
    )
use_pass-Reads (j ∷ is) idx (suc k) v i xs at r h = omega (
  arith,
  use_pass-Reads is (suc idx) k v i (use_step idx j xs) at r
      (omega (arith, length-use_step idx j xs)),
)

use_step_defines :
    (idx : ℕ) (i : Inst) (v : ℕ) (xs : List ℕ)
    → Places v i
    → v < length xs
    → idx ≤ get_or (use_step idx i xs) v 0
unfolding use_step
use_step_defines idx (load d s b) v xs p h =
    subst (λ w. idx ≤ get_or (note_use idx d xs) w 0) p (note_use_self idx d xs (omega (arith, p)))
use_step_defines idx (const d s b) v xs p h =
    subst (λ w. idx ≤ get_or (note_use idx d xs) w 0) p (note_use_self idx d xs (omega (arith, p)))
use_step_defines idx (binop d o l r) v xs p h =
    let u = note_use idx d xs in
    subst (λ w. idx ≤ get_or (note_use idx r (note_use idx l u)) w 0) p.0
      (omega (
        arith,
        note_use_self idx d xs (omega (arith, p.0)),
        note_use-le idx l d u,
        note_use-le idx r d (note_use idx l u),
      ))
use_step_defines idx (store s b) v xs p h = absurd p

-- A register's interval ends no earlier than the instruction that defines it.
pub use_pass_defines :
    (is : List Inst) (idx k v : ℕ) (i : Inst) (xs : List ℕ)
    → get_elem? is k ≡ some i
    → Places v i
    → v < length xs
    → idx + k ≤ get_or (use_pass idx is xs) v 0
unfolding use_pass
use_pass_defines [] idx k v i xs at r h = absurd (cc)
use_pass_defines (j ∷ is) idx zero v i xs at r h =
    let e : j ≡ i = cc in
    omega (
      arith,
      use_step_defines idx j v xs (subst (λ x. Places v x) (sym e) r) h,
      use_pass-le is (suc idx) v (use_step idx j xs),
    )
use_pass_defines (j ∷ is) idx (suc k) v i xs at r h = omega (
  arith,
  use_pass_defines is (suc idx) k v i (use_step idx j xs) at r
      (omega (arith, length-use_step idx j xs)),
)
