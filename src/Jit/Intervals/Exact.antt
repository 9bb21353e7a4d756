-- ===== src/Jit/Intervals/Exact.antt =====
-- The live intervals of an SSA program, exactly: [v, last use of v] for each register v, in order.
use num_toy.Prelude.{
  ℕ, zero, suc, ◌+◌, ◌≤◌, ◌<◌, ◌≡◌, refl, sym, ◌∙◌, ap, inl, inr, List, [], ◌∷◌, ◌++◌, arith, ok,
  none, some, false, ◌==◌, if◌then◌else◌, length, get_or, replicate, In, range_from, subst,
  Bool-cases,
}
use num_toy.Jit.Program.{Inst, load, const, binop, store, LiveInterval, usize_max}
use num_toy.Jit.Bounds.{first_bad, is_bad}
use num_toy.Jit.Shape.{Places, IsSsa}
use num_toy.Jit.Alloc.Scan.{IsSorted, OneEach}
use num_toy.Jit.Intervals.{use_pass, collect, compute_intervals}
use num_toy.Jit.Intervals.Sort.{sort_by_start, sort_by_start_sorted}
use num_toy.Jit.Intervals.Ssa.{def_pass_ssa}

-- No instruction of an SSA program names a register out of range.
Places-in_range : (k n : ℕ) (i : Inst) → Places k i → k < n → is_bad n i ≡ false
unfolding is_bad
Places-in_range k n (load d s b) p h = ground arith
Places-in_range k n (const d s b) p h = ground arith
Places-in_range k n (binop d o l r) p h = ground arith
Places-in_range k n (store s b) p h = absurd p

pub first_bad_ssa :
    (xs : List Inst) (k idx n src bits : ℕ)
    → IsSsa k xs
    → k + length xs ≡ n
    → src < n
    → first_bad n idx (xs ++ store src bits ∷ []) ≡ none
unfolding first_bad
first_bad_ssa [] k idx n src bits h e s = unfold is_bad in ground arith
first_bad_ssa (x ∷ xs) k idx n src bits h e s =
    ap (λ b. if b then some idx else first_bad n (idx + 1) (xs ++ store src bits ∷ []))
      (Places-in_range k n x h.0 (omega arith))
    ∙ first_bad_ssa xs (suc k) (idx + 1) n src bits h.1 (omega arith) s

-- [v, last_use[v]], [v + 1, last_use[v + 1]], …
abbrev pub own_intervals : ℕ → ℕ → List ℕ → List LiveInterval
own_intervals v zero last_use = []
own_intervals v (suc n) last_use =
    record { vreg = v; start = v; end = get_or last_use v 0 } ∷ own_intervals (suc v) n last_use

collect_own :
    (n v : ℕ) (last_use : List ℕ)
    → v + n ≤ usize_max
    → collect v (range_from v n) last_use ≡ own_intervals v n last_use
unfolding collect
collect_own zero v last_use h = refl
collect_own (suc n) v last_use h = elim (Bool-cases (v == usize_max)) [
  | inl e ↦ absurd (ground arith)
  | inr e ↦ rw e (
      ap (λ t. record { vreg = v; start = v; end = get_or last_use v 0 } ∷ t)
        (collect_own n (suc v) last_use (omega arith)))
]

own_intervals-from :
    (n v : ℕ) (last_use : List ℕ) (j : LiveInterval)
    → In j (own_intervals v n last_use)
    → (v ≤ j.vreg) × (j.start ≡ j.vreg)
own_intervals-from zero v last_use j i = absurd i
own_intervals-from (suc n) v last_use j (inl e) =
    subst (λ (x : LiveInterval). (v ≤ x.vreg) × (x.start ≡ x.vreg)) (sym e) (omega arith, refl)
own_intervals-from (suc n) v last_use j (inr i) =
    let (h, s) = own_intervals-from n (suc v) last_use j i in (omega arith, s)

pub own_intervals-IsSorted : (n v : ℕ) (last_use : List ℕ) → IsSorted (own_intervals v n last_use)
own_intervals-IsSorted zero v last_use = tt
own_intervals-IsSorted (suc n) v last_use = (
  (λ j i. omega (arith, own_intervals-from n (suc v) last_use j i)),
  own_intervals-IsSorted n (suc v) last_use,
)

pub own_intervals-OneEach : (n v : ℕ) (last_use : List ℕ) → OneEach (own_intervals v n last_use)
own_intervals-OneEach zero v last_use = tt
own_intervals-OneEach (suc n) v last_use = (
  (λ j i. omega (arith, own_intervals-from n (suc v) last_use j i)),
  own_intervals-OneEach n (suc v) last_use,
)

pub In-own_intervals :
    (n v u : ℕ) (last_use : List ℕ)
    → v ≤ u
    → u < v + n
    → In (record { vreg = u; start = u; end = get_or last_use u 0 }) (own_intervals v n last_use)
In-own_intervals zero v u last_use h k = absurd (omega arith)
In-own_intervals (suc n) v u last_use h k = elim (Bool-cases (v == u)) [
  | inl e ↦
      let same : u ≡ v = ground arith in
      inl (ap (λ w. record { vreg = w; start = w; end = get_or last_use w 0 }) same)
  | inr e ↦ inr (In-own_intervals n (suc v) u last_use (ground arith) (omega arith))
]

-- On an SSA program followed by the store of one of its registers, the liveness pass gives register
-- v the interval from instruction v to the last instruction that defines or reads it, in order.
pub compute_intervals_ssa :
    (xs : List Inst) (src bits : ℕ)
    → IsSsa 0 xs
    → src < length xs
    → length xs ≤ usize_max
    → compute_intervals (xs ++ store src bits ∷ []) (length xs)
      ≡ ok (
          own_intervals 0
            (length xs)
            (use_pass 0 (xs ++ store src bits ∷ []) (replicate (length xs) 0)))
unfolding compute_intervals
compute_intervals_ssa xs src bits h s m =
    let last_use = use_pass 0 (xs ++ store src bits ∷ []) (replicate (length xs) 0) in
    rw (first_bad_ssa xs 0 0 (length xs) src bits h (omega arith) s, compute_intervals)
      (ap (λ ds. ok (sort_by_start (collect 0 ds last_use))) (def_pass_ssa xs 0 src bits [] refl h)
        ∙ ap (λ ivs. ok (sort_by_start ivs)) (collect_own (length xs) 0 last_use (omega arith))
        ∙ ap ok (sort_by_start_sorted _ (own_intervals-IsSorted (length xs) 0 last_use)))
