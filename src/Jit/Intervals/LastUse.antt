-- ===== src/Jit/Intervals/LastUse.antt =====
-- numtoy-core/src/jit/ir.rs: the end of a live interval is the last instruction that uses the register.
use num_toy.Prelude.{
  ℕ, zero, suc, ◌+◌, ◌≤◌, ◌<◌, ◌≡◌, ◌⊎◌, refl, sym, ◌∙◌, ap, subst, inl, inr, List, [], ◌∷◌, ◌++◌,
  arith, ok, some, length, get_elem?, get_or, set, max, replicate, length-replicate,
  get_elem?-append,
}
use num_toy.Jit.Program.{Inst, load, const, binop, store, LiveInterval, usize_max}
use num_toy.Jit.Shape.{Places, IsSsa, IsSsa-at}
use num_toy.Jit.Intervals.{note_use, use_step, use_pass, compute_intervals}
use num_toy.Jit.Intervals.Ssa.{Reads, use_pass-Reads, use_pass_defines}
use num_toy.Jit.Intervals.Exact.{own_intervals, compute_intervals_ssa}

-- the instruction writes the register
abbrev Writes : Inst → ℕ → Type 0
Writes (load dst _ _) v = v ≡ dst
Writes (const dst _ _) v = v ≡ dst
Writes (binop dst _ _ _) v = v ≡ dst
Writes (store _ _) v = ⊥

abbrev Names : Inst → ℕ → Type 0
Names inst v = Writes inst v ⊎ Reads inst v

get_or-set_from :
    (xs : List ℕ) (i v : ℕ)
    → (get_or (set xs i v) i 0 ≡ get_or xs i 0) ⊎ (get_or (set xs i v) i 0 ≡ v)
get_or-set_from [] i v = inl refl
get_or-set_from (x ∷ xs) zero v = inr refl
get_or-set_from (x ∷ xs) (suc i) v = get_or-set_from xs i v

get_or-set_other : (xs : List ℕ) (i j v : ℕ) → (j ≡ i) ⊎ (get_or (set xs i v) j 0 ≡ get_or xs j 0)
get_or-set_other [] i j v = inr refl
get_or-set_other (x ∷ xs) zero zero v = inl refl
get_or-set_other (x ∷ xs) zero (suc j) v = inr refl
get_or-set_other (x ∷ xs) (suc i) zero v = inr refl
get_or-set_other (x ∷ xs) (suc i) (suc j) v = elim (get_or-set_other xs i j v) [
  | inl e ↦ inl (ap suc e)
  | inr e ↦ inr e
]

note_use-from :
    (idx u v : ℕ) (table : List ℕ)
    → (get_or (note_use idx u table) v 0 ≡ get_or table v 0)
      ⊎ ((v ≡ u) × (get_or (note_use idx u table) v 0 ≡ idx))
unfolding note_use
note_use-from idx u v table =
    let m = max (get_or table u 0) idx in
    elim (get_or-set_other table u v m) [
      | inr e ↦ inl e
      | inl same ↦ rw same (elim (get_or-set_from table u m) [
        | inl e ↦ inl e
        | inr e ↦
            let which : (m ≡ get_or table u 0) ⊎ (m ≡ idx) = omega arith in
            elim which [ inl k ↦ inl (e ∙ k) | inr k ↦ inr (refl, e ∙ k) ]
      ])
    ]

use_step-from :
    (idx : ℕ) (i : Inst) (v : ℕ) (table : List ℕ)
    → (get_or (use_step idx i table) v 0 ≡ get_or table v 0)
      ⊎ (Names i v × (get_or (use_step idx i table) v 0 ≡ idx))
unfolding use_step
use_step-from idx (load d s b) v table = elim (note_use-from idx d v table) [
  | inl e ↦ inl e
  | inr (n, e) ↦ inr (inl n, e)
]
use_step-from idx (const d s b) v table = elim (note_use-from idx d v table) [
  | inl e ↦ inl e
  | inr (n, e) ↦ inr (inl n, e)
]
use_step-from idx (binop d o l r) v table =
    let written = note_use idx d table in
    let left = note_use idx l written in
    elim (note_use-from idx r v left) [
      | inr (n, e) ↦ inr (inr (inr n), e)
      | inl e ↦ elim (note_use-from idx l v written) [
        | inr (n, e') ↦ inr (inr (inl n), e ∙ e')
        | inl e' ↦ elim (note_use-from idx d v table) [
          | inr (n, e'') ↦ inr (inl n, e ∙ e' ∙ e'')
          | inl e'' ↦ inl (e ∙ e' ∙ e'')
        ]
      ]
    ]
use_step-from idx (store s b) v table = elim (note_use-from idx s v table) [
  | inl e ↦ inl e
  | inr (n, e) ↦ inr (inr n, e)
]

-- An entry that the pass changes is the number of an instruction that names the register.
use_pass-from :
    (is : List Inst) (idx v : ℕ) (table : List ℕ)
    → (get_or (use_pass idx is table) v 0 ≡ get_or table v 0)
      ⊎ ((k : ℕ) × (inst : Inst) × (get_elem? is k ≡ some inst)
          × Names inst v
          × (get_or (use_pass idx is table) v 0 ≡ idx + k))
unfolding use_pass
use_pass-from [] idx v table = inl refl
use_pass-from (i ∷ is) idx v table =
    let table' = use_step idx i table in
    elim (use_pass-from is (suc idx) v table') [
      | inr (k, inst, found, n, e) ↦ inr (suc k, inst, found, n, e ∙ omega arith)
      | inl e ↦ elim (use_step-from idx i v table) [
        | inl e' ↦ inl (e ∙ e')
        | inr (n, e') ↦ inr (0, i, refl, n, e ∙ e' ∙ omega arith)
      ]
    ]

Writes-at :
    (xs : List Inst) (base k v src bits : ℕ) (inst : Inst)
    → IsSsa base xs
    → get_elem? (xs ++ store src bits ∷ []) k ≡ some inst
    → Writes inst v
    → v ≡ base + k
Writes-at [] base zero v src bits inst ssa found w =
    let e : store src bits ≡ inst = cc in absurd (subst (λ i. Writes i v) (sym e) w)
Writes-at [] base (suc k) v src bits inst ssa found w = cc
Writes-at (x ∷ xs) base zero v src bits inst (p, ssa) found w =
    let e : x ≡ inst = cc in
    Places-Writes x base v p (subst (λ i. Writes i v) (sym e) w) ∙ omega arith
  where
    Places-Writes : (i : Inst) (k v : ℕ) → Places k i → Writes i v → v ≡ k
    Places-Writes (load d s b) k v p w = w ∙ p
    Places-Writes (const d s b) k v p w = w ∙ p
    Places-Writes (binop d o l r) k v p w = w ∙ p.0
    Places-Writes (store s b) k v p w = absurd w
Writes-at (x ∷ xs) base (suc k) v src bits inst (p, ssa) found w =
    Writes-at xs (suc base) k v src bits inst ssa found w ∙ omega arith

get_elem?-own_intervals :
    (n v k : ℕ) (last_use : List ℕ)
    → k < n
    → get_elem? (own_intervals v n last_use) k
      ≡ some (record { vreg = v + k; start = v + k; end = get_or last_use (v + k) 0 })
get_elem?-own_intervals zero v k last_use h = absurd (omega arith)
get_elem?-own_intervals (suc n) v zero last_use h =
    let e : v ≡ v + 0 = omega arith in
    ap (λ w. some (record { vreg = w; start = w; end = get_or last_use w 0 })) e
get_elem?-own_intervals (suc n) v (suc k) last_use h =
    let e : suc v + k ≡ v + suc k = omega arith in
    get_elem?-own_intervals n (suc v) k last_use (omega arith)
    ∙ ap (λ w. some (record { vreg = w; start = w; end = get_or last_use w 0 })) e

length-own_intervals : (n v : ℕ) (last_use : List ℕ) → length (own_intervals v n last_use) ≡ n
length-own_intervals zero v last_use = refl
length-own_intervals (suc n) v last_use = ap suc (length-own_intervals n (suc v) last_use)

-- `end` is the last instruction that reads `v`, or the one that defines it if none does.
pub record IsLastUse (insts : List Inst) (v end : ℕ) : Type 0 where
  pub reached : (end ≡ v) ⊎ ((inst : Inst) × (get_elem? insts end ≡ some inst) × Reads inst v)
  pub from_definition : v ≤ end
  pub last : (j : ℕ) (inst : Inst) → get_elem? insts j ≡ some inst → Reads inst v → j ≤ end

zero_add : (v : ℕ) → 0 + v ≡ v
zero_add v = omega arith

get_or-zeros : (n v : ℕ) → get_or (replicate n zero) v 0 ≡ 0
get_or-zeros zero v = refl
get_or-zeros (suc n) zero = refl
get_or-zeros (suc n) (suc v) = get_or-zeros n v

module _ (xs : List Inst) (src bits : ℕ) (ssa : IsSsa 0 xs) where
  abbrev uses : List ℕ
  uses = use_pass 0 (xs ++ store src bits ∷ []) (replicate (length xs) 0)

  uses-IsLastUse :
      (v : ℕ) → v < length xs → IsLastUse (xs ++ store src bits ∷ []) v (get_or uses v 0)
  uses-IsLastUse v h =
      let insts = xs ++ store src bits ∷ [] in
      let size = length-replicate (length xs) zero in
      let (inst, at, p) = IsSsa-at xs v ssa h in
      let start : 0 + v ≤ get_or uses v 0 =
        use_pass_defines insts 0 v v inst (replicate (length xs) 0)
          (get_elem?-append xs (store src bits ∷ []) v inst at) p (omega (arith, size)) in
      record {
        reached = elim (use_pass-from insts 0 v (replicate (length xs) 0)) [
          | inl e ↦ inl (omega (arith, start, e, get_or-zeros (length xs) v))
          | inr (k, i, found, inl w, e) ↦ inl (e ∙ sym (Writes-at xs 0 k v src bits i ssa found w))
          | inr (k, i, found, inr r, e) ↦
              let place : k ≡ get_or uses v 0 = omega (arith, e) in
              inr (i, subst (λ n. get_elem? insts n ≡ some i) place found, r)
        ];
        from_definition = omega (arith, start);
        last = λ j i found r.
            let later =
              use_pass-Reads insts 0 j v i (replicate (length xs) 0) found r
                (omega (arith, size)) in
            omega (arith, later);
      }

-- On an SSA program followed by the store of one of its registers, the liveness pass gives one interval
-- for each register, in order: that of register v starts at instruction v, and ends at the last
-- instruction that reads v, or at v itself where none does.
pub compute_intervals-IsLastUse :
    (xs : List Inst) (src bits : ℕ)
    → IsSsa 0 xs
    → src < length xs
    → length xs ≤ usize_max
    → (ivs : List LiveInterval) × (compute_intervals (xs ++ store src bits ∷ []) (length xs)
        ≡ ok ivs)
      × (length ivs ≡ length xs)
      × ((v : ℕ)
          → v < length xs
          → (end : ℕ) × (get_elem? ivs v ≡ some (record { vreg = v; start = v; end = end }))
            × IsLastUse (xs ++ store src bits ∷ []) v end)
compute_intervals-IsLastUse xs src bits ssa h m =
    let table = uses xs src bits ssa in
    (
      own_intervals 0 (length xs) table,
      compute_intervals_ssa xs src bits ssa h m,
      length-own_intervals (length xs) 0 table,
      λ v less. (
        get_or table v 0,
        get_elem?-own_intervals (length xs) 0 v table less
            ∙ ap (λ w. some (record { vreg = w; start = w; end = get_or table w 0 })) (zero_add v),
        uses-IsLastUse xs src bits ssa v less,
      ),
    )
