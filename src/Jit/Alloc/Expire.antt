-- ===== src/Jit/Alloc/Expire.antt =====
-- Expiring intervals: the registers that are still held stay marked, and no two holders share one.
use num_toy.Prelude.{
  ℕ, zero, suc, ◌≤◌, ◌≡◌, ◌≢◌, refl, sym, ◌∙◌, ap, inl, inr, Bool, true, false, some, List, [], ◌∷◌,
  arith, ltb, length, get_elem?, set, length-set, get_elem?-set_ne, In, In-cons_map, In-tail,
  Bool-cases, Option-cases, subst,
}
use num_toy.Jit.Alloc.{Active, expire, free_reg}

abbrev pub IsApart : ℕ → List Active → Type 0
IsApart p active = (a : Active) → In a active → p ≢ a.preg

abbrev pub IsDistinct : List Active → Type 0
IsDistinct [] = Unit
IsDistinct (a ∷ rest) = IsApart a.preg rest × IsDistinct rest

abbrev pub IsBusy : List Bool → List Active → Type 0
IsBusy free active = (a : Active) → In a active → get_elem? free a.preg ≡ some false

pub IsBusy-cons :
    (free : List Bool) (a : Active) (rest : List Active)
    → get_elem? free a.preg ≡ some false
    → IsBusy free rest
    → IsBusy free (a ∷ rest)
IsBusy-cons free a rest h b c (inl e) = ap (λ (x : Active). get_elem? free x.preg) e ∙ h
IsBusy-cons free a rest h b c (inr i) = b c i

module _ (start : ℕ) where
  expire_gone :
      (a : Active) (rest : List Active) (free : List Bool)
      → ltb a.end start ≡ true
      → expire start (a ∷ rest) free ≡ expire start rest (set free a.preg true)
  unfolding expire
  expire_gone a rest free h = rw (h, expire)

  expire_kept :
      (a : Active) (rest : List Active) (free : List Bool)
      → ltb a.end start ≡ false
      → expire start (a ∷ rest) free ≡ (a ∷ (expire start rest free).0, (expire start rest free).1)
  unfolding expire
  expire_kept a rest free h = rw (h, expire)

  pub length-expire :
      (active : List Active) (free : List Bool) → length (expire start active free).1 ≡ length free
  length-expire [] free = unfold expire in refl
  length-expire (a ∷ rest) free = elim (Bool-cases (ltb a.end start)) [
    | inl h ↦
        rw (expire_gone a rest free h)
          (length-expire rest (set free a.preg true) ∙ length-set free a.preg true)
    | inr h ↦ rw (expire_kept a rest free h) (length-expire rest free)
  ]

  -- A register that no interval of the list holds keeps its mark.
  expire_other :
      (p : ℕ) (active : List Active) (free : List Bool)
      → IsApart p active
      → get_elem? (expire start active free).1 p ≡ get_elem? free p
  expire_other p [] free h = unfold expire in refl
  expire_other p (a ∷ rest) free h = elim (Bool-cases (ltb a.end start)) [
    | inl e ↦ rw (expire_gone a rest free e) (
        expire_other p rest (set free a.preg true) (λ b i. h b (inr i))
        ∙ get_elem?-set_ne free a.preg p true (λ q. h a (inl refl) (sym q)))
    | inr e ↦ rw (expire_kept a rest free e) (expire_other p rest free (λ b i. h b (inr i)))
  ]

  pub In-expire :
      (active : List Active) (free : List Bool) (a : Active)
      → In a (expire start active free).0
      → In a active
  In-expire [] free a i = unfold expire in i
  In-expire (b ∷ rest) free a i = elim (Bool-cases (ltb b.end start)) [
    | inl e ↦ inr (
        In-expire rest (set free b.preg true) a
          (subst (λ (t : List Active × List Bool). In a t.0) (expire_gone b rest free e) i))
    | inr e ↦
        In-cons_map a b (expire start rest free).0 rest (In-expire rest free a)
          (subst (λ (t : List Active × List Bool). In a t.0) (expire_kept b rest free e) i)
  ]

  -- An interval that has not ended is still held.
  pub In-expire_alive :
      (active : List Active) (free : List Bool) (a : Active)
      → start ≤ a.end
      → In a active
      → In a (expire start active free).0
  In-expire_alive [] free a h i = unfold expire in i
  In-expire_alive (b ∷ rest) free a h i = elim (Bool-cases (ltb b.end start)) [
    | inl e ↦ rw (expire_gone b rest free e) (
        In-expire_alive rest (set free b.preg true) a h
          (In-tail a b rest (λ same. ground (arith, ap (λ (x : Active). x.end) same)) i))
    | inr e ↦
        rw (expire_kept b rest free e)
          (In-cons_map a b rest (expire start rest free).0 (In-expire_alive rest free a h) i)
  ]

  IsApart-expire :
      (p : ℕ) (active : List Active) (free : List Bool)
      → IsApart p active
      → IsApart p (expire start active free).0
  IsApart-expire p active free h a i = h a (In-expire active free a i)

  pub IsDistinct-expire :
      (active : List Active) (free : List Bool)
      → IsDistinct active
      → IsDistinct (expire start active free).0
  IsDistinct-expire [] free d = unfold expire in tt
  IsDistinct-expire (a ∷ rest) free d = elim (Bool-cases (ltb a.end start)) [
    | inl h ↦ rw (expire_gone a rest free h) (IsDistinct-expire rest (set free a.preg true) d.1)
    | inr h ↦
        rw (expire_kept a rest free h)
          (IsApart-expire a.preg rest free d.0, IsDistinct-expire rest free d.1)
  ]

  pub IsBusy-expire :
      (active : List Active) (free : List Bool)
      → IsDistinct active
      → IsBusy free active
      → IsBusy (expire start active free).1 (expire start active free).0
  IsBusy-expire [] free d b = unfold expire in λ a i. absurd i
  IsBusy-expire (a ∷ rest) free d b = elim (Bool-cases (ltb a.end start)) [
    | inl h ↦ rw (expire_gone a rest free h) (
        IsBusy-expire rest (set free a.preg true) d.1
          (λ c i. get_elem?-set_ne free a.preg c.preg true (d.0 c i) ∙ b c (inr i)))
    | inr h ↦ rw (expire_kept a rest free h) (
        IsBusy-cons (expire start rest free).1 a (expire start rest free).0
          (expire_other a.preg rest free d.0 ∙ b a (inl refl))
          (IsBusy-expire rest free d.1 (λ x j. b x (inr j))))
  ]

-- The register that is found was marked free.
pub free_reg_sound :
    (free : List Bool) (p : ℕ) → free_reg free ≡ some p → get_elem? free p ≡ some true
unfolding free_reg
free_reg_sound [] p h = cc
free_reg_sound (true ∷ fs) p h = ground arith
free_reg_sound (false ∷ fs) p h = elim (Option-cases (free_reg fs)) [
  | inl n ↦ absurd (ground arith)
  | inr (q, e) ↦ ground (arith, free_reg_sound fs q e)
]

-- A register is found if one is free.
pub free_reg_complete :
    (free : List Bool) (p : ℕ) → get_elem? free p ≡ some true → (q : ℕ) × (free_reg free ≡ some q)
unfolding free_reg
free_reg_complete [] p h = absurd (cc)
free_reg_complete (true ∷ fs) p h = (0, refl)
free_reg_complete (false ∷ fs) zero h = absurd (cc)
free_reg_complete (false ∷ fs) (suc p) h = let (q, e) = free_reg_complete fs p h in (suc q, rw e)
