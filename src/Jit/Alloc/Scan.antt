-- ===== src/Jit/Alloc/Scan.antt =====
-- The allocation: intervals that overlap get different registers, all of them below 14.
use num_toy.Prelude.{
  ℕ, ◌≤◌, ◌<◌, ◌≡◌, ◌≢◌, refl, sym, ◌∙◌, ap, inl, inr, Bool, true, false, Option, none, some, List,
  [], ◌∷◌, ◌++◌, arith, Outcome, ok, fault, >>=-eq-ok, of_option, ltb, length, get_elem?, set,
  length-set, get_elem?-set_ne, get_elem?-set_self, get_elem?-lt, In, In-append, In-append_left,
  In-append_right, Bool-cases, subst, ltb→lt, replicate, length-replicate,
}
use num_toy.Jit.Program.{LiveInterval, num_phys_regs}
use num_toy.Jit.Alloc.{Active, expire, free_reg, scan, linear_scan_alloc}
use num_toy.Jit.Alloc.Expire.{
  IsApart, IsDistinct, IsBusy, length-expire, In-expire, In-expire_alive, IsDistinct-expire,
  IsBusy-expire, free_reg_sound,
}

-- sorted by start, each register in one interval
abbrev pub IsSorted : List LiveInterval → Type 0
IsSorted [] = Unit
IsSorted (iv ∷ ivs) = ((j : LiveInterval) → In j ivs → iv.start ≤ j.start) × IsSorted ivs

abbrev pub OneEach : List LiveInterval → Type 0
OneEach [] = Unit
OneEach (iv ∷ ivs) = ((j : LiveInterval) → In j ivs → iv.vreg ≢ j.vreg) × OneEach ivs

-- the state of the scan before the intervals `ivs`
pub record Held (ivs : List LiveInterval) (alloc : List ℕ) (free : List Bool) (active : List Active)
    : Type 0 where
  pub busy : IsBusy free active
  pub distinct : IsDistinct active
  pub placed : (a : Active) → In a active → get_elem? alloc a.vreg ≡ some a.preg
  pub waiting : (a : Active) (j : LiveInterval) → In a active → In j ivs → a.vreg ≢ j.vreg
  pub sorted : IsSorted ivs
  pub once : OneEach ivs

-- what the final table has for `ivs`
pub record Placed (ivs : List LiveInterval) (alloc : List ℕ) (limit : ℕ) (active : List Active)
    (final : List ℕ) : Type 0 where
  pub sized : length final ≡ length alloc
  pub stable :
      (v : ℕ) → ((j : LiveInterval) → In j ivs → v ≢ j.vreg) → get_elem? final v ≡ get_elem? alloc v
  pub assigned :
      (j : LiveInterval) → In j ivs → (q : ℕ) × (get_elem? final j.vreg ≡ some q) × (q < limit)
  pub apart :
      (a : Active) (j : LiveInterval) (q : ℕ)
      → In a active
      → In j ivs
      → j.start ≤ a.end
      → get_elem? final j.vreg ≡ some q
      → a.preg ≢ q
  pub no_clash :
      (i j : LiveInterval) (p q : ℕ)
      → In i ivs
      → In j ivs
      → i.vreg ≢ j.vreg
      → i.start ≤ j.end
      → j.start ≤ i.end
      → get_elem? final i.vreg ≡ some p
      → get_elem? final j.vreg ≡ some q
      → p ≢ q

IsDistinct-append :
    (xs : List Active) (a : Active) → IsDistinct xs → IsApart a.preg xs → IsDistinct (xs ++ a ∷ [])
IsDistinct-append [] a d h = ((λ b i. elim i [ ]), tt)
IsDistinct-append (x ∷ xs) a d h = (apart, IsDistinct-append xs a d.1 (λ b i. h b (inr i)))
  where
    apart : IsApart x.preg (xs ++ a ∷ [])
    apart b i = elim (In-append b xs (a ∷ []) i) [
      | inl j ↦ d.0 b j
      | inr j ↦ elim j [
        | inl e ↦ λ q. h x (inl refl) (sym (q ∙ ap (λ (y : Active). y.preg) e))
        | inr n ↦ absurd n
      ]
    ]

module _ (iv : LiveInterval) (ivs : List LiveInterval) (alloc : List ℕ) (free : List Bool)
    (active : List Active) (held : Held (iv ∷ ivs) alloc free active) (preg : ℕ)
    (found : free_reg (expire iv.start active free).1 ≡ some preg)
    (room : iv.vreg < length alloc) where
  abbrev kept : List Active
  kept = (expire iv.start active free).0

  abbrev free' : List Bool
  free' = (expire iv.start active free).1

  abbrev new : Active
  new = record { end = iv.end; vreg = iv.vreg; preg = preg }

  kept-IsBusy : IsBusy free' kept
  kept-IsBusy = IsBusy-expire iv.start active free held.distinct held.busy

  -- The register found is held by no interval that is still alive.
  fresh : IsApart preg kept
  fresh a i e =
      let busy = kept-IsBusy a i in
      let open_ = free_reg_sound free' preg found in
      let open' = subst (λ r. get_elem? free' r ≡ some true) e open_ in cc

  preg-lt : preg < length free
  preg-lt = omega (
    arith,
    get_elem?-lt free' preg true (free_reg_sound free' preg found),
    length-expire iv.start active free,
  )

  pub next-Held : Held ivs (set alloc iv.vreg preg) (set free' preg false) (kept ++ new ∷ [])
  next-Held = record {
    busy = λ a i. elim (In-append a kept (new ∷ []) i) [
      | inl j ↦ get_elem?-set_ne free' preg a.preg false (fresh a j) ∙ kept-IsBusy a j
      | inr j ↦ elim j [
        | inl e ↦
            subst (λ r. get_elem? (set free' preg false) r ≡ some false)
              (sym (ap (λ (y : Active). y.preg) e))
              (get_elem?-set_self free' preg false
                (omega (arith, preg-lt, length-expire iv.start active free)))
        | inr n ↦ absurd n
      ]
    ];
    distinct =
        IsDistinct-append kept new (IsDistinct-expire iv.start active free held.distinct) fresh;
    placed = λ a i. elim (In-append a kept (new ∷ []) i) [
      | inl j ↦
          get_elem?-set_ne alloc iv.vreg a.vreg preg
            (λ e. held.waiting a iv (In-expire iv.start active free a j) (inl refl) (sym e))
          ∙ held.placed a (In-expire iv.start active free a j)
      | inr j ↦ elim j [
        | inl e ↦
            subst (λ (y : Active). get_elem? (set alloc iv.vreg preg) y.vreg ≡ some y.preg) (sym e)
              (get_elem?-set_self alloc iv.vreg preg room)
        | inr n ↦ absurd n
      ]
    ];
    waiting = λ a j i m. elim (In-append a kept (new ∷ []) i) [
      | inl k ↦ held.waiting a j (In-expire iv.start active free a k) (inr m)
      | inr k ↦ elim k [
        | inl e ↦ λ q. held.once.0 j m (sym (ap (λ (y : Active). y.vreg) e) ∙ q)
        | inr n ↦ absurd n
      ]
    ];
    sorted = held.sorted.1;
    once = held.once.1;
  }

  module _ (final : List ℕ)
      (rest : Placed ivs (set alloc iv.vreg preg) (length free) (kept ++ new ∷ []) final) where
    here : get_elem? final iv.vreg ≡ some preg
    here = rest.stable iv.vreg held.once.0 ∙ get_elem?-set_self alloc iv.vreg preg room

    here_at : (j : LiveInterval) (q : ℕ) → j ≡ iv → get_elem? final j.vreg ≡ some q → preg ≡ q
    here_at j q e at =
        let h = subst (λ (x : LiveInterval). get_elem? final x.vreg ≡ some preg) (sym e) here in cc

    new-In : In new (kept ++ new ∷ [])
    new-In = In-append_right new kept (new ∷ []) (inl refl)

    pub next-Placed : Placed (iv ∷ ivs) alloc (length free) active final
    next-Placed = record {
      sized = rest.sized ∙ length-set alloc iv.vreg preg;
      stable = λ v h.
          rest.stable v (λ j i. h j (inr i))
          ∙ get_elem?-set_ne alloc iv.vreg v preg (λ e. h iv (inl refl) (sym e));
      assigned = λ j i. elim i [
        | inl e ↦ (
          preg,
          subst (λ (x : LiveInterval). get_elem? final x.vreg ≡ some preg) (sym e) here,
          preg-lt,
        )
        | inr k ↦ rest.assigned j k
      ];
      apart = λ a j q ia ij le at. elim ij [
        | inl e ↦
            let s = ap (λ (x : LiveInterval). x.start) e in
            λ same.
              fresh a (In-expire_alive iv.start active free a (omega (arith, s, le)) ia)
                (here_at j q e at ∙ sym same)
        | inr k ↦
            let s = held.sorted.0 j k in
            rest.apart a j q
              (In-append_left a kept (new ∷ [])
                (In-expire_alive iv.start active free a (omega (arith, s, le)) ia))
              k le at
      ];
      no_clash = λ i j p q ii ij ne ov₁ ov₂ ati atj. elim ii [
        | inl ei ↦ elim ij [
          | inl ej ↦ absurd (ne (ap (λ (x : LiveInterval). x.vreg) (ei ∙ sym ej)))
          | inr kj ↦
              let s = ap (λ (x : LiveInterval). x.end) ei in
              λ same.
                rest.apart new j q new-In kj (omega (arith, s, ov₂)) atj (here_at i p ei ati ∙ same)
        ]
        | inr ki ↦ elim ij [
          | inl ej ↦
              let s = ap (λ (x : LiveInterval). x.end) ej in
              λ same.
                rest.apart new i p new-In ki (omega (arith, s, ov₁)) ati
                  (here_at j q ej atj ∙ sym same)
          | inr kj ↦ rest.no_clash i j p q ki kj ne ov₁ ov₂ ati atj
        ]
      ];
    }

of_option-eq-ok : (o : Option ℕ) (p : ℕ) → of_option o ≡ ok p → o ≡ some p
of_option-eq-ok none p h = cc
of_option-eq-ok (some x) p h = cc

pub scan-Placed :
    (ivs : List LiveInterval) (alloc : List ℕ) (free : List Bool) (active : List Active)
    (final : List ℕ)
    → Held ivs alloc free active
    → scan ivs alloc free active ≡ ok final
    → Placed ivs alloc (length free) active final
unfolding scan
scan-Placed [] alloc free active final held h =
    let e : alloc ≡ final = cc in
    record {
      sized = ap length (sym e);
      stable = λ v n. ap (λ t. get_elem? t v) (sym e);
      assigned = λ j i. absurd i;
      apart = λ a j q ia ij. absurd ij;
      no_clash = λ i j p q ii. absurd ii;
    }
scan-Placed (iv ∷ ivs) alloc free active final held h =
    let (preg, found, rest) =
      >>=-eq-ok (of_option (free_reg (expire iv.start active free).1)) _ h in
    let found' = of_option-eq-ok _ preg found in
    elim (Bool-cases (ltb iv.vreg (length alloc))) [
      | inl t ↦
          let room = ltb→lt iv.vreg (length alloc) t in
          next-Placed iv ivs alloc free active held preg found' room final (
            subst
              (λ n.
                Placed ivs (set alloc iv.vreg preg) n
                  ((expire iv.start active free).0
                    ++ record { end = iv.end; vreg = iv.vreg; preg = preg } ∷ [])
                  final)
              (length-set (expire iv.start active free).1 preg false
                ∙ length-expire iv.start active free)
              (scan-Placed ivs _ _ _ final
                (next-Held iv ivs alloc free active held preg found' room) (rw t at rest)))
      | inr t ↦ absurd (refused_write (rw t at rest))
    ]
  where
    refused_write : ¬ (◌≡◌ {A = Outcome (List ℕ)} fault (ok final))
    refused_write e = cc

-- what an allocation must be
pub record Allocated (ivs : List LiveInterval) (n : ℕ) (alloc : List ℕ) : Type 0 where
  pub sized : length alloc ≡ n
  pub assigned :
      (j : LiveInterval)
      → In j ivs
      → (q : ℕ) × (get_elem? alloc j.vreg ≡ some q) × (q < num_phys_regs)
  -- Intervals that overlap have different physical registers.
  pub apart :
      (i j : LiveInterval) (p q : ℕ)
      → In i ivs
      → In j ivs
      → i.vreg ≢ j.vreg
      → i.start ≤ j.end
      → j.start ≤ i.end
      → get_elem? alloc i.vreg ≡ some p
      → get_elem? alloc j.vreg ≡ some q
      → p ≢ q

-- Where linear scan succeeds on sorted intervals, each of a different virtual register, every
-- interval has a physical register below 14, and two intervals that overlap have different ones.
pub linear_scan_alloc_lem :
    (ivs : List LiveInterval) (n : ℕ) (alloc : List ℕ)
    → IsSorted ivs
    → OneEach ivs
    → linear_scan_alloc ivs n ≡ ok alloc
    → Allocated ivs n alloc
unfolding linear_scan_alloc
linear_scan_alloc_lem ivs n alloc sorted once h =
    let p = scan-Placed ivs (replicate n 0) (replicate num_phys_regs true) [] alloc empty h in
    record { sized = p.sized ∙ length-replicate n 0; assigned = p.assigned; apart = p.no_clash }
  where
    empty : Held ivs (replicate n 0) (replicate num_phys_regs true) []
    empty = record {
      busy = λ a i. absurd i;
      distinct = tt;
      placed = λ a i. absurd i;
      waiting = λ a j i. absurd i;
      sorted = sorted;
      once = once;
    }
