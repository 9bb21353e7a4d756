-- ===== src/Array/Stretch/Values.antt =====
-- numtoy-core/src/array.rs: which value of the source each element of a broadcast is.
use num_toy.Prelude.{
  ℕ, zero, suc, ◌+◌, ◌-◌, ◌≤◌, ◌<◌, ◌≡◌, ◌⊎◌, refl, sym, ap, subst, ◌∙◌, true, List, [], ◌∷◌, ◌++◌,
  ok, at_index, arith, max, min, length, get_elem?, replicate, length-append, length-replicate,
  get_elem?-some, some, bind-ok,
}
use num_toy.Array.{numel, row_major_element_strides, source_index}
use num_toy.Array.Strides.{Stretches, zero_ones, index_in, source_index-lt}
use num_toy.Array.Stretch.{src_padded, check_dims, fill, stretch}
use num_toy.Array.Coordinates.{Within, flat_of, clip, flat_of-lt, index_in-flat_of}

module _ (src_flat tgt_strides src_strides : List ℕ) where
  abbrev at_source : ℕ → ℕ
  at_source flat_out = source_index tgt_strides src_strides flat_out

  at_index-some : (i v : ℕ) → get_elem? src_flat i ≡ some v → at_index src_flat i ≡ ok v
  at_index-some i v h = rw (h, at_index) refl

  fill_cons :
      (left flat_out v : ℕ) (rest : List ℕ)
      → at_source flat_out < length src_flat
      → get_elem? src_flat (at_source flat_out) ≡ some v
      → fill src_flat tgt_strides src_strides (suc flat_out) left ≡ ok rest
      → fill src_flat tgt_strides src_strides flat_out (suc left) ≡ ok (v ∷ rest)
  unfolding fill
  fill_cons left flat_out v rest here found filled =
      let no_clamp : min (at_source flat_out) (length src_flat - 1) ≡ at_source flat_out =
        omega (arith, here) in
      bind-ok _ (ap (at_index src_flat) no_clamp ∙ at_index-some (at_source flat_out) v found)
        (bind-ok _ filled refl)

  -- each element of the output is the one of the source at its index
  Filled : ℕ → List ℕ → Type 0
  Filled flat_out out =
      (j : ℕ) → j < length out → get_elem? out j ≡ get_elem? src_flat (at_source (flat_out + j))

  Filled-cons :
      (flat_out v : ℕ) (rest : List ℕ)
      → get_elem? src_flat (at_source flat_out) ≡ some v
      → Filled (suc flat_out) rest
      → Filled flat_out (v ∷ rest)
  unfolding Filled
  Filled-cons flat_out v rest found values zero h =
      let e : flat_out + 0 ≡ flat_out = omega arith in
      sym (ap (λ n. get_elem? src_flat (at_source n)) e ∙ found)
  Filled-cons flat_out v rest found values (suc j) h =
      let e : suc flat_out + j ≡ flat_out + suc j = omega arith in
      values j (omega arith) ∙ ap (λ n. get_elem? src_flat (at_source n)) e

  fill_lem :
      (left flat_out : ℕ)
      → ((j : ℕ) → flat_out ≤ j → j < flat_out + left → at_source j < length src_flat)
      → (out : List ℕ) × (fill src_flat tgt_strides src_strides flat_out left ≡ ok out)
        × (length out ≡ left)
        × Filled flat_out out
  fill_lem zero flat_out inside =
      ([], unfold fill in refl, refl, unfold Filled in λ j h. absurd (omega arith))
  fill_lem (suc left) flat_out inside =
      let here = inside flat_out (omega arith) (omega arith) in
      let (v, found) = get_elem?-some src_flat (at_source flat_out) here in
      let (rest, filled, size, values) =
        fill_lem left (suc flat_out) (λ j lo hi. inside j (omega arith) (omega arith)) in
      (
        v ∷ rest,
        fill_cons left flat_out v rest here found filled,
        ap suc size,
        Filled-cons flat_out v rest found values,
      )

check_dims-Stretches :
    (src tgt : List ℕ) → length src ≡ length tgt → check_dims src tgt ≡ true → Stretches src tgt
unfolding check_dims
check_dims-Stretches [] [] e h = tt
check_dims-Stretches [] (t ∷ ts) e h = absurd (omega (arith, e))
check_dims-Stretches (s ∷ ss) [] e h = absurd (omega (arith, e))
check_dims-Stretches (s ∷ ss) (t ∷ ts) e h =
    let head : (s ≡ t) ⊎ (s ≡ 1) = ground arith in
    let rest : check_dims ss ts ≡ true = ground arith in
    (head, check_dims-Stretches ss ts (omega (arith, e)) rest)

check_dims-length : (src tgt : List ℕ) → check_dims src tgt ≡ true → length src ≤ length tgt
unfolding check_dims
check_dims-length [] tgt h = omega arith
check_dims-length (s ∷ ss) [] h = absurd (ground arith)
check_dims-length (s ∷ ss) (t ∷ ts) h =
    let rest : check_dims ss ts ≡ true = ground arith in omega (arith, check_dims-length ss ts rest)

numel-padded : (n : ℕ) (xs : List ℕ) → numel (replicate n 1 ++ xs) ≡ numel xs
unfolding numel
numel-padded zero xs = refl
numel-padded (suc n) xs = omega (arith, numel-padded n xs)

-- the shape of an array, with ones in front up to the rank of the target
abbrev pub padded_to : List ℕ → List ℕ → List ℕ
padded_to target src_shape = src_padded (max (length target) (length src_shape)) src_shape

length-padded_to :
    (target src_shape : List ℕ)
    → length (padded_to target src_shape) ≡ max (length target) (length src_shape)
unfolding src_padded
length-padded_to target src_shape =
    let rank = max (length target) (length src_shape) in
    length-append (replicate (rank - length src_shape) 1) src_shape
    ∙ ap (λ n. n + length src_shape) (length-replicate (rank - length src_shape) 1)
    ∙ omega arith

-- When the shapes pass the assertion of `broadcast_to` and the source has all its elements, the target
-- is filled without a panic, has as many elements as its shape says, and its element at some coordinates
-- is that of the source at the same coordinates, with zero for each dimension of the source of one
-- element, and for each that it does not have.
pub stretch-values :
    (src_shape target src_flat cs : List ℕ)
    → check_dims (padded_to target src_shape) target ≡ true
    → length src_flat ≡ numel src_shape
    → Within cs target
    → (out : List ℕ) × (stretch (padded_to target src_shape) target src_flat ≡ ok out)
      × (length out ≡ numel target)
      × (get_elem? out (flat_of target cs)
          ≡ get_elem? src_flat
              (flat_of (padded_to target src_shape) (clip (padded_to target src_shape) cs)))
unfolding stretch
stretch-values src_shape target src_flat cs checked whole h =
    let src = padded_to target src_shape in
    let rank = length-padded_to target src_shape in
    let fewer = check_dims-length src target checked in
    let st = check_dims-Stretches src target (omega (arith, rank, fewer)) checked in
    let same : numel src ≡ length src_flat =
      unfold src_padded in
      (numel-padded (max (length target) (length src_shape) - length src_shape) src_shape
        ∙ sym whole) in
    let from_zero : 0 + flat_of target cs ≡ flat_of target cs = omega arith in
    let (out, filled, size, values) =
      fill_lem src_flat (row_major_element_strides target)
        (zero_ones src (row_major_element_strides src)) (numel target) 0
        (λ j lo hi.
          subst (λ n. index_in target src j < n) same
            (source_index-lt src target j st (omega arith))) in
    (
      out,
      filled,
      size,
      unfold Filled in
          (values (flat_of target cs) (omega (arith, size, flat_of-lt target cs h)))
          ∙ ap (λ n. get_elem? src_flat (index_in target src n)) from_zero
          ∙ ap (get_elem? src_flat) (index_in-flat_of src target cs st h),
    )
