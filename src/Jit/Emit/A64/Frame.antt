-- ===== src/Jit/Emit/A64/Frame.antt =====
-- numtoy-core/src/jit/emit_aarch64.rs: the layout of an emitted kernel.
use num_toy.Prelude.{
  ℕ, ◌+◌, ◌*◌, ◌%◌, ◌^◌, ◌≡◌, refl, ◌∙◌, ap, List, [], ◌∷◌, ◌++◌, arith, length, length-append,
  drop, take-append, drop-append_append, le_bytes, append_assoc,
}
use num_toy.Jit.Emit.A64.{
  emit_u32, prologue, epilogue, cmp_loop, bge_placeholder, insns_between, patch_bcond, inc_loop_ctr,
  branch_back, wrap_body,
}

pub length-emit_u32 : (ws : List ℕ) → length (emit_u32 ws) ≡ 4 * length ws
unfolding emit_u32
length-emit_u32 [] = refl
length-emit_u32 (w ∷ ws) = omega (arith, length-emit_u32 ws)

abbrev pub bge : ℕ → ℕ
bge distance = 0x5400000A + distance % 2 ^ 19 * 2 ^ 5

abbrev pub b : ℕ → ℕ
b distance = 0x14000000 + distance % 2 ^ 26

-- The word at the site takes the distance; the other words stay.
patch_bcond-append :
    (xs rest : List ℕ) (old : ℕ)
    → patch_bcond (length xs) (xs ++ (le_bytes 4 old ++ rest))
      ≡ xs ++ (le_bytes 4 (bge (insns_between (length xs) (length xs + 4 + length rest))) ++ rest)
unfolding patch_bcond
patch_bcond-append xs rest old =
    let tail : drop (length xs + 4) (xs ++ (le_bytes 4 old ++ rest)) ≡ rest =
      drop-append_append xs (le_bytes 4 old) rest (length xs + 4) refl in
    let size : length (xs ++ (le_bytes 4 old ++ rest)) ≡ length xs + 4 + length rest =
      length-append xs (le_bytes 4 old ++ rest) ∙ omega arith in
    rw (take-append xs (le_bytes 4 old ++ rest), tail, size) refl

-- all that comes before the forward branch
abbrev pub head : List ℕ
head = emit_u32 prologue ++ emit_u32 cmp_loop

-- the kernel, with the two words written out
abbrev pub framed : List ℕ → ℕ → ℕ → List ℕ
framed body exit back =
    head
    ++ (le_bytes 4 exit
        ++ ((body ++ emit_u32 inc_loop_ctr) ++ (le_bytes 4 back ++ emit_u32 epilogue)))

module _ (xs body inc end : List ℕ) (old : ℕ) where
  abbrev looped : List ℕ
  looped = ((xs ++ le_bytes 4 old) ++ body) ++ inc

  length-looped : length xs ≡ 40 → length inc ≡ 4 → length looped ≡ length body + 48
  length-looped s i = omega (
    arith,
    s,
    i,
    length-append ((xs ++ le_bytes 4 old) ++ body) inc,
    length-append (xs ++ le_bytes 4 old) body,
    length-append xs (le_bytes 4 old),
  )

  regroup : (t : List ℕ) → looped ++ t ≡ xs ++ (le_bytes 4 old ++ ((body ++ inc) ++ t))
  regroup t = simp append_assoc

  assembled :
      (jump : ℕ)
      → length xs ≡ 40
      → length inc ≡ 4
      → patch_bcond (length xs) (looped ++ le_bytes 4 jump) ++ end
        ≡ xs
          ++ (le_bytes 4 (bge (insns_between 40 (length body + 52)))
              ++ ((body ++ inc) ++ (le_bytes 4 jump ++ end)))
  assembled jump s i =
      let rest = (body ++ inc) ++ le_bytes 4 jump in
      let size : length xs + 4 + length rest ≡ length body + 52 =
        omega
          (arith, s, i, length-append (body ++ inc) (le_bytes 4 jump), length-append body inc) in
      ap (λ b. patch_bcond (length xs) b ++ end) (regroup (le_bytes 4 jump))
      ∙ ap (λ b. b ++ end) (patch_bcond-append xs rest old)
      ∙ ap
          (λ n.
            (xs ++ (le_bytes 4 (bge (insns_between n (length xs + 4 + length rest))) ++ rest))
            ++ end)
          s
      ∙ ap (λ n. (xs ++ (le_bytes 4 (bge (insns_between 40 n)) ++ rest)) ++ end) size
      ∙ simp append_assoc

pub length-prologue : length (emit_u32 prologue) ≡ 36
length-prologue = length-emit_u32 prologue

pub length-head : length head ≡ 40
length-head = unfold emit_u32 cmp_loop in refl

pub length-inc : length (emit_u32 inc_loop_ctr) ≡ 4
length-inc = unfold emit_u32 inc_loop_ctr in refl

pub wrap_body-framed :
    (body : List ℕ)
    → wrap_body body
      ≡ framed
          (emit_u32 body)
          (bge (insns_between 40 (length (emit_u32 body) + 52)))
          (b (insns_between (length (emit_u32 body) + 48) 36))
unfolding wrap_body bge_placeholder branch_back emit_u32
wrap_body-framed body =
    let code = emit_u32 body in
    let inc = emit_u32 inc_loop_ctr in
    let all = looped head code inc (emit_u32 epilogue) 0x5400000A in
    let put = λ (j : ℕ). patch_bcond (length head) (all ++ le_bytes 4 (b j)) ++ emit_u32 epilogue in
    ap (λ n. put (insns_between (length all) n)) length-prologue
    ∙ ap (λ n. put (insns_between n 36))
        (length-looped head code inc (emit_u32 epilogue) 0x5400000A length-head length-inc)
    ∙ assembled head code inc (emit_u32 epilogue) 0x5400000A
        (b (insns_between (length code + 48) 36)) length-head length-inc
