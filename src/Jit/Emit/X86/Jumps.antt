-- ===== src/Jit/Emit/X86/Jumps.antt =====
-- numtoy-core/src/jit/emit.rs: where the two jumps of the kernel's loop land.
use num_toy.Prelude.{
  ok-injective, refused-ne-ok, ℕ, ◌+◌, ◌-◌, ◌%◌, ◌^◌, ◌<◌, ◌≡◌, refl, sym, ◌∙◌, ap, subst, Bool,
  true, false, List, [], ◌∷◌, ◌++◌, arith, ok, >>=-eq-ok, length, length-append, take, drop,
  take-append, drop-append, drop-append_append, le_bytes, of_le_bytes, of_le_bytes-le_bytes,
  sub_i32, append_assoc, Bool-cases, inl, inr, ◌==◌,
}
use num_toy.Scalar.Float.{FloatOps}
use num_toy.Jit.Program.{NtProgram}
use num_toy.Jit.Emit.X86.{
  prologue, epilogue, r10, r15, cmp_r64_r64, jge_rel32_placeholder, patch_jge, jmp_rel32_back,
  inc_r64, emit_body, wrap_body, emit_kernel_x86_64,
}

patch_jge-at :
    (xs rest : List ℕ)
    → patch_jge (length xs) (xs ++ (le_bytes 4 0 ++ rest))
      ≡ xs ++ (le_bytes 4 (sub_i32 (length xs + 4 + length rest) (length xs + 4)) ++ rest)
unfolding patch_jge
patch_jge-at xs rest =
    let tail : drop (length xs + 4) (xs ++ (le_bytes 4 0 ++ rest)) ≡ rest =
      drop-append_append xs (le_bytes 4 0) rest (length xs + 4) refl in
    let size : length (xs ++ (le_bytes 4 0 ++ rest)) ≡ length xs + 4 + length rest =
      length-append xs (le_bytes 4 0 ++ rest) ∙ omega arith in
    rw (take-append xs (le_bytes 4 0 ++ rest), tail, size)

-- The four bytes at the site take the distance; the others stay.
patch_jge-append :
    (xs rest : List ℕ) (site : ℕ)
    → length xs ≡ site
    → patch_jge site (xs ++ (le_bytes 4 0 ++ rest))
      ≡ xs ++ (le_bytes 4 (sub_i32 (site + 4 + length rest) (site + 4)) ++ rest)
patch_jge-append xs rest site e =
    subst
      (λ n.
        patch_jge n (xs ++ (le_bytes 4 0 ++ rest))
        ≡ xs ++ (le_bytes 4 (sub_i32 (n + 4 + length rest) (n + 4)) ++ rest))
      e (patch_jge-at xs rest)

-- All that comes before the distance of the forward jump.
abbrev pub head : Bool → List ℕ
head windows = (prologue windows ++ cmp_r64_r64 r10 r15) ++ 0x0F ∷ 0x8D ∷ []

length-head : (windows : Bool) → length (head windows) ≡ 30
unfolding cmp_r64_r64
length-head true = refl
length-head false = refl

length-prologue : (windows : Bool) → length (prologue windows) ≡ 25
length-prologue true = refl
length-prologue false = refl

-- The kernel, with the distances written out.
abbrev pub framed : Bool → List ℕ → ℕ → ℕ → List ℕ
framed windows body exit back =
    head windows
    ++ (le_bytes 4 exit ++ ((body ++ inc_r64 r10) ++ (0xE9 ∷ le_bytes 4 back ++ epilogue)))

module _ (start cmp body inc end : List ℕ) where
  abbrev jcc : List ℕ
  jcc = 0x0F ∷ 0x8D ∷ []

  abbrev looped : List ℕ
  looped = (((start ++ cmp) ++ (jcc ++ le_bytes 4 0)) ++ body) ++ inc

  abbrev jump : ℕ → List ℕ
  jump back = 0xE9 ∷ le_bytes 4 back

  length-looped :
      length start ≡ 25 → length cmp ≡ 3 → length inc ≡ 3 → length looped + 1 + 4 ≡ length body + 42
  length-looped s c i = omega (
    arith,
    s,
    c,
    i,
    length-append (((start ++ cmp) ++ (jcc ++ le_bytes 4 0)) ++ body) inc,
    length-append ((start ++ cmp) ++ (jcc ++ le_bytes 4 0)) body,
    length-append (start ++ cmp) (jcc ++ le_bytes 4 0),
    length-append start cmp,
  )

  regroup :
      (t : List ℕ) → looped ++ t ≡ ((start ++ cmp) ++ jcc) ++ (le_bytes 4 0 ++ ((body ++ inc) ++ t))
  regroup t = simp append_assoc

  assembled :
      (back : ℕ)
      → length start ≡ 25
      → length cmp ≡ 3
      → length inc ≡ 3
      → patch_jge (length (start ++ cmp) + 2) (looped ++ jump back) ++ end
        ≡ ((start ++ cmp) ++ jcc)
          ++ (le_bytes 4 (sub_i32 (length body + 42) 34) ++ ((body ++ inc) ++ (jump back ++ end)))
  assembled back s c i =
      let site : length (start ++ cmp) + 2 ≡ 30 = omega (arith, length-append start cmp, s, c) in
      let here : length ((start ++ cmp) ++ jcc) ≡ 30 =
        omega (arith, length-append (start ++ cmp) jcc, site) in
      let rest : 34 + length ((body ++ inc) ++ jump back) ≡ length body + 42 =
        omega (arith, length-append (body ++ inc) (jump back), length-append body inc, i) in
      ap (λ n. patch_jge n (looped ++ jump back) ++ end) site
      ∙ ap (λ b. patch_jge 30 b ++ end) (regroup (jump back))
      ∙ ap (λ b. b ++ end)
          (patch_jge-append ((start ++ cmp) ++ jcc) ((body ++ inc) ++ jump back) 30 here)
      ∙ ap
          (λ n.
            (((start ++ cmp) ++ jcc) ++ (le_bytes 4 (sub_i32 n 34) ++ ((body ++ inc) ++ jump back)))
            ++ end)
          rest
      ∙ simp append_assoc

wrap_body-framed :
    (windows : Bool) (body : List ℕ)
    → wrap_body windows body
      ≡ framed windows body (sub_i32 (length body + 42) 34) (sub_i32 25 (length body + 42))
unfolding wrap_body jge_rel32_placeholder jmp_rel32_back
wrap_body-framed windows body =
    let start = prologue windows in
    let cmp = cmp_r64_r64 r10 r15 in
    let inc = inc_r64 r10 in
    let all = looped start cmp body inc epilogue in
    let three : length cmp ≡ 3 = unfold cmp_r64_r64 in refl in
    let more : length inc ≡ 3 = unfold inc_r64 in refl in
    let top = length-prologue windows in
    ap
      (λ n.
        patch_jge (length (start ++ cmp) + 2)
          (all ++ jump start cmp body inc epilogue (sub_i32 n (length all + 1 + 4)))
        ++ epilogue)
      top
    ∙ ap
        (λ n.
          patch_jge (length (start ++ cmp) + 2)
            (all ++ jump start cmp body inc epilogue (sub_i32 25 n))
          ++ epilogue)
        (length-looped start cmp body inc epilogue top three more)
    ∙ assembled start cmp body inc epilogue (sub_i32 25 (length body + 42)) top three more

-- Where the jump leads whose 32-bit distance stands at the offset `site`: the processor adds the
-- distance to the address after it.
abbrev pub jump_target : List ℕ → ℕ → ℕ
jump_target code site = (site + 4 + of_le_bytes (take 4 (drop site code))) % 2 ^ 32

jump_target-append :
    (xs ys : List ℕ) (site rel : ℕ)
    → length xs ≡ site
    → rel < 2 ^ 32
    → jump_target (xs ++ (le_bytes 4 rel ++ ys)) site ≡ (site + 4 + rel) % 2 ^ 32
jump_target-append xs ys site rel e h =
    let here : drop site (xs ++ (le_bytes 4 rel ++ ys)) ≡ le_bytes 4 rel ++ ys =
      subst (λ n. drop n (xs ++ (le_bytes 4 rel ++ ys)) ≡ le_bytes 4 rel ++ ys) e
        (drop-append xs (le_bytes 4 rel ++ ys)) in
    ap (λ bs. (site + 4 + of_le_bytes (take 4 bs)) % 2 ^ 32) here
    ∙ ap (λ d. (site + 4 + d) % 2 ^ 32) (of_le_bytes-le_bytes 4 rel h)

sub_i32-lt : (a b : ℕ) → sub_i32 a b < 2 ^ 32
sub_i32-lt a b = omega arith

module _ (windows : Bool) (body : List ℕ) (exit back : ℕ) where
  abbrev code : List ℕ
  code = framed windows body exit back

  abbrev before_jump : List ℕ
  before_jump = (head windows ++ (le_bytes 4 exit ++ (body ++ inc_r64 r10))) ++ 0xE9 ∷ []

  length-before_jump : length before_jump ≡ length body + 38
  length-before_jump =
      let more : length (inc_r64 r10) ≡ 3 = unfold inc_r64 in refl in
      omega (
        arith,
        length-append (head windows ++ (le_bytes 4 exit ++ (body ++ inc_r64 r10))) (0xE9 ∷ []),
        length-append (head windows) (le_bytes 4 exit ++ (body ++ inc_r64 r10)),
        length-append body (inc_r64 r10),
        length-head windows,
        more,
      )

  split_back : code ≡ before_jump ++ (le_bytes 4 back ++ epilogue)
  split_back = simp append_assoc

  length-code : length code ≡ length body + 53
  length-code =
      ap length split_back
      ∙ length-append before_jump (le_bytes 4 back ++ epilogue)
      ∙ omega (arith, length-before_jump)

  drop-code : drop (length body + 42) code ≡ epilogue
  drop-code =
      ap (drop (length body + 42)) split_back
      ∙ drop-append_append before_jump (le_bytes 4 back) epilogue (length body + 42)
          (omega (arith, length-before_jump))

  -- the two jumps, for the distances given
  targets :
      exit < 2 ^ 32
      → back < 2 ^ 32
      → (jump_target code 30 ≡ (34 + exit) % 2 ^ 32)
        × (jump_target code (length body + 38) ≡ (length body + 42 + back) % 2 ^ 32)
  targets he hb =
      let last : length body + 38 + 4 ≡ length body + 42 = omega arith in
      (
        jump_target-append (head windows) _ 30 exit (length-head windows) he,
        ap (λ c. jump_target c (length body + 38)) split_back
            ∙ jump_target-append before_jump epilogue (length body + 38) back length-before_jump hb
            ∙ ap (λ n. (n + back) % 2 ^ 32) last,
      )

-- What the loop of a kernel must do.
pub record Loops (windows : Bool) (code : List ℕ) : Type 0 where
  -- The forward jump at the loop's head leads to the last eleven bytes, which are the epilogue.
  pub exits : jump_target code 30 ≡ length code - 11
  pub epilogue_last : drop (length code - 11) code ≡ epilogue
  -- The jump at the loop's foot leads to the first byte after the prologue.
  pub repeats : jump_target code (length code - 15) ≡ length (prologue windows)

wrap_body-Loops :
    (windows : Bool) (body : List ℕ)
    → length (wrap_body windows body) < 2 ^ 31
    → Loops windows (wrap_body windows body)
wrap_body-Loops windows body h =
    let exit = sub_i32 (length body + 42) 34 in
    let back = sub_i32 25 (length body + 42) in
    let e = wrap_body-framed windows body in
    let size : length (framed windows body exit back) ≡ length body + 53 =
      length-code windows body exit back in
    let small : length body + 53 < 2 ^ 31 = omega (arith, ap length e, size, h) in
    let (fwd, bwd) =
      targets windows body exit back (sub_i32-lt (length body + 42) 34)
        (sub_i32-lt 25 (length body + 42)) in
    subst (Loops windows) (sym e) (record {
      exits = fwd ∙ omega (arith, size, small);
      epilogue_last =
          subst (λ n. drop n (framed windows body exit back) ≡ epilogue) (omega (arith, size))
            (drop-code windows body exit back);
      repeats =
          subst (λ n. jump_target (framed windows body exit back) n ≡ length (prologue windows))
            (omega (arith, size)) (bwd ∙ omega (arith, small, length-prologue windows));
    })

-- In every kernel of less than 2 ^ 31 bytes the two jumps of the loop land where they should: the
-- forward jump on the epilogue, which is the end of the code, and the backward jump on the
-- comparison that follows the prologue.
pub emit_kernel_x86_64-Loops :
    (ops : FloatOps) (windows : Bool) (prog : NtProgram) (code : List ℕ)
    → emit_kernel_x86_64 ops windows prog ≡ ok code
    → length code < 2 ^ 31
    → Loops windows code
unfolding emit_kernel_x86_64
emit_kernel_x86_64-Loops ops windows prog code h small =
    let (body, emitted, h₁) = >>=-eq-ok (emit_body ops prog.alloc prog.insts) _ h in
    elim (Bool-cases (length (wrap_body windows body) == 0)) [
      | inl z ↦ absurd (refused-ne-ok code (rw z at h₁))
      | inr z ↦
          let e : wrap_body windows body ≡ code = ok-injective _ code (rw z at h₁) in
          subst (Loops windows) e
            (wrap_body-Loops windows body (subst (λ c. length c < 2 ^ 31) (sym e) small))
    ]
