-- ===== src/Jit/Emit/A64/Branches.antt =====
-- numtoy-core/src/jit/emit_aarch64.rs: where the two branches of the kernel's loop lead.
use num_toy.Prelude.{
  ok-injective, refused-ne-ok, ℕ, ◌+◌, ◌*◌, ◌/◌, ◌-◌, ◌%◌, ◌^◌, ◌<◌, ◌≡◌, sym, ◌∙◌, ap, subst, Bool,
  true, false, List, ◌++◌, arith, ok, >>=-eq-ok, length, length-append, take, drop, leb,
  drop-append, drop-append_append, le_bytes, of_le_bytes, of_le_bytes-le_bytes, append_assoc,
  Bool-cases, inl, inr, ◌==◌, if◌then◌else◌,
}
use num_toy.Scalar.Float.{FloatOps}
use num_toy.Jit.Program.{NtProgram}
use num_toy.Jit.Emit.A64.{
  emit_u32, prologue, epilogue, insns_between, inc_loop_ctr, emit_body, wrap_body, emit_kernel,
  emit_kernel_aarch64,
}
use num_toy.Jit.Emit.A64.Frame.{
  length-emit_u32, bge, b, head, framed, length-prologue, length-head, length-inc, wrap_body-framed,
}

-- the word at an offset, as the processor reads it
abbrev pub word_at : List ℕ → ℕ → ℕ
word_at code site = of_le_bytes (take 4 (drop site code))

-- Where a branch at `site` leads, whose distance is the number `imm` of words in `w` bits with a sign:
-- the processor adds four times the distance to the branch's own address.
unfoldable pub branch_target : ℕ → ℕ → ℕ → ℕ
branch_target w site imm =
    (site + 4 * imm + (if leb (2 ^ w) (2 * imm) then 2 ^ 64 - 4 * 2 ^ w else 0)) % 2 ^ 64

-- the distance of `B.cond` in bits 5 to 23, and that of `B` in bits 0 to 25
abbrev pub bcond_target : List ℕ → ℕ → ℕ
bcond_target code site = branch_target 19 site (word_at code site / 2 ^ 5 % 2 ^ 19)

abbrev pub b_target : List ℕ → ℕ → ℕ
b_target code site = branch_target 26 site (word_at code site % 2 ^ 26)

word_at-append :
    (xs ys : List ℕ) (site word : ℕ)
    → length xs ≡ site
    → word < 2 ^ 32
    → word_at (xs ++ (le_bytes 4 word ++ ys)) site ≡ word
word_at-append xs ys site word e h =
    subst (λ n. word_at (xs ++ (le_bytes 4 word ++ ys)) n ≡ word) e
      (ap (λ bs. of_le_bytes (take 4 bs)) (drop-append xs (le_bytes 4 word ++ ys))
        ∙ of_le_bytes-le_bytes 4 word h)

module _ (body : List ℕ) (exit back : ℕ) where
  abbrev code : List ℕ
  code = framed body exit back

  abbrev before_branch : List ℕ
  before_branch = head ++ (le_bytes 4 exit ++ (body ++ emit_u32 inc_loop_ctr))

  length-before_branch : length before_branch ≡ length body + 48
  length-before_branch = omega (
    arith,
    length-append head (le_bytes 4 exit ++ (body ++ emit_u32 inc_loop_ctr)),
    length-append body (emit_u32 inc_loop_ctr),
    length-head,
    length-inc,
  )

  split_back : code ≡ before_branch ++ (le_bytes 4 back ++ emit_u32 epilogue)
  split_back = simp append_assoc

  length-code : length code ≡ length body + 72
  length-code =
      ap length split_back
      ∙ length-append before_branch (le_bytes 4 back ++ emit_u32 epilogue)
      ∙ omega (arith, length-before_branch, length-emit_u32 epilogue)

  drop-code : drop (length body + 52) code ≡ emit_u32 epilogue
  drop-code =
      ap (drop (length body + 52)) split_back
      ∙ drop-append_append before_branch (le_bytes 4 back) (emit_u32 epilogue) (length body + 52)
          (omega (arith, length-before_branch))

  words :
      exit < 2 ^ 32
      → back < 2 ^ 32
      → (word_at code 40 ≡ exit) × (word_at code (length body + 48) ≡ back)
  words he hb = (
    word_at-append head _ 40 exit length-head he,
    ap (λ c. word_at c (length body + 48)) split_back
        ∙ word_at-append before_branch (emit_u32 epilogue) (length body + 48) back
            length-before_branch hb,
  )

-- the distance, read back from the word that holds it
bge-distance : (d : ℕ) → (bge d / 2 ^ 5 % 2 ^ 19 ≡ d % 2 ^ 19) × (bge d < 2 ^ 32)
bge-distance d = (omega arith, omega arith)

b-distance : (d : ℕ) → (b d % 2 ^ 26 ≡ d % 2 ^ 26) × (b d < 2 ^ 32)
b-distance d = (omega arith, omega arith)

forward :
    (k : ℕ)
    → 4 * k + 72 < 2 ^ 20
    → branch_target 19 40 (insns_between 40 (4 * k + 52) % 2 ^ 19) ≡ 4 * k + 52
unfolding branch_target insns_between
forward k h = ground arith

backward :
    (k : ℕ)
    → 4 * k + 72 < 2 ^ 20
    → branch_target 26 (4 * k + 48) (insns_between (4 * k + 48) 36 % 2 ^ 26) ≡ 36
unfolding branch_target insns_between
backward k h = ground arith

bge-IsBge : (d : ℕ) → (bge d / 2 ^ 24 ≡ 0x54) × (bge d % 2 ^ 5 ≡ 10)
bge-IsBge d = (omega arith, omega arith)

b-IsB : (d : ℕ) → b d / 2 ^ 26 ≡ 5
b-IsB d = omega arith

-- What the loop of a kernel must do.
pub record Loops (code : List ℕ) : Type 0 where
  -- The word after the comparison is B.GE, and leads to the last five words, which are the epilogue.
  pub is_bge : (word_at code 40 / 2 ^ 24 ≡ 0x54) × (word_at code 40 % 2 ^ 5 ≡ 10)
  pub exits : bcond_target code 40 ≡ length code - 20
  pub epilogue_last : drop (length code - 20) code ≡ emit_u32 epilogue
  -- The word before the epilogue is B, and leads to the first word after the prologue.
  pub is_b : word_at code (length code - 24) / 2 ^ 26 ≡ 5
  pub repeats : b_target code (length code - 24) ≡ length (emit_u32 prologue)

wrap_body-Loops : (body : List ℕ) → length (wrap_body body) < 2 ^ 20 → Loops (wrap_body body)
wrap_body-Loops body h =
    let k = length body in
    let exit = insns_between 40 (length (emit_u32 body) + 52) in
    let back = insns_between (length (emit_u32 body) + 48) 36 in
    let e = wrap_body-framed body in
    let size : length (framed (emit_u32 body) (bge exit) (b back)) ≡ length (emit_u32 body) + 72 =
      length-code (emit_u32 body) (bge exit) (b back) in
    let four : length (emit_u32 body) ≡ 4 * k = length-emit_u32 body in
    let small : 4 * k + 72 < 2 ^ 20 = omega (arith, ap length e, size, four, h) in
    let (fwd, bwd) =
      words (emit_u32 body) (bge exit) (b back) (bge-distance exit).1 (b-distance back).1 in
    let foot : length (framed (emit_u32 body) (bge exit) (b back)) - 24
        ≡ length (emit_u32 body) + 48 =
      omega (arith, size) in
    let last : length (framed (emit_u32 body) (bge exit) (b back)) - 20
        ≡ length (emit_u32 body) + 52 =
      omega (arith, size) in
    subst Loops (sym e) (record {
      is_bge = rw fwd (bge-IsBge exit);
      exits =
          ap (λ w. branch_target 19 40 (w / 2 ^ 5 % 2 ^ 19)) fwd
          ∙ ap (branch_target 19 40) (bge-distance exit).0
          ∙ ap (λ n. branch_target 19 40 (insns_between 40 (n + 52) % 2 ^ 19)) four
          ∙ forward k small
          ∙ omega (arith, last, four);
      epilogue_last = rw last (drop-code (emit_u32 body) (bge exit) (b back));
      is_b = rw (foot, bwd) (b-IsB back);
      repeats =
          ap (b_target (framed (emit_u32 body) (bge exit) (b back))) foot
          ∙ ap (λ w. branch_target 26 (length (emit_u32 body) + 48) (w % 2 ^ 26)) bwd
          ∙ ap (branch_target 26 (length (emit_u32 body) + 48)) (b-distance back).0
          ∙ ap (λ n. branch_target 26 (n + 48) (insns_between (n + 48) 36 % 2 ^ 26)) four
          ∙ backward k small
          ∙ sym length-prologue;
    })

-- In every kernel of less than a mebibyte the two branches of the loop lead where they should: the
-- conditional one, B.GE, to the epilogue, which is the end of the code, and the other, B, back to the
-- word that follows the prologue. What the word before B.GE compares is not part of the statement.
pub emit_kernel_aarch64-Loops :
    (ops : FloatOps) (on_aarch64 : Bool) (prog : NtProgram) (code : List ℕ)
    → emit_kernel_aarch64 ops on_aarch64 prog ≡ ok code
    → length code < 2 ^ 20
    → Loops code
unfolding emit_kernel_aarch64 emit_kernel
emit_kernel_aarch64-Loops ops false prog code h small = absurd (refused-ne-ok code h)
emit_kernel_aarch64-Loops ops true prog code h small =
    let (body, emitted, h₁) = >>=-eq-ok (emit_body ops prog.alloc prog.insts) _ h in
    elim (Bool-cases (length (wrap_body body) == 0)) [
      | inl z ↦ absurd (refused-ne-ok code (rw z at h₁))
      | inr z ↦
          let e : wrap_body body ≡ code = ok-injective _ code (rw z at h₁) in
          subst Loops e (wrap_body-Loops body (subst (λ c. length c < 2 ^ 20) (sym e) small))
    ]
