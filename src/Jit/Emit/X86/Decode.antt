-- ===== src/Jit/Emit/X86/Decode.antt =====
-- numtoy-core/src/jit/emit.rs: the register-to-register instructions, read back as the processor
-- reads them.
use num_toy.Prelude.{
  ℕ, ◌+◌, ◌*◌, ◌/◌, ◌%◌, ◌<◌, ◌≡◌, refl, ◌∙◌, ap, true, false, ◌&&◌, ◌||◌, Option, none, some, List,
  [], ◌∷◌, ◌++◌, append_assoc, arith, ◌==◌, if◌then◌else◌, Bool-cases, inl, inr,
}
use num_toy.Jit.Emit.X86.{
  bit_if, rex, modrm_rr, high, rex_rr, cvtss2sd, cvtsd2ss, movsd_xmm_xmm, sse2_op_rr,
}

-- a scalar SSE instruction with two register operands
pub record RegReg : Type 0 where
  pub prefix : ℕ
  pub opcode : ℕ
  pub dst : ℕ
  pub src : ℕ

-- After the prefixes: 0F, the opcode and a ModRM byte of register form, whose fields the REX bits
-- extend.
unfoldable pub decode_opcode : ℕ → ℕ → ℕ → List ℕ → Option (RegReg × List ℕ)
decode_opcode prefix r_ext b_ext (escape ∷ opcode ∷ modrm ∷ rest) =
    if escape == 0x0F && modrm / 64 == 3
    then some (
      record {
        prefix = prefix;
        opcode = opcode;
        dst = 8 * r_ext + modrm / 8 % 8;
        src = 8 * b_ext + modrm % 8;
      },
      rest,
    )
    else none
decode_opcode prefix r_ext b_ext (x ∷ y ∷ []) = none
decode_opcode prefix r_ext b_ext (x ∷ []) = none
decode_opcode prefix r_ext b_ext [] = none

-- A byte 40–4F after the mandatory prefix is a REX prefix: bit 2 extends the register field, and
-- bit 0 the operand field.
unfoldable pub decode_reg_reg : List ℕ → Option (RegReg × List ℕ)
decode_reg_reg (prefix ∷ b ∷ rest) =
    if b / 16 == 4
    then decode_opcode prefix (b / 4 % 2) (b % 2) rest
    else decode_opcode prefix 0 0 (b ∷ rest)
decode_reg_reg (prefix ∷ []) = none
decode_reg_reg [] = none

ext : ℕ → ℕ
ext r = bit_if (high r) 1

ext_lem : (r : ℕ) → r < 16 → 8 * ext r + r % 8 ≡ r
unfolding ext bit_if
ext_lem r h = ground arith

modrm_rr-fields :
    (r rm : ℕ)
    → (modrm_rr r rm / 64 ≡ 3) × (modrm_rr r rm / 8 % 8 ≡ r % 8) × (modrm_rr r rm % 8 ≡ rm % 8)
unfolding modrm_rr
modrm_rr-fields r rm = (omega arith, omega arith, omega arith)

rex-fields :
    (d s : ℕ)
    → let b = rex false (high d) false (high s) in
      (b / 16 ≡ 4) × (b / 4 % 2 ≡ ext d) × (b % 2 ≡ ext s)
unfolding rex bit_if ext
rex-fields d s = elim (Bool-cases (high d)) [
  | inl hd ↦ elim (Bool-cases (high s)) [
    | inl hs ↦ rw (hd, hs) (refl, refl, refl)
    | inr hs ↦ rw (hd, hs) (refl, refl, refl)
  ]
  | inr hd ↦ elim (Bool-cases (high s)) [
    | inl hs ↦ rw (hd, hs) (refl, refl, refl)
    | inr hs ↦ rw (hd, hs) (refl, refl, refl)
  ]
]

abbrev pub reg_reg : ℕ → ℕ → ℕ → ℕ → RegReg
reg_reg prefix opcode d s = record { prefix = prefix; opcode = opcode; dst = d; src = s }

decode_opcode_lem :
    (prefix opcode d s r b : ℕ) (rest : List ℕ)
    → d < 16
    → s < 16
    → r ≡ ext d
    → b ≡ ext s
    → decode_opcode prefix r b (0x0F ∷ opcode ∷ modrm_rr d s ∷ rest)
      ≡ some (reg_reg prefix opcode d s, rest)
unfolding decode_opcode
decode_opcode_lem prefix opcode d s r b rest hd hs er eb =
    let (form, reg, rm) = modrm_rr-fields d s in
    let left : 8 * r + modrm_rr d s / 8 % 8 ≡ d = omega (arith, ext_lem d hd, er, reg) in
    let right : 8 * b + modrm_rr d s % 8 ≡ s = omega (arith, ext_lem s hs, eb, rm) in
    let test : (modrm_rr d s / 64 == 3) ≡ true = rw form refl in rw (test, left, right)

decode-rex :
    (prefix opcode d s : ℕ) (rest : List ℕ)
    → d < 16
    → s < 16
    → decode_reg_reg
        (prefix ∷ rex false (high d) false (high s) ∷ 0x0F ∷ opcode ∷ modrm_rr d s ∷ rest)
      ≡ some (reg_reg prefix opcode d s, rest)
unfolding decode_reg_reg
decode-rex prefix opcode d s rest hd hs =
    let (mark, er, eb) = rex-fields d s in
    let test : (rex false (high d) false (high s) / 16 == 4) ≡ true = rw mark refl in
    rw test (decode_opcode_lem prefix opcode d s _ _ rest hd hs er eb)

decode-plain :
    (prefix opcode d s : ℕ) (rest : List ℕ)
    → d < 8
    → s < 8
    → decode_reg_reg (prefix ∷ 0x0F ∷ opcode ∷ modrm_rr d s ∷ rest)
      ≡ some (reg_reg prefix opcode d s, rest)
unfolding decode_reg_reg ext bit_if
decode-plain prefix opcode d s rest hd hs =
    decode_opcode_lem prefix opcode d s 0 0 rest (omega (arith, hd)) (omega (arith, hs))
      (ground arith) (ground arith)

decode-rex_rr :
    (prefix opcode d s : ℕ) (rest : List ℕ)
    → d < 16
    → s < 16
    → decode_reg_reg (prefix ∷ rex_rr d s ++ 0x0F ∷ opcode ∷ modrm_rr d s ∷ rest)
      ≡ some (reg_reg prefix opcode d s, rest)
unfolding rex_rr
decode-rex_rr prefix opcode d s rest hd hs = elim (Bool-cases (high d || high s)) [
  | inl e ↦ rw e (decode-rex prefix opcode d s rest hd hs)
  | inr e ↦ rw e (decode-plain prefix opcode d s rest (ground arith) (ground arith))
]

-- Each instruction on the register pair is read back as itself, up to what follows it.
pub record ReadsBack (d s : ℕ) (rest : List ℕ) : Type 0 where
  pub arithmetic :
      (opcode : ℕ)
      → decode_reg_reg (sse2_op_rr opcode d s ++ rest) ≡ some (reg_reg 0xF2 opcode d s, rest)
  pub to_double : decode_reg_reg (cvtss2sd d s ++ rest) ≡ some (reg_reg 0xF3 0x5A d s, rest)
  pub to_single : decode_reg_reg (cvtsd2ss d s ++ rest) ≡ some (reg_reg 0xF2 0x5A d s, rest)
  pub move : decode_reg_reg (movsd_xmm_xmm d s ++ rest) ≡ some (reg_reg 0xF2 0x10 d s, rest)

-- What the assembler writes for a pair of registers below 16 is read back as the same instruction on
-- the same two registers, for the arithmetic, the conversions and the move, and what follows it is
-- left.
pub decode_reg_reg-emit : (d s : ℕ) (rest : List ℕ) → d < 16 → s < 16 → ReadsBack d s rest
unfolding sse2_op_rr cvtss2sd cvtsd2ss movsd_xmm_xmm
decode_reg_reg-emit d s rest hd hs = record {
  arithmetic =
      λ opcode. ap decode_reg_reg (simp append_assoc) ∙ decode-rex_rr 0xF2 opcode d s rest hd hs;
  to_double = ap decode_reg_reg (simp append_assoc) ∙ decode-rex_rr 0xF3 0x5A d s rest hd hs;
  to_single = ap decode_reg_reg (simp append_assoc) ∙ decode-rex_rr 0xF2 0x5A d s rest hd hs;
  move = decode-rex 0xF2 0x10 d s rest hd hs;
}
