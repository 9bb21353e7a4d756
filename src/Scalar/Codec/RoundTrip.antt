-- ===== src/Scalar/Codec/RoundTrip.antt =====
-- numtoy-core/src/types.rs: integer scalars are read back from their limbs.
use num_toy.Prelude.{
  ℕ, zero, suc, ◌+◌, ◌-◌, ◌*◌, ◌%◌, ◌^◌, ◌≤◌, ◌<◌, ◌≡◌, ◌⊎◌, refl, sym, ap, ◌∙◌, Bool, true, false,
  Bool-cases, inl, inr, [], ◌∷◌, Option, none, some, ok, ◌>>=◌, leb, ◌==◌, arith, get_or,
  bit_of_small, two_pow_suc, two_pow_pos, two_pow_add,
}
use native.Mathlib.Nat.{mod-eq_of_lt, add-mul-mod_self_left, pow-le-pow_right, mul-add}
use num_toy.Scalar.{Scalar, scalar_type}
use num_toy.Scalar.Float.{FloatOps}
use num_toy.Scalar.Limbs.{u64_mod}
use num_toy.Scalar.Ints.RoundTrip.{top_bit}
use num_toy.Scalar.Codec.{sign_extended, int_to_limbs, to_limbs, from_limbs}

-- an i64 pattern whose value fits into `bits` bits
abbrev pub FitsIn : ℕ → ℕ → Type 0
FitsIn val bits =
    (0 < bits)
    × (bits ≤ 64)
    × ((val < 2 ^ (bits - 1)) ⊎ ((u64_mod ≤ val + 2 ^ (bits - 1)) × (val < u64_mod)))

-- the low bits of a negative number
negative_mod :
    (val h b q : ℕ)
    → 2 ^ 64 ≡ b * q
    → b ≡ 2 * h
    → 0 < h
    → 2 ^ 64 ≤ val + h
    → val < 2 ^ 64
    → 0 < q
    → val % b ≡ val + b - 2 ^ 64
negative_mod val h b zero whole twice pos lo hi q = absurd (omega arith)
negative_mod val h b (suc q) whole twice pos lo hi _ =
    let grown : b * suc q ≡ b + b * q = omega (arith, mul-add b q 1) in
    let parts : val ≡ val + b - 2 ^ 64 + b * q = omega (arith, whole, grown, lo, twice) in
    ap (λ n. n % b) parts
    ∙ add-mul-mod_self_left (val + b - 2 ^ 64) b q
    ∙ mod-eq_of_lt (omega (arith, hi, twice, pos))

sign_extended_lem : (val bits : ℕ) → FitsIn val bits → sign_extended val bits ≡ ok val
unfolding sign_extended
sign_extended_lem val bits (pos, hi, fits) = elim (Bool-cases (leb 64 bits)) [
  | inl e ↦ rw e refl
  | inr e ↦
      let nonzero : (bits == 0) ≡ false = ground arith in
      let whole : bits ≡ suc (bits - 1) = omega arith in
      let twice : 2 ^ bits ≡ 2 * 2 ^ (bits - 1) = ap (λ b. 2 ^ b) whole ∙ two_pow_suc (bits - 1) in
      elim fits [
        | inl small ↦
            let same : val % 2 ^ bits ≡ val = mod-eq_of_lt (omega (arith, small, twice)) in
            let clear = bit_of_small (bits - 1) val (bits - 1) small (omega arith) in
            rw (e, nonzero, same, clear) refl
        | inr (big, word) ↦
            let sum : bits + (64 - bits) ≡ 64 = omega arith in
            let all : 2 ^ 64 ≡ 2 ^ bits * 2 ^ (64 - bits) =
              ap (λ b. 2 ^ b) (sym sum) ∙ two_pow_add bits (64 - bits) in
            let room : 2 ^ bits ≤ 2 ^ 64 = pow-le-pow_right (omega arith) hi in
            let low =
              negative_mod val (2 ^ (bits - 1)) (2 ^ bits) (2 ^ (64 - bits)) all twice
                (two_pow_pos (bits - 1)) big word (two_pow_pos (64 - bits)) in
            let rest = val + 2 ^ bits - u64_mod in
            let above : 2 ^ (bits - 1) ≤ rest = omega (arith, twice, big) in
            let below : rest < 2 ^ suc (bits - 1) =
              omega (arith, twice, word, two_pow_suc (bits - 1), two_pow_pos bits) in
            let set = top_bit rest (bits - 1) above below in
            rw (e, nonzero, low, set) (ap ok (omega (arith, room, word, big, twice)))
      ]
]

-- an integer scalar that is made with its width; up to 64 bits the value fits into it
abbrev pub IsCoded : Scalar → Type 0
IsCoded (Scalar.int val bits) = FitsIn val bits
IsCoded (Scalar.scalable_int val bits) = FitsIn val bits
IsCoded (Scalar.floating_int value scale) = Unit
IsCoded (Scalar.int_limbs limbs bits) = 64 < bits
IsCoded (Scalar.scalable_int_limbs limbs bits) = 64 < bits
IsCoded (Scalar.float val bits) = ⊥
IsCoded (Scalar.dynamic_float val) = ⊥
IsCoded (Scalar.scalable_float val bits e) = ⊥

abbrev pub scale_of : Scalar → Option ℕ
scale_of (Scalar.floating_int value scale) = some scale
scale_of _ = none

int_back :
    (val bits : ℕ)
    → FitsIn val bits
    → (leb bits 64 ≡ true)
      × (int_to_limbs val bits ≡ val ∷ [])
      × (sign_extended (get_or (int_to_limbs val bits) 0 0) bits ≡ ok val)
unfolding int_to_limbs
int_back val bits h =
    let small : leb bits 64 ≡ true = ground (arith, h.1) in
    rw small (refl, refl, sign_extended_lem val bits h)

-- An integer scalar that fits into 64 bits, or that is a list of limbs, is read back from its limbs.
pub from_limbs-to_limbs :
    (ops : FloatOps) (s : Scalar) (steal_sign : Bool)
    → IsCoded s
    → (to_limbs ops s steal_sign >>= λ limbs.
        from_limbs ops limbs (scalar_type s) (scale_of s) steal_sign)
      ≡ ok s
unfolding to_limbs from_limbs scalar_type
from_limbs-to_limbs ops (Scalar.int val bits) steal_sign h =
    let (small, one, back) = int_back val bits h in rw (small, back) refl
from_limbs-to_limbs ops (Scalar.scalable_int val bits) steal_sign h =
    let (small, one, back) = int_back val bits h in rw (small, back) refl
from_limbs-to_limbs ops (Scalar.floating_int value scale) steal_sign h = refl
from_limbs-to_limbs ops (Scalar.int_limbs limbs bits) steal_sign h =
    let wide : leb bits 64 ≡ false = ground arith in rw wide refl
from_limbs-to_limbs ops (Scalar.scalable_int_limbs limbs bits) steal_sign h =
    let wide : leb bits 64 ≡ false = ground arith in rw wide refl
from_limbs-to_limbs ops (Scalar.float val bits) steal_sign h = absurd h
from_limbs-to_limbs ops (Scalar.dynamic_float val) steal_sign h = absurd h
from_limbs-to_limbs ops (Scalar.scalable_float val bits e) steal_sign h = absurd h
