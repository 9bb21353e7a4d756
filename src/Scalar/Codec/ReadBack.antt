-- ===== src/Scalar/Codec/ReadBack.antt =====
-- numtoy-core/src/types.rs: what an integer scalar comes back as, of any width.
use num_toy.Prelude.{
  ℕ, ◌^◌, ◌≤◌, ◌<◌, ◌≡◌, ◌⊎◌, refl, Bool, false, inl, inr, List, Outcome, ok, ◌>>=◌, leb, arith,
}
use num_toy.Scalar.{Scalar, scalar_type}
use num_toy.Scalar.Float.{FloatOps}
use num_toy.Scalar.Limbs.{u64_mod}
use num_toy.Scalar.Ints.Value.{limbs_value}
use num_toy.Scalar.Ints.{encode_custom_int_limbs, decode_custom_int_limbs}
use num_toy.Scalar.Ints.RoundTrip.{widened, decode-encode_custom_int_limbs}
use num_toy.Scalar.Codec.{int_to_limbs, to_limbs, from_limbs}
use num_toy.Scalar.Codec.RoundTrip.{FitsIn, scale_of, from_limbs-to_limbs}

-- an i64 pattern in more than 64 bits, which an u32 holds
abbrev pub IsWide : ℕ → ℕ → Type 0
IsWide val bits = (64 < bits) × (bits < 2 ^ 32) × (val < u64_mod)

-- A scalar of an i64 is one of at most 64 bits that its value fits into, or wider.
abbrev pub IsInteger : Scalar → Type 0
IsInteger (Scalar.int val bits) = FitsIn val bits ⊎ IsWide val bits
IsInteger (Scalar.scalable_int val bits) = FitsIn val bits ⊎ IsWide val bits
IsInteger (Scalar.floating_int value scale) = Unit
IsInteger (Scalar.int_limbs limbs bits) = 64 < bits
IsInteger (Scalar.scalable_int_limbs limbs bits) = 64 < bits
IsInteger (Scalar.float val bits) = ⊥
IsInteger (Scalar.dynamic_float val) = ⊥
IsInteger (Scalar.scalable_float val bits e) = ⊥

-- limbs of `bits` bits that spell out the i64 in two's complement, and are decoded to it
abbrev pub SpellOut : List ℕ → ℕ → ℕ → Type 0
SpellOut limbs val bits =
    (limbs_value limbs ≡ widened val bits) × (decode_custom_int_limbs limbs bits ≡ val)

-- What an integer scalar is read back as: itself up to 64 bits, and from 65 bits on the limbs of
-- its value.
abbrev pub ReadBack : Scalar → Scalar → Type 0
ReadBack (Scalar.int val bits) s =
    ((bits ≤ 64) × (s ≡ Scalar.int val bits))
    ⊎ ((64 < bits) × (limbs : List ℕ) × (s ≡ Scalar.int_limbs limbs bits) × SpellOut limbs val bits)
ReadBack (Scalar.scalable_int val bits) s =
    ((bits ≤ 64) × (s ≡ Scalar.scalable_int val bits))
    ⊎ ((64 < bits)
        × (limbs : List ℕ) × (s ≡ Scalar.scalable_int_limbs limbs bits)
        × SpellOut limbs val bits)
ReadBack (Scalar.floating_int value scale) s = s ≡ Scalar.floating_int value scale
ReadBack (Scalar.int_limbs limbs bits) s = s ≡ Scalar.int_limbs limbs bits
ReadBack (Scalar.scalable_int_limbs limbs bits) s = s ≡ Scalar.scalable_int_limbs limbs bits
ReadBack (Scalar.float val bits) s = ⊥
ReadBack (Scalar.dynamic_float val) s = ⊥
ReadBack (Scalar.scalable_float val bits e) s = ⊥

spelled : (val bits : ℕ) → IsWide val bits → SpellOut (encode_custom_int_limbs val bits) val bits
spelled val bits (wide, narrow, word) =
    let (decoded, value, _, _) =
      decode-encode_custom_int_limbs val bits word (omega (arith, wide)) narrow in
    (value, decoded)

-- `to_limbs` and then `from_limbs`
abbrev pub through_limbs : FloatOps → Scalar → Bool → Outcome Scalar
through_limbs ops s steal_sign = to_limbs ops s steal_sign >>= λ limbs.
    from_limbs ops limbs (scalar_type s) (scale_of s) steal_sign

wide_int :
    (ops : FloatOps) (val bits : ℕ) (steal_sign : Bool)
    → 64 < bits
    → (through_limbs ops (Scalar.int val bits) steal_sign
        ≡ ok (Scalar.int_limbs (encode_custom_int_limbs val bits) bits))
      × (through_limbs ops (Scalar.scalable_int val bits) steal_sign
          ≡ ok (Scalar.scalable_int_limbs (encode_custom_int_limbs val bits) bits))
unfolding to_limbs from_limbs scalar_type int_to_limbs
wide_int ops val bits steal_sign h =
    let wide : leb bits 64 ≡ false = ground arith in rw wide (refl, refl)

-- An integer scalar goes through its limbs without loss: a value of at most 64 bits that fits into
-- its width comes back as it was, with its scale if it has one, a wider i64 comes back as the limbs
-- that spell it out in two's complement in that width and are decoded to it, and a list of limbs
-- comes back as it was.
pub from_limbs-ReadBack :
    (ops : FloatOps) (s : Scalar) (steal_sign : Bool)
    → IsInteger s
    → (back : Scalar) × (through_limbs ops s steal_sign ≡ ok back) × ReadBack s back
from_limbs-ReadBack ops (Scalar.int val bits) steal_sign (inl h) = (
  Scalar.int val bits,
  from_limbs-to_limbs ops (Scalar.int val bits) steal_sign h,
  inl (h.1, refl),
)
from_limbs-ReadBack ops (Scalar.int val bits) steal_sign (inr h) =
    let limbs = encode_custom_int_limbs val bits in
    (
      Scalar.int_limbs limbs bits,
      (wide_int ops val bits steal_sign h.0).0,
      inr (h.0, limbs, refl, spelled val bits h),
    )
from_limbs-ReadBack ops (Scalar.scalable_int val bits) steal_sign (inl h) = (
  Scalar.scalable_int val bits,
  from_limbs-to_limbs ops (Scalar.scalable_int val bits) steal_sign h,
  inl (h.1, refl),
)
from_limbs-ReadBack ops (Scalar.scalable_int val bits) steal_sign (inr h) =
    let limbs = encode_custom_int_limbs val bits in
    (
      Scalar.scalable_int_limbs limbs bits,
      (wide_int ops val bits steal_sign h.0).1,
      inr (h.0, limbs, refl, spelled val bits h),
    )
from_limbs-ReadBack ops (Scalar.floating_int value scale) steal_sign h = (
  Scalar.floating_int value scale,
  from_limbs-to_limbs ops (Scalar.floating_int value scale) steal_sign h,
  refl,
)
from_limbs-ReadBack ops (Scalar.int_limbs limbs bits) steal_sign h = (
  Scalar.int_limbs limbs bits,
  from_limbs-to_limbs ops (Scalar.int_limbs limbs bits) steal_sign h,
  refl,
)
from_limbs-ReadBack ops (Scalar.scalable_int_limbs limbs bits) steal_sign h = (
  Scalar.scalable_int_limbs limbs bits,
  from_limbs-to_limbs ops (Scalar.scalable_int_limbs limbs bits) steal_sign h,
  refl,
)
from_limbs-ReadBack ops (Scalar.float val bits) steal_sign h = absurd h
from_limbs-ReadBack ops (Scalar.dynamic_float val) steal_sign h = absurd h
from_limbs-ReadBack ops (Scalar.scalable_float val bits e) steal_sign h = absurd h
