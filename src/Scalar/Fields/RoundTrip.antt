-- ===== src/Scalar/Fields/RoundTrip.antt =====
-- numtoy-core/src/types.rs: a bit field is read back as it was written, and nothing else changes.
use num_toy.Prelude.{
  ℕ, zero, suc, ◌+◌, ◌*◌, ◌/◌, ◌%◌, ◌^◌, ◌≤◌, ◌<◌, ◌≡◌, ◌≢◌, ◌⊎◌, inl, inr, refl, sym, ap, ◌∙◌,
  List, none, some, ◌==◌, Bool-cases, Option-cases, if◌then◌else◌, arith, get_elem?, set, replicate,
  length, put_bit, bit, bit-put_bit_self, bit-put_bit_ne, get_elem?-set_self, get_elem?-set_ne,
  length-set, get_elem?-lt, get_elem?-some, ltb, ltb→lt, get_or-of-get_elem?, get_or,
  get_or-replicate, length-replicate,
}
use native.Mathlib.Nat.{zero-div}
use num_toy.Scalar.Limbs.{limb_bit, limb_count}
use num_toy.Scalar.Fields.{set_limb_bit, set_bits_from, get_bits_from, set_bits, get_bits}

limb_bit-some :
    (limbs : List ℕ) (i x : ℕ)
    → get_elem? limbs (i / 64) ≡ some x
    → limb_bit limbs i ≡ bit x (i % 64)
unfolding limb_bit
limb_bit-some limbs i x h = rw (h, limb_bit) refl

pub limb_bit-none :
    (limbs : List ℕ) (i : ℕ) → get_elem? limbs (i / 64) ≡ none → limb_bit limbs i ≡ 0
unfolding limb_bit
limb_bit-none limbs i h = rw (h, limb_bit) refl

pub limb_bit-lt : (limbs : List ℕ) (i : ℕ) → limb_bit limbs i < 2
limb_bit-lt limbs i = elim (Option-cases (get_elem? limbs (i / 64))) [
  | inl e ↦ rw (limb_bit-none limbs i e) (omega arith)
  | inr (x, e) ↦ rw (limb_bit-some limbs i x e) (omega arith)
]

same_limb :
    (xs ys : List ℕ) (j : ℕ)
    → get_elem? xs (j / 64) ≡ get_elem? ys (j / 64)
    → limb_bit xs j ≡ limb_bit ys j
unfolding limb_bit
same_limb xs ys j h = rw (h, limb_bit) refl

module _ (limbs : List ℕ) (i value : ℕ) where
  set_limb_bit-none : get_elem? limbs (i / 64) ≡ none → set_limb_bit limbs i value ≡ limbs
  unfolding set_limb_bit
  set_limb_bit-none h = rw (h, set_limb_bit) refl

  set_limb_bit-some :
      (x : ℕ)
      → get_elem? limbs (i / 64) ≡ some x
      → set_limb_bit limbs i value ≡ set limbs (i / 64) (put_bit x (i % 64) value)
  unfolding set_limb_bit
  set_limb_bit-some x h = rw (h, set_limb_bit) refl

  pub length-set_limb_bit : length (set_limb_bit limbs i value) ≡ length limbs
  length-set_limb_bit = elim (Option-cases (get_elem? limbs (i / 64))) [
    | inl e ↦ ap length (set_limb_bit-none e)
    | inr (x, e) ↦
        ap length (set_limb_bit-some x e) ∙ length-set limbs (i / 64) (put_bit x (i % 64) value)
  ]

  pub limb_bit-set_self :
      value < 2 → i / 64 < length limbs → limb_bit (set_limb_bit limbs i value) i ≡ value
  limb_bit-set_self small h =
      let (x, e) = get_elem?-some limbs (i / 64) h in
      let new = put_bit x (i % 64) value in
      ap (λ ls. limb_bit ls i) (set_limb_bit-some x e)
      ∙ limb_bit-some (set limbs (i / 64) new) i new (get_elem?-set_self limbs (i / 64) new h)
      ∙ bit-put_bit_self x (i % 64) value small

  pub limb_bit-set_ne : (j : ℕ) → i ≢ j → limb_bit (set_limb_bit limbs i value) j ≡ limb_bit limbs j
  limb_bit-set_ne j ne = elim (Option-cases (get_elem? limbs (i / 64))) [
    | inl e ↦ ap (λ ls. limb_bit ls j) (set_limb_bit-none e)
    | inr (x, e) ↦
        let new = put_bit x (i % 64) value in
        let h = get_elem?-lt limbs (i / 64) x e in
        ap (λ ls. limb_bit ls j) (set_limb_bit-some x e) ∙ elim (Bool-cases (i / 64 == j / 64)) [
          | inl same ↦
              let limb : i / 64 ≡ j / 64 = ground arith in
              let apart : i % 64 ≢ j % 64 = λ k. ne (omega (arith, k, limb)) in
              let here = get_elem?-set_self limbs (i / 64) new h in
              limb_bit-some (set limbs (i / 64) new) j new
                (ap (get_elem? (set limbs (i / 64) new)) (sym limb) ∙ here)
              ∙ bit-put_bit_ne x (i % 64) (j % 64) value apart
              ∙ sym (limb_bit-some limbs j x (ap (get_elem? limbs) (sym limb) ∙ e))
          | inr other ↦
              let apart : i / 64 ≢ j / 64 = ground arith in
              same_limb (set limbs (i / 64) new) limbs j
                (get_elem?-set_ne limbs (i / 64) (j / 64) new apart)
        ]
  ]

module _ (value_limbs : List ℕ) (bit_offset : ℕ) where
  set_bits_from-other :
      (left i j : ℕ) (limbs : List ℕ)
      → (j < bit_offset + i) ⊎ (bit_offset + i + left ≤ j)
      → limb_bit (set_bits_from value_limbs bit_offset limbs i left) j ≡ limb_bit limbs j
  unfolding set_bits_from
  set_bits_from-other zero i j limbs h = refl
  set_bits_from-other (suc left) i j limbs h =
      set_bits_from-other left (suc i) j
        (set_limb_bit limbs (bit_offset + i) (limb_bit value_limbs i)) (omega (arith, h))
      ∙ limb_bit-set_ne limbs (bit_offset + i) (limb_bit value_limbs i) j (λ e. omega (arith, h, e))

  set_bits_from-field :
      (left i k : ℕ) (limbs : List ℕ)
      → i ≤ k
      → k < i + left
      → bit_offset + i + left ≤ 64 * length limbs
      → limb_bit (set_bits_from value_limbs bit_offset limbs i left) (bit_offset + k)
        ≡ limb_bit value_limbs k
  unfolding set_bits_from
  set_bits_from-field zero i k limbs h₁ h₂ fits = absurd (omega arith)
  set_bits_from-field (suc left) i k limbs h₁ h₂ fits =
      let value = limb_bit value_limbs i in
      let limbs' = set_limb_bit limbs (bit_offset + i) value in
      let same = length-set_limb_bit limbs (bit_offset + i) value in
      elim (Bool-cases (ltb i k)) [
        | inl later ↦
            let less = ltb→lt i k later in
            set_bits_from-field left (suc i) k limbs' (omega (arith, less)) (omega arith)
              (omega (arith, same))
        | inr now ↦
            let e : k ≡ i = ground arith in
            rw e (
              set_bits_from-other left (suc i) (bit_offset + i) limbs' (inl (omega arith))
              ∙ limb_bit-set_self limbs (bit_offset + i) value (limb_bit-lt value_limbs i)
                  (omega arith))
      ]

  one_round : ℕ → List ℕ → List ℕ
  one_round i res = if limb_bit value_limbs (bit_offset + i) == 1 then set_limb_bit res i 1 else res

  length-one_round : (i : ℕ) (res : List ℕ) → length (one_round i res) ≡ length res
  unfolding one_round
  length-one_round i res = elim (Bool-cases (limb_bit value_limbs (bit_offset + i) == 1)) [
    | inl e ↦ rw e (length-set_limb_bit res i 1)
    | inr e ↦ rw e refl
  ]

  one_round-ne : (i j : ℕ) (res : List ℕ) → i ≢ j → limb_bit (one_round i res) j ≡ limb_bit res j
  unfolding one_round
  one_round-ne i j res ne = elim (Bool-cases (limb_bit value_limbs (bit_offset + i) == 1)) [
    | inl e ↦ rw e (limb_bit-set_ne res i 1 j ne)
    | inr e ↦ rw e refl
  ]

  one_round_self :
      (i : ℕ) (res : List ℕ)
      → i / 64 < length res
      → limb_bit res i ≡ 0
      → limb_bit (one_round i res) i ≡ limb_bit value_limbs (bit_offset + i)
  unfolding one_round
  one_round_self i res h clear =
      let small = limb_bit-lt value_limbs (bit_offset + i) in
      elim (Bool-cases (limb_bit value_limbs (bit_offset + i) == 1)) [
        | inl e ↦
            let one : limb_bit value_limbs (bit_offset + i) ≡ 1 = ground arith in
            rw e (limb_bit-set_self res i 1 (omega arith) h ∙ sym one)
        | inr e ↦
            let zeroed : limb_bit value_limbs (bit_offset + i) ≡ 0 = ground arith in
            rw e (clear ∙ sym zeroed)
      ]

  get_bits_from-other :
      (left i j : ℕ) (res : List ℕ)
      → (j < i) ⊎ (i + left ≤ j)
      → limb_bit (get_bits_from value_limbs bit_offset res i left) j ≡ limb_bit res j
  unfolding get_bits_from one_round
  get_bits_from-other zero i j res h = refl
  get_bits_from-other (suc left) i j res h =
      get_bits_from-other left (suc i) j (one_round i res) (omega (arith, h))
      ∙ one_round-ne i j res (λ e. omega (arith, h, e))

  get_bits_from-field :
      (left i k : ℕ) (res : List ℕ)
      → i ≤ k
      → k < i + left
      → i + left ≤ 64 * length res
      → limb_bit res k ≡ 0
      → limb_bit (get_bits_from value_limbs bit_offset res i left) k
        ≡ limb_bit value_limbs (bit_offset + k)
  unfolding get_bits_from one_round
  get_bits_from-field zero i k res h₁ h₂ fits clear = absurd (omega arith)
  get_bits_from-field (suc left) i k res h₁ h₂ fits clear =
      let res' = one_round i res in
      let same = length-one_round i res in
      elim (Bool-cases (ltb i k)) [
        | inl later ↦
            let less = ltb→lt i k later in
            get_bits_from-field left (suc i) k res' (omega (arith, less)) (omega arith)
              (omega (arith, same)) (one_round-ne i k res (λ e. omega (arith, e, less)) ∙ clear)
        | inr now ↦
            let e : k ≡ i = ground arith in
            let still : limb_bit res i ≡ 0 = rw (sym e) clear in
            rw e (
              get_bits_from-other left (suc i) i res' (inl (omega arith))
              ∙ one_round_self i res (omega arith) still)
      ]

abbrev zeros : ℕ → List ℕ
zeros n = replicate n 0

length-zeros : (n : ℕ) → length (zeros n) ≡ n
length-zeros n = length-replicate n 0

zeros_at : (n i : ℕ) → get_or (zeros n) i 0 ≡ 0
zeros_at n i = get_or-replicate n i 0

limb_bit-zeros : (n j : ℕ) → limb_bit (zeros n) j ≡ 0
limb_bit-zeros n j = elim (Option-cases (get_elem? (zeros n) (j / 64))) [
  | inl e ↦ limb_bit-none (zeros n) j e
  | inr (x, e) ↦
      let zeroed : x ≡ 0 =
        sym (get_or-of-get_elem? (zeros n) (j / 64) x 0 e) ∙ zeros_at n (j / 64) in
      limb_bit-some (zeros n) j x e ∙ rw zeroed (rw (zero-div (2 ^ (j % 64))) refl)
]

-- A field of `bit_len` bits that lies within the limbs is read back as the low bits of the value it
-- was set to, with no bit above them; and setting it leaves every bit outside of it as it is.
pub get_bits-set_bits :
    (limbs value_limbs : List ℕ) (bit_offset bit_len : ℕ)
    → bit_offset + bit_len ≤ 64 * length limbs
    → let after = set_bits limbs value_limbs bit_offset bit_len in
      ((i : ℕ)
        → i < bit_len
        → limb_bit (get_bits after bit_offset bit_len) i ≡ limb_bit value_limbs i)
      × ((i : ℕ) → bit_len ≤ i → limb_bit (get_bits after bit_offset bit_len) i ≡ 0)
      × ((j : ℕ)
          → (j < bit_offset) ⊎ (bit_offset + bit_len ≤ j)
          → limb_bit after j ≡ limb_bit limbs j)
unfolding set_bits get_bits limb_count
get_bits-set_bits limbs value_limbs bit_offset bit_len fits =
    let after = set_bits limbs value_limbs bit_offset bit_len in
    let k = limb_count bit_len in
    let room : 0 + bit_len ≤ 64 * length (zeros k) = omega (arith, length-zeros k) in
    (
      λ i h.
          get_bits_from-field after bit_offset bit_len 0 i (zeros k) (omega arith) (omega arith)
            room (limb_bit-zeros k i)
          ∙ set_bits_from-field value_limbs bit_offset bit_len 0 i limbs (omega arith) (omega arith)
              (omega (arith, fits)),
      λ i h.
          get_bits_from-other after bit_offset bit_len 0 i (zeros k) (inr (omega arith))
          ∙ limb_bit-zeros k i,
      λ j h. set_bits_from-other value_limbs bit_offset bit_len 0 j limbs (omega (arith, h)),
    )
