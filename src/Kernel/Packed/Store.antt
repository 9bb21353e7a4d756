-- ===== src/Kernel/Packed/Store.antt =====
-- numtoy-core/src/fuser.rs: a packed limb is read back, and other elements keep theirs.
use num_toy.Prelude.{
  ℕ, ◌+◌, ◌*◌, ◌/◌, ◌%◌, ◌^◌, ◌≤◌, ◌<◌, ◌≡◌, ◌≢◌, ◌⊎◌, inl, inr, refl, ap, ◌∙◌, Bool-cases, true,
  false, ◌==◌, if◌then◌else◌, arith, ltb, ltb→lt, le_bytes, length-le_bytes, bytes_bound,
  of_le_bytes,
}
use native.Mathlib.Nat.{mul-le-mul_right}
use num_toy.Kernel.Packed.{
  Memory, helper_load_u64, helper_store_u64, is_machine_width, bit_rounds, read_bytes, write_bytes,
  store_bits,
}
use num_toy.Kernel.Packed.Bytes.{write_bytes-other, read_bytes-ext, read_number}
use num_toy.Kernel.Packed.BitLoop.{store_bits-other, load_bits-ext, load_bits-store_bits}

-- the bits of a limb that the buffer has room for
abbrev pub limb_room : ℕ → ℕ → ℕ
limb_room bit_width limb_idx =
    if is_machine_width bit_width
    then bit_width
    else if bit_width % 64 == 0
    then 64
    else bit_rounds bit_width limb_idx

pub machine_width :
    (w : ℕ) → is_machine_width w ≡ true → (w ≡ 8) ⊎ ((w ≡ 16) ⊎ ((w ≡ 32) ⊎ (w ≡ 64)))
unfolding is_machine_width
machine_width w h = ground arith

pub machine_bound : (w : ℕ) → is_machine_width w ≡ true → bytes_bound (w / 8) ≡ 2 ^ w
machine_bound w h = elim (machine_width w h) [
  | inl e ↦ rw e refl
  | inr (inl e) ↦ rw e refl
  | inr (inr (inl e)) ↦ rw e refl
  | inr (inr (inr e)) ↦ rw e refl
]

module _ (mem : Memory) (off w limb val : ℕ) (pos : 0 < w) where
  loaded :
      helper_load_u64 (helper_store_u64 mem off w limb val) off w limb ≡ val % 2 ^ limb_room w limb
  unfolding helper_load_u64 helper_store_u64
  loaded =
      let nonzero : (w == 0) ≡ false = ground arith in
      elim (Bool-cases (is_machine_width w)) [
        | inl e ↦
            rw (nonzero, e)
              (read_number (w / 8) val mem (off / 8) ∙ ap (λ b. val % b) (machine_bound w e))
        | inr e ↦ elim (Bool-cases (w % 64 == 0)) [
          | inl e' ↦ rw (nonzero, e, e') (read_number 8 val mem ((off + limb * 64) / 8))
          | inr e' ↦
              rw (nonzero, e, e')
                (load_bits-store_bits (off + limb * 64) (bit_rounds w limb) val mem
                  (unfold bit_rounds in (omega arith)))
        ]
      ]

  bytes_kept :
      (a b n : ℕ)
      → (a + n ≤ b) ⊎ (b + n ≤ a)
      → of_le_bytes (read_bytes (write_bytes mem a (le_bytes n val)) b n)
        ≡ of_le_bytes (read_bytes mem b n)
  bytes_kept a b n h = ap of_le_bytes (
      read_bytes-ext n (write_bytes mem a (le_bytes n val)) mem b (λ k lo hi.
        write_bytes-other (le_bytes n val) mem a k (omega (arith, h, length-le_bytes n val))))

  machine_apart :
      (off' limb' : ℕ)
      → is_machine_width w ≡ true
      → limb * 64 < w
      → limb' * 64 < w
      → (off + limb * 64 + w ≤ off' + limb' * 64) ⊎ (off' + limb' * 64 + w ≤ off + limb * 64)
      → (off / 8 + w / 8 ≤ off' / 8) ⊎ (off' / 8 + w / 8 ≤ off / 8)
  machine_apart off' limb' e h h' apart = elim (machine_width w e) [
    | inl q ↦ omega (arith, q, apart)
    | inr (inl q) ↦ omega (arith, q, apart)
    | inr (inr (inl q)) ↦ omega (arith, q, apart)
    | inr (inr (inr q)) ↦ omega (arith, q, apart)
  ]

  -- a limb that shares no bit with this one
  kept :
      (off' limb' : ℕ)
      → limb * 64 < w
      → limb' * 64 < w
      → (off + limb * 64 + limb_room w limb ≤ off' + limb' * 64)
        ⊎ (off' + limb' * 64 + limb_room w limb' ≤ off + limb * 64)
      → helper_load_u64 (helper_store_u64 mem off w limb val) off' w limb'
        ≡ helper_load_u64 mem off' w limb'
  unfolding helper_load_u64 helper_store_u64
  kept off' limb' h h' apart =
      let nonzero : (w == 0) ≡ false = ground arith in
      elim (Bool-cases (is_machine_width w)) [
        | inl e ↦
            let apart' : (off / 8 + w / 8 ≤ off' / 8) ⊎ (off' / 8 + w / 8 ≤ off / 8) =
              machine_apart off' limb' e h h' (rw e at apart) in
            rw (nonzero, e) (bytes_kept (off / 8) (off' / 8) (w / 8) apart')
        | inr e ↦ elim (Bool-cases (w % 64 == 0)) [
          | inl e' ↦
              let s = off + limb * 64 in
              let s' = off' + limb' * 64 in
              let apart' : (s + 64 ≤ s') ⊎ (s' + 64 ≤ s) = rw (e, e') at apart in
              rw (nonzero, e, e') (bytes_kept (s / 8) (s' / 8) 8 (omega (arith, apart')))
          | inr e' ↦
              let s = off + limb * 64 in
              let s' = off' + limb' * 64 in
              let apart' : (s + bit_rounds w limb ≤ s') ⊎ (s' + bit_rounds w limb' ≤ s) =
                rw (e, e') at apart in
              rw (nonzero, e, e')
                (load_bits-ext s' (bit_rounds w limb') (store_bits s mem val 0 (bit_rounds w limb))
                  mem (unfold bit_rounds in (omega arith))
                  (λ k lt.
                    store_bits-other s (bit_rounds w limb) 0 val (s' + k) mem
                      (omega (arith, apart', lt))))
        ]
      ]

elements_apart : (w a b l l' n : ℕ) → l * 64 + n ≤ w → a < b → a * w + l * 64 + n ≤ b * w + l' * 64
elements_apart w a b l l' n fits less =
    let next : (a + 1) * w ≤ b * w = mul-le-mul_right w (omega arith) in
    let grown : (a + 1) * w ≡ a * w + w = grind arith in omega (arith, next, grown)

room_bounds :
    (w limb : ℕ) → limb * 64 < w → (limb * 64 + limb_room w limb ≤ w) × (limb_room w limb ≤ 64)
unfolding bit_rounds
room_bounds w limb h = elim (Bool-cases (is_machine_width w)) [
  | inl e ↦
      let small : w ≤ 64 = omega (arith, machine_width w e) in
      let first : limb ≡ 0 = omega (arith, small) in rw (e, first) (omega arith, small)
  | inr e ↦ elim (Bool-cases (w % 64 == 0)) [
    | inl e' ↦
        let whole : w % 64 ≡ 0 = ground arith in rw (e, e') (omega (arith, whole), omega arith)
    | inr e' ↦ rw (e, e') (omega arith, omega arith)
  ]
]

limbs_apart :
    (w a b l l' : ℕ)
    → l * 64 < w
    → l' * 64 < w
    → (a ≢ b) ⊎ (l ≢ l')
    → (a * w + l * 64 + limb_room w l ≤ b * w + l' * 64)
      ⊎ (b * w + l' * 64 + limb_room w l' ≤ a * w + l * 64)
limbs_apart w a b l l' h h' ne =
    let (fits, small) = room_bounds w l h in
    let (fits', small') = room_bounds w l' h' in
    elim (Bool-cases (ltb a b)) [
      | inl e ↦ inl (elements_apart w a b l l' (limb_room w l) fits (ltb→lt a b e))
      | inr e ↦ elim (Bool-cases (ltb b a)) [
        | inl e' ↦ inr (elements_apart w b a l' l (limb_room w l') fits' (ltb→lt b a e'))
        | inr e' ↦
            let same : a ≡ b = ground arith in
            let limbs : l ≢ l' = elim ne [ inl k ↦ absurd (k same) | inr k ↦ k ] in
            rw same (omega (arith, limbs, small, small'))
      ]
    ]

-- In a buffer of elements of `w` bits, storing a limb of element `a` makes that limb the low bits of the
-- value, as many as the width leaves for the limb, and leaves any other limb, of this or another
-- element, as it is.
pub helper_load-helper_store :
    (mem : Memory) (w a b limb limb' val : ℕ)
    → limb * 64 < w
    → limb' * 64 < w
    → (a ≢ b) ⊎ (limb ≢ limb')
    → let mem' = helper_store_u64 mem (a * w) w limb val in
      (helper_load_u64 mem' (a * w) w limb ≡ val % 2 ^ limb_room w limb)
      × (helper_load_u64 mem' (b * w) w limb' ≡ helper_load_u64 mem (b * w) w limb')
helper_load-helper_store mem w a b limb limb' val h h' ne =
    let pos : 0 < w = omega arith in
    (
      loaded mem (a * w) w limb val pos,
      kept mem (a * w) w limb val pos (b * w) limb' h h' (limbs_apart w a b limb limb' h h' ne),
    )
