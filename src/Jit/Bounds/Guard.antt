-- ===== src/Jit/Bounds/Guard.antt =====
-- numtoy-core/src/jit/bounds.rs: the guard zone round an output buffer.
use num_toy.Prelude.{
  ℕ, zero, suc, ◌+◌, ◌≡◌, ◌↔◌, refl, sym, ◌∙◌, ap, ap₂, subst, Bool, true, false, ◌&&◌, List, [],
  ◌∷◌, ◌++◌, arith, length, take, drop, take-append, drop-append_append, replicate,
  length-replicate, In, inl, inr,
}
use num_toy.Jit.Bounds.{
  guard_bytes, guard_canary, alloc_guarded_buffer, all_canary, verify_guard_zone,
}

-- Every byte of the list is the canary.
abbrev pub IsIntact : List ℕ → Type 0
IsIntact bytes = (b : ℕ) → In b bytes → b ≡ guard_canary

both : (a b : Bool) → (a && b) ≡ true → (a ≡ true) × (b ≡ true)
both true b h = (refl, h)
both false b h = absurd (cc)

all_canary-IsIntact : (bytes : List ℕ) → all_canary bytes ≡ true → IsIntact bytes
unfolding all_canary
all_canary-IsIntact [] h b i = absurd i
all_canary-IsIntact (x ∷ xs) h b (inl e) = ground (arith, e)
all_canary-IsIntact (x ∷ xs) h b (inr i) = all_canary-IsIntact xs (ground arith) b i

IsIntact-all_canary : (bytes : List ℕ) → IsIntact bytes → all_canary bytes ≡ true
unfolding all_canary
IsIntact-all_canary [] h = refl
IsIntact-all_canary (x ∷ xs) h =
    let here : x ≡ guard_canary = h x (inl refl) in
    let rest : all_canary xs ≡ true = IsIntact-all_canary xs (λ b i. h b (inr i)) in
    ground (arith, here, rest)

replicate-IsIntact : (n : ℕ) → IsIntact (replicate n guard_canary)
replicate-IsIntact zero b i = absurd i
replicate-IsIntact (suc n) b (inl e) = e
replicate-IsIntact (suc n) b (inr i) = replicate-IsIntact n b i

verify_parts :
    (lead mid trail : List ℕ)
    → length lead ≡ guard_bytes
    → verify_guard_zone (lead ++ (mid ++ trail)) (length mid)
      ≡ (all_canary lead && all_canary trail)
unfolding verify_guard_zone
verify_parts lead mid trail e =
    let first : take guard_bytes (lead ++ (mid ++ trail)) ≡ lead =
      subst (λ n. take n (lead ++ (mid ++ trail)) ≡ lead) e (take-append lead (mid ++ trail)) in
    let last : drop (guard_bytes + length mid) (lead ++ (mid ++ trail)) ≡ trail =
      drop-append_append lead mid trail (guard_bytes + length mid) (ap (λ n. n + length mid) e) in
    ap₂ (λ xs ys. all_canary xs && all_canary ys) first last

-- The check of a guarded buffer passes exactly when every byte of the leading 64 and every byte
-- after the data is still the canary; what the data holds does not matter. A buffer that is just
-- allocated is of this form, with the data zero, and passes.
pub verify_guard_zone-IsIntact :
    (lead mid trail : List ℕ)
    → length lead ≡ guard_bytes
    → ((verify_guard_zone (lead ++ (mid ++ trail)) (length mid) ≡ true)
        ↔ (IsIntact lead × IsIntact trail))
      × ((n : ℕ)
          → (verify_guard_zone (alloc_guarded_buffer n).0 n ≡ true)
            × ((alloc_guarded_buffer n).1 ≡ guard_bytes))
unfolding alloc_guarded_buffer
verify_guard_zone-IsIntact lead mid trail e =
    let parts = verify_parts lead mid trail e in
    let zone : List ℕ = replicate guard_bytes guard_canary in
    let fresh = IsIntact-all_canary zone (replicate-IsIntact guard_bytes) in
    (
      (
        λ h.
            let (l, r) = both (all_canary lead) (all_canary trail) (sym parts ∙ h) in
            (all_canary-IsIntact lead l, all_canary-IsIntact trail r),
        λ (l, r).
            parts ∙ ap₂ (λ x y. x && y) (IsIntact-all_canary lead l) (IsIntact-all_canary trail r),
      ),
      λ n. (
        subst (λ k. verify_guard_zone (zone ++ (replicate n 0 ++ zone)) k ≡ true)
            (length-replicate n 0)
            (verify_parts zone (replicate n 0) zone refl ∙ ap₂ (λ x y. x && y) fresh fresh),
        refl,
      ),
    )
