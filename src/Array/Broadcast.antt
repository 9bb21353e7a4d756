-- ===== src/Array/Broadcast.antt =====
-- numtoy-core/src/array.rs: `broadcast_shape`.
use num_toy.Prelude.{
  bind-ext, ok-injective, ℕ, zero, suc, ◌+◌, ◌-◌, ◌<◌, ◌≡◌, ◌≢◌, ◌⊎◌, refl, sym, ◌∙◌, ap, subst,
  List, arith, ok, ◌>>=◌, >>=-eq-ok, max, length, length-set, length-replicate, get_or,
  get_or-set_self, get_or-set_ne, set, replicate, ℕ_discrete,
}
use num_toy.Array.{dim_from_end, broadcast_dim, broadcast_loop, broadcast_shape}

-- A dimension stretches to `d`.
abbrev pub Fits : ℕ → ℕ → Type 0
Fits s d = (s ≡ d) ⊎ (s ≡ 1)

broadcast_dim-Fits : (x y d : ℕ) → broadcast_dim x y ≡ ok d → Fits x d × Fits y d
unfolding broadcast_dim
broadcast_dim-Fits x y d h = ground arith

broadcast_dim_comm : (x y : ℕ) → broadcast_dim x y ≡ broadcast_dim y x
unfolding broadcast_dim
broadcast_dim_comm x y = ground arith

module _ (a b : List ℕ) (rank : ℕ) where
  -- what dimension `j` from the end must be
  abbrev Good : List ℕ → ℕ → Type 0
  Good out j =
      Fits (dim_from_end a j) (get_or out (rank - 1 - j) 1)
      × Fits (dim_from_end b j) (get_or out (rank - 1 - j) 1)

  Good-set :
      (out : List ℕ) (i d : ℕ)
      → i < rank
      → length out ≡ rank
      → Fits (dim_from_end a i) d × Fits (dim_from_end b i) d
      → ((j : ℕ) → j < i → Good out j)
      → (j : ℕ) → j < suc i
      → Good (set out (rank - 1 - i) d) j
  Good-set out i d lt size fits done j h = elim (ℕ_discrete i j) [
    | yes e ↦
        let here : d ≡ get_or (set out (rank - 1 - i) d) (rank - 1 - i) 1 =
          sym (get_or-set_self out (rank - 1 - i) d 1 (omega (arith, size, lt))) in
        subst (Good (set out (rank - 1 - i) d)) e
          (subst (λ v. Fits (dim_from_end a i) v × Fits (dim_from_end b i) v) here fits)
    | no ne ↦
        let less : j < i = omega (arith, ne, h) in
        let apart : rank - 1 - i ≢ rank - 1 - j = λ q. omega (arith, q, less, lt) in
        subst (λ v. Fits (dim_from_end a j) v × Fits (dim_from_end b j) v)
          (sym (get_or-set_ne out (rank - 1 - i) (rank - 1 - j) d 1 apart)) (done j less)
  ]

  loop_lem :
      (left i : ℕ) (out result : List ℕ)
      → i + left ≡ rank
      → length out ≡ rank
      → ((j : ℕ) → j < i → Good out j)
      → broadcast_loop a b rank left i out ≡ ok result
      → (length result ≡ rank) × ((j : ℕ) → j < rank → Good result j)
  unfolding broadcast_loop
  loop_lem zero i out result e size done h =
      let same : out ≡ result = ok-injective out result h in
      subst (λ r. (length r ≡ rank) × ((j : ℕ) → j < rank → Good r j)) same
        (size, λ j lt. done j (omega (arith, e)))
  loop_lem (suc left) i out result e size done h =
      let (d, dim, rest) = >>=-eq-ok (broadcast_dim (dim_from_end a i) (dim_from_end b i)) _ h in
      let lt : i < rank = omega (arith, e) in
      loop_lem left (suc i) (set out (rank - 1 - i) d) result (omega (arith, e))
        (length-set out (rank - 1 - i) d ∙ size)
        (Good-set out i d lt size (broadcast_dim-Fits (dim_from_end a i) (dim_from_end b i) d dim)
          done)
        rest

-- what the shape of a broadcast must be
pub record Broadcasts (a b out : List ℕ) : Type 0 where
  pub rank : length out ≡ max (length a) (length b)
  pub fits :
      (j : ℕ)
      → j < max (length a) (length b)
      → Fits (dim_from_end a j) (get_or out (max (length a) (length b) - 1 - j) 1)
        × Fits (dim_from_end b j) (get_or out (max (length a) (length b) - 1 - j) 1)

-- The shape that two shapes broadcast to has the rank of the longer, and each dimension of either
-- shape, counted from the end and 1 where there is none, is that dimension of the result or 1.
pub broadcast_shape-Fits : (a b out : List ℕ) → broadcast_shape a b ≡ ok out → Broadcasts a b out
unfolding broadcast_shape
broadcast_shape-Fits a b out h =
    let rank = max (length a) (length b) in
    let (size, fits) =
      loop_lem a b rank rank 0 (replicate rank 1) out (omega arith) (length-replicate rank 1)
        (λ j lt. absurd (omega arith)) h in
    record { rank = size; fits = fits }

loop_comm :
    (a b : List ℕ) (rank left i : ℕ) (out : List ℕ)
    → broadcast_loop a b rank left i out ≡ broadcast_loop b a rank left i out
unfolding broadcast_loop
loop_comm a b rank zero i out = refl
loop_comm a b rank (suc left) i out =
    ap (λ m. m >>= λ d. broadcast_loop a b rank left (suc i) (set out (rank - 1 - i) d))
      (broadcast_dim_comm (dim_from_end a i) (dim_from_end b i))
    ∙ bind-ext (broadcast_dim (dim_from_end b i) (dim_from_end a i)) _ _
        (λ d. loop_comm a b rank left (suc i) (set out (rank - 1 - i) d))

-- Broadcasting is symmetric: the two shapes in either order give the same shape, or both panic.
pub broadcast_shape_comm : (a b : List ℕ) → broadcast_shape a b ≡ broadcast_shape b a
unfolding broadcast_shape
broadcast_shape_comm a b =
    let rank = max (length a) (length b) in
    let same : rank ≡ max (length b) (length a) = omega arith in
    loop_comm a b rank rank 0 (replicate rank 1)
    ∙ ap (λ n. broadcast_loop b a n n 0 (replicate n 1)) same
