-- ===== src/Array.antt =====
-- numtoy-core/src/array.rs: shapes, strides and broadcasting.
pub mod Strides
pub mod Broadcast
pub mod Transpose
pub mod Coordinates
pub mod Stretch
pub mod Slice
pub mod Operators
use num_toy.Prelude.{
  ℕ, zero, suc, ◌+◌, ◌-◌, ◌*◌, ◌/◌, ◌%◌, List, [], ◌∷◌, ◌++◌, Outcome, ok, fault, ◌>>=◌, max, ltb,
  ◌==◌, if◌then◌else◌, length, get_or, set, replicate,
}

-- `shape.iter().product()`, of a shape whose product fits in 64 bits
unfoldable pub numel : List ℕ → ℕ
numel [] = 1
numel (d ∷ ds) = d * numel ds

-- The loop from the last dimension but one down to the first, by which `strides[i]` is
-- `strides[i + 1] * shape[i + 1]`; `unit` is the last stride.
unfoldable pub strides_from : ℕ → List ℕ → List ℕ
strides_from unit [] = []
strides_from unit (d ∷ []) = unit ∷ []
strides_from unit (d ∷ e ∷ ds) =
    let rest = strides_from unit (e ∷ ds) in get_or rest 0 unit * e ∷ rest

unfoldable pub row_major_bit_strides : List ℕ → ℕ → List ℕ
row_major_bit_strides shape bits_per_element = strides_from bits_per_element shape

unfoldable pub row_major_element_strides : List ℕ → List ℕ
row_major_element_strides shape = strides_from 1 shape

-- `if i < a.len() { a[a.len() - 1 - i] } else { 1 }`
unfoldable pub dim_from_end : List ℕ → ℕ → ℕ
dim_from_end a i = if ltb i (length a) then get_or a (length a - 1 - i) 1 else 1

-- one dimension of the result; two that do not go together panic
unfoldable pub broadcast_dim : ℕ → ℕ → Outcome ℕ
broadcast_dim ai bi =
    if ai == bi then ok ai else if ai == 1 then ok bi else if bi == 1 then ok ai else fault

-- The loop over `i`, with `left` rounds to go, on the result so far.
unfoldable pub broadcast_loop : List ℕ → List ℕ → ℕ → ℕ → ℕ → List ℕ → Outcome (List ℕ)
broadcast_loop a b rank zero i out = ok out
broadcast_loop a b rank (suc left) i out = do
  d ← broadcast_dim (dim_from_end a i) (dim_from_end b i)
  broadcast_loop a b rank left (suc i) (set out (rank - 1 - i) d)

unfoldable pub broadcast_shape : List ℕ → List ℕ → Outcome (List ℕ)
broadcast_shape a b =
    let rank = max (length a) (length b) in broadcast_loop a b rank rank 0 (replicate rank 1)

-- The index that an element of the target has in the source: for each dimension the coordinate, by
-- the target's stride, times the source's stride.
unfoldable pub source_index : List ℕ → List ℕ → ℕ → ℕ
source_index [] src remaining = 0
source_index (t ∷ ts) [] remaining = 0
source_index (t ∷ ts) (s ∷ ss) remaining =
    let stride = max t 1 in
    let rest = source_index ts ss (remaining % stride) in remaining / stride * s + rest
