-- ===== src/Tests/Arrays.antt =====
-- Arrays, broadcasting, the transpose and slices on small inputs.
use num_toy.Prelude.{ℕ, ◌+◌, ◌≡◌, refl, false, none, ok, List, [], ◌∷◌, arith, length, get_elem?}
use num_toy.Scalar.{DataType}
use num_toy.Ir.{Variable, memory, variable}
use num_toy.Array.{numel, broadcast_shape, broadcast_loop, broadcast_dim, dim_from_end}
use num_toy.Array.Coordinates.{Within, flat_of, clip}
use num_toy.Array.Slice.{slice_and_dice, slice_dims, slice_dim, rest_dims, slice_variable}
use num_toy.Array.Slice.Follows.{source_of, slice_and_dice-Follows}
use num_toy.Array.Stretch.{check_dims, src_padded, stretch}
use num_toy.Array.Stretch.Values.{padded_to, stretch-values}
use num_toy.Array.Transpose.{
  NumToyArray, bit_position, transpose_variable, array_of, Transposed, transpose-Transposed,
}
use num_toy.Array.Broadcast.{Broadcasts, broadcast_shape-Fits, broadcast_shape_comm}
use num_toy.Tests.Inputs.{var}

-- a column of two against two rows of three
stretch-values_example :
    (out : List ℕ) × (stretch (padded_to (2 ∷ 3 ∷ []) (2 ∷ 1 ∷ [])) (2 ∷ 3 ∷ []) (7 ∷ 8 ∷ [])
      ≡ ok out)
    × (length out ≡ numel (2 ∷ 3 ∷ []))
    × (get_elem? out (flat_of (2 ∷ 3 ∷ []) (1 ∷ 2 ∷ []))
        ≡ get_elem? (7 ∷ 8 ∷ []) (
            flat_of
              (padded_to (2 ∷ 3 ∷ []) (2 ∷ 1 ∷ []))
              (clip (padded_to (2 ∷ 3 ∷ []) (2 ∷ 1 ∷ [])) (1 ∷ 2 ∷ []))))
stretch-values_example =
    stretch-values (2 ∷ 1 ∷ []) (2 ∷ 3 ∷ []) (7 ∷ 8 ∷ []) (1 ∷ 2 ∷ [])
      (unfold check_dims src_padded in refl) (unfold numel in refl) (omega arith, (omega arith, tt))

shapes_broadcast : broadcast_shape (3 ∷ 1 ∷ []) (2 ∷ []) ≡ ok (3 ∷ 2 ∷ [])
unfolding broadcast_shape broadcast_loop broadcast_dim dim_from_end
shapes_broadcast = refl

broadcast_shape-Fits_example : Broadcasts (3 ∷ 1 ∷ []) (2 ∷ []) (3 ∷ 2 ∷ [])
broadcast_shape-Fits_example =
    broadcast_shape-Fits (3 ∷ 1 ∷ []) (2 ∷ []) (3 ∷ 2 ∷ []) shapes_broadcast

broadcast_shape_comm_example :
    broadcast_shape (3 ∷ 1 ∷ []) (2 ∷ []) ≡ broadcast_shape (2 ∷ []) (3 ∷ 1 ∷ [])
broadcast_shape_comm_example = broadcast_shape_comm (3 ∷ 1 ∷ []) (2 ∷ [])

-- a matrix of two rows and three columns
abbrev matrix : Variable
matrix = record {
  id = 4;
  name = "m";
  dtype = DataType.float 64;
  size = 6;
  packed_data = memory [];
  shape = 2 ∷ 3 ∷ [];
  bit_strides = 192 ∷ 64 ∷ [];
  bit_offset = 0;
  scale = none;
  steal_sign = false;
}

transpose-Transposed_example :
    Transposed (array_of matrix) (array_of (transpose_variable matrix (3 ∷ 2 ∷ []) (64 ∷ 192 ∷ [])))
transpose-Transposed_example = transpose-Transposed matrix

-- the columns 1 and 3 of two rows of four bytes
abbrev grid : Variable
grid = record (var 7) { shape = 2 ∷ 4 ∷ []; bit_strides = 32 ∷ 8 ∷ [] }

abbrev columns : NumToyArray
columns = record {
  expr = variable (slice_variable grid (2 ∷ 2 ∷ []) (32 ∷ 16 ∷ []) 8);
  shape = 2 ∷ 2 ∷ [];
  bit_strides = 32 ∷ 16 ∷ [];
}

columns_sliced :
    slice_and_dice
      (record { expr = variable grid; shape = 2 ∷ 4 ∷ []; bit_strides = 32 ∷ 8 ∷ [] })
      ((0, 9, 1) ∷ (1, 4, 2) ∷ [])
    ≡ ok columns
unfolding slice_and_dice slice_dims slice_dim rest_dims slice_variable
columns_sliced = refl

slice_and_dice-Follows_example :
    (w : Variable) × (columns.expr ≡ variable w)
    × (w.packed_data ≡ grid.packed_data)
    × Within (source_of ((0, 9, 1) ∷ (1, 4, 2) ∷ []) (1 ∷ 1 ∷ [])) (2 ∷ 4 ∷ [])
    × (w.bit_offset + bit_position (1 ∷ 1 ∷ []) columns.bit_strides
        ≡ grid.bit_offset
          + bit_position (source_of ((0, 9, 1) ∷ (1, 4, 2) ∷ []) (1 ∷ 1 ∷ [])) (32 ∷ 8 ∷ []))
slice_and_dice-Follows_example =
    slice_and_dice-Follows grid (2 ∷ 4 ∷ []) (32 ∷ 8 ∷ []) ((0, 9, 1) ∷ (1, 4, 2) ∷ []) columns
      (1 ∷ 1 ∷ []) columns_sliced (omega arith, (omega arith, tt))
