-- ===== src/Array/Transpose.antt =====
-- numtoy-core/src/array.rs: NumToyArray and its transpose.
use num_toy.Prelude.{
  ℕ, ◌+◌, ◌*◌, ◌≡◌, refl, sym, ◌∙◌, ap, ap₂, List, [], ◌∷◌, ◌++◌, arith, length, Outcome, ok, fault,
  ◌>>=◌, length-append,
}
use mathlib.Core.List.{reverse, reverse-reverse, reverse-cons}
use num_toy.Ir.{Expr, Variable, variable, constant, add, sub, mul, div, dequantize_matmul}

pub record NumToyArray : Type 0 where
  pub expr : Expr
  pub shape : List ℕ
  pub bit_strides : List ℕ

-- the variable of the transpose, which shares the packed data
unfoldable pub transpose_variable : Variable → List ℕ → List ℕ → Variable
transpose_variable v new_shape new_strides = record {
  id = v.id;
  name = v.name;
  dtype = v.dtype;
  size = v.size;
  packed_data = v.packed_data;
  shape = new_shape;
  bit_strides = new_strides;
  bit_offset = v.bit_offset;
  scale = v.scale;
  steal_sign = v.steal_sign;
}

unfoldable pub transpose_expr : Expr → List ℕ → List ℕ → Outcome Expr
transpose_expr (variable v) new_shape new_strides =
    ok (variable (transpose_variable v new_shape new_strides))
transpose_expr (constant _) _ _ = fault
transpose_expr (add _ _) _ _ = fault
transpose_expr (sub _ _) _ _ = fault
transpose_expr (mul _ _) _ _ = fault
transpose_expr (div _ _) _ _ = fault
transpose_expr (dequantize_matmul _ _ _ _ _) _ _ = fault

unfoldable pub transpose : NumToyArray → Outcome NumToyArray
transpose a = do
  let new_shape = reverse a.shape
  let new_strides = reverse a.bit_strides
  new_expr ← transpose_expr a.expr new_shape new_strides
  ok (record { expr = new_expr; shape = new_shape; bit_strides = new_strides })

-- where the element at an index stands, from the first bit of the array on
abbrev pub bit_position : List ℕ → List ℕ → ℕ
bit_position [] _ = 0
bit_position (i ∷ is) [] = 0
bit_position (i ∷ is) (s ∷ ss) = i * s + bit_position is ss

bit_position-append :
    (is ss js ts : List ℕ)
    → length is ≡ length ss
    → bit_position (is ++ js) (ss ++ ts) ≡ bit_position is ss + bit_position js ts
bit_position-append [] [] js ts e = omega arith
bit_position-append [] (s ∷ ss) js ts e = absurd (omega (arith, e))
bit_position-append (i ∷ is) [] js ts e = absurd (omega (arith, e))
bit_position-append (i ∷ is) (s ∷ ss) js ts e =
    let rest = bit_position-append is ss js ts (omega (arith, e)) in grind (arith, rest)

length-reverse : (xs : List ℕ) → length (reverse xs) ≡ length xs
length-reverse [] = refl
length-reverse (x ∷ xs) =
    let rest = length-reverse xs in
    let last = length-append (reverse xs) (x ∷ []) in
    ap length (reverse-cons x xs) ∙ grind (arith, rest, last)

bit_position-reverse :
    (is ss : List ℕ)
    → length is ≡ length ss
    → bit_position (reverse is) (reverse ss) ≡ bit_position is ss
bit_position-reverse [] [] e = refl
bit_position-reverse [] (s ∷ ss) e = absurd (omega (arith, e))
bit_position-reverse (i ∷ is) [] e = absurd (omega (arith, e))
bit_position-reverse (i ∷ is) (s ∷ ss) e =
    let short : length is ≡ length ss = omega (arith, e) in
    let same = length-reverse is ∙ short ∙ sym (length-reverse ss) in
    let rest = bit_position-reverse is ss short in
    let last = bit_position-append (reverse is) (reverse ss) (i ∷ []) (s ∷ []) same in
    ap₂ bit_position (reverse-cons i is) (reverse-cons s ss) ∙ grind (arith, rest, last)

-- `b` is the transpose of `a`
abbrev pub Transposed : NumToyArray → NumToyArray → Type 0
Transposed a b =
    (transpose a ≡ ok b)
    × (transpose b ≡ ok a)
    × ((index : List ℕ)
        → length index ≡ length a.bit_strides
        → bit_position (reverse index) b.bit_strides ≡ bit_position index a.bit_strides)

abbrev pub array_of : Variable → NumToyArray
array_of v = record { expr = variable v; shape = v.shape; bit_strides = v.bit_strides }

-- The transpose of the array of a variable succeeds, finds the element of the reversed index where the
-- array has that of the index, and transposed again gives the array back, its variable included.
pub transpose-Transposed :
    (v : Variable)
    → Transposed
        (array_of v)
        (array_of (transpose_variable v (reverse v.shape) (reverse v.bit_strides)))
unfolding transpose transpose_expr transpose_variable
transpose-Transposed v = (
  refl,
  ap₂ (λ shape strides. ok (array_of (transpose_variable v shape strides)))
      (reverse-reverse v.shape) (reverse-reverse v.bit_strides),
  λ index e. bit_position-reverse index v.bit_strides e,
)
