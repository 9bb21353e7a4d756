-- ===== src/Kernel/Order.antt =====
-- numtoy-core/src/array.rs with jit/ir.rs: the pointers stand in the order of the input slots.
use num_toy.Prelude.{
  ℕ, suc, ◌≡◌, refl, sym, ◌∙◌, ap, ◌⊎◌, inl, inr, true, false, Bool-cases, none, some, List, [],
  ◌∷◌, ◌++◌, ok, append_assoc, append-nil, length, ◌==◌,
}
use num_toy.Scalar.Float.{FloatOps}
use num_toy.Ir.{Expr, Variable, variable, constant, add, sub, mul, div, dequantize_matmul}
use num_toy.Graph.{from_expr}
use num_toy.Jit.Program.{NtProgram}
use num_toy.Jit.Value.{input_ids}
use num_toy.Jit.Lower.Inputs.{position, input_slot_new, input_slot_old, add_all}
use num_toy.Jit.Compile.{try_lower}
use num_toy.Jit.Correct.{from_expr-Compiles}
use num_toy.Kernel.{collect_inputs, generate, seen, ordered_inputs, kernel_inputs}

abbrev pub ids_of : List Variable → List ℕ
ids_of [] = []
ids_of (v ∷ vs) = v.id ∷ ids_of vs

ids_of-append : (xs ys : List Variable) → ids_of (xs ++ ys) ≡ ids_of xs ++ ids_of ys
ids_of-append [] ys = refl
ids_of-append (x ∷ xs) ys = ap (λ zs. x.id ∷ zs) (ids_of-append xs ys)

length-ids_of : (vs : List Variable) → length (ids_of vs) ≡ length vs
length-ids_of [] = refl
length-ids_of (v ∷ vs) = ap suc (length-ids_of vs)

-- a place in the table exactly for the ids that were seen
position-seen :
    (xs : List ℕ) (id : ℕ)
    → ((position xs id ≡ none) × (seen xs id ≡ false))
      ⊎ ((pos : ℕ) × (position xs id ≡ some pos) × (seen xs id ≡ true))
unfolding position seen
position-seen [] id = inl (refl, refl)
position-seen (x ∷ xs) id = elim (Bool-cases (x == id)) [
  | inl e ↦ inr (0, rw e refl, rw e refl)
  | inr e ↦ elim (position-seen xs id) [
    | inl (p, q) ↦ inl (rw (e, p), rw (e, q))
    | inr (k, p, q) ↦ inr (suc k, rw (e, p), rw (e, q))
  ]
]

add_all-ordered :
    (vs : List Variable) (ids : List ℕ)
    → add_all ids (ids_of vs) ≡ ids ++ ids_of (ordered_inputs vs ids)
unfolding add_all ordered_inputs
add_all-ordered [] ids = sym (append-nil ids)
add_all-ordered (v ∷ vs) ids = elim (position-seen ids v.id) [
  | inl (p, q) ↦ rw q (
      ap (λ (s : ℕ × List ℕ). add_all s.1 (ids_of vs)) (input_slot_new ids v.id p)
      ∙ add_all-ordered vs (ids ++ v.id ∷ [])
      ∙ append_assoc ids (v.id ∷ []) (ids_of (ordered_inputs vs (ids ++ v.id ∷ []))))
  | inr (k, p, q) ↦ rw q (
      ap (λ (s : ℕ × List ℕ). add_all s.1 (ids_of vs)) (input_slot_old ids v.id k p)
      ∙ add_all-ordered vs ids)
]

both_sides :
    (l r : Expr) (inputs : List Variable)
    → ids_of (collect_inputs l inputs) ≡ ids_of inputs ++ input_ids l
    → ids_of (collect_inputs r (collect_inputs l inputs))
      ≡ ids_of (collect_inputs l inputs) ++ input_ids r
    → ids_of (collect_inputs r (collect_inputs l inputs))
      ≡ ids_of inputs ++ (input_ids l ++ input_ids r)
both_sides l r inputs hl hr =
    hr ∙ ap (λ xs. xs ++ input_ids r) hl ∙ append_assoc (ids_of inputs) (input_ids l) (input_ids r)

collect_inputs-ids :
    (e : Expr) (inputs : List Variable)
    → ids_of (collect_inputs e inputs) ≡ ids_of inputs ++ input_ids e
unfolding collect_inputs input_ids
collect_inputs-ids (variable v) inputs = ids_of-append inputs (v ∷ [])
collect_inputs-ids (constant c) inputs = sym (append-nil (ids_of inputs))
collect_inputs-ids (add l r) inputs =
    both_sides l r inputs (collect_inputs-ids l inputs)
      (collect_inputs-ids r (collect_inputs l inputs))
collect_inputs-ids (sub l r) inputs =
    both_sides l r inputs (collect_inputs-ids l inputs)
      (collect_inputs-ids r (collect_inputs l inputs))
collect_inputs-ids (mul l r) inputs =
    both_sides l r inputs (collect_inputs-ids l inputs)
      (collect_inputs-ids r (collect_inputs l inputs))
collect_inputs-ids (div l r) inputs =
    both_sides l r inputs (collect_inputs-ids l inputs)
      (collect_inputs-ids r (collect_inputs l inputs))
collect_inputs-ids (dequantize_matmul l r m k n) inputs =
    both_sides l r inputs (collect_inputs-ids l inputs)
      (collect_inputs-ids r (collect_inputs l inputs))

pub kernel_inputs-ids : (e : Expr) → ids_of (kernel_inputs e) ≡ add_all [] (input_ids e)
unfolding kernel_inputs generate
kernel_inputs-ids e =
    sym (add_all-ordered (collect_inputs e []) []) ∙ ap (add_all []) (collect_inputs-ids e [])

-- The buffers that a kernel is called with stand in the order of the input slots that the custom JIT
-- gave out: pointer i is that of the variable of slot i, and there are as many pointers as slots.
pub kernel_inputs-slots :
    (ops : FloatOps) (e : Expr) (prog : NtProgram)
    → try_lower ops (from_expr e) ≡ ok prog
    → (ids_of (kernel_inputs e) ≡ add_all [] (input_ids e))
      × (length (kernel_inputs e) ≡ prog.num_inputs)
kernel_inputs-slots ops e prog h = (
  kernel_inputs-ids e,
  sym (length-ids_of (kernel_inputs e))
      ∙ ap length (kernel_inputs-ids e)
      ∙ sym (from_expr-Compiles ops e prog h).inputs,
)
