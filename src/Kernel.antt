-- ===== src/Kernel.antt =====
-- numtoy-core/src/fuser.rs (`MicroKernel`) and array.rs (`execute_expr_on_device`): the buffers that a
-- kernel is called with.
pub mod Order
pub mod Wide
pub mod Packed
pub mod Matmul
use num_toy.Prelude.{ℕ, ◌+◌, ◌*◌, Bool, true, false, ◌||◌, List, [], ◌∷◌, ◌++◌, ◌==◌, if◌then◌else◌}
use num_toy.Ir
use num_toy.Ir.{Expr, Variable, variable, constant, add, sub, mul, div, dequantize_matmul}

-- Only variables are ever pushed, so the list is one of variables.
unfoldable pub collect_inputs : Expr → List Variable → List Variable
collect_inputs (variable v) inputs = inputs ++ v ∷ []
collect_inputs (constant _) inputs = inputs
collect_inputs (add l r) inputs = collect_inputs r (collect_inputs l inputs)
collect_inputs (sub l r) inputs = collect_inputs r (collect_inputs l inputs)
collect_inputs (mul l r) inputs = collect_inputs r (collect_inputs l inputs)
collect_inputs (div l r) inputs = collect_inputs r (collect_inputs l inputs)
collect_inputs (dequantize_matmul a w _ _ _) inputs = collect_inputs w (collect_inputs a inputs)

pub record MicroKernel : Type 0 where
  pub size : ℕ
  pub inputs : List Variable

unfoldable pub generate : Expr → MicroKernel
generate e = record { size = Ir.size e; inputs = collect_inputs e [] }

-- membership in the set of the ids seen so far
unfoldable pub seen : List ℕ → ℕ → Bool
seen [] id = false
seen (x ∷ xs) id = x == id || seen xs id

-- `ordered_inputs`, of the variables that are left, with the set of ids
unfoldable pub ordered_inputs : List Variable → List ℕ → List Variable
ordered_inputs [] ids = []
ordered_inputs (v ∷ vs) ids =
    if seen ids v.id then ordered_inputs vs ids else v ∷ ordered_inputs vs (ids ++ v.id ∷ [])

-- the variables whose buffers the kernel gets, in the order of its pointers
unfoldable pub kernel_inputs : Expr → List Variable
kernel_inputs e = ordered_inputs (generate e).inputs []
