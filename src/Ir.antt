-- ===== src/Ir.antt =====
-- numtoy-core/src/ir.rs: the lazy expression graph and symbolic differentiation.
pub mod Grad
use Prim.Native.String.{String}
use num_toy.Prelude.{
  ℕ, ◌*◌, Bool, false, Option, none, some, List, Outcome, ok, fault, ◌>>=◌, ltb, ◌==◌,
  if◌then◌else◌,
}
use num_toy.Scalar.{DataType, Scalar, scalar_type}
use num_toy.Scalar.Float.{zero_f64, one_f64}

pub data PackedBuffer : Type 0 where
  memory : List ℕ → PackedBuffer
  mmap : List ℕ → PackedBuffer

unfoldable pub as_slice : PackedBuffer → List ℕ
as_slice (memory v) = v
as_slice (mmap m) = m

-- the fields of `Expr::Variable` and of `Node::Variable`
pub record Variable : Type 0 where
  pub id : ℕ
  pub name : String
  pub dtype : DataType
  pub size : ℕ
  pub packed_data : PackedBuffer
  pub shape : List ℕ
  pub bit_strides : List ℕ
  pub bit_offset : ℕ
  pub scale : Option ℕ
  pub steal_sign : Bool

pub data Expr : Type 0 where
  variable : Variable → Expr
  constant : Scalar → Expr
  add : Expr → Expr → Expr
  sub : Expr → Expr → Expr
  mul : Expr → Expr → Expr
  div : Expr → Expr → Expr
  dequantize_matmul : Expr → Expr → ℕ → ℕ → ℕ → Expr

-- `Option::or_else`
abbrev pub or_else : Option ℕ → Option ℕ → Option ℕ
or_else none b = b
or_else (some a) b = some a

-- `if l > r { l } else { r }`
abbrev pub larger : ℕ → ℕ → ℕ
larger l r = if ltb r l then l else r

abbrev pub scalar_scale : Scalar → Option ℕ
scalar_scale (Scalar.floating_int _ scale) = some scale
scalar_scale (Scalar.float _ _) = none
scalar_scale _ = none

unfoldable pub data_type : Expr → DataType
data_type (variable v) = v.dtype
data_type (constant val) = scalar_type val
data_type (add l _) = data_type l
data_type (sub l _) = data_type l
data_type (mul l _) = data_type l
data_type (div l _) = data_type l
data_type (dequantize_matmul _ _ _ _ _) = DataType.float 32

-- The product is that of the source where it fits in 64 bits, as for a result in memory.
unfoldable pub size : Expr → ℕ
size (variable v) = v.size
size (constant _) = 1
size (add l r) = larger (size l) (size r)
size (sub l r) = larger (size l) (size r)
size (mul l r) = larger (size l) (size r)
size (div l r) = larger (size l) (size r)
size (dequantize_matmul _ _ m _ n) = m * n

unfoldable pub get_scale : Expr → Option ℕ
get_scale (variable v) = v.scale
get_scale (constant val) = scalar_scale val
get_scale (add l r) = or_else (get_scale l) (get_scale r)
get_scale (sub l r) = or_else (get_scale l) (get_scale r)
get_scale (mul l r) = or_else (get_scale l) (get_scale r)
get_scale (div l r) = or_else (get_scale l) (get_scale r)
get_scale (dequantize_matmul _ _ _ _ _) = none

unfoldable pub steal_sign : Expr → Bool
steal_sign (variable v) = v.steal_sign
steal_sign (constant _) = false
steal_sign (add l _) = steal_sign l
steal_sign (sub l _) = steal_sign l
steal_sign (mul l _) = steal_sign l
steal_sign (div l _) = steal_sign l
steal_sign (dequantize_matmul _ _ _ _ _) = false

abbrev pub float_const : ℕ → Expr
float_const v = constant (Scalar.float v 32)

-- The gradient of a matmul is `unimplemented!`, a panic.
unfoldable pub grad : Expr → ℕ → Outcome Expr
grad (variable v) wrt_id = ok (if v.id == wrt_id then float_const one_f64 else float_const zero_f64)
grad (constant _) wrt_id = ok (float_const zero_f64)
grad (add l r) wrt_id = do dl ← grad l wrt_id; dr ← grad r wrt_id; ok (add dl dr)
grad (sub l r) wrt_id = do dl ← grad l wrt_id; dr ← grad r wrt_id; ok (sub dl dr)
grad (mul l r) wrt_id = do dl ← grad l wrt_id; dr ← grad r wrt_id; ok (add (mul dl r) (mul l dr))
grad (div l r) wrt_id = do
  dl ← grad l wrt_id
  dr ← grad r wrt_id
  ok (div (sub (mul dl r) (mul l dr)) (mul r r))
grad (dequantize_matmul _ _ _ _ _) wrt_id = fault
