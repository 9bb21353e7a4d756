-- ===== src/Ir/Grad.antt =====
-- numtoy-core/src/ir.rs: symbolic differentiation against dual numbers.
use num_toy.Prelude.{
  ℕ, ◌≡◌, refl, sym, ap, ap₂, ◌∙◌, ok-injective, >>=-eq-ok, if◌then◌else◌, Bool-cases, inl, inr, ok,
  bind-ok, ◌==◌,
}
use num_toy.Ir.{Expr, variable, constant, add, sub, mul, div, dequantize_matmul, grad, float_const}
use num_toy.Graph.Queries.{IsElementwise}
use num_toy.Scalar.{Scalar}
use num_toy.Scalar.Float.{zero_f64, one_f64}

-- an answer that can be differentiated again
abbrev pub Differentiates : Expr → ℕ → Type 0
Differentiates e wrt_id = (d : Expr) × (grad e wrt_id ≡ ok d) × IsElementwise d

-- Differentiation answers on every expression without a matmul, and its answer has no matmul either,
-- so that it can be differentiated again.
pub grad-IsElementwise : (e : Expr) (wrt_id : ℕ) → IsElementwise e → Differentiates e wrt_id
unfolding grad
grad-IsElementwise (variable v) w h = elim (Bool-cases (v.id == w)) [
  | inl e ↦ (float_const one_f64, rw e refl, tt)
  | inr e ↦ (float_const zero_f64, rw e refl, tt)
]
grad-IsElementwise (constant c) w h = (float_const zero_f64, refl, tt)
grad-IsElementwise (add l r) w (x, y) =
    let (dl, el, hl) = grad-IsElementwise l w x in
    let (dr, er, hr) = grad-IsElementwise r w y in
    (add dl dr, bind-ok _ el (bind-ok _ er refl), (hl, hr))
grad-IsElementwise (sub l r) w (x, y) =
    let (dl, el, hl) = grad-IsElementwise l w x in
    let (dr, er, hr) = grad-IsElementwise r w y in
    (sub dl dr, bind-ok _ el (bind-ok _ er refl), (hl, hr))
grad-IsElementwise (mul l r) w (x, y) =
    let (dl, el, hl) = grad-IsElementwise l w x in
    let (dr, er, hr) = grad-IsElementwise r w y in
    (add (mul dl r) (mul l dr), bind-ok _ el (bind-ok _ er refl), ((hl, y), (x, hr)))
grad-IsElementwise (div l r) w (x, y) =
    let (dl, el, hl) = grad-IsElementwise l w x in
    let (dr, er, hr) = grad-IsElementwise r w y in
    (
      div (sub (mul dl r) (mul l dr)) (mul r r),
      bind-ok _ el (bind-ok _ er refl),
      (((hl, y), (x, hr)), (y, y)),
    )
grad-IsElementwise (dequantize_matmul a b m k n) w h = absurd h

-- Any arithmetic in which expressions have values.
pub record Arithmetic (K : Type 0) : Type 0 where
  pub plus : K → K → K
  pub minus : K → K → K
  pub times : K → K → K
  pub over : K → K → K
  pub of_scalar : Scalar → K

-- A matmul has no value here; `IsElementwise` leaves it out.
abbrev pub value_in : {K : Type 0} → Arithmetic K → (ℕ → K) → Expr → K
value_in A env (variable v) = env v.id
value_in A env (constant c) = A.of_scalar c
value_in A env (add l r) = A.plus (value_in A env l) (value_in A env r)
value_in A env (sub l r) = A.minus (value_in A env l) (value_in A env r)
value_in A env (mul l r) = A.times (value_in A env l) (value_in A env r)
value_in A env (div l r) = A.over (value_in A env l) (value_in A env r)
value_in A env (dequantize_matmul _ _ _ _ _) = A.of_scalar (Scalar.float zero_f64 32)

module _ {K : Type 0} (A : Arithmetic K) where
  abbrev pub nought : K
  nought = A.of_scalar (Scalar.float zero_f64 32)

  -- The dual numbers over an arithmetic: a value and its derivative.
  abbrev pub dual : Arithmetic (K × K)
  dual = record {
    plus = λ a b. (A.plus a.0 b.0, A.plus a.1 b.1);
    minus = λ a b. (A.minus a.0 b.0, A.minus a.1 b.1);
    times = λ a b. (A.times a.0 b.0, A.plus (A.times a.1 b.0) (A.times a.0 b.1));
    over = λ a b.
        (A.over a.0 b.0, A.over (A.minus (A.times a.1 b.0) (A.times a.0 b.1)) (A.times b.0 b.0));
    of_scalar = λ c. (A.of_scalar c, nought);
  }

  -- the variables, where the derivative of `wrt_id` is one and that of the others zero
  abbrev pub seed : (ℕ → K) → ℕ → ℕ → K × K
  seed env wrt_id id =
      (env id, if id == wrt_id then A.of_scalar (Scalar.float one_f64 32) else nought)

  abbrev over_dual : (ℕ → K) → ℕ → Expr → K × K
  over_dual env w e = value_in dual (seed env w) e

  dual-value : (env : ℕ → K) (w : ℕ) (e : Expr) → (over_dual env w e).0 ≡ value_in A env e
  dual-value env w (variable v) = refl
  dual-value env w (constant c) = refl
  dual-value env w (add l r) = ap₂ A.plus (dual-value env w l) (dual-value env w r)
  dual-value env w (sub l r) = ap₂ A.minus (dual-value env w l) (dual-value env w r)
  dual-value env w (mul l r) = ap₂ A.times (dual-value env w l) (dual-value env w r)
  dual-value env w (div l r) = ap₂ A.over (dual-value env w l) (dual-value env w r)
  dual-value env w (dequantize_matmul _ _ _ _ _) = refl

  -- `d` has the derivative of `e` as its value
  IsDerivative : (ℕ → K) → ℕ → Expr → Expr → Type 0
  IsDerivative env w e d = value_in A env d ≡ (over_dual env w e).1

  mixed :
      (env : ℕ → K) (w : ℕ) (l r dl dr : Expr)
      → IsDerivative env w l dl
      → IsDerivative env w r dr
      → (value_in A env (mul dl r) ≡ A.times (over_dual env w l).1 (over_dual env w r).0)
        × (value_in A env (mul l dr) ≡ A.times (over_dual env w l).0 (over_dual env w r).1)
  unfolding IsDerivative
  mixed env w l r dl dr h k =
      (ap₂ A.times h (sym (dual-value env w r)), ap₂ A.times (sym (dual-value env w l)) k)

  grad-IsDerivative : (env : ℕ → K) (w : ℕ) (e d : Expr) → grad e w ≡ ok d → IsDerivative env w e d
  unfolding grad IsDerivative
  grad-IsDerivative env w (variable v) d h =
      let same = ok-injective _ d h in
      ap (value_in A env) (sym same)
      ∙ elim (Bool-cases (v.id == w)) [ inl e ↦ rw e refl | inr e ↦ rw e refl ]
  grad-IsDerivative env w (constant c) d h = ap (value_in A env) (sym (ok-injective _ d h))
  grad-IsDerivative env w (add l r) d h =
      let (dl, el, h₁) = >>=-eq-ok (grad l w) _ h in
      let (dr, er, h₂) = >>=-eq-ok (grad r w) _ h₁ in
      ap (value_in A env) (sym (ok-injective (add dl dr) d h₂))
      ∙ ap₂ A.plus (grad-IsDerivative env w l dl el) (grad-IsDerivative env w r dr er)
  grad-IsDerivative env w (sub l r) d h =
      let (dl, el, h₁) = >>=-eq-ok (grad l w) _ h in
      let (dr, er, h₂) = >>=-eq-ok (grad r w) _ h₁ in
      ap (value_in A env) (sym (ok-injective (sub dl dr) d h₂))
      ∙ ap₂ A.minus (grad-IsDerivative env w l dl el) (grad-IsDerivative env w r dr er)
  grad-IsDerivative env w (mul l r) d h =
      let (dl, el, h₁) = >>=-eq-ok (grad l w) _ h in
      let (dr, er, h₂) = >>=-eq-ok (grad r w) _ h₁ in
      let (first, second) =
        mixed env w l r dl dr (grad-IsDerivative env w l dl el) (grad-IsDerivative env w r dr er) in
      ap (value_in A env) (sym (ok-injective (add (mul dl r) (mul l dr)) d h₂))
      ∙ ap₂ A.plus first second
  grad-IsDerivative env w (div l r) d h =
      let (dl, el, h₁) = >>=-eq-ok (grad l w) _ h in
      let (dr, er, h₂) = >>=-eq-ok (grad r w) _ h₁ in
      let (first, second) =
        mixed env w l r dl dr (grad-IsDerivative env w l dl el) (grad-IsDerivative env w r dr er) in
      let below = sym (dual-value env w r) in
      ap (value_in A env) (sym (ok-injective (div (sub (mul dl r) (mul l dr)) (mul r r)) d h₂))
      ∙ ap₂ A.over (ap₂ A.minus first second) (ap₂ A.times below below)
  grad-IsDerivative env w (dequantize_matmul a b m k n) d h = cc

-- Differentiation of an expression without a matmul answers, and the value of its answer, in any
-- arithmetic, is the derivative part of the expression's value in dual numbers, where the variable has
-- derivative one, and every other variable and every constant zero. The answer has no matmul, so that it
-- can be differentiated again.
pub grad-dual :
    {K : Type 0} (A : Arithmetic K) (env : ℕ → K) (e : Expr) (wrt_id : ℕ)
    → IsElementwise e
    → (d : Expr) × (grad e wrt_id ≡ ok d)
      × IsElementwise d
      × (value_in A env d ≡ (value_in (dual A) (seed A env wrt_id) e).1)
grad-dual A env e wrt_id h =
    let (d, found, again) = grad-IsElementwise e wrt_id h in
    (d, found, again, unfold IsDerivative in (grad-IsDerivative A env wrt_id e d found))
