-- ===== src/Graph/Represents.antt =====
-- numtoy-core/src/graph.rs: which expression a node of an arena stands for, and that `from_expr`
-- builds an arena for its expression. Nodes may be shared.
use num_toy.Prelude.{
  ℕ, suc, ◌≤◌, ◌≡◌, refl, some, List, [], ◌∷◌, ◌++◌, arith, length, get_elem?, length-append,
  get_elem?-append, get_elem?-append_end, append_assoc, max, sym, subst, ap, ap₂,
}
use num_toy.Ir.{Expr, variable, constant, add, sub, mul, div, dequantize_matmul}
use num_toy.Graph.{Node, traverse, from_expr}

-- Node `n` of `g`, with all that it reaches, spells out the expression.
abbrev pub Represents : List Node → ℕ → Expr → Type 0
Represents g n (variable v) = get_elem? g n ≡ some (Node.variable v)
Represents g n (constant c) = get_elem? g n ≡ some (Node.constant c)
Represents g n (add l r) =
    (i : ℕ) × (j : ℕ) × (get_elem? g n ≡ some (Node.add i j)) × Represents g i l × Represents g j r
Represents g n (sub l r) =
    (i : ℕ) × (j : ℕ) × (get_elem? g n ≡ some (Node.sub i j)) × Represents g i l × Represents g j r
Represents g n (mul l r) =
    (i : ℕ) × (j : ℕ) × (get_elem? g n ≡ some (Node.mul i j)) × Represents g i l × Represents g j r
Represents g n (div l r) =
    (i : ℕ) × (j : ℕ) × (get_elem? g n ≡ some (Node.div i j)) × Represents g i l × Represents g j r
Represents g n (dequantize_matmul a w m k p) =
    (i : ℕ) × (j : ℕ) × (get_elem? g n ≡ some (Node.dequantize_matmul i j m k p))
    × Represents g i a
    × Represents g j w

abbrev pub depth : Expr → ℕ
depth (variable _) = 1
depth (constant _) = 1
depth (add l r) = suc (max (depth l) (depth r))
depth (sub l r) = suc (max (depth l) (depth r))
depth (mul l r) = suc (max (depth l) (depth r))
depth (div l r) = suc (max (depth l) (depth r))
depth (dequantize_matmul a w _ _ _) = suc (max (depth a) (depth w))

-- An arena that grows at its end keeps what its nodes stand for.
pub Represents-append :
    (g h : List Node) (n : ℕ) (e : Expr) → Represents g n e → Represents (g ++ h) n e
Represents-append g h n (variable v) p = get_elem?-append g h n _ p
Represents-append g h n (constant c) p = get_elem?-append g h n _ p
Represents-append g h n (add l r) (i, j, p, a, b) =
    (i, j, get_elem?-append g h n _ p, Represents-append g h i l a, Represents-append g h j r b)
Represents-append g h n (sub l r) (i, j, p, a, b) =
    (i, j, get_elem?-append g h n _ p, Represents-append g h i l a, Represents-append g h j r b)
Represents-append g h n (mul l r) (i, j, p, a, b) =
    (i, j, get_elem?-append g h n _ p, Represents-append g h i l a, Represents-append g h j r b)
Represents-append g h n (div l r) (i, j, p, a, b) =
    (i, j, get_elem?-append g h n _ p, Represents-append g h i l a, Represents-append g h j r b)
Represents-append g h n (dequantize_matmul l r _ _ _) (i, j, p, a, b) =
    (i, j, get_elem?-append g h n _ p, Represents-append g h i l a, Represents-append g h j r b)

-- What `traverse` has built for `e`, started on the arena `g`.
pub record Built (e : Expr) (g : List Node) (out : ℕ × List Node) : Type 0 where
  pub added : List Node
  pub extends : out.1 ≡ g ++ added
  pub represents : Represents out.1 out.0 e
  pub deep : depth e ≤ length added

-- What is left once both operands are built and their node is pushed.
record Joined (l r : Expr) (g : List Node) (i j : ℕ) (g₂ : List Node) (n : Node) : Type 0 where
  added : List Node
  extends : g₂ ++ n ∷ [] ≡ g ++ added
  pushed : get_elem? (g₂ ++ n ∷ []) (length g₂) ≡ some n
  left : Represents (g₂ ++ n ∷ []) i l
  right : Represents (g₂ ++ n ∷ []) j r
  deep : suc (max (depth l) (depth r)) ≤ length added

join :
    (l r : Expr) (g : List Node) (out₁ out₂ : ℕ × List Node) (n : Node)
    → Built l g out₁
    → Built r out₁.1 out₂
    → Joined l r g out₁.0 out₂.0 out₂.1 n
join l r g out₁ out₂ n b₁ b₂ = record {
  added = b₁.added ++ (b₂.added ++ n ∷ []);
  extends = rw (b₂.extends, b₁.extends) (simp append_assoc);
  pushed = get_elem?-append_end out₂.1 [] n;
  left = Represents-append out₂.1 (n ∷ []) out₁.0 l (
      subst (λ h. Represents h out₁.0 l) (sym b₂.extends)
        (Represents-append out₁.1 b₂.added out₁.0 l b₁.represents));
  right = Represents-append out₂.1 (n ∷ []) out₂.0 r b₂.represents;
  deep = omega (
    arith,
    length-append b₁.added (b₂.added ++ n ∷ []),
    length-append b₂.added (n ∷ []),
    b₁.deep,
    b₂.deep,
  );
}

traverse-Built : (e : Expr) (g : List Node) → Built e g (traverse e g)
unfolding traverse
traverse-Built (variable v) g = record {
  added = Node.variable v ∷ [];
  extends = refl;
  represents = get_elem?-append_end g [] _;
  deep = omega arith;
}
traverse-Built (constant c) g = record {
  added = Node.constant c ∷ [];
  extends = refl;
  represents = get_elem?-append_end g [] _;
  deep = omega arith;
}
traverse-Built (add l r) g =
    let b₁ = traverse-Built l g in
    let b₂ = traverse-Built r (traverse l g).1 in
    let joined = join l r g _ _ (Node.add _ _) b₁ b₂ in
    record {
      added = joined.added;
      extends = joined.extends;
      represents = (_, _, joined.pushed, joined.left, joined.right);
      deep = joined.deep;
    }
traverse-Built (sub l r) g =
    let b₁ = traverse-Built l g in
    let b₂ = traverse-Built r (traverse l g).1 in
    let joined = join l r g _ _ (Node.sub _ _) b₁ b₂ in
    record {
      added = joined.added;
      extends = joined.extends;
      represents = (_, _, joined.pushed, joined.left, joined.right);
      deep = joined.deep;
    }
traverse-Built (mul l r) g =
    let b₁ = traverse-Built l g in
    let b₂ = traverse-Built r (traverse l g).1 in
    let joined = join l r g _ _ (Node.mul _ _) b₁ b₂ in
    record {
      added = joined.added;
      extends = joined.extends;
      represents = (_, _, joined.pushed, joined.left, joined.right);
      deep = joined.deep;
    }
traverse-Built (div l r) g =
    let b₁ = traverse-Built l g in
    let b₂ = traverse-Built r (traverse l g).1 in
    let joined = join l r g _ _ (Node.div _ _) b₁ b₂ in
    record {
      added = joined.added;
      extends = joined.extends;
      represents = (_, _, joined.pushed, joined.left, joined.right);
      deep = joined.deep;
    }
traverse-Built (dequantize_matmul l r m k p) g =
    let b₁ = traverse-Built l g in
    let b₂ = traverse-Built r (traverse l g).1 in
    let joined = join l r g _ _ (Node.dequantize_matmul _ _ m k p) b₁ b₂ in
    record {
      added = joined.added;
      extends = joined.extends;
      represents = (_, _, joined.pushed, joined.left, joined.right);
      deep = joined.deep;
    }

-- The arena that `from_expr` builds has a root that spells out the expression, and at least as many
-- nodes as the expression is deep.
pub from_expr-Represents :
    (e : Expr)
    → Represents (from_expr e).nodes (from_expr e).root e × (depth e ≤ length (from_expr e).nodes)
unfolding from_expr
from_expr-Represents e = let b = traverse-Built e [] in (b.represents, rw b.extends b.deep)

-- A node spells out one expression.
pub Represents-unique :
    (g : List Node) (e e' : Expr) (n : ℕ) → Represents g n e → Represents g n e' → e ≡ e'
Represents-unique g (variable v) (variable w) n p q = let h : v ≡ w = cc in ap variable h
Represents-unique g (constant c) (constant d) n p q = let h : c ≡ d = cc in ap constant h
Represents-unique g (add l r) (add l' r') n (i, j, p, x, y) (i', j', p', x', y') =
    let h : i' ≡ i = cc in
    let k : j' ≡ j = cc in
    ap₂ add (Represents-unique g l l' i x (subst (λ a. Represents g a l') h x'))
      (Represents-unique g r r' j y (subst (λ a. Represents g a r') k y'))
Represents-unique g (sub l r) (sub l' r') n (i, j, p, x, y) (i', j', p', x', y') =
    let h : i' ≡ i = cc in
    let k : j' ≡ j = cc in
    ap₂ sub (Represents-unique g l l' i x (subst (λ a. Represents g a l') h x'))
      (Represents-unique g r r' j y (subst (λ a. Represents g a r') k y'))
Represents-unique g (mul l r) (mul l' r') n (i, j, p, x, y) (i', j', p', x', y') =
    let h : i' ≡ i = cc in
    let k : j' ≡ j = cc in
    ap₂ mul (Represents-unique g l l' i x (subst (λ a. Represents g a l') h x'))
      (Represents-unique g r r' j y (subst (λ a. Represents g a r') k y'))
Represents-unique g (div l r) (div l' r') n (i, j, p, x, y) (i', j', p', x', y') =
    let h : i' ≡ i = cc in
    let k : j' ≡ j = cc in
    ap₂ div (Represents-unique g l l' i x (subst (λ a. Represents g a l') h x'))
      (Represents-unique g r r' j y (subst (λ a. Represents g a r') k y'))
Represents-unique g (dequantize_matmul l r m a b) (dequantize_matmul l' r' m' a' b') n
      (i, j, p, x, y) (i', j', p', x', y') =
    let h : i' ≡ i = cc in
    let k : j' ≡ j = cc in
    let u = Represents-unique g l l' i x (subst (λ a. Represents g a l') h x') in
    let v = Represents-unique g r r' j y (subst (λ a. Represents g a r') k y') in cc
Represents-unique g _ _ n p q = absurd (cc)
