-- ===== src/Jit/Lower/Correct.antt =====
-- `lower_node` on a node that spells out an expression, by induction on the expression.
use num_toy.Prelude.{
  ℕ, ◌<◌, ◌≡◌, refl, sym, ◌∙◌, ap, ap₂, subst, Bool, true, false, some, List, [], ◌∷◌, ◌++◌, arith,
  ok, refused, fault, ◌>>=◌, length, get_elem?, set, length-set, get_elem?-set_self,
  get_elem?-set_ne, ℕ_discrete, if◌then◌else◌,
}
use num_toy.Scalar.Float.{FloatOps}
use num_toy.Ir.{Expr, Variable, variable}
use num_toy.Graph.{Node}
use num_toy.Graph.Represents.{Represents, Represents-unique}
use num_toy.Jit.Program.{BinOp, load, const, binop}
use num_toy.Jit.Run.{Regs, apply, widen_to, constant_of, exec}
use num_toy.Jit.Shape.{Places, write_self}
use num_toy.Jit.Value.{value, input_ids, IsSupported}
use num_toy.Jit.Lower.{LowerCtx, define, is_ieee, Step, lower_variable, lower_binop, remember}
use num_toy.Jit.Lower.Inputs.{
  input_slot, input_slot_holds, add_all, add_all_keeps, AllIn-add_all, AllIn-append, add_all-append,
}
use num_toy.Jit.Lower.Sound

module _ (ops : FloatOps) (bits : ℕ) (g : List Node) (loads : ℕ → ℕ) (env : ℕ → ℕ)
    (regs : Regs) where
  abbrev Agrees : List ℕ → Type 0
  Agrees = Sound.Agrees ops bits g loads env regs

  abbrev Known : LowerCtx → ℕ → Expr → Type 0
  Known = Sound.Known ops bits g loads env regs

  abbrev Inv : LowerCtx → Type 0
  Inv = Sound.Inv ops bits g loads env regs

  abbrev Lowered : Expr → LowerCtx → ℕ → LowerCtx → Type 0
  Lowered = Sound.Lowered ops bits g loads env regs

  -- The code answers with a correct register, or refuses an expression that is not supported. It
  -- never faults.
  abbrev pub IsSound : Expr → LowerCtx → Step → Type 0
  IsSound e ctx (ok (v, ctx')) = Lowered e ctx v ctx'
  IsSound e ctx refused = ¬ (IsSupported e)
  IsSound e ctx fault = ⊥

  pub remember_lem :
      (n : ℕ) (e : Expr) (ctx : LowerCtx) (out : Step)
      → Represents g n e
      → n < length g
      → IsSound e ctx out
      → IsSound e ctx (out >>= remember n)
  unfolding remember
  remember_lem n e ctx refused r h s = s
  remember_lem n e ctx fault r h s = s
  remember_lem n e ctx (ok (v, c)) r h s = record {
    inv = record {
      counted = s.inv.counted;
      ssa = s.inv.ssa;
      sized = length-set c.node_vreg n v ∙ s.inv.sized;
      memo = λ m u d at ne q. elim (ℕ_discrete n m) [
        | yes same ↦
            let here : get_elem? (set c.node_vreg n v) m ≡ some v =
              subst (λ k. get_elem? (set c.node_vreg n v) k ≡ some v) same
                (get_elem?-set_self c.node_vreg n v (omega (arith, s.inv.sized))) in
            let eq : v ≡ u = cc in
            let expr : e ≡ d = Represents-unique g e d m (subst (λ k. Represents g k e) same r) q in
            subst (λ w. Known (record c { node_vreg = set c.node_vreg n v }) w d) eq
              (subst (λ x. Known (record c { node_vreg = set c.node_vreg n v }) v x) expr
                (again s.known))
        | no other ↦
            again (s.inv.memo m u d (sym (get_elem?-set_ne c.node_vreg n m v other) ∙ at) ne q)
      ];
    };
    known = again s.known;
    inputs = s.inputs;
    keeps = λ u d k. again (s.keeps u d k);
  }
    where
      again :
          {u : ℕ} {d : Expr}
          → Known c u d
          → Known (record c { node_vreg = set c.node_vreg n v }) u d
      again k = record { defined = k.defined; holds = k.holds; slots = k.slots }

  pub constant_lem :
      (ctx : LowerCtx) (val : ℕ) (e : Expr)
      → Inv ctx
      → constant_of ops bits val ≡ value ops bits env e
      → input_ids e ≡ []
      → IsSound e ctx (ok (define (λ dst. const dst val bits) ctx))
  unfolding add_all exec define
  constant_lem ctx val e inv h ids =
      let (i, k) =
        Sound.define_lem ops bits g loads env regs ctx (λ dst. const dst val bits) e [] inv refl
          (write_self _ _ _ ∙ h) (rw ids tt) in
      record {
        inv = i;
        known = k;
        inputs = rw ids;
        keeps = λ u d.
            Sound.define_keeps ops bits g loads env regs ctx (λ dst. const dst val bits) [] u d inv
              refl;
      }

  pub variable_lem :
      (ctx : LowerCtx) (v : Variable)
      → Inv ctx
      → Agrees (add_all ctx.input_map (v.id ∷ []))
      → IsSound (variable v) ctx (lower_variable bits v ctx)
  unfolding lower_variable add_all exec define value input_ids
  variable_lem ctx v inv agrees = go (is_ieee v.dtype) refl
    where
      slot : ℕ
      slot = (input_slot ctx.input_map v.id).0

      go :
          (b : Bool)
          → is_ieee v.dtype ≡ b
          → IsSound (variable v) ctx (
              if b
              then ok (
                  define
                    (λ dst. load dst slot bits)
                    (record ctx { input_map = (input_slot ctx.input_map v.id).1 }))
              else refused)
      go false h = λ s. cc
      go true h =
          let (i, k) =
            Sound.define_lem ops bits g loads env regs ctx (λ dst. load dst slot bits) (variable v)
              (v.id ∷ []) inv refl
              (write_self _ _ _
                ∙ ap (widen_to ops bits) (agrees slot v.id (input_slot_holds ctx.input_map v.id)))
              (AllIn-add_all ctx.input_map (v.id ∷ [])) in
          record {
            inv = i;
            known = k;
            inputs = refl;
            keeps = λ u d.
                Sound.define_keeps ops bits g loads env regs ctx (λ dst. load dst slot bits)
                  (v.id ∷ []) u d inv refl;
          }

  -- An expression with two operands, as the code lowers it.
  pub record IsBinary (e l r : Expr) (op : BinOp) : Type 0 where
    pub ids : input_ids e ≡ input_ids l ++ input_ids r
    pub valued : value ops bits env e ≡ apply ops op (value ops bits env l) (value ops bits env r)
    pub left : IsSupported e → IsSupported l
    pub right : IsSupported e → IsSupported r

  Agrees-prefix : (inputs more : List ℕ) → Agrees (add_all inputs more) → Agrees inputs
  Agrees-prefix inputs more agrees i x h = agrees i x (add_all_keeps inputs more i x h)

  Known-eq : (a b : ℕ) {ctx : LowerCtx} {e : Expr} → a ≡ b → Known ctx a e → Known ctx b e
  Known-eq a b {ctx} {e} p k = subst (λ v. Known ctx v e) p k

  finish_lem :
      (op : BinOp) (e l r : Expr) (ctx c₁ c₂ : LowerCtx) (lhs rhs : ℕ)
      → IsBinary e l r op
      → Lowered l ctx lhs c₁
      → Lowered r c₁ rhs c₂
      → IsSound e ctx (ok (define (λ dst. binop dst op lhs rhs) c₂))
  unfolding add_all exec define
  finish_lem op e l r ctx c₁ c₂ lhs rhs b first second =
      let left = second.keeps lhs l first.known in
      let inputs : c₂.input_map ≡ add_all ctx.input_map (input_ids e) =
        second.inputs
        ∙ ap (λ m. add_all m (input_ids r)) first.inputs
        ∙ sym (add_all-append ctx.input_map (input_ids l) (input_ids r))
        ∙ ap (add_all ctx.input_map) (sym b.ids) in
      let places : Places c₂.vreg_ctr (binop c₂.vreg_ctr op lhs rhs) =
        (refl, left.defined, second.known.defined) in
      let (i, k) =
        Sound.define_lem ops bits g loads env regs c₂ (λ dst. binop dst op lhs rhs) e [] second.inv
          places
          (write_self _ _ _ ∙ ap₂ (apply ops op) left.holds second.known.holds ∙ sym b.valued)
          (rw b.ids (
            AllIn-append (input_ids l) (input_ids r) c₂.input_map left.slots second.known.slots)) in
      record {
        inv = i;
        known = k;
        inputs = inputs;
        keeps = λ u d known.
            Sound.define_keeps ops bits g loads env regs c₂ (λ dst. binop dst op lhs rhs) [] u d
              second.inv places (second.keeps u d (first.keeps u d known));
      }

  right_lem :
      (op : BinOp) (e l r : Expr) (ctx c₁ : LowerCtx) (lhs : ℕ) (out : Step)
      → IsBinary e l r op
      → Lowered l ctx lhs c₁
      → IsSound r c₁ out
      → IsSound e ctx (out >>= λ (rhs, c₂). ok (define (λ dst. binop dst op lhs rhs) c₂))
  right_lem op e l r ctx c₁ lhs (ok (rhs, c₂)) b first s =
      finish_lem op e l r ctx c₁ c₂ lhs rhs b first s
  right_lem op e l r ctx c₁ lhs refused b first s = λ h. s (b.right h)
  right_lem op e l r ctx c₁ lhs fault b first s = s

  left_lem :
      (op : BinOp) (e l r : Expr) (ctx : LowerCtx) (next : LowerCtx → Step) (out : Step)
      → IsBinary e l r op
      → IsSound l ctx out
      → ((c₁ : LowerCtx) (lhs : ℕ) → Lowered l ctx lhs c₁ → IsSound r c₁ (next c₁))
      → IsSound e ctx (
          out >>= λ (lhs, c₁).
          next c₁ >>= λ (rhs, c₂). ok (define (λ dst. binop dst op lhs rhs) c₂))
  left_lem op e l r ctx next (ok (lhs, c₁)) b s k =
      right_lem op e l r ctx c₁ lhs (next c₁) b s (k c₁ lhs s)
  left_lem op e l r ctx next refused b s k = λ h. s (b.left h)
  left_lem op e l r ctx next fault b s k = s

  -- An operand's lowering is sound in any state that satisfies the invariant.
  abbrev pub Lowers : Expr → (LowerCtx → Step) → Type 0
  Lowers e step =
      (ctx : LowerCtx)
      → Inv ctx
      → Agrees (add_all ctx.input_map (input_ids e))
      → IsSound e ctx (step ctx)

  pub binop_lem :
      (op : BinOp) (e l r : Expr) (rec : ℕ → LowerCtx → Step) (i j : ℕ)
      → IsBinary e l r op
      → Lowers l (rec i)
      → Lowers r (rec j)
      → Lowers e (lower_binop rec i j op)
  unfolding lower_binop
  binop_lem op e l r rec i j b sl sr ctx inv agrees =
      let both : Agrees (add_all (add_all ctx.input_map (input_ids l)) (input_ids r)) =
        subst Agrees
          (ap (add_all ctx.input_map) b.ids
            ∙ add_all-append ctx.input_map (input_ids l) (input_ids r))
          agrees in
      left_lem op e l r ctx (rec j) (rec i ctx) b
        (sl ctx inv (Agrees-prefix (add_all ctx.input_map (input_ids l)) (input_ids r) both))
        (λ c₁ lhs first.
          sr c₁ first.inv (subst (λ m. Agrees (add_all m (input_ids r))) (sym first.inputs) both))
