-- ===== src/Cache.antt =====
-- numtoy-core/src/cache.rs: the key of the kernel cache. What is modelled is the bytes that are fed
-- to the hasher; the hash of those bytes is a parameter where it is used.
pub mod Key
use num_toy.Prelude.{
  ℕ, zero, suc, ◌%◌, ◌^◌, List, [], ◌∷◌, ◌++◌, Outcome, ok, fault, ◌>>=◌, at_index, length,
  le_bytes,
}
use num_toy.Scalar.{DataType, to_double}
use num_toy.Scalar.Float.{FloatOps}
use num_toy.Ir.{Variable}
use num_toy.Graph.{Node, ArenaGraph}

-- `match dtype { … => (tag, bits, extra) }`
unfoldable pub type_key : DataType → ℕ × ℕ × ℕ
type_key (DataType.float b) = (0, b, 0)
type_key (DataType.int b) = (1, b, 0)
type_key DataType.dynamic_float = (2, 64, 0)
type_key DataType.floating_int = (3, 64, 0)
type_key (DataType.scalable_int b) = (4, b, 0)
type_key (DataType.scalable_float b e) = (5, b, e)

unfoldable pub words : List ℕ → List ℕ
words [] = []
words (d ∷ ds) = le_bytes 8 d ++ words ds

-- the bytes of a string literal
abbrev pub tag_var : List ℕ
tag_var = 86 ∷ 97 ∷ 114 ∷ []

abbrev pub tag_const : List ℕ
tag_const = 67 ∷ 111 ∷ 110 ∷ 115 ∷ 116 ∷ []

abbrev pub tag_add : List ℕ
tag_add = 65 ∷ 100 ∷ 100 ∷ []

abbrev pub tag_sub : List ℕ
tag_sub = 83 ∷ 117 ∷ 98 ∷ []

abbrev pub tag_mul : List ℕ
tag_mul = 77 ∷ 117 ∷ 108 ∷ []

abbrev pub tag_div : List ℕ
tag_div = 68 ∷ 105 ∷ 118 ∷ []

abbrev pub tag_matmul : List ℕ
tag_matmul =
    68 ∷ 101 ∷ 113 ∷ 117 ∷ 97 ∷ 110 ∷ 116 ∷ 105 ∷ 122 ∷ 101 ∷ 77 ∷ 97 ∷ 116 ∷ 109 ∷ 117 ∷ 108 ∷ []

unfoldable pub variable_key : Variable → List ℕ
variable_key v =
    let (tag, bits, extra) = type_key v.dtype in
    tag_var
    ++ (le_bytes 8 v.id
        ++ (tag ∷ le_bytes 4 bits
            ++ (le_bytes 4 extra ++ (le_bytes 8 v.size ++ (words v.shape ++ words v.bit_strides)))))

abbrev pub both_keys : List ℕ → Outcome (List ℕ) → Outcome (List ℕ) → Outcome (List ℕ)
both_keys tag l r = do left ← l; right ← r; ok (tag ++ (left ++ right))

module _ (ops : FloatOps) where
  unfoldable pub node_key : (ℕ → Outcome (List ℕ)) → Node → Outcome (List ℕ)
  node_key rec (Node.variable v) = ok (variable_key v)
  node_key rec (Node.constant val) = ok (tag_const ++ le_bytes 8 (to_double ops val))
  node_key rec (Node.add l r) = both_keys tag_add (rec l) (rec r)
  node_key rec (Node.sub l r) = both_keys tag_sub (rec l) (rec r)
  node_key rec (Node.mul l r) = both_keys tag_mul (rec l) (rec r)
  node_key rec (Node.div l r) = both_keys tag_div (rec l) (rec r)
  node_key rec (Node.dequantize_matmul a w _ _ _) = both_keys tag_matmul (rec a) (rec w)

  -- The fuel bounds the depth of the recursion.
  unfoldable pub hash_node : List Node → ℕ → ℕ → Outcome (List ℕ)
  hash_node g zero id = fault
  hash_node g (suc f) id = at_index g id >>= node_key (hash_node g f)

  unfoldable pub hash_graph : ArenaGraph → Outcome (List ℕ)
  hash_graph graph = hash_node graph.nodes (length graph.nodes) graph.root
