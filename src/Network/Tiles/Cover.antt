-- ===== src/Network/Tiles/Cover.antt =====
-- numtoy-core/src/network.rs: the tiles of `decompose` cover the array.
use num_toy.Prelude.{
  ok-injective, refused-ne-ok, ℕ, zero, suc, ◌+◌, ◌*◌, ◌/◌, ◌%◌, ◌^◌, ◌≤◌, ◌<◌, ◌≡◌, refl, sym, ◌∙◌,
  ap, subst, List, [], ◌∷◌, arith, ok, >>=-eq-ok, length, min, leb, ◌==◌, false, Bool-cases, inl,
  inr,
}
use native.Mathlib.Nat.{mod-lt, div-add-mod, le-div_iff_mul-le}
use num_toy.Graph
use num_toy.Graph.{Node, ArenaGraph}
use num_toy.Network.Tiles.{
  Tile, tile_bufs, bytes_of, part_size, cut, decompose, input_nodes, tile_bits,
  local_tile_threshold,
}

-- The tiles stand end to end from `start` to `end`, none is empty, and each has `base` or
-- `base + 1` elements.
abbrev pub Covers : ℕ → ℕ → ℕ → List Tile → Type 0
Covers base start end [] = start ≡ end
Covers base start end (t ∷ ts) =
    (t.elem_start ≡ start)
    × (0 < t.elem_count)
    × (base ≤ t.elem_count)
    × (t.elem_count ≤ base + 1)
    × Covers base (start + t.elem_count) end ts

module _ (nodes : List Node) (inputs : List (ℕ × ℕ)) (bits base rem : ℕ) where
  -- what the first `k` parts have used up
  abbrev used : ℕ → ℕ
  used k = k * base + min k rem

  part_size-lem : (k : ℕ) → used k + part_size base rem k ≡ used (suc k)
  unfolding part_size
  part_size-lem k = ground arith

  part_size-pos : (k : ℕ) → 0 < base → (part_size base rem k == 0) ≡ false
  unfolding part_size
  part_size-pos k h = ground arith

  part_size-base : (k : ℕ) → (base ≤ part_size base rem k) × (part_size base rem k ≤ base + 1)
  unfolding part_size
  part_size-base k = (ground arith, ground arith)

  cut_step :
      (left k offset ctr : ℕ)
      → 0 < base
      → let count = part_size base rem k in
        cut nodes inputs bits base rem (suc left) k offset ctr
        ≡ record {
          id = ctr;
          elem_start = offset;
          elem_count = count;
          bits = bits;
          input_bufs = tile_bufs nodes inputs offset count (bytes_of bits);
        }
          ∷ cut nodes inputs bits base rem left (suc k) (offset + count) ((ctr + 1) % 2 ^ 64)
  unfolding cut
  cut_step left k offset ctr h = rw (part_size-pos k h, cut)

  abbrev Cut : ℕ → ℕ → ℕ → List Tile → Type 0
  Cut offset end left tiles = Covers base offset end tiles × (length tiles ≡ left)

  cut-Covers :
      (left k offset ctr : ℕ)
      → 0 < base
      → offset ≡ used k
      → Cut offset (used (k + left)) left (cut nodes inputs bits base rem left k offset ctr)
  cut-Covers zero k offset ctr h e =
      let end : k ≡ k + 0 = omega arith in unfold cut in (e ∙ ap used end, refl)
  cut-Covers (suc left) k offset ctr h e =
      let count = part_size base rem k in
      let (low, high) = part_size-base k in
      let end : suc k + left ≡ k + suc left = omega arith in
      let (covers, size) =
        cut-Covers left (suc k) (offset + count) ((ctr + 1) % 2 ^ 64) h
          (ap (λ o. o + count) e ∙ part_size-lem k) in
      let rest =
        cut nodes inputs bits base rem left (suc k) (offset + count) ((ctr + 1) % 2 ^ 64) in
      subst (Cut offset (used (k + suc left)) (suc left)) (sym (cut_step left k offset ctr h)) (
        (
          refl,
          omega (arith, low, h),
          low,
          high,
          subst (λ m. Covers base (offset + count) (used m) rest) end covers,
        ),
        ap suc size,
      )

  used_zero : 0 ≡ used 0
  used_zero = omega arith

-- All the parts together have all the elements.
used_all :
    (nodes : List Node) (inputs : List (ℕ × ℕ)) (bits n parts : ℕ)
    → 0 < parts
    → used nodes inputs bits (n / parts) (n % parts) (0 + parts) ≡ n
used_all nodes inputs bits n parts h =
    let all : 0 + parts ≡ parts = omega arith in
    let less : n % parts < parts = mod-lt n h in
    let small : min parts (n % parts) ≡ n % parts = omega (arith, less) in
    ap (used nodes inputs bits (n / parts) (n % parts)) all
    ∙ ap (λ m. parts * (n / parts) + m) small
    ∙ div-add-mod n parts

-- What `decompose` promises of its tiles for an array of `size` elements on `num_nodes` nodes.
pub record Tiled (size num_nodes : ℕ) (tiles : List Tile) : Type 0 where
  pub large : local_tile_threshold < size
  pub shared : 0 < num_nodes
  -- one tile for each node and one for the coordinator
  pub count : length tiles ≡ min (num_nodes + 1) size
  -- They cut the elements into consecutive parts whose sizes differ by one at most.
  pub covers : Covers (size / min (num_nodes + 1) size) 0 size tiles

-- Where an array is decomposed, it has more than a million elements and there is a node to send to;
-- there is one tile for each node and one for the coordinator, and the tiles cut the elements into
-- consecutive, non-empty parts whose sizes differ by one at most.
pub decompose-Tiled :
    (graph : ArenaGraph) (num_nodes ctr size : ℕ) (tiles : List Tile)
    → Graph.size graph graph.root ≡ ok size
    → decompose graph num_nodes ctr ≡ ok tiles
    → Tiled size num_nodes tiles
unfolding decompose
decompose-Tiled graph num_nodes ctr size tiles sized h = elim (Bool-cases (num_nodes == 0)) [
  | inl z ↦ absurd (refused-ne-ok tiles (rw z at h))
  | inr z ↦ elim (Bool-cases (leb size local_tile_threshold)) [
    | inl s ↦ absurd (refused-ne-ok tiles (rw (z, sized, s) at h))
    | inr s ↦
        let (dtype, typed, h₁) =
          >>=-eq-ok (Graph.data_type graph graph.root) _ (rw (z, sized, s) at h) in
        let parts = min (num_nodes + 1) size in
        let pos : 0 < min (num_nodes + 1) size = ground arith in
        let whole : 1 * min (num_nodes + 1) size ≤ size = omega arith in
        let nodes = graph.nodes in
        let inputs = input_nodes 0 graph.nodes [] in
        let some_nodes : 0 < num_nodes = ground arith in
        let large : local_tile_threshold < size = ground arith in
        let (covers, count) =
          cut-Covers nodes inputs (tile_bits dtype) (size / parts) (size % parts) parts 0 0 ctr
            ((le-div_iff_mul-le {k = parts} {x = 1} {y = size} pos).1 whole)
            (used_zero nodes inputs (tile_bits dtype) (size / parts) (size % parts)) in
        subst (Tiled size num_nodes) (ok-injective _ tiles h₁) (record {
          large = large;
          shared = some_nodes;
          count = count;
          covers =
              subst
                (λ m.
                  Covers (size / parts) 0 m (
                    cut nodes inputs (tile_bits dtype) (size / parts) (size % parts) parts 0 0 ctr))
                (used_all nodes inputs (tile_bits dtype) size parts pos) covers;
        })
  ]
]
