-- ===== src/Jit/Lower/Inputs.antt =====
-- numtoy-core/src/jit/ir.rs: the table of input slots, one for each variable id.
use num_toy.Prelude.{
  ℕ, zero, suc, ◌≡◌, refl, inl, inr, Option, none, some, List, [], ◌∷◌, ◌++◌, arith, ◌==◌,
  if◌then◌else◌, length, get_elem?, get_elem?-append, get_elem?-append_end, In, In-append_left,
  Bool-cases, Option-cases,
}
use mathlib.Core.Option

-- `iter().position(|&x| x == id)`
unfoldable pub position : List ℕ → ℕ → Option ℕ
position [] id = none
position (x ∷ xs) id = if x == id then some 0 else Option.map suc (position xs id)

-- the slot of a variable, and the table with it
unfoldable pub input_slot : List ℕ → ℕ → ℕ × List ℕ
input_slot inputs id = elim (position inputs id) [
  | some pos ↦ (pos, inputs)
  | none ↦ (length inputs, inputs ++ id ∷ [])
]

-- the table after the variables `ids`, in order
unfoldable pub add_all : List ℕ → List ℕ → List ℕ
add_all inputs [] = inputs
add_all inputs (id ∷ ids) = add_all (input_slot inputs id).1 ids

abbrev pub AllIn : List ℕ → List ℕ → Type 0
AllIn [] inputs = Unit
AllIn (id ∷ ids) inputs = In id inputs × AllIn ids inputs

position_sound : (xs : List ℕ) (id pos : ℕ) → position xs id ≡ some pos → get_elem? xs pos ≡ some id
unfolding position
position_sound [] id pos h = cc
position_sound (x ∷ xs) id pos h = elim (Bool-cases (x == id)) [
  | inl e ↦ ground arith
  | inr e ↦ elim (Option-cases (position xs id)) [
    | inl n ↦ absurd (ground arith)
    | inr (p, q) ↦ ground (arith, position_sound xs id p q)
  ]
]

position_complete : (xs : List ℕ) (id : ℕ) → In id xs → (pos : ℕ) × (position xs id ≡ some pos)
unfolding position
position_complete [] id h = elim h [ ]
position_complete (x ∷ xs) id (inl e) = (0, ground arith)
position_complete (x ∷ xs) id (inr h) = elim (Bool-cases (x == id)) [
  | inl e ↦ (0, rw e)
  | inr e ↦ let (p, q) = position_complete xs id h in (suc p, rw (e, q))
]

In-get_elem? : (xs : List ℕ) (i x : ℕ) → get_elem? xs i ≡ some x → In x xs
In-get_elem? [] i x h = cc
In-get_elem? (y ∷ xs) zero x h = inl (cc)
In-get_elem? (y ∷ xs) (suc i) x h = inr (In-get_elem? xs i x h)

pub input_slot_new :
    (inputs : List ℕ) (id : ℕ)
    → position inputs id ≡ none
    → input_slot inputs id ≡ (length inputs, inputs ++ id ∷ [])
unfolding input_slot
input_slot_new inputs id h = rw (h, input_slot)

pub input_slot_old :
    (inputs : List ℕ) (id pos : ℕ)
    → position inputs id ≡ some pos
    → input_slot inputs id ≡ (pos, inputs)
unfolding input_slot
input_slot_old inputs id pos h = rw (h, input_slot)

-- The slot given to a variable holds it.
pub input_slot_holds :
    (inputs : List ℕ) (id : ℕ)
    → let (slot, inputs') = input_slot inputs id in get_elem? inputs' slot ≡ some id
input_slot_holds inputs id = elim (Option-cases (position inputs id)) [
  | inl n ↦ rw (input_slot_new inputs id n) (get_elem?-append_end inputs [] id)
  | inr (p, q) ↦ rw (input_slot_old inputs id p q) (position_sound inputs id p q)
]

input_slot_known : (inputs : List ℕ) (id : ℕ) → In id inputs → (input_slot inputs id).1 ≡ inputs
input_slot_known inputs id h =
    let (p, q) = position_complete inputs id h in rw (input_slot_old inputs id p q)

pub In-input_slot : (inputs : List ℕ) (id : ℕ) → In id (input_slot inputs id).1
In-input_slot inputs id =
    In-get_elem? (input_slot inputs id).1 (input_slot inputs id).0 id (input_slot_holds inputs id)

input_slot_keeps :
    (inputs : List ℕ) (id i x : ℕ)
    → get_elem? inputs i ≡ some x
    → get_elem? (input_slot inputs id).1 i ≡ some x
input_slot_keeps inputs id i x h = elim (Option-cases (position inputs id)) [
  | inl n ↦ rw (input_slot_new inputs id n) (get_elem?-append inputs (id ∷ []) i x h)
  | inr (p, q) ↦ rw (input_slot_old inputs id p q) h
]

In-input_slot_of_In : (inputs : List ℕ) (id x : ℕ) → In x inputs → In x (input_slot inputs id).1
In-input_slot_of_In inputs id x h = elim (Option-cases (position inputs id)) [
  | inl n ↦ rw (input_slot_new inputs id n) (In-append_left x inputs (id ∷ []) h)
  | inr (p, q) ↦ rw (input_slot_old inputs id p q) h
]

-- The table only grows at its end.
pub add_all_keeps :
    (inputs ids : List ℕ) (i x : ℕ)
    → get_elem? inputs i ≡ some x
    → get_elem? (add_all inputs ids) i ≡ some x
unfolding add_all
add_all_keeps inputs [] i x h = h
add_all_keeps inputs (id ∷ ids) i x h =
    add_all_keeps (input_slot inputs id).1 ids i x (input_slot_keeps inputs id i x h)

pub In-add_all : (inputs ids : List ℕ) (x : ℕ) → In x inputs → In x (add_all inputs ids)
unfolding add_all
In-add_all inputs [] x h = h
In-add_all inputs (id ∷ ids) x h =
    In-add_all (input_slot inputs id).1 ids x (In-input_slot_of_In inputs id x h)

pub AllIn-add_all : (inputs ids : List ℕ) → AllIn ids (add_all inputs ids)
unfolding add_all
AllIn-add_all inputs [] = tt
AllIn-add_all inputs (id ∷ ids) = (
  In-add_all (input_slot inputs id).1 ids id (In-input_slot inputs id),
  AllIn-add_all (input_slot inputs id).1 ids,
)

pub AllIn-grows : (ids inputs more : List ℕ) → AllIn ids inputs → AllIn ids (add_all inputs more)
AllIn-grows [] inputs more h = tt
AllIn-grows (id ∷ ids) inputs more (h, hs) =
    (In-add_all inputs more id h, AllIn-grows ids inputs more hs)

pub AllIn-append :
    (xs ys inputs : List ℕ) → AllIn xs inputs → AllIn ys inputs → AllIn (xs ++ ys) inputs
AllIn-append [] ys inputs hx hy = hy
AllIn-append (x ∷ xs) ys inputs (h, hx) hy = (h, AllIn-append xs ys inputs hx hy)

-- Variables that have their slots add none.
pub add_all_known : (ids inputs : List ℕ) → AllIn ids inputs → add_all inputs ids ≡ inputs
unfolding add_all
add_all_known [] inputs h = refl
add_all_known (id ∷ ids) inputs (h, hs) =
    rw (input_slot_known inputs id h) (add_all_known ids inputs hs)

pub add_all-append :
    (inputs xs ys : List ℕ) → add_all inputs (xs ++ ys) ≡ add_all (add_all inputs xs) ys
unfolding add_all
add_all-append inputs [] ys = refl
add_all-append inputs (x ∷ xs) ys = add_all-append (input_slot inputs x).1 xs ys
