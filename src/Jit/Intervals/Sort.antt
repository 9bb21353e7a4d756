-- ===== src/Jit/Intervals/Sort.antt =====
-- `intervals.sort_by_key(|iv| iv.start)`: the standard library's stable sort, as an insertion sort.
use num_toy.Prelude.{◌≤◌, ◌≡◌, refl, ap, inl, List, [], ◌∷◌, arith, leb, if◌then◌else◌, In, ◌∙◌}
use num_toy.Jit.Program.{LiveInterval}
use num_toy.Jit.Alloc.Scan.{IsSorted}

unfoldable pub insert_by_start : LiveInterval → List LiveInterval → List LiveInterval
insert_by_start x [] = x ∷ []
insert_by_start x (y ∷ ys) = if leb x.start y.start then x ∷ y ∷ ys else y ∷ insert_by_start x ys

unfoldable pub sort_by_start : List LiveInterval → List LiveInterval
sort_by_start [] = []
sort_by_start (x ∷ xs) = insert_by_start x (sort_by_start xs)

insert_by_start_first :
    (x : LiveInterval) (xs : List LiveInterval)
    → ((j : LiveInterval) → In j xs → x.start ≤ j.start)
    → insert_by_start x xs ≡ x ∷ xs
unfolding insert_by_start
insert_by_start_first x [] h = refl
insert_by_start_first x (y ∷ ys) h = ground (arith, h y (inl refl))

-- A sorted list is left as it is.
pub sort_by_start_sorted : (xs : List LiveInterval) → IsSorted xs → sort_by_start xs ≡ xs
unfolding sort_by_start
sort_by_start_sorted [] h = refl
sort_by_start_sorted (x ∷ xs) h =
    ap (insert_by_start x) (sort_by_start_sorted xs h.1) ∙ insert_by_start_first x xs h.0
