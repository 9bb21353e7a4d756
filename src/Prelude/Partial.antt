-- ===== src/Prelude/Partial.antt =====
-- The result of code that can return `None` and that can also panic or fail to end.
use mathlib.Core.Path.{◌≡◌, refl}
use mathlib.Core.List.{List}
use mathlib.Core.Option.{Option, none, some}
use Prim.Native.Nat.{ℕ}
use num_toy.Prelude.Lists.{get_elem?}

-- `ok a` is `Some(a)`, `refused` is `None`; `fault` is a panic, or a recursion that is cut off.
pub data Outcome {ℓ} (A : Type ℓ) : Type ℓ where
  ok : A → Outcome A
  refused : Outcome A
  fault : Outcome A

-- Rust's `?`
infixl 5 ◌>>=◌
abbrev pub ◌>>=◌ {ℓ κ} : {A : Type ℓ} {B : Type κ} → Outcome A → (A → Outcome B) → Outcome B
refused >>= next = refused
fault >>= next = fault
ok mid >>= next = next mid

-- `xs[i]`, which panics out of range
abbrev pub at_index {ℓ} : {A : Type ℓ} → List A → ℕ → Outcome A
at_index xs i = elim (get_elem? xs i) [ none ↦ fault | some a ↦ ok a ]

abbrev pub of_option {ℓ} : {A : Type ℓ} → Option A → Outcome A
of_option none = refused
of_option (some a) = ok a

-- A computation that answers has a first half that answers.
pub >>=-eq-ok {ℓ κ} :
    {A : Type ℓ} {B : Type κ} (first : Outcome A) (next : A → Outcome B) {out : B}
    → (first >>= next) ≡ ok out
    → (mid : A) × (first ≡ ok mid) × (next mid ≡ ok out)
>>=-eq-ok refused next e = cc
>>=-eq-ok fault next e = cc
>>=-eq-ok (ok mid) next e = (mid, refl, e)

pub at_index-bind {ℓ κ} :
    {A : Type ℓ} {B : Type κ} (xs : List A) (i : ℕ) {a : A} (f : A → Outcome B)
    → get_elem? xs i ≡ some a
    → (at_index xs i >>= f) ≡ f a
at_index-bind xs i f h = rw (h, ◌>>=◌)

pub bind-ok {ℓ κ} :
    {A : Type ℓ} {B : Type κ} {m : Outcome A} {a : A} (f : A → Outcome B) {b : Outcome B}
    → m ≡ ok a
    → f a ≡ b
    → (m >>= f) ≡ b
bind-ok f h k = rw (h, ◌>>=◌) k

pub bind-ext {ℓ κ} :
    {A : Type ℓ} {B : Type κ} (m : Outcome A) (f g : A → Outcome B)
    → ((a : A) → f a ≡ g a)
    → (m >>= f) ≡ (m >>= g)
bind-ext (ok a) f g h = h a
bind-ext refused f g h = refl
bind-ext fault f g h = refl

pub ok-injective {ℓ} : {A : Type ℓ} (a b : A) → ok a ≡ ok b → a ≡ b
ok-injective a b e = cc

pub refused-ne-ok {ℓ} : {A : Type ℓ} (a : A) → ¬ (refused ≡ ok a)
refused-ne-ok a e = cc
