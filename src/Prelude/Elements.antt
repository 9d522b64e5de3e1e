-- ===== src/Prelude/Elements.antt =====
-- Lists of texts as sets: the Boolean membership test of Python's `in`.
use Prim.Native.String.{String}
use mathlib.Core.Path.{ap, ◌≡◌, refl}
use mathlib.Core.Bool.{not, Bool, true, false, ◌||◌}
use mathlib.Core.List.{List, [], ◌∷◌, ◌++◌}
use native.Mathlib.Omega.{arith}
use text.Mathlib.Text.{◌==◌}
use text.Mathlib.TextEquality.{eq_iff}
use text.Mathlib.TextPositions.{eq_refl}

abbrev pub filter : (String → Bool) → List String → List String
filter p [] = []
filter p (x ∷ xs) = elim (p x) [ true ↦ x ∷ filter p xs | false ↦ filter p xs ]

abbrev pub elem : String → List String → Bool
elem x [] = false
elem x (y ∷ ys) = y == x || elem x ys

-- No element twice.
abbrev pub NoDup : List String → Type 0
NoDup [] = Unit
NoDup (x ∷ xs) = (elem x xs ≡ false) × NoDup xs

pub elem-append : (x : String) (xs ys : List String) → elem x (xs ++ ys) ≡ (elem x xs || elem x ys)
elem-append x [] ys = refl
elem-append x (z ∷ xs) ys = ground (arith, elem-append x xs ys)

pub NoDup-append_one :
    (xs : List String) (y : String) → NoDup xs → elem y xs ≡ false → NoDup (xs ++ y ∷ [])
NoDup-append_one [] y h e = (refl, tt)
NoDup-append_one (x ∷ xs) y h e = (
  ground (arith, elem-append x xs (y ∷ []), eq_iff x y, eq_iff y x),
  NoDup-append_one xs y h.1 (ground arith),
)

pub same : (x y : String) → (x == y) ≡ true → x ≡ y
same x y h = ground (arith, eq_iff x y)

-- Taking out what was appended.
pub filter-absent :
    (id : String) (xs : List String)
    → elem id xs ≡ false
    → filter (λ x. not (id == x)) (xs ++ id ∷ []) ≡ xs
filter-absent id [] h = rw (eq_refl id, filter)
filter-absent id (x ∷ xs) h =
    rw (apart id x xs h, filter) (ap (λ r. x ∷ r) (filter-absent id xs (ground arith)))
  where
    apart : (k y : String) (ys : List String) → elem k (y ∷ ys) ≡ false → (k == y) ≡ false
    apart k y ys e = ground (arith, eq_iff k y, eq_iff y k)
