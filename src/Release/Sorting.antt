-- ===== src/Release/Sorting.antt =====
-- Python's `sorted` on texts, by code points, as an insertion sort.
use Prim.Native.Nat.{Ordering}
use Prim.Native.String.{String, compare}
use opcua_drafts.Prelude.{
  Bool, true, false, ◌||◌, List, [], ◌∷◌, ◌≡◌, refl, ◌==◌, elem, Bool-cases, inl, inr, arith,
}

unfoldable pub str_le : String → String → Bool
str_le s t = elim (compare s t) [ Ordering.gt ↦ false | _ ↦ true ]

abbrev pub insert : String → List String → List String
insert x [] = x ∷ []
insert x (y ∷ ys) =
    let rest = insert x ys in elim (str_le x y) [ true ↦ x ∷ y ∷ ys | false ↦ y ∷ rest ]

abbrev pub sort : List String → List String
sort [] = []
sort (x ∷ xs) = insert x (sort xs)

elem-insert : (x y : String) (ys : List String) → elem x (insert y ys) ≡ (y == x || elem x ys)
elem-insert x y [] = refl
elem-insert x y (z ∷ ys) = elim (Bool-cases (str_le y z)) [
  | inl e ↦ rw (e, insert)
  | inr e ↦ rw (e, insert) (ground (arith, elem-insert x y ys))
]

-- Sorting keeps the elements.
pub elem-sort : (x : String) (xs : List String) → elem x (sort xs) ≡ elem x xs
elem-sort x [] = refl
elem-sort x (y ∷ ys) = rw (elem-insert x y (sort ys), elem-sort x ys)
