-- ===== src/Text/Lines.antt =====
-- Python's `str.splitlines`, `str.startswith` and `sep.join`.
use Prim.Native.Char.{Char, code}
use Prim.Native.String.{String, [], ◌∷◌}
use opcua_drafts.Prelude.{Bool, true, false, ◌&&◌, ◌||◌, none, some, List, leb, eqb}
use opcua_drafts.Text.{is_empty, append, remove_prefix}

-- The characters that end a line.
abbrev pub is_break : Char → Bool
is_break c =
    leb 10 (code c) && leb (code c) 13
    || leb 28 (code c) && leb (code c) 30
    || eqb (code c) 133
    || eqb (code c) 8232
    || eqb (code c) 8233

-- The lines behind a begun one; a line feed behind a carriage return ends no line of its own.
abbrev split_lines : Bool → String → String → List String
split_lines after_return begun [] = elim (is_empty begun) [
  | true ↦ List.[]
  | false ↦ List.◌∷◌ begun List.[]
]
split_lines after_return begun (c ∷ s) = elim (after_return && eqb (code c) 10) [
  | true ↦ split_lines false begun s
  | false ↦ elim (is_break c) [
    | true ↦ List.◌∷◌ begun (split_lines (eqb (code c) 13) [] s)
    | false ↦ split_lines false (append begun (c ∷ [])) s
  ]
]

-- s.splitlines()
abbrev pub splitlines : String → List String
splitlines s = split_lines false [] s

-- s.startswith(p)
abbrev pub startswith : String → String → Bool
startswith p s = elim (remove_prefix p s) [ none ↦ false | some rest ↦ true ]

-- sep.join(xs)
abbrev pub join_with : String → List String → String
join_with sep List.[] = []
join_with sep (List.◌∷◌ x List.[]) = x
join_with sep (List.◌∷◌ x (List.◌∷◌ y ys)) = append x (append sep (join_with sep (List.◌∷◌ y ys)))
