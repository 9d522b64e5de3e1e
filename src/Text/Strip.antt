-- ===== src/Text/Strip.antt =====
-- Python's `str.strip`, with any set of characters.
use Prim.Native.Char.{Char, code}
use Prim.Native.String.{String}
use opcua_drafts.Prelude.{Bool, true, false, ◌&&◌, ◌||◌, ◌∷◌, [], leb, eqb, any}
use opcua_drafts.Text.{is_empty}

-- The characters that `str.strip` removes.
abbrev pub is_space : Char → Bool
is_space c =
    leb 9 (code c) && leb (code c) 13
    || leb 28 (code c) && leb (code c) 32
    || leb 8192 (code c) && leb (code c) 8202
    || any (eqb (code c)) (133 ∷ 160 ∷ 5760 ∷ 8232 ∷ 8233 ∷ 8239 ∷ 8287 ∷ 12288 ∷ [])

abbrev pub strip_left : (Char → Bool) → String → String
strip_left p String.[] = ""
strip_left p (String.◌∷◌ c s) = elim (p c) [ true ↦ strip_left p s | false ↦ String.◌∷◌ c s ]

abbrev pub strip_right : (Char → Bool) → String → String
strip_right p String.[] = ""
strip_right p (String.◌∷◌ c s) =
    let rest = strip_right p s in
    elim (p c && is_empty rest) [ true ↦ "" | false ↦ String.◌∷◌ c rest ]

-- value.strip()
unfoldable pub strip : String → String
strip s = strip_right is_space (strip_left is_space s)
