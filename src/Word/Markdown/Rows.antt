-- ===== src/Word/Markdown/Rows.antt =====
-- opcdocx/md_parse.py: `_split_row`.
use Prim.Native.Char.{code}
use Prim.Native.String.{String}
use opcua_drafts.Prelude.{true, false, none, some, List, [], ◌∷◌, eqb}
use opcua_drafts.Text.{is_empty, append, remove_prefix}
use opcua_drafts.Text.Strip.{strip}

-- inner[1:] if inner.startswith('|')
abbrev pub without_first_bar : String → String
without_first_bar s = elim (remove_prefix "|" s) [ none ↦ s | some rest ↦ rest ]

-- inner[:-1] if inner.endswith('|')
abbrev pub without_last_bar : String → String
without_last_bar String.[] = ""
without_last_bar (String.◌∷◌ c s) =
    let rest = without_last_bar s in
    elim (is_empty s) [
      | true ↦ elim (eqb (code c) b'|') [ true ↦ "" | false ↦ String.◌∷◌ c "" ]
      | false ↦ String.◌∷◌ c rest
    ]

-- The loop, with `buf` as the text that it joins to.
abbrev pub cells : String → String → List String
cells buf String.[] = strip buf ∷ []
cells buf (String.◌∷◌ c String.[]) = elim (eqb (code c) b'|') [
  | true ↦ strip buf ∷ strip "" ∷ []
  | false ↦ strip (append buf (String.◌∷◌ c "")) ∷ []
]
cells buf (String.◌∷◌ c (String.◌∷◌ d s)) =
    let escaped = cells (append buf (String.◌∷◌ c (String.◌∷◌ d ""))) s in
    let ended = cells "" (String.◌∷◌ d s) in
    let longer = cells (append buf (String.◌∷◌ c "")) (String.◌∷◌ d s) in
    elim (eqb (code c) b'\\') [
      | true ↦ escaped
      | false ↦ elim (eqb (code c) b'|') [ true ↦ strip buf ∷ ended | false ↦ longer ]
    ]

unfoldable pub split_row : String → List String
split_row raw = cells "" (without_last_bar (without_first_bar (strip raw)))
