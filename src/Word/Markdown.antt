-- ===== src/Word/Markdown.antt =====
-- opcdocx/md_parse.py: the patterns of its lines, on lines without a line feed. Decimal digits
-- (`\d`) are a parameter, because Python's table of them is long.
pub mod Sections
pub mod Rows
pub mod Blocks
use Prim.Native.Char.{Char, code}
use Prim.Native.String.{String}
use opcua_drafts.Prelude.{
  ℕ, suc, Bool, true, false, not, ◌&&◌, ◌||◌, Option, none, some, leb, eqb, ◌==◌, ◌+◌,
}
use opcua_drafts.Text.{text_length, is_empty, remove_prefix}
use opcua_drafts.Text.Strip.{is_space, strip_left, strip_right}

-- The longest prefix of such characters, and what is behind it.
abbrev pub run_of : (Char → Bool) → String → String × String
run_of p String.[] = ("", "")
run_of p (String.◌∷◌ c s) =
    let rest = run_of p s in
    elim (p c) [ true ↦ (String.◌∷◌ c rest.0, rest.1) | false ↦ ("", String.◌∷◌ c s) ]

abbrev pub starts_with : (Char → Bool) → String → Bool
starts_with p String.[] = false
starts_with p (String.◌∷◌ c s) = p c

-- HEADING_RE: the level and the title
unfoldable pub heading : String → Option (ℕ × String)
heading line =
    let r = run_of (λ c. eqb (code c) b'#') line in
    elim (leb 1 (text_length r.0) && leb (text_length r.0) 6 && starts_with is_space r.1) [
      | true ↦ some (text_length r.0, strip_right is_space (strip_left is_space r.1))
      | false ↦ none
    ]

-- [A-Za-z0-9_+-]
abbrev pub is_language : Char → Bool
is_language c =
    leb b'A' (code c) && leb (code c) b'Z'
    || leb b'a' (code c) && leb (code c) b'z'
    || leb b'0' (code c) && leb (code c) b'9'
    || eqb (code c) b'_'
    || eqb (code c) b'+'
    || eqb (code c) b'-'

-- FENCE_RE: the language
unfoldable pub fence : String → Option String
fence line = elim (remove_prefix "```" line) [
  | none ↦ none
  | some behind ↦
      (let r = run_of is_language (strip_left is_space behind) in
        elim (is_empty (strip_left is_space r.1)) [ true ↦ some r.0 | false ↦ none ])
]

-- \s+(.*)$ behind a mark
abbrev pub marked : String → Option String
marked behind = elim (starts_with is_space behind) [
  | true ↦ some (strip_left is_space behind)
  | false ↦ none
]

-- BULLET_RE: the item
abbrev pub bullet_mark : String → Option String
bullet_mark String.[] = none
bullet_mark (String.◌∷◌ c s) = elim (eqb (code c) b'-' || eqb (code c) b'*') [
  | true ↦ marked s
  | false ↦ none
]

unfoldable pub bullet : String → Option String
bullet line = bullet_mark (strip_left is_space line)

-- ORDERED_RE: the item
unfoldable pub ordered_item : (Char → Bool) → String → Option String
ordered_item is_decimal line =
    let r = run_of is_decimal (strip_left is_space line) in
    elim (is_empty r.0) [
      | true ↦ none
      | false ↦ elim (remove_prefix "." r.1) [ none ↦ none | some behind ↦ marked behind ]
    ]

-- [\s:\-|]
abbrev pub is_separator : Char → Bool
is_separator c = is_space c || eqb (code c) b':' || eqb (code c) b'-' || eqb (code c) b'|'

-- Separators, and a bar as the last character.
abbrev pub ends_separator : String → Bool
ends_separator String.[] = false
ends_separator (String.◌∷◌ c s) = elim (is_empty s) [
  | true ↦ eqb (code c) b'|'
  | false ↦ is_separator c && ends_separator s
]

-- TABLE_SEP_RE
unfoldable pub is_table_sep : String → Bool
is_table_sep line = elim (remove_prefix "|" line) [
  | none ↦ false
  | some behind ↦ leb 2 (text_length behind) && ends_separator behind
]

-- HRULE_RE
unfoldable pub is_hrule : String → Bool
is_hrule line =
    let r = run_of (λ c. eqb (code c) b'-') line in
    leb 3 (text_length r.0) && is_empty (strip_left is_space r.1)

-- BLOCKQUOTE_RE: what is quoted
abbrev pub drop_space : String → String
drop_space String.[] = ""
drop_space (String.◌∷◌ c s) = elim (is_space c) [ true ↦ s | false ↦ String.◌∷◌ c s ]

unfoldable pub quoted : String → Option String
quoted line = elim (remove_prefix ">" line) [ none ↦ none | some behind ↦ some (drop_space behind) ]
