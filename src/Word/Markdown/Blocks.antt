-- ===== src/Word/Markdown/Blocks.antt =====
-- opcdocx/md_parse.py: the class BlockParser. The pattern of the inline markup is a parameter: what
-- `parse_inline` makes of a text.
pub mod Grammar
pub mod Readers
pub mod Single
pub mod Parsed
pub mod Coverage
pub mod Tests
use Prim.Native.Char.{Char}
use opcua_drafts.Prelude.{
  ℕ, zero, suc, ◌+◌, ◌-◌, String, Bool, true, false, not, ◌&&◌, ◌||◌, Option, none, some, List, [],
  ◌∷◌, ◌++◌, map, lookup, length, ◌==◌, Result, ok, err, recursion_error, ◌>>=◌, filter,
}
use opcua_drafts.Text.{is_empty, append}
use opcua_drafts.Text.Strip.{strip}
use opcua_drafts.Text.Lines.{startswith, join_with}
use opcua_drafts.Word.DocModel.{
  Run, Body, blist, table, codeblock, figure, note_body, para, truthy, Src, Block,
}
use opcua_drafts.Word.Markdown.{fence, bullet, ordered_item, is_table_sep, is_hrule, quoted}
use opcua_drafts.Word.Markdown.Rows.{split_row}

-- A block with the first and the last line of its span.
abbrev pub Spanned : Type 0
Spanned = Block × ℕ × ℕ

abbrev pub is_some : Option String → Bool
is_some o = elim o [ none ↦ false | some x ↦ true ]

-- A line that `parse` passes over.
abbrev pub skipped : String → Bool
skipped line = is_empty (strip line) || is_hrule (strip line)

abbrev pub starts_bar : String → Bool
starts_bar line = startswith "|" (strip line)

-- The loop over the lines of a fence: its body, the lines behind it and their index.
abbrev pub read_fence : ℕ → List String → List String × List String × ℕ
read_fence i [] = ([], [], i + 1)
read_fence i (l ∷ lines) =
    let rest = read_fence (suc i) lines in
    elim (fence (strip l)) [ some lang ↦ ([], lines, i + 1) | none ↦ (l ∷ rest.0, rest.1, rest.2) ]

-- `_read_table`
abbrev pub read_table : ℕ → List String → List (List String) × List String × ℕ
read_table i [] = ([], [], i)
read_table i (l ∷ lines) =
    let rest = read_table (suc i) lines in
    elim (starts_bar l) [
      | true ↦ elim (is_table_sep (strip l)) [
        | true ↦ rest
        | false ↦ (split_row (strip l) ∷ rest.0, rest.1, rest.2)
      ]
      | false ↦ ([], l ∷ lines, i)
    ]

-- The loop over the lines of a quotation.
abbrev pub read_quote : ℕ → List String → List String × List String × ℕ
read_quote i [] = ([], [], i)
read_quote i (l ∷ lines) =
    let rest = read_quote (suc i) lines in
    elim (quoted (strip l)) [
      | some text ↦ (text ∷ rest.0, rest.1, rest.2)
      | none ↦ ([], l ∷ lines, i)
    ]

-- items[-1] += text
abbrev pub add_to_last : String → List String → List String
add_to_last text [] = []
add_to_last text (x ∷ []) = append x text ∷ []
add_to_last text (x ∷ y ∷ ys) = x ∷ add_to_last text (y ∷ ys)

abbrev pub has_items : List String → Bool
has_items [] = false
has_items (x ∷ xs) = true

-- A line that goes on with the item before it.
abbrev pub continues : List String → String → Bool
continues items line =
    not (is_empty (strip line)) && (startswith "  " line || startswith "\t" line) && has_items items

module _ (is_decimal : Char → Bool) where
  -- The item of a bullet, or else of an ordered line.
  abbrev pub list_item : String → Option String
  list_item line = elim (bullet line) [
    | some item ↦ some item
    | none ↦ ordered_item is_decimal line
  ]

  -- `_read_list` behind some items
  abbrev pub read_list : List String → ℕ → List String → List String × List String × ℕ
  read_list items i [] = (items, [], i)
  read_list items i (l ∷ lines) = elim (list_item l) [
    | some item ↦ read_list (items ++ item ∷ []) (suc i) lines
    | none ↦ elim (continues items l) [
      | true ↦ read_list (add_to_last (append " " (strip l)) items) (suc i) lines
      | false ↦ (items, l ∷ lines, i)
    ]
  ]

-- A code block, or a figure for the language mermaid.
abbrev pub fenced : String → List String → Body
fenced lang body = elim (lang == "mermaid") [
  | true ↦ figure none none "mermaid" (some (join_with "\n" body))
  | false ↦ codeblock (truthy (some lang)) body
]

-- The parser: `inline`, the decimal digits, `table_captions`, and `context`, `source` and
-- `line_offset` of `parse`.
pub record Parser : Type 0 where
  pub inline : String → List Run
  pub is_decimal : Char → Bool
  pub table_captions : List (String × String)
  pub context : String
  pub source : Option String
  pub line_offset : ℕ

-- `_table_block`
abbrev pub table_block : Parser → List (List String) → Body
table_block p [] = para [] "PARAGRAPH" none
table_block p (head ∷ rows) =
    table none (lookup p.context p.table_captions) "generic" (map p.inline head)
      (map (map p.inline) rows) none none

abbrev pub quote_block : Parser → List String → Body
quote_block p body = note_body (p.inline (join_with " " (filter (λ x. not (is_empty x)) body)))

-- The block that begins with a line, the lines behind it and their index.
abbrev pub read_block : Parser → ℕ → String → List String → Body × List String × ℕ
read_block p i line lines = elim (fence (strip line)) [
  | some lang ↦ (let r = read_fence (suc i) lines in (fenced lang r.0, r.1, r.2))
  | none ↦ elim (starts_bar line) [
    | true ↦ (let r = read_table i (line ∷ lines) in (table_block p r.0, r.1, r.2))
    | false ↦ elim (quoted (strip line)) [
      | some text ↦ (let r = read_quote i (line ∷ lines) in (quote_block p r.0, r.1, r.2))
      | none ↦ elim (list_item p.is_decimal line) [
        | some item ↦
            (let r = read_list p.is_decimal [] i (line ∷ lines) in
              (blist (is_some (ordered_item p.is_decimal line)) 0 (map p.inline r.0), r.1, r.2))
        | none ↦ (para (p.inline (strip line)) "PARAGRAPH" none, lines, suc i)
      ]
    ]
  ]
]

-- context or '__preamble__'
abbrev pub section_of : String → String
section_of context = elim (is_empty context) [ true ↦ "__preamble__" | false ↦ context ]

-- `add`: the block with its address, and its span
abbrev pub stamped : Parser → ℕ → ℕ → ℕ → Body → Spanned
stamped p ordinal start end body = (
  record {
    body = body;
    src = elim (p.source) [
      | none ↦ none
      | some source ↦ some (record { f = source; s = section_of p.context; b = ordinal })
    ];
  },
  start + p.line_offset,
  end - 1 + p.line_offset,
)

-- The loop of `parse`, from an ordinal and an index on; the fuel bounds the number of its rounds.
unfoldable pub parse_from : Parser → ℕ → ℕ → ℕ → List String → Result (List Spanned)
parse_from p n ordinal i [] = ok []
parse_from p zero ordinal i (line ∷ lines) = err recursion_error
parse_from p (suc n) ordinal i (line ∷ lines) =
    let next = parse_from p n in
    elim (skipped line) [
      | true ↦ next ordinal (suc i) lines
      | false ↦
          (let r = read_block p i line lines in
            do rest ← next (suc ordinal) r.2 r.1; ok (stamped p ordinal i r.2 r.0 ∷ rest))
    ]

-- `parse`
unfoldable pub parse_blocks : Parser → List String → Result (List Spanned)
parse_blocks p lines = parse_from p (length lines) 0 0 lines
