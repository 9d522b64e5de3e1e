-- ===== src/Word/Ingest.antt =====
-- ingest_docx.py: from a place in the reviewed document to a place in the Markdown, and back into
-- it.
pub mod Spans
pub mod Hits
pub mod Edits
pub mod Plan
pub mod Unique
pub mod Planned
pub mod Tests
use Prim.Native.Char.{Char, code}
use Prim.Native.String.{String}
use opcua_drafts.Prelude.{
  ℕ, zero, suc, ◌+◌, ◌-◌, Bool, true, false, Option, none, some, List, [], ◌∷◌, ◌++◌, length, take,
  drop, map, lookup, ltb, leb, eqb, Result, ok, err, key_error, index_error, ingest_error,
  recursion_error, from_option, ◌>>=◌,
}
use opcua_drafts.Text.{text_length, append, remove_prefix, is_empty}
use opcua_drafts.Text.Lines.{startswith, join_with}
use opcua_drafts.Word.DocModel.{Run}
use opcua_drafts.Word.Markdown.Sections.{Section, Splitter, split_sections}
use opcua_drafts.Word.Markdown.Blocks.{Spanned, Parser, parse_blocks}

-- `spans`: the span of a block by the key of its section and its ordinal.
abbrev pub BlockSpans : Type 0
BlockSpans = List ((String × ℕ) × (ℕ × ℕ))

module _ (inline : String → List Run) (is_decimal : Char → Bool) where
  -- The parser of `block_spans` for a section.
  abbrev pub section_parser : Section → Parser
  section_parser section = record {
    inline = inline;
    is_decimal = is_decimal;
    table_captions = [];
    context = section.key;
    source = section.source;
    line_offset = section.start_line;
  }

  -- enumerate(parser.last_spans)
  abbrev pub keyed_spans : String → ℕ → List Spanned → BlockSpans
  keyed_spans key ordinal [] = []
  keyed_spans key ordinal (s ∷ out) =
      ((key, ordinal), (s.1, s.2)) ∷ keyed_spans key (suc ordinal) out

  abbrev pub spans_from : List (String × Section) → List String → Result BlockSpans
  spans_from sections [] = ok []
  spans_from sections (key ∷ order) = do
    section ← from_option key_error (lookup key sections)
    out ← parse_blocks (section_parser section) section.lines
    rest ← spans_from sections order
    ok (keyed_spans key 0 out ++ rest)

  -- `block_spans`; the keys that it sets are new, because those of the sections are distinct.
  unfoldable pub block_spans : String → String → Result BlockSpans
  block_spans text path = do st ← split_sections text (some path); spans_from st.sections st.order

-- line[start:], if start <= len(line)
abbrev pub slice_from : ℕ → String → Option String
slice_from zero s = some s
slice_from (suc n) String.[] = none
slice_from (suc n) (String.◌∷◌ c s) = slice_from n s

-- s.find(needle)
unfoldable pub find_text : String → String → Option ℕ
find_text needle String.[] = elim (is_empty needle) [ true ↦ some 0 | false ↦ none ]
find_text needle (String.◌∷◌ c s) =
    let rest = find_text needle s in
    elim (startswith needle (String.◌∷◌ c s)) [
      | true ↦ some 0
      | false ↦ elim rest [ none ↦ none | some k ↦ some (suc k) ]
    ]

-- line.find(needle, start)
abbrev pub find_from : String → ℕ → String → Option ℕ
find_from needle start line = elim (slice_from start line) [
  | none ↦ none
  | some rest ↦ elim (find_text needle rest) [ none ↦ none | some k ↦ some (start + k) ]
]

-- The inner loop of `locate`; each round starts further to the right.
unfoldable pub hits_from : ℕ → String → ℕ → String → Result (List ℕ)
hits_from zero needle start line = err recursion_error
hits_from (suc n) needle start line =
    let next = hits_from n needle in
    elim (find_from needle start line) [
      | none ↦ ok []
      | some at ↦ next (at + 1) line >>= λ rest. ok (at ∷ rest)
    ]

abbrev pub hits_in : String → String → Result (List ℕ)
hits_in needle line = hits_from (suc (suc (text_length line))) needle 0 line

-- The loop over the lines of a span, from an index on.
abbrev pub hits_of : String → ℕ → List String → Result (List (ℕ × ℕ))
hits_of needle i [] = ok []
hits_of needle i (line ∷ lines) = do
  here ← hits_in needle line
  rest ← hits_of needle (suc i) lines
  ok (map (λ at. (i, at)) here ++ rest)

-- `locate`
abbrev pub least : ℕ → ℕ → ℕ
least a b = elim (ltb a b) [ true ↦ a | false ↦ b ]

unfoldable pub locate : List String → ℕ × ℕ → String → Result (List (ℕ × ℕ))
locate lines span needle =
    let first = span.0 - 1 in
    hits_of needle first (take (least span.1 (length lines) - first) (drop first lines))

-- An `Edit`: the line, the text that is replaced and its replacement.
pub record Edit : Type 0 where
  pub line : ℕ
  pub before : String
  pub after : String

-- text.split('\n')
abbrev pub split_lf : String → List String
split_lf String.[] = "" ∷ []
split_lf (String.◌∷◌ c s) =
    let rest = split_lf s in
    elim (eqb (code c) 10) [
      | true ↦ "" ∷ rest
      | false ↦ elim rest [ [] ↦ String.◌∷◌ c "" ∷ [] | l ∷ ls ↦ String.◌∷◌ c l ∷ ls ]
    ]

-- sorted(edits, key=lambda e: e.line, reverse=True), which keeps the order of equal lines
abbrev pub insert_edit : Edit → List Edit → List Edit
insert_edit e [] = e ∷ []
insert_edit e (f ∷ fs) =
    let rest = insert_edit e fs in elim (ltb e.line f.line) [ true ↦ f ∷ rest | false ↦ e ∷ f ∷ fs ]

abbrev pub later_first : List Edit → List Edit
later_first [] = []
later_first (e ∷ es) = insert_edit e (later_first es)

-- line.count(before) and line.replace(before, after, 1), where `before` is not empty: the
-- occurrences that do not overlap, with the number of characters left of the one that was found.
abbrev pub count_from : ℕ → String → String → ℕ
count_from left before String.[] = 0
count_from (suc left) before (String.◌∷◌ c s) = count_from left before s
count_from zero before (String.◌∷◌ c s) = elim (startswith before (String.◌∷◌ c s)) [
  | true ↦ suc (count_from (text_length before - 1) before s)
  | false ↦ count_from zero before s
]

abbrev pub count : String → String → ℕ
count before line = elim (is_empty before) [
  | true ↦ suc (text_length line)
  | false ↦ count_from 0 before line
]

unfoldable pub replace_first : String → String → String → String
replace_first before after String.[] = elim (is_empty before) [ true ↦ after | false ↦ "" ]
replace_first before after (String.◌∷◌ c s) =
    let rest = replace_first before after s in
    elim (remove_prefix before (String.◌∷◌ c s)) [
      | some behind ↦ append after behind
      | none ↦ String.◌∷◌ c rest
    ]

-- lines[i] = line
abbrev pub set_line : ℕ → String → List String → List String
set_line i line [] = []
set_line zero line (l ∷ lines) = line ∷ lines
set_line (suc i) line (l ∷ lines) = l ∷ set_line i line lines

abbrev pub line_at : ℕ → List String → Option String
line_at i [] = none
line_at zero (l ∷ lines) = some l
line_at (suc i) (l ∷ lines) = line_at i lines

-- The loop of `apply_edits`
abbrev pub apply_all : List Edit → List String → Result (List String)
apply_all [] lines = ok lines
apply_all (e ∷ es) lines = do
  line ← from_option index_error (line_at e.line lines)
  elim (eqb (count e.before line) 1) [
    | true ↦ apply_all es (set_line e.line (replace_first e.before e.after line) lines)
    | false ↦ err ingest_error
  ]

-- `apply_edits`
unfoldable pub apply_edits : String → List Edit → Result String
apply_edits text edits = do
  lines ← apply_all (later_first edits) (split_lf text)
  ok (join_with "\n" lines)
