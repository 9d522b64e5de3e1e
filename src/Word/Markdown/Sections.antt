-- ===== src/Word/Markdown/Sections.antt =====
-- opcdocx/md_parse.py: the sections of a Markdown document.
pub mod Laid
pub mod Split
pub mod Tests
use opcua_drafts.Prelude.{
  ℕ, suc, ◌+◌, String, Bool, true, false, not, Option, none, some, List, [], ◌∷◌, ◌++◌, elem,
  dict_keys, set, Result, ok, err, value_error,
}
use opcua_drafts.Text.Lines.{splitlines}
use opcua_drafts.Word.Markdown.{heading, fence}

-- The class Section.
pub record Section : Type 0 where
  pub level : ℕ
  pub title : String
  pub key : String
  pub source : Option String
  pub start_line : ℕ
  pub lines : List String

-- `sections`, `order` and `current`, which is also the value at its key of `sections`.
pub record Splitter : Type 0 where
  pub sections : List (String × Section)
  pub order : List String
  pub current : Section

abbrev pub fence_after : Bool → List String → Bool
fence_after open_fence [] = open_fence
fence_after open_fence (ln ∷ lines) =
    fence_after (elim (fence ln) [ none ↦ open_fence | some lang ↦ not open_fence ]) lines

-- `_in_fence`
abbrev pub in_fence : List String → Bool
in_fence lines = fence_after false lines

abbrev pub preamble_section : Option String → List String → Section
preamble_section source lines = record {
  level = 0;
  title = "";
  key = "__preamble__";
  source = source;
  start_line = 1;
  lines = lines;
}

abbrev pub titled_section : Option String → ℕ → String → ℕ → List String → Section
titled_section source level title start_line lines = record {
  level = level;
  title = title;
  key = title;
  source = source;
  start_line = start_line;
  lines = lines;
}

-- m and not _in_fence(current.lines)
abbrev pub opens : Section → String → Option (ℕ × String)
opens current line = elim (heading line) [
  | none ↦ none
  | some h ↦ elim (in_fence current.lines) [ true ↦ none | false ↦ some h ]
]

abbrev pub with_line : Section → String → Section
with_line current line = record {
  level = current.level;
  title = current.title;
  key = current.key;
  source = current.source;
  start_line = current.start_line;
  lines = current.lines ++ line ∷ [];
}

-- current.lines.append(line)
abbrev pub keep_line : String → Splitter → Splitter
keep_line line st = record {
  sections = set st.current.key (with_line st.current line) st.sections;
  order = st.order;
  current = with_line st.current line;
}

abbrev pub open_section : Option String → ℕ → ℕ × String → Splitter → Splitter
open_section source lineno h st =
    let current = titled_section source h.0 h.1 (lineno + 1) [] in
    record {
      sections = set h.1 current st.sections;
      order = st.order ++ h.1 ∷ [];
      current = current;
    }

-- The loop over the lines.
unfoldable pub split_from : Option String → ℕ → List String → Splitter → Result Splitter
split_from source lineno [] st = ok st
split_from source lineno (line ∷ lines) st =
    let rest = split_from source (suc lineno) lines in
    elim (opens st.current line) [
      | none ↦ rest (keep_line line st)
      | some h ↦ elim (elem h.1 (dict_keys st.sections)) [
        | true ↦ err value_error
        | false ↦ rest (open_section source lineno h st)
      ]
    ]

abbrev pub splitter_start : Option String → Splitter
splitter_start source = record {
  sections = ("__preamble__", preamble_section source []) ∷ [];
  order = "__preamble__" ∷ [];
  current = preamble_section source [];
}

-- `split_sections`
unfoldable pub split_sections : String → Option String → Result Splitter
split_sections text source = split_from source 1 (splitlines text) (splitter_start source)
