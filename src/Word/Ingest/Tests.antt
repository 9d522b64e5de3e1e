-- ===== src/Word/Ingest/Tests.antt =====
-- ingest_docx.py: places and edits in a small file.
use Prim.Native.Char.{Char, code}
use opcua_drafts.Prelude.{
  inl, ℕ, ◌-◌, String, Bool, false, ◌&&◌, some, List, [], ◌∷◌, length, take, drop, leb, ok, err,
  ingest_error, ◌≡◌, ◌⊎◌, refl, set, lookup,
}
use opcua_drafts.Text.{remove_prefix, text_length}
use opcua_drafts.Text.Strip.{strip}
use opcua_drafts.Text.Lines.{join_with}
use opcua_drafts.Word.DocModel.{Run, t}
use opcua_drafts.Word.Markdown.{
  heading, fence, bullet, ordered_item, is_table_sep, is_hrule, quoted,
}
use opcua_drafts.Word.Markdown.Rows.{split_row}
use opcua_drafts.Word.Markdown.Sections.{
  Splitter, preamble_section, titled_section, split_from, split_sections,
}
use opcua_drafts.Word.Markdown.Blocks.{parse_from, parse_blocks}
use opcua_drafts.Word.Ingest.{
  BlockSpans, block_spans, find_text, hits_from, least, locate, Edit, split_lf, replace_first,
  line_at, apply_edits,
}
use opcua_drafts.Word.Ingest.Plan.{Opcode, BlockAddress, Cache, ambiguous, plan_paragraph_edit}
use opcua_drafts.Word.Ingest.Planned.{plan_paragraph_edit-applies}
use opcua_drafts.Word.Ingest.Spans.{HeadingAt, Hit, block_spans-covers}
use opcua_drafts.Word.Ingest.Hits.{places, locate_lem}
use opcua_drafts.Word.Ingest.Edits.{edits_at, line_after, apply_edits_lem}

abbrev inline : String → List Run
inline s = t s false false ∷ []

abbrev is_decimal : Char → Bool
is_decimal c = leb b'0' (code c) && leb (code c) b'9'

abbrev file : String
file = "Intro\n# Scope\n\nOne banana\n- two"

spans_of_file :
    block_spans inline is_decimal file "a.md"
    ≡ ok ((("__preamble__", 0), (1, 1)) ∷ (("Scope", 0), (4, 4)) ∷ (("Scope", 1), (5, 5)) ∷ [])
unfolding block_spans split_sections split_from parse_blocks parse_from heading fence bullet
    ordered_item is_table_sep is_hrule quoted split_row strip remove_prefix set lookup
spans_of_file = refl

-- A fence with blanks before it opens a block, and hides no heading from `split_sections`.
indented_fence :
    block_spans inline is_decimal "  ```\n# c\n  ```" "a.md"
    ≡ ok ((("__preamble__", 0), (1, 2)) ∷ (("c", 0), (3, 4)) ∷ [])
unfolding block_spans split_sections split_from parse_blocks parse_from heading fence bullet
    ordered_item is_table_sep is_hrule quoted split_row strip remove_prefix set lookup
indented_fence = refl

places_of_ana : locate (split_lf file) (4, 4) "ana" ≡ ok ((3, 5) ∷ (3, 7) ∷ [])
unfolding locate hits_from find_text remove_prefix
places_of_ana = refl

edited :
    (apply_edits "One\ntwo" (record { line = 1; before = "t"; after = "T" } ∷ []) ≡ ok "One\nTwo")
    × (apply_edits "One\ntoot" (record { line = 1; before = "t"; after = "T" } ∷ [])
        ≡ err ingest_error)
unfolding apply_edits replace_first remove_prefix
edited = (refl, refl)

abbrev split_file : Splitter
split_file = record {
  sections =
      ("__preamble__", preamble_section (some "a.md") ("Intro" ∷ []))
      ∷ ("Scope", titled_section (some "a.md") 1 "Scope" 3 ("" ∷ "One banana" ∷ "- two" ∷ []))
      ∷ [];
  order = "__preamble__" ∷ "Scope" ∷ [];
  current = titled_section (some "a.md") 1 "Scope" 3 ("" ∷ "One banana" ∷ "- two" ∷ []);
}

file_split : split_sections file (some "a.md") ≡ ok split_file
unfolding split_sections split_from heading fence remove_prefix set
file_split = refl

block_spans-covers_example :
    (spans : BlockSpans) × (block_spans inline is_decimal file "a.md" ≡ ok spans)
    × (HeadingAt split_file.sections 4 ⊎ Hit 5 spans)
unfolding is_hrule strip
block_spans-covers_example =
    block_spans-covers inline is_decimal file "a.md" split_file file_split 4 "- two" refl refl

locate_lem_example :
    locate (split_lf file) (4, 4) "ana"
    ≡ ok (
        places "ana"
          (4 - 1)
          (take (least 4 (length (split_lf file)) - (4 - 1)) (drop (4 - 1) (split_lf file))))
locate_lem_example = locate_lem (split_lf file) (4, 4) "ana"

abbrev one_edit : List Edit
one_edit = record { line = 1; before = "t"; after = "T" } ∷ []

one_edit_made : apply_edits "One\ntwo" one_edit ≡ ok "One\nTwo"
unfolding apply_edits replace_first remove_prefix
one_edit_made = refl

apply_edits_lem_example :
    (out : List String) × ("One\nTwo" ≡ join_with "\n" out)
    × (length out ≡ length (split_lf "One\ntwo"))
    × ((i : ℕ) → line_at i out ≡ line_after (edits_at i one_edit) (line_at i (split_lf "One\ntwo")))
apply_edits_lem_example = apply_edits_lem "One\ntwo" one_edit "One\nTwo" one_edit_made

-- One replacement from the fourth character on.
abbrev opcodes : String → String → List Opcode
opcodes before after =
    record { i1 = 4; i2 = text_length before; j1 = 4; j2 = text_length after } ∷ []

abbrev place : BlockAddress
place = record { file = "a.md"; section = "Scope"; block = 0 }

abbrev banana_edit : Edit
banana_edit = record { line = 3; before = "banana"; after = "apple" }

abbrev file_spans : Cache
file_spans =
    ("a.md", (("__preamble__", 0), (1, 1)) ∷ (("Scope", 0), (4, 4)) ∷ (("Scope", 1), (5, 5)) ∷ [])
    ∷ []

planned :
    plan_paragraph_edit opcodes inline is_decimal place (some file) "One banana" "One apple" []
    ≡ ok ((banana_edit ∷ [], []), file_spans)
unfolding plan_paragraph_edit block_spans split_sections split_from parse_blocks parse_from heading
    fence bullet ordered_item is_table_sep is_hrule quoted split_row strip remove_prefix set lookup
    locate hits_from find_text
planned = refl

planned_twice :
    plan_paragraph_edit opcodes inline is_decimal place
      (some "# Scope\nban ban")
      "One ban"
      "One apple"
      []
    ≡ ok (([], ambiguous "ban" 2 ∷ []), ("a.md", (("Scope", 0), (2, 2)) ∷ []) ∷ [])
unfolding plan_paragraph_edit block_spans split_sections split_from parse_blocks parse_from heading
    fence bullet ordered_item is_table_sep is_hrule quoted split_row strip remove_prefix set lookup
    locate hits_from find_text
planned_twice = refl

plan_paragraph_edit-applies_example :
    (new : String) × (apply_edits file (banana_edit ∷ []) ≡ ok new)
plan_paragraph_edit-applies_example =
    plan_paragraph_edit-applies opcodes inline is_decimal place file "One banana" "One apple" []
      file_spans (banana_edit ∷ [], []) planned banana_edit (inl refl)
