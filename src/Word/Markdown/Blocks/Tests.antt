-- ===== src/Word/Markdown/Blocks/Tests.antt =====
-- opcdocx/md_parse.py: the blocks of small documents.
use Prim.Native.Char.{code}
use opcua_drafts.Prelude.{
  ℕ, ◌+◌, String, false, ◌&&◌, none, some, List, [], ◌∷◌, map, leb, ok, ◌≡◌, refl, Result, ◌>>=◌,
  lookup,
}
use opcua_drafts.Text.{remove_prefix}
use opcua_drafts.Text.Strip.{strip}
use opcua_drafts.Word.DocModel.{Run, t, Body, codeblock, para, blist, table, source_key}
use opcua_drafts.Word.Markdown.{fence, bullet, ordered_item, is_table_sep, is_hrule, quoted}
use opcua_drafts.Word.Markdown.Rows.{split_row}
use opcua_drafts.Word.Markdown.Blocks.{Parser, Spanned, parse_from, parse_blocks}
use opcua_drafts.Word.Markdown.Blocks.Grammar.{Reads}
use opcua_drafts.Word.Markdown.Blocks.Parsed.{parse_blocks_lem}
use opcua_drafts.Word.Markdown.Blocks.Coverage.{
  Ascending, Inside, parse_blocks-Ascending, parse_blocks-Inside, parse_blocks-source_key,
}

abbrev parser : Parser
parser = record {
  inline = λ s. t s false false ∷ [];
  is_decimal = λ c. leb b'0' (code c) && leb (code c) b'9';
  table_captions = [];
  context = "Scope";
  source = some "a.md";
  line_offset = 1;
}

abbrev runs : String → List Run
runs s = t s false false ∷ []

abbrev lines : List String
lines =
    "First" ∷ "" ∷ "| a | b\\|c |" ∷ "|---|---|" ∷ "| 1 | 2 |" ∷ "- x" ∷ "  y" ∷ "- z" ∷ "```py"
    ∷ "code" ∷ "```" ∷ []

abbrev spans_of : Result (List Spanned) → Result (List (Body × ℕ × ℕ))
spans_of r = do out ← r; ok (map (λ s. (s.0.body, s.1, s.2)) out)

blocks_of_lines :
    spans_of (parse_blocks parser lines)
    ≡ ok (
        (para (runs "First") "PARAGRAPH" none, 1, 1)
        ∷ (
          table none none "generic"
              (runs "a" ∷ runs "b\\|c" ∷ [])
              ((runs "1" ∷ runs "2" ∷ []) ∷ [])
              none
              none,
          3,
          5,
        )
        ∷ (blist false 0 (runs "x y" ∷ runs "z" ∷ []), 6, 8)
        ∷ (codeblock (some "py") ("code" ∷ []), 9, 11)
        ∷ [])
unfolding parse_blocks parse_from fence bullet ordered_item is_table_sep is_hrule quoted split_row
    strip remove_prefix lookup
blocks_of_lines = refl

-- The span of a fence that is never closed ends behind the last line.
open_fence_span :
    spans_of (parse_blocks parser ("```" ∷ "code" ∷ []))
    ≡ ok ((codeblock none ("code" ∷ []), 1, 3) ∷ [])
unfolding parse_blocks parse_from fence bullet ordered_item is_table_sep is_hrule quoted split_row
    strip remove_prefix
open_fence_span = refl

parse_blocks_lem_example :
    (out : List Spanned) × (parse_blocks parser lines ≡ ok out) × Reads parser 0 0 lines out
parse_blocks_lem_example = parse_blocks_lem parser lines

abbrev short : List String
short = "One" ∷ "Two" ∷ []

abbrev paragraph : String → ℕ → Spanned
paragraph s n = (
  record {
    body = para (runs s) "PARAGRAPH" none;
    src = some (record { f = "a.md"; s = "Scope"; b = n });
  },
  n + 1,
  n + 1,
)

short_blocks : parse_blocks parser short ≡ ok (paragraph "One" 0 ∷ paragraph "Two" 1 ∷ [])
unfolding parse_blocks parse_from fence bullet ordered_item is_hrule quoted strip remove_prefix
short_blocks = refl

parse_blocks-Ascending_example : Ascending 1 (paragraph "One" 0 ∷ paragraph "Two" 1 ∷ [])
parse_blocks-Ascending_example = parse_blocks-Ascending parser short _ short_blocks

parse_blocks-Inside_example : Inside 2 (paragraph "One" 0 ∷ paragraph "Two" 1 ∷ [])
unfolding is_hrule strip
parse_blocks-Inside_example = parse_blocks-Inside parser short _ short_blocks 1 "Two" refl refl

abbrev second : ℕ
second = 1

parse_blocks-source_key_example : second ≡ second
parse_blocks-source_key_example =
    parse_blocks-source_key parser "a.md" short _ short_blocks refl
      (refl, (refl, (refl, (refl, tt)))) (refl, (refl, (refl, (refl, (refl, tt))))) 1 1
      (paragraph "Two" 1) (paragraph "Two" 1) refl refl "body" "body" 5 6 (markdown_keys 5 6)
  where
    markdown_keys :
        (n k : ℕ)
        → source_key (paragraph "Two" 1).0 "body" n ≡ source_key (paragraph "Two" 1).0 "body" k
    markdown_keys n k = unfold source_key in refl
