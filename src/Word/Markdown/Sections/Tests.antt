-- ===== src/Word/Markdown/Sections/Tests.antt =====
-- opcdocx/md_parse.py: the sections of small documents.
use opcua_drafts.Prelude.{
  ℕ, String, none, List, [], ◌∷◌, ok, err, value_error, map, ◌≡◌, ◌⊎◌, refl, set, Result, ◌>>=◌,
}
use opcua_drafts.Text.{remove_prefix}
use opcua_drafts.Text.Lines.{splitlines}
use opcua_drafts.Word.Markdown.{heading, fence}
use opcua_drafts.Word.Markdown.Sections.{Splitter, split_from, split_sections}
use opcua_drafts.Word.Markdown.Sections.Split.{Fits, Repeated, split_sections_lem}

abbrev document : String
document = "intro\n# One  \r\n```\n# no heading\n```\n## Two\nlast"

abbrev shown : Result Splitter → Result (List (String × ℕ × List String))
shown r = do st ← r; ok (map (λ p. (p.0, p.1.start_line, p.1.lines)) st.sections)

sections_of_document :
    shown (split_sections document none)
    ≡ ok (
        ("__preamble__", 1, "intro" ∷ [])
        ∷ ("One", 3, "```" ∷ "# no heading" ∷ "```" ∷ [])
        ∷ ("Two", 7, "last" ∷ [])
        ∷ [])
unfolding split_sections split_from heading fence set remove_prefix
sections_of_document = refl

heading_twice : split_sections "# One\n# One" none ≡ err value_error
unfolding split_sections split_from heading fence set remove_prefix
heading_twice = refl

split_sections_lem_example :
    ((st : Splitter) × (split_sections document none ≡ ok st) × Fits none (splitlines document) st)
    ⊎ ((split_sections document none ≡ err value_error) × Repeated none (splitlines document))
split_sections_lem_example = split_sections_lem document none
