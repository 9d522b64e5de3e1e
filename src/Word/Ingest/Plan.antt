-- ===== src/Word/Ingest/Plan.antt =====
-- ingest_docx.py: diff_spans, _widen and plan_paragraph_edit. `SequenceMatcher` of difflib is a
-- parameter: its opcodes that are not `equal`.
use Prim.Native.Char.{Char, code}
use Prim.Native.String.{String}
use opcua_drafts.Prelude.{
  ℕ, zero, suc, ◌+◌, ◌-◌, Bool, true, false, not, ◌&&◌, Option, none, some, List, [], ◌∷◌, ◌++◌,
  length, lookup, set, leb, eqb, ◌==◌, Result, ok, index_error, from_option, ◌>>=◌,
}
use opcua_drafts.Text.{append, is_empty}
use opcua_drafts.Text.Strip.{is_space, strip_left}
use opcua_drafts.Word.DocModel.{Run}
use opcua_drafts.Word.Ingest.{BlockSpans, block_spans, slice_from, locate, Edit, split_lf}

-- i1, i2, j1 and j2 of an opcode
pub record Opcode : Type 0 where
  pub i1 : ℕ
  pub i2 : ℕ
  pub j1 : ℕ
  pub j2 : ℕ

abbrev pub merge_gap : ℕ
merge_gap = 16

-- The loop that merges the opcodes behind `merged[-1]`.
abbrev pub merged_from : Opcode → List Opcode → List Opcode
merged_from last [] = last ∷ []
merged_from last (o ∷ os) =
    let joined = merged_from (record { i1 = last.i1; i2 = o.i2; j1 = last.j1; j2 = o.j2 }) os in
    let apart = merged_from o os in
    elim (leb o.i1 (last.i2 + merge_gap)) [ true ↦ joined | false ↦ last ∷ apart ]

abbrev pub merged : List Opcode → List Opcode
merged [] = []
merged (o ∷ os) = merged_from o os

abbrev pub nth_char : ℕ → String → Option Char
nth_char i String.[] = none
nth_char zero (String.◌∷◌ c s) = some c
nth_char (suc i) (String.◌∷◌ c s) = nth_char i s

-- `_word_start`
abbrev pub word_start : String → ℕ → String → ℕ → Result ℕ
word_start before zero after j = ok 0
word_start before (suc i) after zero = ok 0
word_start before (suc i) after (suc j) =
    let more = word_start before i after j in
    from_option index_error (nth_char i before) >>= λ c. elim (is_space c) [
      | true ↦ ok 0
      | false ↦ from_option index_error (nth_char j after) >>= λ d. elim (eqb (code c) (code d)) [
        | true ↦ more >>= λ k. ok (suc k)
        | false ↦ ok 0
      ]
    ]

-- The loop of `_word_end`, on what is right of the two indices.
abbrev pub common_word : String → String → ℕ
common_word String.[] t = 0
common_word (String.◌∷◌ c s) String.[] = 0
common_word (String.◌∷◌ c s) (String.◌∷◌ d t) =
    let more = common_word s t in
    elim (not (is_space c) && eqb (code c) (code d)) [ true ↦ suc more | false ↦ 0 ]

-- s[start:], which is empty behind the end
abbrev pub tail_of : ℕ → String → String
tail_of start s = elim (slice_from start s) [ none ↦ "" | some rest ↦ rest ]

-- `_word_end`
abbrev pub word_end : String → ℕ → String → ℕ → ℕ
word_end before i after j = common_word (tail_of i before) (tail_of j after)

abbrev pub head_of : ℕ → String → String
head_of zero s = ""
head_of (suc n) String.[] = ""
head_of (suc n) (String.◌∷◌ c s) = String.◌∷◌ c (head_of n s)

-- s[start:end]
abbrev pub slice_text : ℕ → ℕ → String → String
slice_text start end s = head_of (end - start) (tail_of start s)

abbrev pub substitutions : String → String → List Opcode → Result (List (String × String × ℕ))
substitutions before after [] = ok []
substitutions before after (o ∷ os) = do
  left ← word_start before o.i1 after o.j1
  let right : ℕ = word_end before o.i2 after o.j2
  rest ← substitutions before after os
  ok (
      (
        slice_text (o.i1 - left) (o.i2 + right) before,
        slice_text (o.j1 - left) (o.j2 + right) after,
        o.i1 - left,
      )
      ∷ rest)

-- `_widen`
abbrev pub widen : String → String → String → ℕ → String × String
widen rejected before after start = elim (is_empty before) [
  | false ↦ (before, after)
  | true ↦
      (let lead = strip_left is_space (slice_text (start - 24) start rejected) in
        elim (is_empty lead) [ true ↦ ("", "") | false ↦ (lead, append lead after) ])
]

-- The reasons of the refusals.
pub data Refusal : Type 0 where
  source_missing : Refusal
  block_missing : String → ℕ → Refusal
  no_anchor : Refusal
  not_found : String → Refusal
  ambiguous : String → ℕ → Refusal

pub record BlockAddress : Type 0 where
  pub file : String
  pub section : String
  pub block : ℕ

-- An edit or a refusal for what was found of a needle.
abbrev pub for_hits : String → String → List (ℕ × ℕ) → List Edit × List Refusal
for_hits needle replacement [] = ([], not_found needle ∷ [])
for_hits needle replacement (hit ∷ []) =
    (record { line = hit.0; before = needle; after = replacement } ∷ [], [])
for_hits needle replacement (hit ∷ other ∷ more) =
    ([], ambiguous needle (suc (suc (length more))) ∷ [])

abbrev pub for_needle : List String → ℕ × ℕ → String × String → Result (List Edit × List Refusal)
for_needle lines span widened = elim (is_empty widened.0) [
  | true ↦ ok ([], no_anchor ∷ [])
  | false ↦ locate lines span widened.0 >>= λ hits. ok (for_hits widened.0 widened.1 hits)
]

-- The loop over the substitutions.
abbrev pub plan_each :
    List String → ℕ × ℕ → String → List (String × String × ℕ) → Result (List Edit × List Refusal)
plan_each lines span rejected [] = ok ([], [])
plan_each lines span rejected (s ∷ more) = do
  here ← for_needle lines span (widen rejected s.0 s.1 s.2)
  rest ← plan_each lines span rejected more
  ok (here.0 ++ rest.0, here.1 ++ rest.1)

-- spans.get((section, block))
abbrev pub span_of : String → ℕ → BlockSpans → Option (ℕ × ℕ)
span_of section block [] = none
span_of section block (s ∷ spans) =
    let rest = span_of section block spans in
    elim (s.0.0 == section && eqb s.0.1 block) [ true ↦ some s.1 | false ↦ rest ]

-- `spans_cache`
abbrev pub Cache : Type 0
Cache = List (String × BlockSpans)

-- spans_cache.setdefault(path, spans)
abbrev pub set_default : String → BlockSpans → Cache → BlockSpans × Cache
set_default path spans cache = elim (lookup path cache) [
  | some cached ↦ (cached, cache)
  | none ↦ (spans, set path spans cache)
]

module _ (opcodes : String → String → List Opcode) (inline : String → List Run)
    (is_decimal : Char → Bool) where
  -- `diff_spans`
  abbrev pub diff_spans : String → String → Result (List (String × String × ℕ))
  diff_spans before after = substitutions before after (merged (opcodes before after))

  abbrev pub plan_in_span : String → ℕ × ℕ → String → String → Result (List Edit × List Refusal)
  plan_in_span text span rejected accepted = do
    subs ← diff_spans rejected accepted
    plan_each (split_lf text) span rejected subs

  abbrev pub plan_in_block :
      BlockAddress → String → Option (ℕ × ℕ) → String → String → Result (List Edit × List Refusal)
  plan_in_block address text none rejected accepted =
      ok ([], block_missing address.section address.block ∷ [])
  plan_in_block address text (some span) rejected accepted =
      plan_in_span text span rejected accepted

  -- `plan_paragraph_edit`, of the texts `para.rejected` and `para.accepted`, with
  -- `sources.at_review.get(path)` and `spans_cache`
  unfoldable pub plan_paragraph_edit :
      BlockAddress
      → Option String
      → String
      → String
      → Cache
      → Result ((List Edit × List Refusal) × Cache)
  plan_paragraph_edit address none rejected accepted cache = ok (([], source_missing ∷ []), cache)
  plan_paragraph_edit address (some text) rejected accepted cache = do
    made ← block_spans inline is_decimal text address.file
    let cached : BlockSpans × Cache = set_default address.file made cache
    planned ←
        plan_in_block address text (span_of address.section address.block cached.0) rejected
          accepted
    ok (planned, cached.1)
