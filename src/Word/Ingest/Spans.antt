-- ===== src/Word/Ingest/Spans.antt =====
-- ingest_docx.py: `block_spans` counts the lines of the file.
use Prim.Native.Char.{Char}
use opcua_drafts.Prelude.{
  ℕ, zero, suc, ◌+◌, ◌-◌, ◌≤◌, ◌<◌, String, Bool, false, Option, some, List, [], ◌∷◌, ◌++◌, length,
  All, NoDup, dict_keys, lookup, lookup-pairs, ok, err, value_error, ◌>>=◌, ◌≡◌, ◌⊎◌, inl, inr,
  refl, sym, ◌∙◌, ap, subst, arith, ltb, Bool-cases, ok_inj,
}
use opcua_drafts.Text.Lines.{splitlines}
use opcua_drafts.Word.DocModel.{Run}
use opcua_drafts.Word.Markdown.Sections.{Section, Splitter, split_sections}
use opcua_drafts.Word.Markdown.Sections.Laid.{Laid, preamble, titled}
use opcua_drafts.Word.Markdown.Sections.Split.{Fits, Repeated, split_sections_lem}
use opcua_drafts.Word.Markdown.Blocks.{Spanned, skipped}
use opcua_drafts.Word.Markdown.Blocks.Parsed.{parse_blocks_lem}
use opcua_drafts.Word.Markdown.Blocks.Coverage.{
  Inside, item_at, item_at-append, parse_blocks-Inside,
}
use opcua_drafts.Word.Ingest.{BlockSpans, section_parser, keyed_spans, spans_from, block_spans}

module _ {A : Type 0} where
  abbrev Among : A → List A → Type 0
  Among x [] = ⊥
  Among x (y ∷ ys) = (y ≡ x) ⊎ Among x ys

  Among-left : (x : A) (xs ys : List A) → Among x xs → Among x (xs ++ ys)
  Among-left x [] ys h = elim h [ ]
  Among-left x (y ∷ xs) ys (inl e) = inl e
  Among-left x (y ∷ xs) ys (inr h) = inr (Among-left x xs ys h)

  Among-last : (x : A) (xs : List A) → Among x (xs ++ x ∷ [])
  Among-last x [] = inl refl
  Among-last x (y ∷ xs) = inr (Among-last x xs)

  item_at-left : (k : ℕ) (xs ys : List A) → k < length xs → item_at k (xs ++ ys) ≡ item_at k xs
  item_at-left k [] ys h = absurd (omega (arith, h))
  item_at-left zero (x ∷ xs) ys h = refl
  item_at-left (suc k) (x ∷ xs) ys h = item_at-left k xs ys (omega (arith, h))

-- The line is the heading of a section: the one before its first line.
abbrev pub HeadingAt : List (String × Section) → ℕ → Type 0
HeadingAt ss k = (key : String) × (s : Section) × Among (key, s) ss × (s.start_line ≡ k + 2)

-- The line is one of a section, which counts from its first line.
abbrev Located : List (String × Section) → ℕ → String → Type 0
Located ss k line =
    (key : String) × (s : Section) × (j : ℕ) × Among (key, s) ss
    × (item_at j s.lines ≡ some line)
    × (j + s.start_line ≡ k + 1)

abbrev Placed : List (String × Section) → ℕ → String → Type 0
Placed ss k line = HeadingAt ss k ⊎ Located ss k line

Placed-left :
    (ss ts : List (String × Section)) (k : ℕ) (line : String)
    → Placed ss k line
    → Placed (ss ++ ts) k line
Placed-left ss ts k line (inl (key, s, a, e)) = inl (key, s, Among-left (key, s) ss ts a, e)
Placed-left ss ts k line (inr (key, s, j, a, i, e)) =
    inr (key, s, j, Among-left (key, s) ss ts a, i, e)

behind :
    (k n : ℕ) (head line : String) (lines : List String)
    → n ≤ k
    → item_at (k - n) (head ∷ lines) ≡ some line
    → (n + 2 ≡ k + 2) ⊎ ((j : ℕ) × (item_at j lines ≡ some line) × (j + (n + 2) ≡ k + 1))
behind k n head line lines h e = cases (k - n) refl
  where
    cases :
        (d : ℕ)
        → k - n ≡ d
        → (n + 2 ≡ k + 2) ⊎ ((j : ℕ) × (item_at j lines ≡ some line) × (j + (n + 2) ≡ k + 1))
    cases zero q = inl (omega (arith, h, q))
    cases (suc d) q = inr (d, sym (ap (λ z. item_at z (head ∷ lines)) q) ∙ e, omega (arith, h, q))

Laid-Placed :
    (source : Option String) (ss : List (String × Section)) (lines : List String)
    (current : Section)
    → Laid source ss lines current
    → (k : ℕ) (line : String) → item_at k lines ≡ some line
    → Placed ss k line
Laid-Placed source _ lines _ (preamble _ q) k line e = inr (_, _, k, inl refl, e, refl)
Laid-Placed source _ _ _ (titled ss before prior head level title lines l f g fresh q) k line e =
    elim (Bool-cases (ltb k (length before))) [
      | inl small ↦ Placed-left ss _ k line (
          Laid-Placed source ss before prior l k line
            (sym (item_at-left k before (head ∷ lines) (ground arith)) ∙ e))
      | inr large ↦
          elim (behind k (length before) head line lines (ground arith)
            (sym (item_at-append k before (head ∷ lines) (ground arith)) ∙ e)) [
              | inl at ↦ inl (title, _, Among-last _ ss, at)
              | inr (j, i, at) ↦ inr (title, _, j, Among-last _ ss, i, at)
            ]
    ]

-- A span with the line number.
abbrev pub Hit : ℕ → BlockSpans → Type 0
Hit n [] = ⊥
Hit n (s ∷ spans) = ((s.1.0 ≤ n) × (n ≤ s.1.1)) ⊎ Hit n spans

Hit-left : (n : ℕ) (xs ys : BlockSpans) → Hit n xs → Hit n (xs ++ ys)
Hit-left n [] ys h = elim h [ ]
Hit-left n (x ∷ xs) ys (inl e) = inl e
Hit-left n (x ∷ xs) ys (inr h) = inr (Hit-left n xs ys h)

Hit-right : (n : ℕ) (xs ys : BlockSpans) → Hit n ys → Hit n (xs ++ ys)
Hit-right n [] ys h = h
Hit-right n (x ∷ xs) ys h = inr (Hit-right n xs ys h)

module _ (inline : String → List Run) (is_decimal : Char → Bool) where
  keyed_spans-Hit :
      (n : ℕ) (key : String) (o : ℕ) (out : List Spanned)
      → Inside n out
      → Hit n (keyed_spans inline is_decimal key o out)
  keyed_spans-Hit n key o [] h = elim h [ ]
  keyed_spans-Hit n key o (s ∷ out) (inl e) = inl e
  keyed_spans-Hit n key o (s ∷ out) (inr h) = inr (keyed_spans-Hit n key (suc o) out h)

  -- The spans of all sections, with those of every line that is not passed over.
  spans_from_lem :
      (sections rest : List (String × Section))
      → All (λ p. lookup p.0 sections ≡ some p.1) rest
      → (spans : BlockSpans) × (spans_from inline is_decimal sections (dict_keys rest) ≡ ok spans)
        × ((key : String) (s : Section) (j : ℕ) (line : String)
            → Among (key, s) rest
            → item_at j s.lines ≡ some line
            → skipped line ≡ false
            → Hit (j + s.start_line) spans)
  spans_from_lem sections [] h = ([], refl, λ key s j line a e d. elim a [ ])
  spans_from_lem sections ((key, s) ∷ rest) h =
      let parsed = parse_blocks_lem (section_parser inline is_decimal s) s.lines in
      let more = spans_from_lem sections rest h.1 in
      let here = keyed_spans inline is_decimal key 0 parsed.0 in
      (
        here ++ more.0,
        rw (h.0, ◌>>=◌) (rw (parsed.1, ◌>>=◌) (rw (more.1, ◌>>=◌))),
        λ k t j line a e d. elim a [
          | inr b ↦ Hit-right (j + t.start_line) here more.0 (more.2 k t j line b e d)
          | inl b ↦
              (let same_section : s ≡ t = ap (λ p. p.1) b in
                Hit-left (j + t.start_line) here more.0 (
                  subst (λ z. Hit (j + z.start_line) here) same_section
                    (keyed_spans-Hit (j + s.start_line) key 0 parsed.0 (
                      parse_blocks-Inside (section_parser inline is_decimal s) s.lines parsed.0
                        parsed.1 j line
                        (subst (λ z. item_at j z.lines ≡ some line) (sym same_section) e) d))))
        ],
      )

  -- If split_sections finds the sections of a file, block_spans returns, and the number in the
  -- file of every line that is neither blank nor a rule lies in the span of a block, or else the
  -- line is the heading of a section.
  pub block_spans-covers :
      (text path : String) (st : Splitter)
      → split_sections text (some path) ≡ ok st
      → (k : ℕ) (line : String) → item_at k (splitlines text) ≡ some line
      → skipped line ≡ false
      → (spans : BlockSpans) × (block_spans inline is_decimal text path ≡ ok spans)
        × (HeadingAt st.sections k ⊎ Hit (k + 1) spans)
  unfolding block_spans
  block_spans-covers text path st h k line e d =
      let fits = found (split_sections_lem text (some path)) in
      let all =
        spans_from_lem st.sections st.sections
          (lookup-pairs st.sections (subst NoDup fits.1 fits.2)) in
      (
        all.0,
        rw (h, ◌>>=◌) (ap (spans_from inline is_decimal st.sections) fits.1 ∙ all.1),
        elim (Laid-Placed (some path) st.sections (splitlines text) st.current fits.0 k line e) [
          | inl at ↦ inl at
          | inr (key, s, j, a, i, at) ↦ inr (subst (λ n. Hit n all.0) at (all.2 key s j line a i d))
        ],
      )
    where
      found :
          ((t : Splitter) × (split_sections text (some path) ≡ ok t)
              × Fits (some path) (splitlines text) t)
            ⊎ ((split_sections text (some path) ≡ err value_error)
                × Repeated (some path) (splitlines text))
          → Fits (some path) (splitlines text) st
      found (inl (t, q, f)) = subst (Fits (some path) (splitlines text)) (ok_inj t st (sym q ∙ h)) f
      found (inr (q, f)) = clash (sym q ∙ h)
        where
          clash : {P : Type 0} → err value_error ≡ ok st → P
          clash z = cc z
