-- ===== src/Word/Markdown/Sections/Split.antt =====
-- opcdocx/md_parse.py: `split_sections` divides the lines of a document into its sections.
use opcua_drafts.Prelude.{
  ℕ, suc, ◌+◌, String, true, false, Option, none, some, List, [], ◌∷◌, ◌++◌, length, length-append,
  elem, NoDup, NoDup-append_one, dict_keys, dict_keys-append, set, set-fresh, Result, ok, err,
  value_error, ◌≡◌, ◌⊎◌, inl, inr, refl, sym, ◌∙◌, ap, subst, append_assoc, append-nil, arith,
  Bool-cases, Option-cases,
}
use opcua_drafts.Text.Lines.{splitlines}
use opcua_drafts.Word.Markdown.{heading}
use opcua_drafts.Word.Markdown.Sections.{
  Section, Splitter, in_fence, titled_section, opens, keep_line, open_section, split_from,
  splitter_start, split_sections,
}
use opcua_drafts.Word.Markdown.Sections.Laid.{Inner, Laid, preamble, titled, Laid-with_line}

-- The state behind some lines.
abbrev pub Fits : Option String → List String → Splitter → Type 0
Fits source done st =
    Laid source st.sections done st.current × (st.order ≡ dict_keys st.sections) × NoDup st.order

-- A heading outside a fence repeats the key of a section before it.
abbrev pub Repeated : Option String → List String → Type 0
Repeated source all =
    (done rest : List String) × (line : String) × (ss : List (String × Section))
    × (current : Section) × (h : ℕ × String) × (all ≡ done ++ line ∷ rest)
    × Laid source ss done current
    × (in_fence current.lines ≡ false)
    × (heading line ≡ some h)
    × (elem h.1 (dict_keys ss) ≡ true)

abbrev Outcome : Option String → List String → Result Splitter → Type 0
Outcome source all result =
    ((st : Splitter) × (result ≡ ok st) × Fits source all st)
    ⊎ ((result ≡ err value_error) × Repeated source all)

keep_line-Fits :
    (source : Option String) (done : List String) (st : Splitter) (line : String)
    → Fits source done st
    → Inner line (in_fence st.current.lines)
    → Fits source (done ++ line ∷ []) (keep_line line st)
keep_line-Fits source done st line h k =
    let l = Laid-with_line source st.sections done st.current line h.0 k in
    (l.0, h.1 ∙ sym l.1, h.2)

open_section-Fits :
    (source : Option String) (done : List String) (st : Splitter) (line : String) (h : ℕ × String)
    → Fits source done st
    → in_fence st.current.lines ≡ false
    → heading line ≡ some h
    → elem h.1 (dict_keys st.sections) ≡ false
    → Fits source (done ++ line ∷ []) (open_section source (suc (length done)) h st)
open_section-Fits source done st line h f closed e fresh =
    let now = titled_section source h.0 h.1 (length done + 2) [] in
    let placed : set h.1 (titled_section source h.0 h.1 (suc (length done) + 1) []) st.sections
        ≡ st.sections ++ (h.1, now) ∷ [] =
      ap (λ n. set h.1 (titled_section source h.0 h.1 n []) st.sections) (next_line (length done))
      ∙ set-fresh h.1 now st.sections fresh in
    (
      subst
          (λ d.
            Laid source d (done ++ line ∷ [])
              (titled_section source h.0 h.1 (suc (length done) + 1) []))
          (sym placed)
          (subst
            (λ n.
              Laid source (st.sections ++ (h.1, now) ∷ []) (done ++ line ∷ [])
                (titled_section source h.0 h.1 n []))
            (sym (next_line (length done)))
            (titled st.sections done st.current line h.0 h.1 [] f.0 closed e fresh tt)),
      ap (λ ks. ks ++ h.1 ∷ []) f.1
          ∙ sym (ap dict_keys placed ∙ dict_keys-append st.sections ((h.1, now) ∷ [])),
      NoDup-append_one st.order h.1 f.2 (ap (elem h.1) f.1 ∙ fresh),
    )
  where
    next_line : (n : ℕ) → suc n + 1 ≡ n + 2
    next_line n = omega arith

-- What the loop does behind the next line.
abbrev Goes : Option String → List String → List String → String → Type 0
Goes source done lines line =
    (next : Splitter)
    → Fits source (done ++ line ∷ []) next
    → Outcome source (done ++ line ∷ lines) (split_from source (suc (suc (length done))) lines next)

split_from-kept :
    (source : Option String) (n : ℕ) (lines : List String) (line : String) (st : Splitter)
    → opens st.current line ≡ none
    → split_from source n (line ∷ lines) st ≡ split_from source (suc n) lines (keep_line line st)
unfolding split_from
split_from-kept source n lines line st e =
    ap
      (λ o. elim o [
        | none ↦ split_from source (suc n) lines (keep_line line st)
        | some h ↦ elim (elem h.1 (dict_keys st.sections)) [
          | true ↦ err value_error
          | false ↦ split_from source (suc n) lines (open_section source n h st)
        ]
      ])
      e

split_from-opened :
    (source : Option String) (n : ℕ) (lines : List String) (line : String) (st : Splitter)
    (h : ℕ × String)
    → opens st.current line ≡ some h
    → split_from source n (line ∷ lines) st ≡ elim (elem h.1 (dict_keys st.sections)) [
      | true ↦ err value_error
      | false ↦ split_from source (suc n) lines (open_section source n h st)
    ]
unfolding split_from
split_from-opened source n lines line st h e =
    ap
      (λ o. elim o [
        | none ↦ split_from source (suc n) lines (keep_line line st)
        | some h ↦ elim (elem h.1 (dict_keys st.sections)) [
          | true ↦ err value_error
          | false ↦ split_from source (suc n) lines (open_section source n h st)
        ]
      ])
      e

-- Whether a line opens a section.
opens-cases :
    (current : Section) (line : String)
    → ((opens current line ≡ none) × Inner line (in_fence current.lines))
      ⊎ ((h : ℕ × String) × (opens current line ≡ some h)
          × (heading line ≡ some h)
          × (in_fence current.lines ≡ false))
opens-cases current line = elim (Option-cases (heading line)) [
  | inl e ↦ inl (rw (e, opens), inl e)
  | inr (h, e) ↦ elim (Bool-cases (in_fence current.lines)) [
    | inl d ↦ inl (rw (e, opens) (rw (d, opens)), inr d)
    | inr d ↦ inr (h, rw (e, opens) (rw (d, opens)), e, d)
  ]
]

split_step :
    (source : Option String) (lines done : List String) (line : String) (st : Splitter)
    → Fits source done st
    → Goes source done lines line
    → Outcome source
        (done ++ line ∷ lines)
        (split_from source (suc (length done)) (line ∷ lines) st)
split_step source lines done line st f rest = elim (opens-cases st.current line) [
  | inl (e, k) ↦
      subst (Outcome source (done ++ line ∷ lines))
        (sym (split_from-kept source (suc (length done)) lines line st e))
        (rest (keep_line line st) (keep_line-Fits source done st line f k))
  | inr (h, e, found, closed) ↦
      (let step = split_from-opened source (suc (length done)) lines line st h e in
        elim (Bool-cases (elem h.1 (dict_keys st.sections))) [
          | inl b ↦ inr (
            step ∙ rw (b),
            (done, lines, line, st.sections, st.current, h, refl, f.0, closed, found, b),
          )
          | inr b ↦ subst (Outcome source (done ++ line ∷ lines)) (sym (step ∙ rw (b))) (
              rest (open_section source (suc (length done)) h st)
                (open_section-Fits source done st line h f closed found b))
        ])
]

one_more : (n : ℕ) → n + 1 ≡ suc n
one_more n = omega arith

split_from_lem :
    (source : Option String) (lines done : List String) (st : Splitter)
    → Fits source done st
    → Outcome source (done ++ lines) (split_from source (suc (length done)) lines st)
split_from_lem source [] done st f =
    inl (st, unfold split_from in refl, subst (λ ls. Fits source ls st) (sym (append-nil done)) f)
split_from_lem source (line ∷ lines) done st f = split_step source lines done line st f λ next g.
    subst (λ ls. Outcome source ls (split_from source (suc (suc (length done))) lines next))
      (append_assoc done (line ∷ []) lines)
      (subst
        (λ n. Outcome source ((done ++ line ∷ []) ++ lines) (split_from source (suc n) lines next))
        (length-append done (line ∷ []) ∙ one_more (length done))
        (split_from_lem source lines (done ++ line ∷ []) next g))

-- For every text, split_sections returns sections that cover its lines (a preamble, and for each
-- heading outside a fence the lines up to the next one, at its line number), in the order of the
-- lines and under distinct keys; or it raises ValueError, and a heading outside a fence repeats
-- the key of a section before it.
pub split_sections_lem :
    (text : String) (source : Option String)
    → ((st : Splitter) × (split_sections text source ≡ ok st) × Fits source (splitlines text) st)
      ⊎ ((split_sections text source ≡ err value_error) × Repeated source (splitlines text))
unfolding split_sections
split_sections_lem text source =
    split_from_lem source (splitlines text) [] (splitter_start source)
      (preamble [] tt, refl, (refl, tt))
