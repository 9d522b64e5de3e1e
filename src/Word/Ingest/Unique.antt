-- ===== src/Word/Ingest/Unique.antt =====
-- ingest_docx.py: an edit whose replaced text stands once in its line applies.
use Prim.Native.String.{String}
use opcua_drafts.Prelude.{
  ℕ, zero, suc, ◌-◌, false, some, List, [], ◌∷◌, ok, ◌>>=◌, ◌≡◌, inl, inr, refl, sym, ◌∙◌, ap,
  Bool-cases, cons_none, tail_none, none_cons,
}
use opcua_drafts.Text.{is_empty, text_length}
use opcua_drafts.Text.Lines.{startswith, join_with}
use opcua_drafts.Word.Ingest.{
  Edit, split_lf, count_from, count, replace_first, set_line, line_at, apply_edits,
}
use opcua_drafts.Word.Ingest.Hits.{occurrences}

-- The replaced text is not empty and stands at one place of its line.
abbrev pub Unique : List String → Edit → Type 0
Unique lines e =
    (is_empty e.before ≡ false)
    × ((line : String) × (at : ℕ) × (line_at e.line lines ≡ some line)
        × (occurrences e.before 0 line ≡ at ∷ []))

count-none :
    (needle : String) (i : ℕ) (s : String)
    → occurrences needle i s ≡ []
    → (left : ℕ) → count_from left needle s ≡ 0
count-none needle i String.[] h left = refl
count-none needle i (String.◌∷◌ c s) h left =
    elim (Bool-cases (startswith needle (String.◌∷◌ c s))) [
      | inl e ↦ cons_none i (occurrences needle (suc i) s) (sym (rw (e, occurrences)) ∙ h)
      | inr e ↦ go left e (count-none needle (suc i) s (sym (rw (e, occurrences)) ∙ h))
    ]
  where
    go :
        (n : ℕ)
        → startswith needle (String.◌∷◌ c s) ≡ false
        → ((k : ℕ) → count_from k needle s ≡ 0)
        → count_from n needle (String.◌∷◌ c s) ≡ 0
    go zero e k = rw (e, count_from) (k 0)
    go (suc n) e k = k n

count-one :
    (needle : String) (i at : ℕ) (s : String)
    → is_empty needle ≡ false
    → occurrences needle i s ≡ at ∷ []
    → count_from 0 needle s ≡ 1
count-one needle i at String.[] n h = none_cons at [] (sym (rw (n, occurrences)) ∙ h)
count-one needle i at (String.◌∷◌ c s) n h =
    elim (Bool-cases (startswith needle (String.◌∷◌ c s))) [
      | inl e ↦
          rw (e, count_from)
            (ap suc (
              count-none needle (suc i) s
                (tail_none i at (occurrences needle (suc i) s) (sym (rw (e, occurrences)) ∙ h))
                (text_length needle - 1)))
      | inr e ↦ rw (e, count_from) (count-one needle (suc i) at s n (sym (rw (e, occurrences)) ∙ h))
    ]

-- A unique edit applies.
pub Unique-applies :
    (text : String) (e : Edit)
    → Unique (split_lf text) e
    → (new : String) × (apply_edits text (e ∷ []) ≡ ok new)
unfolding apply_edits
Unique-applies text e (n, (line, at, here, one)) = (
  join_with "\n" (set_line e.line (replace_first e.before e.after line) (split_lf text)),
  rw (here, ◌>>=◌) (rw (once, ◌>>=◌)),
)
  where
    once : count e.before line ≡ 1
    once = rw (n, count) (count-one e.before 0 at line n one)
