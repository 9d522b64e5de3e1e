-- ===== src/Word/Ingest/Edits.antt =====
-- ingest_docx.py: what `apply_edits` does to each line.
use Prim.Native.Char.{Char, code}
use Prim.Native.String.{String}
use opcua_drafts.Prelude.{
  ℕ, zero, suc, Bool, true, false, Option, none, some, List, [], ◌∷◌, length, ltb, eqb, Result, ok,
  err, index_error, ingest_error, from_option, ◌≡◌, inl, inr, refl, sym, ◌∙◌, ap, arith, Bool-cases,
  bind_ok, ok_inj,
}
use text.Mathlib.TextEquality.{Char-path}
use opcua_drafts.Text.Lines.{join_with}
use opcua_drafts.Word.Ingest.{
  Edit, split_lf, insert_edit, later_first, count, replace_first, set_line, line_at, apply_all,
  apply_edits,
}

-- The edits of a line, in their order.
abbrev pub edits_at : ℕ → List Edit → List Edit
edits_at i [] = []
edits_at i (e ∷ es) = elim (eqb e.line i) [ true ↦ e ∷ edits_at i es | false ↦ edits_at i es ]

-- The line behind its edits.
abbrev pub text_after : List Edit → String → String
text_after [] line = line
text_after (e ∷ es) line = text_after es (replace_first e.before e.after line)

abbrev pub line_after : List Edit → Option String → Option String
line_after es none = none
line_after es (some line) = some (text_after es line)

one_line : (a b i : ℕ) → ltb a b ≡ true → eqb a i ≡ true → eqb b i ≡ false
one_line a b i h k = ground arith

edits_at-other :
    (i : ℕ) (e : Edit) (es : List Edit) → eqb e.line i ≡ false → edits_at i (e ∷ es) ≡ edits_at i es
edits_at-other i e es h = rw (h, edits_at)

edits_at-one :
    (i : ℕ) (e : Edit) (es : List Edit)
    → eqb e.line i ≡ true
    → edits_at i (e ∷ es) ≡ e ∷ edits_at i es
edits_at-one i e es h = rw (h, edits_at)

insert_edit-later :
    (e f : Edit) (fs : List Edit)
    → ltb e.line f.line ≡ true
    → insert_edit e (f ∷ fs) ≡ f ∷ insert_edit e fs
insert_edit-later e f fs h = rw (h, insert_edit)

-- Sorting keeps the order of the edits of a line.
edits_at-insert_edit :
    (i : ℕ) (e : Edit) (fs : List Edit) → edits_at i (insert_edit e fs) ≡ edits_at i (e ∷ fs)
edits_at-insert_edit i e [] = refl
edits_at-insert_edit i e (f ∷ fs) = elim (Bool-cases (ltb e.line f.line)) [
  | inr d ↦ rw (d, insert_edit)
  | inl d ↦
      (let rest = edits_at-insert_edit i e fs in
        ap (edits_at i) (insert_edit-later e f fs d) ∙ elim (Bool-cases (eqb e.line i)) [
          | inl a ↦
              (let other = one_line e.line f.line i d a in
                edits_at-other i f (insert_edit e fs) other
                ∙ rest
                ∙ edits_at-one i e fs a
                ∙ sym (edits_at-one i e (f ∷ fs) a ∙ ap (λ r. e ∷ r) (edits_at-other i f fs other)))
          | inr a ↦
              ap (λ r. elim (eqb f.line i) [ true ↦ f ∷ r | false ↦ r ])
                (rest ∙ edits_at-other i e fs a)
              ∙ sym (edits_at-other i e (f ∷ fs) a)
        ])
]

edits_at-later_first : (i : ℕ) (es : List Edit) → edits_at i (later_first es) ≡ edits_at i es
edits_at-later_first i [] = refl
edits_at-later_first i (e ∷ es) =
    edits_at-insert_edit i e (later_first es)
    ∙ ap (λ r. elim (eqb e.line i) [ true ↦ e ∷ r | false ↦ r ]) (edits_at-later_first i es)

length-set_line :
    (i : ℕ) (v : String) (lines : List String) → length (set_line i v lines) ≡ length lines
length-set_line i v [] = refl
length-set_line zero v (l ∷ lines) = refl
length-set_line (suc i) v (l ∷ lines) = ap suc (length-set_line i v lines)

line_at-set_line :
    (i : ℕ) (old v : String) (lines : List String)
    → line_at i lines ≡ some old
    → line_at i (set_line i v lines) ≡ some v
line_at-set_line i old v [] h = cc h
line_at-set_line zero old v (l ∷ lines) h = refl
line_at-set_line (suc i) old v (l ∷ lines) h = line_at-set_line i old v lines h

line_at-set_other :
    (i j : ℕ) (v : String) (lines : List String)
    → eqb i j ≡ false
    → line_at j (set_line i v lines) ≡ line_at j lines
line_at-set_other i j v [] h = refl
line_at-set_other zero zero v (l ∷ lines) h = ground arith
line_at-set_other zero (suc j) v (l ∷ lines) h = refl
line_at-set_other (suc i) zero v (l ∷ lines) h = refl
line_at-set_other (suc i) (suc j) v (l ∷ lines) h = line_at-set_other i j v lines (ground arith)

found : (o : Option String) (line : String) → from_option index_error o ≡ ok line → o ≡ some line
found none line h = cc h
found (some l) line h = cc h

checked :
    (b : Bool) (r : Result (List String)) (out : List String)
    → elim b [ true ↦ r | false ↦ err ingest_error ] ≡ ok out
    → (r ≡ ok out)
checked true r out h = h
checked false r out h = cc h

apply_all_lem :
    (es : List Edit) (lines out : List String)
    → apply_all es lines ≡ ok out
    → (length out ≡ length lines)
      × ((i : ℕ) → line_at i out ≡ line_after (edits_at i es) (line_at i lines))
apply_all_lem [] lines out h = (ap length (sym (ok_inj lines out h)), λ i. unedited i)
  where
    unedited : (i : ℕ) → line_at i out ≡ line_after [] (line_at i lines)
    unedited i = ap (line_at i) (sym (ok_inj lines out h)) ∙ same_text (line_at i lines)
      where
        same_text : (o : Option String) → o ≡ line_after [] o
        same_text none = refl
        same_text (some l) = refl
apply_all_lem (e ∷ es) lines out h =
    let one = bind_ok (from_option index_error (line_at e.line lines)) _ out h in
    let at = found (line_at e.line lines) one.0 one.1 in
    let new = replace_first e.before e.after one.0 in
    let rest =
      apply_all_lem es (set_line e.line new lines) out
        (checked (eqb (count e.before one.0) 1) _ out one.2) in
    (
      rest.0 ∙ length-set_line e.line new lines,
      λ i. rest.1 i ∙ step i (edits_at i es) one.0 new at refl,
    )
  where
    step :
        (i : ℕ) (later : List Edit) (old new : String)
        → line_at e.line lines ≡ some old
        → new ≡ replace_first e.before e.after old
        → line_after later (line_at i (set_line e.line new lines))
          ≡ line_after (elim (eqb e.line i) [ true ↦ e ∷ later | false ↦ later ]) (line_at i lines)
    step i later old new at made = elim (Bool-cases (eqb e.line i)) [
      | inl d ↦
          (let here : e.line ≡ i = ground arith in
            rw (d) (
              ap (line_after later) (
                ap (λ n. line_at n (set_line e.line new lines)) (sym here)
                ∙ line_at-set_line e.line old new lines at)
              ∙ ap (λ t. some (text_after later t)) made
              ∙ sym (ap (line_after (e ∷ later)) (ap (λ n. line_at n lines) (sym here) ∙ at))))
      | inr d ↦ rw (d) (ap (line_after later) (line_at-set_other e.line i new lines d))
    ]

-- If apply_edits returns, it has joined as many lines as the text has, and each of them is the
-- line of the text behind its own edits in the order in which they were given.
pub apply_edits_lem :
    (text : String) (edits : List Edit) (new : String)
    → apply_edits text edits ≡ ok new
    → (out : List String) × (new ≡ join_with "\n" out)
      × (length out ≡ length (split_lf text))
      × ((i : ℕ) → line_at i out ≡ line_after (edits_at i edits) (line_at i (split_lf text)))
unfolding apply_edits
apply_edits_lem text edits new h =
    let one = bind_ok (apply_all (later_first edits) (split_lf text)) _ new h in
    let all = apply_all_lem (later_first edits) (split_lf text) one.0 one.1 in
    (
      one.0,
      sym (ok_inj _ new one.2),
      all.0,
      λ i.
          all.1 i
          ∙ ap (λ es. line_after es (line_at i (split_lf text))) (edits_at-later_first i edits),
    )

join_more :
    (c : Char) (l : String) (ls : List String)
    → join_with "\n" (String.◌∷◌ c l ∷ ls) ≡ String.◌∷◌ c (join_with "\n" (l ∷ ls))
join_more c l [] = refl
join_more c l (m ∷ ls) = refl

split_some : (s : String) → (l : String) × (ls : List String) × (split_lf s ≡ l ∷ ls)
split_some String.[] = ("", [], refl)
split_some (String.◌∷◌ c s) = elim (Bool-cases (eqb (code c) 10)) [
  | inl e ↦ ("", split_lf s, rw (e, split_lf))
  | inr e ↦ (let r = split_some s in (String.◌∷◌ c r.0, r.1, rw (e, split_lf) (rw (r.2))))
]

join-split : (s : String) → join_with "\n" (split_lf s) ≡ s
join-split String.[] = refl
join-split (String.◌∷◌ c s) = elim (Bool-cases (eqb (code c) 10)) [
  | inl e ↦
      (let r = split_some s in
        rw (e, split_lf)
          (ap (λ ls. join_with "\n" ("" ∷ ls)) r.2
            ∙ ap (String.◌∷◌ "\n") (ap (join_with "\n") (sym r.2) ∙ join-split s)
            ∙ ap (λ d. String.◌∷◌ d s) (sym (line_feed c e))))
  | inr e ↦
      (let r = split_some s in
        rw (e, split_lf)
          (rw (r.2) (
            join_more c r.0 r.1
            ∙ ap (String.◌∷◌ c) (ap (join_with "\n") (sym r.2) ∙ join-split s))))
]
  where
    line_feed : (d : Char) → eqb (code d) 10 ≡ true → d ≡ "\n"
    line_feed d e = Char-path d "\n" (ground arith)

-- Without edits, apply_edits gives the text back.
apply_edits-none : (text : String) → apply_edits text [] ≡ ok text
unfolding apply_edits
apply_edits-none text = ap ok (join-split text)
