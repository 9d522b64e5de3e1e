-- ===== src/Word/Ingest/Hits.antt =====
-- ingest_docx.py: `locate` finds the places of a text in the lines of a block.
use Prim.Native.Char.{Char}
use Prim.Native.String.{String}
use opcua_drafts.Prelude.{
  ℕ, zero, suc, ◌+◌, ◌-◌, ◌<◌, true, false, Option, none, some, List, [], ◌∷◌, ◌++◌, length, take,
  drop, map, ok, ◌>>=◌, ◌≡◌, inl, inr, refl, sym, ◌∙◌, ap, subst, arith, Bool-cases, Option-cases,
}
use opcua_drafts.Text.{is_empty}
use opcua_drafts.Text.Lines.{startswith}
use opcua_drafts.Word.Ingest.{
  slice_from, find_text, find_from, hits_from, hits_in, hits_of, least, locate,
}
use opcua_drafts.Text.{text_length}

-- The positions, from an index on, at which the rest of the text begins with the needle.
abbrev pub occurrences : String → ℕ → String → List ℕ
occurrences needle i String.[] = elim (is_empty needle) [ true ↦ i ∷ [] | false ↦ [] ]
occurrences needle i (String.◌∷◌ c s) =
    let rest = occurrences needle (suc i) s in
    elim (startswith needle (String.◌∷◌ c s)) [ true ↦ i ∷ rest | false ↦ rest ]

abbrev behind : String → ℕ → Option String → List ℕ
behind needle i none = []
behind needle i (some rest) = occurrences needle i rest

some_is {ℓ} : {A : Type ℓ} {x y : A} → some x ≡ some y → x ≡ y
some_is h = cc h

none_is {ℓ κ} : {A : Type ℓ} {P : Type κ} {x : A} → none ≡ some x → P
none_is h = cc h

some_none {ℓ κ} : {A : Type ℓ} {P : Type κ} {x : A} → some x ≡ none → P
some_none h = cc h

find_text-end :
    (needle : String)
    → find_text needle String.[] ≡ elim (is_empty needle) [ true ↦ some 0 | false ↦ none ]
unfolding find_text
find_text-end needle = refl

find_text-here :
    (needle s : String) (c : Char)
    → startswith needle (String.◌∷◌ c s) ≡ true
    → find_text needle (String.◌∷◌ c s) ≡ some 0
unfolding find_text
find_text-here needle s c e = rw (e, find_text)

abbrev next_index : Option ℕ → Option ℕ
next_index none = none
next_index (some k) = some (suc k)

find_text-later :
    (needle s : String) (c : Char)
    → startswith needle (String.◌∷◌ c s) ≡ false
    → find_text needle (String.◌∷◌ c s) ≡ next_index (find_text needle s)
unfolding find_text
find_text-later needle s c e =
    rw (e, find_text)
      (elim (Option-cases (find_text needle s)) [
        | inl d ↦ rw (d, next_index)
        | inr (k, d) ↦ rw (d, next_index)
      ])

-- The first place, and those behind it.
Split : String → ℕ → String → Option ℕ → Type 0
Split needle i s none = occurrences needle i s ≡ []
Split needle i s (some k) =
    occurrences needle i s ≡ (i + k) ∷ behind needle (i + k + 1) (slice_from (suc k) s)

plus_zero : (n : ℕ) → n ≡ n + 0
plus_zero n = omega arith

one_more : (a b : ℕ) → suc a + b ≡ a + suc b
one_more a b = omega arith

later_Split :
    (needle : String) (i : ℕ) (c : Char) (s : String) (o : Option ℕ)
    → startswith needle (String.◌∷◌ c s) ≡ false
    → Split needle (suc i) s o
    → Split needle i (String.◌∷◌ c s) (next_index o)
unfolding Split
later_Split needle i c s none e h = rw (e, occurrences) h
later_Split needle i c s (some k) e h =
    rw (e, occurrences)
      (h ∙ ap (λ n. n ∷ behind needle (n + 1) (slice_from (suc k) s)) (one_more i k))

end_some : (needle : String) (i : ℕ) → is_empty needle ≡ true → Split needle i String.[] (some 0)
unfolding Split
end_some needle i e = rw (e, occurrences) (ap (λ n. n ∷ []) (plus_zero i))

end_none : (needle : String) (i : ℕ) → is_empty needle ≡ false → Split needle i String.[] none
unfolding Split
end_none needle i e = rw (e, occurrences)

end_Split :
    (needle : String) (i : ℕ)
    → Split needle i String.[] (elim (is_empty needle) [ true ↦ some 0 | false ↦ none ])
end_Split needle i = elim (Bool-cases (is_empty needle)) [
  | inl e ↦ rw (e) (end_some needle i e)
  | inr e ↦ rw (e) (end_none needle i e)
]

here_Split :
    (needle : String) (i : ℕ) (c : Char) (s : String)
    → startswith needle (String.◌∷◌ c s) ≡ true
    → Split needle i (String.◌∷◌ c s) (some 0)
unfolding Split
here_Split needle i c s e =
    rw (e, occurrences)
      (ap (λ n. i ∷ occurrences needle n s) (next i)
        ∙ ap (λ n. n ∷ occurrences needle (i + 0 + 1) s) (plus_zero i))
  where
    next : (n : ℕ) → suc n ≡ n + 0 + 1
    next n = omega arith

find_text-Split : (needle : String) (i : ℕ) (s : String) → Split needle i s (find_text needle s)
find_text-Split needle i String.[] =
    subst (Split needle i String.[]) (sym (find_text-end needle)) (end_Split needle i)
find_text-Split needle i (String.◌∷◌ c s) = elim (Bool-cases (startswith needle (String.◌∷◌ c s))) [
  | inl e ↦
      subst (Split needle i (String.◌∷◌ c s)) (sym (find_text-here needle s c e))
        (here_Split needle i c s e)
  | inr e ↦
      subst (Split needle i (String.◌∷◌ c s)) (sym (find_text-later needle s c e))
        (later_Split needle i c s (find_text needle s) e (find_text-Split needle (suc i) s))
]

slice_from-add :
    (start m : ℕ) (line rest : String)
    → slice_from start line ≡ some rest
    → slice_from (start + m) line ≡ slice_from m rest
slice_from-add zero m line rest h =
    ap (λ n. slice_from n line) (omega arith) ∙ ap (slice_from m) (some_is h)
slice_from-add (suc start) m String.[] rest h = none_is h
slice_from-add (suc start) m (String.◌∷◌ c s) rest h =
    ap (λ n. slice_from n (String.◌∷◌ c s)) (moved start m) ∙ slice_from-add start m s rest h
  where
    moved : (a b : ℕ) → suc a + b ≡ suc (a + b)
    moved a b = omega arith

slice_from-text_length :
    (m : ℕ) (s rest : String) → slice_from m s ≡ some rest → text_length rest + m ≡ text_length s
slice_from-text_length zero s rest h =
    ap (λ n. n + 0) (ap text_length (sym (some_is h))) ∙ omega arith
slice_from-text_length (suc m) String.[] rest h = none_is h
slice_from-text_length (suc m) (String.◌∷◌ c s) rest h =
    omega (arith, slice_from-text_length m s rest h)

hits_from-none :
    (n : ℕ) (needle : String) (start : ℕ) (line : String)
    → find_from needle start line ≡ none
    → hits_from (suc n) needle start line ≡ ok []
unfolding hits_from
hits_from-none n needle start line e = rw (e, hits_from)

hits_from-some :
    (n : ℕ) (needle : String) (start : ℕ) (line : String) (at : ℕ) (rest : List ℕ)
    → find_from needle start line ≡ some at
    → hits_from n needle (at + 1) line ≡ ok rest
    → hits_from (suc n) needle start line ≡ ok (at ∷ rest)
unfolding hits_from
hits_from-some n needle start line at rest e h = rw (e, hits_from) (rw (h, ◌>>=◌))

Split-none :
    (needle : String) (i : ℕ) (s : String) → Split needle i s none → occurrences needle i s ≡ []
unfolding Split
Split-none needle i s h = h

Split-some :
    (needle : String) (i k : ℕ) (s : String)
    → Split needle i s (some k)
    → occurrences needle i s ≡ (i + k) ∷ behind needle (i + k + 1) (slice_from (suc k) s)
unfolding Split
Split-some needle i k s h = h

hits_from_lem :
    (n : ℕ) (needle : String) (start : ℕ) (line : String) (o : Option String)
    → slice_from start line ≡ o
    → ((rest : String) → o ≡ some rest → suc (text_length rest) < n)
    → 0 < n
    → hits_from n needle start line ≡ ok (behind needle start o)
hits_from_lem zero needle start line o h f z = absurd (omega (arith, z))
hits_from_lem (suc n) needle start line none h f z =
    hits_from-none n needle start line (rw (h, find_from))
hits_from_lem (suc n) needle start line (some rest) h f z =
    let split = find_text-Split needle start rest in
    let small = f rest refl in
    elim (Option-cases (find_text needle rest)) [
      | inl e ↦
          hits_from-none n needle start line (rw (h, find_from) (rw (e)))
          ∙ ap ok (sym (Split-none needle start rest (subst (Split needle start rest) e split)))
      | inr (k, e) ↦
          hits_from-some n needle start line (start + k) _ (rw (h, find_from) (rw (e))) (
            hits_from_lem n needle (start + k + 1) line (slice_from (suc k) rest)
              (ap (λ m. slice_from m line) (shifted start k)
                ∙ slice_from-add start (suc k) line rest h)
              (λ r q. omega (arith, small, slice_from-text_length (suc k) rest r q))
              (omega (arith, small)))
          ∙ ap ok (sym (Split-some needle start k rest (subst (Split needle start rest) e split)))
    ]
  where
    shifted : (a b : ℕ) → a + b + 1 ≡ a + suc b
    shifted a b = omega arith

pub hits_in_lem : (needle line : String) → hits_in needle line ≡ ok (occurrences needle 0 line)
hits_in_lem needle line =
    hits_from_lem (suc (suc (text_length line))) needle 0 line (some line) refl
      (λ rest q.
        subst (λ r. suc (text_length r) < suc (suc (text_length line))) (some_is q) (omega arith))
      (omega arith)

-- The places in the lines of a span, by the positions of the occurrences in each line.
abbrev pub places : String → ℕ → List String → List (ℕ × ℕ)
places needle i [] = []
places needle i (line ∷ lines) =
    map (λ at. (i, at)) (occurrences needle 0 line) ++ places needle (suc i) lines

hits_of_lem :
    (needle : String) (i : ℕ) (lines : List String)
    → hits_of needle i lines ≡ ok (places needle i lines)
hits_of_lem needle i [] = refl
hits_of_lem needle i (line ∷ lines) =
    rw (hits_in_lem needle line, ◌>>=◌) (rw (hits_of_lem needle (suc i) lines, ◌>>=◌))

-- locate returns, and its hits are the positions at which a line of the span, within the lines of
-- the file, goes on with the text: those of the reference definition `occurrences`, which looks at
-- every position of every line.
pub locate_lem :
    (lines : List String) (span : ℕ × ℕ) (needle : String)
    → locate lines span needle
      ≡ ok (
          places needle
            (span.0 - 1)
            (take (least span.1 (length lines) - (span.0 - 1)) (drop (span.0 - 1) lines)))
unfolding locate
locate_lem lines span needle = hits_of_lem needle (span.0 - 1) _
