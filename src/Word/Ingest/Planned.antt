-- ===== src/Word/Ingest/Planned.antt =====
-- ingest_docx.py: an edit that plan_paragraph_edit plans can be applied.
use Prim.Native.Char.{Char}
use Prim.Native.String.{String}
use opcua_drafts.Prelude.{
  ℕ, zero, suc, ◌+◌, ◌-◌, Bool, false, Option, none, some, List, [], ◌∷◌, ◌++◌, length, take, drop,
  map, ok, bind_ok, ok_inj, ◌≡◌, ◌⊎◌, inl, inr, refl, sym, ◌∙◌, ap, subst, arith, Bool-cases,
  cons_none, tail_none, head_same, none_cons,
}
use opcua_drafts.Text.{is_empty}
use opcua_drafts.Word.DocModel.{Run}
use opcua_drafts.Word.Ingest.{block_spans, locate, least, Edit, split_lf, line_at, apply_edits}
use opcua_drafts.Word.Ingest.Hits.{occurrences, places, locate_lem}
use opcua_drafts.Word.Ingest.Plan.{
  Opcode, widen, no_anchor, Refusal, BlockAddress, for_hits, for_needle, plan_each, span_of, Cache,
  set_default, diff_spans, plan_in_block, plan_paragraph_edit,
}
use opcua_drafts.Word.Ingest.Unique.{Unique, Unique-applies}

abbrev pub Planned : Edit → List Edit → Type 0
Planned e [] = ⊥
Planned e (f ∷ fs) = (f ≡ e) ⊎ Planned e fs

Planned-append : (e : Edit) (xs ys : List Edit) → Planned e (xs ++ ys) → Planned e xs ⊎ Planned e ys
Planned-append e [] ys h = inr h
Planned-append e (x ∷ xs) ys (inl h) = inl (inl h)
Planned-append e (x ∷ xs) ys (inr h) = elim (Planned-append e xs ys h) [
  | inl k ↦ inl (inr k)
  | inr k ↦ inr k
]

line_at-take :
    (n j : ℕ) (xs : List String) (l : String)
    → line_at j (take n xs) ≡ some l
    → line_at j xs ≡ some l
line_at-take zero j xs l h = cc h
line_at-take (suc n) j [] l h = h
line_at-take (suc n) zero (x ∷ xs) l h = h
line_at-take (suc n) (suc j) (x ∷ xs) l h = line_at-take n j xs l h

line_at-drop : (m j : ℕ) (xs : List String) → line_at j (drop m xs) ≡ line_at (m + j) xs
line_at-drop zero j xs = ap (λ n. line_at n xs) (omega arith)
line_at-drop (suc m) j [] = refl
line_at-drop (suc m) j (x ∷ xs) = line_at-drop m j xs ∙ ap (λ n. line_at n (x ∷ xs)) (moved m j)
  where
    moved : (a b : ℕ) → suc (a + b) ≡ suc a + b
    moved a b = omega arith

-- The line of the only place.
abbrev Only : String → ℕ → ℕ → ℕ → List String → Type 0
Only needle i k at lines =
    (j : ℕ) × (line : String) × (k ≡ i + j)
    × (line_at j lines ≡ some line)
    × (occurrences needle 0 line ≡ at ∷ [])

no_more : (i : ℕ) (xs : List ℕ) (ys : List (ℕ × ℕ)) → map (λ at. (i, at)) xs ++ ys ≡ [] → xs ≡ []
no_more i [] ys h = refl
no_more i (x ∷ xs) ys h = cons_none (i, x) (map (λ at. (i, at)) xs ++ ys) h

first_line :
    (needle : String) (i k at : ℕ) (line : String) (lines : List String) (o : List ℕ)
    → occurrences needle 0 line ≡ o
    → map (λ a. (i, a)) o ++ places needle (suc i) lines ≡ (k, at) ∷ []
    → (places needle (suc i) lines ≡ (k, at) ∷ []) ⊎ Only needle i k at (line ∷ lines)
first_line needle i k at line lines [] e h = inl h
first_line needle i k at line lines (x ∷ xs) e h =
    let both = head_same (i, x) (k, at) _ [] h in
    let nothing = no_more i xs _ (tail_none (i, x) (k, at) _ h) in
    inr (
      0,
      line,
      sym (ap (λ p. p.0) both) ∙ plus_none i,
      refl,
      e ∙ ap (λ z. x ∷ z) nothing ∙ ap (λ z. z ∷ []) (ap (λ p. p.1) both),
    )
  where
    plus_none : (n : ℕ) → n ≡ n + 0
    plus_none n = omega arith

places-Only :
    (needle : String) (i k at : ℕ) (lines : List String)
    → places needle i lines ≡ (k, at) ∷ []
    → Only needle i k at lines
places-Only needle i k at [] h = none_cons (k, at) [] h
places-Only needle i k at (line ∷ lines) h =
    elim (first_line needle i k at line lines (occurrences needle 0 line) refl h) [
      | inr found ↦ found
      | inl rest ↦
          (let (j, l, e, here, one) = places-Only needle (suc i) k at lines rest in
            (suc j, l, e ∙ shifted i j, here, one))
    ]
  where
    shifted : (a b : ℕ) → suc a + b ≡ a + suc b
    shifted a b = omega arith

locate-Unique :
    (lines : List String) (span : ℕ × ℕ) (needle replacement : String) (hit : ℕ × ℕ)
    → is_empty needle ≡ false
    → locate lines span needle ≡ ok (hit ∷ [])
    → Unique lines (record { line = hit.0; before = needle; after = replacement })
locate-Unique lines span needle replacement hit n h =
    let first = span.0 - 1 in
    let size = least span.1 (length lines) - first in
    let (j, line, e, here, one) =
      places-Only needle first hit.0 hit.1 (take size (drop first lines))
        (ok_inj _ _ (sym (locate_lem lines span needle) ∙ h)) in
    (
      n,
      (
        line,
        hit.1,
        ap (λ k. line_at k lines) e
            ∙ sym (line_at-drop first j lines)
            ∙ line_at-take size j (drop first lines) line here,
        one,
      ),
    )

for_hits-Unique :
    (lines : List String) (span : ℕ × ℕ) (needle replacement : String) (hits : List (ℕ × ℕ))
    (e : Edit)
    → is_empty needle ≡ false
    → locate lines span needle ≡ ok hits
    → Planned e (for_hits needle replacement hits).0
    → Unique lines e
for_hits-Unique lines span needle replacement [] e n h k = elim k [ ]
for_hits-Unique lines span needle replacement (hit ∷ []) e n h (inl k) =
    subst (Unique lines) k (locate-Unique lines span needle replacement hit n h)
for_hits-Unique lines span needle replacement (hit ∷ []) e n h (inr k) = elim k [ ]
for_hits-Unique lines span needle replacement (hit ∷ other ∷ more) e n h k = elim k [ ]

for_needle-Unique :
    (lines : List String) (span : ℕ × ℕ) (widened : String × String)
    (planned : List Edit × List Refusal) (e : Edit)
    → for_needle lines span widened ≡ ok planned
    → Planned e planned.0
    → Unique lines e
for_needle-Unique lines span widened planned e h k = elim (Bool-cases (is_empty widened.0)) [
  | inl d ↦ absurd (
      subst (λ p. Planned e p.0)
        (sym (ok_inj ([], no_anchor ∷ []) planned (sym (rw (d, for_needle)) ∙ h))) k)
  | inr d ↦
      (let hits =
          bind_ok (locate lines span widened.0) (λ hs. ok (for_hits widened.0 widened.1 hs)) planned
            (sym (rw (d, for_needle)) ∙ h) in
        for_hits-Unique lines span widened.0 widened.1 hits.0 e d hits.1
          (subst (λ p. Planned e p.0) (sym (ok_inj _ planned hits.2)) k))
]

plan_each-Unique :
    (lines : List String) (span : ℕ × ℕ) (rejected : String) (subs : List (String × String × ℕ))
    (planned : List Edit × List Refusal) (e : Edit)
    → plan_each lines span rejected subs ≡ ok planned
    → Planned e planned.0
    → Unique lines e
plan_each-Unique lines span rejected [] planned e h k =
    absurd (subst (λ p. Planned e p.0) (sym (ok_inj _ planned h)) k)
plan_each-Unique lines span rejected (s ∷ subs) planned e h k =
    let here = bind_ok (for_needle lines span (widen rejected s.0 s.1 s.2)) _ planned h in
    let rest = bind_ok (plan_each lines span rejected subs) _ planned here.2 in
    elim (Planned-append e here.0.0 rest.0.0
      (subst (λ p. Planned e p.0) (sym (ok_inj _ planned rest.2)) k)) [
        | inl a ↦ for_needle-Unique lines span (widen rejected s.0 s.1 s.2) here.0 e here.1 a
        | inr a ↦ plan_each-Unique lines span rejected subs rest.0 e rest.1 a
      ]

module _ (opcodes : String → String → List Opcode) (inline : String → List Run)
    (is_decimal : Char → Bool) where
  plan_in_block-Unique :
      (address : BlockAddress) (text : String) (span : Option (ℕ × ℕ)) (rejected accepted : String)
      (planned : List Edit × List Refusal) (e : Edit)
      → plan_in_block opcodes inline is_decimal address text span rejected accepted ≡ ok planned
      → Planned e planned.0
      → Unique (split_lf text) e
  plan_in_block-Unique address text none rejected accepted planned e h k =
      absurd (subst (λ p. Planned e p.0) (sym (ok_inj _ planned h)) k)
  plan_in_block-Unique address text (some span) rejected accepted planned e h k =
      let subs = bind_ok (diff_spans opcodes inline is_decimal rejected accepted) _ planned h in
      plan_each-Unique (split_lf text) span rejected subs.0 planned e subs.2 k

  -- Whatever opcodes difflib finds: an edit that plan_paragraph_edit plans for a paragraph of a
  -- file can be applied to the text of the file, on its own without an error.
  pub plan_paragraph_edit-applies :
      (address : BlockAddress) (text rejected accepted : String) (cache after : Cache)
      (planned : List Edit × List Refusal)
      → plan_paragraph_edit opcodes inline is_decimal address (some text) rejected accepted cache
        ≡ ok (planned, after)
      → (e : Edit) → Planned e planned.0
      → (new : String) × (apply_edits text (e ∷ []) ≡ ok new)
  unfolding plan_paragraph_edit
  plan_paragraph_edit-applies address text rejected accepted cache after planned h e k =
      let made = bind_ok (block_spans inline is_decimal text address.file) _ (planned, after) h in
      let cached = set_default address.file made.0 cache in
      let inner =
        bind_ok
          (plan_in_block opcodes inline is_decimal address text
            (span_of address.section address.block cached.0) rejected accepted)
          _ (planned, after) made.2 in
      Unique-applies text e (
        plan_in_block-Unique address text (span_of address.section address.block cached.0) rejected
          accepted planned e
          (inner.1 ∙ ap ok (ap (λ p. p.0) (ok_inj (inner.0, cached.1) (planned, after) inner.2))) k)
