-- ===== src/Word/Markdown/Blocks/Coverage.antt =====
-- opcdocx/md_parse.py: the spans and the addresses of the parsed blocks.
use opcua_drafts.Prelude.{
  ℕ, zero, suc, ◌+◌, ◌-◌, ◌≤◌, ◌<◌, String, true, false, Option, none, some, List, [], ◌∷◌, ◌++◌,
  length, ok, ◌≡◌, sym, ◌∙◌, ap, subst, arith, false≢true, ok_inj, ltb, Bool-cases, inl, inr, ◌⊎◌,
}
use opcua_drafts.Text.{Lacks}
use opcua_drafts.Word.DocModel.{Src, source_key}
use opcua_drafts.Word.DocModel.Keys.{source_key-address, address-src, Plain-src, same_ordinal}
use opcua_drafts.Word.Markdown.Blocks.{Spanned, skipped, Parser, section_of, parse_blocks}
use opcua_drafts.Word.Markdown.Blocks.Grammar.{Reads, read_end, read_skip, read_piece, read_open}
use opcua_drafts.Word.Markdown.Blocks.Parsed.{parse_blocks_lem}

module _ {ℓ} {A : Type ℓ} where
  abbrev pub item_at : ℕ → List A → Option A
  item_at k [] = none
  item_at zero (x ∷ xs) = some x
  item_at (suc k) (x ∷ xs) = item_at k xs

-- Each span begins behind the one before it.
abbrev pub Ascending : ℕ → List Spanned → Type 0
Ascending lowest [] = Unit
Ascending lowest (s ∷ out) = (lowest ≤ s.1) × (s.1 ≤ s.2) × Ascending (suc s.2) out

-- A span with the line number among those of the blocks.
abbrev pub Inside : ℕ → List Spanned → Type 0
Inside n [] = ⊥
Inside n (s ∷ out) = ((s.1 ≤ n) × (n ≤ s.2)) ⊎ Inside n out

last_line : (i k off : ℕ) → i + suc k - 1 + off ≡ i + k + off
last_line i k off = omega arith

Reads-Ascending :
    (p : Parser) (o i low : ℕ) (lines : List String) (out : List Spanned)
    → Reads p o i lines out
    → low ≤ i + p.line_offset
    → Ascending low out
Reads-Ascending p o i low [] [] (read_end _ _) h = tt
Reads-Ascending p o i low (l ∷ lines) out (read_skip _ _ _ _ _ e r) h =
    Reads-Ascending p o (suc i) low lines out r (omega (arith, h))
Reads-Ascending p o i low _ _ (read_piece _ _ l xs rest body out e piece r) h =
    (h, omega arith, Reads-Ascending p (suc o) (i + length (l ∷ xs)) _ rest out r (omega arith))
Reads-Ascending p o i low (l ∷ xs) _ (read_open _ _ _ lang _ e f inner) h = (h, omega arith, tt)

pub item_at-append {ℓ} :
    {A : Type ℓ} (k : ℕ) (xs ys : List A)
    → length xs ≤ k
    → item_at k (xs ++ ys) ≡ item_at (k - length xs) ys
item_at-append k [] ys h = ap (λ n. item_at n ys) (omega arith)
item_at-append zero (x ∷ xs) ys h = absurd (omega (arith, h))
item_at-append (suc k) (x ∷ xs) ys h =
    item_at-append k xs ys (omega (arith, h)) ∙ ap (λ n. item_at n ys) (omega arith)

some_of {ℓ} : {A : Type ℓ} {x y : A} → some x ≡ some y → x ≡ y
some_of h = cc h

none_of {ℓ κ} : {A : Type ℓ} {P : Type κ} {x : A} → none ≡ some x → P
none_of h = cc h

pub item_at-length {ℓ} :
    {A : Type ℓ} (k : ℕ) (xs : List A) (x : A) → item_at k xs ≡ some x → k < length xs
item_at-length zero [] x h = none_of h
item_at-length (suc k) [] x h = none_of h
item_at-length zero (y ∷ xs) x h = omega arith
item_at-length (suc k) (y ∷ xs) x h = omega (arith, item_at-length k xs x h)

skipped_first :
    {P : Type 0} (l m : String) → some l ≡ some m → skipped l ≡ true → skipped m ≡ false → P
skipped_first l m h e d = absurd (false≢true (sym d ∙ sym (ap skipped (some_of h)) ∙ e))

Reads-Inside :
    (p : Parser) (o i : ℕ) (lines : List String) (out : List Spanned)
    → Reads p o i lines out
    → (k : ℕ) (line : String) → item_at k lines ≡ some line
    → skipped line ≡ false
    → Inside (i + k + p.line_offset) out
Reads-Inside p o i [] [] (read_end _ _) zero line h d = none_of h
Reads-Inside p o i [] [] (read_end _ _) (suc k) line h d = none_of h
Reads-Inside p o i (l ∷ lines) out (read_skip _ _ _ _ _ e r) zero line h d =
    skipped_first l line h e d
Reads-Inside p o i (l ∷ lines) out (read_skip _ _ _ _ _ e r) (suc k) line h d =
    subst (λ n. Inside n out) (moved i k p.line_offset)
      (Reads-Inside p o (suc i) lines out r k line h d)
  where
    moved : (a b c : ℕ) → suc a + b + c ≡ a + suc b + c
    moved a b c = omega arith
Reads-Inside p o i _ _ (read_piece _ _ l xs rest body out e piece r) k line h d =
    elim (Bool-cases (ltb k (length (l ∷ xs)))) [
      | inl small ↦ inl (omega arith, within i k (length (l ∷ xs)) p.line_offset (ground arith))
      | inr large ↦ inr (
          subst (λ n. Inside n out) (moved i k (length (l ∷ xs)) p.line_offset (ground arith))
            (Reads-Inside p (suc o) (i + length (l ∷ xs)) rest out r (k - length (l ∷ xs)) line
              (sym (item_at-append k (l ∷ xs) rest (ground arith)) ∙ h) d))
    ]
  where
    within : (a b n c : ℕ) → b < n → a + b + c ≤ a + n - 1 + c
    within a b n c q = omega (arith, q)

    moved : (a b n c : ℕ) → n ≤ b → a + n + (b - n) + c ≡ a + b + c
    moved a b n c q = omega (arith, q)
Reads-Inside p o i (l ∷ xs) _ (read_open _ _ _ lang _ e f inner) k line h d =
    inl (omega arith, within i k (length (l ∷ xs)) p.line_offset (item_at-length k (l ∷ xs) line h))
  where
    within : (a b n c : ℕ) → b < n → a + b + c ≤ a + n + 1 - 1 + c
    within a b n c q = omega (arith, q)

-- The address of the block with an ordinal.
abbrev pub src_of : Parser → ℕ → Option Src
src_of p ordinal = elim (p.source) [
  | none ↦ none
  | some source ↦ some (record { f = source; s = section_of p.context; b = ordinal })
]

Reads-src :
    (p : Parser) (o i : ℕ) (lines : List String) (out : List Spanned)
    → Reads p o i lines out
    → (j : ℕ) (s : Spanned) → item_at j out ≡ some s
    → s.0.src ≡ src_of p (o + j)
Reads-src p o i [] [] (read_end _ _) zero s h = none_of h
Reads-src p o i [] [] (read_end _ _) (suc j) s h = none_of h
Reads-src p o i (l ∷ lines) out (read_skip _ _ _ _ _ e r) j s h =
    Reads-src p o (suc i) lines out r j s h
Reads-src p o i _ _ (read_piece _ _ l xs rest body out e piece r) zero s h =
    sym (ap (λ z. z.0.src) (some_of h)) ∙ ap (src_of p) (omega arith)
Reads-src p o i _ _ (read_piece _ _ l xs rest body out e piece r) (suc j) s h =
    Reads-src p (suc o) (i + length (l ∷ xs)) rest out r j s h ∙ ap (src_of p) (omega arith)
Reads-src p o i (l ∷ xs) _ (read_open _ _ _ lang _ e f inner) zero s h =
    sym (ap (λ z. z.0.src) (some_of h)) ∙ ap (src_of p) (omega arith)
Reads-src p o i (l ∷ xs) _ (read_open _ _ _ lang _ e f inner) (suc j) s h = absurd (past j h)
  where
    past : (n : ℕ) → item_at n [] ≡ some s → ⊥
    past zero q = none_of q
    past (suc n) q = none_of q

reading :
    (p : Parser) (lines : List String) (out : List Spanned)
    → parse_blocks p lines ≡ ok out
    → Reads p 0 0 lines out
reading p lines out h =
    let r = parse_blocks_lem p lines in subst (Reads p 0 0 lines) (ok_inj r.0 out (sym r.1 ∙ h)) r.2

-- The spans that parse returns are not empty and follow each other without overlap, from the line
-- offset on.
pub parse_blocks-Ascending :
    (p : Parser) (lines : List String) (out : List Spanned)
    → parse_blocks p lines ≡ ok out
    → Ascending p.line_offset out
parse_blocks-Ascending p lines out h =
    Reads-Ascending p 0 0 p.line_offset lines out (reading p lines out h) (omega arith)

-- No line is dropped: the number of every line that is neither blank nor a rule lies in the span
-- of a block that parse returns.
pub parse_blocks-Inside :
    (p : Parser) (lines : List String) (out : List Spanned)
    → parse_blocks p lines ≡ ok out
    → (k : ℕ) (line : String) → item_at k lines ≡ some line
    → skipped line ≡ false
    → Inside (k + p.line_offset) out
parse_blocks-Inside p lines out h k line e d =
    subst (λ n. Inside n out) (omega arith)
      (Reads-Inside p 0 0 lines out (reading p lines out h) k line e d)

src_of-some :
    (p : Parser) (f : String) (n : ℕ)
    → p.source ≡ some f
    → src_of p n ≡ some (record { f = f; s = section_of p.context; b = n })
src_of-some p f n e = rw (e, src_of)

-- Two blocks that one call of parse returns for a source have different source keys, wherever
-- they are placed, if no unit separator stands in the names of the file and the section.
pub parse_blocks-source_key :
    (p : Parser) (f : String) (lines : List String) (out : List Spanned)
    → parse_blocks p lines ≡ ok out
    → p.source ≡ some f
    → Lacks "\u{1f}" f
    → Lacks "\u{1f}" (section_of p.context)
    → (j k : ℕ) (s u : Spanned) → item_at j out ≡ some s
    → item_at k out ≡ some u
    → (region other : String) (index at : ℕ) → source_key s.0 region index ≡ source_key u.0 other at
    → j ≡ k
parse_blocks-source_key p f lines out h e lf ls j k s u a b region other index at q =
    let r = reading p lines out h in
    let one = Reads-src p 0 0 lines out r j s a ∙ src_of-some p f (0 + j) e in
    let two = Reads-src p 0 0 lines out r k u b ∙ src_of-some p f (0 + k) e in
    let zero_left : (n : ℕ) → 0 + n ≡ n = λ n. omega arith in
    sym (zero_left j)
    ∙ same_ordinal f (section_of p.context) f (section_of p.context) (0 + j) (0 + k) (
        sym (address-src s.0 region index _ one)
        ∙ source_key-address s.0 u.0 region other index at (Plain-src s.0 region _ one (lf, ls))
            (Plain-src u.0 other _ two (lf, ls)) q
        ∙ address-src u.0 other at _ two)
    ∙ zero_left k
