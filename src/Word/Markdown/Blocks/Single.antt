-- ===== src/Word/Markdown/Blocks/Single.antt =====
-- opcdocx/md_parse.py: one block that `parse` reads, by the grammar.
use opcua_drafts.Prelude.{
  ℕ, suc, ◌+◌, String, Bool, true, false, none, some, List, [], ◌∷◌, ◌++◌, map, length,
  length-append, ◌≡◌, ◌⊎◌, inl, inr, refl, sym, ◌∙◌, ap, subst, arith, Bool-cases, Option-cases,
  false≢true, append_assoc,
}
use opcua_drafts.Text.Strip.{strip}
use opcua_drafts.Word.DocModel.{Body, blist, para}
use opcua_drafts.Word.Markdown.{fence, ordered_item, quoted}
use opcua_drafts.Word.Markdown.Blocks.{
  is_some, starts_bar, list_item, fenced, Parser, table_block, quote_block, read_block,
}
use opcua_drafts.Word.Markdown.Blocks.Grammar.{
  is_fence, is_quote, Each, NoneOf, Stops, rows_of, quotes_of, Items, goes_on, Piece, code_piece,
  table_piece, quote_piece, list_piece, para_piece,
}
use opcua_drafts.Word.Markdown.Blocks.Readers.{
  read_fence_lem, read_table_lem, read_quote_lem, read_list_lem,
}

-- A block behind which the reading goes on.
abbrev pub Whole : Parser → ℕ → String → List String → Body × List String × ℕ → Type 0
Whole p i l lines result =
    (xs rest : List String) × (body : Body) × (lines ≡ xs ++ rest)
    × (result ≡ (body, rest, i + length (l ∷ xs)))
    × Piece p (l ∷ xs) rest body

-- A fence that is never closed.
abbrev pub Unclosed : ℕ → String → List String → Body × List String × ℕ → Type 0
Unclosed i l lines result =
    (lang : String) × (fence (strip l) ≡ some lang)
    × NoneOf is_fence lines
    × (result ≡ (fenced lang lines, [], i + length (l ∷ lines) + 1))

tail_same : (l m : String) (xs ys : List String) → l ∷ xs ≡ m ∷ ys → (l ≡ m) × (xs ≡ ys)
tail_same l m xs ys h = (cc h, cc h)

-- What a reader takes from lines whose first it does not stop at begins with that line.
first_taken :
    (q : String → Bool) (l : String) (lines xs rest : List String)
    → l ∷ lines ≡ xs ++ rest
    → Stops q rest
    → q l ≡ true
    → (ys : List String) × (xs ≡ l ∷ ys) × (lines ≡ ys ++ rest)
first_taken q l lines [] [] split stops h = cc split
first_taken q l lines [] (m ∷ rest) split stops h =
    absurd (false≢true (sym stops ∙ ap q (sym (tail_same l m lines rest split).0) ∙ h))
first_taken q l lines (x ∷ xs) rest split stops h =
    let both = tail_same l x lines (xs ++ rest) split in (xs, ap (λ z. z ∷ xs) (sym both.0), both.1)

closed_lines :
    (l m : String) (xs rest : List String) → l ∷ (xs ++ m ∷ rest) ≡ (l ∷ (xs ++ m ∷ [])) ++ rest
closed_lines l m xs rest = ap (λ z. l ∷ z) (sym (append_assoc xs (m ∷ []) rest))

closed_length :
    (i : ℕ) (l m : String) (xs : List String)
    → suc i + length xs + 1 ≡ i + length (l ∷ (xs ++ m ∷ []))
closed_length i l m xs = omega (arith, length-append xs (m ∷ []))

open_length :
    (i : ℕ) (l : String) (xs : List String) → suc i + length xs + 1 ≡ i + length (l ∷ xs) + 1
open_length i l xs = omega arith

module _ (p : Parser) where
  fence_lem :
      (i : ℕ) (l lang : String) (lines : List String)
      → fence (strip l) ≡ some lang
      → Whole p i l lines (read_block p i l lines) ⊎ Unclosed i l lines (read_block p i l lines)
  fence_lem i l lang lines e = elim (read_fence_lem (suc i) lines) [
    | inl (xs, rest, m, other, split, made, inner, closing) ↦ inl (
      xs ++ m ∷ [],
      rest,
      fenced lang xs,
      split ∙ sym (append_assoc xs (m ∷ []) rest),
      rw (e, read_block) (rw (made) (ap (λ n. (fenced lang xs, rest, n)) (closed_length i l m xs))),
      code_piece l lang m other xs rest e inner closing,
    )
    | inr (made, inner) ↦ inr (
      lang,
      e,
      inner,
      rw (e, read_block) (rw (made) (ap (λ n. (fenced lang lines, [], n)) (open_length i l lines))),
    )
  ]

  table_lem :
      (i : ℕ) (l : String) (lines : List String)
      → fence (strip l) ≡ none
      → starts_bar l ≡ true
      → Whole p i l lines (read_block p i l lines)
  table_lem i l lines e b =
      let (xs, rest, (split, made), each, stops) = read_table_lem i (l ∷ lines) in
      let (ys, start, more) = first_taken starts_bar l lines xs rest split stops b in
      (
        ys,
        rest,
        table_block p (rows_of (l ∷ ys)),
        more,
        rw (e, read_block)
            (rw (b, read_block)
              (ap (λ r. (table_block p r.0, r.1, r.2)) made
                ∙ ap (λ z. (table_block p (rows_of z), rest, i + length z)) start)),
        table_piece l ys rest e (subst (Each starts_bar) start each) stops,
      )

  quote_lem :
      (i : ℕ) (l text : String) (lines : List String)
      → fence (strip l) ≡ none
      → starts_bar l ≡ false
      → quoted (strip l) ≡ some text
      → Whole p i l lines (read_block p i l lines)
  quote_lem i l text lines e b q =
      let (xs, rest, (split, made), each, stops) = read_quote_lem i (l ∷ lines) in
      let (ys, start, more) = first_taken is_quote l lines xs rest split stops (rw (q, is_quote)) in
      (
        ys,
        rest,
        quote_block p (quotes_of (l ∷ ys)),
        more,
        rw (e, read_block)
            (rw (b, read_block)
              (rw (q, read_block)
                (ap (λ r. (quote_block p r.0, r.1, r.2)) made
                  ∙ ap (λ z. (quote_block p (quotes_of z), rest, i + length z)) start))),
        quote_piece l ys rest e b (subst (Each is_quote) start each) stops,
      )

  list_lem :
      (i : ℕ) (l item : String) (lines : List String)
      → fence (strip l) ≡ none
      → starts_bar l ≡ false
      → quoted (strip l) ≡ none
      → list_item p.is_decimal l ≡ some item
      → Whole p i l lines (read_block p i l lines)
  list_lem i l item lines e b q a =
      let (xs, rest, items, (split, made), grown, stops) =
        read_list_lem p.is_decimal [] i (l ∷ lines) in
      let (ys, start, more) =
        first_taken (goes_on p.is_decimal items) l lines xs rest split stops (rw (a, goes_on)) in
      let made_of : List String → Body =
        λ z. blist (is_some (ordered_item p.is_decimal l)) 0 (map p.inline z) in
      (
        ys,
        rest,
        made_of items,
        more,
        rw (e, read_block)
            (rw (b, read_block)
              (rw (q, read_block)
                (rw (a, read_block)
                  (ap (λ r. (made_of r.0, r.1, r.2)) made
                    ∙ ap (λ z. (made_of items, rest, i + length z)) start)))),
        list_piece l ys rest items e b q (subst (λ z. Items p.is_decimal [] z items) start grown)
            stops,
      )

  pub read_block_lem :
      (i : ℕ) (l : String) (lines : List String)
      → Whole p i l lines (read_block p i l lines) ⊎ Unclosed i l lines (read_block p i l lines)
  read_block_lem i l lines = elim (Option-cases (fence (strip l))) [
    | inr (lang, e) ↦ fence_lem i l lang lines e
    | inl e ↦ elim (Bool-cases (starts_bar l)) [
      | inl b ↦ inl (table_lem i l lines e b)
      | inr b ↦ elim (Option-cases (quoted (strip l))) [
        | inr (text, q) ↦ inl (quote_lem i l text lines e b q)
        | inl q ↦ elim (Option-cases (list_item p.is_decimal l)) [
          | inr (item, a) ↦ inl (list_lem i l item lines e b q a)
          | inl a ↦ inl (
            [],
            lines,
            para (p.inline (strip l)) "PARAGRAPH" none,
            refl,
            rw (e, read_block)
                (rw (b, read_block)
                  (rw (q, read_block)
                    (rw (a, read_block)
                      (ap (λ n. (para (p.inline (strip l)) "PARAGRAPH" none, lines, n))
                        (one_line i))))),
            para_piece l lines e b q a,
          )
        ]
      ]
    ]
  ]
    where
      one_line : (n : ℕ) → suc n ≡ n + length {A = String} (l ∷ [])
      one_line n = omega arith
