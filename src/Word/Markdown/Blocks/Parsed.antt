-- ===== src/Word/Markdown/Blocks/Parsed.antt =====
-- opcdocx/md_parse.py: `parse` reads every document by the grammar.
use opcua_drafts.Prelude.{
  ℕ, zero, suc, ◌+◌, ◌≤◌, String, true, false, List, [], ◌∷◌, ◌++◌, length, length-append, ok,
  ◌>>=◌, ◌≡◌, inl, inr, refl, sym, ◌∙◌, ap, subst, arith, Bool-cases,
}
use opcua_drafts.Word.DocModel.{Body}
use opcua_drafts.Word.Markdown.Blocks.{
  Spanned, skipped, fenced, Parser, read_block, stamped, parse_from, parse_blocks,
}
use opcua_drafts.Word.Markdown.Blocks.Grammar.{Reads, read_end, read_skip, read_piece, read_open}
use opcua_drafts.Word.Markdown.Blocks.Single.{read_block_lem}

module _ (p : Parser) where
  parse_from-end : (n o i : ℕ) → parse_from p n o i [] ≡ ok []
  unfolding parse_from
  parse_from-end zero o i = refl
  parse_from-end (suc n) o i = refl

  parse_from-skipped :
      (n o i : ℕ) (l : String) (lines : List String)
      → skipped l ≡ true
      → parse_from p (suc n) o i (l ∷ lines) ≡ parse_from p n o (suc i) lines
  unfolding parse_from
  parse_from-skipped n o i l lines e = rw (e, parse_from)

  parse_from-block :
      (n o i j : ℕ) (l : String) (lines rest : List String) (body : Body) (out : List Spanned)
      → skipped l ≡ false
      → read_block p i l lines ≡ (body, rest, j)
      → parse_from p n (suc o) j rest ≡ ok out
      → parse_from p (suc n) o i (l ∷ lines) ≡ ok (stamped p o i j body ∷ out)
  unfolding parse_from
  parse_from-block n o i j l lines rest body out e made h =
      rw (e, parse_from)
        (ap (λ r. do more ← parse_from p n (suc o) r.2 r.1; ok (stamped p o i r.2 r.0 ∷ more)) made
          ∙ ap (λ r. r >>= λ more. ok (stamped p o i j body ∷ more)) h)

  parse_from_lem :
      (n o i : ℕ) (lines : List String)
      → length lines ≤ n
      → (out : List Spanned) × (parse_from p n o i lines ≡ ok out) × Reads p o i lines out
  parse_from_lem n o i [] h = ([], parse_from-end n o i, read_end o i)
  parse_from_lem zero o i (l ∷ lines) h = absurd (omega (arith, h))
  parse_from_lem (suc n) o i (l ∷ lines) h = elim (Bool-cases (skipped l)) [
    | inl e ↦
        (let r = parse_from_lem n o (suc i) lines (omega (arith, h)) in
          (r.0, parse_from-skipped n o i l lines e ∙ r.1, read_skip o i l lines r.0 e r.2))
    | inr e ↦ elim (read_block_lem p i l lines) [
      | inl (xs, rest, body, split, made, piece) ↦
          (let r =
              parse_from_lem n (suc o) (i + length (l ∷ xs)) rest (shorter lines xs rest split h) in
            (
              stamped p o i (i + length (l ∷ xs)) body ∷ r.0,
              parse_from-block n o i (i + length (l ∷ xs)) l lines rest body r.0 e made r.1,
              subst (λ z. Reads p o i (l ∷ z) (stamped p o i (i + length (l ∷ xs)) body ∷ r.0))
                  (sym split) (read_piece o i l xs rest body r.0 e piece r.2),
            ))
      | inr (lang, f, inner, made) ↦ (
        stamped p o i (i + length (l ∷ lines) + 1) (fenced lang lines) ∷ [],
        parse_from-block n o i (i + length (l ∷ lines) + 1) l lines [] (fenced lang lines) [] e made
            (parse_from-end n (suc o) (i + length (l ∷ lines) + 1)),
        read_open o i l lang lines e f inner,
      )
    ]
  ]
    where
      shorter :
          (ls xs rest : List String) → ls ≡ xs ++ rest → suc (length ls) ≤ suc n → length rest ≤ n
      shorter ls xs rest split k =
          omega (arith, k, ap (length {A = String}) split, length-append xs rest)

-- For every list of lines, parse returns within its fuel, and the blocks that it returns, with
-- their addresses and spans, are a reading of the lines by the grammar of the blocks.
pub parse_blocks_lem :
    (p : Parser) (lines : List String)
    → (out : List Spanned) × (parse_blocks p lines ≡ ok out) × Reads p 0 0 lines out
unfolding parse_blocks
parse_blocks_lem p lines = parse_from_lem p (length lines) 0 0 lines (omega arith)
