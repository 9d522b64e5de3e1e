-- ===== src/Word/Markdown/Blocks/Readers.antt =====
-- opcdocx/md_parse.py: what the readers of BlockParser take from the lines.
use Prim.Native.Char.{Char}
use opcua_drafts.Prelude.{
  ℕ, suc, ◌+◌, String, Bool, some, List, [], ◌∷◌, ◌++◌, length, ◌≡◌, ◌⊎◌, inl, inr, refl, ◌∙◌, ap,
  arith, Bool-cases, Option-cases,
}
use opcua_drafts.Text.{append}
use opcua_drafts.Text.Strip.{strip}
use opcua_drafts.Word.Markdown.{fence, is_table_sep, quoted}
use opcua_drafts.Word.Markdown.Rows.{split_row}
use opcua_drafts.Word.Markdown.Blocks.{
  starts_bar, read_fence, read_table, read_quote, add_to_last, continues, list_item, read_list,
}
use opcua_drafts.Word.Markdown.Blocks.Grammar.{
  is_fence, is_quote, Each, NoneOf, Stops, rows_of, quotes_of, Items, no_line, new_item, more_text,
  goes_on,
}

-- A reader takes lines and returns a value, the rest and its index.
abbrev Taken {ℓ} :
    {A : Type ℓ} → ℕ → List String → A × List String × ℕ → A → List String → List String → Type ℓ
Taken i lines result value xs rest = (lines ≡ xs ++ rest) × (result ≡ (value, rest, i + length xs))

later : (i : ℕ) (xs : List String) (x : String) → suc i + length xs ≡ i + length (x ∷ xs)
later i xs x = omega arith

later_one :
    (i : ℕ) (xs : List String) (x : String) → suc i + length xs + 1 ≡ i + length (x ∷ xs) + 1
later_one i xs x = omega arith

nothing_taken : (i : ℕ) → i ≡ i + length {A = String} []
nothing_taken i = omega arith

pub read_fence_lem :
    (i : ℕ) (lines : List String)
    → ((xs rest : List String) × (m other : String) × (lines ≡ xs ++ m ∷ rest)
        × (read_fence i lines ≡ (xs, rest, i + length xs + 1))
        × NoneOf is_fence xs
        × (fence (strip m) ≡ some other))
      ⊎ ((read_fence i lines ≡ (lines, [], i + length lines + 1)) × NoneOf is_fence lines)
read_fence_lem i [] = inr (ap (λ n. ([], [], n)) (omega arith), tt)
read_fence_lem i (l ∷ lines) = elim (Option-cases (fence (strip l))) [
  | inr (other, e) ↦ inl (
    [],
    lines,
    l,
    other,
    refl,
    rw (e, read_fence) (ap (λ n. ([], lines, n)) (omega arith)),
    tt,
    e,
  )
  | inl e ↦ elim (read_fence_lem (suc i) lines) [
    | inl (xs, rest, m, other, split, made, inner, closing) ↦ inl (
      l ∷ xs,
      rest,
      m,
      other,
      ap (λ ls. l ∷ ls) split,
      rw (e, read_fence) (rw (made) (ap (λ n. (l ∷ xs, rest, n)) (later_one i xs l))),
      (rw (e, is_fence), inner),
      closing,
    )
    | inr (made, inner) ↦ inr (
      rw (e, read_fence) (rw (made) (ap (λ n. (l ∷ lines, [], n)) (later_one i lines l))),
      (rw (e, is_fence), inner),
    )
  ]
]

pub read_table_lem :
    (i : ℕ) (lines : List String)
    → (xs rest : List String) × Taken i lines (read_table i lines) (rows_of xs) xs rest
      × Each starts_bar xs
      × Stops starts_bar rest
read_table_lem i [] = ([], [], (refl, ap (λ n. ([], [], n)) (nothing_taken i)), tt, tt)
read_table_lem i (l ∷ lines) = elim (Bool-cases (starts_bar l)) [
  | inr e ↦ (
    [],
    l ∷ lines,
    (refl, rw (e, read_table) (ap (λ n. ([], l ∷ lines, n)) (nothing_taken i))),
    tt,
    e,
  )
  | inl e ↦
      (let (xs, rest, (split, made), each, stops) = read_table_lem (suc i) lines in
        (
          l ∷ xs,
          rest,
          (
            ap (λ ls. l ∷ ls) split,
            elim (Bool-cases (is_table_sep (strip l))) [
              | inl d ↦
                  rw (e, read_table)
                    (rw (d, read_table, rows_of)
                      (made ∙ ap (λ n. (rows_of xs, rest, n)) (later i xs l)))
              | inr d ↦
                  rw (e, read_table)
                    (rw (d, read_table, rows_of)
                      (rw (made)
                        (ap (λ n. (split_row (strip l) ∷ rows_of xs, rest, n)) (later i xs l))))
            ],
          ),
          (e, each),
          stops,
        ))
]

pub read_quote_lem :
    (i : ℕ) (lines : List String)
    → (xs rest : List String) × Taken i lines (read_quote i lines) (quotes_of xs) xs rest
      × Each is_quote xs
      × Stops is_quote rest
read_quote_lem i [] = ([], [], (refl, ap (λ n. ([], [], n)) (nothing_taken i)), tt, tt)
read_quote_lem i (l ∷ lines) = elim (Option-cases (quoted (strip l))) [
  | inl e ↦ (
    [],
    l ∷ lines,
    (refl, rw (e, read_quote) (ap (λ n. ([], l ∷ lines, n)) (nothing_taken i))),
    tt,
    rw (e, is_quote),
  )
  | inr (text, e) ↦
      (let (xs, rest, (split, made), each, stops) = read_quote_lem (suc i) lines in
        (
          l ∷ xs,
          rest,
          (
            ap (λ ls. l ∷ ls) split,
            rw (e, read_quote, quotes_of)
                (rw (made) (ap (λ n. (text ∷ quotes_of xs, rest, n)) (later i xs l))),
          ),
          (rw (e, is_quote), each),
          stops,
        ))
]

pub read_list_lem :
    (is_decimal : Char → Bool) (before : List String) (i : ℕ) (lines : List String)
    → (xs rest items : List String) × Taken i lines
        (read_list is_decimal before i lines)
        items
        xs
        rest
      × Items is_decimal before xs items
      × Stops (goes_on is_decimal items) rest
read_list_lem is_decimal before i [] =
    ([], [], before, (refl, ap (λ n. (before, [], n)) (nothing_taken i)), no_line before, tt)
read_list_lem is_decimal before i (l ∷ lines) = elim (Option-cases (list_item is_decimal l)) [
  | inr (item, e) ↦
      (let (xs, rest, items, (split, made), grown, stops) =
          read_list_lem is_decimal (before ++ item ∷ []) (suc i) lines in
        (
          l ∷ xs,
          rest,
          items,
          (
            ap (λ ls. l ∷ ls) split,
            rw (e, read_list) (made ∙ ap (λ n. (items, rest, n)) (later i xs l)),
          ),
          new_item before l item xs items e grown,
          stops,
        ))
  | inl e ↦ elim (Bool-cases (continues before l)) [
    | inl d ↦
        (let (xs, rest, items, (split, made), grown, stops) =
            read_list_lem is_decimal (add_to_last (append " " (strip l)) before) (suc i) lines in
          (
            l ∷ xs,
            rest,
            items,
            (
              ap (λ ls. l ∷ ls) split,
              rw (e, read_list)
                  (rw (d, read_list) (made ∙ ap (λ n. (items, rest, n)) (later i xs l))),
            ),
            more_text before l xs items e d grown,
            stops,
          ))
    | inr d ↦ (
      [],
      l ∷ lines,
      before,
      (
        refl,
        rw (e, read_list) (rw (d, read_list) (ap (λ n. (before, l ∷ lines, n)) (nothing_taken i))),
      ),
      no_line before,
      rw (e, goes_on) d,
    )
  ]
]
