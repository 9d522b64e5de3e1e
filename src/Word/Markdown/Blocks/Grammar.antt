-- ===== src/Word/Markdown/Blocks/Grammar.antt =====
-- opcdocx/md_parse.py: the blocks of a document as a grammar over its lines.
use Prim.Native.Char.{Char}
use opcua_drafts.Prelude.{
  ℕ, suc, ◌+◌, String, Bool, true, false, none, some, List, [], ◌∷◌, ◌++◌, map, length, ◌≡◌,
}
use opcua_drafts.Text.{append}
use opcua_drafts.Text.Strip.{strip}
use opcua_drafts.Word.DocModel.{Body, blist, para}
use opcua_drafts.Word.Markdown.{fence, ordered_item, is_table_sep, quoted}
use opcua_drafts.Word.Markdown.Rows.{split_row}
use opcua_drafts.Word.Markdown.Blocks.{
  Spanned, is_some, skipped, starts_bar, add_to_last, continues, list_item, fenced, Parser,
  table_block, quote_block, stamped,
}

abbrev pub is_fence : String → Bool
is_fence line = is_some (fence (strip line))

abbrev pub is_quote : String → Bool
is_quote line = is_some (quoted (strip line))

-- The test holds of every line.
abbrev pub Each : (String → Bool) → List String → Type 0
Each q [] = Unit
Each q (l ∷ lines) = (q l ≡ true) × Each q lines

abbrev pub NoneOf : (String → Bool) → List String → Type 0
NoneOf q [] = Unit
NoneOf q (l ∷ lines) = (q l ≡ false) × NoneOf q lines

-- The test fails at the first line, if there is one.
abbrev pub Stops : (String → Bool) → List String → Type 0
Stops q [] = Unit
Stops q (l ∷ lines) = q l ≡ false

abbrev pub rows_of : List String → List (List String)
rows_of [] = []
rows_of (l ∷ lines) = elim (is_table_sep (strip l)) [
  | true ↦ rows_of lines
  | false ↦ split_row (strip l) ∷ rows_of lines
]

abbrev pub quotes_of : List String → List String
quotes_of [] = []
quotes_of (l ∷ lines) = elim (quoted (strip l)) [
  | none ↦ quotes_of lines
  | some text ↦ text ∷ quotes_of lines
]

-- The items that the lines of a list add to those before them.
pub data Items (is_decimal : Char → Bool) : List String → List String → List String → Type 0 where
  no_line : (items : List String) → Items is_decimal items [] items
  new_item :
      (before : List String) (l item : String) (lines items : List String)
      → list_item is_decimal l ≡ some item
      → Items is_decimal (before ++ item ∷ []) lines items
      → Items is_decimal before (l ∷ lines) items
  more_text :
      (before : List String) (l : String) (lines items : List String)
      → list_item is_decimal l ≡ none
      → continues before l ≡ true
      → Items is_decimal (add_to_last (append " " (strip l)) before) lines items
      → Items is_decimal before (l ∷ lines) items

-- A line that neither is an item nor goes on with one.
abbrev pub goes_on : (Char → Bool) → List String → String → Bool
goes_on is_decimal items l = elim (list_item is_decimal l) [
  | some item ↦ true
  | none ↦ continues items l
]

-- The lines of one block before the rest of the document.
pub data Piece (p : Parser) : List String → List String → Body → Type 0 where
  code_piece :
      (l lang m other : String) (xs rest : List String)
      → fence (strip l) ≡ some lang
      → NoneOf is_fence xs
      → fence (strip m) ≡ some other
      → Piece p (l ∷ (xs ++ m ∷ [])) rest (fenced lang xs)
  table_piece :
      (l : String) (xs rest : List String)
      → fence (strip l) ≡ none
      → Each starts_bar (l ∷ xs)
      → Stops starts_bar rest
      → Piece p (l ∷ xs) rest (table_block p (rows_of (l ∷ xs)))
  quote_piece :
      (l : String) (xs rest : List String)
      → fence (strip l) ≡ none
      → starts_bar l ≡ false
      → Each is_quote (l ∷ xs)
      → Stops is_quote rest
      → Piece p (l ∷ xs) rest (quote_block p (quotes_of (l ∷ xs)))
  list_piece :
      (l : String) (xs rest items : List String)
      → fence (strip l) ≡ none
      → starts_bar l ≡ false
      → quoted (strip l) ≡ none
      → Items p.is_decimal [] (l ∷ xs) items
      → Stops (goes_on p.is_decimal items) rest
      → Piece p (l ∷ xs) rest (blist (is_some (ordered_item p.is_decimal l)) 0 (map p.inline items))
  para_piece :
      (l : String) (rest : List String)
      → fence (strip l) ≡ none
      → starts_bar l ≡ false
      → quoted (strip l) ≡ none
      → list_item p.is_decimal l ≡ none
      → Piece p (l ∷ []) rest (para (p.inline (strip l)) "PARAGRAPH" none)

-- The blocks of the lines from an ordinal and an index on: lines that are passed over, blocks one
-- behind the other, and at the end a fence that is never closed, whose span goes one line too far.
pub data Reads (p : Parser) : ℕ → ℕ → List String → List Spanned → Type 0 where
  read_end : (o i : ℕ) → Reads p o i [] []
  read_skip :
      (o i : ℕ) (l : String) (lines : List String) (out : List Spanned)
      → skipped l ≡ true
      → Reads p o (suc i) lines out
      → Reads p o i (l ∷ lines) out
  read_piece :
      (o i : ℕ) (l : String) (xs rest : List String) (body : Body) (out : List Spanned)
      → skipped l ≡ false
      → Piece p (l ∷ xs) rest body
      → Reads p (suc o) (i + length (l ∷ xs)) rest out
      → Reads p o i ((l ∷ xs) ++ rest) (stamped p o i (i + length (l ∷ xs)) body ∷ out)
  read_open :
      (o i : ℕ) (l lang : String) (xs : List String)
      → skipped l ≡ false
      → fence (strip l) ≡ some lang
      → NoneOf is_fence xs
      → Reads p o i (l ∷ xs) (stamped p o i (i + length (l ∷ xs) + 1) (fenced lang xs) ∷ [])
