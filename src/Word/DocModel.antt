-- ===== src/Word/DocModel.antt =====
-- opcdocx/docmodel.py: the document between the Markdown and the Word file. A run or a block, which
-- is a dict there, is a constructor with the values of its keys.
pub mod Regions
pub mod RoundTrip
pub mod Keys
pub mod Tests
use opcua_drafts.Prelude.{
  ℕ, String, Bool, true, false, not, ◌||◌, Option, none, some, List, [], ◌∷◌, ◌++◌, ◌==◌, map,
  dict_keys, lookup, set, elem, ℤ, pos, Result, ok, err, key_error, from_option, ◌>>=◌,
}
use opcua_drafts.Text.{append, is_empty}
use opcua_drafts.Text.Decimal.{to_text}

pub data Run : Type 0 where
  -- text, b, i
  t : String → Bool → Bool → Run
  code_run : String → Run
  -- target, kind, prefix
  xref_run : String → String → Option String → Run
  -- text, href
  link : String → String → Run
  tab br : Run

abbrev pub truthy : Option String → Option String
truthy none = none
truthy (some s) = elim (is_empty s) [ true ↦ none | false ↦ some s ]

-- `xref`: `prefix` is a key only if it is not empty.
abbrev pub xref : String → String → Option String → Run
xref target kind prefix = xref_run target kind (truthy prefix)

pub data Body : Type 0 where
  -- id, title, level
  clause : String → String → ℕ → Body
  -- id, title, normative
  annex : String → String → Bool → Body
  annex_clause : String → String → ℕ → Body
  -- style, runs, bookmark
  para_body : String → List Run → Option String → Body
  -- ordered, level, items
  blist : Bool → ℕ → List (List Run) → Body
  -- id, caption, kind, headers, rows, widths, note
  table :
      Option String
      → Option String
      → String
      → List (List Run)
      → List (List (List Run))
      → Option (List ℕ)
      → Option String
      → Body
  -- id, caption, browseName, kind
  nodetable : String → String → String → String → Body
  -- lang, lines
  codeblock : Option String → List String → Body
  -- id, caption, source, mermaid
  figure : Option String → Option String → String → Option String → Body
  note_body : List Run → Body
  -- term, definition, notes, examples, source
  term : String → String → List String → List String → Option String → Body
  pagebreak : Body
  -- a block of another kind, which build_docx.py makes: its `t`
  other : String → Body

-- `para`: `bookmark` is a key only if it is not empty.
abbrev pub para : List Run → String → Option String → Body
para runs style bookmark = para_body style runs (truthy bookmark)

abbrev pub text_para : String → String → Option String → Body
text_para s style bookmark = para (t s false false ∷ []) style bookmark

-- `src`: the file, the section and the ordinal.
pub record Src : Type 0 where
  pub f : String
  pub s : String
  pub b : ℕ

pub record Block : Type 0 where
  pub body : Body
  pub src : Option Src

-- The class DocModel.
pub record DocModel : Type 0 where
  pub regions : List (String × List Block)
  pub order : List String

abbrev pub empty_model : DocModel
empty_model = record { regions = []; order = [] }

-- `region`, whose list the caller extends in place
abbrev pub region : String → DocModel → DocModel
region name d = elim (elem name (dict_keys d.regions)) [
  | true ↦ d
  | false ↦ record { regions = set name [] d.regions; order = d.order ++ name ∷ [] }
]

-- An argument of `add`: a list of blocks, None or a block.
pub data Item : Type 0 where
  blocks : List Block → Item
  nothing : Item
  block : Block → Item

abbrev pub extend : List Block → List Item → List Block
extend r [] = r
extend r (blocks bs ∷ items) = extend (r ++ bs) items
extend r (nothing ∷ items) = extend r items
extend r (block b ∷ items) = extend (r ++ b ∷ []) items

abbrev pub blocks_of : String → DocModel → List Block
blocks_of name d = elim (lookup name d.regions) [ none ↦ [] | some r ↦ r ]

-- `add`
unfoldable pub add : String → List Item → DocModel → DocModel
add name items d =
    let opened = region name d in
    record {
      regions = set name (extend (blocks_of name opened) items) opened.regions;
      order = opened.order;
    }

-- The object that `to_json` writes and `from_json` reads.
pub record Raw : Type 0 where
  pub regions : List (String × List Block)
  pub order : List String

-- {k: self.regions[k] for k in names}
abbrev pub pick_regions :
    List (String × List Block)
    → List String
    → List (String × List Block)
    → Result (List (String × List Block))
pick_regions regions [] acc = ok acc
pick_regions regions (k ∷ names) acc = do
  r ← from_option key_error (lookup k regions)
  pick_regions regions names (set k r acc)

-- `to_json`, without json.dumps
unfoldable pub to_json : DocModel → Result Raw
to_json d = do
  picked ← pick_regions d.regions d.order []
  ok (record { regions = picked; order = d.order })

-- `from_json`, without json.loads
abbrev pub read_regions : Raw → List String → DocModel → Result DocModel
read_regions raw [] d = ok d
read_regions raw (name ∷ names) d = do
  r ← from_option key_error (lookup name raw.regions)
  read_regions raw names (record { regions = set name r d.regions; order = d.order ++ name ∷ [] })

unfoldable pub from_json : Raw → Result DocModel
from_json raw = read_regions raw raw.order empty_model

abbrev pub in_region : String → List Block → List (String × Block)
in_region name [] = []
in_region name (b ∷ bs) = (name, b) ∷ in_region name bs

abbrev pub region_blocks : List (String × List Block) → List String → Result (List (String × Block))
region_blocks regions [] = ok []
region_blocks regions (name ∷ names) = do
  r ← from_option key_error (lookup name regions)
  rest ← region_blocks regions names
  ok (in_region name r ++ rest)

-- `iter_blocks`
unfoldable pub iter_blocks : DocModel → Result (List (String × Block))
iter_blocks d = region_blocks d.regions d.order

-- `plain_text`
abbrev pub run_text : Run → String
run_text (t text b i) = text
run_text (code_run text) = text
run_text (link text href) = text
run_text (xref_run target kind prefix) = elim prefix [ none ↦ "" | some s ↦ s ]
run_text tab = "\t"
run_text br = " "

abbrev pub plain_text : List Run → String
plain_text [] = ""
plain_text (r ∷ rs) = append (run_text r) (plain_text rs)

-- block.get('t', '?')
abbrev pub body_kind : Body → String
body_kind (clause i title level) = "clause"
body_kind (annex i title normative) = "annex"
body_kind (annex_clause i title level) = "annex-clause"
body_kind (para_body style runs bookmark) = "para"
body_kind (blist ordered level items) = "list"
body_kind (table i caption kind headers rows widths remark) = "table"
body_kind (nodetable i caption name kind) = "nodetable"
body_kind (codeblock lang lines) = "code"
body_kind (figure i caption source mermaid) = "figure"
body_kind (note_body runs) = "note"
body_kind (term name definition notes examples source) = "term"
body_kind pagebreak = "pagebreak"
body_kind (other kind) = kind

-- Texts joined by the unit separator.
abbrev pub joined : String → String → String → String → String
joined a b c d =
    append a (append "\u{1f}" (append b (append "\u{1f}" (append c (append "\u{1f}" d)))))

-- `source_key`
unfoldable pub source_key : Block → String → ℕ → String
source_key here name index = elim (here.src) [
  | some src ↦ joined "md" src.f src.s (to_text (pos src.b))
  | none ↦ joined "gen" name (to_text (pos index)) (body_kind here.body)
]

pub data Artifact : Type 0 where
  markdown nodeset generated : Artifact

-- block.get('t') in ('nodetable', 'enumtable', 'methodtable')
abbrev pub from_nodeset : String → Bool
from_nodeset kind = kind == "nodetable" || kind == "enumtable" || kind == "methodtable"

abbrev pub has_file : Option Src → Bool
has_file none = false
has_file (some src) = not (is_empty src.f)

-- `owner_of`
unfoldable pub owner_of : Block → Artifact
owner_of here = elim (has_file here.src) [
  | true ↦ markdown
  | false ↦ elim (from_nodeset (body_kind here.body)) [ true ↦ nodeset | false ↦ generated ]
]
