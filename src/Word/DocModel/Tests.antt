-- ===== src/Word/DocModel/Tests.antt =====
-- opcdocx/docmodel.py: a small document.
use opcua_drafts.Prelude.{String, false, none, some, [], ◌∷◌, ◌++◌, ok, ◌≡◌, refl, ◌==◌}
use opcua_drafts.Text.Decimal.{to_text, to_decimal}
use opcua_drafts.Word.DocModel.{
  t, xref, tab, clause, para, pagebreak, Block, DocModel, empty_model, nothing, block, blocks,
  blocks_of, add, Raw, to_json, from_json, iter_blocks, plain_text, source_key, owner_of, markdown,
  nodeset, other,
}
use opcua_drafts.Word.DocModel.Regions.{Ordered, contents, add_lem}
use opcua_drafts.Word.DocModel.RoundTrip.{from_json-to_json, iter_blocks_lem, all_blocks}
use opcua_drafts.Word.DocModel.Keys.{address, source_key-address}

abbrev heading_block : Block
heading_block = record { body = clause "c1" "Scope" 1; src = none }

abbrev passage : Block
passage = record {
  body = para (t "See" false false ∷ tab ∷ xref "c1" "clause" (some "1") ∷ []) "PARAGRAPH" none;
  src = some (record { f = "a.md"; s = "Scope"; b = 0 });
}

abbrev break_block : Block
break_block = record { body = pagebreak; src = none }

abbrev document : DocModel
document =
    add "body" (block heading_block ∷ nothing ∷ [])
      (add "front" (blocks (break_block ∷ []) ∷ []) empty_model)

text_of_passage :
    plain_text (t "See" false false ∷ tab ∷ xref "c1" "clause" (some "1") ∷ []) ≡ "See\t1"
text_of_passage = refl

keys_of_blocks :
    (source_key passage "body" 1 ≡ "md\u{1f}a.md\u{1f}Scope\u{1f}0")
    × (source_key heading_block "body" 0 ≡ "gen\u{1f}body\u{1f}0\u{1f}clause")
unfolding source_key to_text to_decimal
keys_of_blocks = (refl, refl)

owners_of_blocks :
    (owner_of passage ≡ markdown)
    × (owner_of (record { body = other "enumtable"; src = none }) ≡ nodeset)
unfolding owner_of
owners_of_blocks = (refl, refl)

document-Ordered : Ordered document
document-Ordered =
    (add_lem "body" (block heading_block ∷ nothing ∷ [])
      (add "front" (blocks (break_block ∷ []) ∷ []) empty_model)
      (add_lem "front" (blocks (break_block ∷ []) ∷ []) empty_model (refl, tt)).0).0

add_lem_example :
    Ordered (add "body" (block passage ∷ []) document)
    × (blocks_of "body" (add "body" (block passage ∷ []) document)
        ≡ blocks_of "body" document ++ contents (block passage ∷ []))
    × ((other : String)
        → ("body" == other) ≡ false
        → blocks_of other (add "body" (block passage ∷ []) document) ≡ blocks_of other document)
add_lem_example = add_lem "body" (block passage ∷ []) document document-Ordered

from_json-to_json_example :
    (raw : Raw) × (to_json document ≡ ok raw) × (from_json raw ≡ ok document)
from_json-to_json_example = from_json-to_json document document-Ordered

iter_blocks_lem_example : iter_blocks document ≡ ok (all_blocks document.regions)
iter_blocks_lem_example = iter_blocks_lem document document-Ordered

source_key-address_example : address passage "front" 7 ≡ address passage "body" 1
unfolding source_key
source_key-address_example =
    source_key-address passage passage "front" "body" 7 1
      ((refl, (refl, (refl, (refl, tt)))), (refl, (refl, (refl, (refl, (refl, tt))))))
      ((refl, (refl, (refl, (refl, tt)))), (refl, (refl, (refl, (refl, (refl, tt)))))) refl
