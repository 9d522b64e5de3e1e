-- ===== src/Encoding/SymbolicId/Tests.antt =====
-- Identifiers of the self-test of symbolic_id.py, and the witness of the theorem.
use opcua_drafts.Prelude.{String, true, ◌≤◌, [], ◌∷◌, ◌≡◌, refl}
use opcua_drafts.Encoding.SymbolicId.{
  len, is_word, is_edge, normalize_label, symbolic_id, is_id_char, is_id, is_valid_xregistry_id,
}
use opcua_drafts.Encoding.SymbolicId.Validity.{is_hex, symbolic_id-valid}

-- A stand-in for str.lower, which the examples do not need.
abbrev same_case : String → String
same_case s = s

pumps :
    symbolic_id same_case "0123abcd" ("org" ∷ "contoso" ∷ "UA" ∷ "Pumps" ∷ []) []
    ≡ "org.contoso.UA.Pumps"
unfolding symbolic_id normalize_label is_word is_edge
pumps = refl

archive :
    symbolic_id same_case "0123abcd" ("pkg.usdz[tex" ∷ "a.png]" ∷ []) [] ≡ "pkg.usdz-tex.a.png"
unfolding symbolic_id normalize_label is_word is_edge
archive = refl

sibling : symbolic_id same_case "0123abcd" ("a.b" ∷ []) ("a.b" ∷ []) ≡ "a.b.0123abcd"
unfolding symbolic_id normalize_label is_word is_edge
sibling = refl

dots : symbolic_id same_case "0123abcd" ("..." ∷ []) [] ≡ "_"
unfolding symbolic_id normalize_label is_word is_edge
dots = refl

-- `$` matches before a newline at the end, so the test accepts a text that the pattern's
-- alphabet does not allow.
newline_accepted : is_valid_xregistry_id "a\n" ≡ true
unfolding is_valid_xregistry_id is_id is_id_char is_word is_edge
newline_accepted = refl

symbolic_id-valid_example :
    (is_id (symbolic_id same_case "0123abcd" ("a.b" ∷ []) ("a.b" ∷ [])) ≡ true)
    × (len (symbolic_id same_case "0123abcd" ("a.b" ∷ []) ("a.b" ∷ [])) ≤ 128)
    × (is_valid_xregistry_id (symbolic_id same_case "0123abcd" ("a.b" ∷ []) ("a.b" ∷ [])) ≡ true)
unfolding is_hex
symbolic_id-valid_example =
    symbolic_id-valid same_case "0123abcd" ("a.b" ∷ []) ("a.b" ∷ []) refl refl
