-- ===== src/Encoding/Control/Registry.antt =====
-- TypeRegistry of opcua_enc/json_control.py.
use opcua_drafts.Prelude.{
  ℕ, ◌+◌, ◌*◌, ◌-◌, pos, String, code, ◌&&◌, none, some, List, [], ◌∷◌, leb, eqb, ◌==◌,
  if◌then◌else◌, Result, ok, err, assertion_error, key_error, outside, ◌>>=◌, ◌≡◌, refl,
}
use opcua_drafts.Encoding.Types.{Struct, Fields, structure, structure_type, struct_type_id}
use opcua_drafts.Encoding.Values.{IdType, number, NodeId, node_id_eq}

-- `_by_key`, the latest entry first: a dict with the keys (namespace, id_type, identifier).
abbrev pub Registry : Type 0
Registry = List (NodeId × Struct)

digits : ℕ → String → Result ℕ
digits n String.[] = ok n
digits n (String.◌∷◌ c s) =
    let rest = digits (n * 10 + (code c - b'0')) s in
    if leb b'0' (code c) && leb (code c) b'9' then rest else err outside

-- int(text) of ASCII digits; the other texts that `int` accepts or refuses are outside the model.
unfoldable pub int_of_text : String → Result ℕ
unfolding digits
int_of_text s = if s == "" then err outside else digits 0 s

-- `_parse`: the form "i=<n>".
unfoldable pub parse_key : String → Result NodeId
unfolding int_of_text
parse_key (String.◌∷◌ c (String.◌∷◌ d s)) =
    if eqb (code c) b'i' && eqb (code d) b'='
    then (do
      n ← int_of_text s
      ok (record { namespace = pos 0; id_type = IdType.numeric; identifier = number (pos n) }))
    else err assertion_error
parse_key _ = err assertion_error

-- `__init__`, the loop over the structures that are left.
unfoldable pub register : List Struct → Registry → Result Registry
unfolding parse_key
register [] reg = ok reg
register (s ∷ ss) reg = elim (struct_type_id s) [
  | none ↦ register ss reg
  | some t ↦ if t == "" then register ss reg else do key ← parse_key t; register ss ((key, s) ∷ reg)
]

unfoldable pub type_registry : List Struct → Result Registry
unfolding register
type_registry structs = register structs []

unfoldable pub resolve : Registry → NodeId → Result Struct
resolve [] n = err key_error
resolve ((key, s) ∷ reg) n = if node_id_eq key n then ok s else resolve reg n

-- POINT of opcua_enc/corpus.py, with no fields.
abbrev point : Struct
point = structure_type "Point" Fields.end structure (some "i=3001") (some "i=3002")

abbrev point_id : NodeId
point_id = record { namespace = pos 0; id_type = IdType.numeric; identifier = number (pos 3001) }

resolve-point : (type_registry (point ∷ []) >>= λ reg. resolve reg point_id) ≡ ok point
unfolding type_registry resolve
resolve-point = refl
