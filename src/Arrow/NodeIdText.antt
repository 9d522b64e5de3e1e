-- ===== src/Arrow/NodeIdText.antt =====
-- arrow_codec.py: the text form of NodeIds and ExpandedNodeIds.
pub mod RoundTrip
pub mod Expanded
use Prim.Native.String.{String, [], ◌∷◌}
use opcua_drafts.Prelude.{
  ℕ, ℤ, pos, negsuc, Bool, true, false, Option, none, some, ◌≡◌, refl, Result, ok, err, value_error,
  attribute_error, type_error, outside, ◌>>=◌, from_option, int_eq, ◌==◌, if◌then◌else◌,
}
use opcua_drafts.Base64.{b64encode, b64decode}
use opcua_drafts.Text.{append, remove_prefix, split_at}
use opcua_drafts.Text.Decimal.{to_text, parse_int}
use opcua_drafts.Text.Uuid.{uuid_text, uuid_bytes}
use opcua_drafts.Encoding.Values.{
  IdType, Identifier, number, text, guid_bytes, opaque_bytes, absent, NodeId, Bytes,
}
use opcua_drafts.Encoding.Control.Access.{make_guid}

-- f"ns={n.namespace};", or nothing
abbrev pub namespace_prefix : ℤ → String
namespace_prefix ns = if int_eq ns (pos 0) then "" else append "ns=" (append (to_text ns) ";")

-- The part of an identifier that does not fit its IdType is `outside`.
unfoldable pub identifier_text : IdType → Identifier → Result String
identifier_text IdType.numeric (number n) = ok (append "i=" (to_text n))
identifier_text IdType.numeric _ = err outside
identifier_text IdType.string (text s) = ok (append "s=" s)
identifier_text IdType.string absent = ok "s=None"
identifier_text IdType.string _ = err outside
identifier_text IdType.guid (guid_bytes bs) = ok (append "g=" (uuid_text bs))
identifier_text IdType.guid _ = err attribute_error
identifier_text IdType.opaque (opaque_bytes bs) = ok (append "b=" (b64encode bs))
identifier_text IdType.opaque _ = err type_error

-- `_nodeid_to_text`
unfoldable pub node_id_to_text : NodeId → Result String
unfolding identifier_text
node_id_to_text n = do
  body ← identifier_text n.id_type n.identifier
  ok (append (namespace_prefix n.namespace) body)

-- s.partition("=")
unfoldable pub partition : String → String × String
partition s = elim (split_at "=" s) [ none ↦ (s, "") | some p ↦ p ]

unfoldable pub identifier_from : String → String → Result (IdType × Identifier)
identifier_from kind body =
    if kind == "i"
    then (do n ← parse_int body; ok (IdType.numeric, number n))
    else if kind == "s"
    then ok (IdType.string, text body)
    else if kind == "g"
    then (do bs ← uuid_bytes body; g ← make_guid bs; ok (IdType.guid, guid_bytes g))
    else if kind == "b"
    then (do bs ← b64decode body; ok (IdType.opaque, opaque_bytes bs))
    else err value_error

abbrev with_namespace : ℤ → IdType × Identifier → NodeId
with_namespace ns p = record { namespace = ns; id_type = p.0; identifier = p.1 }

-- The last five branches of `_nodeid_from_text`, behind the namespace.
unfoldable pub body_from_text : ℤ → String → Result NodeId
unfolding identifier_from partition
body_from_text ns s = do let p = partition s; i ← identifier_from p.0 p.1; ok (with_namespace ns i)

-- `_nodeid_from_text`
unfoldable pub node_id_from_text : String → Result NodeId
unfolding body_from_text
node_id_from_text s = elim (remove_prefix "ns=" s) [
  | none ↦ body_from_text (pos 0) s
  | some rest ↦ do
    p ← from_option value_error (split_at ";" rest)
    ns ← parse_int p.0
    body_from_text ns p.1
]

pub record ExpandedNodeId : Type 0 where
  pub node_id : NodeId
  pub namespace_uri : Option String
  pub server_index : ℤ

abbrev pub server_prefix : ℤ → String
server_prefix srv = if int_eq srv (pos 0) then "" else append "svr=" (append (to_text srv) ";")

abbrev pub uri_prefix : Option String → String
uri_prefix none = ""
uri_prefix (some uri) = append "nsu=" (append uri ";")

-- `_expandednodeid_to_text`
unfoldable pub expanded_to_text : ExpandedNodeId → Result String
expanded_to_text e = do
  body ← node_id_to_text e.node_id
  ok (append (append (server_prefix e.server_index) (uri_prefix e.namespace_uri)) body)

abbrev expanded : ℤ → Option String → NodeId → ExpandedNodeId
expanded srv uri n = record { node_id = n; namespace_uri = uri; server_index = srv }

unfoldable pub uri_from_text : ℤ → String → Result ExpandedNodeId
uri_from_text srv s = elim (remove_prefix "nsu=" s) [
  | none ↦ do n ← node_id_from_text s; ok (expanded srv none n)
  | some rest ↦ do
    p ← from_option value_error (split_at ";" rest)
    n ← node_id_from_text p.1
    ok (expanded srv (some p.0) n)
]

-- `_expandednodeid_from_text`
unfoldable pub expanded_from_text : String → Result ExpandedNodeId
unfolding uri_from_text
expanded_from_text s = elim (remove_prefix "svr=" s) [
  | none ↦ uri_from_text (pos 0) s
  | some rest ↦ do
    p ← from_option value_error (split_at ";" rest)
    srv ← parse_int p.0
    uri_from_text srv p.1
]
