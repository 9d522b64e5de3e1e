-- ===== src/Encoding/Control/RoundTrip/Identifiers.antt =====
-- Round trips of node ids, `_encode_nodeid` and `_decode_nodeid`.
use opcua_drafts.Prelude.{String, true, false, Option, none, some, ◌≡◌, refl, ok, arith, All}
use opcua_drafts.Base64.{b64encode}
use opcua_drafts.Base64.RoundTrip.{IsByte, b64decode-b64encode}
use opcua_drafts.Encoding.Values.{
  Bytes, IdType, Identifier, number, text, guid_bytes, opaque_bytes, NodeId, Obj, int, str, dict,
  Entries, entry, lookup,
}
use opcua_drafts.Encoding.Control.Access.{
  is_null, opt_str, as_opt_str, get_bytes, b64, subscript, as_int, unb64, make_guid, to_id_type,
}
use opcua_drafts.Encoding.Control.Leaves.{
  encode_node_id, encode_identifier, id_type_number, decode_node_id, decode_identifier,
}
use opcua_drafts.Encoding.Control.Typed.{IsGuid, IsIdentifier, IsNodeId}
use opcua_drafts.Encoding.Control.RoundTrip.{is_json}

pub unb64-b64encode : (bs : Bytes) → All IsByte bs → unb64 (str (b64encode bs)) ≡ ok bs
unfolding unb64
unb64-b64encode bs h = b64decode-b64encode bs h

pub make_guid_lem : (bs : Bytes) → IsGuid bs → make_guid bs ≡ ok bs
unfolding make_guid
make_guid_lem bs h = ground arith

pub as_opt_str-opt_str : (s : Option String) → as_opt_str (opt_str s) ≡ ok s
unfolding as_opt_str
as_opt_str-opt_str none = refl
as_opt_str-opt_str (some s) = refl

pub opt_str-is_json : (s : Option String) → is_json (opt_str s) ≡ true
unfolding is_json
opt_str-is_json none = refl
opt_str-is_json (some s) = refl

-- An identifier of its kind is written as JSON and read back.
pub record IdentifierTrip (t : IdType) (n : Identifier) : Type 0 where
  pub written : Obj
  pub writes : encode_identifier t n ≡ ok written
  pub reads : decode_identifier t written ≡ ok n
  pub json : is_json written ≡ true

identifier_trip : (t : IdType) (n : Identifier) → IsIdentifier t n → IdentifierTrip t n
unfolding encode_identifier decode_identifier get_bytes b64 is_json
identifier_trip IdType.numeric (number n) h = record {
  written = int n;
  writes = refl;
  reads = refl;
  json = refl;
}
identifier_trip IdType.string (text s) h = record {
  written = str s;
  writes = refl;
  reads = refl;
  json = refl;
}
identifier_trip IdType.guid (guid_bytes bs) h = record {
  written = str (b64encode bs);
  writes = refl;
  reads = rw (unb64-b64encode bs h.1, make_guid_lem bs h);
  json = refl;
}
identifier_trip IdType.opaque (opaque_bytes bs) h = record {
  written = str (b64encode bs);
  writes = refl;
  reads = rw (unb64-b64encode bs h);
  json = refl;
}
identifier_trip _ _ h = absurd h

to_id_type-number : (t : IdType) → to_id_type (id_type_number t) ≡ ok t
unfolding to_id_type
to_id_type-number IdType.numeric = refl
to_id_type-number IdType.string = refl
to_id_type-number IdType.guid = refl
to_id_type-number IdType.opaque = refl

pub record NodeIdTrip (n : NodeId) : Type 0 where
  pub written : Obj
  pub writes : encode_node_id n ≡ ok written
  pub reads : decode_node_id written ≡ ok n
  pub json : is_json written ≡ true
  pub not_null : is_null written ≡ false

-- `_decode_nodeid` undoes `_encode_nodeid`.
pub node_id_trip : (n : NodeId) → IsNodeId n → NodeIdTrip n
unfolding encode_node_id decode_node_id subscript lookup as_int is_json
node_id_trip n h =
    let t = identifier_trip n.id_type n.identifier h in
    record {
      written = dict (
          entry "ns" (int n.namespace)
            (entry "t" (int (id_type_number n.id_type)) (entry "id" t.written Entries.end)));
      writes = rw t.writes;
      reads = rw (to_id_type-number n.id_type, t.reads);
      json = rw t.json;
      not_null = refl;
    }
