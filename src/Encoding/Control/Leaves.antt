-- ===== src/Encoding/Control/Leaves.antt =====
-- opcua_enc/json_control.py, both directions of the values that hold no other value.
use opcua_drafts.Prelude.{ℤ, pos, Result, ok, err, attribute_error, ◌>>=◌, outside}
use opcua_drafts.Encoding.Types.{BuiltInType as B}
use opcua_drafts.Encoding.Values.{
  IdType, Identifier, number, text, guid_bytes, opaque_bytes, absent, NodeId, Obj, null, int, str,
  bytes, dict, guid, node_id, expanded_node_id, qualified_name, localized_text, Entries, entry,
  bool, date_time, xml_element, status_code,
}
use opcua_drafts.Encoding.Control.Access.{
  opt_str, get_ticks, get_bytes, get_value, b64, to_int, unb64, subscript, truth, as_int,
  as_opt_str, make_guid, to_id_type,
}

-- `ident = n.identifier` of an identifier that is not converted
abbrev pub identifier_obj : Identifier → Obj
identifier_obj (number n) = int n
identifier_obj (text s) = str s
identifier_obj (guid_bytes bs) = guid bs
identifier_obj (opaque_bytes bs) = bytes bs
identifier_obj absent = null

abbrev pub id_type_number : IdType → ℤ
id_type_number IdType.numeric = pos 0
id_type_number IdType.string = pos 1
id_type_number IdType.guid = pos 2
id_type_number IdType.opaque = pos 3

unfoldable pub encode_identifier : IdType → Identifier → Result Obj
encode_identifier IdType.guid ident = do bs ← get_bytes (identifier_obj ident); b64 bs
encode_identifier IdType.opaque ident = b64 (identifier_obj ident)
encode_identifier _ ident = ok (identifier_obj ident)

-- `_encode_nodeid`
unfoldable pub encode_node_id : NodeId → Result Obj
unfolding encode_identifier
encode_node_id n = do
  ident ← encode_identifier n.id_type n.identifier
  ok (
      dict (
        entry "ns" (int n.namespace)
          (entry "t" (int (id_type_number n.id_type)) (entry "id" ident Entries.end))))

unfoldable pub encode_expanded : Obj → Result Obj
encode_expanded (expanded_node_id n uri srv) = do
  o ← encode_node_id n
  ok (dict (entry "node" o (entry "nsUri" (opt_str uri) (entry "srv" (int srv) Entries.end))))
encode_expanded _ = err attribute_error

unfoldable pub encode_qualified : Obj → Result Obj
encode_qualified (qualified_name ns name) =
    ok (dict (entry "ns" (int ns) (entry "name" (opt_str name) Entries.end)))
encode_qualified _ = err attribute_error

unfoldable pub encode_localized : Obj → Result Obj
encode_localized null = ok null
encode_localized (localized_text locale txt) =
    ok (dict (entry "locale" (opt_str locale) (entry "text" (opt_str txt) Entries.end)))
encode_localized _ = err attribute_error

unfoldable pub encode_scalar : B → Obj → Result Obj
unfolding encode_expanded encode_qualified encode_localized
encode_scalar B.date_time v = get_ticks v
encode_scalar B.guid v = do bs ← get_bytes v; b64 bs
encode_scalar B.byte_string null = ok null
encode_scalar B.byte_string v = b64 v
encode_scalar B.xml_element null = ok null
encode_scalar B.xml_element v = get_value v
encode_scalar B.status_code v = get_value v
encode_scalar B.node_id (node_id n) = encode_node_id n
encode_scalar B.node_id v = err attribute_error
encode_scalar B.expanded_node_id v = encode_expanded v
encode_scalar B.qualified_name v = encode_qualified v
encode_scalar B.localized_text v = encode_localized v
-- Boolean, the integers, Float, Double and String
encode_scalar _ v = ok v

unfoldable pub decode_identifier : IdType → Obj → Result Identifier
decode_identifier IdType.guid o = do bs ← unb64 o; g ← make_guid bs; ok (guid_bytes g)
decode_identifier IdType.opaque o = do bs ← unb64 o; ok (opaque_bytes bs)
decode_identifier _ (int n) = ok (number n)
decode_identifier _ (str s) = ok (text s)
decode_identifier _ null = ok absent
decode_identifier _ _ = err outside

-- `_decode_nodeid`
unfoldable pub decode_node_id : Obj → Result NodeId
unfolding decode_identifier
decode_node_id obj = do
  t ← subscript obj "t"
  n ← as_int t
  idt ← to_id_type n
  o ← subscript obj "id"
  ident ← decode_identifier idt o
  ns ← subscript obj "ns"
  m ← as_int ns
  ok (record { namespace = m; id_type = idt; identifier = ident })

unfoldable pub decode_expanded : Obj → Result Obj
decode_expanded obj = do
  o ← subscript obj "node"
  n ← decode_node_id o
  u ← subscript obj "nsUri"
  uri ← as_opt_str u
  s ← subscript obj "srv"
  srv ← as_int s
  ok (expanded_node_id n uri srv)

unfoldable pub decode_qualified : Obj → Result Obj
decode_qualified obj = do
  o ← subscript obj "ns"
  ns ← as_int o
  p ← subscript obj "name"
  name ← as_opt_str p
  ok (qualified_name ns name)

unfoldable pub decode_localized : Obj → Result Obj
decode_localized null = ok null
decode_localized obj = do
  o ← subscript obj "locale"
  locale ← as_opt_str o
  p ← subscript obj "text"
  txt ← as_opt_str p
  ok (localized_text locale txt)

-- int(obj), and None for None
decode_integer : Obj → Result Obj
decode_integer null = ok null
decode_integer o = do n ← to_int o; ok (int n)

unfoldable pub decode_scalar : B → Obj → Result Obj
unfolding decode_integer decode_expanded decode_qualified decode_localized
decode_scalar B.boolean o = ok (bool (truth o))
decode_scalar B.float o = ok o
decode_scalar B.double o = ok o
decode_scalar B.string o = ok o
decode_scalar B.date_time o = do n ← to_int o; ok (date_time n)
decode_scalar B.guid o = do bs ← unb64 o; g ← make_guid bs; ok (guid g)
decode_scalar B.byte_string null = ok null
decode_scalar B.byte_string o = do bs ← unb64 o; ok (bytes bs)
decode_scalar B.xml_element o = do s ← as_opt_str o; ok (xml_element s)
decode_scalar B.status_code o = do n ← to_int o; ok (status_code n)
decode_scalar B.node_id o = do n ← decode_node_id o; ok (node_id n)
decode_scalar B.expanded_node_id o = decode_expanded o
decode_scalar B.qualified_name o = decode_qualified o
decode_scalar B.localized_text o = decode_localized o
-- the integers
decode_scalar _ o = decode_integer o
