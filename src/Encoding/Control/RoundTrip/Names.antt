-- ===== src/Encoding/Control/RoundTrip/Names.antt =====
-- Round trips of node ids, qualified names and localized texts as built-in values.
use opcua_drafts.Prelude.{
  ℕ, ℤ, String, Option, refl, Result, int_eq_refl, &&-intro, and_also-intro, ap, ok,
}
use opcua_drafts.Encoding.Types.{BuiltInType as B, Descriptor, builtin}
use opcua_drafts.Encoding.Values.{
  NodeId, Obj, null, int, dict, node_id, expanded_node_id, qualified_name, localized_text,
  extension_object, Entries, entry, canonical_equal, lookup,
}
use opcua_drafts.Encoding.Values.Laws.{option_str_eq_refl, node_id_eq_refl}
use opcua_drafts.Encoding.Control.Access.{opt_str, subscript, as_int}
use opcua_drafts.Encoding.Control.Registry.{Registry}
use opcua_drafts.Encoding.Control.Encode.{encode_body}
use opcua_drafts.Encoding.Control.Decode.{decode_body}
use opcua_drafts.Encoding.Control.Typed.{IsNodeId}
use opcua_drafts.Encoding.Control.RoundTrip.{RoundTrips, is_json}
use opcua_drafts.Encoding.Control.RoundTrip.Identifiers.{
  node_id_trip, as_opt_str-opt_str, opt_str-is_json,
}

module _ (single_bits : ℕ → Option ℕ) (encode decode : Descriptor → Obj → Result Obj)
    (reg : Registry) where
  abbrev Trip : Descriptor → Obj → Type 0
  Trip = RoundTrips single_bits (encode_body encode reg) (decode_body decode reg)

  pub node_id_value-Trip : (n : NodeId) → IsNodeId n → Trip (builtin B.node_id) (node_id n)
  unfolding encode_body decode_body canonical_equal
  node_id_value-Trip n h =
      let t = node_id_trip n h in
      record {
        encoded = t.written;
        decoded = node_id n;
        encodes = t.writes;
        decodes = rw t.reads;
        equal = λ single c. ap ok (node_id_eq_refl n);
        json = t.json;
        not_null = λ _. t.not_null;
      }

  pub expanded_node_id-Trip :
      (n : NodeId) (u : Option String) (s : ℤ)
      → IsNodeId n
      → Trip (builtin B.expanded_node_id) (expanded_node_id n u s)
  unfolding encode_body decode_body canonical_equal subscript lookup as_int is_json
  expanded_node_id-Trip n u s h =
      let t = node_id_trip n h in
      record {
        encoded =
            dict (
              entry "node" t.written (entry "nsUri" (opt_str u) (entry "srv" (int s) Entries.end)));
        decoded = expanded_node_id n u s;
        encodes = rw t.writes;
        decodes = rw (t.reads, as_opt_str-opt_str u);
        equal = λ single c.
            ap ok (&&-intro (&&-intro (node_id_eq_refl n) (option_str_eq_refl u)) (int_eq_refl s));
        json = rw (t.json, opt_str-is_json u);
        not_null = λ _. refl;
      }

  pub qualified_name-Trip :
      (n : ℤ) (s : Option String) → Trip (builtin B.qualified_name) (qualified_name n s)
  unfolding encode_body decode_body canonical_equal subscript lookup as_int is_json
  qualified_name-Trip n s = record {
    encoded = dict (entry "ns" (int n) (entry "name" (opt_str s) Entries.end));
    decoded = qualified_name n s;
    encodes = refl;
    decodes = rw (as_opt_str-opt_str s);
    equal = λ single c. ap ok (&&-intro (int_eq_refl n) (option_str_eq_refl s));
    json = rw (opt_str-is_json s);
    not_null = λ _. refl;
  }

  pub localized_text-Trip :
      (l s : Option String) → Trip (builtin B.localized_text) (localized_text l s)
  unfolding encode_body decode_body canonical_equal subscript lookup is_json
  localized_text-Trip l s = record {
    encoded = dict (entry "locale" (opt_str l) (entry "text" (opt_str s) Entries.end));
    decoded = localized_text l s;
    encodes = refl;
    decodes = rw (as_opt_str-opt_str l, as_opt_str-opt_str s);
    equal = λ single c. ap ok (&&-intro (option_str_eq_refl l) (option_str_eq_refl s));
    json = rw (opt_str-is_json l, opt_str-is_json s);
    not_null = λ _. refl;
  }

  pub extension_object_null-Trip :
      (n : NodeId) → IsNodeId n → Trip (builtin B.extension_object) (extension_object n null)
  unfolding encode_body decode_body canonical_equal subscript lookup is_json
  extension_object_null-Trip n h =
      let t = node_id_trip n h in
      record {
        encoded = dict (entry "typeId" t.written (entry "body" null Entries.end));
        decoded = extension_object n null;
        encodes = rw t.writes;
        decodes = rw t.reads;
        equal = λ single c. and_also-intro _ _ (ap ok (node_id_eq_refl n)) refl;
        json = rw t.json;
        not_null = λ _. refl;
      }
