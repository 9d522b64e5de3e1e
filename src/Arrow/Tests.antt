-- ===== src/Arrow/Tests.antt =====
-- The text forms on concrete ids, and the witnesses of their theorems.
use Prim.Native.String.{String}
use opcua_drafts.Prelude.{pos, some, ◌≡◌, ◌≢◌, refl, ok}
use opcua_drafts.Encoding.Values.{IdType, text, NodeId}
use opcua_drafts.Arrow.NodeIdText.{
  node_id_to_text, node_id_from_text, ExpandedNodeId, expanded_to_text, expanded_from_text,
}
use opcua_drafts.Arrow.NodeIdText.RoundTrip.{node_id_from_text-node_id_to_text}
use opcua_drafts.Arrow.NodeIdText.Expanded.{
  expanded_from_text-expanded_to_text, expanded_uri_with_semicolon,
}
use opcua_drafts.Text.Decimal.{to_text, to_decimal}

abbrev pump : NodeId
pump = record { namespace = pos 2; id_type = IdType.string; identifier = text "a=b;c" }

pump_text : node_id_to_text pump ≡ ok "ns=2;s=a=b;c"
unfolding node_id_to_text to_text to_decimal
pump_text = refl

node_id_from_text-node_id_to_text_example :
    (s : String) × (node_id_to_text pump ≡ ok s) × (node_id_from_text s ≡ ok pump)
node_id_from_text-node_id_to_text_example = node_id_from_text-node_id_to_text pump tt

abbrev remote : ExpandedNodeId
remote = record { node_id = pump; namespace_uri = some "urn:x"; server_index = pos 3 }

expanded_from_text-expanded_to_text_example :
    (s : String) × (expanded_to_text remote ≡ ok s) × (expanded_from_text s ≡ ok remote)
expanded_from_text-expanded_to_text_example =
    expanded_from_text-expanded_to_text remote tt (refl, (refl, (refl, (refl, (refl, tt)))))

abbrev split_uri : ExpandedNodeId
split_uri = record { node_id = pump; namespace_uri = some "a;b"; server_index = pos 0 }

expanded_uri_with_semicolon_example :
    (s : String) × (expanded_to_text split_uri ≡ ok s) × (expanded_from_text s ≢ ok split_uri)
expanded_uri_with_semicolon_example = expanded_uri_with_semicolon (pos 0) "a" "b" pump tt (refl, tt)
