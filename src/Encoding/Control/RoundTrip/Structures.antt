-- ===== src/Encoding/Control/RoundTrip/Structures.antt =====
-- Round trips of structures, unions and the bodies of ExtensionObjects.
use opcua_drafts.Prelude.{
  ℕ, String, true, false, Option, none, some, ◌≡◌, refl, Result, ok, eq_refl, and_also-intro, ap,
  inl,
}
use opcua_drafts.Encoding.Types.{
  BuiltInType as B, Descriptor, builtin, struct, Fields, Struct, structure_type, StructureKind,
  union,
}
use opcua_drafts.Encoding.Values.{
  NodeId, Obj, null, str, dict, extension_object, struct_value, union_value, Entries, entry,
  canonical_equal, lookup,
}
use opcua_drafts.Encoding.Values.Laws.{node_id_eq_refl}
use opcua_drafts.Encoding.Control.Access.{get, subscript}
use opcua_drafts.Encoding.Control.Registry.{Registry, resolve}
use opcua_drafts.Encoding.Control.Encode.{encode_body, find_field}
use opcua_drafts.Encoding.Control.Decode.{decode_body}
use opcua_drafts.Encoding.Control.Typed.{
  HasDistinctNames, HaveValues, KeysDeclared, is_union, encodes_null, IsNodeId,
}
use opcua_drafts.Encoding.Control.RoundTrip.{RoundTrips, is_json, only_double}
use opcua_drafts.Encoding.Control.RoundTrip.Identifiers.{node_id_trip}
use opcua_drafts.Encoding.Control.RoundTrip.Parts.{encodes_null-is_null}
use opcua_drafts.Encoding.Control.RoundTrip.Members.{fields_written, fields_read, fields_equal}
use opcua_drafts.Encoding.Control.RoundTrip.Keys.{keys_within_refl, IsFresh-end}

module _ (single_bits : ℕ → Option ℕ) (encode decode : Descriptor → Obj → Result Obj)
    (P : Descriptor → Obj → Type 0)
    (trips : (t : Descriptor) (v : Obj) → P t v → RoundTrips single_bits encode decode t v)
    (reg : Registry) where
  abbrev Trip : Descriptor → Obj → Type 0
  Trip = RoundTrips single_bits (encode_body encode reg) (decode_body decode reg)

  pub union_null-Trip :
      (n : String) (fs : Fields) (t e : Option String)
      → Trip (struct (structure_type n fs union t e)) (union_value none null)
  unfolding encode_body decode_body get lookup is_json canonical_equal
  union_null-Trip n fs t e = record {
    encoded = dict (entry "switch" null Entries.end);
    decoded = union_value none null;
    encodes = refl;
    decodes = refl;
    equal = λ single c. refl;
    json = refl;
    not_null = λ _. refl;
  }

  pub union_field-Trip :
      (n f : String) (fs : Fields) (t e : Option String) (u : Descriptor) (v : Obj)
      → find_field f fs ≡ ok u
      → P u v
      → Trip (struct (structure_type n fs union t e)) (union_value (some f) v)
  unfolding encode_body decode_body get subscript lookup is_json canonical_equal
  union_field-Trip n f fs t e u v found p =
      let r = trips u v p in
      record {
        encoded = dict (entry "switch" (str f) (entry "value" r.encoded Entries.end));
        decoded = union_value (some f) r.decoded;
        encodes = rw (found, r.encodes);
        decodes = rw (found, r.decodes);
        equal =
            only_double (struct (structure_type n fs union t e))
              (λ s.
                canonical_equal single_bits (union_value (some f) r.decoded)
                  (union_value (some f) v) s
                ≡ ok true)
              refl (and_also-intro _ _ (ap ok (eq_refl f)) (r.equal false (inl refl)));
        json = rw r.json;
        not_null = λ _. refl;
      }

  pub plain-Trip :
      (n : String) (fs : Fields) (k : StructureKind) (t e m : Option String) (values : Entries)
      → is_union k ≡ false
      → HasDistinctNames fs
      → HaveValues P fs values
      → KeysDeclared fs values
      → Trip (struct (structure_type n fs k t e)) (struct_value values m)
  unfolding encode_body decode_body is_json canonical_equal
  plain-Trip n fs union t e m values not d h k = cc
  plain-Trip n fs k t e m values not d h declared =
      let w =
        fields_written single_bits encode decode P trips values fs Entries.end d h (IsFresh-end fs)
          refl in
      let r =
        fields_read single_bits encode decode P trips values fs w.result Entries.end w.written tt in
      record {
        encoded = dict w.result;
        decoded = struct_value r.result (some n);
        encodes = rw w.encodes;
        decodes = rw r.decodes;
        equal =
            only_double (struct (structure_type n fs k t e))
              (λ s.
                canonical_equal single_bits (struct_value r.result (some n)) (struct_value values m)
                  s
                ≡ ok true)
              refl
              (fields_equal single_bits encode decode P trips values fs w.result r declared
                (keys_within_refl values));
        json = w.json;
        not_null = λ _. refl;
      }

  pub extension_object_body-Trip :
      (n : NodeId) (v : Obj) (s : Struct)
      → IsNodeId n
      → resolve reg n ≡ ok s
      → encodes_null v ≡ false
      → P (struct s) v
      → Trip (builtin B.extension_object) (extension_object n v)
  unfolding encode_body decode_body subscript lookup is_json canonical_equal
  extension_object_body-Trip n v s h found here p =
      let t = node_id_trip n h in
      let r = trips (struct s) v p in
      record {
        encoded = dict (entry "typeId" t.written (entry "body" r.encoded Entries.end));
        decoded = extension_object n r.decoded;
        encodes = rw (encodes_null-is_null v here, found, t.writes, r.encodes);
        decodes = rw (t.reads, r.not_null here, found, r.decodes);
        equal =
            only_double (builtin B.extension_object)
              (λ f.
                canonical_equal single_bits (extension_object n r.decoded) (extension_object n v) f
                ≡ ok true)
              refl (and_also-intro _ _ (ap ok (node_id_eq_refl n)) (r.equal false (inl refl)));
        json = rw (t.json, r.json);
        not_null = λ _. refl;
      }
