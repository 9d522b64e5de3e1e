-- ===== src/Encoding/Control/Tests.antt =====
-- The control codec on values of opcua_enc/corpus.py, and the witnesses of its theorems.
use opcua_drafts.Prelude.{pos, true, false, none, some, [], ◌≡◌, err, overflow_error, refl, ok}
use opcua_drafts.Encoding.Types.{
  BuiltInType as B, Descriptor, builtin, array, struct, Fields, field, structure_type,
  structure_with_optional_fields, descriptor_eq,
}
use opcua_drafts.Encoding.Values.{
  Obj, null, int, str, list, dict, xml_element, struct_value, nil, cons, Entries, entry,
  canonical_equal, lookup, insert, float, variant,
}
use opcua_drafts.Encoding.Control.Encode.{encode_value, encode_items}
use opcua_drafts.Encoding.Control.Decode.{decode_value, decode_items}
use opcua_drafts.Encoding.Control.Access.{iterate}
use opcua_drafts.Encoding.Control.RoundTrip.Nulls.{xml_element_none_lost}

-- PERSON
abbrev person_fields : Fields
person_fields = field "Name" (builtin B.string) false false (
    field "Age" (builtin B.int32) false false
      (field "Email" (builtin B.string) true false Fields.end))

abbrev person : Descriptor
person = struct (structure_type "Person" person_fields structure_with_optional_fields none none)

-- The keys stand in another order than the fields.
abbrev ada : Obj
ada = struct_value (entry "Age" (int (pos 36)) (entry "Name" (str "Ada") Entries.end)) none

encode_ada :
    encode_value [] 2 person ada
    ≡ ok (dict (entry "Name" (str "Ada") (entry "Age" (int (pos 36)) Entries.end)))
unfolding encode_value lookup insert
encode_ada = refl

xml_element_none_lost_example :
    (encode_value [] 2 (array (builtin B.xml_element) true) (list (cons (xml_element none) nil))
      ≡ ok (list (cons null nil)))
    × (decode_value [] 2 (array (builtin B.xml_element) true) (list (cons null nil))
        ≡ ok (list (cons null nil)))
    × (canonical_equal some (list (cons null nil)) (list (cons (xml_element none) nil)) false
        ≡ ok false)
unfolding encode_value decode_value iterate encode_items decode_items
xml_element_none_lost_example = xml_element_none_lost some [] 0 true false nil nil nil refl refl

-- struct.pack raises OverflowError for a number that does not fit.
float_overflow :
    canonical_equal
      (λ f. none)
      (variant (some (builtin B.float)) (float 7) none)
      (variant (some (builtin B.float)) (float 7) none)
      false
    ≡ err overflow_error
unfolding canonical_equal descriptor_eq
float_overflow = refl

-- The lengths are compared before the elements.
other_length : canonical_equal (λ f. none) (list (cons (float 7) nil)) (list nil) true ≡ ok false
unfolding canonical_equal
other_length = refl
