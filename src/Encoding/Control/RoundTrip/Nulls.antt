-- ===== src/Encoding/Control/RoundTrip/Nulls.antt =====
-- Where the codec merges two values: an XmlElement without a value as an element of an array.
use opcua_drafts.Prelude.{ℕ, suc, Bool, true, false, and_also, Option, none, ◌≡◌, refl, ok, arith}
use opcua_drafts.Encoding.Types.{BuiltInType as B, builtin, array, Descriptor}
use opcua_drafts.Encoding.Values.{
  null, list, xml_element, Items, cons, same_length, canonical_equal,
}
use opcua_drafts.Encoding.Control.Access.{iterate, get_value}
use opcua_drafts.Encoding.Control.Registry.{Registry}
use opcua_drafts.Encoding.Control.Encode.{encode_value, encode_items}
use opcua_drafts.Encoding.Control.Decode.{decode_value, decode_items}

encode_items-of_array :
    (reg : Registry) (n : ℕ) (t : Descriptor) (b : Bool) (vs os : Items)
    → encode_value reg (suc n) (array t b) (list vs) ≡ ok (list os)
    → encode_items (encode_value reg n) t vs ≡ ok os
unfolding encode_value iterate
encode_items-of_array reg n t b vs os h = ground arith

decode_items-of_array :
    (reg : Registry) (n : ℕ) (t : Descriptor) (b : Bool) (os ws : Items)
    → decode_value reg (suc n) (array t b) (list os) ≡ ok (list ws)
    → decode_items (decode_value reg n) t os ≡ ok ws
unfolding decode_value iterate
decode_items-of_array reg n t b os ws h = ground arith

-- An array of XmlElements whose first element is an XmlElement without a value: if the array of the
-- other elements is encoded and decoded, so is the whole, and the result differs from the value.
-- The element is written as null, and null is read back as None.
pub xml_element_none_lost :
    (single_bits : ℕ → Option ℕ) (reg : Registry) (n : ℕ) (b single : Bool) (vs os ws : Items)
    → encode_value reg (suc (suc n)) (array (builtin B.xml_element) b) (list vs) ≡ ok (list os)
    → decode_value reg (suc (suc n)) (array (builtin B.xml_element) b) (list os) ≡ ok (list ws)
    → (encode_value reg
          (suc (suc n))
          (array (builtin B.xml_element) b)
          (list (cons (xml_element none) vs))
        ≡ ok (list (cons null os)))
      × (decode_value reg (suc (suc n)) (array (builtin B.xml_element) b) (list (cons null os))
          ≡ ok (list (cons null ws)))
      × (canonical_equal single_bits
            (list (cons null ws))
            (list (cons (xml_element none) vs))
            single
          ≡ ok false)
unfolding encode_value decode_value encode_items decode_items iterate get_value canonical_equal
xml_element_none_lost single_bits reg n b single vs os ws e d = (
  rw (encode_items-of_array reg (suc n) (builtin B.xml_element) b vs os e),
  rw (decode_items-of_array reg (suc n) (builtin B.xml_element) b os ws d),
  differ (same_length ws vs),
)
  where
    differ : (c : Bool) → and_also (ok c) (ok false) ≡ ok false
    differ true = refl
    differ false = refl
