-- ===== src/Encoding/Control/RoundTrip/Variants.antt =====
-- Round trips of Variants.
use opcua_drafts.Prelude.{
  ℕ, ℤ, pos, Bool, true, false, Option, none, some, List, ◌≡◌, refl, Result, ok, eqb_refl, &&-intro,
  and_also-intro, ap, int_eq,
}
use opcua_drafts.Encoding.Types.{BuiltInType as B, Descriptor, builtin, type_number, descriptor_eq}
use opcua_drafts.Encoding.Values.{
  Obj, null, int, list, dict, variant, Items, Entries, entry, canonical_equal, lookup, has_key,
  is_single_float_type, list_eq,
}
use opcua_drafts.Encoding.Values.Laws.{option_eq_refl, ints_eq_refl}
use opcua_drafts.Encoding.Control.Access.{
  subscript, get, contains, iterate, as_int, truth, to_built_in_type,
}
use opcua_drafts.Encoding.Control.Registry.{Registry}
use opcua_drafts.Encoding.Control.Encode.{encode_body, variant_dict}
use opcua_drafts.Encoding.Control.Decode.{decode_body, decode_items}
use opcua_drafts.Encoding.Control.Typed.{RestorableParts, is_list}
use opcua_drafts.Encoding.Control.RoundTrip.{RoundTrips, is_json, Compares, own_Compares}
use opcua_drafts.Encoding.Control.RoundTrip.Parts.{
  list_trip, list_equal, as_ints-int_items, int_items-are_json,
}

-- Every member of the enumeration is found by its number.
to_built_in_type-type_number : (b : B) → to_built_in_type (pos (type_number b)) ≡ ok b
unfolding to_built_in_type
to_built_in_type-type_number B.boolean = refl
to_built_in_type-type_number _ = refl

type_number-ne-zero : (b : B) → int_eq (pos (type_number b)) (pos 0) ≡ false
type_number-ne-zero B.boolean = refl
type_number-ne-zero _ = refl

variant_dict-is_json :
    (b : B) (a : ℕ) (ds : Option (List ℤ)) (o : Obj)
    → is_json o ≡ true
    → is_json (variant_dict b a ds o) ≡ true
unfolding is_json
variant_dict-is_json b a none o h = rw h
variant_dict-is_json b a (some ds) o h = rw (int_items-are_json ds, h)

module _ (single_bits : ℕ → Option ℕ) (encode decode : Descriptor → Obj → Result Obj)
    (P : Descriptor → Obj → Type 0)
    (trips : (t : Descriptor) (v : Obj) → P t v → RoundTrips single_bits encode decode t v)
    (reg : Registry) where
  abbrev Trip : Descriptor → Obj → Type 0
  Trip = RoundTrips single_bits (encode_body encode reg) (decode_body decode reg)

  pub variant_null-Trip : Trip (builtin B.variant) (variant none null none)
  unfolding encode_body decode_body subscript lookup as_int is_json canonical_equal
  variant_null-Trip = record {
    encoded = dict (entry "t" (int (pos 0)) Entries.end);
    decoded = variant none null none;
    encodes = refl;
    decodes = refl;
    equal = λ single c. refl;
    json = refl;
    not_null = λ _. refl;
  }

  decode-array_dict :
      (b : B) (ds : Option (List ℤ)) (os es : Items)
      → decode_items decode (builtin b) os ≡ ok es
      → decode_body decode reg (builtin B.variant) (variant_dict b 1 ds (list os))
        ≡ ok (variant (some (builtin b)) (list es) ds)
  unfolding decode_body subscript lookup as_int get contains has_key iterate truth
  decode-array_dict b none os es h = rw (type_number-ne-zero b, to_built_in_type-type_number b, h)
  decode-array_dict b (some ds) os es h =
      rw (type_number-ne-zero b, to_built_in_type-type_number b, as_ints-int_items ds, h)

  decode-scalar_dict :
      (b : B) (ds : Option (List ℤ)) (o v : Obj)
      → decode (builtin b) o ≡ ok v
      → decode_body decode reg (builtin B.variant) (variant_dict b 0 ds o)
        ≡ ok (variant (some (builtin b)) v ds)
  unfolding decode_body subscript lookup as_int get contains has_key iterate truth
  decode-scalar_dict b none o v h = rw (type_number-ne-zero b, to_built_in_type-type_number b, h)
  decode-scalar_dict b (some ds) o v h =
      rw (type_number-ne-zero b, to_built_in_type-type_number b, as_ints-int_items ds, h)

  variant_equal :
      (b : B) (ds : Option (List ℤ)) (v w : Obj) (single : Bool)
      → ((s : Bool) → Compares (builtin b) s → canonical_equal single_bits v w s ≡ ok true)
      → canonical_equal single_bits
          (variant (some (builtin b)) v ds)
          (variant (some (builtin b)) w ds)
          single
        ≡ ok true
  unfolding canonical_equal descriptor_eq
  variant_equal b ds v w single h =
      and_also-intro _ _
        (ap ok
          (&&-intro (eqb_refl (type_number b)) (option_eq_refl (list_eq int_eq) ints_eq_refl ds)))
        (h (is_single_float_type (some (builtin b))) (own_Compares (builtin b)))

  pub variant_array-Trip :
      (b : B) (vs : Items) (ds : Option (List ℤ))
      → RestorableParts P (builtin b) vs
      → Trip (builtin B.variant) (variant (some (builtin b)) (list vs) ds)
  unfolding encode_body
  variant_array-Trip b vs ds h =
      let r = list_trip single_bits encode decode P trips (builtin b) vs h in
      record {
        encoded = variant_dict b 1 ds (list r.encoded);
        decoded = variant (some (builtin b)) (list r.decoded) ds;
        encodes = rw r.encodes;
        decodes = decode-array_dict b ds r.encoded r.decoded r.decodes;
        equal = λ single c.
            variant_equal b ds (list r.decoded) (list vs) single
              (list_equal single_bits encode decode P trips (builtin b) vs r);
        json = variant_dict-is_json b 1 ds (list r.encoded) (unfold is_json in r.json);
        not_null = λ _. refl;
      }

  encode-scalar :
      (b : B) (v : Obj) (ds : Option (List ℤ)) (o : Obj)
      → is_list v ≡ false
      → encode (builtin b) v ≡ ok o
      → encode_body encode reg (builtin B.variant) (variant (some (builtin b)) v ds)
        ≡ ok (variant_dict b 0 ds o)
  unfolding encode_body
  encode-scalar b (list vs) ds o h e = cc
  encode-scalar b _ ds o h e = rw e

  pub variant_scalar-Trip :
      (b : B) (v : Obj) (ds : Option (List ℤ))
      → is_list v ≡ false
      → P (builtin b) v
      → Trip (builtin B.variant) (variant (some (builtin b)) v ds)
  variant_scalar-Trip b v ds h p =
      let r = trips (builtin b) v p in
      record {
        encoded = variant_dict b 0 ds r.encoded;
        decoded = variant (some (builtin b)) r.decoded ds;
        encodes = encode-scalar b v ds r.encoded h r.encodes;
        decodes = decode-scalar_dict b ds r.encoded r.decoded r.decodes;
        equal = λ single c. variant_equal b ds r.decoded v single r.equal;
        json = variant_dict-is_json b 0 ds r.encoded r.json;
        not_null = λ _. refl;
      }
