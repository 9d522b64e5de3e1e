-- ===== src/Encoding/Control/RoundTrip/Parts.antt =====
-- Round trips of lists of values that may be None, and of the arrays and matrices that hold them.
use opcua_drafts.Prelude.{
  ℕ, ℤ, Bool, true, false, ◌≡◌, refl, Result, ok, &&-intro, and_also-intro, ap, inl, Option, List,
  [], ◌∷◌, if◌then◌else◌,
}
use opcua_drafts.Encoding.Types.{Descriptor, array}
use opcua_drafts.Encoding.Values.{
  Obj, null, list, dict, matrix, Items, nil, cons, Entries, entry, canonical_equal, items_equal,
  same_length, lookup,
}
use opcua_drafts.Encoding.Values.Laws.{ints_eq_refl}
use opcua_drafts.Encoding.Control.Access.{is_null, iterate, as_ints, as_int, int_items, subscript}
use opcua_drafts.Encoding.Control.Registry.{Registry}
use opcua_drafts.Encoding.Control.Encode.{encode_body, encode_items}
use opcua_drafts.Encoding.Control.Decode.{decode_body, decode_items}
use opcua_drafts.Encoding.Control.Typed.{
  RestorablePart, absent_part, present_part, RestorableParts, encodes_null,
}
use opcua_drafts.Encoding.Control.RoundTrip.{RoundTrips, is_json, are_json, Compares, only_double}

pub encodes_null-is_null : (v : Obj) → encodes_null v ≡ false → is_null v ≡ false
encodes_null-is_null null h = h
encodes_null-is_null _ h = refl

pub as_ints-int_items : (ds : List ℤ) → as_ints (int_items ds) ≡ ok ds
unfolding as_ints as_int
as_ints-int_items [] = refl
as_ints-int_items (d ∷ ds) = rw (as_ints-int_items ds)

pub int_items-are_json : (ds : List ℤ) → are_json (int_items ds) ≡ true
unfolding is_json
int_items-are_json [] = refl
int_items-are_json (d ∷ ds) = int_items-are_json ds

module _ (single_bits : ℕ → Option ℕ) (encode decode : Descriptor → Obj → Result Obj)
    (P : Descriptor → Obj → Type 0)
    (trips : (t : Descriptor) (v : Obj) → P t v → RoundTrips single_bits encode decode t v) where
  -- One element, as the list comprehensions treat it.
  pub record PartTrips (t : Descriptor) (v : Obj) : Type 0 where
    pub encoded : Obj
    pub decoded : Obj
    pub encodes : (if is_null v then ok null else encode t v) ≡ ok encoded
    pub decodes : (if is_null encoded then ok null else decode t encoded) ≡ ok decoded
    pub equal :
        (single : Bool) → Compares t single → canonical_equal single_bits decoded v single ≡ ok true
    pub json : is_json encoded ≡ true
    pub keeps_null : is_null encoded ≡ is_null v

  pub part_trip : (t : Descriptor) (v : Obj) → RestorablePart P t v → PartTrips t v
  unfolding is_json canonical_equal
  part_trip t null absent_part = record {
    encoded = null;
    decoded = null;
    encodes = refl;
    decodes = refl;
    equal = λ single c. refl;
    json = refl;
    keeps_null = refl;
  }
  part_trip t v (present_part here p) =
      let r = trips t v p in
      record {
        encoded = r.encoded;
        decoded = r.decoded;
        encodes = rw (encodes_null-is_null v here) r.encodes;
        decodes = rw (r.not_null here) r.decodes;
        equal = r.equal;
        json = r.json;
        keeps_null = rw (encodes_null-is_null v here) (r.not_null here);
      }

  pub record ListTrips (t : Descriptor) (vs : Items) : Type 0 where
    pub encoded : Items
    pub decoded : Items
    pub encodes : encode_items encode t vs ≡ ok encoded
    pub decodes : decode_items decode t encoded ≡ ok decoded
    pub lengths : same_length decoded vs ≡ true
    pub equal :
        (single : Bool) → Compares t single → items_equal single_bits decoded vs single ≡ ok true
    pub json : are_json encoded ≡ true

  pub list_trip : (t : Descriptor) (vs : Items) → RestorableParts P t vs → ListTrips t vs
  unfolding encode_items decode_items canonical_equal is_json
  list_trip t nil h = record {
    encoded = nil;
    decoded = nil;
    encodes = refl;
    decodes = refl;
    lengths = refl;
    equal = λ single c. refl;
    json = refl;
  }
  list_trip t (cons v vs) h =
      let r = part_trip t v h.0 in
      let rs = list_trip t vs h.1 in
      record {
        encoded = cons r.encoded rs.encoded;
        decoded = cons r.decoded rs.decoded;
        encodes = rw (r.encodes, rs.encodes);
        decodes = rw (r.decodes, rs.decodes);
        lengths = rs.lengths;
        equal = λ single c. and_also-intro _ _ (r.equal single c) (rs.equal single c);
        json = &&-intro r.json rs.json;
      }

  pub list_equal :
      (t : Descriptor) (vs : Items) (r : ListTrips t vs) (single : Bool)
      → Compares t single
      → canonical_equal single_bits (list r.decoded) (list vs) single ≡ ok true
  unfolding canonical_equal
  list_equal t vs r single c = and_also-intro _ _ (ap ok r.lengths) (r.equal single c)

  module _ (reg : Registry) where
    abbrev Trip : Descriptor → Obj → Type 0
    Trip = RoundTrips single_bits (encode_body encode reg) (decode_body decode reg)

    pub array-Trip :
        (t : Descriptor) (b : Bool) (vs : Items)
        → RestorableParts P t vs
        → Trip (array t b) (list vs)
    unfolding encode_body decode_body iterate is_json
    array-Trip t b vs h =
        let r = list_trip t vs h in
        record {
          encoded = list r.encoded;
          decoded = list r.decoded;
          encodes = rw r.encodes;
          decodes = rw r.decodes;
          equal =
              only_double (array t b)
                (λ s. canonical_equal single_bits (list r.decoded) (list vs) s ≡ ok true) refl
                (list_equal t vs r false (inl refl));
          json = r.json;
          not_null = λ _. refl;
        }

    pub matrix-Trip :
        (t : Descriptor) (b : Bool) (ds : List ℤ) (vs : Items)
        → RestorableParts P t vs
        → Trip (Descriptor.matrix t b) (matrix ds vs)
    unfolding encode_body decode_body iterate subscript lookup is_json canonical_equal
    matrix-Trip t b ds vs h =
        let r = list_trip t vs h in
        record {
          encoded =
              dict
                (entry "dims" (list (int_items ds)) (entry "values" (list r.encoded) Entries.end));
          decoded = matrix ds r.decoded;
          encodes = rw r.encodes;
          decodes = rw (as_ints-int_items ds, r.decodes);
          equal =
              only_double (Descriptor.matrix t b)
                (λ s. canonical_equal single_bits (matrix ds r.decoded) (matrix ds vs) s ≡ ok true)
                refl
                (and_also-intro _ _ (ap ok (&&-intro (ints_eq_refl ds) r.lengths))
                  (r.equal false (inl refl)));
          json = rw (int_items-are_json ds, r.json);
          not_null = λ _. refl;
        }
