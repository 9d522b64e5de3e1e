-- ===== src/Encoding/Control/RoundTrip/Records.antt =====
-- Round trips of DataValues and DiagnosticInfos.
use opcua_drafts.Prelude.{
  ℕ, ℤ, String, Bool, true, false, Option, none, some, ◌≡◌, refl, Result, ok, &&-intro,
  and_also-intro, ap, inl,
}
use opcua_drafts.Encoding.Types.{BuiltInType as B, Descriptor, builtin}
use opcua_drafts.Encoding.Values.{
  Obj, null, dict, data_value, diagnostic_info, Entries, canonical_equal, lookup,
}
use opcua_drafts.Encoding.Values.Laws.{has_key-lookup, option_int_eq_refl, option_str_eq_refl}
use opcua_drafts.Encoding.Control.Access.{subscript, contains}
use opcua_drafts.Encoding.Control.Registry.{Registry}
use opcua_drafts.Encoding.Control.Encode.{encode_body, encode_some, put_some, some_int, some_str}
use opcua_drafts.Encoding.Control.Decode.{decode_body, decode_some}
use opcua_drafts.Encoding.Control.Typed.{RestorablePart, absent_part, present_part}
use opcua_drafts.Encoding.Control.RoundTrip.{
  RoundTrips, is_json, is_json_dict, Compares, only_double,
}
use opcua_drafts.Encoding.Control.RoundTrip.Parts.{encodes_null-is_null}
use opcua_drafts.Encoding.Control.RoundTrip.Sparse.{
  sparse, sparse_json, json_some, some_status-lookup, get_int-lookup, get_str-lookup,
}

module _ (single_bits : ℕ → Option ℕ) (encode decode : Descriptor → Obj → Result Obj)
    (P : Descriptor → Obj → Type 0)
    (trips : (t : Descriptor) (v : Obj) → P t v → RoundTrips single_bits encode decode t v) where
  -- A member that is written only if it is there.
  pub record SomeTrips (t : Descriptor) (v : Obj) : Type 0 where
    pub encoded : Option Obj
    pub decoded : Obj
    pub encodes : encode_some encode t v ≡ ok encoded
    pub decodes :
        (d : Entries) (k : String)
        → lookup k d ≡ encoded
        → decode_some decode t (dict d) k ≡ ok decoded
    pub equal :
        (single : Bool) → Compares t single → canonical_equal single_bits decoded v single ≡ ok true
    pub json : json_some encoded ≡ true

  pub some_trip : (t : Descriptor) (v : Obj) → RestorablePart P t v → SomeTrips t v
  unfolding encode_some decode_some contains subscript canonical_equal
  some_trip t null absent_part = record {
    encoded = none;
    decoded = null;
    encodes = refl;
    decodes = λ d k h. rw (has_key-lookup, h);
    equal = λ single c. refl;
    json = refl;
  }
  some_trip t v (present_part here p) =
      let r = trips t v p in
      record {
        encoded = some r.encoded;
        decoded = r.decoded;
        encodes = rw (encodes_null-is_null v here, r.encodes);
        decodes = λ d k h. rw (has_key-lookup, h) r.decodes;
        equal = r.equal;
        json = r.json;
      }

  module _ (reg : Registry) where
    abbrev Trip : Descriptor → Obj → Type 0
    Trip = RoundTrips single_bits (encode_body encode reg) (decode_body decode reg)

    abbrev data_dict : Option Obj → Option ℤ → Option ℤ → Option ℤ → Option ℤ → Option ℤ → Entries
    data_dict o s a b c d = put_some "srvPs" (some_int d) (
        put_some "srvTs" (some_int c) (
          put_some "srcPs" (some_int b) (
            put_some "srcTs" (some_int a)
              (put_some "status" (some_int s) (put_some "value" o Entries.end)))))

    data_dict_json :
        (o : Option Obj) (s a b c d : Option ℤ)
        → json_some o ≡ true
        → is_json_dict (data_dict o s a b c d) ≡ true
    data_dict_json o s a b c d h = search sparse_json depth 9

    data_value_decodes :
        (v : Obj) (o : Option Obj) (s a b c d : Option ℤ) (w : Obj)
        → ((e : Entries) (k : String)
            → lookup k e ≡ o
            → decode_some decode (builtin B.variant) (dict e) k ≡ ok w)
        → decode_body decode reg (builtin B.data_value) (dict (data_dict o s a b c d))
          ≡ ok (data_value w s a b c d)
    unfolding decode_body
    data_value_decodes v o s a b c d w h =
        let e = data_dict o s a b c d in
        rw
          (
            h e "value" (simp sparse),
            some_status-lookup e "status" s (simp sparse),
            some_status-lookup e "srcTs" a (simp sparse),
            get_int-lookup e "srcPs" b (simp sparse),
            some_status-lookup e "srvTs" c (simp sparse),
            get_int-lookup e "srvPs" d (simp sparse),
          )
          refl

    pub data_value-Trip :
        (v : Obj) (s a b c d : Option ℤ)
        → RestorablePart P (builtin B.variant) v
        → Trip (builtin B.data_value) (data_value v s a b c d)
    unfolding encode_body canonical_equal
    data_value-Trip v s a b c d h =
        let r = some_trip (builtin B.variant) v h in
        record {
          encoded = dict (data_dict r.encoded s a b c d);
          decoded = data_value r.decoded s a b c d;
          encodes = rw r.encodes;
          decodes = data_value_decodes v r.encoded s a b c d r.decoded r.decodes;
          equal =
              only_double (builtin B.data_value)
                (λ f.
                  canonical_equal single_bits (data_value r.decoded s a b c d)
                    (data_value v s a b c d) f
                  ≡ ok true)
                refl
                (and_also-intro _ _ (r.equal false (inl refl)) (
                  ap ok (
                    &&-intro
                      (&&-intro
                        (&&-intro (&&-intro (option_int_eq_refl s) (option_int_eq_refl a))
                          (option_int_eq_refl b))
                        (option_int_eq_refl c))
                      (option_int_eq_refl d))));
          json = unfold is_json in data_dict_json r.encoded s a b c d r.json;
          not_null = λ _. refl;
        }

    abbrev diag_dict :
        Option ℤ → Option ℤ → Option ℤ → Option ℤ → Option String → Option ℤ → Option Obj → Entries
    diag_dict s n l t a c o = put_some "inner" o (
        put_some "ist" (some_int c) (
          put_some "info" (some_str a) (
            put_some "lt" (some_int t) (
              put_some "loc" (some_int l)
                (put_some "ns" (some_int n) (put_some "sym" (some_int s) Entries.end))))))

    diag_dict_json :
        (s n l t : Option ℤ) (a : Option String) (c : Option ℤ) (o : Option Obj)
        → json_some o ≡ true
        → is_json_dict (diag_dict s n l t a c o) ≡ true
    diag_dict_json s n l t a c o h = search sparse_json depth 10

    diag_decodes :
        (s n l t : Option ℤ) (a : Option String) (c : Option ℤ) (o : Option Obj) (w : Obj)
        → ((e : Entries) (k : String)
            → lookup k e ≡ o
            → decode_some decode (builtin B.diagnostic_info) (dict e) k ≡ ok w)
        → decode_body decode reg (builtin B.diagnostic_info) (dict (diag_dict s n l t a c o))
          ≡ ok (diagnostic_info s n l t a c w)
    unfolding decode_body
    diag_decodes s n l t a c o w h =
        let e = diag_dict s n l t a c o in
        rw
          (
            get_int-lookup e "sym" s (simp sparse),
            get_int-lookup e "ns" n (simp sparse),
            get_int-lookup e "loc" l (simp sparse),
            get_int-lookup e "lt" t (simp sparse),
            get_str-lookup e "info" a (simp sparse),
            some_status-lookup e "ist" c (simp sparse),
            h e "inner" (simp sparse),
          )
          refl

    pub diagnostic_info-Trip :
        (s n l t : Option ℤ) (a : Option String) (c : Option ℤ) (v : Obj)
        → RestorablePart P (builtin B.diagnostic_info) v
        → Trip (builtin B.diagnostic_info) (diagnostic_info s n l t a c v)
    unfolding encode_body canonical_equal
    diagnostic_info-Trip s n l t a c v h =
        let r = some_trip (builtin B.diagnostic_info) v h in
        record {
          encoded = dict (diag_dict s n l t a c r.encoded);
          decoded = diagnostic_info s n l t a c r.decoded;
          encodes = rw r.encodes;
          decodes = diag_decodes s n l t a c r.encoded r.decoded r.decodes;
          equal =
              only_double (builtin B.diagnostic_info)
                (λ f.
                  canonical_equal single_bits (diagnostic_info s n l t a c r.decoded)
                    (diagnostic_info s n l t a c v) f
                  ≡ ok true)
                refl
                (and_also-intro _ _
                  (ap ok (
                    &&-intro
                      (&&-intro
                        (&&-intro
                          (&&-intro (&&-intro (option_int_eq_refl s) (option_int_eq_refl n))
                            (option_int_eq_refl l))
                          (option_int_eq_refl t))
                        (option_str_eq_refl a))
                      (option_int_eq_refl c)))
                  (r.equal false (inl refl)));
          json = unfold is_json in diag_dict_json s n l t a c r.encoded r.json;
          not_null = λ _. refl;
        }
