-- ===== src/Encoding/Control/RoundTrip/Scalars.antt =====
-- Round trips of the values that hold no other value, through `_encode_builtin` and
-- `_decode_builtin`.
use opcua_drafts.Prelude.{
  ℕ, ℤ, String, Bool, true, false, Option, none, some, ◌≡◌, refl, Result, ok, All, eqb_refl,
  int_eq_refl, eq_refl, ap, ◌>>=◌,
}
use opcua_drafts.Base64.{b64encode}
use opcua_drafts.Base64.RoundTrip.{IsByte}
use opcua_drafts.Encoding.Types.{BuiltInType as B, Descriptor, builtin, is_integer}
use opcua_drafts.Encoding.Values.{
  Bytes, Obj, null, bool, int, float, str, bytes, date_time, guid, xml_element, status_code,
  canonical_equal, float_bits,
}
use opcua_drafts.Encoding.Values.Laws.{bytes_eq_refl}
use opcua_drafts.Encoding.Control.Access.{
  as_opt_str, get_ticks, get_bytes, get_value, b64, to_int, truth,
}
use opcua_drafts.Encoding.Control.Registry.{Registry}
use opcua_drafts.Encoding.Control.Encode.{encode_body}
use opcua_drafts.Encoding.Control.Decode.{decode_body}
use opcua_drafts.Encoding.Control.Typed.{IsGuid}
use opcua_drafts.Encoding.Control.RoundTrip.{RoundTrips, is_json, Compares, only_double}
use opcua_drafts.Encoding.Control.RoundTrip.Identifiers.{unb64-b64encode, make_guid_lem}

module _ (single_bits : ℕ → Option ℕ) (encode decode : Descriptor → Obj → Result Obj)
    (reg : Registry) where
  abbrev Trip : Descriptor → Obj → Type 0
  Trip = RoundTrips single_bits (encode_body encode reg) (decode_body decode reg)

  pub null-Trip :
      (t : Descriptor)
      → encode_body encode reg t null ≡ ok null
      → decode_body decode reg t null ≡ ok null
      → Trip t null
  unfolding is_json canonical_equal
  null-Trip t e d = record {
    encoded = null;
    decoded = null;
    encodes = e;
    decodes = d;
    equal = λ single c. refl;
    json = refl;
    not_null = λ h. cc;
  }

  pub boolean-Trip : (b : Bool) → Trip (builtin B.boolean) (bool b)
  unfolding encode_body decode_body is_json canonical_equal truth
  boolean-Trip true = record {
    encoded = bool true;
    decoded = bool true;
    encodes = refl;
    decodes = refl;
    equal = λ single c. refl;
    json = refl;
    not_null = λ h. refl;
  }
  boolean-Trip false = record {
    encoded = bool false;
    decoded = bool false;
    encodes = refl;
    decodes = refl;
    equal = λ single c. refl;
    json = refl;
    not_null = λ h. refl;
  }

  -- what the codec passes on as it is
  pub kept_int-Trip :
      (t : Descriptor) (n : ℤ)
      → encode_body encode reg t (int n) ≡ ok (int n)
      → decode_body decode reg t (int n) ≡ ok (int n)
      → Trip t (int n)
  unfolding is_json canonical_equal
  kept_int-Trip t n e d = record {
    encoded = int n;
    decoded = int n;
    encodes = e;
    decodes = d;
    equal = λ single c. ap ok (int_eq_refl n);
    json = refl;
    not_null = λ h. refl;
  }

  pub kept_float-Trip :
      (t : Descriptor) (f : ℕ)
      → encode_body encode reg t (float f) ≡ ok (float f)
      → decode_body decode reg t (float f) ≡ ok (float f)
      → ((single : Bool)
          → Compares t single
          → (bits : ℕ) × (float_bits single_bits f single ≡ ok bits))
      → Trip t (float f)
  unfolding is_json canonical_equal
  kept_float-Trip t f e d packs = record {
    encoded = float f;
    decoded = float f;
    encodes = e;
    decodes = d;
    equal = λ single c. (let b = packs single c in rw (b.1, ◌>>=◌) (ap ok (eqb_refl b.0)));
    json = refl;
    not_null = λ h. refl;
  }

  pub packs_double :
      (f : ℕ) (single : Bool)
      → Compares (builtin B.double) single
      → (bits : ℕ) × (float_bits single_bits f single ≡ ok bits)
  packs_double f =
      only_double (builtin B.double) (λ s. (bits : ℕ) × (float_bits single_bits f s ≡ ok bits)) refl
        (f, refl)

  pub packs_float :
      (f bits : ℕ)
      → single_bits f ≡ some bits
      → (single : Bool) → Compares (builtin B.float) single
      → (b : ℕ) × (float_bits single_bits f single ≡ ok b)
  packs_float f bits h true c = (bits, rw (h, float_bits))
  packs_float f bits h false c = (f, refl)

  pub integer-Trip : (b : B) (n : ℤ) → is_integer b ≡ true → Trip (builtin b) (int n)
  unfolding encode_body decode_body to_int
  integer-Trip B.sbyte n h = kept_int-Trip (builtin B.sbyte) n refl refl
  integer-Trip B.byte n h = kept_int-Trip (builtin B.byte) n refl refl
  integer-Trip B.int16 n h = kept_int-Trip (builtin B.int16) n refl refl
  integer-Trip B.uint16 n h = kept_int-Trip (builtin B.uint16) n refl refl
  integer-Trip B.int32 n h = kept_int-Trip (builtin B.int32) n refl refl
  integer-Trip B.uint32 n h = kept_int-Trip (builtin B.uint32) n refl refl
  integer-Trip B.int64 n h = kept_int-Trip (builtin B.int64) n refl refl
  integer-Trip B.uint64 n h = kept_int-Trip (builtin B.uint64) n refl refl
  integer-Trip _ n h = cc

  pub string-Trip : (s : String) → Trip (builtin B.string) (str s)
  unfolding encode_body decode_body is_json canonical_equal
  string-Trip s = record {
    encoded = str s;
    decoded = str s;
    encodes = refl;
    decodes = refl;
    equal = λ single c. ap ok (eq_refl s);
    json = refl;
    not_null = λ h. refl;
  }

  pub date_time-Trip : (n : ℤ) → Trip (builtin B.date_time) (date_time n)
  unfolding encode_body decode_body is_json canonical_equal get_ticks to_int
  date_time-Trip n = record {
    encoded = int n;
    decoded = date_time n;
    encodes = refl;
    decodes = refl;
    equal = λ single c. ap ok (int_eq_refl n);
    json = refl;
    not_null = λ h. refl;
  }

  pub guid-Trip : (bs : Bytes) → IsGuid bs → Trip (builtin B.guid) (guid bs)
  unfolding encode_body decode_body is_json canonical_equal get_bytes b64
  guid-Trip bs h = record {
    encoded = str (b64encode bs);
    decoded = guid bs;
    encodes = refl;
    decodes = rw (unb64-b64encode bs h.1, make_guid_lem bs h);
    equal = λ single c. ap ok (bytes_eq_refl bs);
    json = refl;
    not_null = λ _. refl;
  }

  pub byte_string-Trip : (bs : Bytes) → All IsByte bs → Trip (builtin B.byte_string) (bytes bs)
  unfolding encode_body decode_body is_json canonical_equal b64
  byte_string-Trip bs h = record {
    encoded = str (b64encode bs);
    decoded = bytes bs;
    encodes = refl;
    decodes = rw (unb64-b64encode bs h);
    equal = λ single c. ap ok (bytes_eq_refl bs);
    json = refl;
    not_null = λ _. refl;
  }

  pub xml_element-Trip : (s : Option String) → Trip (builtin B.xml_element) (xml_element s)
  unfolding encode_body decode_body is_json canonical_equal get_value as_opt_str
  xml_element-Trip none = record {
    encoded = null;
    decoded = xml_element none;
    encodes = refl;
    decodes = refl;
    equal = λ single c. refl;
    json = refl;
    not_null = λ h. cc;
  }
  xml_element-Trip (some s) = record {
    encoded = str s;
    decoded = xml_element (some s);
    encodes = refl;
    decodes = refl;
    equal = λ single c. ap ok (eq_refl s);
    json = refl;
    not_null = λ h. refl;
  }

  pub status_code-Trip : (n : ℤ) → Trip (builtin B.status_code) (status_code n)
  unfolding encode_body decode_body is_json canonical_equal get_value to_int
  status_code-Trip n = record {
    encoded = int n;
    decoded = status_code n;
    encodes = refl;
    decodes = refl;
    equal = λ single c. ap ok (int_eq_refl n);
    json = refl;
    not_null = λ h. refl;
  }
