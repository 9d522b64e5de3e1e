-- ===== src/Encoding/Control/RoundTrip/Members.antt =====
-- Round trips of structures: the loops of `_encode_struct` and `_decode_struct`.
use opcua_drafts.Prelude.{
  ℕ, String, Bool, true, Option, none, some, ◌≡◌, refl, ◌∙◌, Result, ok, &&-intro, and_also-intro,
  ap, false, Option-cases, inl, inr, &&-left, &&-right,
}
use opcua_drafts.Encoding.Types.{Descriptor, Fields, field}
use opcua_drafts.Encoding.Values.{
  Obj, Entries, entry, canonical_equal, entries_equal, lookup, has_key, insert, keys_within, dict,
}
use opcua_drafts.Encoding.Values.Laws.{
  has_key-lookup, lookup-insert_self, lookup-insert_ne, AllEntries, AllEntries-insert,
}
use opcua_drafts.Encoding.Control.Encode.{encode_fields}
use opcua_drafts.Encoding.Control.Decode.{decode_fields}
use opcua_drafts.Encoding.Control.Typed.{
  Lacks, HasDistinctNames, Declares, here, there, KeysDeclared, HaveValues,
}
use opcua_drafts.Encoding.Control.RoundTrip.{RoundTrips, is_json_dict}
use opcua_drafts.Encoding.Control.RoundTrip.Keys.{
  IsFresh, IsFresh-insert, is_json_dict-insert, has_key-insert, has_key-insert_self,
}

module _ (single_bits : ℕ → Option ℕ) (encode decode : Descriptor → Obj → Result Obj)
    (P : Descriptor → Obj → Type 0)
    (trips : (t : Descriptor) (v : Obj) → P t v → RoundTrips single_bits encode decode t v)
    (values : Entries) where
  -- What the written dict holds for a field of the value.
  abbrev pub IsWritten : Descriptor → Option Obj → Option Obj → Type 0
  IsWritten t none found = found ≡ none
  IsWritten t (some v) found =
      (r : RoundTrips single_bits encode decode t v) × (found ≡ some r.encoded)

  abbrev pub AreWritten : Fields → Entries → Type 0
  AreWritten Fields.end d = Unit
  AreWritten (field n t o s fs) d = IsWritten t (lookup n values) (lookup n d) × AreWritten fs d

  encode_fields-absent :
      (n : String) (t : Descriptor) (o s : Bool) (fs : Fields) (out : Entries)
      → lookup n values ≡ none
      → o ≡ true
      → encode_fields encode (field n t o s fs) values out ≡ encode_fields encode fs values out
  unfolding encode_fields
  encode_fields-absent n t o s fs out e h = rw (e, encode_fields) (rw h)

  encode_fields-present :
      (n : String) (t : Descriptor) (o s : Bool) (fs : Fields) (out : Entries) (v x : Obj)
      → lookup n values ≡ some v
      → encode t v ≡ ok x
      → encode_fields encode (field n t o s fs) values out
        ≡ encode_fields encode fs values (insert n x out)
  unfolding encode_fields
  encode_fields-present n t o s fs out v x e h = rw (e, encode_fields) (rw h)

  pub record EncodedFields (fs : Fields) (out : Entries) : Type 0 where
    pub result : Entries
    pub encodes : encode_fields encode fs values out ≡ ok result
    pub written : AreWritten fs result
    pub keeps : (k : String) → Lacks k fs → lookup k result ≡ lookup k out
    pub json : is_json_dict result ≡ true

  pub fields_written :
      (fs : Fields) (out : Entries)
      → HasDistinctNames fs
      → HaveValues P fs values
      → IsFresh fs out
      → is_json_dict out ≡ true
      → EncodedFields fs out
  unfolding encode_fields
  fields_written Fields.end out d h f j = record {
    result = out;
    encodes = refl;
    written = tt;
    keeps = λ k l. refl;
    json = j;
  }
  fields_written (field n t o s fs) out d h f j = elim (Option-cases (lookup n values)) [
    | inl e ↦
        let r = fields_written fs out d.1 h.1 f.1 j in
        record {
          result = r.result;
          encodes = encode_fields-absent n t o s fs out e (rw e at h.0) ∙ r.encodes;
          written = (rw e (r.keeps n d.0 ∙ f.0), r.written);
          keeps = λ k l. r.keeps k l.1;
          json = r.json;
        }
    | inr (v, e) ↦
        let p : P t v = rw e at h.0 in
        let q = trips t v p in
        let r =
          fields_written fs (insert n q.encoded out) d.1 h.1
            (IsFresh-insert fs n q.encoded out d.0 f.1)
            (is_json_dict-insert n q.encoded out q.json j) in
        record {
          result = r.result;
          encodes = encode_fields-present n t o s fs out v q.encoded e q.encodes ∙ r.encodes;
          written = (rw e (q, r.keeps n d.0 ∙ lookup-insert_self n q.encoded out), r.written);
          keeps = λ k l. r.keeps k l.1 ∙ lookup-insert_ne k n q.encoded out l.0;
          json = r.json;
        }
  ]

  -- A read entry equals the value's entry of that key.
  abbrev pub IsReadBack : String → Obj → Type 0
  IsReadBack k w =
      (v : Obj) × (lookup k values ≡ some v) × (canonical_equal single_bits w v false ≡ ok true)

  pub record DecodedFields (fs : Fields) (d acc : Entries) : Type 0 where
    pub result : Entries
    pub decodes : decode_fields decode fs d acc ≡ ok result
    pub read_back : AllEntries IsReadBack result
    pub grows : (k : String) → has_key k acc ≡ true → has_key k result ≡ true
    pub covers : (k : String) → Declares fs k → has_key k values ≡ true → has_key k result ≡ true

  decode_fields-absent :
      (n : String) (t : Descriptor) (o s : Bool) (fs : Fields) (d acc : Entries)
      → lookup n d ≡ none
      → decode_fields decode (field n t o s fs) d acc ≡ decode_fields decode fs d acc
  unfolding decode_fields
  decode_fields-absent n t o s fs d acc e = rw (e, decode_fields)

  decode_fields-present :
      (n : String) (t : Descriptor) (o s : Bool) (fs : Fields) (d acc : Entries) (x v : Obj)
      → lookup n d ≡ some x
      → decode t x ≡ ok v
      → decode_fields decode (field n t o s fs) d acc ≡ decode_fields decode fs d (insert n v acc)
  unfolding decode_fields
  decode_fields-present n t o s fs d acc x v e h = rw (e, decode_fields) (rw h)

  has_key-absent : (k : String) → lookup k values ≡ none → has_key k values ≡ true → ⊥
  has_key-absent k e h = cc (has_key-lookup k values, e)

  abbrev Covers : Fields → Entries → Type 0
  Covers fs d = (k : String) → Declares fs k → has_key k values ≡ true → has_key k d ≡ true

  Covers-absent :
      (n : String) {t : Descriptor} {o s : Bool} (fs : Fields) (d : Entries)
      → lookup n values ≡ none
      → Covers fs d
      → Covers (field n t o s fs) d
  Covers-absent n fs d e c k here h = absurd (has_key-absent n e h)
  Covers-absent n fs d e c k (there m) h = c k m h

  Covers-present :
      (n : String) {t : Descriptor} {o s : Bool} (fs : Fields) (d : Entries)
      → has_key n d ≡ true
      → Covers fs d
      → Covers (field n t o s fs) d
  Covers-present n fs d e c k here h = e
  Covers-present n fs d e c k (there m) h = c k m h

  written_of :
      (t : Descriptor) (v : Obj) {found value : Option Obj}
      → value ≡ some v
      → IsWritten t value found
      → (r : RoundTrips single_bits encode decode t v) × (found ≡ some r.encoded)
  written_of t v e h = rw e at h

  pub fields_read :
      (fs : Fields) (d acc : Entries)
      → AreWritten fs d
      → AllEntries IsReadBack acc
      → DecodedFields fs d acc
  unfolding decode_fields
  fields_read Fields.end d acc h a = record {
    result = acc;
    decodes = refl;
    read_back = a;
    grows = λ k g. g;
    covers = λ k c. elim c [ ];
  }
  fields_read (field n t o s fs) d acc h a = elim (Option-cases (lookup n values)) [
    | inl e ↦
        let r = fields_read fs d acc h.1 a in
        record {
          result = r.result;
          decodes = decode_fields-absent n t o s fs d acc (rw e at h.0) ∙ r.decodes;
          read_back = r.read_back;
          grows = r.grows;
          covers = Covers-absent n fs r.result e r.covers;
        }
    | inr (v, e) ↦
        let (q, w) = written_of t v e h.0 in
        let r =
          fields_read fs d (insert n q.decoded acc) h.1
            (AllEntries-insert IsReadBack n q.decoded acc (v, e, q.equal false (inl refl)) a) in
        record {
          result = r.result;
          decodes =
              decode_fields-present n t o s fs d acc q.encoded q.decoded w q.decodes ∙ r.decodes;
          read_back = r.read_back;
          grows = λ k g. r.grows k (has_key-insert k n q.decoded acc g);
          covers =
              Covers-present n fs r.result (r.grows n (has_key-insert_self n q.decoded acc))
                r.covers;
        }
  ]

  keys_within-value : (c : Entries) → AllEntries IsReadBack c → keys_within c values ≡ true
  keys_within-value Entries.end a = refl
  keys_within-value (entry k w c) a =
      &&-intro (has_key-lookup k values ∙ rw (a.0.1)) (keys_within-value c a.1)

  entries_equal-value :
      (c : Entries) → AllEntries IsReadBack c → entries_equal single_bits c values false ≡ ok true
  unfolding canonical_equal
  entries_equal-value Entries.end a = refl
  entries_equal-value (entry k w c) a =
      rw (a.0.1) (and_also-intro _ _ a.0.2 (entries_equal-value c a.1))

  keys_within-result :
      (fs : Fields) (c d : Entries)
      → KeysDeclared fs c
      → keys_within c values ≡ true
      → Covers fs d
      → keys_within c d ≡ true
  keys_within-result fs Entries.end d k w cs = refl
  keys_within-result fs (entry j v c) d k w cs =
      &&-intro (cs j k.0 (&&-left _ _ w)) (keys_within-result fs c d k.1 (&&-right _ _ w) cs)

  -- What the loop reads from the written dict equals the value's dict.
  pub fields_equal :
      (fs : Fields) (d : Entries) (r : DecodedFields fs d Entries.end)
      → KeysDeclared fs values
      → keys_within values values ≡ true
      → canonical_equal single_bits (dict r.result) (dict values) false ≡ ok true
  unfolding canonical_equal
  fields_equal fs d r k self =
      and_also-intro _ _
        (ap ok (
          &&-intro (keys_within-value r.result r.read_back)
            (keys_within-result fs values r.result k self r.covers)))
        (entries_equal-value r.result r.read_back)
