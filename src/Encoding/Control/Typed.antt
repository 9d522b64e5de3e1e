-- ===== src/Encoding/Control/Typed.antt =====
-- Which values of a descriptor the codec gives back: those that the annotations and the doc comments
-- of types.py and values.py allow (a Float is a number that `struct.pack("<f")` accepts), except for
-- the values that are written like another one: None in place of an XmlElement, and an XmlElement
-- without a value as an element of an array or a matrix. `Restorable single_bits reg n t v` bounds
-- by `n` how deep the value nests, which is how deep the codec's calls nest.
use opcua_drafts.Prelude.{
  ℕ, zero, suc, ℤ, String, Bool, true, false, Option, none, some, List, length, All, ◌≡◌, ok,
}
use opcua_drafts.Base64.RoundTrip.{IsByte}
use opcua_drafts.Encoding.Types.{
  BuiltInType as B, Descriptor, builtin, array, enumeration, Enumeration, struct, Fields, field,
  Struct, structure_type, StructureKind, union, structure, structure_with_optional_fields,
  is_integer,
}
use opcua_drafts.Encoding.Values.{
  Bytes, IdType, Identifier, number, text, guid_bytes, opaque_bytes, NodeId, Obj, null, bool, int,
  float, str, bytes, list, date_time, guid, xml_element, status_code, node_id, expanded_node_id,
  qualified_name, localized_text, extension_object, struct_value, union_value, matrix, variant,
  data_value, diagnostic_info, Items, nil, cons, Entries, entry, lookup,
}
use opcua_drafts.Encoding.Control.Registry.{Registry, resolve}
use opcua_drafts.Encoding.Control.Encode.{find_field}

abbrev pub IsGuid : Bytes → Type 0
IsGuid bs = (length bs ≡ 16) × All IsByte bs

-- The identifier is of the kind that the node's IdType names.
abbrev pub IsIdentifier : IdType → Identifier → Type 0
IsIdentifier IdType.numeric (number n) = Unit
IsIdentifier IdType.string (text s) = Unit
IsIdentifier IdType.guid (guid_bytes bs) = IsGuid bs
IsIdentifier IdType.opaque (opaque_bytes bs) = All IsByte bs
IsIdentifier _ _ = ⊥

abbrev pub IsNodeId : NodeId → Type 0
IsNodeId n = IsIdentifier n.id_type n.identifier

abbrev pub is_list : Obj → Bool
is_list (list xs) = true
is_list _ = false

-- The two values that the codec writes as a JSON null at some type; both are values of XmlElement.
abbrev pub encodes_null : Obj → Bool
encodes_null null = true
encodes_null (xml_element none) = true
encodes_null _ = false

abbrev pub is_union : StructureKind → Bool
is_union union = true
is_union structure = false
is_union structure_with_optional_fields = false

-- No field of the name.
abbrev pub Lacks : String → Fields → Type 0
Lacks k Fields.end = Unit
Lacks k (field n t o s fs) = (n ≡ k → ⊥) × Lacks k fs

abbrev pub HasDistinctNames : Fields → Type 0
HasDistinctNames Fields.end = Unit
HasDistinctNames (field n t o s fs) = Lacks n fs × HasDistinctNames fs

-- Some field of the name.
pub data Declares : Fields → String → Type 0 where
  here : {n : String} {t : Descriptor} {o s : Bool} {fs : Fields} → Declares (field n t o s fs) n
  there :
      {n k : String} {t : Descriptor} {o s : Bool} {fs : Fields}
      → Declares fs k
      → Declares (field n t o s fs) k

-- Every key is a declared field.
abbrev pub KeysDeclared : Fields → Entries → Type 0
KeysDeclared fs Entries.end = Unit
KeysDeclared fs (entry k v d) = Declares fs k × KeysDeclared fs d

module _ (P : Descriptor → Obj → Type 0) where
  -- An element or a member that may be None, and is no XmlElement without a value.
  pub data RestorablePart (t : Descriptor) : Obj → Type 0 where
    absent_part : RestorablePart t null
    present_part : {v : Obj} → encodes_null v ≡ false → P t v → RestorablePart t v

  abbrev pub RestorableParts : Descriptor → Items → Type 0
  RestorableParts t nil = Unit
  RestorableParts t (cons v vs) = RestorablePart t v × RestorableParts t vs

  abbrev pub IsFieldValue : Descriptor → Bool → Option Obj → Type 0
  IsFieldValue t optional none = optional ≡ true
  IsFieldValue t optional (some v) = P t v

  -- Each field is there with a value of its type, or is optional.
  abbrev pub HaveValues : Fields → Entries → Type 0
  HaveValues Fields.end d = Unit
  HaveValues (field n t optional s fs) d = IsFieldValue t optional (lookup n d) × HaveValues fs d

  module _ (single_bits : ℕ → Option ℕ) (reg : Registry) where
    pub data RestorableOver : Descriptor → Obj → Type 0 where
      array_null : {t : Descriptor} {b : Bool} → RestorableOver (array t b) null
      array_list :
          {t : Descriptor} {b : Bool} {xs : Items}
          → RestorableParts t xs
          → RestorableOver (array t b) (list xs)
      matrix_null : {t : Descriptor} {b : Bool} → RestorableOver (Descriptor.matrix t b) null
      matrix_value :
          {t : Descriptor} {b : Bool} {ds : List ℤ} {xs : Items}
          → RestorableParts t xs
          → RestorableOver (Descriptor.matrix t b) (matrix ds xs)
      enum_value : {e : Enumeration} {n : ℤ} → RestorableOver (enumeration e) (int n)
      union_null :
          {n : String} {fs : Fields} {t e : Option String}
          → RestorableOver (struct (structure_type n fs union t e)) (union_value none null)
      union_field :
          {n f : String} {fs : Fields} {t e : Option String} (u : Descriptor) {v : Obj}
          → find_field f fs ≡ ok u
          → P u v
          → RestorableOver (struct (structure_type n fs union t e)) (union_value (some f) v)
      plain_value :
          {n : String} {fs : Fields} {k : StructureKind} {t e m : Option String} {values : Entries}
          → is_union k ≡ false
          → HasDistinctNames fs
          → HaveValues fs values
          → KeysDeclared fs values
          → RestorableOver (struct (structure_type n fs k t e)) (struct_value values m)
      boolean_value : {b : Bool} → RestorableOver (builtin B.boolean) (bool b)
      integer_value : {b : B} {n : ℤ} → is_integer b ≡ true → RestorableOver (builtin b) (int n)
      float_value :
          {f bits : ℕ} → single_bits f ≡ some bits → RestorableOver (builtin B.float) (float f)
      double_value : {f : ℕ} → RestorableOver (builtin B.double) (float f)
      string_null : RestorableOver (builtin B.string) null
      string_value : {s : String} → RestorableOver (builtin B.string) (str s)
      date_time_value : {n : ℤ} → RestorableOver (builtin B.date_time) (date_time n)
      guid_value : {bs : Bytes} → IsGuid bs → RestorableOver (builtin B.guid) (guid bs)
      byte_string_null : RestorableOver (builtin B.byte_string) null
      byte_string_value :
          {bs : Bytes} → All IsByte bs → RestorableOver (builtin B.byte_string) (bytes bs)
      xml_element_value :
          {s : Option String} → RestorableOver (builtin B.xml_element) (xml_element s)
      status_code_value : {n : ℤ} → RestorableOver (builtin B.status_code) (status_code n)
      node_id_value : {n : NodeId} → IsNodeId n → RestorableOver (builtin B.node_id) (node_id n)
      expanded_node_id_value :
          {n : NodeId} {u : Option String} {s : ℤ}
          → IsNodeId n
          → RestorableOver (builtin B.expanded_node_id) (expanded_node_id n u s)
      qualified_name_value :
          {n : ℤ} {s : Option String}
          → RestorableOver (builtin B.qualified_name) (qualified_name n s)
      localized_text_null : RestorableOver (builtin B.localized_text) null
      localized_text_value :
          {l s : Option String} → RestorableOver (builtin B.localized_text) (localized_text l s)
      extension_object_null :
          {n : NodeId}
          → IsNodeId n
          → RestorableOver (builtin B.extension_object) (extension_object n null)
      extension_object_body :
          {n : NodeId} {v : Obj} (s : Struct)
          → IsNodeId n
          → resolve reg n ≡ ok s
          → encodes_null v ≡ false
          → P (struct s) v
          → RestorableOver (builtin B.extension_object) (extension_object n v)
      variant_null : RestorableOver (builtin B.variant) (variant none null none)
      variant_array :
          {b : B} {xs : Items} {ds : Option (List ℤ)}
          → RestorableParts (builtin b) xs
          → RestorableOver (builtin B.variant) (variant (some (builtin b)) (list xs) ds)
      variant_scalar :
          {b : B} {v : Obj} {ds : Option (List ℤ)}
          → is_list v ≡ false
          → P (builtin b) v
          → RestorableOver (builtin B.variant) (variant (some (builtin b)) v ds)
      data_value_value :
          {v : Obj} {s a b c d : Option ℤ}
          → RestorablePart (builtin B.variant) v
          → RestorableOver (builtin B.data_value) (data_value v s a b c d)
      diagnostic_info_value :
          {s n l t c : Option ℤ} {a : Option String} {v : Obj}
          → RestorablePart (builtin B.diagnostic_info) v
          → RestorableOver (builtin B.diagnostic_info) (diagnostic_info s n l t a c v)

abbrev pub Restorable : (ℕ → Option ℕ) → Registry → ℕ → Descriptor → Obj → Type 0
Restorable single_bits reg zero t v = ⊥
Restorable single_bits reg (suc n) t v =
    RestorableOver (Restorable single_bits reg n) single_bits reg t v
