-- ===== src/Encoding/Values.antt =====
-- opcua_enc/values.py: the Python objects that the codecs read and write, and `canonical_equal`.
-- One type holds every object that can stand in a field annotated `Any`: plain Python values, of
-- which a JSON document is made, and the instances of the dataclasses of values.py. A `float` is
-- given by the bit pattern of its IEEE-754 double.
pub mod Laws
use opcua_drafts.Prelude.{
  ℕ, ℤ, String, Bool, true, false, ◌&&◌, ◌||◌, Option, none, some, List, [], ◌∷◌, eqb, int_eq, ◌==◌,
  if◌then◌else◌, Result, err, ok, key_error, overflow_error, from_option, ◌>>=◌, and_also,
}
use opcua_drafts.Encoding.Types.{BuiltInType as B, Descriptor, descriptor_eq}

abbrev pub Bytes : Type 0
Bytes = List ℕ

pub data IdType : Type 0 where
  numeric string guid opaque : IdType

-- Union[int, str, Guid, bytes, None]
pub data Identifier : Type 0 where
  number : ℤ → Identifier
  text : String → Identifier
  guid_bytes : Bytes → Identifier
  opaque_bytes : Bytes → Identifier
  absent : Identifier

pub record NodeId : Type 0 where
  pub namespace : ℤ
  pub id_type : IdType
  pub identifier : Identifier

mutual
  pub data Obj : Type 0 where
    -- None, bool, int, float, str, bytes, list, dict
    null : Obj
    bool : Bool → Obj
    int : ℤ → Obj
    float : ℕ → Obj
    str : String → Obj
    bytes : Bytes → Obj
    list : Items → Obj
    dict : Entries → Obj
    -- DateTime(ticks), Guid(bytes), XmlElement(value), StatusCode(value)
    date_time : ℤ → Obj
    guid : Bytes → Obj
    xml_element : Option String → Obj
    status_code : ℤ → Obj
    node_id : NodeId → Obj
    -- ExpandedNodeId(node_id, namespace_uri, server_index)
    expanded_node_id : NodeId → Option String → ℤ → Obj
    -- QualifiedName(namespace, name), LocalizedText(locale, text)
    qualified_name : ℤ → Option String → Obj
    localized_text : Option String → Option String → Obj
    -- ExtensionObject(type_id, body), StructValue(fields, type_name), UnionValue(field_name, value)
    extension_object : NodeId → Obj → Obj
    struct_value : Entries → Option String → Obj
    union_value : Option String → Obj → Obj
    -- Matrix(dimensions, values), Variant(vtype, value, dimensions)
    matrix : List ℤ → Items → Obj
    variant : Option Descriptor → Obj → Option (List ℤ) → Obj
    -- DataValue(value, status, source_timestamp, source_picoseconds, server_timestamp,
    -- server_picoseconds)
    data_value : Obj → Option ℤ → Option ℤ → Option ℤ → Option ℤ → Option ℤ → Obj
    -- DiagnosticInfo(symbolic_id, namespace_uri, locale, localized_text, additional_info,
    -- inner_status_code, inner_diagnostic_info)
    diagnostic_info :
        Option ℤ → Option ℤ → Option ℤ → Option ℤ → Option String → Option ℤ → Obj → Obj

  -- The elements of a list, and of a tuple of values.
  pub data Items : Type 0 where
    nil : Items
    cons : Obj → Items → Items

  -- A dict with text keys, in insertion order.
  pub data Entries : Type 0 where
    end : Entries
    entry : String → Obj → Entries → Entries

-- d.get(k) of a dict
unfoldable pub lookup : String → Entries → Option Obj
lookup k end = none
lookup k (entry j v d) = if j == k then some v else lookup k d

-- k in d
unfoldable pub has_key : String → Entries → Bool
has_key k end = false
has_key k (entry j v d) = j == k || has_key k d

-- d[k] = v
unfoldable pub insert : String → Obj → Entries → Entries
insert k v end = entry k v end
insert k v (entry j w d) = if j == k then entry k v d else entry j w (insert k v d)

-- Every key of the first is a key of the second.
abbrev pub keys_within : Entries → Entries → Bool
keys_within end d = true
keys_within (entry k v c) d = has_key k d && keys_within c d

abbrev pub option_eq {ℓ} : {A : Type ℓ} → (A → A → Bool) → Option A → Option A → Bool
option_eq eq none none = true
option_eq eq (some a) (some b) = eq a b
option_eq eq _ _ = false

abbrev pub list_eq {ℓ} : {A : Type ℓ} → (A → A → Bool) → List A → List A → Bool
list_eq eq [] [] = true
list_eq eq (a ∷ xs) (b ∷ ys) = eq a b && list_eq eq xs ys
list_eq eq _ _ = false

abbrev pub id_type_eq : IdType → IdType → Bool
id_type_eq IdType.numeric IdType.numeric = true
id_type_eq IdType.string IdType.string = true
id_type_eq IdType.guid IdType.guid = true
id_type_eq IdType.opaque IdType.opaque = true
id_type_eq _ _ = false

abbrev pub identifier_eq : Identifier → Identifier → Bool
identifier_eq (number a) (number b) = int_eq a b
identifier_eq (text a) (text b) = a == b
identifier_eq (guid_bytes a) (guid_bytes b) = list_eq eqb a b
identifier_eq (opaque_bytes a) (opaque_bytes b) = list_eq eqb a b
identifier_eq absent absent = true
identifier_eq _ _ = false

abbrev pub node_id_eq : NodeId → NodeId → Bool
node_id_eq a b =
    int_eq a.namespace b.namespace
    && id_type_eq a.id_type b.id_type
    && identifier_eq a.identifier b.identifier

abbrev pub option_int_eq : Option ℤ → Option ℤ → Bool
option_int_eq = option_eq int_eq

abbrev pub option_str_eq : Option String → Option String → Bool
option_str_eq = option_eq ◌==◌

-- `_variant_is_single` and `is_single_float_type`
abbrev pub is_single_float_type : Option Descriptor → Bool
is_single_float_type (some (Descriptor.builtin B.float)) = true
is_single_float_type _ = false

-- len(a) == len(b)
abbrev pub same_length : Items → Items → Bool
same_length nil nil = true
same_length (cons x xs) (cons y ys) = same_length xs ys
same_length _ _ = false

-- `struct.pack("<f", x)` is not modelled: `single_bits` gives the pattern that it writes for the
-- double with the given bits, and none where it raises OverflowError.
module _ (single_bits : ℕ → Option ℕ) where
  abbrev pub float_bits : ℕ → Bool → Result ℕ
  float_bits f single = elim single [
    | true ↦ from_option overflow_error (single_bits f)
    | false ↦ ok f
  ]

  unfoldable mutual
    pub canonical_equal : Obj → Obj → Bool → Result Bool
    canonical_equal null null single = ok true
    canonical_equal (float f) (float g) single = do
      a ← float_bits f single
      b ← float_bits g single
      ok (eqb a b)
    canonical_equal (bool true) (bool true) single = ok true
    canonical_equal (bool false) (bool false) single = ok true
    canonical_equal (int a) (int b) single = ok (int_eq a b)
    canonical_equal (str a) (str b) single = ok (a == b)
    canonical_equal (bytes a) (bytes b) single = ok (list_eq eqb a b)
    canonical_equal (list xs) (list ys) single =
        and_also (ok (same_length xs ys)) (items_equal xs ys single)
    canonical_equal (dict c) (dict d) single =
        and_also (ok (keys_within c d && keys_within d c)) (entries_equal c d single)
    canonical_equal (variant t v d) (variant u w e) single =
        and_also (ok (option_eq descriptor_eq t u && option_eq (list_eq int_eq) d e))
          (canonical_equal v w (is_single_float_type t))
    canonical_equal (date_time a) (date_time b) single = ok (int_eq a b)
    canonical_equal (guid a) (guid b) single = ok (list_eq eqb a b)
    canonical_equal (xml_element a) (xml_element b) single = ok (option_str_eq a b)
    canonical_equal (status_code a) (status_code b) single = ok (int_eq a b)
    canonical_equal (node_id a) (node_id b) single = ok (node_id_eq a b)
    canonical_equal (expanded_node_id a u s) (expanded_node_id b v t) single =
        ok (node_id_eq a b && option_str_eq u v && int_eq s t)
    canonical_equal (qualified_name a n) (qualified_name b m) single =
        ok (int_eq a b && option_str_eq n m)
    canonical_equal (localized_text a n) (localized_text b m) single =
        ok (option_str_eq a b && option_str_eq n m)
    canonical_equal (extension_object a x) (extension_object b y) single =
        and_also (ok (node_id_eq a b)) (canonical_equal x y single)
    canonical_equal (struct_value c n) (struct_value d m) single =
        and_also (ok (keys_within c d && keys_within d c)) (entries_equal c d single)
    canonical_equal (union_value n x) (union_value m y) single =
        and_also (ok (option_str_eq n m)) (canonical_equal x y single)
    canonical_equal (matrix d xs) (matrix e ys) single =
        and_also (ok (list_eq int_eq d e && same_length xs ys)) (items_equal xs ys single)
    canonical_equal (data_value v s t p u q) (data_value w s' t' p' u' q') single =
        and_also (canonical_equal v w single) (
          ok (
            option_int_eq s s'
            && option_int_eq t t'
            && option_int_eq p p'
            && option_int_eq u u'
            && option_int_eq q q'))
    canonical_equal (diagnostic_info s n l t a c x) (diagnostic_info s' n' l' t' a' c' y) single =
        and_also
          (ok (
            option_int_eq s s'
            && option_int_eq n n'
            && option_int_eq l l'
            && option_int_eq t t'
            && option_str_eq a a'
            && option_int_eq c c'))
          (canonical_equal x y single)
    canonical_equal _ _ single = ok false

    -- all(canonical_equal(x, y) for x, y in zip(a, b)) of lists of one length
    pub items_equal : Items → Items → Bool → Result Bool
    items_equal (cons x xs) (cons y ys) single =
        and_also (canonical_equal x y single) (items_equal xs ys single)
    items_equal _ _ single = ok true

    -- all(canonical_equal(a[k], b[k]) for k in a) of dicts with the same keys
    pub entries_equal : Entries → Entries → Bool → Result Bool
    entries_equal end d single = ok true
    entries_equal (entry k v c) d single =
        and_also (elim (lookup k d) [ none ↦ err key_error | some w ↦ canonical_equal v w single ])
          (entries_equal c d single)
