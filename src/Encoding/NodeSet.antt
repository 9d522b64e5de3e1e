-- ===== src/Encoding/NodeSet.antt =====
-- nodeset.py: the data types of a UANodeSet, resolved into type descriptors. The XML elements are
-- records of the attributes that the loader reads; `Name` and `NodeId`, which the schema of a
-- UANodeSet requires, are always there.
pub mod Resolving
pub mod Described
pub mod Sound
pub mod Walk
pub mod Complete
pub mod Load
pub mod Tests
use opcua_drafts.Prelude.{
  ℕ, zero, suc, String, Bool, true, false, not, ◌&&◌, ◌||◌, Option, none, some, List, [], ◌∷◌, ◌++◌,
  ◌==◌, ℤ, pos, negsuc, int_eq, length, all, any, elem, filter, dict_keys, lookup, set, Result, ok,
  err, recursion_error, ◌>>=◌,
}
use opcua_drafts.Text.{split_at, append}
use opcua_drafts.Text.Decimal.{parse_int}
use opcua_drafts.Encoding.Types.{
  BuiltInType, boolean, sbyte, byte, int16, uint16, int32, uint32, int64, uint64, float, double,
  string, date_time, guid, byte_string, xml_element, node_id, expanded_node_id, status_code,
  qualified_name, localized_text, extension_object, data_value, variant, diagnostic_info,
  EnumMember, Enumeration, StructureKind, structure, structure_with_optional_fields, union,
  Descriptor, builtin, array, matrix, enumeration, struct, Fields, end, field, Struct,
  structure_type,
}

-- A Field element.
pub record FieldElement : Type 0 where
  pub name : String
  pub data_type : Option String
  pub value : Option String
  pub is_optional : Option String
  pub value_rank : Option String

-- A Definition element with its Field elements.
pub record DefinitionElement : Type 0 where
  pub is_union : Option String
  pub is_option_set : Option String
  pub fields : List FieldElement

-- A UADataType element.
pub record DataTypeElement : Type 0 where
  pub id : String
  pub browse_name : Option String
  pub definition : Option DefinitionElement

abbrev pub Aliases : Type 0
Aliases = List (String × BuiltInType)

abbrev pub default_builtin_aliases : Aliases
default_builtin_aliases =
    ("i=1", boolean)
    ∷ ("i=2", sbyte)
    ∷ ("i=3", byte)
    ∷ ("i=4", int16)
    ∷ ("i=5", uint16)
    ∷ ("i=6", int32)
    ∷ ("i=7", uint32)
    ∷ ("i=8", int64)
    ∷ ("i=9", uint64)
    ∷ ("i=10", float)
    ∷ ("i=11", double)
    ∷ ("i=12", string)
    ∷ ("i=13", date_time)
    ∷ ("i=14", guid)
    ∷ ("i=15", byte_string)
    ∷ ("i=16", xml_element)
    ∷ ("i=17", node_id)
    ∷ ("i=18", expanded_node_id)
    ∷ ("i=19", status_code)
    ∷ ("i=20", qualified_name)
    ∷ ("i=21", localized_text)
    ∷ ("i=22", extension_object)
    ∷ ("i=23", data_value)
    ∷ ("i=24", variant)
    ∷ ("i=25", diagnostic_info)
    ∷ ("i=26", byte)
    ∷ ("i=27", int64)
    ∷ ("i=28", uint64)
    ∷ ("i=50", double)
    ∷ ("i=290", double)
    ∷ ("i=294", date_time)
    ∷ ("i=295", string)
    ∷ ("i=291", string)
    ∷ ("i=296", extension_object)
    ∷ []

-- `self.cache`, `self.in_progress` and `self.result`.
pub record Loader : Type 0 where
  pub cache : List (String × Descriptor)
  pub in_progress : List String
  pub structs : List Struct
  pub enums : List Enumeration
  pub unresolved : List String

-- s.split(":", 1)[-1]
abbrev pub local_part : String → String
local_part s = elim (split_at ":" s) [ none ↦ s | some parts ↦ parts.1 ]

-- dt.get(name, default)
abbrev pub attribute : String → Option String → String
attribute default given = elim given [ none ↦ default | some text ↦ text ]

-- dt.get(name) == "true"
abbrev pub flag : Option String → Bool
flag given = elim given [ none ↦ false | some text ↦ text == "true" ]

abbrev pub is_given : Option String → Bool
is_given given = elim given [ none ↦ false | some text ↦ true ]

-- `self.defs` and `self.names`, in one dict
abbrev pub index_types :
    List DataTypeElement → List (String × DataTypeElement) → List (String × DataTypeElement)
index_types [] defs = defs
index_types (dt ∷ dts) defs = index_types dts (set dt.id dt defs)

abbrev pub type_name : DataTypeElement → String
type_name dt = local_part (attribute "" dt.browse_name)

abbrev pub non_empty_fields : List FieldElement → Bool
non_empty_fields [] = false
non_empty_fields (f ∷ fs) = true

-- `is_enum or is_option_set`
abbrev pub is_enumeration : DefinitionElement → Bool
is_enumeration d =
    non_empty_fields d.fields
      && all (λ f. not (is_given f.data_type)) d.fields
      && any (λ f. is_given f.value) d.fields
    || flag d.is_option_set

abbrev pub enum_members : List FieldElement → Result (List EnumMember)
enum_members [] = ok []
enum_members (f ∷ fs) = do
  v ← parse_int (attribute "0" f.value)
  rest ← enum_members fs
  ok (record { name = f.name; value = v } ∷ rest)

-- `_nullable`
abbrev pub nullable : Descriptor → Bool
nullable (builtin string) = true
nullable (builtin byte_string) = true
nullable (builtin xml_element) = true
nullable (builtin node_id) = true
nullable (builtin expanded_node_id) = true
nullable (builtin qualified_name) = true
nullable (builtin localized_text) = true
nullable (builtin extension_object) = true
nullable (builtin data_value) = true
nullable (builtin variant) = true
nullable (builtin diagnostic_info) = true
nullable (builtin b) = false
nullable _ = true

-- rank in SCALAR_RANKS
abbrev pub is_scalar_rank : ℤ → Bool
is_scalar_rank rank = int_eq rank (negsuc 2) || int_eq rank (negsuc 1) || int_eq rank (negsuc 0)

abbrev pub shaped : ℤ → Descriptor → Descriptor
shaped rank elem_type = elim (is_scalar_rank rank) [
  | true ↦ elem_type
  | false ↦ elim (int_eq rank (pos 1) || int_eq rank (pos 0)) [
    | true ↦ array elem_type (nullable elem_type)
    | false ↦ matrix elem_type (nullable elem_type)
  ]
]

-- f"{owner}.{fname} -> {dtype_id}"
abbrev pub unresolved_text : String → String → String → String
unresolved_text owner fname id = append owner (append "." (append fname (append " -> " id)))

abbrev pub add_unresolved : String → Loader → Loader
add_unresolved text l = record {
  cache = l.cache;
  in_progress = l.in_progress;
  structs = l.structs;
  enums = l.enums;
  unresolved = l.unresolved ++ text ∷ [];
}

abbrev pub any_optional : Fields → Bool
any_optional end = false
any_optional (field n t o s fs) = o || any_optional fs

abbrev pub kind_of : Bool → Fields → StructureKind
kind_of is_union fs = elim is_union [
  | true ↦ union
  | false ↦ elim (any_optional fs) [ true ↦ structure_with_optional_fields | false ↦ structure ]
]

abbrev pub add_enum : String → Enumeration → Loader → Loader
add_enum id e l = record {
  cache = set id (enumeration e) l.cache;
  in_progress = l.in_progress;
  structs = l.structs;
  enums = l.enums ++ e ∷ [];
  unresolved = l.unresolved;
}

-- self.in_progress.add(nid)
abbrev pub add_in_progress : String → Loader → Loader
add_in_progress id l = record {
  cache = l.cache;
  in_progress = l.in_progress ++ id ∷ [];
  structs = l.structs;
  enums = l.enums;
  unresolved = l.unresolved;
}

-- self.in_progress.discard(nid)
abbrev pub discard_in_progress : String → Loader → Loader
discard_in_progress id l = record {
  cache = l.cache;
  in_progress = filter (λ x. not (id == x)) l.in_progress;
  structs = l.structs;
  enums = l.enums;
  unresolved = l.unresolved;
}

abbrev pub add_struct : String → Struct → Loader → Loader
add_struct id s l = record {
  cache = set id (struct s) l.cache;
  in_progress = l.in_progress;
  structs = l.structs ++ s ∷ [];
  enums = l.enums;
  unresolved = l.unresolved;
}

-- What `_resolve_datatype` returns, with the state that it leaves.
abbrev pub Resolver : Type 0
Resolver = String → Loader → Result (Option Descriptor × Loader)
