-- ===== src/Encoding/Types.antt =====
-- opcua_enc/types.py: the type descriptors.
use opcua_drafts.Prelude.{
  ℕ, ℤ, pos, negsuc, String, Bool, true, false, ◌&&◌, Option, none, some, List, [], ◌∷◌, eqb,
  int_eq, ◌==◌, ◌^◌, ◌-◌,
}

-- OPC 10000-6 Table 1.
pub data BuiltInType : Type 0 where
  boolean sbyte byte int16 uint16 int32 uint32 int64 uint64 float double string date_time guid
        byte_string xml_element node_id expanded_node_id status_code qualified_name localized_text
        extension_object data_value variant diagnostic_info :
      BuiltInType

-- The value of the `IntEnum` member.
abbrev pub type_number : BuiltInType → ℕ
type_number boolean = 1
type_number sbyte = 2
type_number byte = 3
type_number int16 = 4
type_number uint16 = 5
type_number int32 = 6
type_number uint32 = 7
type_number int64 = 8
type_number uint64 = 9
type_number float = 10
type_number double = 11
type_number string = 12
type_number date_time = 13
type_number guid = 14
type_number byte_string = 15
type_number xml_element = 16
type_number node_id = 17
type_number expanded_node_id = 18
type_number status_code = 19
type_number qualified_name = 20
type_number localized_text = 21
type_number extension_object = 22
type_number data_value = 23
type_number variant = 24
type_number diagnostic_info = 25

abbrev pub type_list : List BuiltInType
type_list =
    boolean ∷ sbyte ∷ byte ∷ int16 ∷ uint16 ∷ int32 ∷ uint32 ∷ int64 ∷ uint64 ∷ float ∷ double
    ∷ string ∷ date_time ∷ guid ∷ byte_string ∷ xml_element ∷ node_id ∷ expanded_node_id
    ∷ status_code ∷ qualified_name ∷ localized_text ∷ extension_object ∷ data_value ∷ variant
    ∷ diagnostic_info ∷ []

abbrev find_number : ℕ → List BuiltInType → Option BuiltInType
find_number n [] = none
find_number n (b ∷ bs) =
    let rest = find_number n bs in elim (eqb (type_number b) n) [ true ↦ some b | false ↦ rest ]

-- `BuiltInType(n)`: `none` is the ValueError.
abbrev pub type_of_number : ℕ → Option BuiltInType
type_of_number n = find_number n type_list

-- The inclusive domain of an integer type; `none` for a type that is no key of INTEGER_RANGES.
abbrev pub integer_ranges : BuiltInType → Option (ℤ × ℤ)
integer_ranges sbyte = some (negsuc (2 ^ 7 - 1), pos (2 ^ 7 - 1))
integer_ranges byte = some (pos 0, pos (2 ^ 8 - 1))
integer_ranges int16 = some (negsuc (2 ^ 15 - 1), pos (2 ^ 15 - 1))
integer_ranges uint16 = some (pos 0, pos (2 ^ 16 - 1))
integer_ranges int32 = some (negsuc (2 ^ 31 - 1), pos (2 ^ 31 - 1))
integer_ranges uint32 = some (pos 0, pos (2 ^ 32 - 1))
integer_ranges int64 = some (negsuc (2 ^ 63 - 1), pos (2 ^ 63 - 1))
integer_ranges uint64 = some (pos 0, pos (2 ^ 64 - 1))
integer_ranges _ = none

abbrev pub is_integer : BuiltInType → Bool
is_integer b = elim (integer_ranges b) [ none ↦ false | some r ↦ true ]

pub record EnumMember : Type 0 where
  pub name : String
  pub value : ℤ

pub record Enumeration : Type 0 where
  pub name : String
  pub members : List EnumMember
  pub is_option_set : Bool
  pub bit_size : ℤ

pub data StructureKind : Type 0 where
  structure structure_with_optional_fields union : StructureKind

-- A `Type`, the fields of a structure, and a `Struct`.
mutual
  pub data Descriptor : Type 0 where
    builtin : BuiltInType → Descriptor
    array : Descriptor → Bool → Descriptor
    matrix : Descriptor → Bool → Descriptor
    enumeration : Enumeration → Descriptor
    struct : Struct → Descriptor

  pub data Fields : Type 0 where
    end : Fields
    -- name, type, is_optional, allow_subtypes
    field : String → Descriptor → Bool → Bool → Fields → Fields

  pub data Struct : Type 0 where
    -- name, fields, kind, type_id, encoding_id
    structure_type : String → Fields → StructureKind → Option String → Option String → Struct

abbrev pub struct_name : Struct → String
struct_name (structure_type n fs k t e) = n

abbrev pub struct_fields : Struct → Fields
struct_fields (structure_type n fs k t e) = fs

abbrev pub struct_kind : Struct → StructureKind
struct_kind (structure_type n fs k t e) = k

abbrev pub struct_type_id : Struct → Option String
struct_type_id (structure_type n fs k t e) = t

-- Equality of descriptors, which `==` of two Variants asks for.
abbrev bool_eq : Bool → Bool → Bool
bool_eq true true = true
bool_eq false false = true
bool_eq _ _ = false

abbrev kind_eq : StructureKind → StructureKind → Bool
kind_eq structure structure = true
kind_eq structure_with_optional_fields structure_with_optional_fields = true
kind_eq union union = true
kind_eq _ _ = false

abbrev option_str_eq : Option String → Option String → Bool
option_str_eq none none = true
option_str_eq (some a) (some b) = a == b
option_str_eq _ _ = false

abbrev members_eq : List EnumMember → List EnumMember → Bool
members_eq [] [] = true
members_eq (a ∷ ms) (b ∷ ns) = a.name == b.name && int_eq a.value b.value && members_eq ms ns
members_eq _ _ = false

abbrev enumeration_eq : Enumeration → Enumeration → Bool
enumeration_eq a b =
    a.name == b.name
    && members_eq a.members b.members
    && bool_eq a.is_option_set b.is_option_set
    && int_eq a.bit_size b.bit_size

unfoldable mutual
  pub descriptor_eq : Descriptor → Descriptor → Bool
  descriptor_eq (builtin a) (builtin b) = eqb (type_number a) (type_number b)
  descriptor_eq (array a n) (array b m) = descriptor_eq a b && bool_eq n m
  descriptor_eq (matrix a n) (matrix b m) = descriptor_eq a b && bool_eq n m
  descriptor_eq (enumeration a) (enumeration b) = enumeration_eq a b
  descriptor_eq (struct a) (struct b) = struct_eq a b
  descriptor_eq _ _ = false

  pub fields_eq : Fields → Fields → Bool
  fields_eq end end = true
  fields_eq (field n a o s fs) (field m b p t gs) =
      n == m && descriptor_eq a b && bool_eq o p && bool_eq s t && fields_eq fs gs
  fields_eq _ _ = false

  pub struct_eq : Struct → Struct → Bool
  struct_eq (structure_type n fs k t e) (structure_type m gs l u f) =
      n == m && fields_eq fs gs && kind_eq k l && option_str_eq t u && option_str_eq e f
