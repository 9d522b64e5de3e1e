-- ===== src/Encoding/NodeSet/Resolving.antt =====
-- nodeset.py: the methods of _Loader that call each other.
use opcua_drafts.Prelude.{
  ℕ, zero, suc, String, Bool, true, false, Option, none, some, List, [], ◌∷◌, pos, length, elem,
  dict_keys, lookup, Result, ok, err, recursion_error, ◌>>=◌,
}
use opcua_drafts.Text.Decimal.{parse_int}
use opcua_drafts.Encoding.Types.{
  extension_object, Enumeration, Descriptor, builtin, enumeration, struct, Fields, end, field,
  Struct, structure_type,
}
use opcua_drafts.Encoding.NodeSet.{
  FieldElement, DefinitionElement, DataTypeElement, Aliases, Loader, attribute, flag, index_types,
  type_name, is_enumeration, enum_members, shaped, unresolved_text, add_unresolved, kind_of,
  add_enum, add_in_progress, discard_in_progress, add_struct, Resolver,
}

module _ (aliases : Aliases) (defs : List (String × DataTypeElement)) where
  -- `_resolve_element`
  abbrev pub fallback :
      String → String → String → Option Descriptor × Loader → Descriptor × Bool × Loader
  fallback owner fname id (some d, l) = (d, false, l)
  fallback owner fname id (none, l) =
      (builtin extension_object, true, add_unresolved (unresolved_text owner fname id) l)

  abbrev pub resolve_element :
      Resolver → String → String → String → Loader → Result (Descriptor × Bool × Loader)
  resolve_element resolve owner fname id l = elim (lookup id aliases) [
    | some b ↦ ok (builtin b, false, l)
    | none ↦ elim (elem id (dict_keys defs)) [
      | true ↦ resolve id l >>= λ r. ok (fallback owner fname id r)
      | false ↦ ok (fallback owner fname id (none, l))
    ]
  ]

  -- The loop of `_resolve_field` calls.
  abbrev pub resolve_fields :
      Resolver → String → List FieldElement → Loader → Result (Fields × Loader)
  resolve_fields resolve owner [] l = ok (end, l)
  resolve_fields resolve owner (f ∷ fs) l = do
    rank ← parse_int (attribute "-1" f.value_rank)
    e ← resolve_element resolve owner f.name (attribute "i=24" f.data_type) l
    rest ← resolve_fields resolve owner fs e.2
    ok (field f.name (shaped rank e.0) (flag f.is_optional) e.1 rest.0, rest.1)

  abbrev pub resolve_enum :
      String → DataTypeElement → DefinitionElement → Loader → Result (Option Descriptor × Loader)
  resolve_enum id dt d l = do
    ms ← enum_members d.fields
    let e : Enumeration = record {
      name = type_name dt;
      members = ms;
      is_option_set = flag d.is_option_set;
      bit_size = pos 32;
    }
    ok (some (enumeration e), add_enum id e l)

  abbrev pub resolve_struct :
      Resolver
      → String
      → DataTypeElement
      → DefinitionElement
      → Loader
      → Result (Option Descriptor × Loader)
  resolve_struct resolve id dt d l = do
    r ← resolve_fields resolve (type_name dt) d.fields (add_in_progress id l)
    let s : Struct =
        structure_type (type_name dt) r.0 (kind_of (flag d.is_union) r.0) (some id) none
    ok (some (struct s), add_struct id s (discard_in_progress id r.1))

  abbrev pub resolve_definition :
      Resolver
      → String
      → DataTypeElement
      → DefinitionElement
      → Loader
      → Result (Option Descriptor × Loader)
  resolve_definition resolve id dt d l = elim (is_enumeration d) [
    | true ↦ resolve_enum id dt d l
    | false ↦ elim (elem id l.in_progress) [
      | true ↦ ok (some (builtin extension_object), l)
      | false ↦ resolve_struct resolve id dt d l
    ]
  ]

  abbrev pub resolve_found :
      Resolver → String → Option DataTypeElement → Loader → Result (Option Descriptor × Loader)
  resolve_found resolve id none l = ok (none, l)
  resolve_found resolve id (some dt) l = elim (dt.definition) [
    | none ↦ ok (none, l)
    | some d ↦ resolve_definition resolve id dt d l
  ]

  -- `_resolve_datatype`; the fuel stands for Python's stack.
  unfoldable pub resolve_datatype : ℕ → Resolver
  resolve_datatype zero id l = err recursion_error
  resolve_datatype (suc n) id l =
      let resolve = resolve_datatype n in
      elim (lookup id l.cache) [
        | some found ↦ ok (some found, l)
        | none ↦ resolve_found resolve id (lookup id defs) l
      ]

  -- The loop of `load`.
  abbrev pub load_all : ℕ → List (String × DataTypeElement) → Loader → Result Loader
  load_all n [] l = ok l
  load_all n ((id, dt) ∷ dts) l = elim (dt.definition) [
    | none ↦ load_all n dts l
    | some d ↦ resolve_datatype n id l >>= λ r. load_all n dts r.1
  ]

abbrev pub empty_loader : Loader
empty_loader = record { cache = []; in_progress = []; structs = []; enums = []; unresolved = [] }

-- `load`, of the UADataType elements in the order of the document.
unfoldable pub load : Aliases → List DataTypeElement → Result Loader
load aliases dts =
    let defs = index_types dts [] in load_all aliases defs (suc (length defs)) defs empty_loader
