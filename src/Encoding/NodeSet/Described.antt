-- ===== src/Encoding/NodeSet/Described.antt =====
-- nodeset.py: what a descriptor in the cache says of the element that it stands for.
use opcua_drafts.Prelude.{
  ℤ, String, Bool, true, false, none, some, List, [], ◌∷◌, ◌==◌, elem, All, dict_keys, lookup, set,
  lookup-set, elem-dict_keys, ok, ◌≡◌, sym, ◌∙◌, ap, inl, inr, Bool-cases, false≢true, same,
}
use opcua_drafts.Text.Decimal.{parse_int}
use opcua_drafts.Encoding.Types.{
  BuiltInType, extension_object, EnumMember, Descriptor, builtin, enumeration, struct, Fields, end,
  field, structure_type,
}
use opcua_drafts.Encoding.NodeSet.{
  FieldElement, DefinitionElement, DataTypeElement, Aliases, attribute, flag, type_name,
  is_enumeration, enum_members, shaped, kind_of,
}

-- f.get("DataType", "i=24")
abbrev pub type_id : FieldElement → String
type_id f = attribute "i=24" f.data_type

module _ (aliases : Aliases) (defs : List (String × DataTypeElement)) where
  abbrev pub Defined : String → Type 0
  Defined id =
      (dt : DataTypeElement) × (d : DefinitionElement) × (lookup id defs ≡ some dt)
      × (dt.definition ≡ some d)

  -- A field has the DataType.
  pub data Mentions : List FieldElement → String → Type 0 where
    first : {f : FieldElement} {fs : List FieldElement} → Mentions (f ∷ fs) (type_id f)
    later :
        {f : FieldElement} {fs : List FieldElement} {id : String}
        → Mentions fs id
        → Mentions (f ∷ fs) id

  -- A field of the Definition of the first type has the second as its DataType.
  abbrev pub Refers : String → String → Type 0
  Refers x y =
      (dt : DataTypeElement) × (d : DefinitionElement) × (lookup x defs ≡ some dt)
      × (dt.definition ≡ some d)
      × Mentions d.fields y

  -- References lead from the first type to the second.
  pub data Leads : String → String → Type 0 where
    stay : {x : String} → Leads x x
    on : {x y z : String} → Leads x y → Refers y z → Leads x z

  module _ (cache : List (String × Descriptor)) where
    -- What stands for the DataType of a field of `owner`, and whether subtypes are allowed: an
    -- alias stands for its built-in type; a type with a Definition for its descriptor in the cache,
    -- but if it leads back to the owner, it may be an ExtensionObject; any other type for an
    -- ExtensionObject, and only there subtypes are allowed.
    pub data Stands (owner : String) : String → Descriptor → Bool → Type 0 where
      aliased :
          {id : String} {b : BuiltInType}
          → lookup id aliases ≡ some b
          → Stands owner id (builtin b) false
      defined :
          {id : String} {d : Descriptor}
          → lookup id aliases ≡ none
          → lookup id cache ≡ some d
          → Stands owner id d false
      circular :
          {id : String}
          → lookup id aliases ≡ none
          → Leads id owner
          → Stands owner id (builtin extension_object) false
      unknown :
          {id : String}
          → lookup id aliases ≡ none
          → (Defined id → ⊥)
          → Stands owner id (builtin extension_object) true

    -- The fields of a structure are those of the element, in its order.
    pub data Mirrors (owner : String) : List FieldElement → Fields → Type 0 where
      no_field : Mirrors owner [] end
      one_field :
          {f : FieldElement} {fs : List FieldElement} {gs : Fields} {rank : ℤ} {d : Descriptor}
          {sub : Bool}
          → parse_int (attribute "-1" f.value_rank) ≡ ok rank
          → Stands owner (type_id f) d sub
          → Mirrors owner fs gs
          → Mirrors owner (f ∷ fs) (field f.name (shaped rank d) (flag f.is_optional) sub gs)

    -- The descriptor of a Definition.
    pub data Describes : String → DataTypeElement → DefinitionElement → Descriptor → Type 0 where
      as_enum :
          {id : String} {dt : DataTypeElement} {d : DefinitionElement} {ms : List EnumMember}
          → is_enumeration d ≡ true
          → enum_members d.fields ≡ ok ms
          → Describes id dt d (
              enumeration (record {
                name = type_name dt;
                members = ms;
                is_option_set = flag d.is_option_set;
                bit_size = ℤ.pos 32;
              }))
      as_struct :
          {id : String} {dt : DataTypeElement} {d : DefinitionElement} {fs : Fields}
          → is_enumeration d ≡ false
          → Mirrors id d.fields fs
          → Describes id dt d (
              struct
                (structure_type (type_name dt) fs (kind_of (flag d.is_union) fs) (some id) none))

    abbrev pub Entry : String × Descriptor → Type 0
    Entry p =
        (dt : DataTypeElement) × (d : DefinitionElement) × (lookup p.0 defs ≡ some dt)
        × (dt.definition ≡ some d)
        × Describes p.0 dt d p.1

  -- The second cache finds what the first finds.
  abbrev pub Finds : List (String × Descriptor) → List (String × Descriptor) → Type 0
  Finds c k = (x : String) (d : Descriptor) → lookup x c ≡ some d → lookup x k ≡ some d

  pub Stands-mono :
      (c k : List (String × Descriptor)) (owner id : String) (d : Descriptor) (b : Bool)
      → Finds c k
      → Stands c owner id d b
      → Stands k owner id d b
  Stands-mono c k owner id d b h (aliased e) = aliased e
  Stands-mono c k owner id d b h (defined e f) = defined e (h id d f)
  Stands-mono c k owner id d b h (circular e r) = circular e r
  Stands-mono c k owner id d b h (unknown e n) = unknown e n

  Mirrors-mono :
      (c k : List (String × Descriptor)) (owner : String) (fs : List FieldElement) (gs : Fields)
      → Finds c k
      → Mirrors c owner fs gs
      → Mirrors k owner fs gs
  Mirrors-mono c k owner fs gs h no_field = no_field
  Mirrors-mono c k owner fs gs h
        (one_field {f = f} {fs = rest} {gs = more} {d = d} {sub = b} r s m) =
      one_field r (Stands-mono c k owner (type_id f) d b h s) (Mirrors-mono c k owner rest more h m)

  Describes-mono :
      (c k : List (String × Descriptor)) (id : String) (dt : DataTypeElement)
      (d : DefinitionElement) (t : Descriptor)
      → Finds c k
      → Describes c id dt d t
      → Describes k id dt d t
  Describes-mono c k id dt d t h (as_enum e ms) = as_enum e ms
  Describes-mono c k id dt d t h (as_struct {fs = fs} e m) =
      as_struct e (Mirrors-mono c k id d.fields fs h m)

  Entry-mono :
      (c k : List (String × Descriptor)) (p : String × Descriptor)
      → Finds c k
      → Entry c p
      → Entry k p
  Entry-mono c k p h (dt, d, found, has, t) =
      (dt, d, found, has, Describes-mono c k p.0 dt d p.1 h t)

  pub Entries-mono :
      (c k ps : List (String × Descriptor)) → Finds c k → All (Entry c) ps → All (Entry k) ps
  Entries-mono c k [] h a = tt
  Entries-mono c k (p ∷ ps) h a = (Entry-mono c k p h a.0, Entries-mono c k ps h a.1)

  pub set-Finds :
      (id : String) (d : Descriptor) (c : List (String × Descriptor))
      → elem id (dict_keys c) ≡ false
      → Finds c (set id d c)
  set-Finds id d c fresh x e h = lookup-set x id d c ∙ elim (Bool-cases (id == x)) [
    | inl q ↦ absurd (
        false≢true
          (sym fresh ∙ ap (λ z. elem z (dict_keys c)) (same id x q) ∙ elem-dict_keys x c e h))
    | inr q ↦ rw (q) h
  ]
