-- ===== src/Encoding/NodeSet/Sound.antt =====
-- nodeset.py: what the loader's state holds between two steps.
use opcua_drafts.Prelude.{
  String, true, false, some, List, [], ◌∷◌, ◌++◌, ◌==◌, elem, NoDup, All, All-append_one, dict_keys,
  lookup, set, set-fresh, elem-set, NoDup-set, ◌≡◌, refl, sym, ◌∙◌, ap, inl, inr, Bool-cases,
  false≢true, same, subst,
}
use opcua_drafts.Unseen.{Within}
use opcua_drafts.Encoding.Types.{
  Enumeration, Descriptor, builtin, enumeration, struct, array, matrix, Struct,
}
use opcua_drafts.Encoding.NodeSet.{
  DefinitionElement, DataTypeElement, Aliases, Loader, is_enumeration, add_enum, add_struct,
}
use opcua_drafts.Encoding.NodeSet.Described.{Entry, Finds, Entries-mono, set-Finds}

-- The structures and the enumerations among the cached types.
abbrev pub structs_of : List (String × Descriptor) → List Struct
structs_of [] = []
structs_of ((id, struct s) ∷ d) = s ∷ structs_of d
structs_of ((id, other) ∷ d) = structs_of d

abbrev pub enums_of : List (String × Descriptor) → List Enumeration
enums_of [] = []
enums_of ((id, enumeration e) ∷ d) = e ∷ enums_of d
enums_of ((id, other) ∷ d) = enums_of d

pub structs_of-struct :
    (d : List (String × Descriptor)) (id : String) (s : Struct)
    → structs_of (d ++ (id, struct s) ∷ []) ≡ structs_of d ++ s ∷ []
structs_of-struct [] id s = refl
structs_of-struct ((k, struct t) ∷ d) id s = ap (λ r. t ∷ r) (structs_of-struct d id s)
structs_of-struct ((k, builtin b) ∷ d) id s = structs_of-struct d id s
structs_of-struct ((k, array e n) ∷ d) id s = structs_of-struct d id s
structs_of-struct ((k, matrix e n) ∷ d) id s = structs_of-struct d id s
structs_of-struct ((k, enumeration e) ∷ d) id s = structs_of-struct d id s

pub structs_of-enum :
    (d : List (String × Descriptor)) (id : String) (e : Enumeration)
    → structs_of (d ++ (id, enumeration e) ∷ []) ≡ structs_of d
structs_of-enum [] id e = refl
structs_of-enum ((k, struct t) ∷ d) id e = ap (λ r. t ∷ r) (structs_of-enum d id e)
structs_of-enum ((k, builtin b) ∷ d) id e = structs_of-enum d id e
structs_of-enum ((k, array a n) ∷ d) id e = structs_of-enum d id e
structs_of-enum ((k, matrix a n) ∷ d) id e = structs_of-enum d id e
structs_of-enum ((k, enumeration a) ∷ d) id e = structs_of-enum d id e

pub enums_of-enum :
    (d : List (String × Descriptor)) (id : String) (e : Enumeration)
    → enums_of (d ++ (id, enumeration e) ∷ []) ≡ enums_of d ++ e ∷ []
enums_of-enum [] id e = refl
enums_of-enum ((k, enumeration t) ∷ d) id e = ap (λ r. t ∷ r) (enums_of-enum d id e)
enums_of-enum ((k, builtin b) ∷ d) id e = enums_of-enum d id e
enums_of-enum ((k, array a n) ∷ d) id e = enums_of-enum d id e
enums_of-enum ((k, matrix a n) ∷ d) id e = enums_of-enum d id e
enums_of-enum ((k, struct a) ∷ d) id e = enums_of-enum d id e

pub enums_of-struct :
    (d : List (String × Descriptor)) (id : String) (s : Struct)
    → enums_of (d ++ (id, struct s) ∷ []) ≡ enums_of d
enums_of-struct [] id s = refl
enums_of-struct ((k, enumeration t) ∷ d) id s = ap (λ r. t ∷ r) (enums_of-struct d id s)
enums_of-struct ((k, builtin b) ∷ d) id s = enums_of-struct d id s
enums_of-struct ((k, array a n) ∷ d) id s = enums_of-struct d id s
enums_of-struct ((k, matrix a n) ∷ d) id s = enums_of-struct d id s
enums_of-struct ((k, struct a) ∷ d) id s = enums_of-struct d id s

module _ (aliases : Aliases) (defs : List (String × DataTypeElement)) where
  -- The id has no Definition of an enumeration.
  abbrev pub NotEnum : String → Type 0
  NotEnum id =
      (dt : DataTypeElement) (d : DefinitionElement)
      → lookup id defs ≡ some dt
      → dt.definition ≡ some d
      → is_enumeration d ≡ false

  pub record Good (l : Loader) : Type 0 where
    pub keys_distinct : NoDup (dict_keys l.cache)
    pub apart : (x : String) → elem x l.in_progress ≡ true → elem x (dict_keys l.cache) ≡ false
    pub pending : (x : String) → elem x l.in_progress ≡ true → NotEnum x
    pub structs_cached : l.structs ≡ structs_of l.cache
    pub enums_cached : l.enums ≡ enums_of l.cache
    pub entries : All (Entry aliases defs l.cache) l.cache

  -- What a call keeps.
  pub record Kept (l k : Loader) : Type 0 where
    pub progress : k.in_progress ≡ l.in_progress
    pub grows : Within (dict_keys l.cache) (dict_keys k.cache)
    pub finds : Finds aliases defs l.cache k.cache
    pub good : Good k

  apart-set :
      (l : Loader) (id : String) (d : Descriptor)
      → Good l
      → elem id l.in_progress ≡ false
      → (x : String) → elem x l.in_progress ≡ true
      → elem x (dict_keys (set id d l.cache)) ≡ false
  apart-set l id d g p x h = elim (Bool-cases (id == x)) [
    | inl e ↦ absurd (false≢true (sym p ∙ (ap (λ y. elem y l.in_progress) (same id x e) ∙ h)))
    | inr e ↦ rw (elem-set x id d l.cache, e, g.apart x h)
  ]

  pub Good-add_enum :
      (l : Loader) (id : String) (e : Enumeration)
      → Good l
      → elem id (dict_keys l.cache) ≡ false
      → elem id l.in_progress ≡ false
      → Entry aliases defs l.cache (id, enumeration e)
      → Good (add_enum id e l)
  Good-add_enum l id e g c p entry = record {
    keys_distinct = NoDup-set id (enumeration e) l.cache g.keys_distinct;
    apart = apart-set l id (enumeration e) g p;
    pending = g.pending;
    structs_cached =
        g.structs_cached
        ∙ sym
            (ap structs_of (set-fresh id (enumeration e) l.cache c) ∙ structs_of-enum l.cache id e);
    enums_cached =
        ap (λ es. es ++ e ∷ []) g.enums_cached
        ∙ sym (ap enums_of (set-fresh id (enumeration e) l.cache c) ∙ enums_of-enum l.cache id e);
    entries =
        Entries-mono aliases defs l.cache (set id (enumeration e) l.cache)
          (set id (enumeration e) l.cache) (set-Finds aliases defs id (enumeration e) l.cache c)
          (subst (All (Entry aliases defs l.cache)) (sym (set-fresh id (enumeration e) l.cache c)) (
            All-append_one (Entry aliases defs l.cache) l.cache (id, enumeration e) g.entries
              entry));
  }

  pub Good-add_struct :
      (l : Loader) (id : String) (s : Struct)
      → Good l
      → elem id (dict_keys l.cache) ≡ false
      → elem id l.in_progress ≡ false
      → Entry aliases defs l.cache (id, struct s)
      → Good (add_struct id s l)
  Good-add_struct l id s g c p entry = record {
    keys_distinct = NoDup-set id (struct s) l.cache g.keys_distinct;
    apart = apart-set l id (struct s) g p;
    pending = g.pending;
    structs_cached =
        ap (λ ss. ss ++ s ∷ []) g.structs_cached
        ∙ sym (ap structs_of (set-fresh id (struct s) l.cache c) ∙ structs_of-struct l.cache id s);
    enums_cached =
        g.enums_cached
        ∙ sym (ap enums_of (set-fresh id (struct s) l.cache c) ∙ enums_of-struct l.cache id s);
    entries =
        Entries-mono aliases defs l.cache (set id (struct s) l.cache) (set id (struct s) l.cache)
          (set-Finds aliases defs id (struct s) l.cache c)
          (subst (All (Entry aliases defs l.cache)) (sym (set-fresh id (struct s) l.cache c))
            (All-append_one (Entry aliases defs l.cache) l.cache (id, struct s) g.entries entry));
  }
