-- ===== src/Encoding/NodeSet/Load.antt =====
-- nodeset.py: `load` resolves every data type of the document.
use opcua_drafts.Encoding.NodeSet.Described.{Entry, Defined}
use opcua_drafts.Encoding.NodeSet.Resolving.{load_all, empty_loader, load}
use opcua_drafts.Prelude.{
  same, ℕ, suc, ◌<◌, String, Bool, true, false, none, some, List, [], ◌∷◌, ◌==◌, elem, length, All,
  NoDup, dict_keys, lookup, set, lookup-set, lookup-pairs, lookup-none, NoDup-set, ok, ◌>>=◌, ◌≡◌,
  refl, sym, ◌∙◌, ap, subst, arith, inl, inr, Bool-cases, Option-cases, false≢true, elem-dict_keys,
}
use opcua_drafts.Unseen.{unseen, unseen-length}
use opcua_drafts.Encoding.Types.{Descriptor}
use opcua_drafts.Encoding.NodeSet.{DefinitionElement, DataTypeElement, Aliases, Loader, index_types}
use opcua_drafts.Encoding.NodeSet.Sound.{Good, Kept}
use opcua_drafts.Encoding.NodeSet.Walk.{Readable, AllReadable, Kept-refl, Kept-trans}
use opcua_drafts.Encoding.NodeSet.Complete.{resolve_datatype_lem}

abbrev pub has_definition : List (String × DataTypeElement) → String → Bool
has_definition defs id = elim (lookup id defs) [
  | none ↦ false
  | some dt ↦ elim (dt.definition) [ none ↦ false | some d ↦ true ]
]

-- The numbers of the element's Definition, if it has one, are written as numbers.
abbrev pub TypeReadable : DataTypeElement → Type 0
TypeReadable dt = elim (dt.definition) [ none ↦ Unit | some d ↦ Readable d ]

index_types-NoDup :
    (dts : List DataTypeElement) (defs : List (String × DataTypeElement))
    → NoDup (dict_keys defs)
    → NoDup (dict_keys (index_types dts defs))
index_types-NoDup [] defs h = h
index_types-NoDup (dt ∷ dts) defs h =
    index_types-NoDup dts (set dt.id dt defs) (NoDup-set dt.id dt defs h)

-- What holds of all elements holds of the indexed ones.
index_types-All :
    (P : DataTypeElement → Type 0) (dts : List DataTypeElement)
    (defs : List (String × DataTypeElement))
    → All P dts
    → ((id : String) (dt : DataTypeElement) → lookup id defs ≡ some dt → P dt)
    → (id : String) (dt : DataTypeElement) → lookup id (index_types dts defs) ≡ some dt
    → P dt
index_types-All P [] defs h k = k
index_types-All P (dt ∷ dts) defs h k = index_types-All P dts (set dt.id dt defs) h.1 after
  where
    some_inj : {x y : DataTypeElement} → some x ≡ some y → x ≡ y
    some_inj q = cc q

    after : (id : String) (e : DataTypeElement) → lookup id (set dt.id dt defs) ≡ some e → P e
    after id e q = elim (Bool-cases (dt.id == id)) [
      | inl c ↦ subst P (some_inj (sym (lookup-set id dt.id dt defs ∙ rw (c)) ∙ q)) h.0
      | inr c ↦ k id e (sym (lookup-set id dt.id dt defs ∙ rw (c)) ∙ q)
    ]

Readable-of :
    (dt : DataTypeElement) (d : DefinitionElement)
    → TypeReadable dt
    → dt.definition ≡ some d
    → Readable d
Readable-of dt d h e = subst (λ o. elim o [ none ↦ Unit | some d' ↦ Readable d' ]) e h

module _ (aliases : Aliases) (defs : List (String × DataTypeElement)) where
  load_all_lem :
      AllReadable aliases defs
      → (n : ℕ) (dts : List (String × DataTypeElement)) (l : Loader)
      → All (λ p. lookup p.0 defs ≡ some p.1) dts
      → Good aliases defs l
      → l.in_progress ≡ []
      → length defs < n
      → (k : Loader) × (load_all aliases defs n dts l ≡ ok k)
        × Kept aliases defs l k
        × ((id : String)
            → elem id (dict_keys dts) ≡ true
            → Defined aliases defs id
            → elem id (dict_keys k.cache) ≡ true)
  load_all_lem readable n [] l h g p f =
      (l, refl, Kept-refl aliases defs l g, λ id e q. absurd (false≢true e))
  load_all_lem readable n ((id, dt) ∷ dts) l h g p f = elim (Option-cases (dt.definition)) [
    | inl e ↦
        (let rest = load_all_lem readable n dts l h.1 g p f in
          (
            rest.0,
            rw (e, load_all) rest.1,
            rest.2,
            λ x q r. elim (Bool-cases (id == x)) [
              | inl c ↦ undefined id x dt (same id x c) h.0 e r
              | inr c ↦ rest.3 x (ground arith) r
            ],
          ))
    | inr (d, e) ↦
        (let one =
            resolve_datatype_lem aliases defs readable n id l (elem-dict_keys id defs dt h.0) g
              (λ x q. absurd (false≢true (sym (ap (elem x) p) ∙ q))) (small f) in
          let rest = load_all_lem readable n dts one.0.1 h.1 one.2.good (one.2.progress ∙ p) f in
          (
            rest.0,
            rw (e, load_all) (rw (one.1, ◌>>=◌) rest.1),
            Kept-trans aliases defs l one.0.1 rest.0 one.2 rest.2,
            λ x q r. elim (Bool-cases (id == x)) [
              | inl c ↦ rest.2.grows x (
                  subst (λ y. elem y (dict_keys one.0.1.cache) ≡ true) (same id x c)
                    (one.4 (dt, d, h.0, e) (ap (elem id) p)))
              | inr c ↦ rest.3 x (ground arith) r
            ],
          ))
  ]
    where
      dict_length : (es : List (String × DataTypeElement)) → length (dict_keys es) ≡ length es
      dict_length [] = refl
      dict_length (e ∷ es) = ap suc (dict_length es)

      small : length defs < n → unseen (dict_keys defs) l.in_progress < n
      small q = omega (arith, q, unseen-length (dict_keys defs) l.in_progress, dict_length defs)

      undefined :
          {P : Type 0} (a b : String) (t : DataTypeElement)
          → a ≡ b
          → lookup a defs ≡ some t
          → t.definition ≡ none
          → Defined aliases defs b
          → P
      undefined a b t q found e r = cc (q, found, e, r.2, r.3)

  is_Defined : (id : String) → has_definition defs id ≡ true → Defined aliases defs id
  is_Defined id h = elim (Option-cases (lookup id defs)) [
    | inl e ↦ absurd (false≢true (sym (rw (e, has_definition)) ∙ h))
    | inr (dt, e) ↦ elim (Option-cases (dt.definition)) [
      | inl c ↦ absurd (false≢true (sym (rw (e, has_definition) (rw (c, has_definition))) ∙ h))
      | inr (d, c) ↦ (dt, d, e, c)
    ]
  ]

  Entry-defined :
      (id : String) (c cache : List (String × Descriptor))
      → All (Entry aliases defs c) cache
      → elem id (dict_keys cache) ≡ true
      → has_definition defs id ≡ true
  Entry-defined id c [] h e = absurd (false≢true e)
  Entry-defined id found ((k, v) ∷ cache) h e = elim (Bool-cases (k == id)) [
    | inl c ↦
        subst (λ y. has_definition defs y ≡ true) (same k id c)
          (rw (h.0.2, has_definition) (rw (h.0.3, has_definition)))
    | inr c ↦ Entry-defined id found cache h.1 (ground arith)
  ]

empty-Good :
    (aliases : Aliases) (defs : List (String × DataTypeElement)) → Good aliases defs empty_loader
empty-Good aliases defs = record {
  keys_distinct = tt;
  apart = λ x h. absurd (false≢true h);
  pending = λ x h. absurd (false≢true h);
  structs_cached = refl;
  enums_cached = refl;
  entries = tt;
}

bool_same : (a b : Bool) → (a ≡ true → b ≡ true) → (b ≡ true → a ≡ true) → a ≡ b
bool_same true b h k = sym (h refl)
bool_same false true h k = k refl
bool_same false false h k = refl

-- If the numbers of the Definitions are written as numbers, load returns within its fuel; nothing
-- is then in progress; the cache holds, once each, exactly the ids of the document that have a
-- Definition, each with the descriptor that its element describes, in which the type of a field
-- stands for the built-in type of its alias, for the descriptor that the same cache has for it,
-- or, only if it leads back to the structure, for an ExtensionObject, and, without a Definition,
-- for an ExtensionObject that allows subtypes; and the lists of structures and of enumerations
-- are those of the cache in its order.
pub load_lem :
    (aliases : Aliases) (dts : List DataTypeElement)
    → All TypeReadable dts
    → (l : Loader) × (load aliases dts ≡ ok l)
      × (l.in_progress ≡ [])
      × Good aliases (index_types dts []) l
      × ((id : String) → elem id (dict_keys l.cache) ≡ has_definition (index_types dts []) id)
unfolding load
load_lem aliases dts h =
    let defs = index_types dts [] in
    let readable : AllReadable aliases defs = λ id dt d found has.
      Readable-of dt d (index_types-All TypeReadable dts [] h (λ x y q. nothing x y q) id dt found)
        has in
    let walk =
      load_all_lem aliases defs readable (suc (length defs)) defs empty_loader
        (lookup-pairs defs (index_types-NoDup dts [] tt)) (empty-Good aliases defs) refl
        (omega arith) in
    (
      walk.0,
      walk.1,
      walk.2.progress,
      walk.2.good,
      λ id.
          bool_same (elem id (dict_keys walk.0.cache)) (has_definition defs id)
            (Entry-defined aliases defs id walk.0.cache walk.0.cache walk.2.good.entries)
            (λ q.
              walk.3 id
                (elem-dict_keys id defs (is_Defined aliases defs id q).0
                  (is_Defined aliases defs id q).2)
                (is_Defined aliases defs id q)),
    )
  where
    nothing : {P : Type 0} (x : String) (y : DataTypeElement) → lookup x [] ≡ some y → P
    nothing x y q = cc (sym (lookup-none x [] refl) ∙ q)
