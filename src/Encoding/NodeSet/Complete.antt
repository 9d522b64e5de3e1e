-- ===== src/Encoding/NodeSet/Complete.antt =====
-- nodeset.py: `_resolve_datatype` and `load` within their fuel.
use opcua_drafts.Encoding.NodeSet.Described.{as_enum, as_struct, Defined, Leads, stay, set-Finds}
use opcua_drafts.Encoding.NodeSet.Resolving.{
  resolve_enum, resolve_struct, resolve_definition, resolve_found, resolve_datatype,
}
use opcua_drafts.Prelude.{
  ℕ, zero, suc, ◌<◌, ℤ, String, true, false, Option, none, some, List, elem, All, dict_keys, lookup,
  set, elem-set, lookup-set, same, ◌==◌, lookup-some, elem-dict_keys, Result, ok, ◌>>=◌, ◌≡◌, refl,
  sym, ◌∙◌, ap, subst, arith, inl, inr, Bool-cases, Option-cases, false≢true, eq_refl,
}
use opcua_drafts.Unseen.{Within, unseen, unseen_note, elem-note}
use opcua_drafts.Encoding.Types.{
  EnumMember, Enumeration, Descriptor, builtin, extension_object, enumeration, struct, Struct,
  structure_type,
}
use opcua_drafts.Encoding.NodeSet.{
  DefinitionElement, DataTypeElement, Aliases, Loader, flag, type_name, is_enumeration,
  enum_members, kind_of, add_enum, add_in_progress, discard_in_progress, add_struct, Resolver,
}
use opcua_drafts.Encoding.NodeSet.Sound.{NotEnum, Good, Kept, Good-add_enum, Good-add_struct}
use opcua_drafts.Encoding.NodeSet.Walk.{
  RankReadable, Readable, AllReadable, Resolves, Gives, cached, busy, missing, LeadTo, Kept-refl,
  resolve_fields_lem, add_in_progress-Good, discard_in_progress-Good,
}

module _ (aliases : Aliases) (defs : List (String × DataTypeElement)) where
  -- What a call for the id leads to.
  abbrev Resolved : String → Loader → Result (Option Descriptor × Loader) → Type 0
  Resolved id l result =
      (r : Option Descriptor × Loader) × (result ≡ ok r)
      × Kept aliases defs l r.1
      × Gives aliases defs id l r
      × (Defined aliases defs id
          → elem id l.in_progress ≡ false
          → elem id (dict_keys r.1.cache) ≡ true)

  set-Within :
      (id : String) (d : Descriptor) (cache : List (String × Descriptor))
      → Within (dict_keys cache) (dict_keys (set id d cache))
  set-Within id d cache x h = rw (elem-set x id d cache, h)

  set-enters :
      (id : String) (d : Descriptor) (cache : List (String × Descriptor))
      → elem id (dict_keys (set id d cache)) ≡ true
  set-enters id d cache = ground (arith, elem-set id id d cache, eq_refl id)

  lookup-set_self :
      (id : String) (d : Descriptor) (cache : List (String × Descriptor))
      → lookup id (set id d cache) ≡ some d
  lookup-set_self id d cache = lookup-set id id d cache ∙ rw (eq_refl id)

  resolve_enum_lem :
      (id : String) (dt : DataTypeElement) (d : DefinitionElement) (l : Loader)
      → lookup id defs ≡ some dt
      → dt.definition ≡ some d
      → Good aliases defs l
      → elem id (dict_keys l.cache) ≡ false
      → elem id l.in_progress ≡ false
      → is_enumeration d ≡ true
      → (ms : List EnumMember) × (enum_members d.fields ≡ ok ms)
      → Resolved id l (resolve_enum aliases defs id dt d l)
  resolve_enum_lem id dt d l found has g c p e (ms, readable) =
      let made : Enumeration = record {
        name = type_name dt;
        members = ms;
        is_option_set = flag d.is_option_set;
        bit_size = ℤ.pos 32;
      } in
      (
        (some (enumeration made), add_enum id made l),
        rw (readable, ◌>>=◌),
        record {
          progress = refl;
          grows = set-Within id (enumeration made) l.cache;
          finds = set-Finds aliases defs id (enumeration made) l.cache c;
          good = Good-add_enum aliases defs l id made g c p (dt, d, found, has, as_enum e readable);
        },
        cached (lookup-set_self id (enumeration made) l.cache),
        λ h q. set-enters id (enumeration made) l.cache,
      )

  not_enum :
      (id : String) (dt : DataTypeElement) (d : DefinitionElement)
      → lookup id defs ≡ some dt
      → dt.definition ≡ some d
      → is_enumeration d ≡ false
      → NotEnum aliases defs id
  not_enum id dt d found has e dt' d' found' has' =
      subst (λ x. is_enumeration x ≡ false)
        (some_inj (sym has ∙ ap (λ y. y.definition) (some_inj (sym found ∙ found')) ∙ has')) e
    where
      some_inj : {A : Type 0} {x y : A} → some x ≡ some y → x ≡ y
      some_inj q = cc q

  resolve_struct_lem :
      (n : ℕ) (call : Resolver)
      → Resolves aliases defs n call
      → (id : String) (dt : DataTypeElement) (d : DefinitionElement) (l : Loader)
      → lookup id defs ≡ some dt
      → dt.definition ≡ some d
      → Good aliases defs l
      → elem id (dict_keys l.cache) ≡ false
      → elem id l.in_progress ≡ false
      → is_enumeration d ≡ false
      → All RankReadable d.fields
      → LeadTo aliases defs l id
      → unseen (dict_keys defs) l.in_progress < suc n
      → Resolved id l (resolve_struct aliases defs call id dt d l)
  resolve_struct_lem n call h id dt d l found has g c p e ranks lead f =
      let walk =
        resolve_fields_lem aliases defs n call h (type_name dt) id d.fields (add_in_progress id l)
          ranks (add_in_progress-Good aliases defs id l g c (not_enum id dt d found has e))
          (λ x q. elim (Bool-cases (id == x)) [
            | inl y ↦ subst (λ z. Leads aliases defs z id) (same id x y) stay
            | inr y ↦ lead x (ground (arith, elem-note x id l.in_progress))
          ])
          (λ x q. (dt, d, found, has, q))
          (omega (
            arith,
            f,
            unseen_note (dict_keys defs) l.in_progress id (elem-dict_keys id defs dt found) p,
          )) in
      let fs = walk.0.0 in
      let k = walk.0.1 in
      let made : Struct =
        structure_type (type_name dt) fs (kind_of (flag d.is_union) fs) (some id) none in
      let back = discard_in_progress-Good aliases defs id l k p walk.2 in
      (
        (some (struct made), add_struct id made (discard_in_progress id k)),
        rw (walk.1, ◌>>=◌),
        record {
          progress = back.0;
          grows = λ x q. set-Within id (struct made) k.cache x (walk.2.grows x q);
          finds = λ x t q.
              set-Finds aliases defs id (struct made) k.cache back.2 x t (walk.2.finds x t q);
          good =
              Good-add_struct aliases defs (discard_in_progress id k) id made back.1 back.2
                (subst (λ q. elem id q ≡ false) (sym back.0) p)
                (dt, d, found, has, as_struct e walk.3);
        },
        cached (lookup-set_self id (struct made) k.cache),
        λ q r. set-enters id (struct made) k.cache,
      )

  not_cached :
      (id : String) (cache : List (String × Descriptor))
      → lookup id cache ≡ none
      → elem id (dict_keys cache) ≡ false
  not_cached id cache h = elim (Bool-cases (elem id (dict_keys cache))) [
    | inl e ↦ (let r = lookup-some id cache e in differs r.0 (sym h ∙ r.1))
    | inr e ↦ e
  ]
    where
      differs : {P : Type 0} (x : Descriptor) → none ≡ some x → P
      differs x q = cc q

  Readable-enum :
      (d : DefinitionElement)
      → Readable d
      → is_enumeration d ≡ true
      → (ms : List EnumMember) × (enum_members d.fields ≡ ok ms)
  Readable-enum d r e =
      subst
        (λ b. elim b [
          | true ↦ (ms : List EnumMember) × (enum_members d.fields ≡ ok ms)
          | false ↦ All RankReadable d.fields
        ])
        e r

  Readable-struct :
      (d : DefinitionElement) → Readable d → is_enumeration d ≡ false → All RankReadable d.fields
  Readable-struct d r e =
      subst
        (λ b. elim b [
          | true ↦ (ms : List EnumMember) × (enum_members d.fields ≡ ok ms)
          | false ↦ All RankReadable d.fields
        ])
        e r

  resolve_definition_lem :
      (n : ℕ) (call : Resolver)
      → Resolves aliases defs n call
      → (id : String) (dt : DataTypeElement) (d : DefinitionElement) (l : Loader)
      → lookup id defs ≡ some dt
      → dt.definition ≡ some d
      → Good aliases defs l
      → elem id (dict_keys l.cache) ≡ false
      → Readable d
      → LeadTo aliases defs l id
      → unseen (dict_keys defs) l.in_progress < suc n
      → Resolved id l (resolve_definition aliases defs call id dt d l)
  resolve_definition_lem n call h id dt d l found has g c readable lead f =
      elim (Bool-cases (is_enumeration d)) [
        | inl e ↦
            rw (e, resolve_definition)
              (resolve_enum_lem id dt d l found has g c (idle e) e (Readable-enum d readable e))
        | inr e ↦ elim (Bool-cases (elem id l.in_progress)) [
          | inl p ↦ (
            (some (builtin extension_object), l),
            rw (e, resolve_definition) (rw (p, resolve_definition)),
            Kept-refl aliases defs l g,
            busy p,
            λ q r. absurd (false≢true (sym r ∙ p)),
          )
          | inr p ↦
              subst (Resolved id l) (sym (rw (e, resolve_definition) (rw (p, resolve_definition))))
                (resolve_struct_lem n call h id dt d l found has g c p e
                  (Readable-struct d readable e) lead f)
        ]
      ]
    where
      idle : is_enumeration d ≡ true → elem id l.in_progress ≡ false
      idle e = elim (Bool-cases (elem id l.in_progress)) [
        | inl p ↦ absurd (false≢true (sym (g.pending id p dt d found has) ∙ e))
        | inr p ↦ p
      ]

  resolve_found_lem :
      (n : ℕ) (call : Resolver)
      → AllReadable aliases defs
      → Resolves aliases defs n call
      → (id : String) (dt : DataTypeElement) (l : Loader) → lookup id defs ≡ some dt
      → Good aliases defs l
      → elem id (dict_keys l.cache) ≡ false
      → LeadTo aliases defs l id
      → unseen (dict_keys defs) l.in_progress < suc n
      → Resolved id l (resolve_found aliases defs call id (some dt) l)
  resolve_found_lem n call readable h id dt l found g c lead f =
      elim (Option-cases (dt.definition)) [
        | inl e ↦
            rw (e, resolve_found)
              (
                (none, l),
                refl,
                Kept-refl aliases defs l g,
                missing (λ q. undefined q e),
                λ q r. undefined q e,
              )
        | inr (d, e) ↦
            rw (e, resolve_found)
              (resolve_definition_lem n call h id dt d l found e g c (readable id dt d found e) lead
                f)
      ]
    where
      undefined : {P : Type 0} → Defined aliases defs id → dt.definition ≡ none → P
      undefined (dt', d, found', has) e =
          clash (sym e ∙ ap (λ y. y.definition) (some_inj (sym found ∙ found')) ∙ has)
        where
          some_inj : {A : Type 0} {x y : A} → some x ≡ some y → x ≡ y
          some_inj q = cc q

          clash : {P : Type 0} → none ≡ some d → P
          clash q = cc q

  pub resolve_datatype_lem :
      AllReadable aliases defs → (n : ℕ) → Resolves aliases defs n (resolve_datatype aliases defs n)
  unfolding resolve_datatype
  resolve_datatype_lem readable zero id l k g lead f = absurd (omega (arith, f))
  resolve_datatype_lem readable (suc n) id l k g lead f = elim (Option-cases (lookup id l.cache)) [
    | inr (d, e) ↦ (
      (some d, l),
      rw (e, resolve_datatype),
      Kept-refl aliases defs l g,
      cached e,
      λ q r. elem-dict_keys id l.cache d e,
    )
    | inl e ↦
        (let found = lookup-some id defs k in
          subst (Resolved id l)
            (ap (λ o. resolve_found aliases defs (resolve_datatype aliases defs n) id o l)
                (sym found.1)
              ∙ sym (rw (e, resolve_datatype)))
            (resolve_found_lem n (resolve_datatype aliases defs n) readable
              (resolve_datatype_lem readable n) id found.0 l found.1 g (not_cached id l.cache e)
              lead f))
  ]
