-- ===== src/Encoding/NodeSet/Walk.antt =====
-- nodeset.py: the calls of `_resolve_datatype`, `_resolve_field` and `_resolve_element` within the
-- fuel.
use opcua_drafts.Encoding.NodeSet.Described.{
  Stands, aliased, defined, circular, unknown, Mirrors, no_field, one_field, Defined, Leads, on,
  Refers, Mentions, first, later, Stands-mono, type_id,
}
use opcua_drafts.Encoding.NodeSet.Resolving.{fallback, resolve_element, resolve_fields}
use opcua_drafts.Prelude.{
  filter-absent, ℕ, ◌<◌, ℤ, String, Bool, true, false, not, Option, none, some, List, [], ◌∷◌, ◌==◌,
  elem, filter, All, dict_keys, lookup, ok, ◌>>=◌, ◌≡◌, refl, sym, ◌∙◌, ap, subst, arith, inl, inr,
  Bool-cases, Option-cases, same, eq_refl, false≢true, elem-dict_keys,
}
use opcua_drafts.Text.Decimal.{parse_int}
use opcua_drafts.Unseen.{unseen, elem-note, Within-append}
use opcua_drafts.Encoding.Types.{
  extension_object, EnumMember, Descriptor, builtin, Fields, end, field,
}
use opcua_drafts.Encoding.NodeSet.{
  FieldElement, DefinitionElement, DataTypeElement, Aliases, Loader, attribute, flag,
  is_enumeration, enum_members, shaped, add_in_progress, discard_in_progress, Resolver,
  unresolved_text, add_unresolved,
}
use opcua_drafts.Encoding.NodeSet.Sound.{NotEnum, Good, Kept}

-- The numbers of a Definition are written as numbers.
abbrev pub RankReadable : FieldElement → Type 0
RankReadable f = (rank : ℤ) × (parse_int (attribute "-1" f.value_rank) ≡ ok rank)

abbrev pub Readable : DefinitionElement → Type 0
Readable d = elim (is_enumeration d) [
  | true ↦ (ms : List EnumMember) × (enum_members d.fields ≡ ok ms)
  | false ↦ All RankReadable d.fields
]

module _ (aliases : Aliases) (defs : List (String × DataTypeElement)) where
  abbrev pub AllReadable : Type 0
  AllReadable =
      (id : String) (dt : DataTypeElement) (d : DefinitionElement)
      → lookup id defs ≡ some dt
      → dt.definition ≡ some d
      → Readable d

  -- What a call for the id gives: the descriptor in the cache, an ExtensionObject for a structure
  -- that is in progress, or nothing for an id without a Definition.
  pub data Gives (id : String) (l : Loader) : Option Descriptor × Loader → Type 0 where
    cached : {d : Descriptor} {k : Loader} → lookup id k.cache ≡ some d → Gives id l (some d, k)
    busy :
        {k : Loader}
        → elem id l.in_progress ≡ true
        → Gives id l (some (builtin extension_object), k)
    missing : {k : Loader} → (Defined aliases defs id → ⊥) → Gives id l (none, k)

  -- The types in progress lead to the id.
  abbrev pub LeadTo : Loader → String → Type 0
  LeadTo l id = (x : String) → elem x l.in_progress ≡ true → Leads aliases defs x id

  -- A call that resolves any id of the document within the fuel.
  abbrev pub Resolves : ℕ → Resolver → Type 0
  Resolves n call =
      (id : String) (l : Loader)
      → elem id (dict_keys defs) ≡ true
      → Good aliases defs l
      → LeadTo l id
      → unseen (dict_keys defs) l.in_progress < n
      → (r : Option Descriptor × Loader) × (call id l ≡ ok r)
        × Kept aliases defs l r.1
        × Gives id l r
        × (Defined aliases defs id
            → elem id l.in_progress ≡ false
            → elem id (dict_keys r.1.cache) ≡ true)

  pub Kept-refl : (l : Loader) → Good aliases defs l → Kept aliases defs l l
  Kept-refl l g = record { progress = refl; grows = λ x h. h; finds = λ x d h. h; good = g }

  pub Kept-trans :
      (l k m : Loader) → Kept aliases defs l k → Kept aliases defs k m → Kept aliases defs l m
  Kept-trans l k m a b = record {
    progress = b.progress ∙ a.progress;
    grows = λ x h. b.grows x (a.grows x h);
    finds = λ x d h. b.finds x d (a.finds x d h);
    good = b.good;
  }

  Kept-add_unresolved :
      (text : String) (l k : Loader)
      → Kept aliases defs l k
      → Kept aliases defs l (add_unresolved text k)
  Kept-add_unresolved text l k a = record {
    progress = a.progress;
    grows = a.grows;
    finds = a.finds;
    good = record {
      keys_distinct = a.good.keys_distinct;
      apart = a.good.apart;
      pending = a.good.pending;
      structs_cached = a.good.structs_cached;
      enums_cached = a.good.enums_cached;
      entries = a.good.entries;
    };
  }

  Kept-fallback :
      (owner_name fname owner id : String) (l : Loader) (r : Option Descriptor × Loader)
      → Kept aliases defs l r.1
      → LeadTo l owner
      → Gives id l r
      → lookup id aliases ≡ none
      → Kept aliases defs l (fallback aliases defs owner_name fname id r).2
        × Stands aliases defs
            (fallback aliases defs owner_name fname id r).2.cache
            owner
            id
            (fallback aliases defs owner_name fname id r).0
            (fallback aliases defs owner_name fname id r).1
  Kept-fallback name fname owner id l r a c (cached h) e = (a, defined e h)
  Kept-fallback name fname owner id l r a c (busy h) e = (a, circular e (c id h))
  Kept-fallback name fname owner id l r a c (missing {k = k} h) e =
      (Kept-add_unresolved (unresolved_text name fname id) l k a, unknown e h)

  resolve_element_lem :
      (n : ℕ) (call : Resolver)
      → Resolves n call
      → (name fname owner id : String) (l : Loader) → Good aliases defs l
      → LeadTo l owner
      → Refers aliases defs owner id
      → unseen (dict_keys defs) l.in_progress < n
      → (r : Descriptor × Bool × Loader) × (resolve_element aliases defs call name fname id l
          ≡ ok r)
        × Kept aliases defs l r.2
        × Stands aliases defs r.2.cache owner id r.0 r.1
  resolve_element_lem n call h name fname owner id l g c m f =
      elim (Option-cases (lookup id aliases)) [
        | inr (b, e) ↦ ((builtin b, false, l), rw (e, resolve_element), Kept-refl l g, aliased e)
        | inl e ↦ elim (Bool-cases (elem id (dict_keys defs))) [
          | inl d ↦
              (let r = h id l d g (λ x q. on (c x q) m) f in
                let kept = Kept-fallback name fname owner id l r.0 r.2 c r.3 e in
                (
                  fallback aliases defs name fname id r.0,
                  rw (e, resolve_element) (rw (d, resolve_element) (rw (r.1, ◌>>=◌))),
                  kept.0,
                  kept.1,
                ))
          | inr d ↦ (
            (builtin extension_object, true, add_unresolved (unresolved_text name fname id) l),
            rw (e, resolve_element) (rw (d, resolve_element)),
            Kept-add_unresolved (unresolved_text name fname id) l l (Kept-refl l g),
            unknown e (λ q. absurd (false≢true (sym d ∙ elem-dict_keys id defs q.0 q.2))),
          )
        ]
      ]

  pub resolve_fields_lem :
      (n : ℕ) (call : Resolver)
      → Resolves n call
      → (name owner : String) (fs : List FieldElement) (l : Loader) → All RankReadable fs
      → Good aliases defs l
      → LeadTo l owner
      → ((id : String) → Mentions aliases defs fs id → Refers aliases defs owner id)
      → unseen (dict_keys defs) l.in_progress < n
      → (r : Fields × Loader) × (resolve_fields aliases defs call name fs l ≡ ok r)
        × Kept aliases defs l r.1
        × Mirrors aliases defs r.1.cache owner fs r.0
  resolve_fields_lem n call h name owner [] l ranks g c m f =
      ((end, l), refl, Kept-refl l g, no_field)
  resolve_fields_lem n call h name owner (x ∷ fs) l ranks g c m f =
      let one =
        resolve_element_lem n call h name x.name owner (type_id x) l g c (m (type_id x) first) f in
      let rest =
        resolve_fields_lem n call h name owner fs one.0.2 ranks.1 one.2.good
          (λ y q. c y (subst (λ p. elem y p ≡ true) one.2.progress q)) (λ y q. m y (later q))
          (subst (λ p. unseen (dict_keys defs) p < n) (sym one.2.progress) f) in
      (
        (field x.name (shaped ranks.0.0 one.0.0) (flag x.is_optional) one.0.1 rest.0.0, rest.0.1),
        rw (ranks.0.1, ◌>>=◌) (rw (one.1, ◌>>=◌) (rw (rest.1, ◌>>=◌))),
        Kept-trans l one.0.2 rest.0.1 one.2 rest.2,
        one_field ranks.0.1
            (Stands-mono aliases defs one.0.2.cache rest.0.1.cache owner (type_id x) one.0.0 one.0.1
              rest.2.finds one.3)
            rest.3,
      )

  pub add_in_progress-Good :
      (id : String) (l : Loader)
      → Good aliases defs l
      → elem id (dict_keys l.cache) ≡ false
      → NotEnum aliases defs id
      → Good aliases defs (add_in_progress id l)
  add_in_progress-Good id l g c p = record {
    keys_distinct = g.keys_distinct;
    apart = λ x h. elim (Bool-cases (id == x)) [
      | inl e ↦ subst (λ y. elem y (dict_keys l.cache) ≡ false) (same id x e) c
      | inr e ↦ g.apart x (ground (arith, elem-note x id l.in_progress))
    ];
    pending = λ x h. elim (Bool-cases (id == x)) [
      | inl e ↦ subst (NotEnum aliases defs) (same id x e) p
      | inr e ↦ g.pending x (ground (arith, elem-note x id l.in_progress))
    ];
    structs_cached = g.structs_cached;
    enums_cached = g.enums_cached;
    entries = g.entries;
  }

  -- The state of `_resolve_datatype` behind the loop over the fields.
  pub discard_in_progress-Good :
      (id : String) (l k : Loader)
      → elem id l.in_progress ≡ false
      → Kept aliases defs (add_in_progress id l) k
      → (discard_in_progress id k).in_progress ≡ l.in_progress
        × Good aliases defs (discard_in_progress id k)
        × (elem id (dict_keys k.cache) ≡ false)
  discard_in_progress-Good id l k p a =
      let back : (discard_in_progress id k).in_progress ≡ l.in_progress =
        ap (filter (λ x. not (id == x))) a.progress ∙ filter-absent id l.in_progress p in
      let inside : (x : String) → elem x l.in_progress ≡ true → elem x k.in_progress ≡ true = λ x h.
        subst (λ q. elem x q ≡ true) (sym a.progress) (Within-append l.in_progress (id ∷ []) x h) in
      (
        back,
        record {
          keys_distinct = a.good.keys_distinct;
          apart = λ x h. a.good.apart x (inside x (subst (λ q. elem x q ≡ true) back h));
          pending = λ x h. a.good.pending x (inside x (subst (λ q. elem x q ≡ true) back h));
          structs_cached = a.good.structs_cached;
          enums_cached = a.good.enums_cached;
          entries = a.good.entries;
        },
        a.good.apart id (
            subst (λ q. elem id q ≡ true) (sym a.progress)
              (ground (arith, elem-note id id l.in_progress, eq_refl id))),
      )
