-- ===== src/Word/DocModel/Regions.antt =====
-- opcdocx/docmodel.py: the regions of a document, their order, and the reading of what was written.
use opcua_drafts.Prelude.{
  String, true, false, Option, none, some, List, [], ◌∷◌, ◌++◌, ◌==◌, elem, NoDup, NoDup-append_one,
  dict_keys, dict_keys-append, lookup, lookup-none, lookup-set, set, set-fresh, elem-set, ◌≡◌, sym,
  ◌∙◌, ap, subst, append_assoc, append-nil, arith, Bool-cases, inl, inr, eq_refl, eq_iff,
  false≢true,
}
use opcua_drafts.Word.DocModel.{
  Block, DocModel, region, Item, blocks, nothing, block, extend, blocks_of, add,
}

-- The order lists the regions, each once.
abbrev pub Ordered : DocModel → Type 0
Ordered d = (d.order ≡ dict_keys d.regions) × NoDup d.order

abbrev pub contents : List Item → List Block
contents [] = []
contents (blocks bs ∷ items) = bs ++ contents items
contents (nothing ∷ items) = contents items
contents (block b ∷ items) = b ∷ contents items

extend-contents : (r : List Block) (items : List Item) → extend r items ≡ r ++ contents items
extend-contents r [] = sym (append-nil r)
extend-contents r (blocks bs ∷ items) =
    extend-contents (r ++ bs) items ∙ append_assoc r bs (contents items)
extend-contents r (nothing ∷ items) = extend-contents r items
extend-contents r (block b ∷ items) =
    extend-contents (r ++ b ∷ []) items ∙ append_assoc r (b ∷ []) (contents items)

region-Ordered :
    (name : String) (d : DocModel)
    → Ordered d
    → Ordered (region name d) × (elem name (dict_keys (region name d).regions) ≡ true)
region-Ordered name d h = elim (Bool-cases (elem name (dict_keys d.regions))) [
  | inl e ↦ rw (e, region) (h, e)
  | inr e ↦
      rw (e, region)
        (
          (
            ap (λ ks. ks ++ name ∷ []) h.0
                ∙ sym (
                    ap dict_keys (set-fresh name [] d.regions e)
                    ∙ dict_keys-append d.regions ((name, []) ∷ [])),
            NoDup-append_one d.order name h.1 (ap (elem name) h.0 ∙ e),
          ),
          elem-set name name [] d.regions ∙ ground (arith, eq_refl name),
        )
]

set_keys {ℓ} :
    {A : Type ℓ} (name : String) (v : A) (d : List (String × A))
    → elem name (dict_keys d) ≡ true
    → dict_keys (set name v d) ≡ dict_keys d
unfolding set
set_keys name v [] h = absurd (false≢true h)
set_keys name v ((k, w) ∷ d) h = elim (Bool-cases (k == name)) [
  | inl e ↦ rw (e, set)
  | inr e ↦ rw (e, set) (ap (λ r. k ∷ r) (set_keys name v d (ground arith)))
]

region-blocks_of :
    (name other : String) (d : DocModel) → blocks_of other (region name d) ≡ blocks_of other d
region-blocks_of name other d = elim (Bool-cases (elem name (dict_keys d.regions))) [
  | inl e ↦ rw (e, region)
  | inr e ↦ ap (blocks_of other) (opened e) ∙ ap found (lookup-set other name [] d.regions) ∙ new e
]
  where
    found : Option (List Block) → List Block
    found o = elim o [ none ↦ [] | some r ↦ r ]

    opened :
        elem name (dict_keys d.regions) ≡ false
        → region name d ≡ record { regions = set name [] d.regions; order = d.order ++ name ∷ [] }
    opened e = rw (e, region)

    new :
        elem name (dict_keys d.regions) ≡ false
        → found (elim (name == other) [ true ↦ some [] | false ↦ lookup other d.regions ])
          ≡ blocks_of other d
    new e = elim (Bool-cases (name == other)) [
      | inl c ↦
          rw (c, found)
            (sym (rw (lookup-none other d.regions (absent e (name_is name other c)), blocks_of)))
      | inr c ↦ rw (c, found)
    ]
      where
        name_is : (a b : String) → (a == b) ≡ true → a ≡ b
        name_is a b c = ground (arith, eq_iff a b)

        absent :
            elem name (dict_keys d.regions) ≡ false
            → name ≡ other
            → elem other (dict_keys d.regions) ≡ false
        absent a c = subst (λ x. elem x (dict_keys d.regions) ≡ false) c a

-- What add does to a document whose order lists its regions, each once: the order still does, the
-- named region has the added blocks at its end, and the other regions are as they were.
pub add_lem :
    (name : String) (items : List Item) (d : DocModel)
    → Ordered d
    → Ordered (add name items d)
      × (blocks_of name (add name items d) ≡ blocks_of name d ++ contents items)
      × ((other : String)
          → (name == other) ≡ false
          → blocks_of other (add name items d) ≡ blocks_of other d)
unfolding add
add_lem name items d h =
    let opened = region-Ordered name d h in
    let r = extend (blocks_of name (region name d)) items in
    let regions = (region name d).regions in
    (
      (opened.0.0 ∙ sym (set_keys name r regions opened.1), opened.0.1),
      ap found (lookup-set name name r regions)
          ∙ itself r
          ∙ extend-contents (blocks_of name (region name d)) items
          ∙ ap (λ bs. bs ++ contents items) (region-blocks_of name name d),
      λ other e.
          ap found (lookup-set other name r regions)
          ∙ apart other e r
          ∙ region-blocks_of name other d,
    )
  where
    found : Option (List Block) → List Block
    found o = elim o [ none ↦ [] | some r ↦ r ]

    itself :
        (r : List Block)
        → found
            (elim (name == name) [ true ↦ some r | false ↦ lookup name (region name d).regions ])
          ≡ r
    itself r = rw (eq_refl name, found)

    apart :
        (other : String)
        → (name == other) ≡ false
        → (r : List Block)
        → found
            (elim (name == other) [ true ↦ some r | false ↦ lookup other (region name d).regions ])
          ≡ blocks_of other (region name d)
    apart other e r = rw (e, found)
