-- ===== src/Release/Manifest/PublisherIds.antt =====
-- manifest.py: the keys of the publications that `_validate_publisher_specs` accepts.
use opcua_drafts.Prelude.{
  String, Bool, true, false, ◌==◌, Option, none, some, List, [], ◌∷◌, ◌++◌, elem, NoDup, ◌≡◌, refl,
  sym, ◌∙◌, ap, subst, arith, eq_refl, Bool-cases, Option-cases, inl, inr, false≢true, same,
}
use opcua_drafts.Release.Manifest.Publishers.{
  Publication, Location, Clash, id_clash, markdown_clash, number_clash, Claims, holder, claim,
  id_key, markdown_key, number_key, clashes, located, validate_publisher_specs,
}

-- The keys that publications claim, in order.
abbrev pub keys_of : (Publication → Option String) → List (Location × Publication) → List String
keys_of key [] = []
keys_of key ((here, p) ∷ rest) = elim (key p) [
  | none ↦ keys_of key rest
  | some k ↦ k ∷ keys_of key rest
]

-- The messages of one of the three tests.
clashes_of :
    (String → Location → Location → Clash)
    → (Publication → Option String)
    → Claims
    → List (Location × Publication)
    → List Clash
clashes_of clash key owners [] = []
clashes_of clash key owners ((here, p) ∷ rest) =
    let c = claim clash (key p) here owners in c.1 ++ clashes_of clash key c.0 rest

left_none : (xs ys : List Clash) → xs ++ ys ≡ [] → xs ≡ []
left_none [] ys h = refl
left_none (x ∷ xs) ys h = cc h

right_none : (xs ys : List Clash) → xs ++ ys ≡ [] → ys ≡ []
right_none [] ys h = h
right_none (x ∷ xs) ys h = cc h

both_none : (xs ys : List Clash) → xs ≡ [] → ys ≡ [] → xs ++ ys ≡ []
both_none xs ys h k = rw (h, k)

-- No message of the whole loop, none of the three tests.
clashes-none :
    (ids markdowns numbers : Claims) (ps : List (Location × Publication))
    → clashes ids markdowns numbers ps ≡ []
    → (clashes_of id_clash id_key ids ps ≡ [])
      × (clashes_of markdown_clash markdown_key markdowns ps ≡ [])
      × (clashes_of number_clash number_key numbers ps ≡ [])
unfolding clashes_of
clashes-none ids markdowns numbers [] h = (refl, refl, refl)
clashes-none ids markdowns numbers ((here, p) ∷ rest) h =
    let i = claim id_clash (id_key p) here ids in
    let m = claim markdown_clash (markdown_key p) here markdowns in
    let n = claim number_clash (number_key p) here numbers in
    let later = right_none i.1 _ h in
    let last = right_none m.1 _ later in
    let more = clashes-none i.0 m.0 n.0 rest (right_none n.1 _ last) in
    (
      both_none i.1 _ (left_none i.1 _ h) more.0,
      both_none m.1 _ (left_none m.1 _ later) more.1,
      both_none n.1 _ (left_none n.1 _ last) more.2,
    )

keys_some :
    (key : Publication → Option String) (here : Location) (p : Publication)
    (rest : List (Location × Publication)) (k : String)
    → key p ≡ some k
    → keys_of key ((here, p) ∷ rest) ≡ k ∷ keys_of key rest
keys_some key here p rest k e = rw (e, keys_of)

keys_none :
    (key : Publication → Option String) (here : Location) (p : Publication)
    (rest : List (Location × Publication))
    → key p ≡ none
    → keys_of key ((here, p) ∷ rest) ≡ keys_of key rest
keys_none key here p rest e = rw (e, keys_of)

module _ (clash : String → Location → Location → Clash) (key : Publication → Option String) where
  claim_new :
      (k : String) (here : Location) (owners : Claims)
      → holder k owners ≡ none
      → claim clash (some k) here owners ≡ ((k, here) ∷ owners, [])
  claim_new k here owners d = rw (d, claim)

  claim_old :
      (k : String) (here before : Location) (owners : Claims)
      → holder k owners ≡ some before
      → claim clash (some k) here owners ≡ (owners, clash k before here ∷ [])
  claim_old k here before owners d = rw (d, claim)

  step_none :
      (owners : Claims) (here : Location) (p : Publication) (rest : List (Location × Publication))
      → key p ≡ none
      → clashes_of clash key owners ((here, p) ∷ rest) ≡ clashes_of clash key owners rest
  unfolding clashes_of
  step_none owners here p rest e = rw (e)

  step_some :
      (owners : Claims) (here : Location) (p : Publication) (rest : List (Location × Publication))
      (k : String) (c : Claims × List Clash)
      → key p ≡ some k
      → claim clash (some k) here owners ≡ c
      → clashes_of clash key owners ((here, p) ∷ rest) ≡ c.1 ++ clashes_of clash key c.0 rest
  unfolding clashes_of
  step_some owners here p rest k c e d =
      ap (λ o. (let c' = claim clash o here owners in c'.1 ++ clashes_of clash key c'.0 rest)) e
      ∙ ap (λ (q : Claims × List Clash). q.1 ++ clashes_of clash key q.0 rest) d

impossible {ℓ} : {P : Type ℓ} (x : Clash) (xs : List Clash) → x ∷ xs ≡ [] → P
impossible x xs h = cc h

pick :
    (b : Bool) (l : Location) (o : Option Location)
    → elim b [ true ↦ some l | false ↦ o ] ≡ none
    → (b ≡ false) × (o ≡ none)
pick true l o h = cc h
pick false l o h = (refl, h)

-- The keys are new and distinct.
Fresh : (Publication → Option String) → Claims → List (Location × Publication) → Type 0
Fresh key owners ps =
    NoDup (keys_of key ps)
    × ((k : String) → elem k (keys_of key ps) ≡ true → holder k owners ≡ none)

Fresh-one :
    (key : Publication → Option String) (owners : Claims) (here : Location) (p : Publication)
    (rest : List (Location × Publication)) (k : String)
    → key p ≡ some k
    → holder k owners ≡ none
    → Fresh key ((k, here) ∷ owners) rest
    → Fresh key owners ((here, p) ∷ rest)
unfolding Fresh
Fresh-one key owners here p rest k e new r =
    subst (λ ks. NoDup ks × ((j : String) → elem j ks ≡ true → holder j owners ≡ none))
      (sym (keys_some key here p rest k e))
      (
        (once, r.0),
        λ j m. elim (Bool-cases (k == j)) [
          | inl d ↦ subst (λ z. holder z owners ≡ none) (same k j d) new
          | inr d ↦ (pick (k == j) here (holder j owners) (r.1 j (ground (arith, m)))).1
        ],
      )
  where
    once : elem k (keys_of key rest) ≡ false
    once = elim (Bool-cases (elem k (keys_of key rest))) [
      | inl d ↦
          absurd (false≢true (sym (pick (k == k) here (holder k owners) (r.1 k d)).0 ∙ eq_refl k))
      | inr d ↦ d
    ]

clashes_of-Fresh :
    (clash : String → Location → Location → Clash) (key : Publication → Option String)
    (owners : Claims) (ps : List (Location × Publication))
    → clashes_of clash key owners ps ≡ []
    → Fresh key owners ps
unfolding Fresh
clashes_of-Fresh clash key owners [] h = (tt, λ k e. absurd (false≢true e))
clashes_of-Fresh clash key owners ((here, p) ∷ rest) h = elim (Option-cases (key p)) [
  | inl e ↦
      (let r =
          clashes_of-Fresh clash key owners rest
            (sym (step_none clash key owners here p rest e) ∙ h) in
        subst (λ ks. NoDup ks × ((j : String) → elem j ks ≡ true → holder j owners ≡ none))
          (sym (keys_none key here p rest e)) r)
  | inr e ↦ elim (Option-cases (holder e.0 owners)) [
    | inl d ↦ Fresh-one key owners here p rest e.0 e.1 d (
        clashes_of-Fresh clash key ((e.0, here) ∷ owners) rest (
          sym (
            step_some clash key owners here p rest e.0 _ e.1
              (claim_new clash key e.0 here owners d))
          ∙ h))
    | inr d ↦ impossible (clash e.0 d.0 here) _ (
        sym (
          step_some clash key owners here p rest e.0 _ e.1
            (claim_old clash key e.0 here d.0 owners d.1))
        ∙ h)
  ]
]

-- If `_validate_publisher_specs` finds no clash, all publications have distinct ids, distinct
-- Markdown paths and distinct document numbers, as far as they have them and as they are normalized.
pub validate_publisher_specs-NoDup :
    (specs : List (String × List Publication))
    → validate_publisher_specs specs ≡ []
    → NoDup (keys_of id_key (located specs))
      × NoDup (keys_of markdown_key (located specs))
      × NoDup (keys_of number_key (located specs))
unfolding validate_publisher_specs Fresh
validate_publisher_specs-NoDup specs h =
    let each = clashes-none [] [] [] (located specs) h in
    (
      (clashes_of-Fresh id_clash id_key [] (located specs) each.0).0,
      (clashes_of-Fresh markdown_clash markdown_key [] (located specs) each.1).0,
      (clashes_of-Fresh number_clash number_key [] (located specs) each.2).0,
    )
