-- ===== src/Release/Manifest/Known.antt =====
-- manifest.py: the ids that `_relation_closure` meets in a manifest whose relations name known ids.
use opcua_drafts.Prelude.{
  &&-left, false≢true, String, Bool, true, false, not, ◌&&◌, Option, none, some, List, [], ◌∷◌,
  ◌++◌, ◌==◌, elem, NoDup, elem-append, ok, ◌≡◌, refl, sym, ◌∙◌, subst, inl, inr, Bool-cases, arith,
  eq_refl, filter, same,
}
use opcua_drafts.Release.Sorting.{sort, elem-sort}
use opcua_drafts.Release.Manifest.{
  Manifest, Spec, spec, keys, spec_ids, has_group, group_members, Relation, closure_relation,
  vendor_relation, related, peers, neighbours, starts,
}
use opcua_drafts.Unseen.{Within}
use opcua_drafts.Release.Manifest.Walk.{Closed}

-- The relations of the manifest name ids of the manifest.
abbrev pub KnownIds : Manifest → Relation → Type 0
KnownIds m relation =
    (x : String) (s : Spec) → spec m x ≡ ok s → Within (related relation s) (keys m)

pub elem-filter :
    (p : String → Bool) (x : String) (xs : List String) → elem x (filter p xs) ≡ (elem x xs && p x)
elem-filter p x [] = refl
elem-filter p x (y ∷ ys) = elim (Bool-cases (y == x)) [
  | inl e ↦
      subst (λ z. elem z (filter p (y ∷ ys)) ≡ (elem z (y ∷ ys) && p z)) (same y x e)
        (elim (Bool-cases (p y)) [
          | inl d ↦ rw (d, filter) (ground (arith, eq_refl y))
          | inr d ↦ rw (d, filter) (rw (elem-filter p y ys, d) (ground arith))
        ])
  | inr e ↦ elim (Bool-cases (p y)) [
    | inl d ↦ rw (d, filter) (rw (e, elem-filter p x ys))
    | inr d ↦ rw (d, filter) (rw (e, elem-filter p x ys))
  ]
]

pub NoDup-filter : (p : String → Bool) (xs : List String) → NoDup xs → NoDup (filter p xs)
NoDup-filter p [] h = tt
NoDup-filter p (x ∷ xs) h = elim (Bool-cases (p x)) [
  | inl d ↦ rw (d, filter) (rw (elem-filter p x xs, h.0), NoDup-filter p xs h.1)
  | inr d ↦ rw (d, filter) (NoDup-filter p xs h.1)
]

pub spec_known :
    (m : Manifest) (x : String) → elem x (keys m) ≡ true → (s : Spec) × (spec m x ≡ ok s)
spec_known [] x h = absurd (false≢true h)
spec_known ((key, s) ∷ m) x h = elim (Bool-cases (key == x)) [
  | inl d ↦ (s, rw (d, spec))
  | inr d ↦ (let r = spec_known m x (ground arith) in (r.0, rw (d, spec) r.1))
]

spec_later :
    (key : String) (t : Spec) (m : Manifest) (x : String)
    → (key == x) ≡ false
    → spec ((key, t) ∷ m) x ≡ spec m x
spec_later key t m x d = rw (d, spec)

pub known_spec : (m : Manifest) (x : String) (s : Spec) → spec m x ≡ ok s → elem x (keys m) ≡ true
known_spec [] x s h = cc h
known_spec ((key, t) ∷ m) x s h = elim (Bool-cases (key == x)) [
  | inl d ↦ ground arith
  | inr d ↦ rw (d) (known_spec m x s (rw (sym (spec_later key t m x d)) h))
]

pub members_none :
    (m : Manifest) (id group : String) → (group == "") ≡ true → group_members m id (some group) ≡ []
members_none m id group d = rw (d, group_members)

pub members_some :
    (m : Manifest) (id group : String)
    → (group == "") ≡ false
    → group_members m id (some group)
      ≡ filter (λ current. not (current == id) && has_group m group current) (spec_ids m)
members_some m id group d = rw (d, group_members)

members_known :
    (m : Manifest) (id : String) (group : Option String)
    → Within (group_members m id group) (keys m)
members_known m id none y e = absurd (false≢true e)
members_known m id (some group) y e = elim (Bool-cases (group == "")) [
  | inl d ↦ absurd (false≢true (subst (λ xs. elem y xs ≡ true) (members_none m id group d) e))
  | inr d ↦
      (let p = λ (current : String). not (current == id) && has_group m group current in
        let inside = subst (λ xs. elem y xs ≡ true) (members_some m id group d) e in
        sym (elem-sort y (keys m))
        ∙ &&-left (elem y (spec_ids m)) (p y) (sym (elem-filter p y (spec_ids m)) ∙ inside))
]

peers_known :
    (m : Manifest) (relation : Relation) (x : String) (s : Spec)
    → spec m x ≡ ok s
    → (ys : List String) × (peers m relation x ≡ ok ys) × Within ys (keys m)
peers_known m closure_relation x s h =
    (group_members m x s.release_group, rw h, members_known m x s.release_group)
peers_known m vendor_relation x s h = ([], refl, λ y e. absurd (false≢true e))

pub neighbours-Closed :
    (m : Manifest) (relation : Relation)
    → KnownIds m relation
    → Closed (neighbours m relation) (keys m)
neighbours-Closed m relation h x k =
    let found = spec_known m x k in
    let group = peers_known m relation x found.0 found.1 in
    (
      group.0 ++ sort (related relation found.0),
      rw (group.1) (rw (found.1)),
      λ y e. elim (Bool-cases (elem y group.0)) [
        | inl d ↦ group.2 y d
        | inr d ↦ h x found.0 found.1 y (
            sym (elem-sort y (related relation found.0))
            ∙ ground (arith, elem-append y group.0 (sort (related relation found.0))))
      ],
    )

pub starts_known :
    (m : Manifest) (relation : Relation) (include_self : Bool) (id : String)
    → KnownIds m relation
    → elem id (keys m) ≡ true
    → (first : List String) × (starts m relation include_self id ≡ ok first) × Within first (keys m)
starts_known m relation true id h k =
    (id ∷ [], refl, λ y e. subst (λ z. elem z (keys m) ≡ true) (same id y (ground arith)) k)
starts_known m relation false id h k =
    let found = spec_known m id k in
    (
      sort (related relation found.0),
      rw (found.1),
      λ y e. h id found.0 found.1 y (sym (elem-sort y (related relation found.0)) ∙ e),
    )
