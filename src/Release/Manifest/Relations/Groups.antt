-- ===== src/Release/Manifest/Relations/Groups.antt =====
-- manifest.py: the release groups of `_validate_relations` and their messages.
use opcua_drafts.Prelude.{
  String, Bool, true, false, Option, none, some, List, [], ◌∷◌, ◌++◌, ◌==◌, filter, lookup-set,
  lookup-none, set, ok, ◌>>=◌, ◌≡◌, refl, sym, ◌∙◌, ap, same, append_assoc, append-nil, Bool-cases,
  Option-cases, inl, inr, arith, false≢true, eq_refl,
}
use opcua_drafts.Text.{is_empty}
use opcua_drafts.Unseen.{Within}
use opcua_drafts.Release.Sorting.{elem-sort}
use opcua_drafts.Release.Manifest.{Manifest, Spec, spec, keys, spec_ids, has_group}
use opcua_drafts.Release.Manifest.Known.{spec_known}
use opcua_drafts.Release.Manifest.Relations.Loops.{Groups, members_of, add_member, grouped}

abbrev names_group : String → Option String → Bool
names_group g none = false
names_group g (some h) = h == g

members_of-set :
    (g h id : String) (gs : Groups)
    → members_of g (set h (members_of h gs ++ id ∷ []) gs)
      ≡ elim (h == g) [ true ↦ members_of g gs ++ id ∷ [] | false ↦ members_of g gs ]
members_of-set g h id gs =
    ap members_in (lookup-set g h (members_of h gs ++ id ∷ []) gs) ∙ elim (Bool-cases (h == g)) [
      | inl e ↦ rw (e, members_in) (ap (λ z. members_of z gs ++ id ∷ []) (same h g e))
      | inr e ↦ rw (e, members_in)
    ]
  where
    members_in : Option (List String) → List String
    members_in o = elim o [ none ↦ [] | some members ↦ members ]

members_of-add_member :
    (g id : String) (group : Option String) (gs : Groups)
    → is_empty g ≡ false
    → members_of g (add_member group id gs)
      ≡ elim (names_group g group) [ true ↦ members_of g gs ++ id ∷ [] | false ↦ members_of g gs ]
members_of-add_member g id none gs h = refl
members_of-add_member g id (some k) gs h = elim (Bool-cases (is_empty k)) [
  | inl e ↦ rw (e, add_member) (rw (differs e, names_group))
  | inr e ↦ rw (e, add_member) (members_of-set g k id gs)
]
  where
    differs : is_empty k ≡ true → (k == g) ≡ false
    differs e = elim (Bool-cases (k == g)) [
      | inl d ↦ absurd (false≢true (sym h ∙ (sym (ap is_empty (same k g d)) ∙ e)))
      | inr d ↦ d
    ]

has_group-spec :
    (m : Manifest) (g id : String) (s : Spec)
    → spec m id ≡ ok s
    → has_group m g id ≡ names_group g s.release_group
has_group-spec m g id s e =
    rw (e, has_group)
      (elim (Option-cases (s.release_group)) [
        | inl d ↦ rw (d, names_group)
        | inr (h, d) ↦ rw (d, names_group)
      ])

filter-keep :
    (p : String → Bool) (x : String) (xs ys : List String)
    → elim (p x) [ true ↦ ys ++ x ∷ [] | false ↦ ys ] ++ filter p xs ≡ ys ++ filter p (x ∷ xs)
filter-keep p x xs ys = elim (Bool-cases (p x)) [
  | inl e ↦ rw (e, filter) (append_assoc ys (x ∷ []) (filter p xs))
  | inr e ↦ rw (e, filter)
]

grouped_lem :
    (m : Manifest) (ids : List String) (gs : Groups)
    → Within ids (keys m)
    → (out : Groups) × (grouped m ids gs ≡ ok out)
      × ((g : String)
          → is_empty g ≡ false
          → members_of g out ≡ members_of g gs ++ filter (has_group m g) ids)
grouped_lem m [] gs h = (gs, refl, λ g e. sym (append-nil (members_of g gs)))
grouped_lem m (id ∷ ids) gs h =
    let found = spec_known m id (h id (ground (arith, eq_refl id))) in
    let rest =
      grouped_lem m ids (add_member found.0.release_group id gs) (λ x e. h x (ground arith)) in
    (
      rest.0,
      rw (found.1, ◌>>=◌) rest.1,
      λ g e.
          rest.2 g e
          ∙ ap (λ z. z ++ filter (has_group m g) ids)
              (members_of-add_member g id found.0.release_group gs e
                ∙ ap (λ b. elim b [ true ↦ members_of g gs ++ id ∷ [] | false ↦ members_of g gs ])
                    (sym (has_group-spec m g id found.0 found.1)))
          ∙ filter-keep (has_group m g) id ids (members_of g gs),
    )

-- The grouping of the first loop of _validate_relations returns, and holds for each group with a
-- name the ids that name it, in the order of spec_ids.
pub grouped-filter :
    (m : Manifest)
    → (out : Groups) × (grouped m (spec_ids m) [] ≡ ok out)
      × ((g : String) → is_empty g ≡ false → members_of g out ≡ filter (has_group m g) (spec_ids m))
grouped-filter m =
    let all = grouped_lem m (spec_ids m) [] (λ x e. sym (elem-sort x (keys m)) ∙ e) in
    (
      all.0,
      all.1,
      λ g e. all.2 g e ∙ ap (λ z. z ++ filter (has_group m g) (spec_ids m)) (nothing g),
    )
  where
    nothing : (g : String) → members_of g [] ≡ []
    nothing g = rw (lookup-none {A = List String} g [] refl, members_of)
