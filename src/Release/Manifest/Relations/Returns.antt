-- ===== src/Release/Manifest/Relations/Returns.antt =====
-- manifest.py: `_validate_relations` returns if the relations name known ids.
use opcua_drafts.Prelude.{
  ok_inj, String, true, false, not, none, some, List, [], ◌∷◌, ◌++◌, map, ◌==◌, elem, filter,
  dict_keys, lookup, lookup-some, lookup-set, lookup-none, set, Option, Option-cases, Bool-cases,
  inl, inr, same, bind_ok, false≢true, Result, ok, ◌>>=◌, ◌≡◌, refl, sym, ◌∙◌, subst, arith,
  eq_refl, &&-left,
}
use opcua_drafts.Text.{is_empty}
use opcua_drafts.Unseen.{Within, elem-note}
use opcua_drafts.Release.Sorting.{sort, elem-sort}
use opcua_drafts.Release.Manifest.{
  Manifest, neighbours, spec, keys, spec_ids, closure_relation, vendor_relation,
}
use opcua_drafts.Release.Manifest.Known.{neighbours-Closed, KnownIds, elem-filter, spec_known}
use opcua_drafts.Release.Manifest.Closure.{closure_lem}
use opcua_drafts.Release.Manifest.Vendored.{vendor_lem, Reach-known}
use opcua_drafts.Release.Manifest.Cycles.Acyclic.{cycle_search_lem}
use opcua_drafts.Release.Manifest.Relations.{
  Problem, unsubmitted_dependency, relation_cycle, spec_problems, relation_problems,
}
use opcua_drafts.Release.Manifest.Relations.Loops.{
  Groups, members_of, add_member, grouped, specs_of, few, mixed, not_submitted, unsubmitted,
  groups_problems, both_problem, to_vendor, transitive_problems, all_transitive, validate_relations,
}
use opcua_drafts.Release.Manifest.Relations.Groups.{grouped-filter}

abbrev Returns {ℓ} : {R : Type ℓ} → Result R → Type ℓ
Returns {R = R} result = (r : R) × (result ≡ ok r)

first_in : (x : String) (xs : List String) → elem x (x ∷ xs) ≡ true
first_in x xs = ground (arith, eq_refl x)

relation_problems-Returns :
    (m : Manifest) (ids : List String) → Within ids (keys m) → Returns (relation_problems m ids)
relation_problems-Returns m [] h = ([], refl)
relation_problems-Returns m (id ∷ ids) h =
    let found = spec_known m id (h id (first_in id ids)) in
    let rest = relation_problems-Returns m ids (λ x e. h x (ground arith)) in
    (spec_problems (spec_ids m) id found.0 ++ rest.0, rw (found.1, ◌>>=◌) (rw (rest.1, ◌>>=◌)))

specs_of-Returns :
    (m : Manifest) (ids : List String) → Within ids (keys m) → Returns (specs_of m ids)
specs_of-Returns m [] h = ([], refl)
specs_of-Returns m (id ∷ ids) h =
    let found = spec_known m id (h id (first_in id ids)) in
    let rest = specs_of-Returns m ids (λ x e. h x (ground arith)) in
    ((id, found.0) ∷ rest.0, rw (found.1, ◌>>=◌) (rw (rest.1, ◌>>=◌)))

groups_problems-Returns :
    (m : Manifest) (gs : Groups) (names : List String)
    → Within names (dict_keys gs)
    → ((g : String) (members : List String) → lookup g gs ≡ some members → Within members (keys m))
    → Returns (groups_problems m gs names)
groups_problems-Returns m gs [] h k = ([], refl)
groups_problems-Returns m gs (name ∷ names) h k =
    let members = lookup-some name gs (h name (first_in name names)) in
    let ss = specs_of-Returns m members.0 (k name members.0 members.1) in
    let rest = groups_problems-Returns m gs names (λ x e. h x (ground arith)) k in
    (
      (few name members.0 ++ (mixed name members.0 ss.0 ++ not_submitted name (unsubmitted ss.0)))
          ++ rest.0,
      rw (members.1, ◌>>=◌) (rw (ss.1, ◌>>=◌) (rw (rest.1, ◌>>=◌))),
    )

to_vendor-Returns :
    (m : Manifest) (id : String) (deps : List String)
    → Within deps (keys m)
    → Returns (to_vendor m id deps)
to_vendor-Returns m id [] h = ([], refl)
to_vendor-Returns m id (dep ∷ deps) h =
    let found = spec_known m dep (h dep (first_in dep deps)) in
    let rest = to_vendor-Returns m id deps (λ x e. h x (ground arith)) in
    (
      elim (found.0.submitted) [ true ↦ rest.0 | false ↦ unsubmitted_dependency id dep ∷ rest.0 ],
      rw (found.1, ◌>>=◌) (rw (rest.1, ◌>>=◌)),
    )

-- The members of all groups are known.
abbrev KnownMembers : Manifest → Groups → Type 0
KnownMembers m gs =
    (g : String) (members : List String) → lookup g gs ≡ some members → Within members (keys m)

some_same {ℓ} : {A : Type ℓ} (x y : A) → some x ≡ some y → x ≡ y
some_same x y h = cc h

none_some {ℓ κ} : {A : Type ℓ} {P : Type κ} (x : A) → none ≡ some x → P
none_some x h = cc h

members_of-Known :
    (m : Manifest) (gs : Groups) (g : String)
    → KnownMembers m gs
    → Within (members_of g gs) (keys m)
members_of-Known m gs g h x e = elim (Option-cases (lookup g gs)) [
  | inl d ↦ absurd (false≢true (sym (rw (d, members_of)) ∙ e))
  | inr (members, d) ↦ h g members d x (sym (rw (d, members_of)) ∙ e)
]

add_member-Known :
    (m : Manifest) (group : Option String) (id : String) (gs : Groups)
    → elem id (keys m) ≡ true
    → KnownMembers m gs
    → KnownMembers m (add_member group id gs)
add_member-Known m none id gs k h = h
add_member-Known m (some g) id gs k h = elim (Bool-cases (is_empty g)) [
  | inl e ↦ subst (KnownMembers m) (sym (rw (e, add_member))) h
  | inr e ↦ subst (KnownMembers m) (sym (rw (e, add_member))) added
]
  where
    longer : Within (members_of g gs ++ id ∷ []) (keys m)
    longer x q = elim (Bool-cases (id == x)) [
      | inl d ↦ subst (λ y. elem y (keys m) ≡ true) (same id x d) k
      | inr d ↦ members_of-Known m gs g h x (ground (arith, elem-note x id (members_of g gs)))
    ]

    added : KnownMembers m (set g (members_of g gs ++ id ∷ []) gs)
    added f members q = elim (Bool-cases (g == f)) [
      | inl d ↦
          subst (λ xs. Within xs (keys m))
            (some_same _ members (sym (lookup-set f g _ gs ∙ rw (d)) ∙ q)) longer
      | inr d ↦ h f members (sym (lookup-set f g _ gs ∙ rw (d)) ∙ q)
    ]

grouped-Known :
    (m : Manifest) (ids : List String) (gs out : Groups)
    → grouped m ids gs ≡ ok out
    → Within ids (keys m)
    → KnownMembers m gs
    → KnownMembers m out
grouped-Known m [] gs out h k q = subst (KnownMembers m) (ok_inj gs out h) q
grouped-Known m (id ∷ ids) gs out h k q =
    let one = bind_ok (spec m id) _ out h in
    grouped-Known m ids (add_member one.0.release_group id gs) out one.2 (λ x e. k x (ground arith))
      (add_member-Known m one.0.release_group id gs (k id (first_in id ids)) q)

transitive_problems-Returns :
    (m : Manifest) (id : String)
    → KnownIds m closure_relation
    → KnownIds m vendor_relation
    → elem id (keys m) ≡ true
    → Returns (transitive_problems m id)
transitive_problems-Returns m id h v k =
    let closes = closure_lem m id h k in
    let vendored = vendor_lem m id h v k in
    let deps = to_vendor-Returns m id (sort (filter (λ dep. not (dep == id)) closes.0)) (λ x e.
      Reach-known (neighbours m closure_relation) (keys m) (neighbours-Closed m closure_relation h)
        id x
        ((closes.3 x).0 (
          &&-left (elem x closes.0) (not (x == id)) (
            sym (elem-filter (λ dep. not (dep == id)) x closes.0)
            ∙ sym (elem-sort x (filter (λ dep. not (dep == id)) closes.0))
            ∙ e)))
        k) in
    (
      both_problem id (sort (filter (λ dep. elem dep vendored.0) closes.0)) ++ deps.0,
      rw (closes.1, ◌>>=◌) (rw (vendored.1, ◌>>=◌) (rw (deps.1, ◌>>=◌))),
    )

all_transitive-Returns :
    (m : Manifest) (ids : List String)
    → KnownIds m closure_relation
    → KnownIds m vendor_relation
    → Within ids (keys m)
    → Returns (all_transitive m ids)
all_transitive-Returns m [] h v k = ([], refl)
all_transitive-Returns m (id ∷ ids) h v k =
    let here = transitive_problems-Returns m id h v (k id (first_in id ids)) in
    let rest = all_transitive-Returns m ids h v (λ x e. k x (ground arith)) in
    (here.0 ++ rest.0, rw (here.1, ◌>>=◌) (rw (rest.1, ◌>>=◌)))

-- If both relations of a manifest name known ids, _validate_relations returns.
pub validate_relations-Returns :
    (m : Manifest)
    → KnownIds m closure_relation
    → KnownIds m vendor_relation
    → (problems : List Problem) × (validate_relations m ≡ ok problems)
unfolding validate_relations
validate_relations-Returns m h v =
    let all : Within (spec_ids m) (keys m) = λ x e. sym (elem-sort x (keys m)) ∙ e in
    let named = relation_problems-Returns m (spec_ids m) all in
    let groups = grouped-filter m in
    let grouping =
      groups_problems-Returns m groups.0 (sort (dict_keys groups.0))
        (λ x e. sym (elem-sort x (dict_keys groups.0)) ∙ e)
        (grouped-Known m (spec_ids m) [] groups.0 groups.1 all
          (λ g members q. none_some members (sym (lookup-none g [] refl) ∙ q))) in
    let transitive = all_transitive-Returns m (spec_ids m) h v all in
    let cycles = cycle_search_lem m in
    (
      named.0 ++ (grouping.0 ++ (transitive.0 ++ map relation_cycle cycles.0)),
      rw (named.1, ◌>>=◌)
          (rw (groups.1, ◌>>=◌)
            (rw (grouping.1, ◌>>=◌) (rw (transitive.1, ◌>>=◌) (rw (cycles.1, ◌>>=◌))))),
    )
