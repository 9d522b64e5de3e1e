-- ===== src/Release/Manifest/Relations/Valid.antt =====
-- manifest.py: what a manifest is for which `_validate_relations` has no message.
use opcua_drafts.Release.Manifest.Relations.Sound.{Sound, groups_problems-Sound}
use opcua_drafts.Prelude.{
  String, Bool, true, false, not, ◌&&◌, List, [], ◌∷◌, ◌++◌, map, ◌==◌, elem, filter, dict_keys,
  lookup-none, ok, ◌≡◌, refl, sym, ◌∙◌, ap, subst, same, bind_ok, ok_inj, append-nil_left,
  append-nil_right, cons_none, Bool-cases, inl, inr, arith, false≢true,
}
use opcua_drafts.Text.{is_empty}
use opcua_drafts.Release.Sorting.{sort, elem-sort}
use opcua_drafts.Release.Manifest.{
  Manifest, Spec, spec, keys, spec_ids, has_group, closure_relation, vendor_relation, closure,
  vendor, add_new,
}
use opcua_drafts.Release.Manifest.Walk.{Edge, Reach}
use opcua_drafts.Release.Manifest.Known.{KnownIds, elem-filter, known_spec}
use opcua_drafts.Release.Manifest.Vendored.{elem-add_new}
use opcua_drafts.Release.Manifest.Cycles.{declared, cycle_search}
use opcua_drafts.Release.Manifest.Cycles.Acyclic.{cycle_search-acyclic}
use opcua_drafts.Release.Manifest.Relations.{
  transitive_overlap, unsubmitted_dependency, relation_cycle, declared_overlap, unknown_ids,
  overlap, relation_problems, relation_problems-none, relation_problems-KnownIds,
}
use opcua_drafts.Release.Manifest.Relations.Loops.{
  Groups, members_of, grouped, groups_problems, both_problem, to_vendor, transitive_problems,
  all_transitive, validate_relations,
}
use opcua_drafts.Release.Manifest.Relations.Groups.{grouped-filter}

-- The closure and the vendored ids have none in common, and what is in the closure behind the id
-- is submitted.
abbrev pub Apart : Manifest → String → Type 0
Apart m id =
    (closes vendored : List String) × (closure m id ≡ ok closes)
    × (vendor m id ≡ ok vendored)
    × ((x : String) → elem x closes ≡ true → elem x vendored ≡ false)
    × ((x : String) (s : Spec)
        → elem x closes ≡ true
        → (x == id) ≡ false
        → spec m x ≡ ok s
        → s.submitted ≡ true)

pub record Valid (m : Manifest) : Type 0 where
  pub closure_known : KnownIds m closure_relation
  pub vendor_known : KnownIds m vendor_relation
  pub declared_apart :
      (id : String) (s : Spec)
      → spec m id ≡ ok s
      → (x : String) → elem x s.closes_over ≡ true
      → elem x s.vendors ≡ false
  pub groups_sound :
      (g x : String)
      → is_empty g ≡ false
      → elem x (keys m) ≡ true
      → has_group m g x ≡ true
      → Sound m (filter (has_group m g) (spec_ids m))
  pub apart : (id : String) → elem id (keys m) ≡ true → Apart m id
  pub acyclic : (x y : String) → Edge (declared m) x y → ¬ Reach (declared m) y x

-- If the chosen members of a list are none, no member is chosen.
filter-none :
    (p : String → Bool) (xs : List String)
    → sort (filter p xs) ≡ []
    → (x : String) → elem x xs ≡ true
    → p x ≡ false
filter-none p xs h x k =
    let none_in : (elem x xs && p x) ≡ false =
      sym (elem-filter p x xs) ∙ (sym (elem-sort x (filter p xs)) ∙ ap (elem x) h) in
    ground arith

both_problem-none : (id : String) (xs : List String) → both_problem id xs ≡ [] → xs ≡ []
both_problem-none id [] h = refl
both_problem-none id (x ∷ xs) h = cons_none (transitive_overlap id (x ∷ xs)) [] h

overlap-none : (id : String) (xs : List String) → overlap id xs ≡ [] → xs ≡ []
overlap-none id [] h = refl
overlap-none id (x ∷ xs) h = cons_none (declared_overlap id (x ∷ xs)) [] h

to_vendor-none :
    (m : Manifest) (id : String) (deps : List String)
    → to_vendor m id deps ≡ ok []
    → (x : String) (s : Spec) → elem x deps ≡ true
    → spec m x ≡ ok s
    → s.submitted ≡ true
to_vendor-none m id [] h x s k e = absurd (false≢true k)
to_vendor-none m id (dep ∷ deps) h x s k e =
    let one = bind_ok (spec m dep) _ [] h in
    let rest = bind_ok (to_vendor m id deps) _ [] one.2 in
    let submitted : (one.0.submitted ≡ true) × (rest.0 ≡ []) = elim (Bool-cases (one.0.submitted)) [
      | inl d ↦ (d, ok_inj rest.0 [] (ap ok (sym (rw (d))) ∙ rest.2))
      | inr d ↦
          cons_none (unsubmitted_dependency id dep) rest.0
            (ok_inj _ [] (ap ok (sym (rw (d))) ∙ rest.2))
    ] in
    elim (Bool-cases (dep == x)) [
      | inl d ↦
          subst (λ t. t.submitted ≡ true)
            (ok_inj one.0 s (sym one.1 ∙ (ap (spec m) (same dep x d) ∙ e))) submitted.0
      | inr d ↦ to_vendor-none m id deps (rest.1 ∙ ap ok submitted.1) x s (ground arith) e
    ]

transitive_problems-Apart :
    (m : Manifest) (id : String) → transitive_problems m id ≡ ok [] → Apart m id
transitive_problems-Apart m id h =
    let closes = bind_ok (closure m id) _ [] h in
    let vendored = bind_ok (vendor m id) _ [] closes.2 in
    let deps =
      bind_ok (to_vendor m id (sort (filter (λ dep. not (dep == id)) closes.0))) _ [] vendored.2 in
    let both = sort (filter (λ dep. elem dep vendored.0) closes.0) in
    let quiet = ok_inj (both_problem id both ++ deps.0) [] deps.2 in
    (
      closes.0,
      vendored.0,
      closes.1,
      vendored.1,
      filter-none (λ dep. elem dep vendored.0) closes.0
          (both_problem-none id both (append-nil_left (both_problem id both) deps.0 quiet)),
      λ x s k d e.
          to_vendor-none m id (sort (filter (λ dep. not (dep == id)) closes.0))
            (deps.1 ∙ ap ok (append-nil_right (both_problem id both) deps.0 quiet)) x s
            (elem-sort x (filter (λ dep. not (dep == id)) closes.0)
              ∙ elem-filter (λ dep. not (dep == id)) x closes.0
              ∙ rw (k, d))
            e,
    )

all_transitive-Apart :
    (m : Manifest) (ids : List String)
    → all_transitive m ids ≡ ok []
    → (id : String) → elem id ids ≡ true
    → Apart m id
all_transitive-Apart m [] h id k = absurd (false≢true k)
all_transitive-Apart m (x ∷ ids) h id k =
    let here = bind_ok (transitive_problems m x) _ [] h in
    let rest = bind_ok (all_transitive m ids) _ [] here.2 in
    let quiet = ok_inj (here.0 ++ rest.0) [] rest.2 in
    elim (Bool-cases (x == id)) [
      | inl d ↦
          subst (Apart m) (same x id d)
            (transitive_problems-Apart m x (here.1 ∙ ap ok (append-nil_left here.0 rest.0 quiet)))
      | inr d ↦
          all_transitive-Apart m ids (rest.1 ∙ ap ok (append-nil_right here.0 rest.0 quiet)) id
            (ground arith)
    ]

relation_problems-apart :
    (m : Manifest)
    → relation_problems m (spec_ids m) ≡ ok []
    → (id : String) (s : Spec) → spec m id ≡ ok s
    → (x : String) → elem x s.closes_over ≡ true
    → elem x s.vendors ≡ false
relation_problems-apart m h id s e x k =
    let quiet =
      relation_problems-none m (spec_ids m) h id s e
        (elem-sort id (keys m) ∙ known_spec m id s e) in
    let closes = add_new s.closes_over [] in
    let vendored = add_new s.vendors [] in
    let none_both = overlap-none id _ (
      append-nil_right (unknown_ids (spec_ids m) id vendor_relation vendored) _
        (append-nil_right (unknown_ids (spec_ids m) id closure_relation closes) _ quiet)) in
    sym (elem-add_new x s.vendors [])
    ∙ filter-none (λ dep. elem dep vendored) closes none_both x
        (elem-add_new x s.closes_over [] ∙ k)

members_of-key :
    (g x : String) (gs : Groups) → elem x (members_of g gs) ≡ true → elem g (dict_keys gs) ≡ true
members_of-key g x gs h = elim (Bool-cases (elem g (dict_keys gs))) [
  | inl e ↦ e
  | inr e ↦ absurd (false≢true (sym (rw (lookup-none g gs e, members_of)) ∙ h))
]

map-none : (cycles : List (List String)) → map relation_cycle cycles ≡ [] → cycles ≡ []
map-none [] h = refl
map-none (c ∷ cs) h = cons_none (relation_cycle c) (map relation_cycle cs) h

groups-Sound :
    (m : Manifest) (gs : Groups)
    → grouped m (spec_ids m) [] ≡ ok gs
    → groups_problems m gs (sort (dict_keys gs)) ≡ ok []
    → (g x : String) → is_empty g ≡ false
    → elem x (keys m) ≡ true
    → has_group m g x ≡ true
    → Sound m (filter (has_group m g) (spec_ids m))
groups-Sound m gs h q g x e k has =
    let made = grouped-filter m in
    let members : members_of g gs ≡ filter (has_group m g) (spec_ids m) =
      ap (members_of g) (ok_inj gs made.0 (sym h ∙ made.1)) ∙ made.2 g e in
    let inside : elem x (members_of g gs) ≡ true =
      ap (elem x) members
      ∙ elem-filter (has_group m g) x (spec_ids m)
      ∙ rw (elem-sort x (keys m), k, has) in
    subst (Sound m) members (
      groups_problems-Sound m gs (sort (dict_keys gs)) q g
        (elem-sort g (dict_keys gs) ∙ members_of-key g x gs inside))

-- If _validate_relations returns no message: both relations name known ids; no specification
-- declares an id in both; a release group has two members, all submitted and in one state; the
-- closure of an id and what it vendors are apart, and the closure has submitted specifications
-- behind the id; and the declared relations have no cycle.
pub validate_relations-Valid : (m : Manifest) → validate_relations m ≡ ok [] → Valid m
unfolding validate_relations
validate_relations-Valid m h =
    let named = bind_ok (relation_problems m (spec_ids m)) _ [] h in
    let groups = bind_ok (grouped m (spec_ids m) []) _ [] named.2 in
    let grouping = bind_ok (groups_problems m groups.0 (sort (dict_keys groups.0))) _ [] groups.2 in
    let transitive = bind_ok (all_transitive m (spec_ids m)) _ [] grouping.2 in
    let cycles = bind_ok (cycle_search m) _ [] transitive.2 in
    let quiet = ok_inj _ [] cycles.2 in
    let later = append-nil_right named.0 _ quiet in
    let last = append-nil_right grouping.0 _ later in
    let no_named : relation_problems m (spec_ids m) ≡ ok [] =
      named.1 ∙ ap ok (append-nil_left named.0 _ quiet) in
    let known = relation_problems-KnownIds m no_named in
    record {
      closure_known = known.0;
      vendor_known = known.1;
      declared_apart = relation_problems-apart m no_named;
      groups_sound =
          groups-Sound m groups.0 groups.1
            (grouping.1 ∙ ap ok (append-nil_left grouping.0 _ later));
      apart = λ id k.
          all_transitive-Apart m (spec_ids m)
            (transitive.1 ∙ ap ok (append-nil_left transitive.0 _ last)) id
            (elem-sort id (keys m) ∙ k);
      acyclic = λ x y e.
          cycle_search-acyclic m x y
            (cycles.1 ∙ ap ok (map-none cycles.0 (append-nil_right transitive.0 _ last))) e;
    }
