-- ===== src/Release/Manifest/Relations.antt =====
-- The first loop of `_validate_relations`: the ids that the relations of a specification name.
pub mod Loops
pub mod Groups
pub mod Sound
pub mod Valid
pub mod Returns
pub mod Tests
use opcua_drafts.Prelude.{
  append-nil_left, append-nil_right, cons_none, bind_ok, String, true, false, List, [], ◌∷◌, ◌++◌,
  elem, Result, ok, ◌>>=◌, ◌==◌, ◌≡◌, refl, sym, ◌∙◌, subst, ap, Bool-cases, inl, inr, false≢true,
  arith, filter, ok_inj, same,
}
use opcua_drafts.Release.Sorting.{sort, elem-sort}
use opcua_drafts.Release.Manifest.{
  Manifest, Spec, spec, keys, spec_ids, Relation, closure_relation, vendor_relation, related,
  add_new,
}
use opcua_drafts.Unseen.{Within}
use opcua_drafts.Release.Manifest.Vendored.{elem-add_new}
use opcua_drafts.Release.Manifest.Known.{KnownIds, known_spec}

-- The messages of `_validate_relations`.
pub data Problem : Type 0 where
  unknown_id : String → Relation → String → Problem
  declared_overlap : String → List String → Problem
  few_members : String → Problem
  mixed_states : String → List String → Problem
  unsubmitted_members : String → List String → Problem
  transitive_overlap : String → List String → Problem
  unsubmitted_dependency : String → String → Problem
  relation_cycle : List String → Problem

-- for dep in deps: if dep not in known
abbrev pub unknown_ids : List String → String → Relation → List String → List Problem
unknown_ids known id relation [] = []
unknown_ids known id relation (dep ∷ deps) = elim (elem dep known) [
  | true ↦ unknown_ids known id relation deps
  | false ↦ unknown_id id relation dep ∷ unknown_ids known id relation deps
]

-- closure & vendor, if any
abbrev pub overlap : String → List String → List Problem
overlap id [] = []
overlap id both = declared_overlap id both ∷ []

-- The body of the loop. `set(...)` is the list with each element once, in the order of the list;
-- Python fixes no order.
abbrev pub spec_problems : List String → String → Spec → List Problem
spec_problems known id s =
    let closes = add_new s.closes_over [] in
    let vendored = add_new s.vendors [] in
    unknown_ids known id closure_relation closes
    ++ (unknown_ids known id vendor_relation vendored
        ++ overlap id (sort (filter (λ dep. elem dep vendored) closes)))

abbrev pub relation_problems : Manifest → List String → Result (List Problem)
relation_problems m [] = ok []
relation_problems m (id ∷ ids) = do
  s ← spec m id
  rest ← relation_problems m ids
  ok (spec_problems (spec_ids m) id s ++ rest)

unknown_ids-none :
    (known : List String) (id : String) (relation : Relation) (deps : List String)
    → unknown_ids known id relation deps ≡ []
    → Within deps known
unknown_ids-none known id relation [] h x e = absurd (false≢true e)
unknown_ids-none known id relation (dep ∷ deps) h x e = elim (Bool-cases (elem dep known)) [
  | inl d ↦ elim (Bool-cases (dep == x)) [
    | inl b ↦ subst (λ z. elem z known ≡ true) (same dep x b) d
    | inr b ↦
        unknown_ids-none known id relation deps (sym (rw (d, unknown_ids)) ∙ h) x (ground arith)
  ]
  | inr d ↦
      cons_none (unknown_id id relation dep) (unknown_ids known id relation deps)
        (sym (rw (d, unknown_ids)) ∙ h)
]

relation_problems-none :
    (m : Manifest) (ids : List String)
    → relation_problems m ids ≡ ok []
    → (x : String) (s : Spec) → spec m x ≡ ok s
    → elem x ids ≡ true
    → spec_problems (spec_ids m) x s ≡ []
relation_problems-none m [] h x s e k = absurd (false≢true k)
relation_problems-none m (id ∷ ids) h x s e k =
    let one = bind_ok (spec m id) _ [] h in
    let rest = bind_ok (relation_problems m ids) _ [] one.2 in
    let none_at = ok_inj (spec_problems (spec_ids m) id one.0 ++ rest.0) [] rest.2 in
    elim (Bool-cases (id == x)) [
      | inl b ↦
          (let found = ok_inj one.0 s (sym one.1 ∙ ap (spec m) (same id x b) ∙ e) in
            subst (λ z. spec_problems (spec_ids m) z s ≡ []) (same id x b)
              (subst (λ t. spec_problems (spec_ids m) id t ≡ []) found
                (append-nil_left (spec_problems (spec_ids m) id one.0) rest.0 none_at)))
      | inr b ↦
          relation_problems-none m ids
            (rest.1 ∙ ap ok (append-nil_right (spec_problems (spec_ids m) id one.0) rest.0 none_at))
            x s e (ground arith)
    ]

-- If the loop finds no problem, both relations name known ids.
pub relation_problems-KnownIds :
    (m : Manifest)
    → relation_problems m (spec_ids m) ≡ ok []
    → KnownIds m closure_relation × KnownIds m vendor_relation
relation_problems-KnownIds m h = (
  known closure_relation (λ x s. append-nil_left _ _),
  known vendor_relation (λ x s p. append-nil_left _ _ (
      append-nil_right (unknown_ids (spec_ids m) x closure_relation (add_new s.closes_over [])) _
        p)),
)
  where
    known :
        (relation : Relation)
        → ((x : String) (s : Spec)
            → spec_problems (spec_ids m) x s ≡ []
            → unknown_ids (spec_ids m) x relation (add_new (related relation s) []) ≡ [])
        → KnownIds m relation
    known relation pick x s e y b =
        let none_at =
          relation_problems-none m (spec_ids m) h x s e
            (elem-sort x (keys m) ∙ known_spec m x s e) in
        sym (elem-sort y (keys m))
        ∙ unknown_ids-none (spec_ids m) x relation (add_new (related relation s) [])
            (pick x s none_at) y (elem-add_new y (related relation s) [] ∙ b)
