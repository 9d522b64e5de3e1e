-- ===== src/Release/Manifest/Relations/Loops.antt =====
-- The loops of `_validate_relations` in manifest.py over the release groups and over the closures,
-- and the whole function.
use opcua_drafts.Prelude.{
  String, true, false, not, ◌&&◌, Option, none, some, List, [], ◌∷◌, ◌++◌, length, map, ltb, ◌==◌,
  any, elem, filter, dict_keys, lookup, set, Result, ok, key_error, from_option, ◌>>=◌,
}
use opcua_drafts.Text.{is_empty}
use opcua_drafts.Release.Sorting.{sort}
use opcua_drafts.Release.Manifest.{Manifest, Spec, spec, spec_ids, closure, vendor}
use opcua_drafts.Release.Manifest.Cycles.{cycle_search}
use opcua_drafts.Release.Manifest.Relations.{
  Problem, few_members, mixed_states, unsubmitted_members, transitive_overlap,
  unsubmitted_dependency, relation_cycle, relation_problems,
}

-- `release_groups`
abbrev pub Groups : Type 0
Groups = List (String × List String)

abbrev pub members_of : String → Groups → List String
members_of group groups = elim (lookup group groups) [ none ↦ [] | some members ↦ members ]

-- release_groups.setdefault(release_group, []).append(spec_id)
abbrev pub add_member : Option String → String → Groups → Groups
add_member none id groups = groups
add_member (some group) id groups = elim (is_empty group) [
  | true ↦ groups
  | false ↦ set group (members_of group groups ++ id ∷ []) groups
]

abbrev pub grouped : Manifest → List String → Groups → Result Groups
grouped m [] groups = ok groups
grouped m (id ∷ ids) groups = do s ← spec m id; grouped m ids (add_member s.release_group id groups)

-- The specifications of the members, which the comprehensions look up.
abbrev pub specs_of : Manifest → List String → Result (List (String × Spec))
specs_of m [] = ok []
specs_of m (id ∷ ids) = do s ← spec m id; rest ← specs_of m ids; ok ((id, s) ∷ rest)

abbrev pub unsubmitted : List (String × Spec) → List String
unsubmitted [] = []
unsubmitted ((id, s) ∷ ss) = elim (s.submitted) [
  | true ↦ unsubmitted ss
  | false ↦ id ∷ unsubmitted ss
]

abbrev pub few : String → List String → List Problem
few group members = elim (ltb (length members) 2) [ true ↦ few_members group ∷ [] | false ↦ [] ]

-- len(states) > 1
abbrev pub mixed : String → List String → List (String × Spec) → List Problem
mixed group members ss = elim (any (λ p. p.1.released) ss && any (λ p. not p.1.released) ss) [
  | true ↦ mixed_states group members ∷ []
  | false ↦ []
]

abbrev pub not_submitted : String → List String → List Problem
not_submitted group [] = []
not_submitted group ids = unsubmitted_members group ids ∷ []

-- The body of the loop over the groups.
abbrev pub group_problems : Manifest → String → List String → Result (List Problem)
group_problems m group members = do
  ss ← specs_of m members
  ok (few group members ++ (mixed group members ss ++ not_submitted group (unsubmitted ss)))

abbrev pub groups_problems : Manifest → Groups → List String → Result (List Problem)
groups_problems m groups [] = ok []
groups_problems m groups (group ∷ more) = do
  members ← from_option key_error (lookup group groups)
  here ← group_problems m group members
  rest ← groups_problems m groups more
  ok (here ++ rest)

abbrev pub both_problem : String → List String → List Problem
both_problem id [] = []
both_problem id both = transitive_overlap id both ∷ []

abbrev pub to_vendor : Manifest → String → List String → Result (List Problem)
to_vendor m id [] = ok []
to_vendor m id (dep ∷ deps) = do
  s ← spec m dep
  rest ← to_vendor m id deps
  ok (elim (s.submitted) [ true ↦ rest | false ↦ unsubmitted_dependency id dep ∷ rest ])

-- The body of the loop over the closures.
abbrev pub transitive_problems : Manifest → String → Result (List Problem)
transitive_problems m id = do
  closes ← closure m id
  vendored ← vendor m id
  deps ← to_vendor m id (sort (filter (λ dep. not (dep == id)) closes))
  ok (both_problem id (sort (filter (λ dep. elem dep vendored) closes)) ++ deps)

abbrev pub all_transitive : Manifest → List String → Result (List Problem)
all_transitive m [] = ok []
all_transitive m (id ∷ ids) = do
  here ← transitive_problems m id
  rest ← all_transitive m ids
  ok (here ++ rest)

-- `_validate_relations`
unfoldable pub validate_relations : Manifest → Result (List Problem)
validate_relations m = do
  named ← relation_problems m (spec_ids m)
  groups ← grouped m (spec_ids m) []
  grouping ← groups_problems m groups (sort (dict_keys groups))
  transitive ← all_transitive m (spec_ids m)
  cycles ← cycle_search m
  ok (named ++ (grouping ++ (transitive ++ map relation_cycle cycles)))
