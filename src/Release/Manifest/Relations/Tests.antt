-- ===== src/Release/Manifest/Relations/Tests.antt =====
-- manifest.py: `_validate_relations` of small manifests.
use opcua_drafts.Prelude.{
  String, Bool, true, false, Option, none, some, List, [], ◌∷◌, ok, ◌≡◌, refl, filter, lookup, set,
}
use opcua_drafts.Text.{is_empty}
use opcua_drafts.Release.Sorting.{str_le}
use opcua_drafts.Release.Manifest.{
  Manifest, Spec, spec_ids, has_group, closure, vendor, relation_closure, visit,
}
use opcua_drafts.Release.Manifest.Cycles.{cycle_search, visit_cycles}
use opcua_drafts.Release.Manifest.Relations.{Problem, mixed_states, transitive_overlap}
use opcua_drafts.Release.Manifest.Relations.Loops.{Groups, members_of, grouped, validate_relations}
use opcua_drafts.Release.Manifest.Relations.Groups.{grouped-filter}
use opcua_drafts.Release.Manifest.Relations.Valid.{Valid, validate_relations-Valid}
use opcua_drafts.Release.Manifest.Relations.Returns.{validate_relations-Returns}

abbrev entry : Bool → List String → List String → Option String → Spec
entry released cs vs group = record {
  submitted = true;
  released = released;
  move = [];
  keep_public = [];
  closes_over = cs;
  vendors = vs;
  release_group = group;
}

abbrev sound : Manifest
sound =
    ("a", entry false ("b" ∷ []) ("d" ∷ []) none)
    ∷ ("b", entry false [] [] (some "core"))
    ∷ ("c", entry false [] [] (some "core"))
    ∷ ("d", entry false [] [] none)
    ∷ []

abbrev unsound : Manifest
unsound =
    ("b", entry true [] ("c" ∷ []) (some "core")) ∷ ("c", entry false [] [] (some "core")) ∷ []

no_problem : validate_relations sound ≡ ok []
unfolding validate_relations closure vendor relation_closure visit cycle_search visit_cycles str_le
    lookup set
no_problem = refl

problems :
    validate_relations unsound
    ≡ ok (
        mixed_states "core" ("b" ∷ "c" ∷ [])
        ∷ transitive_overlap "b" ("c" ∷ [])
        ∷ transitive_overlap "c" ("c" ∷ [])
        ∷ [])
unfolding validate_relations closure vendor relation_closure visit cycle_search visit_cycles str_le
    lookup set
problems = refl

validate_relations-Valid_example : Valid sound
validate_relations-Valid_example = validate_relations-Valid sound no_problem

validate_relations-Returns_example : (found : List Problem) × (validate_relations sound ≡ ok found)
validate_relations-Returns_example =
    validate_relations-Returns sound (validate_relations-Valid sound no_problem).closure_known
      (validate_relations-Valid sound no_problem).vendor_known

grouped-filter_example :
    (out : Groups) × (grouped sound (spec_ids sound) [] ≡ ok out)
    × ((g : String)
        → is_empty g ≡ false
        → members_of g out ≡ filter (has_group sound g) (spec_ids sound))
grouped-filter_example = grouped-filter sound
