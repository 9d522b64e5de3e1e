-- ===== src/Release/Manifest/Cycles/Tests.antt =====
-- manifest.py: the search for cycles in small manifests.
use opcua_drafts.Prelude.{String, true, false, none, List, [], ◌∷◌, ok, ◌≡◌, refl, All}
use opcua_drafts.Release.Sorting.{str_le}
use opcua_drafts.Release.Manifest.{Manifest, Spec}
use opcua_drafts.Release.Manifest.Walk.{Reach}
use opcua_drafts.Release.Manifest.Cycles.{declared, cycle_search, visit_cycles}
use opcua_drafts.Release.Manifest.Cycles.Paths.{IsCycle}
use opcua_drafts.Release.Manifest.Cycles.Acyclic.{cycle_search_lem, cycle_search-acyclic}

abbrev entry : List String → List String → Spec
entry cs vs = record {
  submitted = true;
  released = false;
  move = [];
  keep_public = [];
  closes_over = cs;
  vendors = vs;
  release_group = none;
}

abbrev chained : Manifest
chained = ("a", entry ("b" ∷ []) []) ∷ ("b", entry [] ("c" ∷ [])) ∷ ("c", entry [] []) ∷ []

abbrev looped : Manifest
looped = ("a", entry ("b" ∷ []) []) ∷ ("b", entry [] ("c" ∷ [])) ∷ ("c", entry ("b" ∷ []) []) ∷ []

no_cycle_found : cycle_search chained ≡ ok []
unfolding cycle_search visit_cycles str_le
no_cycle_found = refl

cycle_found : cycle_search looped ≡ ok (("b" ∷ "c" ∷ "b" ∷ []) ∷ [])
unfolding cycle_search visit_cycles str_le
cycle_found = refl

cycle_search_lem_example :
    (cycles : List (List String)) × (cycle_search looped ≡ ok cycles)
    × All (IsCycle (declared looped)) cycles
cycle_search_lem_example = cycle_search_lem looped

cycle_search-acyclic_example : ¬ Reach (declared chained) "b" "a"
unfolding str_le
cycle_search-acyclic_example =
    cycle_search-acyclic chained "a" "b" no_cycle_found ("b" ∷ [], refl, refl)
