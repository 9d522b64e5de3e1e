-- ===== src/Release/Spec/Tests.antt =====
-- The vendored specifications of a small manifest, and the witnesses of the theorems.
use opcua_drafts.Prelude.{String, true, false, none, List, [], ◌∷◌, elem, NoDup, ok, ◌≡◌, refl, ◌↔◌}
use opcua_drafts.Release.Sorting.{str_le}
use opcua_drafts.Release.Manifest.{
  Manifest, Spec, keys, closure_relation, vendor_relation, neighbours, closure, vendor,
  relation_closure, visit,
}
use opcua_drafts.Release.Manifest.Publishers.{norm}
use opcua_drafts.Release.Manifest.Walk.{Reach}
use opcua_drafts.Release.Manifest.Known.{KnownIds}
use opcua_drafts.Release.Manifest.Relations.{relation_problems-KnownIds}
use opcua_drafts.Release.Spec.{moving_specs, vendor_specs}
use opcua_drafts.Release.Spec.Vendors.{Normal, normal_keys, Vendored, vendor_specs_lem}
use opcua_drafts.Release.Spec.Agreement.{vendor_specs-vendor}

abbrev entry : List String → List String → Spec
entry cs vs = record {
  submitted = true;
  released = false;
  move = [];
  keep_public = [];
  closes_over = cs;
  vendors = vs;
  release_group = none;
}

-- "b" moves with "a" and vendors "c", which vendors "b" again.
abbrev circle : Manifest
circle = ("a", entry ("b" ∷ []) []) ∷ ("b", entry [] ("c" ∷ [])) ∷ ("c", entry [] ("b" ∷ [])) ∷ []

vendor_specs_of_circle : vendor_specs circle "a" ≡ ok ("c" ∷ "b" ∷ [])
unfolding vendor_specs moving_specs closure relation_closure visit norm str_le
vendor_specs_of_circle = refl

vendor_of_circle : vendor circle "a" ≡ ok ("c" ∷ [])
unfolding vendor closure relation_closure visit str_le
vendor_of_circle = refl

known : KnownIds circle closure_relation × KnownIds circle vendor_relation
unfolding str_le
known = relation_problems-KnownIds circle refl

normal : Normal circle
unfolding norm
normal = normal_keys (keys circle) refl

vendor_specs_lem_example :
    (ids : List String) × (vendor_specs circle "a" ≡ ok ids)
    × NoDup ids
    × ((x : String)
        → (elem x ids ≡ true) ↔ (
            (moving : String) × Reach (neighbours circle closure_relation) "a" moving
            × Vendored circle moving x))
vendor_specs_lem_example = vendor_specs_lem circle "a" normal known.0 known.1 refl

vendor_specs-vendor_example :
    (vs ws : List String) × (vendor circle "a" ≡ ok vs)
    × (vendor_specs circle "a" ≡ ok ws)
    × ((x : String) → elem x vs ≡ true → elem x ws ≡ true)
vendor_specs-vendor_example = vendor_specs-vendor circle "a" normal known.0 known.1 refl
