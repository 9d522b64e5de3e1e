-- ===== src/Release/Manifest/Tests.antt =====
-- The closure of a small manifest with a release group and a dependency, and the witnesses of the
-- closure's theorems.
use opcua_drafts.Prelude.{
  ◌⊎◌, String, true, false, none, some, List, [], ◌∷◌, elem, NoDup, ok, err, key_error, ◌≡◌, refl,
  ◌↔◌,
}
use opcua_drafts.Release.Manifest.{
  Manifest, Spec, closure_relation, vendor_relation, neighbours, closure, vendor, dependents,
  relation_closure, visit,
}
use opcua_drafts.Release.Sorting.{str_le}
use opcua_drafts.Release.Manifest.Walk.{Reach, Edge}
use opcua_drafts.Release.Manifest.Links.{Peer, neighbours_lem}
use opcua_drafts.Release.Manifest.Known.{KnownIds}
use opcua_drafts.Release.Manifest.Closure.{closure_lem, dependents_lem, Dependent}
use opcua_drafts.Release.Manifest.Relations.{relation_problems-KnownIds}
use opcua_drafts.Release.Manifest.Vendored.{vendor_lem, VendoredBy}

abbrev entry : List String → List String → Spec
entry cs vs = record {
  submitted = true;
  released = false;
  move = [];
  keep_public = [];
  closes_over = cs;
  vendors = vs;
  release_group = some "core";
}

abbrev lone : Spec
lone = record {
  submitted = true;
  released = false;
  move = [];
  keep_public = [];
  closes_over = "arrow" ∷ [];
  vendors = [];
  release_group = none;
}

abbrev manifest : Manifest
manifest = ("avro", entry [] ("lone" ∷ [])) ∷ ("arrow", entry [] []) ∷ ("lone", lone) ∷ []

closure_of_lone : closure manifest "lone" ≡ ok ("lone" ∷ "arrow" ∷ "avro" ∷ [])
unfolding closure relation_closure visit str_le
closure_of_lone = refl

vendor_of_arrow : vendor manifest "arrow" ≡ ok ("lone" ∷ [])
unfolding vendor closure relation_closure visit str_le
vendor_of_arrow = refl

manifest_known : KnownIds manifest closure_relation × KnownIds manifest vendor_relation
unfolding str_le
manifest_known = relation_problems-KnownIds manifest refl

relation_problems-KnownIds_example :
    KnownIds manifest closure_relation × KnownIds manifest vendor_relation
unfolding str_le
relation_problems-KnownIds_example = relation_problems-KnownIds manifest refl

closure_lem_example :
    (ids : List String) × (closure manifest "lone" ≡ ok ids)
    × NoDup ids
    × ((x : String) → (elem x ids ≡ true) ↔ Reach (neighbours manifest closure_relation) "lone" x)
closure_lem_example = closure_lem manifest "lone" manifest_known.0 refl

vendor_lem_example :
    (ids : List String) × (vendor manifest "arrow" ≡ ok ids)
    × NoDup ids
    × ((x : String)
        → (elem x ids ≡ true) ↔ (
            (moving : String) × Reach (neighbours manifest closure_relation) "arrow" moving
            × VendoredBy manifest moving x))
vendor_lem_example = vendor_lem manifest "arrow" manifest_known.0 manifest_known.1 refl

dependents_lem_example :
    (ids : List String) × (dependents manifest "arrow" ≡ ok ids)
    × ((x : String) → (elem x ids ≡ true) ↔ Dependent manifest "arrow" x)
dependents_lem_example = dependents_lem manifest "arrow" manifest_known.0 refl

-- An id that no specification has, in a vendor list: `vendor` raises, and so does the third loop
-- of `_validate_relations`, before the message of the first is returned.
vendor_of_unknown : vendor (("avro", entry [] ("gone" ∷ [])) ∷ []) "avro" ≡ err key_error
unfolding vendor closure relation_closure visit str_le
vendor_of_unknown = refl

neighbours_lem_example :
    Edge (neighbours manifest closure_relation) "arrow" "avro"
    ↔ ((elem "avro" [] ≡ true) ⊎ Peer manifest "arrow" (some "core") "avro")
neighbours_lem_example = neighbours_lem manifest "arrow" (entry [] []) refl "avro"
