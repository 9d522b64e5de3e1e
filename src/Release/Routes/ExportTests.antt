-- ===== src/Release/Routes/ExportTests.antt =====
-- The export of a plan with one specification, and the witnesses of the theorems on routes.
use opcua_drafts.Prelude.{String, true, false, none, List, [], ◌∷◌, NoDup, All, ok, ◌≡◌, refl}
use opcua_drafts.Text.{remove_prefix, split_at}
use opcua_drafts.Release.Sorting.{str_le}
use opcua_drafts.Release.Manifest.{Spec, visit, relation_closure, closure}
use opcua_drafts.Release.Routes.{
  Route, relative_path, translate, identity_layout, route_translate, require_content,
}
use opcua_drafts.Release.Routes.Export.{
  Plan, Review, route_for, closure_routes, owner_for_public, export_files, public_file_map,
}
use opcua_drafts.Release.Routes.ClosureRoutes.{Routed, OneRepository, closure_routes_lem}
use opcua_drafts.Release.Routes.Collisions.{Exported, targets_of, public_file_map_lem}

abbrev wot : Spec
wot = record {
  submitted = true;
  released = false;
  move = "source/wot" ∷ [];
  keep_public = [];
  closes_over = [];
  vendors = [];
  release_group = none;
}

abbrev wot_review : Review
wot_review = record {
  review_repository = "wot";
  review_paths = record { public = "source/wot"; review = "source"; directory = true } ∷ [];
  review_exclude = "source/wot/tools" ∷ [];
}

abbrev plan : Plan
plan = record {
  specs = ("wot", wot) ∷ [];
  reviews = ("wot", wot_review) ∷ [];
  repositories = ("wot", record { repository = "org/wot"; submodule = "wot" }) ∷ [];
  private_repo = "org/drafts";
}

exported :
    public_file_map plan "wot" ("source/wot/spec.md" ∷ "source/wot/tools/a.py" ∷ [])
    ≡ ok (("source/wot/spec.md", "source/spec.md") ∷ [])
unfolding public_file_map export_files owner_for_public closure_routes route_for closure
    relation_closure visit route_translate require_content identity_layout relative_path translate
    remove_prefix split_at str_le
exported = refl

public_file_map_lem_example :
    (routes : List (String × Route)) × (closure_routes plan "wot" ≡ ok routes)
    × All (Exported plan routes) (("source/wot/spec.md", "source/spec.md") ∷ [])
    × NoDup (targets_of (("source/wot/spec.md", "source/spec.md") ∷ []))
public_file_map_lem_example =
    public_file_map_lem plan "wot" ("source/wot/spec.md" ∷ "source/wot/tools/a.py" ∷ [])
      (("source/wot/spec.md", "source/spec.md") ∷ []) exported

abbrev wot_route : Route
wot_route = record {
  repository = "org/wot";
  mappings = wot_review.review_paths;
  excluded = "source/wot/tools" ∷ [];
  legacy_layout = false;
}

wot_routes : closure_routes plan "wot" ≡ ok (("wot", wot_route) ∷ [])
unfolding closure_routes route_for closure relation_closure visit require_content relative_path
    remove_prefix split_at str_le
wot_routes = refl

closure_routes_lem_example :
    (ids : List String) × (closure plan.specs "wot" ≡ ok ids)
    × Routed plan ids (("wot", wot_route) ∷ [])
    × OneRepository (("wot", wot_route) ∷ [])
closure_routes_lem_example = closure_routes_lem plan "wot" (("wot", wot_route) ∷ []) wot_routes
