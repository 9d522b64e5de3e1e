-- ===== src/Release/Routes/Tests.antt =====
-- A route with a general and a special mapping, and the witnesses of the theorems on paths.
use opcua_drafts.Prelude.{
  String, true, false, some, List, [], ◌∷◌, ok, err, value_error, ◌≡◌, refl, inl,
}
use opcua_drafts.Text.{remove_prefix}
use opcua_drafts.Release.Routes.{
  relative_path, Mapping, translate, Route, identity_layout, route_translate, require_content,
  split_slashes,
}
use opcua_drafts.Release.Routes.Paths.{walk_parts, descend, relative_path-inside}
use opcua_drafts.Release.Routes.Translation.{translate-translate}
use opcua_drafts.Release.Routes.Longest.{Longest, route_translate_lem}

abbrev general : Mapping
general = record { public = "source/wot"; review = "source"; directory = true }

abbrev special : Mapping
special = record { public = "source/wot/model.xml"; review = "model/wot.xml"; directory = false }

abbrev route : Route
route = record {
  repository = "org/wot";
  mappings = general ∷ special ∷ [];
  excluded = [];
  legacy_layout = false;
}

route_of_model : route_translate route false "source/wot/model.xml" ≡ ok "model/wot.xml"
unfolding route_translate identity_layout relative_path translate remove_prefix
route_of_model = refl

route_of_text : route_translate route false "source\\wot\\spec.md" ≡ ok "source/spec.md"
unfolding route_translate identity_layout relative_path translate remove_prefix
route_of_text = refl

parent_refused : relative_path "source/../secret" ≡ err value_error
unfolding relative_path
parent_refused = refl

logo_refused : require_content route "source/figures" ≡ err value_error
unfolding require_content relative_path
logo_refused = refl

relative_path-inside_example :
    ((at : List String) → walk_parts (split_slashes "a/b") at ≡ descend (split_slashes "a/b") at)
    × (relative_path "a/b" ≡ ok "a/b")
unfolding relative_path
relative_path-inside_example = relative_path-inside "a\\b" "a/b" refl

translate-translate_example : translate general true "source/spec.md" ≡ some "source/wot/spec.md"
unfolding translate remove_prefix
translate-translate_example =
    translate-translate general false "source/wot/spec.md" "source/spec.md" refl

route_translate_lem_example :
    (m : Mapping) × (target : String) × Longest route.mappings false "source/wot/model.xml" m target
    × (route_translate route false "source/wot/model.xml" ≡ relative_path target)
unfolding relative_path identity_layout translate remove_prefix
route_translate_lem_example =
    route_translate_lem route false "source/wot/model.xml" "source/wot/model.xml" refl refl general
      "source/model.xml" (inl refl) refl
