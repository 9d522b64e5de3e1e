-- ===== src/Release/Manifest/Overlaps/Tests.antt =====
-- manifest.py: `_validate_overlaps` of small manifests.
use opcua_drafts.Prelude.{
  String, true, false, none, List, [], ◌∷◌, lookup, set, ok, ◌≡◌, refl, ◌==◌,
}
use opcua_drafts.Text.{remove_prefix}
use opcua_drafts.Release.Sorting.{str_le}
use opcua_drafts.Release.Manifest.{Manifest, Spec, closure, relation_closure, visit}
use opcua_drafts.Release.Manifest.Publishers.{norm}
use opcua_drafts.Release.Manifest.Overlaps.{Owners, moved_by_both, own_file_set, validate_overlaps}
use opcua_drafts.Release.Manifest.Overlaps.Owners.{Exclusive, validate_overlaps-Exclusive}

abbrev walk_files : String → List String
walk_files path = elim (path == "docs") [
  | true ↦ "docs/a.md" ∷ "docs/b.md" ∷ []
  | false ↦ path ∷ []
]

abbrev entry : List String → List String → List String → Spec
entry moves keep_public closes_over = record {
  submitted = true;
  released = false;
  move = moves;
  keep_public = keep_public;
  closes_over = closes_over;
  vendors = [];
  release_group = none;
}

abbrev shared : Manifest
shared =
    ("a", entry ("docs" ∷ []) ("docs/b.md/" ∷ []) [])
    ∷ ("b", entry ("docs" ∷ []) [] ("a" ∷ []))
    ∷ []

abbrev clashing : Manifest
clashing =
    ("a", entry ("docs" ∷ []) ("docs/b.md/" ∷ []) [])
    ∷ ("b", entry ("docs" ∷ "docs/a.md" ∷ []) [] [])
    ∷ []

kept_public : own_file_set walk_files shared "a" ≡ ok ("docs/a.md" ∷ [])
unfolding norm remove_prefix
kept_public = refl

no_overlap : validate_overlaps walk_files shared ≡ ok []
unfolding norm remove_prefix closure relation_closure visit str_le lookup set
no_overlap = refl

one_overlap : validate_overlaps walk_files clashing ≡ ok (moved_by_both "docs/a.md" "a" "b" ∷ [])
unfolding norm remove_prefix closure relation_closure visit str_le lookup set
one_overlap = refl

validate_overlaps-Exclusive_example : (owners : Owners) × Exclusive walk_files shared owners
validate_overlaps-Exclusive_example = validate_overlaps-Exclusive walk_files shared no_overlap
