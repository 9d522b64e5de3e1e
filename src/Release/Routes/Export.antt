-- ===== src/Release/Routes/Export.antt =====
-- review_routes.py: the routes of specifications, and the files that a release exports.
use opcua_drafts.Prelude.{
  ℕ, String, Char, code, Bool, true, false, not, ◌&&◌, ◌||◌, Option, none, some, List, [], ◌∷◌,
  ◌++◌, all, elem, map, leb, ltb, eqb, ◌==◌, Result, ok, err, value_error, key_error, ◌>>=◌,
  if◌then◌else◌,
}
use opcua_drafts.Text.{is_empty, split_at}
use opcua_drafts.Release.Manifest.{Manifest, spec, spec_ids, closure}
use opcua_drafts.Release.Routes.{
  is_letter, relative_path, under, Mapping, Route, excludes, require_content, route_translate,
}
use opcua_drafts.Text.{text_length}

-- An entry of `reviewRepositories`.
pub record ReviewRepository : Type 0 where
  pub repository : String
  pub submodule : String

-- What route_for reads of a specification's entry.
pub record Review : Type 0 where
  pub review_repository : String
  pub review_paths : List Mapping
  pub review_exclude : List String

-- The manifest with its reviews and repositories.
pub record Plan : Type 0 where
  pub specs : Manifest
  pub reviews : List (String × Review)
  pub repositories : List (String × ReviewRepository)
  pub private_repo : String

abbrev pub find {ℓ} : {A : Type ℓ} → String → List (String × A) → Option A
find key [] = none
find key ((k, a) ∷ rest) =
    let later = find key rest in elim (k == key) [ true ↦ some a | false ↦ later ]

-- [A-Za-z0-9_.-]
abbrev pub is_repository_char : Char → Bool
is_repository_char c =
    is_letter c
    || leb b'0' (code c) && leb (code c) b'9'
    || eqb (code c) b'_'
    || eqb (code c) b'.'
    || eqb (code c) b'-'

abbrev pub all_chars : (Char → Bool) → String → Bool
all_chars p String.[] = true
all_chars p (String.◌∷◌ c s) = p c && all_chars p s

abbrev pub is_name : String → Bool
is_name s = not (is_empty s) && all_chars is_repository_char s

-- re.fullmatch of "owner/name"
abbrev pub is_repository : String → Bool
is_repository s = elim (split_at "/" s) [ none ↦ false | some p ↦ is_name p.0 && is_name p.1 ]

-- `config`; "core" has a default.
abbrev pub configured : Plan → String → Result ReviewRepository
configured plan key = elim (find key plan.repositories) [
  | some c ↦ ok c
  | none ↦
      if key == "core"
      then ok (record { repository = plan.private_repo; submodule = "spec-drafts" })
      else err value_error
]

abbrev pub safe_mappings : List Mapping → Result (List Mapping)
safe_mappings [] = ok []
safe_mappings (m ∷ ms) = do
  p ← relative_path m.public
  r ← relative_path m.review
  rest ← safe_mappings ms
  ok (record { public = p; review = r; directory = m.directory } ∷ rest)

abbrev pub safe_paths : List String → Result (List String)
safe_paths [] = ok []
safe_paths (p ∷ ps) = do q ← relative_path p; rest ← safe_paths ps; ok (q ∷ rest)

abbrev pub require_all : Route → List Mapping → Result (Unit {0})
require_all route [] = ok tt
require_all route (m ∷ ms) = do u ← require_content route m.review; require_all route ms

abbrev pub distinct : List String → Bool
distinct [] = true
distinct (x ∷ xs) = not (elem x xs) && distinct xs

abbrev pub no_mappings : List Mapping → Bool
no_mappings [] = true
no_mappings (m ∷ ms) = false

-- No two mappings share a side.
abbrev pub unambiguous : List Mapping → Bool
unambiguous ms = distinct (map (λ m. m.public) ms) && distinct (map (λ m. m.review) ms)

-- `route_for`; the group of a repository, which only messages name, is left out.
unfoldable pub route_for : Plan → String → Result Route
route_for plan id = do
  s ← spec plan.specs id
  review ← elim (find id plan.reviews) [ none ↦ err key_error | some r ↦ ok r ]
  let key = review.review_repository
  config ← configured plan key
  u ← if is_repository config.repository then ok (tt {0}) else err value_error
  mappings ← safe_mappings review.review_paths
  let legacy = key == "core"
  v ← if not legacy && no_mappings mappings then err value_error else ok (tt {0})
  submodule ← relative_path config.submodule
  excluded ← safe_paths review.review_exclude
  let route : Route = record {
    repository = config.repository;
    mappings = mappings;
    excluded = excluded;
    legacy_layout = legacy;
  }
  w ← require_all route mappings
  x ← if unambiguous mappings then ok (tt {0}) else err value_error
  ok route

abbrev pub routes_for : Plan → List String → Result (List (String × Route))
routes_for plan [] = ok []
routes_for plan (id ∷ ids) = do
  r ← route_for plan id
  rest ← routes_for plan ids
  ok ((id, r) ∷ rest)

-- len({route.repository for ...}) == 1
abbrev pub one_repository : List (String × Route) → Bool
one_repository [] = false
one_repository (r ∷ rs) = all (λ q. q.1.repository == r.1.repository) rs

-- `closure_routes`
unfoldable pub closure_routes : Plan → String → Result (List (String × Route))
closure_routes plan id = do
  ids ← closure plan.specs id
  routes ← routes_for plan ids
  if one_repository routes then ok routes else err value_error

-- A candidate of `owner_for_public`.
pub record Owner : Type 0 where
  pub size : ℕ
  pub owner : String
  pub route : Route

-- The longer of two candidates, the first where they are equal.
abbrev pub better : Owner → Option Owner → Owner
better o none = o
better o (some p) = elim (ltb o.size p.size) [ true ↦ p | false ↦ o ]

abbrev pub best_prefix : String → Route → String → List String → Option Owner → Option Owner
best_prefix id route path [] later = later
best_prefix id route path (prefix ∷ ps) later =
    let rest = best_prefix id route path ps later in
    elim (under path prefix) [
      | true ↦ some (better (record { size = text_length prefix; owner = id; route = route }) rest)
      | false ↦ rest
    ]

abbrev pub candidates : Plan → String → List String → Result (Option Owner)
candidates plan path [] = ok none
candidates plan path (id ∷ ids) = do
  route ← route_for plan id
  s ← spec plan.specs id
  later ← candidates plan path ids
  ok (best_prefix id route path (map (λ (m : Mapping). m.public) route.mappings ++ s.move) later)

-- `owner_for_public`
unfoldable pub owner_for_public : Plan → String → Result Owner
owner_for_public plan value = do
  path ← relative_path value
  found ← candidates plan path (spec_ids plan.specs)
  elim found [ none ↦ err value_error | some o ↦ ok o ]

-- The loop of `public_file_map`, with `routes` and `targets`.
abbrev pub has_id {ℓ} : {A : Type ℓ} → String → List (String × A) → Bool
has_id key [] = false
has_id key ((k, a) ∷ rest) = k == key || has_id key rest

unfoldable pub export_files :
    Plan → List (String × Route) → List String → List String → Result (List (String × String))
export_files plan routes targets [] = ok []
export_files plan routes targets (path ∷ paths) = do
  o ← owner_for_public plan path
  u ← if has_id o.owner routes then ok (tt {0}) else err value_error
  elim (excludes o.route path) [
    | true ↦ export_files plan routes targets paths
    | false ↦ do
      target ← route_translate o.route false path
      v ← require_content o.route target
      w ← if elem target targets then err value_error else ok (tt {0})
      rest ← export_files plan routes (target ∷ targets) paths
      ok ((path, target) ∷ rest)
  ]

-- `public_file_map`
unfoldable pub public_file_map : Plan → String → List String → Result (List (String × String))
public_file_map plan id files = do
  routes ← closure_routes plan id
  export_files plan routes [] files
