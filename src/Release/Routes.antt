-- ===== src/Release/Routes.antt =====
-- review_routes.py: the paths of a public repository and of a review repository, and the mappings
-- between them.
pub mod Paths
pub mod Translation
pub mod Longest
pub mod Export
pub mod ClosureRoutes
pub mod Collisions
pub mod ExportTests
pub mod Tests
use opcua_drafts.Prelude.{
  ℕ, String, Char, code, Bool, true, false, not, ◌&&◌, ◌||◌, Option, none, some, List, [], ◌∷◌,
  ◌++◌, any, all, elem, ltb, leb, eqb, ◌==◌, Result, ok, err, value_error, from_option, ◌>>=◌,
  if◌then◌else◌, ◌≡◌, refl,
}
use opcua_drafts.Text.{text_length, is_empty, append, remove_prefix}

-- value.replace("\\", "/")
abbrev pub forward_slashes : String → String
forward_slashes String.[] = ""
forward_slashes (String.◌∷◌ c s) = elim (eqb (code c) b'\\') [
  | true ↦ String.◌∷◌ "/" (forward_slashes s)
  | false ↦ String.◌∷◌ c (forward_slashes s)
]

-- value.split("/")
abbrev pub add_to_first : Char → List String → List String
add_to_first c [] = []
add_to_first c (s ∷ ss) = String.◌∷◌ c s ∷ ss

abbrev pub split_slashes : String → List String
split_slashes String.[] = "" ∷ []
split_slashes (String.◌∷◌ c s) =
    let rest = split_slashes s in
    elim (eqb (code c) b'/') [ true ↦ "" ∷ rest | false ↦ add_to_first c rest ]

-- re.match(r"^[A-Za-z]:", value)
abbrev pub is_letter : Char → Bool
is_letter c = leb b'A' (code c) && leb (code c) b'Z' || leb b'a' (code c) && leb (code c) b'z'

abbrev pub has_drive : String → Bool
has_drive (String.◌∷◌ c (String.◌∷◌ d s)) = is_letter c && eqb (code d) b':'
has_drive _ = false

abbrev pub starts_with_slash : String → Bool
starts_with_slash String.[] = false
starts_with_slash (String.◌∷◌ c s) = eqb (code c) b'/'

abbrev pub unsafe_part : String → Bool
unsafe_part part = elem part ("" ∷ "." ∷ ".." ∷ [])

-- The condition under which `relative_path` refuses a text without backslashes.
abbrev pub unsafe : String → Bool
unsafe value = starts_with_slash value || has_drive value || any unsafe_part (split_slashes value)

-- `relative_path`
unfoldable pub relative_path : String → Result String
relative_path value =
    if is_empty value
    then err value_error
    else if unsafe (forward_slashes value)
    then err value_error
    else ok (forward_slashes value)

-- `under`
abbrev pub under : String → String → Bool
under path prefix =
    path == prefix || elim (remove_prefix (append prefix "/") path) [ none ↦ false | some r ↦ true ]

pub record Mapping : Type 0 where
  pub public : String
  pub review : String
  pub directory : Bool

-- The two sides of a mapping, `source` first.
abbrev pub source_of : Bool → Mapping → String
source_of true m = m.review
source_of false m = m.public

abbrev pub target_of : Bool → Mapping → String
target_of true m = m.public
target_of false m = m.review

-- path[len(source):] of a path that starts with the source and a slash
abbrev pub translate_inside : String → String → String → Option String
translate_inside source target path = elim (remove_prefix (append source "/") path) [
  | none ↦ none
  | some rest ↦ some (append target (append "/" rest))
]

-- `Mapping.translate`
unfoldable pub translate : Mapping → Bool → String → Option String
translate m reverse path = elim (path == source_of reverse m) [
  | true ↦ some (target_of reverse m)
  | false ↦ elim (m.directory) [
    | true ↦ translate_inside (source_of reverse m) (target_of reverse m) path
    | false ↦ none
  ]
]

pub record Route : Type 0 where
  pub repository : String
  pub mappings : List Mapping
  pub excluded : List String
  pub legacy_layout : Bool

-- sorted(mappings, key=len of the source, reverse=True), which keeps the order of equal keys.
abbrev pub insert_longest : Bool → Mapping → List Mapping → List Mapping
insert_longest reverse m [] = m ∷ []
insert_longest reverse m (n ∷ ns) =
    let rest = insert_longest reverse m ns in
    elim (leb (text_length (source_of reverse n)) (text_length (source_of reverse m))) [
      | true ↦ m ∷ n ∷ ns
      | false ↦ n ∷ rest
    ]

abbrev pub longest_first : Bool → List Mapping → List Mapping
longest_first reverse [] = []
longest_first reverse (m ∷ ms) = insert_longest reverse m (longest_first reverse ms)

-- The loop of `Route.translate`.
abbrev pub translate_first : List Mapping → Bool → String → Result String
translate_first [] reverse path = err value_error
translate_first (m ∷ ms) reverse path = elim (translate m reverse path) [
  | some found ↦ relative_path found
  | none ↦ translate_first ms reverse path
]

unfoldable pub identity_layout : Route → Bool
identity_layout r = r.legacy_layout && elim (r.mappings) [ [] ↦ true | m ∷ ms ↦ false ]

-- `Route.translate`
unfoldable pub route_translate : Route → Bool → String → Result String
route_translate r reverse value = do
  path ← relative_path value
  if identity_layout r
      then ok path
      else translate_first (longest_first reverse r.mappings) reverse path

-- `Route.excludes`
abbrev pub excludes : Route → String → Bool
excludes r path = any (under path) r.excluded

abbrev pub protected_roots : List String
protected_roots =
    ".github" ∷ ".config" ∷ ".git" ∷ ".gitignore" ∷ ".gitattributes" ∷ ".gitmodules"
    ∷ ".markdownlint-cli2.yaml" ∷ "AUTHORING.md" ∷ "legal.md" ∷ "skills" ∷ "templates" ∷ "tools"
    ∷ "install-tools.ps1" ∷ "install-tools.sh" ∷ "docs" ∷ "artifacts" ∷ []

abbrev pub protected_source : List String
protected_source = "agreement-of-use.md" ∷ "logo-left.jpg" ∷ "logo-right.jpg" ∷ "figures" ∷ []

abbrev pub not_content : String → Bool
not_content part = part == "word-drafts" || not (elem part ("source" ∷ "model" ∷ "extras" ∷ []))

-- The tests of `require_content` on the parts of a safe path.
abbrev pub protects : Bool → List String → Bool
protects legacy [] = true
protects legacy (part ∷ []) = elem part protected_roots || not legacy && not_content part
protects legacy (part ∷ next ∷ rest) =
    elem part protected_roots
    || part == "source" && elem next protected_source
    || not legacy && not_content part

-- `Route.require_content`
unfoldable pub require_content : Route → String → Result (Unit {0})
require_content r value = do
  path ← relative_path value
  if protects r.legacy_layout (split_slashes path) then err value_error else ok tt
