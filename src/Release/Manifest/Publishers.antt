-- ===== src/Release/Manifest/Publishers.antt =====
-- `_validate_publisher_specs` of manifest.py: what the publications of all specifications claim.
use opcua_drafts.Prelude.{
  ℕ, ◌+◌, String, Char, code, Bool, true, false, ◌==◌, Option, none, some, List, [], ◌∷◌, ◌++◌, eqb,
}
use opcua_drafts.Text.{is_empty}
use opcua_drafts.Text.Strip.{strip_left, strip_right, strip}

abbrev pub is_slash : Char → Bool
is_slash c = eqb (code c) b'/'

abbrev pub to_slashes : String → String
to_slashes String.[] = ""
to_slashes (String.◌∷◌ c s) = elim (eqb (code c) b'\\') [
  | true ↦ String.◌∷◌ "/" (to_slashes s)
  | false ↦ String.◌∷◌ c (to_slashes s)
]

-- `_norm`
unfoldable pub norm : String → String
norm path = strip_right is_slash (strip_left is_slash (to_slashes path))

-- An entry of `publisherSpecs`; `none` where the value is no text.
pub record Publication : Type 0 where
  pub published_id : Option String
  pub markdown : Option String
  pub document_number : Option String

-- f"{spec_id}.publisherSpecs[{index}]"
pub record Location : Type 0 where
  pub spec_id : String
  pub index : ℕ

-- The messages of the three tests.
pub data Clash : Type 0 where
  id_clash markdown_clash number_clash : String → Location → Location → Clash

abbrev pub Claims : Type 0
Claims = List (String × Location)

abbrev pub holder : String → Claims → Option Location
holder key [] = none
holder key ((k, l) ∷ rest) =
    let later = holder key rest in elim (k == key) [ true ↦ some l | false ↦ later ]

-- One test: `previous` or a new owner.
abbrev pub claim :
    (String → Location → Location → Clash) → Option String → Location → Claims → Claims × List Clash
claim clash none here owners = (owners, [])
claim clash (some key) here owners = elim (holder key owners) [
  | none ↦ ((key, here) ∷ owners, [])
  | some previous ↦ (owners, clash key previous here ∷ [])
]

-- `isinstance(value, str) and value`, normalized
abbrev pub claimed : (String → String) → Option String → Option String
claimed normalize none = none
claimed normalize (some s) = elim (is_empty s) [ true ↦ none | false ↦ some (normalize s) ]

abbrev pub id_key : Publication → Option String
id_key p = claimed strip p.published_id

abbrev pub markdown_key : Publication → Option String
markdown_key p = claimed (λ s. norm (strip s)) p.markdown

abbrev pub number_key : Publication → Option String
number_key p = claimed strip p.document_number

-- The loops, over the publications in their order, with the three dicts.
abbrev pub clashes : Claims → Claims → Claims → List (Location × Publication) → List Clash
clashes ids markdowns numbers [] = []
clashes ids markdowns numbers ((here, p) ∷ rest) =
    let i = claim id_clash (id_key p) here ids in
    let m = claim markdown_clash (markdown_key p) here markdowns in
    let n = claim number_clash (number_key p) here numbers in
    i.1 ++ (m.1 ++ (n.1 ++ clashes i.0 m.0 n.0 rest))

abbrev pub enumerated : String → ℕ → List Publication → List (Location × Publication)
enumerated id at [] = []
enumerated id at (p ∷ ps) = (record { spec_id = id; index = at }, p) ∷ enumerated id (at + 1) ps

abbrev pub located : List (String × List Publication) → List (Location × Publication)
located [] = []
located ((id, ps) ∷ rest) = enumerated id 0 ps ++ located rest

-- `_validate_publisher_specs`, of the ids in the order of `spec_ids` with their publications.
unfoldable pub validate_publisher_specs : List (String × List Publication) → List Clash
validate_publisher_specs specs = clashes [] [] [] (located specs)
