-- ===== src/Release/Manifest/Overlaps.antt =====
-- manifest.py: the files that a specification moves (`_is_under`, `_own_file_set`) and the check
-- `_validate_overlaps` that no file is moved twice. The files below a path of the repository, which
-- `_walk_files` reads from the file system, are the parameter `walk_files`. A set of files is the
-- list of its elements in the order in which they are added.
pub mod Owners
pub mod Tests
use opcua_drafts.Prelude.{
  String, Bool, true, false, not, ◌&&◌, ◌||◌, ◌==◌, none, some, List, [], ◌∷◌, ◌++◌, map, any, elem,
  filter, lookup, set, Result, ok, ◌>>=◌,
}
use opcua_drafts.Text.{append}
use opcua_drafts.Text.Strip.{strip_right}
use opcua_drafts.Text.Lines.{startswith}
use opcua_drafts.Release.Manifest.{Manifest, spec, spec_ids, closure, add_new}
use opcua_drafts.Release.Manifest.Publishers.{is_slash, norm}

-- `_is_under`
abbrev pub is_under : String → String → Bool
is_under path parent =
    norm path == norm parent
    || startswith (append (strip_right is_slash (norm parent)) "/") (norm path)

-- f"{file_path}: moved by both {prior} and {spec_id}"
pub data Overlap : Type 0 where
  moved_by_both : String → String → String → Overlap

-- `owners`
abbrev pub Owners : Type 0
Owners = List (String × String)

abbrev pub overlap : String → String → String → List String → List String → List Overlap
overlap file prior id prior_closure current_closure =
    elim (not (elem id prior_closure) && not (elem prior current_closure)) [
      | true ↦ moved_by_both file prior id ∷ []
      | false ↦ []
    ]

-- What the inner loop does with a file.
abbrev pub own_file : Manifest → String → String → Owners → Result (Owners × List Overlap)
own_file m id file owners = elim (lookup file owners) [
  | none ↦ ok (set file id owners, [])
  | some prior ↦ do
    prior_closure ← closure m prior
    current_closure ← closure m id
    ok (owners, overlap file prior id prior_closure current_closure)
]

abbrev pub own_files : Manifest → String → List String → Owners → Result (Owners × List Overlap)
own_files m id [] owners = ok (owners, [])
own_files m id (file ∷ files) owners = do
  one ← own_file m id file owners
  rest ← own_files m id files one.0
  ok (rest.0, one.1 ++ rest.1)

module _ (walk_files : String → List String) where
  abbrev pub moved_files : List String → List String → List String → List String
  moved_files keep_public [] files = files
  moved_files keep_public (move ∷ moves) files =
      moved_files keep_public moves
        (add_new (filter (λ file. not (any (is_under file) keep_public)) (walk_files move)) files)

  abbrev pub own_file_set : Manifest → String → Result (List String)
  own_file_set m id = do s ← spec m id; ok (moved_files (map norm s.keep_public) s.move [])

  abbrev pub own_all : Manifest → List String → Owners → Result (Owners × List Overlap)
  own_all m [] owners = ok (owners, [])
  own_all m (id ∷ ids) owners = do
    files ← own_file_set m id
    one ← own_files m id files owners
    rest ← own_all m ids one.0
    ok (rest.0, one.1 ++ rest.1)

  abbrev pub validate_overlaps : Manifest → Result (List Overlap)
  validate_overlaps m = do found ← own_all m (spec_ids m) []; ok found.1
