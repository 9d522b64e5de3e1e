-- ===== src/Release/Manifest.antt =====
-- manifest.py: the specifications of release/manifest.json and the closure of a release. The
-- records hold what `_validate_shape` accepts.
pub mod Walk
pub mod Known
pub mod Links
pub mod Closure
pub mod Vendored
pub mod Relations
pub mod Overlaps
pub mod Publishers
pub mod Cycles
pub mod PublisherIds
pub mod PublisherTests
pub mod Tests
use opcua_drafts.Prelude.{
  filter, ℕ, zero, suc, String, Bool, true, false, not, ◌&&◌, ◌||◌, Option, none, some, List, [],
  ◌∷◌, ◌++◌, length, map, ◌==◌, elem, Result, ok, err, key_error, recursion_error, ◌>>=◌, ◌≡◌, refl,
}
use opcua_drafts.Release.Sorting.{sort}

pub record Spec : Type 0 where
  pub submitted : Bool
  pub released : Bool
  pub move : List String
  pub keep_public : List String
  pub closes_over : List String
  pub vendors : List String
  pub release_group : Option String

-- `_specs`: a dict in the order of its keys.
abbrev pub Manifest : Type 0
Manifest = List (String × Spec)

-- `spec`
abbrev pub spec : Manifest → String → Result Spec
spec [] id = err key_error
spec ((key, s) ∷ m) id = let rest = spec m id in elim (key == id) [ true ↦ ok s | false ↦ rest ]

abbrev pub keys : Manifest → List String
keys [] = []
keys ((key, s) ∷ m) = key ∷ keys m

-- `spec_ids`
abbrev pub spec_ids : Manifest → List String
spec_ids m = sort (keys m)

-- `self.spec(current).get("releaseGroup") == group`, which is asked of known ids only.
abbrev pub has_group : Manifest → String → String → Bool
has_group m group current = elim (spec m current) [
  | err e ↦ false
  | ok s ↦ elim (s.release_group) [ none ↦ false | some g ↦ g == group ]
]

-- The other ids of a group, if there is one.
abbrev pub group_members : Manifest → String → Option String → List String
group_members m id none = []
group_members m id (some group) = elim (group == "") [
  | true ↦ []
  | false ↦ filter (λ current. not (current == id) && has_group m group current) (spec_ids m)
]

-- `_release_group_members`
abbrev pub release_group_members : Manifest → String → Result (List String)
release_group_members m id = do s ← spec m id; ok (group_members m id s.release_group)

pub data Relation : Type 0 where
  closure_relation vendor_relation : Relation

-- `self.spec(current).get(relation, [])`
abbrev pub related : Relation → Spec → List String
related closure_relation s = s.closes_over
related vendor_relation s = s.vendors

-- The peers in the release group, which only the closure follows.
abbrev pub peers : Manifest → Relation → String → Result (List String)
peers m closure_relation current = release_group_members m current
peers m vendor_relation current = ok []

-- The ids that one `visit` calls itself on, in this order.
abbrev pub neighbours : Manifest → Relation → String → Result (List String)
neighbours m relation current = do
  group ← peers m relation current
  s ← spec m current
  ok (group ++ sort (related relation s))

-- `seen` and `result`, which `visit` shares with its caller.
pub record Visited : Type 0 where
  pub seen : List String
  pub result : List String

module _ (next : String → Result (List String)) (keep : String → Bool) where
  abbrev pub note : String → Visited → Visited
  note current v = record {
    seen = v.seen ++ current ∷ [];
    result = elim (keep current) [ true ↦ v.result ++ current ∷ [] | false ↦ v.result ];
  }

  -- A loop of `visit` calls.
  abbrev pub visit_all :
      (String → Visited → Result Visited) → List String → Visited → Result Visited
  visit_all call [] v = ok v
  visit_all call (x ∷ xs) v = do w ← call x v; visit_all call xs w

  -- `visit`; the fuel stands for Python's stack.
  unfoldable pub visit : ℕ → String → Visited → Result Visited
  visit zero current v = err recursion_error
  visit (suc n) current v =
      let walk = visit_all (visit n) in
      elim (elem current v.seen) [
        | true ↦ ok v
        | false ↦ next current >>= λ xs. walk xs (note current v)
      ]

-- `include_self or current != spec_id`
abbrev pub kept : Bool → String → String → Bool
kept include_self id current = include_self || not (current == id)

-- The ids that `visit` is first called on.
abbrev pub starts : Manifest → Relation → Bool → String → Result (List String)
starts m relation true id = ok (id ∷ [])
starts m relation false id = spec m id >>= λ s. ok (sort (related relation s))

-- `_relation_closure`; every nested `visit` adds a known id to `seen`.
unfoldable pub relation_closure : Manifest → Relation → Bool → String → Result (List String)
relation_closure m relation include_self id = do
  s ← spec m id
  first ← starts m relation include_self id
  v ←
      visit_all (neighbours m relation) (kept include_self id)
        (visit (neighbours m relation) (kept include_self id) (suc (length (keys m)))) first
        (record { seen = []; result = [] })
  ok v.result

-- `closure`
unfoldable pub closure : Manifest → String → Result (List String)
closure m id = relation_closure m closure_relation true id

-- The inner loop of `vendor`.
abbrev pub add_new : List String → List String → List String
add_new [] acc = acc
add_new (x ∷ xs) acc = elim (elem x acc) [
  | true ↦ add_new xs acc
  | false ↦ add_new xs (acc ++ x ∷ [])
]

abbrev pub vendor_all : Manifest → List String → List String → Result (List String)
vendor_all m [] acc = ok acc
vendor_all m (moving ∷ more) acc = do
  vendored ← relation_closure m vendor_relation false moving
  vendor_all m more (add_new vendored acc)

-- `vendor`
unfoldable pub vendor : Manifest → String → Result (List String)
vendor m id = do moving ← closure m id; vendor_all m moving []

-- The condition of the comprehension of `dependents`.
abbrev pub selects : Manifest → String → String → Result Bool
selects m id current = elim (current == id) [
  | true ↦ ok false
  | false ↦ do
    s ← spec m current
    elim (s.submitted) [
      | false ↦ ok false
      | true ↦ do reached ← closure m current; ok (elem id reached)
    ]
]

abbrev pub depends_on : Manifest → String → List String → Result (List String)
depends_on m id [] = ok []
depends_on m id (current ∷ more) = do
  selected ← selects m id current
  rest ← depends_on m id more
  ok (elim selected [ true ↦ current ∷ rest | false ↦ rest ])

-- `dependents`
unfoldable pub dependents : Manifest → String → Result (List String)
dependents m id = do s ← spec m id; depends_on m id (spec_ids m)
