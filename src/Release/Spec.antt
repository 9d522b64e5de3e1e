-- ===== src/Release/Spec.antt =====
-- release_spec.py: the specifications that move and those that are vendored with them.
pub mod Vendors
pub mod Agreement
pub mod Tests
use opcua_drafts.Prelude.{
  ℕ, suc, String, Bool, true, false, List, [], ◌∷◌, ◌++◌, length, map, elem, Result, ok, err, ◌>>=◌,
}
use opcua_drafts.Release.Manifest.{Manifest, Spec, spec, keys, closure, Visited, visit_all, visit}
use opcua_drafts.Release.Manifest.Publishers.{norm}

-- The ids that `visit_vendor` calls itself on; it normalizes the id that it is given.
abbrev pub vendor_next : Manifest → String → Result (List String)
vendor_next m id = spec m id >>= λ s. ok (map norm s.vendors)

-- `moving_specs`
unfoldable pub moving_specs : Manifest → String → Result (List String)
moving_specs m id = do
  ids ← closure m id
  ok (elim (elem id (map norm ids)) [ true ↦ map norm ids | false ↦ id ∷ map norm ids ])

-- The calls of `visit_vendor` in the two loops of `vendor_specs`, in their order.
abbrev pub vendor_calls : Manifest → List String → Result (List String)
vendor_calls m [] = ok []
vendor_calls m (moving ∷ more) = do
  s ← spec m moving
  rest ← vendor_calls m more
  ok (map norm s.vendors ++ rest)

abbrev pub everything : String → Bool
everything id = true

-- `vendor_specs`; the fuel stands for Python's stack, as in the manifest.
unfoldable pub vendor_specs : Manifest → String → Result (List String)
vendor_specs m id = do
  moving ← moving_specs m id
  calls ← vendor_calls m moving
  v ←
      visit_all (vendor_next m) everything
        (visit (vendor_next m) everything (suc (length (keys m)))) calls
        (record { seen = []; result = [] })
  ok v.result
